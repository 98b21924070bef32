-- ===== src/Localvec/Snapshots/Numbers.antt =====
-- The number of the next snapshot.
use edge_proc.Prelude.{
  ℕ, ◌^◌, ◌<◌, ◌≤◌, ◌≡◌, ◌∙◌, refl, ap, inl, inr, Bool, true, List, [], ◌∷◌, Text, keep_if,
  contains, nat_eq, text_eq, arith,
}
use edge_proc.Prelude.Dicts.{keys}
use edge_proc.Exec.{ok, Result-cases}
use edge_proc.Localvec.Snapshots.{
  Files, Formats, is_manifest, manifest_sequence, payload, is_complete, complete_manifests, newest,
  number_after, next_sequence,
}
use edge_proc.Localvec.Snapshots.Current.{listed}

newest-max : (ys : List Text) (y : Text) → contains ys y ≡ true → manifest_sequence y ≤ newest ys
newest-max [] y h = absurd (cc)
newest-max (z ∷ zs) y h = elim (text_eq.dec z y) [
  | yes e ↦ omega (arith, ap manifest_sequence e)
  | no n ↦ omega (arith, newest-max zs y (ground (arith, n)))
]

contains-keep_if :
    (p : Text → Bool) (ks : List Text) (q : Text)
    → p q ≡ true
    → contains (keep_if p ks) q ≡ contains ks q
contains-keep_if p [] q h = refl
contains-keep_if p (k ∷ ks) q h = elim (text_eq.dec k q) [
  | yes e ↦ ground (arith, e, ap p e, h, contains-keep_if p ks q h)
  | no n ↦ ground (arith, n, contains-keep_if p ks q h)
]

number-above :
    (ks : List Text) (y : Text) (n : ℕ)
    → number_after ks ≡ ok n
    → contains ks y ≡ true
    → manifest_sequence y < n
number-above [] y n h c = absurd (cc)
number-above (k ∷ ks) y n h c = ground (arith, h, newest-max (k ∷ ks) y c)

number-fits : (ks : List Text) (n : ℕ) → number_after ks ≡ ok n → (1 ≤ n) × (n < 10 ^ 20)
number-fits [] n h = (ground (arith, h), ground (arith, h))
number-fits (k ∷ ks) n h = (ground (arith, h), ground (arith, h))

module _ (x : Formats) where
  -- The next number is above that of every complete manifest, and fits in a name.
  pub next-above :
      (files : Files) (n : ℕ) (y : Text)
      → next_sequence x files ≡ ok n
      → is_manifest y ≡ true
      → is_complete x files y ≡ true
      → manifest_sequence y < n
  unfolding next_sequence complete_manifests
  next-above files n y h m c =
      let complete = complete_manifests x files (keep_if is_manifest (keys files)) in
      elim (Result-cases (payload x files y)) [
        | inr (e, bad) ↦ absurd (ground (arith, bad, c))
        | inl (p, good) ↦
            let known : contains complete y ≡ true =
              contains-keep_if (is_complete x files) (keep_if is_manifest (keys files)) y c
              ∙ contains-keep_if is_manifest (keys files) y m
              ∙ listed x files y p good in
            number-above complete y n h known
      ]

  pub next-fits : (files : Files) (n : ℕ) → next_sequence x files ≡ ok n → (1 ≤ n) × (n < 10 ^ 20)
  unfolding next_sequence
  next-fits files n h =
      number-fits (complete_manifests x files (keep_if is_manifest (keys files))) n h
