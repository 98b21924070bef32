-- ===== src/Localvec/Snapshots/Own.antt =====
-- The files of a new generation, which no other generation uses.
use edge_proc.Prelude.{
  ◌≡◌, ◌≢◌, ◌∙◌, sym, inl, inr, true, false, ◌||◌, not, Text, length, ◌==◌, nat_eq, text_eq, arith,
  Bool-cases,
}
use edge_proc.Localvec.Snapshots.{
  is_manifest, index_final, state_final, index_temp, state_temp, manifest_temp,
}
use edge_proc.Localvec.Snapshots.Names.{
  length-manifest, length-index_final, length-state_final, length-index_temp, length-state_temp,
  length-manifest_temp, other_length, other_index, other_state,
}

-- A name that only the new generation uses
pub record Own (gen t : Text) : Type 0 where
  pub no_manifest : is_manifest t ≡ false
  pub no_index : (g : Text) → (not (length g == 32) || g == gen || not (t == index_final g)) ≡ true
  pub no_state : (g : Text) → (not (length g == 32) || g == gen || not (t == state_final g)) ≡ true

-- A name of none of the lengths of the files that count
new_length : (gen t : Text) → length t ≢ 34 → length t ≢ 38 → length t ≢ 43 → Own gen t
new_length gen t m i s = record {
  no_manifest = elim (Bool-cases (is_manifest t)) [
    | inl yes' ↦ absurd (m (length-manifest t yes'))
    | inr no' ↦ no'
  ];
  no_index = λ g. elim (nat_eq.dec (length g) 32) [
    | no n ↦ ground (arith, n)
    | yes e ↦ ground (
      arith,
      other_length t (index_final g) (λ e'. i (omega (arith, e', e, length-index_final g))),
    )
  ];
  no_state = λ g. elim (nat_eq.dec (length g) 32) [
    | no n ↦ ground (arith, n)
    | yes e ↦ ground (
      arith,
      other_length t (state_final g) (λ e'. s (omega (arith, e', e, length-state_final g))),
    )
  ];
}

pub index_temp-Own : (gen : Text) → length gen ≡ 32 → Own gen (index_temp gen)
index_temp-Own gen h =
    let e = length-index_temp gen in
    new_length gen (index_temp gen) (λ a. omega (arith, a, e, h)) (λ a. omega (arith, a, e, h))
      (λ a. omega (arith, a, e, h))

pub state_temp-Own : (gen : Text) → length gen ≡ 32 → Own gen (state_temp gen)
state_temp-Own gen h =
    let e = length-state_temp gen in
    new_length gen (state_temp gen) (λ a. omega (arith, a, e, h)) (λ a. omega (arith, a, e, h))
      (λ a. omega (arith, a, e, h))

pub manifest_temp-Own : (gen uuid : Text) → length uuid ≡ 32 → Own gen (manifest_temp uuid)
manifest_temp-Own gen uuid h =
    let e = length-manifest_temp uuid in
    new_length gen (manifest_temp uuid) (λ a. omega (arith, a, e, h)) (λ a. omega (arith, a, e, h))
      (λ a. omega (arith, a, e, h))

no_manifest-length : (t : Text) → length t ≢ 34 → is_manifest t ≡ false
no_manifest-length t h = elim (Bool-cases (is_manifest t)) [
  | inl yes' ↦ absurd (h (length-manifest t yes'))
  | inr no' ↦ no'
]

pub index_final-Own : (gen : Text) → length gen ≡ 32 → Own gen (index_final gen)
index_final-Own gen h = record {
  no_manifest =
      no_manifest-length (index_final gen) (λ e. omega (arith, e, h, length-index_final gen));
  no_index = λ g. elim (nat_eq.dec (length g) 32) [
    | no n ↦ ground (arith, n)
    | yes e ↦ elim (text_eq.dec g gen) [
      | yes same ↦ ground (arith, same)
      | no n ↦ ground (arith, other_index gen g (h ∙ sym e) (ground (arith, n)))
    ]
  ];
  no_state = λ g. elim (nat_eq.dec (length g) 32) [
    | no n ↦ ground (arith, n)
    | yes e ↦ ground (
      arith,
      other_length (index_final gen) (state_final g)
          (λ e'. omega (arith, e', e, h, length-index_final gen, length-state_final g)),
    )
  ];
}

pub state_final-Own : (gen : Text) → length gen ≡ 32 → Own gen (state_final gen)
state_final-Own gen h = record {
  no_manifest =
      no_manifest-length (state_final gen) (λ e. omega (arith, e, h, length-state_final gen));
  no_index = λ g. elim (nat_eq.dec (length g) 32) [
    | no n ↦ ground (arith, n)
    | yes e ↦ ground (
      arith,
      other_length (state_final gen) (index_final g)
          (λ e'. omega (arith, e', e, h, length-state_final gen, length-index_final g)),
    )
  ];
  no_state = λ g. elim (nat_eq.dec (length g) 32) [
    | no n ↦ ground (arith, n)
    | yes e ↦ elim (text_eq.dec g gen) [
      | yes same ↦ ground (arith, same)
      | no n ↦ ground (arith, other_state gen g (h ∙ sym e) (ground (arith, n)))
    ]
  ];
}
