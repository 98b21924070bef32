-- ===== src/Localvec/Snapshots/Current.antt =====
-- The current snapshot: the complete one of the highest sequence, which a reader finds.
use edge_proc.Prelude.{
  ◌≡◌, ◌∙◌, refl, sym, ap, inl, inr, Bool, true, false, ◌&&◌, ◌||◌, not, some, List, [], ◌∷◌, Text,
  length, keep_if, all, contains, leb, ltb, ◌==◌, nat_eq, text_eq, arith, Bool-cases, Option-cases,
}
use edge_proc.Prelude.Dicts.{get, keys, has-get, has-keys}
use edge_proc.Exec.{ok, Result-cases}
use edge_proc.Keyring.Sorted.{insert_by, sort_by, all-sort_by}
use edge_proc.Disk.{path_eq}
use edge_proc.Localvec.Snapshots.{
  Files, Formats, SnapshotPayload, is_manifest, manifest_sequence, read_regular_bytes,
  read_manifest, payload, payload_at, first_complete, ordered, attempt, attempts, latest,
  is_complete,
}

abbrev pub later : Text → Text → Bool
later a b = leb (manifest_sequence b) (manifest_sequence a)

module _ (x : Formats) where
  -- Incomplete, or of a lower number
  abbrev pub below_or : Files → Text → Text → Bool
  below_or files name y =
      y == name || not (is_complete x files y) || ltb (manifest_sequence y) (manifest_sequence name)

  -- `name` is the commit that counts: no other complete one has so high a number.
  pub record Current (files : Files) (name : Text) (p : SnapshotPayload) : Type 0 where
    pub manifest : is_manifest name ≡ true
    pub holds : payload x files name ≡ ok p
    pub newest : (y : Text) → (not (is_manifest y) || below_or files name y) ≡ true

  -- All before the name are later and incomplete.
  abbrev pub leads : Files → Text → List Text → Bool
  leads files name [] = false
  leads files name (y ∷ ys) =
      y == name || not (is_complete x files y) && later y name && leads files name ys

  leads-insert_other :
      (files : Files) (name y : Text) (ys : List Text)
      → (y == name) ≡ false
      → below_or files name y ≡ true
      → leads files name ys ≡ true
      → leads files name (insert_by later y ys) ≡ true
  unfolding insert_by
  leads-insert_other files name y [] ne b h = absurd (cc)
  leads-insert_other files name y (z ∷ zs) ne b h = elim (text_eq.dec z name) [
    | yes e ↦ ground (arith, e, leads-insert_other files name y zs ne b)
    | no n ↦ ground (arith, n, leads-insert_other files name y zs ne b)
  ]

  leads-insert_name :
      (files : Files) (name : Text) (ys : List Text)
      → all (below_or files name) ys ≡ true
      → leads files name (insert_by later name ys) ≡ true
  unfolding insert_by
  leads-insert_name files name [] b = ground arith
  leads-insert_name files name (z ∷ zs) b = elim (text_eq.dec z name) [
    | yes e ↦ ground (arith, e, leads-insert_name files name zs)
    | no n ↦ ground (arith, n, leads-insert_name files name zs)
  ]

  leads-sort_by :
      (files : Files) (name : Text) (ys : List Text)
      → all (below_or files name) ys ≡ true
      → contains ys name ≡ true
      → leads files name (sort_by later ys) ≡ true
  unfolding sort_by
  leads-sort_by files name [] b h = absurd (cc)
  leads-sort_by files name (y ∷ ys) b h = elim (text_eq.dec y name) [
    | yes e ↦
        ap (λ z. leads files name (insert_by later z (sort_by later ys))) e
        ∙ leads-insert_name files name (sort_by later ys)
            (all-sort_by later (below_or files name) ys ∙ ground arith)
    | no n ↦
        leads-insert_other files name y (sort_by later ys) (ground (arith, n)) (ground arith)
          (leads-sort_by files name ys (ground arith) (ground (arith, n)))
  ]

  first_complete-leads :
      (files : Files) (name : Text) (p : SnapshotPayload) (ys : List Text)
      → payload x files name ≡ ok p
      → leads files name ys ≡ true
      → first_complete x (λ t. files) ys ≡ some p
  unfolding first_complete payload
  first_complete-leads files name p [] e h = absurd (cc)
  first_complete-leads files name p (y ∷ ys) e h = elim (text_eq.dec y name) [
    | yes same ↦ ground (arith, ap (payload x files) same ∙ e)
    | no n ↦ elim (Result-cases (payload x files y)) [
      | inl (q, ok') ↦ absurd (ground (arith, n, ok', h))
      | inr (e', bad) ↦
          ground (arith, bad, first_complete-leads files name p ys e (ground (arith, n, bad, h)))
    ]
  ]

  pub listed :
      (files : Files) (name : Text) (p : SnapshotPayload)
      → payload x files name ≡ ok p
      → contains (keys files) name ≡ true
  unfolding payload payload_at read_manifest read_regular_bytes
  listed files name p e = elim (Option-cases (get files name)) [
    | inl none' ↦ absurd (ground (arith, none', e))
    | inr (n, some') ↦ sym (has-keys files name) ∙ ground (arith, has-get files name, some')
  ]

  contains-kept :
      (ks : List Text) (q : Text)
      → is_manifest q ≡ true
      → contains (keep_if is_manifest ks) q ≡ contains ks q
  contains-kept [] q h = refl
  contains-kept (k ∷ ks) q h = elim (text_eq.dec k q) [
    | yes e ↦ ground (arith, e, h, contains-kept ks q h)
    | no n ↦ ground (arith, n, contains-kept ks q h)
  ]

  all-below :
      (files : Files) (name : Text) (p : SnapshotPayload) (ks : List Text)
      → Current files name p
      → all (below_or files name) (keep_if is_manifest ks) ≡ true
  all-below files name p [] c = refl
  all-below files name p (k ∷ ks) c = elim (Bool-cases (is_manifest k)) [
    | inr no' ↦ ground (arith, no', all-below files name p ks c)
    | inl yes' ↦ ground (arith, yes', all-below files name p ks c, c.newest k)
  ]

  pub leads-ordered :
      (files : Files) (name : Text) (p : SnapshotPayload)
      → Current files name p
      → leads files name (ordered files) ≡ true
  unfolding ordered
  leads-ordered files name p c =
      leads-sort_by files name (keep_if is_manifest (keys files))
        (all-below files name p (keys files) c)
        (contains-kept (keys files) name c.manifest ∙ listed files name p c.holds)

  some-listed :
      (files : Files) (name : Text) (ys : List Text)
      → leads files name ys ≡ true
      → (length ys == 0) ≡ false
  some-listed files name [] h = absurd (cc)
  some-listed files name (y ∷ ys) h = ground arith

  same-list : (ys : List Text) → (ys == ys) ≡ true
  same-list ys = elim (path_eq.dec ys ys) [ yes e ↦ ground (arith, e) | no n ↦ absurd (n refl) ]

  attempt-Current :
      (files : Files) (name : Text) (p : SnapshotPayload)
      → Current files name p
      → attempt x (λ t. files) ≡ some (ok p)
  unfolding attempt
  attempt-Current files name p c =
      let leading = leads-ordered files name p c in
      rw
        (
          some-listed files name (ordered files) leading,
          same-list (ordered files),
          first_complete-leads files name p (ordered files) c.holds leading,
        )
        refl

  -- While nothing changes the directory, a load gives the current snapshot.
  pub latest-Current :
      (files : Files) (name : Text) (p : SnapshotPayload)
      → Current files name p
      → latest x (λ t. files) ≡ ok p
  unfolding latest attempts
  latest-Current files name p c = rw (latest, attempts, attempt-Current files name p c) refl
