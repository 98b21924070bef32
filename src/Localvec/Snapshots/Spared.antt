-- ===== src/Localvec/Snapshots/Spared.antt =====
-- The collection of old generations unlinks no file of the current snapshot.
use edge_proc.Prelude.{
  ◌≡◌, ◌∙◌, refl, sym, subst, ap, inl, inr, true, false, ◌&&◌, not, List, [], ◌∷◌, Text, length,
  all, keep_if, contains, leb, ◌==◌, nat_eq, text_eq, arith, Bool-cases, Option-cases,
}
use edge_proc.Prelude.Codes.{codes}
use edge_proc.Prelude.Dicts.{keys}
use edge_proc.Exec.{Result, ok, err, Result-cases, Keeps-bind, ◌>>=◌}
use edge_proc.Manifest.{is_hex}
use edge_proc.Keyring.Sorted.{all-sort_by}
use edge_proc.Localvec.Snapshots.{
  Files, Formats, SnapshotManifest, SnapshotPayload, well_formed, is_manifest, manifest_sequence,
  index_final, state_final, read_regular_bytes, parse_manifest, read_manifest, completes, ordered,
}
use edge_proc.Localvec.Snapshots.Commit.{
  is_generation_data, data_generation, unlink_each, generations, remove_unreferenced_data,
  unreferenced, to_keep, to_remove, collect_old_generations,
}
use edge_proc.Localvec.Snapshots.Names.{
  length-manifest, length-index_final, length-state_final, other_length, manifest-data,
  data_generation-hex,
}
use edge_proc.Localvec.Snapshots.Current.{Current, leads-ordered}
use edge_proc.Localvec.Snapshots.Stable.{length-generation}
use edge_proc.Localvec.Snapshots.Collect.{
  spare, payload-generation, unlink_each-Current, all-kept, leads-kept, contains-generations,
}

generation-hex :
    (g : Text)
    → all is_hex g ≡ true
    → (data_generation (index_final g) ≡ g) × (data_generation (state_final g) ≡ g)
unfolding index_final state_final
generation-hex g h =
    (data_generation-hex g (codes "faiss") h, data_generation-hex g (codes "state.json") h)

hex-well_formed : (m : SnapshotManifest) → well_formed m ≡ true → all is_hex m.generation ≡ true
unfolding well_formed
hex-well_formed m h = ground arith

module _ (x : Formats) where
  read-hex :
      (files : Files) (y : Text) (m : SnapshotManifest)
      → read_manifest x files y ≡ ok m
      → all is_hex m.generation ≡ true
  unfolding read_manifest parse_manifest
  read-hex files y m h = elim (Result-cases (read_regular_bytes files y)) [
    | inr (e, bad) ↦ absurd (ground (arith, bad, h))
    | inl (bytes', good) ↦ elim (Option-cases (x.load bytes')) [
      | inl none' ↦ absurd (ground (arith, good, none', h))
      | inr (n, some') ↦ elim (Bool-cases (well_formed n)) [
        | inr no' ↦ absurd (ground (arith, good, some', no', h))
        | inl yes' ↦ ground (arith, good, some', yes', h, hex-well_formed n yes')
      ]
    ]
  ]

  spare-manifest :
      (name g t : Text)
      → length g ≡ 32
      → is_manifest t ≡ true
      → (t == name) ≡ false
      → spare name g t ≡ true
  spare-manifest name g t size h ne =
      let sized = length-manifest t h in
      ground (
        arith,
        ne,
        other_length t (index_final g) (λ e. omega (arith, e, size, sized, length-index_final g)),
        other_length t (state_final g) (λ e. omega (arith, e, size, sized, length-state_final g)),
      )

  spare-data :
      (name g t : Text) (gs : List Text)
      → all is_hex g ≡ true
      → is_manifest name ≡ true
      → contains gs g ≡ true
      → (is_generation_data t && not (contains gs (data_generation t))) ≡ true
      → spare name g t ≡ true
  spare-data name g t gs hex manifest kept h =
      let (at-index, at-state) = generation-hex g hex in
      let a : (t == name) ≡ false = elim (text_eq.dec t name) [
        | yes e ↦ absurd (ground (arith, ap is_generation_data e, manifest-data name manifest, h))
        | no n ↦ ground (arith, n)
      ] in
      let b : (t == index_final g) ≡ false = elim (text_eq.dec t (index_final g)) [
        | yes e ↦ absurd (
            ground (
              arith,
              ap (λ u. contains gs (data_generation u)) e,
              ap (contains gs) at-index,
              kept,
              h,
            ))
        | no n ↦ ground (arith, n)
      ] in
      let c : (t == state_final g) ≡ false = elim (text_eq.dec t (state_final g)) [
        | yes e ↦ absurd (
            ground (
              arith,
              ap (λ u. contains gs (data_generation u)) e,
              ap (contains gs) at-state,
              kept,
              h,
            ))
        | no n ↦ ground (arith, n)
      ] in
      ground (arith, a, b, c)

  all-is_manifest : (files : Files) → all is_manifest (ordered files) ≡ true
  unfolding ordered
  all-is_manifest files =
      all-sort_by (λ a b. leb (manifest_sequence b) (manifest_sequence a)) is_manifest
        (keep_if is_manifest (keys files))
      ∙ all-keep (keys files)
    where
      all-keep : (ks : List Text) → all is_manifest (keep_if is_manifest ks) ≡ true
      all-keep [] = refl
      all-keep (k ∷ ks) = ground (arith, all-keep ks)

  -- The data that a collection removes is not that of a generation that it keeps.
  pub unreferenced-spare :
      (name g : Text) (gs : List Text) (files : Files)
      → all is_hex g ≡ true
      → is_manifest name ≡ true
      → contains gs g ≡ true
      → all (spare name g) (unreferenced gs files) ≡ true
  unfolding unreferenced
  unreferenced-spare name g gs files hex manifest kept =
      all-kept x (λ t. true) (λ t. is_generation_data t && not (contains gs (data_generation t)))
        (spare name g) (keys files) (λ t u h. spare-data name g t gs hex manifest kept h)
        (all-true (keys files))
    where
      all-true : (ks : List Text) → all (λ t. true) ks ≡ true
      all-true [] = refl
      all-true (k ∷ ks) = all-true ks

  unkept :
      (ks : List Text) (name t : Text)
      → contains ks name ≡ true
      → not (contains ks t) ≡ true
      → (t == name) ≡ false
  unkept ks name t h n = elim (text_eq.dec t name) [
    | yes e ↦ absurd (ground (arith, ap (contains ks) e, h, n))
    | no ne ↦ ground (arith, ne)
  ]

  module _ (files : Files) (name : Text) (p : SnapshotPayload) (c : Current x files name p) where
    keep-contains : contains (to_keep x files) name ≡ true
    unfolding to_keep
    keep-contains =
        leads-kept x files name (ordered files) (ap (completes x) c.holds)
          (leads-ordered x files name p c)

    pub generation-is_hex : all is_hex p.revision.generation ≡ true
    generation-is_hex =
        let (m, read, same) = payload-generation x files name p c.holds in
        ap (all is_hex) (sym same) ∙ read-hex files name m read

    pub generation-kept :
        (gs : List Text)
        → generations x files (to_keep x files) ≡ ok gs
        → contains gs p.revision.generation ≡ true
    generation-kept gs h =
        let (m, read, same) = payload-generation x files name p c.holds in
        ap (contains gs) (sym same)
        ∙ contains-generations x files name m (to_keep x files) gs read h keep-contains

    -- The manifests that a collection removes are not the current one.
    pub to_remove-spare : all (spare name p.revision.generation) (to_remove x files) ≡ true
    unfolding to_remove
    to_remove-spare =
        let (m, read, same) = payload-generation x files name p c.holds in
        let size : length p.revision.generation ≡ 32 =
          ap length (sym same) ∙ length-generation x files name m read in
        all-kept x is_manifest (λ y. not (contains (to_keep x files) y))
          (spare name p.revision.generation) (ordered files)
          (λ t u n.
            spare-manifest name p.revision.generation t size u
              (unkept (to_keep x files) name t keep-contains n))
          (all-is_manifest files)

  -- Collecting the old generations, also where it stops at an error, keeps the current snapshot.
  pub collect-Current :
      (files : Files) (name : Text) (p : SnapshotPayload)
      → Current x files name p
      → Current x (collect_old_generations x files).1 name p
  unfolding collect_old_generations remove_unreferenced_data
  collect-Current files name p c = elim (Result-cases (generations x files (to_keep x files))) [
    | inr (e, bad) ↦
        let run : collect_old_generations x files ≡ (err e, files) =
          rw (collect_old_generations, bad) refl in
        subst (λ (r : Result (Unit {0}) × Files). Current x r.1 name p) (sym run) c
    | inl (gs, good) ↦
        let run : collect_old_generations x files
            ≡ (unlink_each (to_remove x files) >>= λ _. remove_unreferenced_data gs) files =
          rw (collect_old_generations, good) refl in
        subst (λ (r : Result (Unit {0}) × Files). Current x r.1 name p) (sym run)
          (Keeps-bind (λ d. Current x d name p) (unlink_each (to_remove x files))
            (λ _. remove_unreferenced_data gs)
            (unlink_each-Current x name p _ (to_remove-spare files name p c))
            (λ _ d kept.
              unlink_each-Current x name p _
                (unreferenced-spare name p.revision.generation gs d
                  (generation-is_hex files name p c) c.manifest
                  (generation-kept files name p c gs good))
                d kept)
            files c)
  ]
