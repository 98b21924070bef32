-- ===== src/Localvec/Snapshots/Stable.antt =====
-- Requests that touch only the files of a new generation leave the current snapshot.
use edge_proc.Prelude.{
  ◌≡◌, ◌∙◌, refl, sym, ap, ap₂, inl, inr, Bool, true, false, ◌||◌, not, Text, length, ltb, ◌==◌,
  nat_eq, text_eq, if◌then◌else◌, arith, Bool-cases, Option-cases,
}
use edge_proc.Prelude.Dicts.{get}
use edge_proc.Errors.{Error, value}
use edge_proc.Exec.{Result, ok, err, Result-cases}
use edge_proc.Localvec.Snapshots.{
  Files, Formats, SnapshotManifest, SnapshotPayload, well_formed, is_manifest, manifest_sequence,
  index_final, state_final, read_regular_bytes, parse_manifest, read_manifest, opened,
  open_verified_generation, payload, payload_at, completes, committed,
}
use edge_proc.Localvec.Snapshots.Current.{Current}
use edge_proc.Localvec.Snapshots.Own.{Own}

generation-well_formed : (m : SnapshotManifest) → well_formed m ≡ true → length m.generation ≡ 32
unfolding well_formed
generation-well_formed m h = ground arith

module _ (x : Formats) where
  abbrev named : Text → Result SnapshotManifest → Bool
  named gen (err e) = false
  named gen (ok m) = m.generation == gen

  abbrev pub names : Files → Text → Text → Bool
  names files gen y = named gen (read_manifest x files y)

  -- No manifest names the generation: `uuid4` gives a new one.
  pub record IsFresh (files : Files) (gen : Text) : Type 0 where
    pub unused : (y : Text) → (not (is_manifest y) || not (names files gen y)) ≡ true

  read_regular_bytes-cong :
      (files after : Files) (q : Text)
      → get after q ≡ get files q
      → read_regular_bytes after q ≡ read_regular_bytes files q
  unfolding read_regular_bytes
  read_regular_bytes-cong files after q e = rw (read_regular_bytes, e) refl

  pub read_manifest-cong :
      (files after : Files) (y : Text)
      → get after y ≡ get files y
      → read_manifest x after y ≡ read_manifest x files y
  unfolding read_manifest
  read_manifest-cong files after y e =
      rw (read_manifest, read_regular_bytes-cong files after y e) refl

  open-cong :
      (files after : Files) (m : SnapshotManifest)
      → get after (index_final m.generation) ≡ get files (index_final m.generation)
      → get after (state_final m.generation) ≡ get files (state_final m.generation)
      → open_verified_generation x after after m ≡ open_verified_generation x files files m
  unfolding open_verified_generation
  open-cong files after m i s =
      ap₂ (opened x m) (read_regular_bytes-cong files after (index_final m.generation) i)
        (read_regular_bytes-cong files after (state_final m.generation) s)

  pub payload-ok :
      (files : Files) (y : Text) (m : SnapshotManifest)
      → read_manifest x files y ≡ ok m
      → payload x files y ≡ (
          if m.sequence == manifest_sequence y
          then open_verified_generation x files files m
          else err value)
  unfolding payload payload_at
  payload-ok files y m e = rw (payload, payload_at, e) refl

  pub payload-err :
      (files : Files) (y : Text) (e : Error)
      → read_manifest x files y ≡ err e
      → payload x files y ≡ err e
  unfolding payload payload_at
  payload-err files y e h = rw (payload, payload_at, h) refl

  pub length-generation :
      (files : Files) (y : Text) (m : SnapshotManifest)
      → read_manifest x files y ≡ ok m
      → length m.generation ≡ 32
  unfolding read_manifest parse_manifest
  length-generation files y m h = elim (Result-cases (read_regular_bytes files y)) [
    | inr (e, bad) ↦ absurd (ground (arith, bad, h))
    | inl (bytes, good) ↦ elim (Option-cases (x.load bytes)) [
      | inl none' ↦ absurd (ground (arith, good, none', h))
      | inr (n, some') ↦ elim (Bool-cases (well_formed n)) [
        | inr no' ↦ absurd (ground (arith, good, some', no', h))
        | inl yes' ↦ ground (arith, good, some', yes', h, generation-well_formed n yes')
      ]
    ]
  ]

  pub payload-cong :
      (files after : Files) (y : Text) (m : SnapshotManifest)
      → read_manifest x files y ≡ ok m
      → get after y ≡ get files y
      → get after (index_final m.generation) ≡ get files (index_final m.generation)
      → get after (state_final m.generation) ≡ get files (state_final m.generation)
      → payload x after y ≡ payload x files y
  payload-cong files after y m read e i s =
      payload-ok after y m (read_manifest-cong files after y e ∙ read)
      ∙ ap (λ r. if m.sequence == manifest_sequence y then r else err value)
          (open-cong files after m i s)
      ∙ sym (payload-ok files y m read)

  payload-apart :
      (files after : Files) (gen t y : Text)
      → Own gen t
      → is_manifest y ≡ true
      → names files gen y ≡ false
      → ((q : Text) → (t == q) ≡ false → get after q ≡ get files q)
      → payload x after y ≡ payload x files y
  payload-apart files after gen t y own manifest fresh same =
      let e : get after y ≡ get files y = same y (apart-manifest y own manifest) in
      elim (Result-cases (read_manifest x files y)) [
        | inr (bad, h) ↦
            payload-err after y bad (read_manifest-cong files after y e ∙ h)
            ∙ sym (payload-err files y bad h)
        | inl (m, h) ↦
            let size = length-generation files y m h in
            payload-cong files after y m h e
              (same (index_final m.generation)
                (ground (arith, own.no_index m.generation, size, fresh, h)))
              (same (state_final m.generation)
                (ground (arith, own.no_state m.generation, size, fresh, h)))
      ]
    where
      apart-manifest :
          {gen t : Text} (y : Text) → Own gen t → is_manifest y ≡ true → (t == y) ≡ false
      apart-manifest {gen} {t} y own h = elim (text_eq.dec t y) [
        | yes e ↦ absurd (ground (arith, ap is_manifest e, h, own.no_manifest))
        | no n ↦ ground (arith, n)
      ]

  module _ (files after : Files) (gen t : Text) (own : Own gen t) where
    pub apart-committed :
        (y : Text)
        → IsFresh files gen
        → ((q : Text) → (t == q) ≡ false → get after q ≡ get files q)
        → committed x after y ≡ committed x files y
    apart-committed y fresh same = elim (Bool-cases (is_manifest y)) [
      | inr no' ↦ ground (arith, no')
      | inl yes' ↦ ground (
        arith,
        yes',
        payload-apart files after gen t y own yes' (ground (arith, fresh.unused y, yes')) same,
      )
    ]

    pub apart-IsFresh :
        IsFresh files gen
        → ((q : Text) → (t == q) ≡ false → get after q ≡ get files q)
        → IsFresh after gen
    apart-IsFresh fresh same = record {
      unused = λ y. elim (Bool-cases (is_manifest y)) [
        | inr no' ↦ ground (arith, no')
        | inl yes' ↦
            ap (λ r. not (is_manifest y) || not (named gen r))
              (read_manifest-cong files after y (same y (other y yes')))
            ∙ fresh.unused y
      ];
    }
      where
        other : (y : Text) → is_manifest y ≡ true → (t == y) ≡ false
        other y h = elim (text_eq.dec t y) [
          | yes e ↦ absurd (ground (arith, ap is_manifest e, h, own.no_manifest))
          | no n ↦ ground (arith, n)
        ]

  -- A directory whose manifests commit the same snapshots has the same current one.
  pub Current-same :
      (files after : Files) (name : Text) (p : SnapshotPayload)
      → ((y : Text) → committed x after y ≡ committed x files y)
      → Current x files name p
      → Current x after name p
  Current-same files after name p same c =
      let payload-eq : (y : Text) → is_manifest y ≡ true → payload x after y ≡ payload x files y =
        λ y h. ground (arith, same y, h) in
      record {
        manifest = c.manifest;
        holds = payload-eq name c.manifest ∙ c.holds;
        newest = λ y. elim (Bool-cases (is_manifest y)) [
          | inr no' ↦ ground (arith, no')
          | inl yes' ↦
              ap
                (λ r.
                  not (is_manifest y)
                  || (y == name
                      || not (completes x r)
                      || ltb (manifest_sequence y) (manifest_sequence name)))
                (payload-eq y yes')
              ∙ c.newest y
        ];
      }
