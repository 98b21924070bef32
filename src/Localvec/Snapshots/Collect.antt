-- ===== src/Localvec/Snapshots/Collect.antt =====
-- The collection of old generations keeps the current snapshot.
use edge_proc.Prelude.{
  ◌≡◌, ◌∙◌, ◌⊎◌, refl, sym, ap, ap₂, inl, inr, Bool, true, false, ◌&&◌, not, Option, none, some,
  List, [], ◌∷◌, Text, take, all, keep_if, contains, ◌==◌, nat_eq, text_eq, if◌then◌else◌, arith,
  Bool-cases,
}
use edge_proc.Prelude.Dicts.{get, del, get-del}
use edge_proc.Errors.{Error, value, os}
use edge_proc.Exec.{Result, ok, err, Result-cases, Keeps, Keeps-bind}
use edge_proc.Disk.{Node, file, directory, link}
use edge_proc.Localvec.Snapshots.{
  Files, Formats, SnapshotManifest, SnapshotPayload, retain_generations, manifest_sequence,
  index_final, state_final, read_regular_bytes, read_manifest, opened, open_verified_generation,
  payload, is_complete, completes, complete_manifests,
}
use edge_proc.Localvec.Snapshots.Commit.{unlink, unlink_each, generations}
use edge_proc.Localvec.Snapshots.Current.{leads, Current}
use edge_proc.Localvec.Snapshots.Stable.{payload-ok, payload-err, payload-cong, read_manifest-cong}

-- A file that the snapshot `name` of generation `g` does not need
abbrev pub spare : Text → Text → Text → Bool
spare name g t = not (t == name) && not (t == index_final g) && not (t == state_final g)

module _ (x : Formats) where
  open-eq :
      (files : Files) (m : SnapshotManifest)
      → open_verified_generation x files files m
        ≡ opened x m
            (read_regular_bytes files (index_final m.generation))
            (read_regular_bytes files (state_final m.generation))
  unfolding open_verified_generation
  open-eq files m = refl

  pub payload-generation :
      (files : Files) (name : Text) (p : SnapshotPayload)
      → payload x files name ≡ ok p
      → (m : SnapshotManifest) × (read_manifest x files name ≡ ok m)
        × (m.generation ≡ p.revision.generation)
  payload-generation files name p h = elim (Result-cases (read_manifest x files name)) [
    | inr (e, bad) ↦ absurd (ground (arith, payload-err x files name e bad, h))
    | inl (m, good) ↦ (
      m,
      good,
      from (m.sequence == manifest_sequence name) m
          (read_regular_bytes files (index_final m.generation))
          (read_regular_bytes files (state_final m.generation))
          (sym (by-open files m name) ∙ sym (payload-ok x files name m good) ∙ h),
    )
  ]
    where
      by-open :
          (files : Files) (m : SnapshotManifest) (name : Text)
          → (if m.sequence == manifest_sequence name
              then open_verified_generation x files files m
              else err value)
            ≡ (if m.sequence == manifest_sequence name
                then opened x m
                    (read_regular_bytes files (index_final m.generation))
                    (read_regular_bytes files (state_final m.generation))
                else err value)
      by-open files m name =
          ap (λ r. if m.sequence == manifest_sequence name then r else err value) (open-eq files m)

      from :
          (b : Bool) (m : SnapshotManifest) (i s : Result Text)
          → (if b then opened x m i s else err value) ≡ ok p
          → m.generation ≡ p.revision.generation
      from b m (err e) s e' = absurd (ground (arith, e'))
      from b m (ok i) (err e) e' = absurd (ground (arith, e'))
      from b m (ok i) (ok s) e' = ground (arith, e')

  -- Removing files makes no manifest complete.
  opened_mono :
      (m : SnapshotManifest) (i s i' s' : Result Text)
      → ((e : Error) × (i' ≡ err e)) ⊎ (i' ≡ i)
      → ((e : Error) × (s' ≡ err e)) ⊎ (s' ≡ s)
      → completes x (opened x m i' s') ≡ true
      → completes x (opened x m i s) ≡ true
  opened_mono m i s i' s' hi hs h = elim hi [
    | inl (e, bad) ↦ absurd (ground (arith, bad, h))
    | inr same ↦ elim hs [
      | inr same' ↦ ap (completes x) (ap₂ (opened x m) (sym same) (sym same')) ∙ h
      | inl (e, bad) ↦
          absurd (no-state i' e (ap (λ r. completes x (opened x m i' r)) (sym bad) ∙ h))
    ]
  ]
    where
      no-state : (i : Result Text) (e : Error) → completes x (opened x m i (err e)) ≡ true → ⊥
      no-state (ok t) e h = absurd (cc)
      no-state (err e') e h = absurd (cc)

  read-gone :
      (files after : Files) (q : Text)
      → (get after q ≡ none) ⊎ (get after q ≡ get files q)
      → ((e : Error) × (read_regular_bytes after q ≡ err e))
        ⊎ (read_regular_bytes after q ≡ read_regular_bytes files q)
  unfolding read_regular_bytes
  read-gone files after q (inl gone) = inl (os, rw (read_regular_bytes, gone) refl)
  read-gone files after q (inr same) = inr (rw (read_regular_bytes, same) refl)

  read-none : (files : Files) (y : Text) → get files y ≡ none → read_manifest x files y ≡ err os
  unfolding read_manifest read_regular_bytes
  read-none files y e = rw (read_manifest, read_regular_bytes, e) refl

  complete_mono :
      (files after : Files) (y : Text)
      → ((q : Text) → (get after q ≡ none) ⊎ (get after q ≡ get files q))
      → is_complete x after y ≡ true
      → is_complete x files y ≡ true
  complete_mono files after y gone h = elim (Result-cases (read_manifest x after y)) [
    | inr (e, bad) ↦ absurd (ground (arith, payload-err x after y e bad, h))
    | inl (m, good) ↦
        let read : read_manifest x files y ≡ ok m = read-back files after y m (gone y) good in
        let before = payload-ok x files y m read in
        let now = payload-ok x after y m good in
        elim (Bool-cases (m.sequence == manifest_sequence y)) [
          | inr no' ↦ absurd (ground (arith, now, no', h))
          | inl yes' ↦
              let whole : completes x (open_verified_generation x after after m) ≡ true =
                ground (arith, now, yes', h) in
              let kept =
                opened_mono m (read_regular_bytes files (index_final m.generation))
                  (read_regular_bytes files (state_final m.generation))
                  (read_regular_bytes after (index_final m.generation))
                  (read_regular_bytes after (state_final m.generation))
                  (read-gone files after (index_final m.generation)
                    (gone (index_final m.generation)))
                  (read-gone files after (state_final m.generation)
                    (gone (state_final m.generation)))
                  (ap (completes x) (sym (open-eq after m)) ∙ whole) in
              ground (arith, before, yes', ap (completes x) (open-eq files m) ∙ kept)
        ]
  ]
    where
      read-back :
          (files after : Files) (y : Text) (m : SnapshotManifest)
          → (get after y ≡ none) ⊎ (get after y ≡ get files y)
          → read_manifest x after y ≡ ok m
          → read_manifest x files y ≡ ok m
      read-back files after y m (inr same) good =
          sym (read_manifest-cong x files after y same) ∙ good
      read-back files after y m (inl gone) good =
          absurd (ground (arith, read-none after y gone, good))

  pub del-Current :
      (files : Files) (name : Text) (p : SnapshotPayload) (t : Text)
      → Current x files name p
      → spare name p.revision.generation t ≡ true
      → Current x (del files t) name p
  del-Current files name p t c h =
      let (m, read, same) = payload-generation files name p c.holds in
      let kept : (q : Text) → (t == q) ≡ false → get (del files t) q ≡ get files q =
        λ q e. ground (arith, get-del files t q, e) in
      let gone : (q : Text) → (get (del files t) q ≡ none) ⊎ (get (del files t) q ≡ get files q) =
        λ q. elim (Bool-cases (t == q)) [
          | inl yes' ↦ inl (ground (arith, get-del files t q, yes'))
          | inr no' ↦ inr (kept q no')
        ] in
      record {
        manifest = c.manifest;
        holds =
            payload-cong x files (del files t) name m read (kept name (ground arith))
              (kept (index_final m.generation) (ap (λ g. t == index_final g) same ∙ ground arith))
              (kept (state_final m.generation) (ap (λ g. t == state_final g) same ∙ ground arith))
            ∙ c.holds;
        newest = λ y. elim (Bool-cases (is_complete x (del files t) y)) [
          | inr no' ↦ ground (arith, no')
          | inl yes' ↦ ground (arith, c.newest y, complete_mono files (del files t) y gone yes')
        ];
      }

  unlink-Current :
      (name : Text) (p : SnapshotPayload) (t : Text)
      → spare name p.revision.generation t ≡ true
      → Keeps (λ files. Current x files name p) (unlink t)
  unfolding unlink
  unlink-Current name p t h files c = go (get files t)
    where
      go :
          (o : Option Node)
          → Current x
              (elim o as (λ _. Result (Unit {0}) × Files) [
                | none ↦ (ok tt, files)
                | some (file bytes) ↦ (ok tt, del files t)
                | some link ↦ (ok tt, del files t)
                | some directory ↦ (err os, files)
              ]).1
              name
              p
      go none = c
      go (some (file bytes)) = del-Current files name p t c h
      go (some link) = del-Current files name p t c h
      go (some directory) = c

  pub unlink_each-Current :
      (name : Text) (p : SnapshotPayload) (ts : List Text)
      → all (spare name p.revision.generation) ts ≡ true
      → Keeps (λ files. Current x files name p) (unlink_each ts)
  unfolding unlink_each
  unlink_each-Current name p [] h = λ files c. c
  unlink_each-Current name p (t ∷ ts) h =
      Keeps-bind (λ files. Current x files name p) (unlink t) (λ _. unlink_each ts)
        (unlink-Current name p t (ground (arith, h)))
        (λ _. unlink_each-Current name p ts (ground (arith, h)))

  pub all-kept :
      (p q r : Text → Bool) (ts : List Text)
      → ((t : Text) → p t ≡ true → q t ≡ true → r t ≡ true)
      → all p ts ≡ true
      → all r (keep_if q ts) ≡ true
  all-kept p q r [] h a = refl
  all-kept p q r (t ∷ ts) h a = elim (Bool-cases (q t)) [
    | inr no' ↦ ground (arith, no', all-kept p q r ts h, a)
    | inl yes' ↦
        ground (arith, yes', h t (ground (arith, a)) yes', all-kept p q r ts h (ground (arith, a)))
  ]

  -- A name that leads the manifests is the first complete one, so it is among those to keep.
  pub leads-kept :
      (files : Files) (name : Text) (ys : List Text)
      → is_complete x files name ≡ true
      → leads x files name ys ≡ true
      → contains (take retain_generations (complete_manifests x files ys)) name ≡ true
  unfolding complete_manifests
  leads-kept files name [] c h = absurd (cc)
  leads-kept files name (y ∷ ys) c h = elim (text_eq.dec y name) [
    | yes e ↦ ground (arith, e, ap (is_complete x files) e, c)
    | no n ↦ ground (arith, n, h, leads-kept files name ys c)
  ]

  pub contains-generations :
      (files : Files) (name : Text) (m : SnapshotManifest) (ks gs : List Text)
      → read_manifest x files name ≡ ok m
      → generations x files ks ≡ ok gs
      → contains ks name ≡ true
      → contains gs m.generation ≡ true
  unfolding generations
  contains-generations files name m [] gs r h c = absurd (cc)
  contains-generations files name m (k ∷ ks) gs r h c =
      elim (Result-cases (read_manifest x files k)) [
        | inr (e, bad) ↦ absurd (ground (arith, bad, h))
        | inl (n, good) ↦ elim (Result-cases (generations x files ks)) [
          | inr (e, bad) ↦ absurd (ground (arith, good, bad, h))
          | inl (hs, rest) ↦ elim (text_eq.dec k name) [
            | yes e ↦ ground (arith, good, rest, h, ap (read_manifest x files) e, r)
            | no ne ↦
                ground (arith, good, rest, h, ne, contains-generations files name m ks hs r rest)
          ]
        ]
      ]
