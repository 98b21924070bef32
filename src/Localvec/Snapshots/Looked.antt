-- ===== src/Localvec/Snapshots/Looked.antt =====
-- What a load gives while another process writes and collects.
use edge_proc.Prelude.{
  ℕ, zero, suc, ◌+◌, ◌*◌, ◌<◌, ◌≤◌, ◌≡◌, subst, inl, inr, true, some, List, [], ◌∷◌, Text, length,
  contains, ◌==◌, nat_eq, text_eq, arith, Bool-cases, Option-cases,
}
use edge_proc.Exec.{ok, Result-cases}
use edge_proc.Disk.{path_eq}
use edge_proc.Localvec.Snapshots.{
  Files, Formats, SnapshotManifest, SnapshotPayload, manifest_sequence, index_final, state_final,
  read_regular_bytes, read_manifest, open_verified_generation, payload_at, ordered, first_complete,
  attempt, attempts, latest,
}

module _ (x : Formats) where
  -- A payload as one manifest describes it, whenever the manifest, the index and the state were read.
  pub record Described (at_manifest at_index at_state : Files) (name : Text) (p : SnapshotPayload)
      : Type 0 where
    pub manifest : SnapshotManifest
    pub read : read_manifest x at_manifest name ≡ ok manifest
    pub sequence : manifest.sequence ≡ manifest_sequence name
    pub revision_sequence : p.revision.sequence ≡ manifest.sequence
    pub revision_generation : p.revision.generation ≡ manifest.generation
    pub index : read_regular_bytes at_index (index_final manifest.generation) ≡ ok p.index_bytes
    pub state : read_regular_bytes at_state (state_final manifest.generation) ≡ ok p.state_bytes
    pub index_digest : x.sha256 p.index_bytes ≡ manifest.index_sha256
    pub state_digest : x.sha256 p.state_bytes ≡ manifest.state_sha256

  payload_at-Described :
      (a b c : Files) (name : Text) (p : SnapshotPayload)
      → payload_at x a b c name ≡ ok p
      → Described a b c name p
  unfolding payload_at open_verified_generation
  payload_at-Described a b c name p h = elim (Result-cases (read_manifest x a name)) [
    | inr (e, bad) ↦ absurd (ground (arith, bad, h))
    | inl (m, good) ↦ elim (Result-cases (read_regular_bytes b (index_final m.generation))) [
      | inr (e, bad) ↦ absurd (ground (arith, good, bad, h))
      | inl (index, i) ↦ elim (Result-cases (read_regular_bytes c (state_final m.generation))) [
        | inr (e, bad) ↦ absurd (ground (arith, good, i, bad, h))
        | inl (state, s) ↦ record {
          manifest = m;
          read = good;
          sequence = ground (arith, good, i, s, h);
          revision_sequence = ground (arith, good, i, s, h);
          revision_generation = ground (arith, good, i, s, h);
          index = ground (arith, good, i, s, h);
          state = ground (arith, good, i, s, h);
          index_digest = ground (arith, good, i, s, h);
          state_digest = ground (arith, good, i, s, h);
        }
      ]
    ]
  ]

  -- Three reads one after the other gave the payload, of a name that is listed.
  pub record Read (world : ℕ → Files) (names : List Text) (p : SnapshotPayload) (from until : ℕ)
      : Type 0 where
    pub moment : ℕ
    pub name : Text
    pub is_listed : contains names name ≡ true
    pub late : from ≤ moment
    pub early : suc (suc moment) < until
    pub described : Described (world moment) (world (suc moment)) (world (suc (suc moment))) name p

  Described-later :
      (world : ℕ → Files) (k t : ℕ) (name : Text) (p : SnapshotPayload)
      → Described (world (k + t)) (world (k + suc t)) (world (k + suc (suc t))) name p
      → Described (world (k + t)) (world (suc (k + t))) (world (suc (suc (k + t)))) name p
  Described-later world k t name p h =
      let one : k + suc t ≡ suc (k + t) = omega arith in
      let two : k + suc (suc t) ≡ suc (suc (k + t)) = omega arith in
      subst (λ u. Described (world (k + t)) (world (suc (k + t))) (world u) name p) two
        (subst (λ u. Described (world (k + t)) (world u) (world (k + suc (suc t))) name p) one h)

  -- What was read after `k` moments
  Read-later :
      (world : ℕ → Files) (names : List Text) (p : SnapshotPayload) (k from until : ℕ)
      → Read (λ t. world (k + t)) names p from until
      → Read world names p (k + from) (k + until)
  Read-later world names p k from until r =
      let late = r.late in
      let early = r.early in
      record {
        moment = k + r.moment;
        name = r.name;
        is_listed = r.is_listed;
        late = omega (arith, late);
        early = omega (arith, early);
        described = Described-later world k r.moment r.name p r.described;
      }

  first_complete-Read :
      (world : ℕ → Files) (names : List Text) (p : SnapshotPayload)
      → first_complete x world names ≡ some p
      → Read world names p 0 (3 * length names)
  unfolding first_complete
  first_complete-Read world [] p h = absurd (cc)
  first_complete-Read world (name ∷ names) p h =
      elim (Result-cases (payload_at x (world 0) (world 1) (world 2) name)) [
        | inl (q, good) ↦ record {
          moment = 0;
          name = name;
          is_listed = ground arith;
          late = omega arith;
          early = omega arith;
          described =
              payload_at-Described (world 0) (world 1) (world 2) name p (ground (arith, good, h));
        }
        | inr (e, bad) ↦
            more (first_complete-Read (λ t. world (3 + t)) names p (ground (arith, bad, h)))
      ]
    where
      more :
          Read (λ t. world (3 + t)) names p 0 (3 * length names)
          → Read world (name ∷ names) p 0 (3 * length (name ∷ names))
      more r =
          let s = Read-later world names p 3 0 (3 * length names) r in
          let late = s.late in
          let early = s.early in
          record {
            moment = s.moment;
            name = s.name;
            is_listed = ground (arith, s.is_listed);
            late = omega (arith, late);
            early = omega (arith, early);
            described = s.described;
          }

  -- A whole attempt that gave the payload: `before` lists the manifests, the three files are read,
  -- and `again` lists the same manifests.
  pub record Whole (world : ℕ → Files) (p : SnapshotPayload) : Type 0 where
    pub before : ℕ
    pub again : ℕ
    pub same : ordered (world again) ≡ ordered (world before)
    pub reading : Read world (ordered (world before)) p (suc before) again

  attempt-Whole :
      (world : ℕ → Files) (p : SnapshotPayload) → attempt x world ≡ some (ok p) → Whole world p
  unfolding attempt
  attempt-Whole world p h =
      let names = ordered (world 0) in
      let last = 1 + 3 * length names in
      elim (Bool-cases (length names == 0)) [
        | inl none' ↦ absurd (ground (arith, none', h))
        | inr some' ↦ elim (path_eq.dec (ordered (world last)) names) [
          | no n ↦ absurd (ground (arith, some', n, h))
          | yes e ↦ elim (Option-cases (first_complete x (λ t. world (1 + t)) names)) [
            | inl none' ↦ absurd (ground (arith, some', e, none', h))
            | inr (q, found) ↦ record {
              before = 0;
              again = last;
              same = e;
              reading = Read-later world names p 1 0 (3 * length names) (
                  first_complete-Read (λ t. world (1 + t)) names p
                    (ground (arith, some', e, found, h)));
            }
          ]
        ]
      ]

  Whole-later :
      (world : ℕ → Files) (k : ℕ) (p : SnapshotPayload)
      → Whole (λ t. world (k + t)) p
      → Whole world p
  Whole-later world k p w =
      let names = ordered (world (k + w.before)) in
      let next : k + suc w.before ≡ suc (k + w.before) = omega arith in
      record {
        before = k + w.before;
        again = k + w.again;
        same = w.same;
        reading =
            subst (λ u. Read world names p u (k + w.again)) next
              (Read-later world names p k (suc w.before) w.again w.reading);
      }

  attempts-Whole :
      (n : ℕ) (world : ℕ → Files) (p : SnapshotPayload) → attempts x n world ≡ ok p → Whole world p
  unfolding attempts
  attempts-Whole zero world p h = absurd (cc)
  attempts-Whole (suc n) world p h = elim (Option-cases (attempt x world)) [
    | inr (r, found) ↦ attempt-Whole world p (ground (arith, found, h))
    | inl again ↦ Whole-later world (2 + 3 * length (ordered (world 0))) p (
        attempts-Whole n (λ t. world (2 + 3 * length (ordered (world 0)) + t)) p
          (ground (arith, again, h)))
  ]

  -- However another process changes the directory between any two reads of a load, a snapshot that
  -- the load returns is one that a manifest describes: the manifest, the index and the state were
  -- read one after the other, the manifest numbers itself as its name does, it names the returned
  -- generation, and its digests are those of the returned bytes; it was listed before, and the same
  -- manifests were listed afterwards.
  pub latest-Whole :
      (world : ℕ → Files) (p : SnapshotPayload) → latest x world ≡ ok p → Whole world p
  unfolding latest
  latest-Whole world p h = attempts-Whole 3 world p h
