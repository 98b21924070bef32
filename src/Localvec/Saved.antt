-- ===== src/Localvec/Saved.antt =====
-- `save` and `load` of edgeproc/localvec/faiss_index.py: an index in a directory of snapshots, and
-- the two files that older versions left beside it. The `FileLock` makes a save, and a load that can
-- write, one step.
pub mod Again
use edge_proc.Prelude.{
  Bool, true, false, not, Option, none, some, List, [], ◌∷◌, Text, ℕ, zero, suc, ◌==◌, nat_eq,
  if◌then◌else◌,
}
use edge_proc.Prelude.Codes.{codes}
use edge_proc.Prelude.Dicts.{del}
use edge_proc.Errors.{Error, value, validation, os, no_snapshot, runtime}
use edge_proc.Exec.{Result, ok, err, Exec}
use edge_proc.Manifest.{Scalar}
use edge_proc.Localvec.Flat.{Flat}
use edge_proc.Localvec.Index.{IndexConfig, State}
use edge_proc.Localvec.Index.Persist.{
  PersistedState, persisted_state, validate_persisted_index, restore_persisted,
}
use edge_proc.Localvec.Snapshots.{
  Files, Formats, SnapshotRevision, SnapshotPayload, read_regular_bytes, latest,
}
use edge_proc.Localvec.Snapshots.Commit.{commit}

-- FAISS's format of an index, and pydantic's JSON of the sidecar
pub record Codecs (f : Flat) : Type 0 where
  pub formats : Formats
  pub write_index : f.Index → Text
  pub read_index : Text → Option f.Index
  pub dump_state : PersistedState → Text
  pub load_state : Text → Option PersistedState

-- The directory of an index: its own files, and those of `snapshots` where that exists
pub record Folder : Type 0 where
  pub root : Files
  pub snapshots : Option Files

-- `SnapshotStore(directory)` makes the directory `snapshots`.
unfoldable pub opened_store : Folder → Files
opened_store d = elim d.snapshots [ none ↦ [] | some files ↦ files ]

-- `_INDEX_FILE` and `_STATE_FILE`
abbrev pub index_file : Text
index_file = codes "index.faiss"

abbrev pub state_file : Text
state_file = codes "state.json"

-- An index, and the revision that it was loaded from or saved as
pub record Instance (f : Flat) : Type 0 where
  pub state : State f
  pub revision : Option SnapshotRevision

-- What is read, before it is restored
pub record Read (f : Flat) : Type 0 where
  pub index : f.Index
  pub sidecar : PersistedState
  pub revision : Option SnapshotRevision

module _ (f : Flat) (x : Codecs f) (same_scalar : Scalar → Scalar → Bool)
    (default : IndexConfig) where
  -- `save`, with the two names that `uuid4` gives
  unfoldable pub save : Instance f → Text → Text → Exec Folder (Instance f)
  save i generation uuid d =
      let sidecar = x.dump_state (persisted_state f same_scalar default i.state) in
      let (r, files) =
        commit x.formats (x.write_index i.state.faiss) sidecar i.revision generation uuid
          (opened_store d) in
      (
        elim r [
          | ok revision ↦ ok (record { state = i.state; revision = some revision })
          | err e ↦ err e
        ],
        record d { snapshots = some files },
      )

  -- `_read_snapshot`; `read_index` raises FAISS's RuntimeError.
  unfoldable pub read_snapshot : SnapshotPayload → Result (Read f)
  read_snapshot p = elim (x.load_state p.state_bytes) [
    | none ↦ err validation
    | some sidecar ↦ elim (x.read_index p.index_bytes) [
      | none ↦ err runtime
      | some index ↦ ok (record { index = index; sidecar = sidecar; revision = some p.revision })
    ]
  ]

  abbrev pub legacy : Text → Text → Result (Read f)
  legacy index state = elim (x.read_index index) [
    | none ↦ err runtime
    | some i ↦ elim (x.load_state state) [
      | none ↦ err validation
      | some sidecar ↦ ok (record { index = i; sidecar = sidecar; revision = none })
    ]
  ]

  -- `_read_legacy`
  unfoldable pub read_legacy : Folder → Result (Read f)
  read_legacy d = elim (read_regular_bytes d.root index_file) [
    | err e ↦ err e
    | ok index ↦ elim (read_regular_bytes d.root state_file) [
      | err e ↦ err e
      | ok state ↦ legacy index state
    ]
  ]

  -- The rest of `_migrate_legacy`: the two files go once their snapshot is committed.
  unfoldable pub migrated : Read f → Text → Text → Exec Folder (Read f)
  migrated r generation uuid d =
      let (done, files) =
        commit x.formats (x.write_index r.index) (x.dump_state r.sidecar) none generation uuid
          (opened_store d) in
      elim done [
        | err e ↦ (err e, record d { snapshots = some files })
        | ok revision ↦ (
          ok (record r { revision = some revision }),
          record { root = del (del d.root index_file) state_file; snapshots = some files },
        )
      ]

  -- `_migrate_legacy`
  unfoldable pub migrate_legacy : Text → Text → Exec Folder (Read f)
  migrate_legacy generation uuid d = elim (read_legacy d) [
    | err e ↦ (err e, d)
    | ok r ↦
        if validate_persisted_index f same_scalar default r.index r.sidecar
        then migrated r generation uuid d
        else (err value, d)
  ]

  -- `except NoSnapshotError`
  abbrev pub is_no_snapshot : Error → Bool
  is_no_snapshot no_snapshot = true
  is_no_snapshot _ = false

  -- `_load_writable`
  unfoldable pub load_writable : Text → Text → Exec Folder (Read f)
  load_writable generation uuid d =
      let made = record d { snapshots = some (opened_store d) } in
      elim (latest x.formats (λ t. opened_store d)) [
        | ok p ↦ (read_snapshot p, made)
        | err e ↦ if is_no_snapshot e then migrate_legacy generation uuid made else (err e, made)
      ]

  -- `_load_read_only_once`
  unfoldable pub load_read_only_once : Folder → Result (Read f)
  load_read_only_once d = elim d.snapshots [
    | none ↦ read_legacy d
    | some files ↦ elim (latest x.formats (λ t. files)) [
      | ok p ↦ read_snapshot p
      | err e ↦ if is_no_snapshot e then read_legacy d else err e
    ]
  ]

  -- `except FileNotFoundError`: a missing file is the one `os` that a read meets.
  abbrev pub is_missing : Error → Bool
  is_missing os = true
  is_missing no_snapshot = true
  is_missing _ = false

  -- The loop of `_load_read_only`, in a directory that a writer may change between two attempts
  unfoldable pub read_attempts : ℕ → Error → (ℕ → Folder) → Result (Read f)
  read_attempts zero failure world = err failure
  read_attempts (suc n) failure world =
      let next : Error → Result (Read f) = λ e. read_attempts n e (λ t. world (suc t)) in
      elim (load_read_only_once (world 0)) [
        | ok r ↦ ok r
        | err e ↦ if is_missing e then next e else err e
      ]

  unfoldable pub load_read_only : (ℕ → Folder) → Result (Read f)
  load_read_only world = read_attempts 3 os world

  -- `_restore_persisted`, of what was read
  unfoldable pub restored : Result (Read f) → Result (Instance f)
  restored (err e) = err e
  restored (ok r) = elim (restore_persisted f same_scalar default r.index r.sidecar) [
    | err e ↦ err e
    | ok s ↦ ok (record { state = s; revision = r.revision })
  ]

  -- `load` where the lock can be taken
  unfoldable pub load : Text → Text → Exec Folder (Instance f)
  load generation uuid d = let (r, d') = load_writable generation uuid d in (restored r, d')

  -- `_check_dimension` of loader.py, and `load_local_runtime` up to the pairing with the encoder
  unfoldable pub check_dimension : ℕ → Instance f → Result (Instance f)
  check_dimension dim i = if dim == i.state.config.dimension then ok i else err value

  unfoldable pub load_local_runtime : ℕ → Text → Text → Exec Folder (Instance f)
  load_local_runtime dim generation uuid d =
      let (r, d') = load generation uuid d in
      (elim r [ ok i ↦ check_dimension dim i | err e ↦ err e ], d')
