-- ===== src/Localvec/Snapshots/Commit.antt =====
-- `commit`: the requests to the file system in their order, and the collection of old generations.
use edge_proc.Prelude.{
  ℕ, ◌-◌, Bool, ◌&&◌, ◌||◌, not, Option, none, some, List, [], ◌∷◌, ◌++◌, Text, length, take, drop,
  keep_if, contains, leb, ◌==◌, nat_eq, text_eq, if◌then◌else◌,
}
use edge_proc.Prelude.Codes.{codes}
use edge_proc.Prelude.Dicts.{get, keys, put, del}
use edge_proc.Errors.{os, snapshot_conflict}
use edge_proc.Exec.{Result, ok, err, Exec, pure, ◌>>=◌, ◌>>◌}
use edge_proc.Disk.{file, directory, link}
use edge_proc.Localvec.Snapshots.{
  Files, Formats, SnapshotManifest, SnapshotRevision, retain_generations, manifest_name,
  index_final, state_final, index_temp, state_temp, manifest_temp, read_manifest, latest, ordered,
  complete_manifests, next_sequence,
}

-- A request that the store makes: a new file with its bytes, a move of what a name holds, a removal.
pub data Op : Type 0 where
  written : Text → Text → Op
  renamed : Text → Text → Op
  unlinked : Text → Op

unfoldable pub effect : Files → Op → Files
effect files (written name bytes) = put files name (file bytes)
effect files (renamed from to) = elim (get files from) [
  | none ↦ files
  | some n ↦ put (del files from) to n
]
effect files (unlinked name) = del files name

unfoldable pub effects : Files → List Op → Files
effects files [] = files
effects files (op ∷ ops) = effects (effect files op) ops

-- `_stage_generation`
unfoldable pub stage_ops : Text → Text → Text → List Op
stage_ops generation index state =
    written (index_temp generation) index
    ∷ written (state_temp generation) state
    ∷ renamed (index_temp generation) (index_final generation)
    ∷ renamed (state_temp generation) (state_final generation)
    ∷ []

-- `_is_generation_data`
abbrev pub ends_with : Text → Text → Bool
ends_with suffix name =
    leb (length suffix) (length name) && drop (length name - length suffix) name == suffix

unfoldable pub is_generation_data : Text → Bool
is_generation_data name =
    ends_with (codes ".faiss") name
    || ends_with (codes ".state.json") name
    || ends_with (codes ".faiss.tmp") name
    || ends_with (codes ".state.json.tmp") name

-- `_data_generation`
unfoldable pub data_generation : Text → Text
data_generation [] = []
data_generation (c ∷ cs) = let rest = data_generation cs in if c == 46 then [] else c ∷ rest

-- `path.unlink(missing_ok=True)`; a directory is not removed.
unfoldable pub unlink : Text → Exec Files (Unit {0})
unlink name files = elim (get files name) [
  | none ↦ (ok tt, files)
  | some (file bytes) ↦ (ok tt, del files name)
  | some link ↦ (ok tt, del files name)
  | some directory ↦ (err os, files)
]

unfoldable pub unlink_each : List Text → Exec Files (Unit {0})
unlink_each [] = pure tt
unlink_each (name ∷ names) = do unlink name; unlink_each names

-- `_remove_unreferenced_data`
unfoldable pub unreferenced : List Text → Files → List Text
unreferenced gs files =
    keep_if (λ name. is_generation_data name && not (contains gs (data_generation name)))
      (keys files)

unfoldable pub remove_unreferenced_data : List Text → Exec Files (Unit {0})
unfolding unreferenced
remove_unreferenced_data gs files = unlink_each (unreferenced gs files) files

module _ (x : Formats) where
  -- `_manifest_for`
  unfoldable pub manifest_for : ℕ → Text → Text → Text → SnapshotManifest
  manifest_for sequence generation index state = record {
    sequence = sequence;
    generation = generation;
    index_sha256 = x.sha256 index;
    state_sha256 = x.sha256 state;
  }

  -- `_commit_manifest`
  unfoldable pub manifest_ops : ℕ → Text → Text → Text → Text → List Op
  manifest_ops sequence generation uuid index state =
      let bytes = x.dump (manifest_for sequence generation index state) in
      written (manifest_temp uuid) bytes
      ∷ renamed (manifest_temp uuid) (manifest_name sequence)
      ∷ []

  unfoldable pub commit_ops : ℕ → Text → Text → Text → Text → List Op
  commit_ops sequence generation uuid index state =
      stage_ops generation index state ++ manifest_ops sequence generation uuid index state

  -- The generations of `keep`; a manifest that can no longer be read raises.
  unfoldable pub generations : Files → List Text → Result (List Text)
  generations files [] = ok []
  generations files (name ∷ names) = elim (read_manifest x files name) [
    | err e ↦ err e
    | ok m ↦ elim (generations files names) [ err e ↦ err e | ok gs ↦ ok (m.generation ∷ gs) ]
  ]

  -- The manifests that `_collect_old_generations` keeps, and the ones that it removes
  unfoldable pub to_keep : Files → List Text
  to_keep files = take retain_generations (complete_manifests x files (ordered files))

  unfoldable pub to_remove : Files → List Text
  unfolding to_keep
  to_remove files = keep_if (λ name. not (contains (to_keep files) name)) (ordered files)

  -- `_collect_old_generations`
  unfoldable pub collect_old_generations : Exec Files (Unit {0})
  unfolding to_keep to_remove
  collect_old_generations files = elim (generations files (to_keep files)) [
    | err e ↦ (err e, files)
    | ok gs ↦ (unlink_each (to_remove files) >>= λ _. remove_unreferenced_data gs) files
  ]

  -- What is there when `_commit_manifest` returns
  unfoldable pub committed_files : ℕ → Text → Text → Text → Text → Files → Files
  committed_files sequence generation uuid index state files =
      effect (effects files (commit_ops sequence generation uuid index state))
        (unlinked (manifest_temp uuid))

  -- `_write_generation` where no request fails. What the collection raises is only logged.
  unfoldable pub write_generation : Text → Text → ℕ → Text → Text → Exec Files SnapshotRevision
  write_generation index state sequence generation uuid files =
      let committed = committed_files sequence generation uuid index state files in
      let collected = (collect_old_generations committed).1 in
      (
        ok (record { sequence = sequence; generation = generation }),
        effects collected
            (unlinked (index_temp generation) ∷ unlinked (state_temp generation) ∷ []),
      )

  -- `current != expected`, of revisions
  unfoldable pub same_revision : SnapshotRevision → SnapshotRevision → Bool
  same_revision a b = a.sequence == b.sequence && a.generation == b.generation

  -- `_assert_current`; the lock keeps other writers out, so the directory does not change.
  unfoldable pub assert_current : Option SnapshotRevision → Files → Result (Unit {0})
  assert_current none files = ok tt
  assert_current (some expected) files = elim (latest x (λ t. files)) [
    | err e ↦ err e
    | ok p ↦ if same_revision p.revision expected then ok tt else err snapshot_conflict
  ]

  -- `commit`, with the two names that `uuid4` gives
  unfoldable pub commit :
      Text → Text → Option SnapshotRevision → Text → Text → Exec Files SnapshotRevision
  commit index state expected generation uuid files = elim (assert_current expected files) [
    | err e ↦ (err e, files)
    | ok u ↦ elim (next_sequence x files) [
      | err e ↦ (err e, files)
      | ok sequence ↦ write_generation index state sequence generation uuid files
    ]
  ]
