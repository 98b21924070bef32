-- ===== src/Localvec/Snapshots.antt =====
-- `SnapshotStore` of edgeproc/localvec/snapshot_store.py: snapshots of two files, each committed by
-- one manifest. The names of the files are the state; `fsync` has no effect that a reader sees.
pub mod Collect
pub mod Committed
pub mod Commit
pub mod Current
pub mod Looked
pub mod Names
pub mod Numbers
pub mod Crash
pub mod Fresh
pub mod Own
pub mod Safe
pub mod Spared
pub mod Stable
use edge_proc.Prelude.{
  ℕ, zero, suc, ◌+◌, ◌*◌, ◌-◌, ◌/◌, ◌%◌, ◌≡◌, Bool, true, false, ◌&&◌, ◌||◌, not, Option, none,
  some, List, [], ◌∷◌, ◌++◌, map, Text, length, take, drop, keep_if, any, all, contains, leb, ltb,
  ◌==◌, nat_eq, text_eq, if◌then◌else◌, max,
}
use edge_proc.Prelude.Codes.{codes}
use edge_proc.Prelude.Dicts.{get, keys, put, del}
use edge_proc.Errors.{Error, value, validation, os, no_snapshot, snapshot_sequence}
use edge_proc.Exec.{Result, ok, err, Exec, pure, catch, lift, ◌>>=◌, ◌>>◌}
use edge_proc.Core.Duration.{is_digit}
use edge_proc.Manifest.{is_hex_of}
use edge_proc.Keyring.Sorted.{sort_by}
use edge_proc.Disk.{Node, file, directory, link, path_eq}

abbrev pub Files : Type 0
Files = List (Text × Node)

-- `SnapshotManifest`; the format version is always 1.
pub record SnapshotManifest : Type 0 where
  pub sequence : ℕ
  pub generation : Text
  pub index_sha256 : Text
  pub state_sha256 : Text

-- The `Field`s of `SnapshotManifest`
unfoldable pub well_formed : SnapshotManifest → Bool
well_formed m =
    leb 1 m.sequence
    && is_hex_of 32 m.generation
    && is_hex_of 64 m.index_sha256
    && is_hex_of 64 m.state_sha256

-- pydantic's JSON of the fields of a manifest, and hashlib
pub record Formats : Type 0 where
  pub dump : SnapshotManifest → Text
  pub load : Text → Option SnapshotManifest
  pub sha256 : Text → Text

pub record IsLawful (x : Formats) : Type 0 where
  pub load-dump : (m : SnapshotManifest) → x.load (x.dump m) ≡ some m
  pub hex_digest : (bytes : Text) → is_hex_of 64 (x.sha256 bytes) ≡ true

-- `SnapshotRevision`, and `SnapshotPayload` with the bytes of its open file
pub record SnapshotRevision : Type 0 where
  pub sequence : ℕ
  pub generation : Text

pub record SnapshotPayload : Type 0 where
  pub index_bytes : Text
  pub state_bytes : Text
  pub revision : SnapshotRevision

abbrev pub manifest_suffix : Text
manifest_suffix = codes ".snapshot.json"

abbrev pub retain_generations : ℕ
retain_generations = 2

abbrev pub max_sequence : ℕ
max_sequence = 99999999999999999999

-- The last `w` decimal digits of `n`, `f"{n:0{w}d}"` of a number of at most `w` digits
unfoldable pub padded : ℕ → ℕ → Text
padded zero n = []
padded (suc w) n = padded w (n / 10) ++ (48 + n % 10) ∷ []

-- `int(digits)`, from a value on
unfoldable pub number_from : ℕ → Text → ℕ
number_from n [] = n
number_from n (c ∷ cs) = number_from (n * 10 + (c - 48)) cs

-- `_MANIFEST_NAME.fullmatch`
unfoldable pub is_manifest : Text → Bool
is_manifest name =
    length name == 34 && all is_digit (take 20 name) && drop 20 name == manifest_suffix

-- `_manifest_sequence`
unfoldable pub manifest_sequence : Text → ℕ
manifest_sequence name = number_from 0 (take 20 name)

-- `_manifest_path`
unfoldable pub manifest_name : ℕ → Text
manifest_name sequence = padded 20 sequence ++ manifest_suffix

-- `_generation_paths`
unfoldable pub index_final : Text → Text
index_final generation = generation ++ codes ".faiss"

unfoldable pub state_final : Text → Text
state_final generation = generation ++ codes ".state.json"

unfoldable pub index_temp : Text → Text
index_temp generation = generation ++ codes ".faiss.tmp"

unfoldable pub state_temp : Text → Text
state_temp generation = generation ++ codes ".state.json.tmp"

-- The temporary file of `_commit_manifest`
unfoldable pub manifest_temp : Text → Text
manifest_temp uuid = codes "." ++ uuid ++ codes ".manifest.tmp"

-- `read_regular_bytes` and `open_regular_leaf`
unfoldable pub read_regular_bytes : Files → Text → Result Text
read_regular_bytes files name = elim (get files name) [
  | none ↦ err os
  | some (file bytes) ↦ ok bytes
  | some directory ↦ err value
  | some link ↦ err value
]

-- `_ordered_manifests`, once there is one
unfoldable pub ordered : Files → List Text
ordered files =
    sort_by (λ a b. leb (manifest_sequence b) (manifest_sequence a))
      (keep_if is_manifest (keys files))

-- `max` of the sequences
abbrev pub newest : List Text → ℕ
newest [] = 0
newest (name ∷ names) = max (manifest_sequence name) (newest names)

-- `_next_sequence`, from the complete manifests
abbrev pub number_after : List Text → Result ℕ
number_after complete =
    if length complete == 0
    then ok 1
    else if leb max_sequence (newest complete)
    then err snapshot_sequence
    else ok (newest complete + 1)

module _ (x : Formats) where
  -- `SnapshotManifest.model_validate_json`
  unfoldable pub parse_manifest : Text → Result SnapshotManifest
  parse_manifest bytes = elim (x.load bytes) [
    | none ↦ err validation
    | some m ↦ if well_formed m then ok m else err validation
  ]

  -- `_read_manifest`
  unfoldable pub read_manifest : Files → Text → Result SnapshotManifest
  read_manifest files name = elim (read_regular_bytes files name) [
    | err e ↦ err e
    | ok bytes ↦ parse_manifest bytes
  ]

  abbrev pub verified : SnapshotManifest → Text → Text → Result SnapshotPayload
  verified m index state =
      if not (x.sha256 state == m.state_sha256)
      then err value
      else if not (x.sha256 index == m.index_sha256)
      then err value
      else ok (record {
        index_bytes = index;
        state_bytes = state;
        revision = record { sequence = m.sequence; generation = m.generation };
      })

  abbrev pub opened : SnapshotManifest → Result Text → Result Text → Result SnapshotPayload
  opened m (err e) state = err e
  opened m (ok index) (err e) = err e
  opened m (ok index) (ok state) = verified m index state

  -- `_open_verified_generation`: the index is opened first, and the state read at a later moment.
  unfoldable pub open_verified_generation :
      Files → Files → SnapshotManifest → Result SnapshotPayload
  open_verified_generation at_index at_state m =
      opened m (read_regular_bytes at_index (index_final m.generation))
        (read_regular_bytes at_state (state_final m.generation))

  -- `_payload`, with what the directory holds when each of the three files is read
  unfoldable pub payload_at : Files → Files → Files → Text → Result SnapshotPayload
  payload_at at_manifest at_index at_state name = elim (read_manifest at_manifest name) [
    | err e ↦ err e
    | ok m ↦
        if m.sequence == manifest_sequence name
        then open_verified_generation at_index at_state m
        else err value
  ]

  -- `_payload` in a directory that nothing changes
  unfoldable pub payload : Files → Text → Result SnapshotPayload
  unfolding payload_at
  payload files name = payload_at files files files name

  -- `_first_complete`, with what the directory holds at each read
  unfoldable pub first_complete : (ℕ → Files) → List Text → Option SnapshotPayload
  first_complete world [] = none
  first_complete world (name ∷ names) =
      let rest = first_complete (λ t. world (3 + t)) names in
      elim (payload_at (world 0) (world 1) (world 2) name) [ ok p ↦ some p | err e ↦ rest ]

  -- An attempt of `latest`: the manifests are listed, read, and listed again, while another process
  -- may change the files. `none` is an attempt to be made again.
  unfoldable pub attempt : (ℕ → Files) → Option (Result SnapshotPayload)
  attempt world =
      let listed = ordered (world 0) in
      let found = first_complete (λ t. world (1 + t)) listed in
      if length listed == 0
      then some (err no_snapshot)
      else if ordered (world (1 + 3 * length listed)) == listed
      then some (elim found [ none ↦ err value | some p ↦ ok p ])
      else none

  -- The loop of `latest`
  unfoldable pub attempts : ℕ → (ℕ → Files) → Result SnapshotPayload
  attempts zero world = err value
  attempts (suc n) world =
      let rest = attempts n (λ t. world (2 + 3 * length (ordered (world 0)) + t)) in
      elim (attempt world) [ some r ↦ r | none ↦ rest ]

  -- `latest`, with what the directory holds each time that it is looked at
  unfoldable pub latest : (ℕ → Files) → Result SnapshotPayload
  latest world = attempts 3 world

  abbrev pub completes : Result SnapshotPayload → Bool
  completes (ok p) = true
  completes (err e) = false

  abbrev pub is_complete : Files → Text → Bool
  is_complete files name = completes (payload files name)

  -- The snapshot that a name commits
  abbrev pub committed : Files → Text → Result SnapshotPayload
  committed files name = if is_manifest name then payload files name else err value

  -- `_complete_manifests`
  unfoldable pub complete_manifests : Files → List Text → List Text
  complete_manifests files names = keep_if (is_complete files) names

  -- `_next_sequence`
  unfoldable pub next_sequence : Files → Result ℕ
  next_sequence files = number_after (complete_manifests files (keep_if is_manifest (keys files)))
