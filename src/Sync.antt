-- ===== src/Sync.antt =====
-- edgeproc/bundles/sync.py: one sync of a signed bundle from an origin into a store. The origin is
-- the parameter `fetch`, a `FetchAdapter` by URL; `clock` is the time that the injected clock gives.
pub mod Frame
pub mod Trust
pub mod Whole
pub mod Content
use edge_proc.Prelude.{
  ℕ, zero, suc, ◌+◌, ◌-◌, Bool, true, false, ◌&&◌, ◌||◌, not, Option, none, some, List, [], ◌∷◌,
  ◌++◌, map, Text, length, contains, ltb, ◌==◌, nat_eq, text_eq, option_eq, if◌then◌else◌, Eq,
}
use edge_proc.Prelude.Codes.{codes}
use edge_proc.Prelude.Int.{ℤ, pos, negsuc}
use edge_proc.Errors.{Error, integrity, sync_cap, pointer_expired, lock_timeout, validation, key}
use edge_proc.Exec.{Result, ok, err, Exec, pure, raise, lift, refuse_if, or_raise, ◌>>=◌, ◌>>◌}
use edge_proc.Disk.{Disk}
use edge_proc.Manifest.{
  ChunkRef, FileEntry, IndexManifest, VersionPointer, is_expired, manifest_hashes,
}
use edge_proc.Manifest.Preimage.{pointer_signing_bytes}
use edge_proc.Promotion.{Versions}
use edge_proc.Externals.{Externals, parse_pointer, parse_manifest}
use edge_proc.Cas.{has_chunk, get_chunk, put_chunk_compressed, put_manifest}
use edge_proc.Cas.Active.{promote}

-- `SyncCaps`, with the settings' `max_materialize_bytes`.
pub record SyncCaps : Type 0 where
  pub total_bytes : ℕ
  pub max_files : ℕ
  pub max_materialize_bytes : ℕ

pub record SyncResult : Type 0 where
  pub version : Text
  pub manifest_hash : Text
  pub chunks_fetched : ℕ
  pub chunks_reused : ℕ
  pub bytes_fetched : ℕ

-- A `Verifier`, and the `verify_pointer` of one that is a `PointerVerifier`.
pub record Verifier : Type 0 where
  pub verify : Text → Text → Result (Unit {0})
  pub verify_pointer : Option (Text → Text → Option Text → Result (Unit {0}))

-- `_resolve_caps`: unset caps are the settings'.
abbrev pub resolve_caps : Option ℕ → Option ℕ → SyncCaps → SyncCaps
resolve_caps max_total_bytes max_files settings = record {
  total_bytes = elim max_total_bytes [ none ↦ settings.total_bytes | some n ↦ n ];
  max_files = elim max_files [ none ↦ settings.max_files | some n ↦ n ];
  max_materialize_bytes = settings.max_materialize_bytes;
}

abbrev pub by_key :
    Verifier
    → Text
    → Text
    → Option Text
    → Option (Text → Text → Option Text → Result (Unit {0}))
    → Result (Unit {0})
by_key v bytes sig (some key_id) (some verify_named) = verify_named bytes sig (some key_id)
by_key v bytes sig _ _ = v.verify bytes sig

-- `_verify_signature`
unfoldable pub verify_signature : VersionPointer → Verifier → Result (Unit {0})
verify_signature p v = by_key v (pointer_signing_bytes p) p.signature p.key_id v.verify_pointer

-- `_check_expiry`
unfoldable pub check_expiry : VersionPointer → ℕ → Result (Unit {0})
check_expiry p clock = if is_expired p clock then err pointer_expired else ok tt

-- `verify_pointer`
unfoldable pub verify_pointer : VersionPointer → Verifier → ℕ → Result (Unit {0})
unfolding verify_signature check_expiry
verify_pointer p v clock = elim (verify_signature p v) [
  | ok t ↦ check_expiry p clock
  | err e ↦ err e
]

-- A pin that is set must be what the pointer binds.
abbrev pub pinned : Option Text → Option Text → Bool
pinned none actual = true
pinned (some expected) actual = actual == some expected

-- `_check_identity`
unfoldable pub check_identity : VersionPointer → Option Text → Option Text → Result (Unit {0})
check_identity p expected_bundle_id expected_channel =
    if not (pinned expected_bundle_id p.bundle_id)
    then err integrity
    else if not (pinned expected_channel p.channel)
    then err integrity
    else ok tt

-- `_check_manifest_identity`
unfoldable pub check_manifest_identity : VersionPointer → IndexManifest → Result (Unit {0})
check_manifest_identity p m = if pinned p.bundle_id (some m.bundle_id) then ok tt else err integrity

-- `_enforce_file_cap`
unfoldable pub enforce_file_cap : IndexManifest → ℕ → Result (Unit {0})
enforce_file_cap m max_files = if ltb max_files (length m.files) then err sync_cap else ok tt

-- A set as its items without repeats. The code meets them in an order of its own; here it is the
-- manifest's.
abbrev pub distinct : List Text → List Text
distinct [] = []
distinct (h ∷ hs) = let rest = distinct hs in if contains rest h then rest else h ∷ rest

-- `n` is above the integer, `size > n`; and `size == n`
abbrev pub exceeds : ℤ → ℕ → Bool
exceeds (pos size) n = ltb n size
exceeds (negsuc k) n = false

abbrev pub is_size : ℤ → ℕ → Bool
is_size (pos size) n = size == n
is_size (negsuc k) n = false

-- `_file_entry`
unfoldable pub file_entry : List FileEntry → Text → Option FileEntry
file_entry [] path = none
file_entry (e ∷ es) path = if e.path == path then some e else file_entry es path

module _ (x : Externals) (max_decompressed_bytes : ℕ) (pid : Text) where
  -- The comprehension of `_missing_chunks`
  unfoldable pub absent : List Text → Exec Disk (List Text)
  absent [] = pure []
  absent (h ∷ hs) = do
    held ← has_chunk x max_decompressed_bytes pid h
    rest ← absent hs
    pure (if held then rest else h ∷ rest)

  -- The chunks of a file, in order, as one text.
  unfoldable pub joined : List ChunkRef → Exec Disk Text
  joined [] = pure []
  joined (c ∷ cs) = do
    chunk ← get_chunk x max_decompressed_bytes pid c.hash
    rest ← joined cs
    pure (chunk ++ rest)

  -- `_verify_entry_reassembly`. Hashing the chunks one after another is hashing what they join to.
  unfoldable pub verify_entry_reassembly : FileEntry → ℕ → Exec Disk (Unit {0})
  verify_entry_reassembly e max_bytes = do
    refuse_if (exceeds e.size max_bytes) sync_cap
    whole ← joined e.chunks
    refuse_if (not (is_size e.size (length whole)) || not (x.sha256 whole == e.file_sha256))
        integrity

  -- `_verify_reassembly`
  unfoldable pub verify_reassembly : List FileEntry → ℕ → Exec Disk (Unit {0})
  verify_reassembly [] max_bytes = pure tt
  verify_reassembly (e ∷ es) max_bytes = do
    verify_entry_reassembly e max_bytes
    verify_reassembly es max_bytes

  -- `materialize_file`
  unfoldable pub materialize_file : IndexManifest → Text → ℕ → Exec Disk Text
  materialize_file m path max_bytes = do
    e ← or_raise (file_entry m.files path) key
    refuse_if (exceeds e.size max_bytes) sync_cap
    blob ← joined e.chunks
    refuse_if (not (is_size e.size (length blob)) || not (x.sha256 blob == e.file_sha256)) integrity
    pure blob

  module _ (fetch : Text → Result Text) where
    -- `_fetch_missing`: `fetched` is the bytes so far.
    unfoldable pub fetch_missing : Text → List Text → ℕ → ℕ → Exec Disk ℕ
    fetch_missing base_url [] max_total_bytes fetched = pure fetched
    fetch_missing base_url (h ∷ hs) max_total_bytes fetched = do
      compressed ← lift (fetch (base_url ++ (codes "/chunk/" ++ h)))
      refuse_if (ltb max_total_bytes (fetched + length compressed)) sync_cap
      put_chunk_compressed x max_decompressed_bytes pid h compressed
      fetch_missing base_url hs max_total_bytes (fetched + length compressed)

    -- `_fetch_pointer`
    unfoldable pub fetch_pointer : Text → Verifier → ℕ → Exec Disk VersionPointer
    fetch_pointer base_url v clock = do
      raw ← lift (fetch (base_url ++ codes "/latest"))
      p ← or_raise (parse_pointer x raw) validation
      lift (verify_pointer p v clock)
      pure p

    -- `_fetch_manifest`
    unfoldable pub fetch_manifest : Text → VersionPointer → Exec Disk IndexManifest
    fetch_manifest base_url p = do
      raw ← lift (fetch (base_url ++ (codes "/manifest/" ++ p.manifest_hash)))
      refuse_if (not (x.sha256 raw == p.manifest_hash)) integrity
      put_manifest x max_decompressed_bytes pid raw
      or_raise (parse_manifest x raw) validation

    -- `_sync_locked` between the pointer's checks and the promotion: the manifest, and its chunks.
    unfoldable pub sync_content : Text → SyncCaps → VersionPointer → Exec Disk SyncResult
    sync_content base_url caps p = do
      m ← fetch_manifest base_url p
      lift (check_manifest_identity p m)
      lift (enforce_file_cap m caps.max_files)
      let hashes = distinct (manifest_hashes m.files)
      missing ← absent hashes
      bytes ← fetch_missing base_url missing caps.total_bytes 0
      verify_reassembly m.files caps.max_materialize_bytes
      pure (record {
        version = p.version;
        manifest_hash = p.manifest_hash;
        chunks_fetched = length missing;
        chunks_reused = length hashes - length missing;
        bytes_fetched = bytes;
      })

    module _ (versions : Versions) where
      -- `_sync_locked`; `caps` is what `_resolve_caps` gives for its two arguments.
      unfoldable pub sync_locked :
          Text → Verifier → Option Text → Option Text → SyncCaps → ℕ → Exec Disk SyncResult
      sync_locked base_url v expected_bundle_id expected_channel caps clock = do
        p ← fetch_pointer base_url v clock
        lift (check_identity p expected_bundle_id expected_channel)
        result ← sync_content base_url caps p
        promote x versions pid true p
        pure result

      -- `sync_index`
      unfoldable pub sync_index :
          Bool → Text → Verifier → Option Text → Option Text → SyncCaps → ℕ → Exec Disk SyncResult
      sync_index locked base_url v expected_bundle_id expected_channel caps clock = do
        refuse_if (not locked) lock_timeout
        sync_locked base_url v expected_bundle_id expected_channel caps clock
