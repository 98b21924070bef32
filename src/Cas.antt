-- ===== src/Cas.antt =====
-- `FilesystemCacheStore` of edgeproc/bundles/cas.py: chunks, manifests and the active pointer.
-- A path is relative to the store's root. `_store_path` refuses a symbolic link on the way, after
-- which `resolve_within` gives back the joined path. The mutation lock makes a method that takes it
-- atomic; a caller that does not get it in time raises (the argument `locked`).
pub mod Links
pub mod Chunks
pub mod Active
pub mod Collect
use edge_proc.Prelude.{
  ℕ, zero, suc, ◌+◌, Bool, true, false, ◌&&◌, ◌||◌, not, Option, none, some, List, [], ◌∷◌, ◌++◌,
  Text, length, take, contains, ltb, ◌==◌, text_eq, if◌then◌else◌, map,
}
use edge_proc.Prelude.Codes.{codes}
use edge_proc.Errors.{Error, integrity, lock_timeout, rollback, os, validation, is_integrity}
use edge_proc.Exec.{
  Result, ok, err, Exec, pure, raise, lift, catch, modify, gets, refuse_if, or_raise, ◌>>=◌, ◌>>◌,
}
use edge_proc.Disk.{
  FilePath, Node, file, directory, link, Disk, node, write, unlink, is_link, is_file, is_directory,
  child_of,
}
use edge_proc.Disk.Atomic.{atomic_write, parent_of}
use edge_proc.Manifest.{ChunkRef, FileEntry, IndexManifest, VersionPointer, validate_sha256_hex}
use edge_proc.Promotion.{Versions, downgrade_reason}
use edge_proc.Externals.{Externals, parse_pointer, parse_manifest}

abbrev pub chunks_dir : FilePath
chunks_dir = codes "chunks" ∷ []

abbrev pub manifests_dir : FilePath
manifests_dir = codes "manifests" ∷ []

abbrev pub active_path : FilePath
active_path = codes "active" ∷ []

-- `_refuse_symlink_components`
unfoldable pub linked_on : Disk → FilePath → FilePath → Bool
linked_on d dir [] = false
linked_on d dir (name ∷ rest) =
    is_link (node d (dir ++ name ∷ [])) || linked_on d (dir ++ name ∷ []) rest

-- `_store_path`
unfoldable pub store_path : FilePath → Exec Disk FilePath
unfolding linked_on
store_path path d = if linked_on d [] path then (err integrity, d) else (ok path, d)

abbrev pub chunk_of : Text → FilePath
chunk_of digest = codes "chunks" ∷ take 2 digest ∷ digest ∷ []

abbrev pub manifest_of : Text → FilePath
manifest_of digest = codes "manifests" ∷ digest ∷ []

-- `_chunk_path` and `_manifest_path`
unfoldable pub chunk_path : Text → Exec Disk FilePath
chunk_path digest = do
  refuse_if (not (validate_sha256_hex digest)) integrity
  store_path (chunk_of digest)

unfoldable pub manifest_path : Text → Exec Disk FilePath
manifest_path digest = do
  refuse_if (not (validate_sha256_hex digest)) integrity
  store_path (manifest_of digest)

bytes_of : Option Node → Result Text
bytes_of (some (file bytes)) = ok bytes
bytes_of _ = err os

-- `read_bytes`
unfoldable pub read_bytes : FilePath → Exec Disk Text
unfolding bytes_of
read_bytes path d = (bytes_of (node d path), d)

-- `_refuse_symlink`
unfoldable pub refuse_symlink : FilePath → Exec Disk (Unit {0})
refuse_symlink path d = if is_link (node d path) then (err integrity, d) else (ok tt, d)

-- One directory of `_durable_mkdir`: `mkdir` under a file fails.
unfoldable pub made : FilePath → Option Node → Bool → Exec Disk (Unit {0})
made path none last d = (ok tt, write d path directory)
made path (some (file bytes)) false d = (err os, d)
made path (some n) last d = (ok tt, d)

unfoldable pub is_last : FilePath → Bool
is_last [] = true
is_last (name ∷ rest) = false

-- `_durable_mkdir`
unfoldable pub durable_mkdir : FilePath → FilePath → Exec Disk (Unit {0})
unfolding made is_last
durable_mkdir dir [] = pure tt
durable_mkdir dir (name ∷ rest) =
    (λ d. made (dir ++ name ∷ []) (node d (dir ++ name ∷ [])) (is_last rest) d)
    >> durable_mkdir (dir ++ name ∷ []) rest

-- `mkdir(parents=True, exist_ok=True)`: any file on the way fails. A link is one to a directory.
unfoldable pub mkdir_parents : FilePath → FilePath → Exec Disk (Unit {0})
unfolding made
mkdir_parents dir [] = pure tt
mkdir_parents dir (name ∷ rest) =
    (λ d. made (dir ++ name ∷ []) (node d (dir ++ name ∷ [])) false d)
    >> mkdir_parents (dir ++ name ∷ []) rest

-- `_decompress`
checked_size : ℕ → Option Text → Result Text
checked_size max_size none = err integrity
checked_size max_size (some plaintext) =
    if ltb max_size (length plaintext) then err integrity else ok plaintext

module _ (x : Externals) (max_decompressed_bytes : ℕ) (pid : Text) where
  unfoldable pub decompress : Text → Result Text
  unfolding checked_size
  decompress stored =
      checked_size max_decompressed_bytes (x.stream_read (max_decompressed_bytes + 1) stored)

  -- `has_chunk`
  unfoldable pub has_chunk : Text → Exec Disk Bool
  has_chunk chunk_hash = do
    path ← chunk_path chunk_hash
    refuse_symlink path
    gets (λ d. is_file (node d path))

  -- The check that both readers of chunks make.
  unfoldable pub check_hash : Text → Text → Exec Disk Text
  check_hash chunk_hash plaintext = do
    refuse_if (not (x.sha256 plaintext == chunk_hash)) integrity
    pure plaintext

  -- `get_chunk`
  unfoldable pub get_chunk : Text → Exec Disk Text
  get_chunk chunk_hash = do
    path ← chunk_path chunk_hash
    refuse_symlink path
    stored ← read_bytes path
    plaintext ← lift (decompress stored)
    check_hash chunk_hash plaintext

  -- `_chunk_matches`: an `IntegrityError` is False, any other error escapes.
  unfoldable pub chunk_matches : Text → Text → Exec Disk Bool
  chunk_matches chunk_hash plaintext =
      catch (do found ← get_chunk chunk_hash; pure (found == plaintext))
        λ e. if is_integrity e then pure false else raise e

  unfoldable pub stored_already : FilePath → Text → Text → Exec Disk Bool
  stored_already path chunk_hash plaintext = do
    present ← gets (λ d. is_file (node d path))
    if present then chunk_matches chunk_hash plaintext else pure false

  unfoldable pub store_chunk : FilePath → Text → Exec Disk (Unit {0})
  store_chunk path bytes = do durable_mkdir [] (parent_of path); atomic_write pid path bytes

  -- `put_chunk`
  unfoldable pub put_chunk : Text → Exec Disk Text
  put_chunk plaintext = do
    let chunk_hash = x.sha256 plaintext
    path ← chunk_path chunk_hash
    found ← stored_already path chunk_hash plaintext
    if found then pure chunk_hash else do store_chunk path (x.compress plaintext); pure chunk_hash

  -- `_verify_or_remove`
  unfoldable pub verify_or_remove : FilePath → Text → Exec Disk (Unit {0})
  verify_or_remove path chunk_hash = do
    refuse_symlink path
    catch
        (do
          stored ← read_bytes path
          plaintext ← lift (decompress stored)
          check_hash chunk_hash plaintext
          pure tt)
        λ e. if is_integrity e then (modify (λ d. unlink d path) >> raise e) else raise e

  -- `put_chunk_compressed`
  unfoldable pub put_chunk_compressed : Text → Text → Exec Disk (Unit {0})
  put_chunk_compressed chunk_hash compressed = do
    path ← chunk_path chunk_hash
    store_chunk path compressed
    verify_or_remove path chunk_hash

  -- `put_manifest`
  unfoldable pub put_manifest : Text → Exec Disk Text
  put_manifest manifest_bytes = do
    let manifest_hash = x.sha256 manifest_bytes
    path ← manifest_path manifest_hash
    atomic_write pid path manifest_bytes
    pure manifest_hash

  -- `get_manifest`
  unfoldable pub get_manifest : Text → Exec Disk Text
  get_manifest manifest_hash = do
    path ← manifest_path manifest_hash
    refuse_symlink path
    raw ← read_bytes path
    check_hash manifest_hash raw

  -- `write_atomic`; the names of the raw path are its parts.
  unfoldable pub write_atomic : FilePath → Text → Exec Disk (Unit {0})
  write_atomic path bytes = do
    target ← store_path path
    mkdir_parents [] (parent_of target)
    atomic_write pid target bytes
