-- ===== src/Publish.antt =====
-- edgeproc/bundles/publish.py: chunk and store the files, sign the pointer, lay out the origin. The
-- origin is a part of the store's own disk: `latest`, `manifest/<hash>` and `chunk/<hash>`.
pub mod Signed
use edge_proc.Prelude.{
  ℕ, zero, suc, ◌+◌, Bool, true, false, ◌&&◌, ◌||◌, not, Option, none, some, List, [], ◌∷◌, ◌++◌,
  Text, length, take, ◌==◌, text_eq, option_eq, if◌then◌else◌,
}
use edge_proc.Prelude.Codes.{codes}
use edge_proc.Prelude.Int.{ℤ, pos}
use edge_proc.Errors.{Error, lock_timeout, value, validation, os}
use edge_proc.Exec.{
  Result, ok, err, Exec, pure, raise, gets, modify, refuse_if, or_raise, ◌>>=◌, ◌>>◌,
}
use edge_proc.Disk.{
  FilePath, Node, file, directory, Disk, node, write, is_link, is_file, is_directory,
}
use edge_proc.Disk.Atomic.{is_present}
use edge_proc.Manifest.{
  ChunkRef, FileEntry, IndexManifest, VersionPointer, validate_entry, validate_pointer,
  manifest_hashes,
}
use edge_proc.Manifest.Json.{canonical_bytes}
use edge_proc.Manifest.Preimage.{pointer_signing_bytes}
use edge_proc.Externals.{Externals}
use edge_proc.Cas.{put_chunk, put_manifest, mkdir_parents, read_bytes, chunk_of, write_atomic}
use edge_proc.Sync.{distinct}

abbrev pub published_chunk : Text → FilePath
published_chunk chunk_hash = codes "chunk" ∷ chunk_hash ∷ []

abbrev pub published_manifest : Text → FilePath
published_manifest manifest_hash = codes "manifest" ∷ manifest_hash ∷ []

abbrev pub latest : FilePath
latest = codes "latest" ∷ []

-- The options of `build_bundle` that go into the pointer.
pub record Binding : Type 0 where
  pub channel : Option Text
  pub sequence : Option ℕ
  pub bind_identity : Bool
  pub key_id : Option Text
  pub expires_at : Option ℕ

-- `_require_flat_directory`
unfoldable pub require_flat_directory : FilePath → Exec Disk (Unit {0})
require_flat_directory path d = if is_directory (node d path) then (ok tt, d) else (err value, d)

-- `_require_regular_leaf`
unfoldable pub require_regular_leaf : FilePath → Exec Disk (Unit {0})
require_regular_leaf path d =
    if is_link (node d path) || (is_present (node d path) && not (is_file (node d path)))
    then (err value, d)
    else (ok tt, d)

-- `_link_or_copy`: a hard link and a copy give the same bytes. The store never writes a file in
-- place, so the two paths do not share later changes.
unfoldable pub link_or_copy : FilePath → FilePath → Exec Disk (Unit {0})
link_or_copy src dst = do bytes ← read_bytes src; modify (λ d. write d dst (file bytes))

abbrev pub unsigned_pointer : Text → Text → Option Text → Binding → VersionPointer
unsigned_pointer digest version bundle_id b = record {
  manifest_hash = digest;
  version = version;
  bundle_id = bundle_id;
  channel = b.channel;
  sequence = b.sequence;
  key_id = b.key_id;
  expires_at = b.expires_at;
  signature = [];
}

-- `_sign_pointer`. The model's constructor validates the fields; `signer` is `signer.sign`.
unfoldable pub sign_pointer :
    (Text → Text) → Text → Text → Option Text → Binding → Result VersionPointer
sign_pointer signer digest version bundle_id b =
    let unsigned = unsigned_pointer digest version bundle_id b in
    if validate_pointer unsigned
    then ok (record unsigned { signature = signer (pointer_signing_bytes unsigned) })
    else err validation

module _ (x : Externals) (max_decompressed_bytes : ℕ) (pid : Text) where
  -- The comprehension of `_file_entry`
  unfoldable pub store_chunks : List Text → Exec Disk (List ChunkRef)
  store_chunks [] = pure []
  store_chunks (c ∷ cs) = do
    h ← put_chunk x max_decompressed_bytes pid c
    refs ← store_chunks cs
    pure (record { hash = h; size = pos (length c) } ∷ refs)

  module _ (chunker : Text → List Text) where
    -- `_file_entry`
    unfoldable pub file_entry : Text → Text → Exec Disk FileEntry
    file_entry path plaintext = do
      refs ← store_chunks (chunker plaintext)
      let e : FileEntry = record {
        path = path;
        file_type = none;
        size = pos (length plaintext);
        file_sha256 = x.sha256 plaintext;
        chunks = refs;
      }
      refuse_if (not (validate_entry e)) validation
      pure e

    unfoldable pub file_entries : List (Text × Text) → Exec Disk (List FileEntry)
    file_entries [] = pure []
    file_entries ((path, plaintext) ∷ rest) = do
      e ← file_entry path plaintext
      es ← file_entries rest
      pure (e ∷ es)

  -- `_publish_chunk`
  unfoldable pub publish_chunk : Text → Exec Disk (Unit {0})
  publish_chunk chunk_hash = do
    require_regular_leaf (published_chunk chunk_hash)
    present ← gets (λ d. is_present (node d (published_chunk chunk_hash)))
    if present
        then (do
          source ← read_bytes (chunk_of chunk_hash)
          held ← read_bytes (published_chunk chunk_hash)
          if held == source
              then pure tt
              else write_atomic x max_decompressed_bytes pid (published_chunk chunk_hash) source)
        else link_or_copy (chunk_of chunk_hash) (published_chunk chunk_hash)

  -- `_publish_chunks`
  unfoldable pub publish_chunks : List Text → Exec Disk (Unit {0})
  publish_chunks [] = pure tt
  publish_chunks (h ∷ hs) = do publish_chunk h; publish_chunks hs

  -- `_lay_out_origin`
  unfoldable pub lay_out_origin : IndexManifest → VersionPointer → Exec Disk (Unit {0})
  lay_out_origin m p = do
    mkdir_parents [] (codes "chunk" ∷ [])
    mkdir_parents [] (codes "manifest" ∷ [])
    require_flat_directory (codes "chunk" ∷ [])
    require_flat_directory (codes "manifest" ∷ [])
    write_atomic x max_decompressed_bytes pid (published_manifest p.manifest_hash)
        (canonical_bytes m)
    publish_chunks (distinct (manifest_hashes m.files))
    write_atomic x max_decompressed_bytes pid latest (x.dump_pointer p)

  module _ (chunker : Text → List Text) (signer : Text → Text) where
    -- `_build_bundle_locked`
    unfoldable pub build_bundle_locked :
        List (Text × Text) → Text → Text → Binding → Exec Disk VersionPointer
    build_bundle_locked files bundle_id version b = do
      entries ← file_entries chunker files
      let m : IndexManifest = record {
        schema_version = pos 2;
        bundle_id = bundle_id;
        version = version;
        files = entries;
        metadata = [];
      }
      put_manifest x max_decompressed_bytes pid (canonical_bytes m)
      p ← (λ d. (
        sign_pointer signer (x.sha256 (canonical_bytes m)) version
            (if b.bind_identity then some bundle_id else none) b,
        d,
      ))
      lay_out_origin m p
      pure p

    -- `build_bundle`
    unfoldable pub build_bundle :
        Bool → List (Text × Text) → Text → Text → Binding → Exec Disk VersionPointer
    build_bundle locked files bundle_id version b = do
      refuse_if (not locked) lock_timeout
      build_bundle_locked files bundle_id version b
