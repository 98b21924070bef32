-- ===== src/Tests/Synced.antt =====
-- Examples of a whole sync.
use edge_proc.Prelude.{list_discrete}
use edge_proc.Cas
use edge_proc.Sync
use edge_proc.Prelude.{
  ◌≡◌, ◌⊎◌, refl, true, none, some, [], ◌∷◌, ◌++◌, Text, length, ◌==◌, text_eq, Text-discrete,
  ℕ_discrete, option_eq,
}
use edge_proc.Prelude.Codes.{codes}
use edge_proc.Exec.{Result, ok}
use edge_proc.Disk.{FilePath, Node, file, directory, Disk, node, unlink, write}
use edge_proc.Disk.Atomic.{atomic_write}
use edge_proc.Prelude.Int.{pos}
use edge_proc.Manifest.{FileEntry, VersionPointer, validate_pointer}
use edge_proc.Promotion.{
  downgrade_reason, sequence_verdict, version_verdict, VersionPointer-discrete,
}
use edge_proc.Externals.{parse_pointer, parse_manifest}
use edge_proc.Cas.{active_path, put_chunk, get_chunk}
use edge_proc.Cas.Active
use edge_proc.Cas.Active.{read_active, promote, reading, Promotions, started, promoted}
use edge_proc.Sync.{SyncResult, sync_index, materialize_file, file_entry, is_size}
use edge_proc.Sync.Trust
use edge_proc.Sync.Content
use edge_proc.Tests.World.{
  toy, toy-IsLawful, lengths, base_url, origin, toy_verifier, small_caps, small_manifest,
  manifest_raw, hello, digest,
}
use edge_proc.Tests.Bundles.{pid, first_disk}

abbrev synced : Result SyncResult × Disk
synced =
    sync_index toy 100 pid origin lengths true base_url toy_verifier (some (codes "b")) none
      small_caps 0 first_disk

abbrev result : SyncResult
result = record {
  version = codes "1";
  manifest_hash = digest manifest_raw;
  chunks_fetched = 1;
  chunks_reused = 0;
  bytes_fetched = 5;
}

synced-ok :
    sync_index toy 100 pid origin lengths true base_url toy_verifier
      (some (codes "b"))
      none
      small_caps
      0
      first_disk
    ≡ (ok result, synced.1)
unfolding promote Active.reject_rollback read_active Active.parse_active parse_pointer
    edge_proc.Manifest.validate_pointer edge_proc.Manifest.is_fresh_sequence downgrade_reason
    sequence_verdict version_verdict VersionPointer-discrete edge_proc.Cas.store_path
    edge_proc.Cas.read_bytes edge_proc.Cas.refuse_symlink atomic_write node write unlink
    edge_proc.Disk.FilePath-discrete Text-discrete ℕ_discrete option_eq put_chunk get_chunk
    sync_index list_discrete edge_proc.Cas.linked_on edge_proc.Cas.chunk_path
    edge_proc.Cas.manifest_path edge_proc.Cas.durable_mkdir edge_proc.Cas.made edge_proc.Cas.is_last
    edge_proc.Cas.decompress edge_proc.Cas.has_chunk edge_proc.Cas.check_hash
    edge_proc.Cas.chunk_matches edge_proc.Cas.stored_already edge_proc.Cas.store_chunk
    edge_proc.Cas.verify_or_remove edge_proc.Cas.put_chunk_compressed edge_proc.Cas.put_manifest
    edge_proc.Sync.sync_locked edge_proc.Sync.sync_content edge_proc.Sync.fetch_manifest
    edge_proc.Sync.fetch_pointer edge_proc.Sync.fetch_missing edge_proc.Sync.verify_reassembly
    edge_proc.Sync.verify_entry_reassembly edge_proc.Sync.joined edge_proc.Sync.absent
    edge_proc.Sync.file_entry edge_proc.Sync.enforce_file_cap edge_proc.Sync.check_manifest_identity
    edge_proc.Sync.check_identity edge_proc.Sync.verify_pointer edge_proc.Sync.check_expiry
    edge_proc.Sync.verify_signature parse_manifest edge_proc.Manifest.validate_sha256_hex
    edge_proc.Manifest.validate_entry edge_proc.Manifest.validate_chunk
    edge_proc.Manifest.validate_key_id edge_proc.Manifest.validate_manifest
    edge_proc.Manifest.is_expired edge_proc.Containment.ensure_safe_relpath
synced-ok = refl

sync_index-Trusted_example :
    (p : VersionPointer) × Trust.Trusted toy 100 pid origin lengths toy_verifier
      (some (codes "b"))
      none
      0
      p
    × (read_active toy synced.1 ≡ (ok (some p), synced.1))
    × ((read_active toy first_disk ≡ (ok none, first_disk))
        ⊎ ((a : VersionPointer) × (read_active toy first_disk ≡ (ok (some a), first_disk))
            × (downgrade_reason lengths p a ≡ none)))
sync_index-Trusted_example =
    Trust.sync_index-Trusted toy 100 pid origin lengths true base_url toy_verifier
      (some (codes "b")) none small_caps 0 first_disk synced.1 result toy-IsLawful synced-ok

sync_index-Content_example :
    (p : VersionPointer) × (read_active toy synced.1 ≡ (ok (some p), synced.1))
    × Content.Content toy 100 pid origin base_url small_caps p result synced.1
sync_index-Content_example =
    Content.sync_index-Content toy 100 pid origin lengths true base_url toy_verifier
      (some (codes "b")) none small_caps 0 first_disk synced.1 result toy-IsLawful synced-ok

abbrev small_file : FileEntry
small_file = record {
  path = codes "a";
  file_type = none;
  size = pos 5;
  file_sha256 = digest hello;
  chunks = record { hash = digest hello; size = pos 5 } ∷ [];
}

served : origin (base_url ++ (codes "/manifest/" ++ result.manifest_hash)) ≡ ok manifest_raw
unfolding promote Active.reject_rollback read_active Active.parse_active parse_pointer
    edge_proc.Manifest.validate_pointer edge_proc.Manifest.is_fresh_sequence downgrade_reason
    sequence_verdict version_verdict VersionPointer-discrete edge_proc.Cas.store_path
    edge_proc.Cas.read_bytes edge_proc.Cas.refuse_symlink atomic_write node write unlink
    edge_proc.Disk.FilePath-discrete Text-discrete ℕ_discrete option_eq put_chunk get_chunk
    sync_index list_discrete edge_proc.Cas.linked_on edge_proc.Cas.chunk_path
    edge_proc.Cas.manifest_path edge_proc.Cas.durable_mkdir edge_proc.Cas.made edge_proc.Cas.is_last
    edge_proc.Cas.decompress edge_proc.Cas.has_chunk edge_proc.Cas.check_hash
    edge_proc.Cas.chunk_matches edge_proc.Cas.stored_already edge_proc.Cas.store_chunk
    edge_proc.Cas.verify_or_remove edge_proc.Cas.put_chunk_compressed edge_proc.Cas.put_manifest
    edge_proc.Sync.sync_locked edge_proc.Sync.sync_content edge_proc.Sync.fetch_manifest
    edge_proc.Sync.fetch_pointer edge_proc.Sync.fetch_missing edge_proc.Sync.verify_reassembly
    edge_proc.Sync.verify_entry_reassembly edge_proc.Sync.joined edge_proc.Sync.absent
    edge_proc.Sync.file_entry edge_proc.Sync.enforce_file_cap edge_proc.Sync.check_manifest_identity
    edge_proc.Sync.check_identity edge_proc.Sync.verify_pointer edge_proc.Sync.check_expiry
    edge_proc.Sync.verify_signature parse_manifest edge_proc.Manifest.validate_sha256_hex
    edge_proc.Manifest.validate_entry edge_proc.Manifest.validate_chunk
    edge_proc.Manifest.validate_key_id edge_proc.Manifest.validate_manifest
    edge_proc.Manifest.is_expired edge_proc.Containment.ensure_safe_relpath
served = refl

parsed : parse_manifest toy manifest_raw ≡ some small_manifest
unfolding promote Active.reject_rollback read_active Active.parse_active parse_pointer
    edge_proc.Manifest.validate_pointer edge_proc.Manifest.is_fresh_sequence downgrade_reason
    sequence_verdict version_verdict VersionPointer-discrete edge_proc.Cas.store_path
    edge_proc.Cas.read_bytes edge_proc.Cas.refuse_symlink atomic_write node write unlink
    edge_proc.Disk.FilePath-discrete Text-discrete ℕ_discrete option_eq put_chunk get_chunk
    sync_index list_discrete edge_proc.Cas.linked_on edge_proc.Cas.chunk_path
    edge_proc.Cas.manifest_path edge_proc.Cas.durable_mkdir edge_proc.Cas.made edge_proc.Cas.is_last
    edge_proc.Cas.decompress edge_proc.Cas.has_chunk edge_proc.Cas.check_hash
    edge_proc.Cas.chunk_matches edge_proc.Cas.stored_already edge_proc.Cas.store_chunk
    edge_proc.Cas.verify_or_remove edge_proc.Cas.put_chunk_compressed edge_proc.Cas.put_manifest
    edge_proc.Sync.sync_locked edge_proc.Sync.sync_content edge_proc.Sync.fetch_manifest
    edge_proc.Sync.fetch_pointer edge_proc.Sync.fetch_missing edge_proc.Sync.verify_reassembly
    edge_proc.Sync.verify_entry_reassembly edge_proc.Sync.joined edge_proc.Sync.absent
    edge_proc.Sync.file_entry edge_proc.Sync.enforce_file_cap edge_proc.Sync.check_manifest_identity
    edge_proc.Sync.check_identity edge_proc.Sync.verify_pointer edge_proc.Sync.check_expiry
    edge_proc.Sync.verify_signature parse_manifest edge_proc.Manifest.validate_sha256_hex
    edge_proc.Manifest.validate_entry edge_proc.Manifest.validate_chunk
    edge_proc.Manifest.validate_key_id edge_proc.Manifest.validate_manifest
    edge_proc.Manifest.is_expired edge_proc.Containment.ensure_safe_relpath
parsed = refl

found : file_entry small_manifest.files (codes "a") ≡ some small_file
unfolding promote Active.reject_rollback read_active Active.parse_active parse_pointer
    edge_proc.Manifest.validate_pointer edge_proc.Manifest.is_fresh_sequence downgrade_reason
    sequence_verdict version_verdict VersionPointer-discrete edge_proc.Cas.store_path
    edge_proc.Cas.read_bytes edge_proc.Cas.refuse_symlink atomic_write node write unlink
    edge_proc.Disk.FilePath-discrete Text-discrete ℕ_discrete option_eq put_chunk get_chunk
    sync_index list_discrete edge_proc.Cas.linked_on edge_proc.Cas.chunk_path
    edge_proc.Cas.manifest_path edge_proc.Cas.durable_mkdir edge_proc.Cas.made edge_proc.Cas.is_last
    edge_proc.Cas.decompress edge_proc.Cas.has_chunk edge_proc.Cas.check_hash
    edge_proc.Cas.chunk_matches edge_proc.Cas.stored_already edge_proc.Cas.store_chunk
    edge_proc.Cas.verify_or_remove edge_proc.Cas.put_chunk_compressed edge_proc.Cas.put_manifest
    edge_proc.Sync.sync_locked edge_proc.Sync.sync_content edge_proc.Sync.fetch_manifest
    edge_proc.Sync.fetch_pointer edge_proc.Sync.fetch_missing edge_proc.Sync.verify_reassembly
    edge_proc.Sync.verify_entry_reassembly edge_proc.Sync.joined edge_proc.Sync.absent
    edge_proc.Sync.file_entry edge_proc.Sync.enforce_file_cap edge_proc.Sync.check_manifest_identity
    edge_proc.Sync.check_identity edge_proc.Sync.verify_pointer edge_proc.Sync.check_expiry
    edge_proc.Sync.verify_signature parse_manifest edge_proc.Manifest.validate_sha256_hex
    edge_proc.Manifest.validate_entry edge_proc.Manifest.validate_chunk
    edge_proc.Manifest.validate_key_id edge_proc.Manifest.validate_manifest
    edge_proc.Manifest.is_expired edge_proc.Containment.ensure_safe_relpath
found = refl

sync_index-materialize_file_example :
    (bytes : Text) × (materialize_file toy 100 pid small_manifest (codes "a") 100 synced.1
      ≡ (ok bytes, synced.1))
    × (is_size (pos 5) (length bytes) ≡ true)
    × ((digest bytes == digest hello) ≡ true)
sync_index-materialize_file_example =
    Content.sync_index-materialize_file toy 100 pid origin lengths true base_url toy_verifier
      (some (codes "b")) none small_caps 0 first_disk synced.1 result manifest_raw small_manifest
      (codes "a") small_file toy-IsLawful synced-ok served parsed found
