-- ===== src/Tests/Origin.antt =====
-- Examples of publication and garbage collection.
use edge_proc.Prelude.{list_discrete}
use edge_proc.Cas
use edge_proc.Sync
use edge_proc.Prelude.{
  ◌≡◌, refl, true, none, some, [], ◌∷◌, ◌++◌, Text, text_eq, Text-discrete, ℕ_discrete, option_eq,
  arith,
}
use edge_proc.Prelude.Codes.{codes}
use edge_proc.Exec.{Result, ok, err}
use edge_proc.Disk.{FilePath, Node, file, directory, Disk, node, unlink, write, sound}
use edge_proc.Disk.Atomic.{atomic_write}
use edge_proc.Manifest.{FileEntry, VersionPointer, validate_pointer}
use edge_proc.Promotion.{
  downgrade_reason, sequence_verdict, version_verdict, VersionPointer-discrete,
}
use edge_proc.Externals.{parse_pointer, parse_manifest}
use edge_proc.Cas.{active_path, put_chunk, get_chunk}
use edge_proc.Cas.Active
use edge_proc.Cas.Active.{read_active, promote, reading, Promotions, started, promoted}
use edge_proc.Sync.{SyncResult, sync_index, materialize_file, file_entry, is_size}
use edge_proc.Tests.World.{toy, pointer_at, empty_disk, small_manifest, manifest_raw, hello, digest}
use edge_proc.Prelude.{==_refl, inl, List}
use edge_proc.Signing.{sign, verify, verify_pointer, signature_verifies, key_id_for}
use edge_proc.Manifest.{manifest_hashes}
use edge_proc.Manifest.Json
use edge_proc.Manifest.Json.{canonical_bytes}
use edge_proc.Manifest.Preimage.{pointer_signing_bytes}
use edge_proc.Cas.{chunks_dir, manifests_dir, manifest_of}
use edge_proc.Cas.Collect
use edge_proc.Cas.Collect.{gc, load_manifest}
use edge_proc.Keyring.Sorted.{sort_by, insert_by, text_le}
use edge_proc.Keyring.Hex.{hex}
use edge_proc.Sync.{verify_signature}
use edge_proc.Publish
use edge_proc.Publish.{Binding, sign_pointer, build_bundle, latest}
use edge_proc.Publish.Signed
use edge_proc.Publish.Signed.{IsSigning, pinned_key}
use edge_proc.Tests.World.{toy_crypto}

abbrev pid : Text
pid = codes "7"

toy-IsSigning : IsSigning toy_crypto
toy-IsSigning = record { decodes = λ bytes. refl; verifies_signed = λ key bytes. ==_refl key }

abbrev key : Text
key = codes "key"

abbrev plain : Binding
plain = record {
  channel = none;
  sequence = some 1;
  bind_identity = true;
  key_id = none;
  expires_at = none;
}

abbrev signed : VersionPointer
signed = record {
  manifest_hash = digest hello;
  version = codes "1";
  bundle_id = some (codes "b");
  channel = none;
  sequence = some 1;
  key_id = none;
  expires_at = none;
  signature = key;
}

signed-ok :
    sign_pointer (sign toy_crypto key) (digest hello) (codes "1") (some (codes "b")) plain
    ≡ ok signed
unfolding promote Active.reject_rollback read_active Active.parse_active parse_pointer
    edge_proc.Manifest.validate_pointer edge_proc.Manifest.is_fresh_sequence downgrade_reason
    sequence_verdict version_verdict VersionPointer-discrete edge_proc.Cas.store_path
    edge_proc.Cas.read_bytes edge_proc.Cas.refuse_symlink atomic_write node write unlink
    edge_proc.Disk.FilePath-discrete Text-discrete ℕ_discrete option_eq put_chunk get_chunk
    list_discrete edge_proc.Cas.linked_on edge_proc.Cas.chunk_path edge_proc.Cas.manifest_path
    edge_proc.Cas.durable_mkdir edge_proc.Cas.made edge_proc.Cas.is_last edge_proc.Cas.decompress
    edge_proc.Cas.has_chunk edge_proc.Cas.check_hash edge_proc.Cas.chunk_matches
    edge_proc.Cas.stored_already edge_proc.Cas.store_chunk edge_proc.Cas.verify_or_remove
    edge_proc.Cas.put_chunk_compressed edge_proc.Cas.put_manifest edge_proc.Sync.sync_locked
    edge_proc.Sync.sync_content edge_proc.Sync.fetch_manifest edge_proc.Sync.fetch_pointer
    edge_proc.Sync.fetch_missing edge_proc.Sync.verify_reassembly
    edge_proc.Sync.verify_entry_reassembly edge_proc.Sync.joined edge_proc.Sync.absent
    edge_proc.Sync.file_entry edge_proc.Sync.enforce_file_cap edge_proc.Sync.check_manifest_identity
    edge_proc.Sync.check_identity edge_proc.Sync.verify_pointer edge_proc.Sync.check_expiry
    edge_proc.Sync.verify_signature edge_proc.Manifest.validate_sha256_hex
    edge_proc.Manifest.validate_entry edge_proc.Manifest.validate_chunk
    edge_proc.Manifest.validate_key_id edge_proc.Manifest.validate_manifest
    edge_proc.Manifest.is_expired edge_proc.Containment.ensure_safe_relpath parse_manifest
    sync_index build_bundle sign_pointer gc load_manifest canonical_bytes pointer_signing_bytes
    sort_by insert_by text_le hex sign verify verify_pointer signature_verifies key_id_for
    Publish.build_bundle_locked Publish.file_entries Publish.file_entry Publish.store_chunks
    Publish.lay_out_origin Publish.publish_chunks Publish.publish_chunk Publish.link_or_copy
    Publish.require_flat_directory Publish.require_regular_leaf edge_proc.Cas.write_atomic
    edge_proc.Cas.mkdir_parents edge_proc.Cas.get_manifest Collect.collect Collect.sweep_chunks
    Collect.sweep_shards Collect.sweep_files Collect.sweep_manifests Collect.children Json.dumps
    Json.dumps_items Json.dumps_fields Json.scalar_text Json.string_text Json.escaped Json.escape
    Json.int_text Json.digits Json.object
signed-ok = refl

abbrev whole_file : Text → List Text
whole_file t = t ∷ []

abbrev published : Result VersionPointer × Disk
published =
    build_bundle toy 100 pid whole_file (sign toy_crypto key) true ((codes "a", hello) ∷ [])
      (codes "b") (codes "1") plain empty_disk

abbrev published_pointer : VersionPointer
published_pointer = elim published.0 [ ok p ↦ p | err e ↦ signed ]

published-ok :
    build_bundle toy 100 pid whole_file
      (sign toy_crypto key)
      true
      ((codes "a", hello) ∷ [])
      (codes "b")
      (codes "1")
      plain
      empty_disk
    ≡ (ok published_pointer, published.1)
unfolding promote Active.reject_rollback read_active Active.parse_active parse_pointer
    edge_proc.Manifest.validate_pointer edge_proc.Manifest.is_fresh_sequence downgrade_reason
    sequence_verdict version_verdict VersionPointer-discrete edge_proc.Cas.store_path
    edge_proc.Cas.read_bytes edge_proc.Cas.refuse_symlink atomic_write node write unlink
    edge_proc.Disk.FilePath-discrete Text-discrete ℕ_discrete option_eq put_chunk get_chunk
    list_discrete edge_proc.Cas.linked_on edge_proc.Cas.chunk_path edge_proc.Cas.manifest_path
    edge_proc.Cas.durable_mkdir edge_proc.Cas.made edge_proc.Cas.is_last edge_proc.Cas.decompress
    edge_proc.Cas.has_chunk edge_proc.Cas.check_hash edge_proc.Cas.chunk_matches
    edge_proc.Cas.stored_already edge_proc.Cas.store_chunk edge_proc.Cas.verify_or_remove
    edge_proc.Cas.put_chunk_compressed edge_proc.Cas.put_manifest edge_proc.Sync.sync_locked
    edge_proc.Sync.sync_content edge_proc.Sync.fetch_manifest edge_proc.Sync.fetch_pointer
    edge_proc.Sync.fetch_missing edge_proc.Sync.verify_reassembly
    edge_proc.Sync.verify_entry_reassembly edge_proc.Sync.joined edge_proc.Sync.absent
    edge_proc.Sync.file_entry edge_proc.Sync.enforce_file_cap edge_proc.Sync.check_manifest_identity
    edge_proc.Sync.check_identity edge_proc.Sync.verify_pointer edge_proc.Sync.check_expiry
    edge_proc.Sync.verify_signature edge_proc.Manifest.validate_sha256_hex
    edge_proc.Manifest.validate_entry edge_proc.Manifest.validate_chunk
    edge_proc.Manifest.validate_key_id edge_proc.Manifest.validate_manifest
    edge_proc.Manifest.is_expired edge_proc.Containment.ensure_safe_relpath parse_manifest
    sync_index build_bundle sign_pointer gc load_manifest canonical_bytes pointer_signing_bytes
    sort_by insert_by text_le hex sign verify verify_pointer signature_verifies key_id_for
    Publish.build_bundle_locked Publish.file_entries Publish.file_entry Publish.store_chunks
    Publish.lay_out_origin Publish.publish_chunks Publish.publish_chunk Publish.link_or_copy
    Publish.require_flat_directory Publish.require_regular_leaf edge_proc.Cas.write_atomic
    edge_proc.Cas.mkdir_parents edge_proc.Cas.get_manifest Collect.collect Collect.sweep_chunks
    Collect.sweep_shards Collect.sweep_files Collect.sweep_manifests Collect.children Json.dumps
    Json.dumps_items Json.dumps_fields Json.scalar_text Json.string_text Json.escaped Json.escape
    Json.int_text Json.digits Json.object
published-ok = refl

build_bundle-latest_example :
    (node published.1 latest ≡ some (file (toy.dump_pointer published_pointer)))
    × (verify_signature published_pointer (pinned_key toy_crypto key) ≡ ok tt)
build_bundle-latest_example =
    Signed.build_bundle-latest toy 100 pid whole_file key true ((codes "a", hello) ∷ []) (codes "b")
      (codes "1") plain empty_disk published.1 published_pointer toy-IsSigning (inl refl)
      published-ok

abbrev small_raw : Text
small_raw = canonical_bytes small_manifest

abbrev active_small : VersionPointer
active_small = record (pointer_at 1) { manifest_hash = digest small_raw }

abbrev stale_disk : Disk
stale_disk = record {
  nodes =
      (active_path, file (toy.dump_pointer active_small))
      ∷ (manifests_dir ++ digest small_raw ∷ [], file small_raw)
      ∷ (chunks_dir, directory)
      ∷ (chunks_dir ++ codes "50" ∷ [], directory)
      ∷ (chunks_dir ++ codes "50" ∷ [] ++ digest hello ∷ [], file hello)
      ∷ (chunks_dir ++ codes "50" ∷ [] ++ digest manifest_raw ∷ [], file manifest_raw)
      ∷ [];
  faults = λ p. sound;
}

small-active : read_active toy stale_disk ≡ (ok (some active_small), stale_disk)
unfolding promote Active.reject_rollback read_active Active.parse_active parse_pointer
    edge_proc.Manifest.validate_pointer edge_proc.Manifest.is_fresh_sequence downgrade_reason
    sequence_verdict version_verdict VersionPointer-discrete edge_proc.Cas.store_path
    edge_proc.Cas.read_bytes edge_proc.Cas.refuse_symlink atomic_write node write unlink
    edge_proc.Disk.FilePath-discrete Text-discrete ℕ_discrete option_eq put_chunk get_chunk
    list_discrete edge_proc.Cas.linked_on edge_proc.Cas.chunk_path edge_proc.Cas.manifest_path
    edge_proc.Cas.durable_mkdir edge_proc.Cas.made edge_proc.Cas.is_last edge_proc.Cas.decompress
    edge_proc.Cas.has_chunk edge_proc.Cas.check_hash edge_proc.Cas.chunk_matches
    edge_proc.Cas.stored_already edge_proc.Cas.store_chunk edge_proc.Cas.verify_or_remove
    edge_proc.Cas.put_chunk_compressed edge_proc.Cas.put_manifest edge_proc.Sync.sync_locked
    edge_proc.Sync.sync_content edge_proc.Sync.fetch_manifest edge_proc.Sync.fetch_pointer
    edge_proc.Sync.fetch_missing edge_proc.Sync.verify_reassembly
    edge_proc.Sync.verify_entry_reassembly edge_proc.Sync.joined edge_proc.Sync.absent
    edge_proc.Sync.file_entry edge_proc.Sync.enforce_file_cap edge_proc.Sync.check_manifest_identity
    edge_proc.Sync.check_identity edge_proc.Sync.verify_pointer edge_proc.Sync.check_expiry
    edge_proc.Sync.verify_signature edge_proc.Manifest.validate_sha256_hex
    edge_proc.Manifest.validate_entry edge_proc.Manifest.validate_chunk
    edge_proc.Manifest.validate_key_id edge_proc.Manifest.validate_manifest
    edge_proc.Manifest.is_expired edge_proc.Containment.ensure_safe_relpath parse_manifest
    sync_index build_bundle sign_pointer gc load_manifest canonical_bytes pointer_signing_bytes
    sort_by insert_by text_le hex sign verify verify_pointer signature_verifies key_id_for
    Publish.build_bundle_locked Publish.file_entries Publish.file_entry Publish.store_chunks
    Publish.lay_out_origin Publish.publish_chunks Publish.publish_chunk Publish.link_or_copy
    Publish.require_flat_directory Publish.require_regular_leaf edge_proc.Cas.write_atomic
    edge_proc.Cas.mkdir_parents edge_proc.Cas.get_manifest Collect.collect Collect.sweep_chunks
    Collect.sweep_shards Collect.sweep_files Collect.sweep_manifests Collect.children Json.dumps
    Json.dumps_items Json.dumps_fields Json.scalar_text Json.string_text Json.escaped Json.escape
    Json.int_text Json.digits Json.object
small-active = refl

small-loaded :
    load_manifest toy 100 pid (digest small_raw) stale_disk ≡ (ok small_manifest, stale_disk)
unfolding promote Active.reject_rollback read_active Active.parse_active parse_pointer
    edge_proc.Manifest.validate_pointer edge_proc.Manifest.is_fresh_sequence downgrade_reason
    sequence_verdict version_verdict VersionPointer-discrete edge_proc.Cas.store_path
    edge_proc.Cas.read_bytes edge_proc.Cas.refuse_symlink atomic_write node write unlink
    edge_proc.Disk.FilePath-discrete Text-discrete ℕ_discrete option_eq put_chunk get_chunk
    list_discrete edge_proc.Cas.linked_on edge_proc.Cas.chunk_path edge_proc.Cas.manifest_path
    edge_proc.Cas.durable_mkdir edge_proc.Cas.made edge_proc.Cas.is_last edge_proc.Cas.decompress
    edge_proc.Cas.has_chunk edge_proc.Cas.check_hash edge_proc.Cas.chunk_matches
    edge_proc.Cas.stored_already edge_proc.Cas.store_chunk edge_proc.Cas.verify_or_remove
    edge_proc.Cas.put_chunk_compressed edge_proc.Cas.put_manifest edge_proc.Sync.sync_locked
    edge_proc.Sync.sync_content edge_proc.Sync.fetch_manifest edge_proc.Sync.fetch_pointer
    edge_proc.Sync.fetch_missing edge_proc.Sync.verify_reassembly
    edge_proc.Sync.verify_entry_reassembly edge_proc.Sync.joined edge_proc.Sync.absent
    edge_proc.Sync.file_entry edge_proc.Sync.enforce_file_cap edge_proc.Sync.check_manifest_identity
    edge_proc.Sync.check_identity edge_proc.Sync.verify_pointer edge_proc.Sync.check_expiry
    edge_proc.Sync.verify_signature edge_proc.Manifest.validate_sha256_hex
    edge_proc.Manifest.validate_entry edge_proc.Manifest.validate_chunk
    edge_proc.Manifest.validate_key_id edge_proc.Manifest.validate_manifest
    edge_proc.Manifest.is_expired edge_proc.Containment.ensure_safe_relpath parse_manifest
    sync_index build_bundle sign_pointer gc load_manifest canonical_bytes pointer_signing_bytes
    sort_by insert_by text_le hex sign verify verify_pointer signature_verifies key_id_for
    Publish.build_bundle_locked Publish.file_entries Publish.file_entry Publish.store_chunks
    Publish.lay_out_origin Publish.publish_chunks Publish.publish_chunk Publish.link_or_copy
    Publish.require_flat_directory Publish.require_regular_leaf edge_proc.Cas.write_atomic
    edge_proc.Cas.mkdir_parents edge_proc.Cas.get_manifest Collect.collect Collect.sweep_chunks
    Collect.sweep_shards Collect.sweep_files Collect.sweep_manifests Collect.children Json.dumps
    Json.dumps_items Json.dumps_fields Json.scalar_text Json.string_text Json.escaped Json.escape
    Json.int_text Json.digits Json.object
small-loaded = refl

gc-kept_example :
    (node (gc toy 100 pid true stale_disk).1 active_path ≡ node stale_disk active_path)
    × (node (gc toy 100 pid true stale_disk).1 (manifest_of (digest small_raw))
        ≡ node stale_disk (manifest_of (digest small_raw)))
    × (node (gc toy 100 pid true stale_disk).1 (chunks_dir ++ codes "50" ∷ [] ++ digest hello ∷ [])
        ≡ node stale_disk (chunks_dir ++ codes "50" ∷ [] ++ digest hello ∷ []))
gc-kept_example =
    Collect.gc-kept toy 100 pid true stale_disk active_small small_manifest (codes "50")
      (digest hello) small-active small-loaded (ground (arith, ==_refl (digest hello)))

-- The chunk that the manifest does not name goes.
swept : (gc toy 100 pid true stale_disk).0 ≡ ok 1
unfolding promote Active.reject_rollback read_active Active.parse_active parse_pointer
    edge_proc.Manifest.validate_pointer edge_proc.Manifest.is_fresh_sequence downgrade_reason
    sequence_verdict version_verdict VersionPointer-discrete edge_proc.Cas.store_path
    edge_proc.Cas.read_bytes edge_proc.Cas.refuse_symlink atomic_write node write unlink
    edge_proc.Disk.FilePath-discrete Text-discrete ℕ_discrete option_eq put_chunk get_chunk
    list_discrete edge_proc.Cas.linked_on edge_proc.Cas.chunk_path edge_proc.Cas.manifest_path
    edge_proc.Cas.durable_mkdir edge_proc.Cas.made edge_proc.Cas.is_last edge_proc.Cas.decompress
    edge_proc.Cas.has_chunk edge_proc.Cas.check_hash edge_proc.Cas.chunk_matches
    edge_proc.Cas.stored_already edge_proc.Cas.store_chunk edge_proc.Cas.verify_or_remove
    edge_proc.Cas.put_chunk_compressed edge_proc.Cas.put_manifest edge_proc.Sync.sync_locked
    edge_proc.Sync.sync_content edge_proc.Sync.fetch_manifest edge_proc.Sync.fetch_pointer
    edge_proc.Sync.fetch_missing edge_proc.Sync.verify_reassembly
    edge_proc.Sync.verify_entry_reassembly edge_proc.Sync.joined edge_proc.Sync.absent
    edge_proc.Sync.file_entry edge_proc.Sync.enforce_file_cap edge_proc.Sync.check_manifest_identity
    edge_proc.Sync.check_identity edge_proc.Sync.verify_pointer edge_proc.Sync.check_expiry
    edge_proc.Sync.verify_signature edge_proc.Manifest.validate_sha256_hex
    edge_proc.Manifest.validate_entry edge_proc.Manifest.validate_chunk
    edge_proc.Manifest.validate_key_id edge_proc.Manifest.validate_manifest
    edge_proc.Manifest.is_expired edge_proc.Containment.ensure_safe_relpath parse_manifest
    sync_index build_bundle sign_pointer gc load_manifest canonical_bytes pointer_signing_bytes
    sort_by insert_by text_le hex sign verify verify_pointer signature_verifies key_id_for
    Publish.build_bundle_locked Publish.file_entries Publish.file_entry Publish.store_chunks
    Publish.lay_out_origin Publish.publish_chunks Publish.publish_chunk Publish.link_or_copy
    Publish.require_flat_directory Publish.require_regular_leaf edge_proc.Cas.write_atomic
    edge_proc.Cas.mkdir_parents edge_proc.Cas.get_manifest Collect.collect Collect.sweep_chunks
    Collect.sweep_shards Collect.sweep_files Collect.sweep_manifests Collect.children Json.dumps
    Json.dumps_items Json.dumps_fields Json.scalar_text Json.string_text Json.escaped Json.escape
    Json.int_text Json.digits Json.object
swept = refl
