-- ===== src/Tests/Bundles.antt =====
-- Examples of promotion and chunks.
use edge_proc.Prelude.{list_discrete}
use edge_proc.Cas
use edge_proc.Sync
use edge_proc.Prelude.{
  ℕ, ◌<◌, ◌≡◌, ◌≢◌, ◌⊎◌, ◌↔◌, refl, ap, true, ◌&&◌, none, some, [], ◌∷◌, Text, text_eq,
  Text-discrete, ℕ_discrete, option_eq, arith,
}
use edge_proc.Prelude.Codes.{codes}
use edge_proc.Errors.{Error, os, stale_sequence, integrity, is_integrity, rollback}
use edge_proc.Exec.{ok, err}
use edge_proc.Disk.{FilePath, Node, file, directory, Disk, node, unlink, write, sound, sync_fault}
use edge_proc.Disk.Atomic
use edge_proc.Disk.Atomic.{atomic_write, effects, temp_of, create, extend, Crashed, torn}
use edge_proc.Manifest.{FileEntry, VersionPointer, validate_pointer}
use edge_proc.Promotion.{
  downgrade_reason, sequence_verdict, version_verdict, VersionPointer-discrete,
}
use edge_proc.Promotion.Guard
use edge_proc.Promotion.Guard.{Proves}
use edge_proc.Promotion.History
use edge_proc.Promotion.History.{History, once}
use edge_proc.Externals.{parse_pointer, parse_manifest}
use edge_proc.Cas.{active_path, put_chunk, get_chunk}
use edge_proc.Cas.Chunks
use edge_proc.Cas.Active
use edge_proc.Cas.Active.{read_active, promote, reading}
use edge_proc.Sync.{SyncResult, sync_index, materialize_file, file_entry, is_size}
use edge_proc.Tests.World.{
  toy, toy-IsLawful, lengths, lengths-IsOrder, pointer_at, empty_disk, hello, digest,
}

abbrev pub pid : Text
pid = codes "7"

abbrev holding : ℕ → Disk
holding n = record {
  nodes =
      (active_path, file (toy.dump_pointer (pointer_at n)))
      ∷ (codes "chunks" ∷ [], directory)
      ∷ (codes "manifests" ∷ [], directory)
      ∷ [];
  faults = λ p. sound;
}

abbrev pub first_disk : Disk
first_disk = holding 1

abbrev second_disk : Disk
second_disk = holding 2

second-ok : promote toy lengths pid true (pointer_at 2) first_disk ≡ (ok tt, second_disk)
unfolding promote Active.reject_rollback read_active Active.parse_active parse_pointer
    edge_proc.Manifest.validate_pointer edge_proc.Manifest.is_fresh_sequence downgrade_reason
    sequence_verdict version_verdict VersionPointer-discrete edge_proc.Cas.store_path
    edge_proc.Cas.read_bytes edge_proc.Cas.refuse_symlink atomic_write node write unlink
    edge_proc.Disk.FilePath-discrete Text-discrete ℕ_discrete option_eq put_chunk get_chunk
    sync_index list_discrete edge_proc.Cas.linked_on edge_proc.Cas.chunk_path
    edge_proc.Cas.manifest_path edge_proc.Cas.durable_mkdir edge_proc.Cas.made edge_proc.Cas.is_last
    edge_proc.Cas.decompress edge_proc.Cas.has_chunk edge_proc.Cas.check_hash
    edge_proc.Cas.chunk_matches edge_proc.Cas.stored_already edge_proc.Cas.store_chunk
    edge_proc.Cas.verify_or_remove edge_proc.Cas.put_chunk_compressed edge_proc.Cas.put_manifest
    edge_proc.Sync.sync_locked edge_proc.Sync.sync_content edge_proc.Sync.fetch_manifest
    edge_proc.Sync.fetch_pointer edge_proc.Sync.fetch_missing edge_proc.Sync.verify_reassembly
    edge_proc.Sync.verify_entry_reassembly edge_proc.Sync.joined edge_proc.Sync.absent
    edge_proc.Sync.file_entry edge_proc.Sync.enforce_file_cap edge_proc.Sync.check_manifest_identity
    edge_proc.Sync.check_identity edge_proc.Sync.verify_pointer edge_proc.Sync.check_expiry
    edge_proc.Sync.verify_signature parse_manifest edge_proc.Manifest.validate_sha256_hex
    edge_proc.Manifest.validate_entry edge_proc.Manifest.validate_chunk
    edge_proc.Manifest.validate_key_id edge_proc.Manifest.validate_manifest
    edge_proc.Manifest.is_expired edge_proc.Containment.ensure_safe_relpath
second-ok = refl

valid : validate_pointer (pointer_at 1) && validate_pointer (pointer_at 2) ≡ true
unfolding promote Active.reject_rollback read_active Active.parse_active parse_pointer
    edge_proc.Manifest.validate_pointer edge_proc.Manifest.is_fresh_sequence downgrade_reason
    sequence_verdict version_verdict VersionPointer-discrete edge_proc.Cas.store_path
    edge_proc.Cas.read_bytes edge_proc.Cas.refuse_symlink atomic_write node write unlink
    edge_proc.Disk.FilePath-discrete Text-discrete ℕ_discrete option_eq put_chunk get_chunk
    sync_index list_discrete edge_proc.Cas.linked_on edge_proc.Cas.chunk_path
    edge_proc.Cas.manifest_path edge_proc.Cas.durable_mkdir edge_proc.Cas.made edge_proc.Cas.is_last
    edge_proc.Cas.decompress edge_proc.Cas.has_chunk edge_proc.Cas.check_hash
    edge_proc.Cas.chunk_matches edge_proc.Cas.stored_already edge_proc.Cas.store_chunk
    edge_proc.Cas.verify_or_remove edge_proc.Cas.put_chunk_compressed edge_proc.Cas.put_manifest
    edge_proc.Sync.sync_locked edge_proc.Sync.sync_content edge_proc.Sync.fetch_manifest
    edge_proc.Sync.fetch_pointer edge_proc.Sync.fetch_missing edge_proc.Sync.verify_reassembly
    edge_proc.Sync.verify_entry_reassembly edge_proc.Sync.joined edge_proc.Sync.absent
    edge_proc.Sync.file_entry edge_proc.Sync.enforce_file_cap edge_proc.Sync.check_manifest_identity
    edge_proc.Sync.check_identity edge_proc.Sync.verify_pointer edge_proc.Sync.check_expiry
    edge_proc.Sync.verify_signature parse_manifest edge_proc.Manifest.validate_sha256_hex
    edge_proc.Manifest.validate_entry edge_proc.Manifest.validate_chunk
    edge_proc.Manifest.validate_key_id edge_proc.Manifest.validate_manifest
    edge_proc.Manifest.is_expired edge_proc.Containment.ensure_safe_relpath
valid = refl

promote-read_active_example :
    (read_active toy second_disk ≡ (ok (some (pointer_at 2)), second_disk))
    × ((read_active toy first_disk ≡ (ok none, first_disk))
        ⊎ ((a : VersionPointer) × (read_active toy first_disk ≡ (ok (some a), first_disk))
            × (downgrade_reason lengths (pointer_at 2) a ≡ none)))
promote-read_active_example =
    Active.promote-read_active toy lengths pid true (pointer_at 2) first_disk second_disk
      toy-IsLawful (ground (arith, valid)) second-ok

differ : pointer_at 2 ≢ pointer_at 1
differ e = ground (arith, ap (λ (p : VersionPointer). p.sequence) e)

abbrev flushing_disk : Disk
flushing_disk = record empty_disk { faults = λ p. sync_fault }

-- The flush of the directory fails: the promotion raises, and the pointer is the new one.
flush_fails : (promote toy lengths pid true (pointer_at 1) flushing_disk).0 ≡ err os
unfolding promote Active.reject_rollback read_active Active.parse_active parse_pointer
    edge_proc.Manifest.validate_pointer edge_proc.Manifest.is_fresh_sequence downgrade_reason
    sequence_verdict version_verdict VersionPointer-discrete edge_proc.Cas.store_path
    edge_proc.Cas.read_bytes edge_proc.Cas.refuse_symlink atomic_write node write unlink
    edge_proc.Disk.FilePath-discrete Text-discrete ℕ_discrete option_eq put_chunk get_chunk
    sync_index list_discrete edge_proc.Cas.linked_on edge_proc.Cas.chunk_path
    edge_proc.Cas.manifest_path edge_proc.Cas.durable_mkdir edge_proc.Cas.made edge_proc.Cas.is_last
    edge_proc.Cas.decompress edge_proc.Cas.has_chunk edge_proc.Cas.check_hash
    edge_proc.Cas.chunk_matches edge_proc.Cas.stored_already edge_proc.Cas.store_chunk
    edge_proc.Cas.verify_or_remove edge_proc.Cas.put_chunk_compressed edge_proc.Cas.put_manifest
    edge_proc.Sync.sync_locked edge_proc.Sync.sync_content edge_proc.Sync.fetch_manifest
    edge_proc.Sync.fetch_pointer edge_proc.Sync.fetch_missing edge_proc.Sync.verify_reassembly
    edge_proc.Sync.verify_entry_reassembly edge_proc.Sync.joined edge_proc.Sync.absent
    edge_proc.Sync.file_entry edge_proc.Sync.enforce_file_cap edge_proc.Sync.check_manifest_identity
    edge_proc.Sync.check_identity edge_proc.Sync.verify_pointer edge_proc.Sync.check_expiry
    edge_proc.Sync.verify_signature parse_manifest edge_proc.Manifest.validate_sha256_hex
    edge_proc.Manifest.validate_entry edge_proc.Manifest.validate_chunk
    edge_proc.Manifest.validate_key_id edge_proc.Manifest.validate_manifest
    edge_proc.Manifest.is_expired edge_proc.Containment.ensure_safe_relpath
flush_fails = refl

flushed_anyway :
    node (promote toy lengths pid true (pointer_at 1) flushing_disk).1 active_path
    ≡ some (file (toy.dump_pointer (pointer_at 1)))
unfolding promote Active.reject_rollback read_active Active.parse_active parse_pointer
    edge_proc.Manifest.validate_pointer edge_proc.Manifest.is_fresh_sequence downgrade_reason
    sequence_verdict version_verdict VersionPointer-discrete edge_proc.Cas.store_path
    edge_proc.Cas.read_bytes edge_proc.Cas.refuse_symlink atomic_write node write unlink
    edge_proc.Disk.FilePath-discrete Text-discrete ℕ_discrete option_eq put_chunk get_chunk
    sync_index list_discrete edge_proc.Cas.linked_on edge_proc.Cas.chunk_path
    edge_proc.Cas.manifest_path edge_proc.Cas.durable_mkdir edge_proc.Cas.made edge_proc.Cas.is_last
    edge_proc.Cas.decompress edge_proc.Cas.has_chunk edge_proc.Cas.check_hash
    edge_proc.Cas.chunk_matches edge_proc.Cas.stored_already edge_proc.Cas.store_chunk
    edge_proc.Cas.verify_or_remove edge_proc.Cas.put_chunk_compressed edge_proc.Cas.put_manifest
    edge_proc.Sync.sync_locked edge_proc.Sync.sync_content edge_proc.Sync.fetch_manifest
    edge_proc.Sync.fetch_pointer edge_proc.Sync.fetch_missing edge_proc.Sync.verify_reassembly
    edge_proc.Sync.verify_entry_reassembly edge_proc.Sync.joined edge_proc.Sync.absent
    edge_proc.Sync.file_entry edge_proc.Sync.enforce_file_cap edge_proc.Sync.check_manifest_identity
    edge_proc.Sync.check_identity edge_proc.Sync.verify_pointer edge_proc.Sync.check_expiry
    edge_proc.Sync.verify_signature parse_manifest edge_proc.Manifest.validate_sha256_hex
    edge_proc.Manifest.validate_entry edge_proc.Manifest.validate_chunk
    edge_proc.Manifest.validate_key_id edge_proc.Manifest.validate_manifest
    edge_proc.Manifest.is_expired edge_proc.Containment.ensure_safe_relpath
flushed_anyway = refl

-- A replay of the first pointer is refused for its counter.
replayed :
    promote toy lengths pid true (pointer_at 1) second_disk
    ≡ (err (rollback stale_sequence), second_disk)
unfolding promote Active.reject_rollback read_active Active.parse_active parse_pointer
    edge_proc.Manifest.validate_pointer edge_proc.Manifest.is_fresh_sequence downgrade_reason
    sequence_verdict version_verdict VersionPointer-discrete edge_proc.Cas.store_path
    edge_proc.Cas.read_bytes edge_proc.Cas.refuse_symlink atomic_write node write unlink
    edge_proc.Disk.FilePath-discrete Text-discrete ℕ_discrete option_eq put_chunk get_chunk
    sync_index list_discrete edge_proc.Cas.linked_on edge_proc.Cas.chunk_path
    edge_proc.Cas.manifest_path edge_proc.Cas.durable_mkdir edge_proc.Cas.made edge_proc.Cas.is_last
    edge_proc.Cas.decompress edge_proc.Cas.has_chunk edge_proc.Cas.check_hash
    edge_proc.Cas.chunk_matches edge_proc.Cas.stored_already edge_proc.Cas.store_chunk
    edge_proc.Cas.verify_or_remove edge_proc.Cas.put_chunk_compressed edge_proc.Cas.put_manifest
    edge_proc.Sync.sync_locked edge_proc.Sync.sync_content edge_proc.Sync.fetch_manifest
    edge_proc.Sync.fetch_pointer edge_proc.Sync.fetch_missing edge_proc.Sync.verify_reassembly
    edge_proc.Sync.verify_entry_reassembly edge_proc.Sync.joined edge_proc.Sync.absent
    edge_proc.Sync.file_entry edge_proc.Sync.enforce_file_cap edge_proc.Sync.check_manifest_identity
    edge_proc.Sync.check_identity edge_proc.Sync.verify_pointer edge_proc.Sync.check_expiry
    edge_proc.Sync.verify_signature parse_manifest edge_proc.Manifest.validate_sha256_hex
    edge_proc.Manifest.validate_entry edge_proc.Manifest.validate_chunk
    edge_proc.Manifest.validate_key_id edge_proc.Manifest.validate_manifest
    edge_proc.Manifest.is_expired edge_proc.Containment.ensure_safe_relpath
replayed = refl

promote-err_example :
    (node second_disk active_path ≡ node second_disk active_path)
    ⊎ ((rollback stale_sequence ≡ os)
        × (second_disk.faults active_path ≡ sync_fault)
        × (Active.reject_rollback toy lengths (pointer_at 1) second_disk ≡ (ok tt, second_disk))
        × (node second_disk active_path ≡ some (file (toy.dump_pointer (pointer_at 1)))))
unfolding edge_proc.Disk.FilePath-discrete list_discrete Text-discrete ℕ_discrete
promote-err_example =
    Active.promote-err toy lengths pid true (pointer_at 1) second_disk second_disk
      (rollback stale_sequence) active_path replayed

abbrev broken_disk : Disk
broken_disk = record { nodes = (active_path, directory) ∷ []; faults = λ p. sound }

unreadable : reading toy (node broken_disk active_path) ≡ err integrity
unfolding promote Active.reject_rollback read_active Active.parse_active parse_pointer
    edge_proc.Manifest.validate_pointer edge_proc.Manifest.is_fresh_sequence downgrade_reason
    sequence_verdict version_verdict VersionPointer-discrete edge_proc.Cas.store_path
    edge_proc.Cas.read_bytes edge_proc.Cas.refuse_symlink atomic_write node write unlink
    edge_proc.Disk.FilePath-discrete Text-discrete ℕ_discrete option_eq put_chunk get_chunk
    sync_index list_discrete edge_proc.Cas.linked_on edge_proc.Cas.chunk_path
    edge_proc.Cas.manifest_path edge_proc.Cas.durable_mkdir edge_proc.Cas.made edge_proc.Cas.is_last
    edge_proc.Cas.decompress edge_proc.Cas.has_chunk edge_proc.Cas.check_hash
    edge_proc.Cas.chunk_matches edge_proc.Cas.stored_already edge_proc.Cas.store_chunk
    edge_proc.Cas.verify_or_remove edge_proc.Cas.put_chunk_compressed edge_proc.Cas.put_manifest
    edge_proc.Sync.sync_locked edge_proc.Sync.sync_content edge_proc.Sync.fetch_manifest
    edge_proc.Sync.fetch_pointer edge_proc.Sync.fetch_missing edge_proc.Sync.verify_reassembly
    edge_proc.Sync.verify_entry_reassembly edge_proc.Sync.joined edge_proc.Sync.absent
    edge_proc.Sync.file_entry edge_proc.Sync.enforce_file_cap edge_proc.Sync.check_manifest_identity
    edge_proc.Sync.check_identity edge_proc.Sync.verify_pointer edge_proc.Sync.check_expiry
    edge_proc.Sync.verify_signature parse_manifest edge_proc.Manifest.validate_sha256_hex
    edge_proc.Manifest.validate_entry edge_proc.Manifest.validate_chunk
    edge_proc.Manifest.validate_key_id edge_proc.Manifest.validate_manifest
    edge_proc.Manifest.is_expired edge_proc.Containment.ensure_safe_relpath
unreadable = refl

promote-unreadable_example :
    (why : Error) × (is_integrity why ≡ true)
    × (promote toy lengths pid true (pointer_at 1) broken_disk ≡ (err why, broken_disk))
promote-unreadable_example =
    Active.promote-unreadable toy lengths pid true (pointer_at 1) broken_disk unreadable

accepted : downgrade_reason lengths (pointer_at 2) (pointer_at 1) ≡ none
unfolding promote Active.reject_rollback read_active Active.parse_active parse_pointer
    edge_proc.Manifest.validate_pointer edge_proc.Manifest.is_fresh_sequence downgrade_reason
    sequence_verdict version_verdict VersionPointer-discrete edge_proc.Cas.store_path
    edge_proc.Cas.read_bytes edge_proc.Cas.refuse_symlink atomic_write node write unlink
    edge_proc.Disk.FilePath-discrete Text-discrete ℕ_discrete option_eq put_chunk get_chunk
    sync_index list_discrete edge_proc.Cas.linked_on edge_proc.Cas.chunk_path
    edge_proc.Cas.manifest_path edge_proc.Cas.durable_mkdir edge_proc.Cas.made edge_proc.Cas.is_last
    edge_proc.Cas.decompress edge_proc.Cas.has_chunk edge_proc.Cas.check_hash
    edge_proc.Cas.chunk_matches edge_proc.Cas.stored_already edge_proc.Cas.store_chunk
    edge_proc.Cas.verify_or_remove edge_proc.Cas.put_chunk_compressed edge_proc.Cas.put_manifest
    edge_proc.Sync.sync_locked edge_proc.Sync.sync_content edge_proc.Sync.fetch_manifest
    edge_proc.Sync.fetch_pointer edge_proc.Sync.fetch_missing edge_proc.Sync.verify_reassembly
    edge_proc.Sync.verify_entry_reassembly edge_proc.Sync.joined edge_proc.Sync.absent
    edge_proc.Sync.file_entry edge_proc.Sync.enforce_file_cap edge_proc.Sync.check_manifest_identity
    edge_proc.Sync.check_identity edge_proc.Sync.verify_pointer edge_proc.Sync.check_expiry
    edge_proc.Sync.verify_signature parse_manifest edge_proc.Manifest.validate_sha256_hex
    edge_proc.Manifest.validate_entry edge_proc.Manifest.validate_chunk
    edge_proc.Manifest.validate_key_id edge_proc.Manifest.validate_manifest
    edge_proc.Manifest.is_expired edge_proc.Containment.ensure_safe_relpath
accepted = refl

downgrade_reason-none_iff_example :
    (downgrade_reason lengths (pointer_at 2) (pointer_at 1) ≡ none)
    ↔ ((pointer_at 2 ≡ pointer_at 1) ⊎ Proves lengths (pointer_at 2) (pointer_at 1))
downgrade_reason-none_iff_example =
    Guard.downgrade_reason-none_iff lengths lengths-IsOrder (pointer_at 2) (pointer_at 1)

sequence-History_example : (m : ℕ) × ((pointer_at 2).sequence ≡ some m) × (1 < m)
sequence-History_example =
    History.sequence-History lengths lengths-IsOrder (pointer_at 1) (pointer_at 2) 1
      (once accepted differ) refl

node-Crashed_example :
    (node
        (effects first_disk
          (create (temp_of pid active_path) ∷ extend (temp_of pid active_path) hello ∷ []))
        active_path
      ≡ node first_disk active_path)
    ⊎ (node
          (effects first_disk
            (create (temp_of pid active_path) ∷ extend (temp_of pid active_path) hello ∷ []))
          active_path
        ≡ some (file hello))
node-Crashed_example = Atomic.node-Crashed pid active_path hello first_disk _ (λ e. cc) (torn hello)

abbrev chunk_disk : Disk
chunk_disk = (put_chunk toy 100 pid hello empty_disk).1

stored-ok : put_chunk toy 100 pid hello empty_disk ≡ (ok (digest hello), chunk_disk)
unfolding promote Active.reject_rollback read_active Active.parse_active parse_pointer
    edge_proc.Manifest.validate_pointer edge_proc.Manifest.is_fresh_sequence downgrade_reason
    sequence_verdict version_verdict VersionPointer-discrete edge_proc.Cas.store_path
    edge_proc.Cas.read_bytes edge_proc.Cas.refuse_symlink atomic_write node write unlink
    edge_proc.Disk.FilePath-discrete Text-discrete ℕ_discrete option_eq put_chunk get_chunk
    sync_index list_discrete edge_proc.Cas.linked_on edge_proc.Cas.chunk_path
    edge_proc.Cas.manifest_path edge_proc.Cas.durable_mkdir edge_proc.Cas.made edge_proc.Cas.is_last
    edge_proc.Cas.decompress edge_proc.Cas.has_chunk edge_proc.Cas.check_hash
    edge_proc.Cas.chunk_matches edge_proc.Cas.stored_already edge_proc.Cas.store_chunk
    edge_proc.Cas.verify_or_remove edge_proc.Cas.put_chunk_compressed edge_proc.Cas.put_manifest
    edge_proc.Sync.sync_locked edge_proc.Sync.sync_content edge_proc.Sync.fetch_manifest
    edge_proc.Sync.fetch_pointer edge_proc.Sync.fetch_missing edge_proc.Sync.verify_reassembly
    edge_proc.Sync.verify_entry_reassembly edge_proc.Sync.joined edge_proc.Sync.absent
    edge_proc.Sync.file_entry edge_proc.Sync.enforce_file_cap edge_proc.Sync.check_manifest_identity
    edge_proc.Sync.check_identity edge_proc.Sync.verify_pointer edge_proc.Sync.check_expiry
    edge_proc.Sync.verify_signature parse_manifest edge_proc.Manifest.validate_sha256_hex
    edge_proc.Manifest.validate_entry edge_proc.Manifest.validate_chunk
    edge_proc.Manifest.validate_key_id edge_proc.Manifest.validate_manifest
    edge_proc.Manifest.is_expired edge_proc.Containment.ensure_safe_relpath
stored-ok = refl

get_chunk-put_chunk_example :
    (digest hello ≡ digest hello)
    × (get_chunk toy 100 pid (digest hello) chunk_disk ≡ (ok hello, chunk_disk))
get_chunk-put_chunk_example =
    Chunks.get_chunk-put_chunk toy 100 pid hello (digest hello) empty_disk chunk_disk toy-IsLawful
      (omega arith) stored-ok

get_chunk-Stores_example :
    (chunk_disk ≡ chunk_disk) × Chunks.Stores toy 100 pid (digest hello) hello chunk_disk
get_chunk-Stores_example =
    Chunks.get_chunk-Stores toy 100 pid (digest hello) hello chunk_disk chunk_disk
      get_chunk-put_chunk_example.1
