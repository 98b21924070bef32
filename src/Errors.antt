-- ===== src/Errors.antt =====
-- The exceptions of edgeproc, and edgeproc/errors.py. A class of exceptions is a constructor; the
-- messages are left out, except that a `RollbackError` keeps which of its three messages it has.
pub mod Code
use edge_proc.Prelude.{Bool, true, false}

-- `_STALE_SEQUENCE`, `_STALE_VERSION`, `_UNPROVABLE`
pub data Reason : Type 0 where
  stale_sequence stale_version unprovable : Reason

-- `validation` is pydantic's ValidationError and `unsafe_path` is UnsafePathError, both of them a
-- `ValueError`, as is `unsupported`, an UnsupportedIndexOptionError. `os` is an `OSError` of the file
-- system, and `no_snapshot` is NoSnapshotError, which is one too. `too_large` is
-- ResponseTooLargeError. The three `model_…` are the ModelSourceErrors, `snapshot_conflict`
-- and `snapshot_sequence` are SnapshotConflictError and SnapshotSequenceError, `assertion` is an
-- `AssertionError` of FAISS's Python layer, and `runtime` is FAISS's own `RuntimeError`.
pub data Error : Type 0 where
  integrity sync_cap pointer_expired lock_timeout : Error
  rollback : Reason → Error
  signature unknown_key key_revoked : Error
  value validation unsafe_path unsupported : Error
  model_not_local model_path_invalid model_digest_mismatch : Error
  os no_snapshot key too_large runtime snapshot_conflict snapshot_sequence assertion : Error

-- `except IntegrityError`. The lock's timeout is raised as a plain `IntegrityError`.
abbrev pub is_integrity : Error → Bool
is_integrity integrity = true
is_integrity sync_cap = true
is_integrity pointer_expired = true
is_integrity lock_timeout = true
is_integrity (rollback reason) = true
is_integrity _ = false

-- `except SignatureError`
abbrev pub is_signature : Error → Bool
is_signature signature = true
is_signature unknown_key = true
is_signature key_revoked = true
is_signature _ = false

-- `except ValueError`
abbrev pub is_value : Error → Bool
is_value value = true
is_value validation = true
is_value unsafe_path = true
is_value unsupported = true
is_value _ = false
