-- ===== src/Errors/Code.antt =====
-- The canonical code that an exception carries in its class attribute `code`, and `code_of`.
use edge_proc.Prelude.{Bool, Option, none, some, if◌then◌else◌}
use edge_proc.Errors.{
  Error, integrity, sync_cap, pointer_expired, lock_timeout, rollback, signature, unknown_key,
  key_revoked, too_large, unsupported, model_not_local, model_path_invalid, model_digest_mismatch,
}

pub data ErrorCode : Type 0 where
  bundle_integrity_failed bundle_download_failed config_missing config_invalid internal_unknown :
      ErrorCode

-- `getattr(error, "code", None)`
carried : Error → Option ErrorCode
carried integrity = some bundle_integrity_failed
carried sync_cap = some bundle_integrity_failed
carried pointer_expired = some bundle_integrity_failed
carried lock_timeout = some bundle_integrity_failed
carried (rollback reason) = some bundle_integrity_failed
carried signature = some bundle_integrity_failed
carried unknown_key = some bundle_integrity_failed
carried key_revoked = some bundle_integrity_failed
carried too_large = some bundle_download_failed
carried unsupported = some config_invalid
carried model_not_local = some config_missing
carried model_path_invalid = some config_invalid
carried model_digest_mismatch = some bundle_integrity_failed
carried _ = none

module _ (has : ErrorCode → Bool) where
  -- `registry.has(code)` is the catalog of `edgeproc_core`.
  known : Option ErrorCode → ErrorCode
  known none = internal_unknown
  known (some code) = if has code then code else internal_unknown

  pub code_of : Error → ErrorCode
  unfolding carried known
  code_of error = known (carried error)
