-- ===== src/Signing.antt =====
-- edgeproc/bundles/signing.py. The `cryptography` package, SHA-256 and base64 are the parameters of
-- the record `Crypto`; keys are raw bytes, and a signature is its base64 text.
use edge_proc.Prelude.{
  ℕ, Bool, false, Option, none, some, Text, length, take, ◌==◌, nat_eq, text_eq, option_eq,
  if◌then◌else◌,
}
use edge_proc.Errors.{signature, unknown_key}
use edge_proc.Exec.{Result, ok, err}

-- `is_public_key` tells whether `Ed25519PublicKey.from_public_bytes` takes the bytes, and `verifies
-- key signature data` whether `verify` of that key returns. `public_of` is the public half of a
-- private key.
pub record Crypto : Type 0 where
  pub sha256 : Text → Text
  pub b64decode : Text → Option Text
  pub b64encode : Text → Text
  pub is_public_key : Text → Bool
  pub verifies : Text → Text → Text → Bool
  pub public_of : Text → Text
  pub sign_raw : Text → Text → Text

abbrev pub ed25519_public_key_bytes : ℕ
ed25519_public_key_bytes = 32

module _ (c : Crypto) where
  -- `key_id_for`; `none` is the `ValueError`.
  unfoldable pub key_id_for : Text → Option Text
  key_id_for public_key =
      if length public_key == ed25519_public_key_bytes
      then some (take 16 (c.sha256 public_key))
      else none

  -- The call inside the `try` of `Ed25519Verifier.verify`, and whether it returns.
  unfoldable pub signature_verifies : Text → Text → Text → Bool
  signature_verifies public_key bytes sig = elim (c.b64decode sig) [
    | none ↦ false
    | some raw ↦ c.verifies public_key raw bytes
  ]

  -- `Ed25519Verifier.verify`
  unfoldable pub verify : Text → Text → Text → Result (Unit {0})
  unfolding signature_verifies
  verify public_key bytes sig =
      if signature_verifies public_key bytes sig then ok tt else err signature

  -- `Ed25519Verifier.verify_pointer`
  unfoldable pub verify_pointer : Text → Text → Text → Option Text → Result (Unit {0})
  unfolding verify key_id_for
  verify_pointer public_key bytes sig none = verify public_key bytes sig
  verify_pointer public_key bytes sig (some key_id) =
      if some key_id == key_id_for public_key then verify public_key bytes sig else err unknown_key

  -- `Ed25519Signer.sign` and `key_id`
  unfoldable pub sign : Text → Text → Text
  sign private_key bytes = c.b64encode (c.sign_raw private_key bytes)
