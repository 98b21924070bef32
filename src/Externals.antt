-- ===== src/Externals.antt =====
-- What the bundles take from other packages: the cryptography, zstandard, pydantic's JSON reader and
-- writer, and PEP 440 versions. The laws are what their documentation promises.
use edge_proc.Prelude.{ℕ, ◌≡◌, true, Option, none, some, Text, take, if◌then◌else◌}
use edge_proc.Signing.{Crypto}
use edge_proc.Manifest.{
  IndexManifest, VersionPointer, validate_sha256_hex, validate_pointer, validate_manifest,
}

-- `stream_read n frame` is `stream_reader(frame).read(n)`, the first `n` bytes of the plaintext, or
-- a `ZstdError`. `load_pointer` and `load_manifest` read JSON into fields of the right types, before
-- the models' own validators; `dump_pointer` is `model_dump_json`.
pub record Externals : Type 0 where
  pub crypto : Crypto
  pub open crypto use *
  pub compress : Text → Text
  pub stream_read : ℕ → Text → Option Text
  pub dump_pointer : VersionPointer → Text
  pub load_pointer : Text → Option VersionPointer
  pub load_manifest : Text → Option IndexManifest

pub record IsLawful (x : Externals) : Type 0 where
  pub hex_digest : (bytes : Text) → validate_sha256_hex (x.sha256 bytes) ≡ true
  pub read-compress :
      (n : ℕ) (bytes : Text) → x.stream_read n (x.compress bytes) ≡ some (take n bytes)
  pub load-dump : (p : VersionPointer) → x.load_pointer (x.dump_pointer p) ≡ some p

module _ (x : Externals) where
  -- `VersionPointer.model_validate_json`; `none` is its `ValidationError`.
  unfoldable pub parse_pointer : Text → Option VersionPointer
  parse_pointer bytes = elim (x.load_pointer bytes) [
    | none ↦ none
    | some p ↦ if validate_pointer p then some p else none
  ]

  -- `IndexManifest.model_validate_json`
  unfoldable pub parse_manifest : Text → Option IndexManifest
  parse_manifest bytes = elim (x.load_manifest bytes) [
    | none ↦ none
    | some m ↦ if validate_manifest m then some m else none
  ]
