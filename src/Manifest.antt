-- ===== src/Manifest.antt =====
-- edgeproc/bundles/manifest.py: the manifest and the signed pointer, their field validators, expiry
-- and the freshness of a sequence. Models are records; a number that a validator bounds below by 0
-- is a natural number, and the other sizes are integers.
pub mod Preimage
pub mod Json
use edge_proc.Prelude.{
  ℕ, ◌^◌, Bool, true, false, ◌&&◌, ◌||◌, Option, none, some, List, [], ◌∷◌, ◌++◌, Text, length, all,
  ltb, leb, ◌==◌, nat_eq, if◌then◌else◌,
}
use edge_proc.Prelude.Int.{ℤ}
use edge_proc.Containment.{ensure_safe_relpath}

-- Opaque metadata. A float is the text that `json` writes for it.
pub data Scalar : Type 0 where
  str : Text → Scalar
  int : ℤ → Scalar
  float : Text → Scalar
  bool : Bool → Scalar
  null : Scalar

pub record ChunkRef : Type 0 where
  pub hash : Text
  pub size : ℤ

pub record FileEntry : Type 0 where
  pub path : Text
  pub file_type : Option Text
  pub size : ℤ
  pub file_sha256 : Text
  pub chunks : List ChunkRef

pub record IndexManifest : Type 0 where
  pub schema_version : ℤ
  pub bundle_id : Text
  pub version : Text
  pub files : List FileEntry
  pub metadata : List (Text × Scalar)

pub record VersionPointer : Type 0 where
  pub manifest_hash : Text
  pub version : Text
  pub bundle_id : Option Text
  pub channel : Option Text
  pub sequence : Option ℕ
  pub key_id : Option Text
  pub expires_at : Option ℕ
  pub signature : Text

-- `[0-9a-f]`
abbrev pub is_hex : ℕ → Bool
is_hex c = (leb b'0' c && leb c b'9') || (leb b'a' c && leb c b'f')

-- `fullmatch` of `[0-9a-f]{n}`
abbrev pub is_hex_of : ℕ → Text → Bool
is_hex_of n t = (length t == n) && all is_hex t

-- `validate_sha256_hex` and `validate_key_id`; false is the `ValueError`.
unfoldable pub validate_sha256_hex : Text → Bool
validate_sha256_hex t = is_hex_of 64 t

unfoldable pub validate_key_id : Text → Bool
validate_key_id t = is_hex_of 16 t

abbrev pub json_safe_integer_limit : ℕ
json_safe_integer_limit = 2 ^ 53

-- `Field(gt=0, lt=JSON_SAFE_INTEGER_LIMIT)`
abbrev pub is_unix_seconds : ℕ → Bool
is_unix_seconds n = ltb 0 n && ltb n json_safe_integer_limit

abbrev pub if_set : {A : Type 0} → (A → Bool) → Option A → Bool
if_set check none = true
if_set check (some a) = check a

-- The validators of a `VersionPointer` whose fields have the right types.
unfoldable pub validate_pointer : VersionPointer → Bool
unfolding validate_sha256_hex validate_key_id
validate_pointer p =
    validate_sha256_hex p.manifest_hash
    && if_set validate_key_id p.key_id
    && if_set is_unix_seconds p.expires_at

unfoldable pub validate_chunk : ChunkRef → Bool
unfolding validate_sha256_hex
validate_chunk c = validate_sha256_hex c.hash

unfoldable pub validate_entry : FileEntry → Bool
unfolding validate_sha256_hex validate_chunk
validate_entry e =
    ensure_safe_relpath e.path && validate_sha256_hex e.file_sha256 && all validate_chunk e.chunks

unfoldable pub validate_manifest : IndexManifest → Bool
unfolding validate_entry
validate_manifest m = all validate_entry m.files

-- `is_expired`. The clock's seconds are rounded down, which `now >= expires_at` cannot tell.
unfoldable pub is_expired : VersionPointer → ℕ → Bool
is_expired p now = elim p.expires_at [ none ↦ false | some t ↦ leb t now ]

unfoldable pub fresh_after : Option ℕ → Option ℕ → Bool
fresh_after incoming none = true
fresh_after none (some m) = false
fresh_after (some n) (some m) = ltb m n

-- `is_fresh_sequence`
unfoldable pub is_fresh_sequence : VersionPointer → VersionPointer → Bool
unfolding fresh_after
is_fresh_sequence incoming active = fresh_after incoming.sequence active.sequence

-- The hashes of a file's chunks, and of a manifest's, in order.
abbrev pub chunk_hashes : List ChunkRef → List Text
chunk_hashes [] = []
chunk_hashes (c ∷ cs) = c.hash ∷ chunk_hashes cs

abbrev pub manifest_hashes : List FileEntry → List Text
manifest_hashes [] = []
manifest_hashes (e ∷ es) = chunk_hashes e.chunks ++ manifest_hashes es
