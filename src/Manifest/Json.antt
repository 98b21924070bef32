-- ===== src/Manifest/Json.antt =====
-- `canonical_bytes` and `manifest_digest` of edgeproc/bundles/manifest.py: `json.dumps` with sorted
-- keys, without blanks, in UTF-8. A text is its UTF-8 bytes, whose order is that of the code points;
-- `model_dump` of a model lists its fields.
use edge_proc.Prelude.{
  ℕ, zero, suc, ◌+◌, ◌*◌, ◌/◌, ◌%◌, ◌-◌, ◌<◌, ◌≡◌, refl, Bool, true, false, Option, none, some,
  List, [], ◌∷◌, ◌++◌, map, Text, ltb, ◌==◌, nat_eq, if◌then◌else◌, arith,
}
use edge_proc.Prelude.Codes.{codes}
use edge_proc.Prelude.Int.{ℤ, pos, negsuc}
use edge_proc.Keyring.Sorted.{sort_by, text_le}
use edge_proc.Keyring.Hex.{hex}
use edge_proc.Manifest.{Scalar, ChunkRef, FileEntry, IndexManifest, str, int, float, bool, null}

-- What `json.dumps` is given: a list and a dict are their items in order.
mutual
  pub data Json : Type 0 where
    leaf : Scalar → Json
    list : JsonList → Json
    dict : JsonDict → Json

  pub data JsonList : Type 0 where
    nil : JsonList
    cons : Json → JsonList → JsonList

  pub data JsonDict : Type 0 where
    end : JsonDict
    field : Text → Json → JsonDict → JsonDict

-- The decimal digits of a number that the fuel exceeds.
digits_within : ℕ → ℕ → Text
digits_within zero n = []
digits_within (suc fuel) n =
    let high = digits_within fuel (n / 10) in
    if ltb n 10 then (b'0' + n) ∷ [] else high ++ (b'0' + n % 10) ∷ []

unfoldable pub digits : ℕ → Text
unfolding digits_within
digits n = digits_within (suc n) n

-- The number that digits spell, after the digits of `acc`.
unfoldable pub read_digits : ℕ → Text → ℕ
read_digits acc [] = acc
read_digits acc (c ∷ t) = read_digits (acc * 10 + (c - b'0')) t

read_digits-append :
    (acc : ℕ) (t : Text) (c : ℕ)
    → read_digits acc (t ++ c ∷ []) ≡ read_digits acc t * 10 + (c - b'0')
unfolding read_digits
read_digits-append acc [] c = refl
read_digits-append acc (d ∷ t) c = read_digits-append (acc * 10 + (d - b'0')) t c

read_digits-within : (fuel n : ℕ) → n < fuel → read_digits 0 (digits_within fuel n) ≡ n
unfolding read_digits digits_within
read_digits-within zero n h = absurd (omega arith)
read_digits-within (suc fuel) n h = ground (
  arith,
  read_digits-append 0 (digits_within fuel (n / 10)) (b'0' + n % 10),
  read_digits-within fuel (n / 10),
)

-- The fuel is enough: the digits of a number spell it.
pub read_digits-digits : (n : ℕ) → read_digits 0 (digits n) ≡ n
unfolding digits
read_digits-digits n = read_digits-within (suc n) n (omega arith)

unfoldable pub int_text : ℤ → Text
unfolding digits
int_text (pos n) = digits n
int_text (negsuc n) = b'-' ∷ digits (n + 1)

-- What `json` writes for one byte of a string: quotes, the backslash and control characters are
-- escaped.
unfoldable pub escape : ℕ → Text
escape c =
    if c == b'"'
    then codes "\\\""
    else if c == 92
    then codes "\\\\"
    else if c == 10
    then codes "\\n"
    else if c == 13
    then codes "\\r"
    else if c == 9
    then codes "\\t"
    else if c == 12
    then codes "\\f"
    else if c == 8
    then codes "\\b"
    else if ltb c 32
    then codes "\\u00" ++ hex (c ∷ [])
    else c ∷ []

unfoldable pub escaped : Text → Text
unfolding escape
escaped [] = []
escaped (c ∷ t) = escape c ++ escaped t

unfoldable pub string_text : Text → Text
unfolding escaped
string_text t = b'"' ∷ (escaped t ++ b'"' ∷ [])

unfoldable pub scalar_text : Scalar → Text
unfolding string_text int_text
scalar_text (str t) = string_text t
scalar_text (int n) = int_text n
scalar_text (float t) = t
scalar_text (bool true) = codes "true"
scalar_text (bool false) = codes "false"
scalar_text null = codes "null"

unfoldable mutual
  unfolding scalar_text string_text

  pub dumps : Json → Text
  dumps (leaf s) = scalar_text s
  dumps (list nil) = codes "[]"
  dumps (list (cons v vs)) = b'[' ∷ (dumps v ++ dumps_items vs)
  dumps (dict end) = codes "{}"
  dumps (dict (field k v fs)) = b'{' ∷ (string_text k ++ b':' ∷ (dumps v ++ dumps_fields fs))

  pub dumps_items : JsonList → Text
  dumps_items nil = b']' ∷ []
  dumps_items (cons v vs) = b',' ∷ (dumps v ++ dumps_items vs)

  pub dumps_fields : JsonDict → Text
  dumps_fields end = b'}' ∷ []
  dumps_fields (field k v fs) = b',' ∷ (string_text k ++ b':' ∷ (dumps v ++ dumps_fields fs))

items : List Json → JsonList
items [] = nil
items (v ∷ vs) = cons v (items vs)

fields : List (Text × Json) → JsonDict
fields [] = end
fields ((k, v) ∷ kvs) = field k v (fields kvs)

key_le : Text × Json → Text × Json → Bool
key_le (j, v) (k, w) = text_le j k

-- `sort_keys=True`
unfoldable pub object : List (Text × Json) → Json
unfolding fields key_le
object kvs = dict (fields (sort_by key_le kvs))

abbrev pub text : Text → Json
text t = leaf (str t)

abbrev pub or_null : Option Text → Json
or_null none = leaf null
or_null (some t) = text t

chunk_json : ChunkRef → Json
unfolding object
chunk_json c = object ((codes "hash", text c.hash) ∷ (codes "size", leaf (int c.size)) ∷ [])

entry_json : FileEntry → Json
unfolding object items chunk_json
entry_json e = object (
    (codes "path", text e.path)
    ∷ (codes "file_type", or_null e.file_type)
    ∷ (codes "size", leaf (int e.size))
    ∷ (codes "file_sha256", text e.file_sha256)
    ∷ (codes "chunks", list (items (map chunk_json e.chunks)))
    ∷ [])

-- `model_dump` of a manifest
manifest_json : IndexManifest → Json
unfolding object items entry_json
manifest_json m = object (
    (codes "schema_version", leaf (int m.schema_version))
    ∷ (codes "bundle_id", text m.bundle_id)
    ∷ (codes "version", text m.version)
    ∷ (codes "files", list (items (map entry_json m.files)))
    ∷ (codes "metadata", object (map (λ kv. (kv.0, leaf kv.1)) m.metadata))
    ∷ [])

-- `canonical_bytes` of a manifest
unfoldable pub canonical_bytes : IndexManifest → Text
unfolding manifest_json dumps
canonical_bytes m = dumps (manifest_json m)
