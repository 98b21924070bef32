-- ===== src/Keyring.antt =====
-- edgeproc/bundles/keyring.py. A `Keyring` that validation refused is `none` (a `ValueError`).
pub mod Hex
pub mod Sorted
pub mod Edits
pub mod Verifier
use edge_proc.Prelude.{
  ℕ, suc, ◌+◌, ◌-◌, ◌*◌, Bool, true, false, ◌&&◌, ◌||◌, not, Option, none, some, List, [], ◌∷◌,
  ◌++◌, map, Text, length, any, all, keep_if, contains, ltb, leb, ◌==◌, nat_eq, text_eq, option_eq,
  if◌then◌else◌,
}
use edge_proc.Errors.{Error, value, signature, unknown_key, key_revoked}
use edge_proc.Exec.{Result, ok, err}
use edge_proc.Manifest.{is_hex_of, validate_key_id}
use edge_proc.Signing.{Crypto, key_id_for, verify, signature_verifies, ed25519_public_key_bytes}
use Hex.{hex, from_hex}
use Sorted.{insert_by, sort_by, text_le}

abbrev pub max_keyring_keys : ℕ
max_keyring_keys = 64

abbrev pub max_revoked_key_ids : ℕ
max_revoked_key_ids = 1024

abbrev pub max_trust_root_bytes : ℕ
max_trust_root_bytes = 64 * 1024

pub record KeyringEntry : Type 0 where
  pub key_id : Text
  pub public_key : Text

pub record Keyring : Type 0 where
  pub keys : List KeyringEntry
  pub revoked : List Text

-- No text stands twice: `len(set(ids)) == len(ids)`.
abbrev pub all_distinct : List Text → Bool
all_distinct [] = true
all_distinct (x ∷ xs) = not (contains xs x) && all_distinct xs

abbrev pub ids : List KeyringEntry → List Text
ids [] = []
ids (e ∷ es) = e.key_id ∷ ids es

abbrev pub is_revoked : Keyring → Text → Bool
is_revoked ring key_id = contains ring.revoked key_id

abbrev pub active_keys : Keyring → List KeyringEntry
active_keys ring = keep_if (λ e. not (contains ring.revoked e.key_id)) ring.keys

abbrev pub revoked_keys : Keyring → List KeyringEntry
revoked_keys ring = keep_if (λ e. contains ring.revoked e.key_id) ring.keys

-- `Keyring.public_key`: the first entry under `key_id`
abbrev pub find_key : List KeyringEntry → Text → Option KeyringEntry
find_key [] key_id = none
find_key (e ∷ es) key_id = if e.key_id == key_id then some e else find_key es key_id

abbrev is_empty : List KeyringEntry → Bool
is_empty [] = true
is_empty (e ∷ es) = false

-- The length limits of the fields, and `_is_unambiguous`
unfoldable pub is_unambiguous : Keyring → Bool
is_unambiguous ring =
    ltb 0 (length ring.keys)
    && leb (length ring.keys) max_keyring_keys
    && leb (length ring.revoked) max_revoked_key_ids
    && all_distinct (ids ring.keys)
    && all_distinct ring.revoked
    && not (is_empty (active_keys ring))

entry_le : KeyringEntry → KeyringEntry → Bool
entry_le a b = text_le a.key_id b.key_id

-- `Keyring(keys=…, revoked=…)` on entries that are valid
abbrev pub checked : Keyring → Option Keyring
checked ring = if is_unambiguous ring then some ring else none

-- `_ring`
unfoldable pub build_ring : List KeyringEntry → List Text → Option Keyring
unfolding entry_le
build_ring keys revoked =
    checked (record { keys = sort_by entry_le keys; revoked = sort_by text_le revoked })

module _ (c : Crypto) where
  -- The validators of a `KeyringEntry`
  unfoldable pub validate_entry : KeyringEntry → Bool
  validate_entry e =
      validate_key_id e.key_id
      && is_hex_of 64 e.public_key
      && c.is_public_key (from_hex e.public_key)
      && key_id_for c (from_hex e.public_key) == some e.key_id

  of_id : Text → Option Text → Option KeyringEntry
  of_id public_key none = none
  of_id public_key (some key_id) =
      let e : KeyringEntry = record { key_id = key_id; public_key = hex public_key } in
      if validate_entry e then some e else none

  -- `_entry`
  unfoldable pub new_entry : Text → Option KeyringEntry
  unfolding of_id
  new_entry public_key = of_id public_key (key_id_for c public_key)

  new_entries : List Text → Option (List KeyringEntry)
  unfolding new_entry
  new_entries [] = some []
  new_entries (k ∷ ks) = elim (new_entry k) [
    | none ↦ none
    | some e ↦ elim (new_entries ks) [ none ↦ none | some es ↦ some (e ∷ es) ]
  ]

  -- `keyring_of`
  unfoldable pub keyring_of : List Text → Option Keyring
  unfolding new_entries build_ring
  keyring_of public_keys = elim (new_entries public_keys) [
    | none ↦ none
    | some entries ↦ build_ring entries []
  ]

  -- `parse_keyring`. Reading the JSON is pydantic's, the parameter `decode`.
  unfoldable pub parse_keyring : (Text → Option Keyring) → Text → Option Keyring
  parse_keyring decode raw = elim (decode raw) [
    | none ↦ none
    | some ring ↦
        if all validate_entry ring.keys && all validate_key_id ring.revoked
        then checked ring
        else none
  ]

  -- `load_trust_root`
  unfoldable pub load_trust_root : (Text → Option Keyring) → Text → Option Keyring
  unfolding keyring_of parse_keyring
  load_trust_root decode raw =
      if ltb max_trust_root_bytes (length raw)
      then none
      else if length raw == ed25519_public_key_bytes
      then keyring_of (raw ∷ [])
      else parse_keyring decode raw

  with_new : Keyring → Option KeyringEntry → Option Keyring
  with_new ring none = none
  with_new ring (some e) = build_ring (ring.keys ++ e ∷ []) ring.revoked

  add_under : Keyring → Text → Option Text → Option Keyring
  unfolding with_new
  add_under ring public_key none = none
  add_under ring public_key (some key_id) =
      if is_revoked ring key_id then none else elim (find_key ring.keys key_id) [
        | some held ↦ none
        | none ↦ with_new ring (new_entry public_key)
      ]

  -- `add_key`
  unfoldable pub add_key : Keyring → Text → Option Keyring
  unfolding add_under
  add_key ring public_key = add_under ring public_key (key_id_for c public_key)

  -- `_any_verifies`
  unfoldable pub any_verifies : List KeyringEntry → Text → Text → Bool
  any_verifies entries bytes sig =
      any (λ e. signature_verifies c (from_hex e.public_key) bytes sig) entries

  -- `KeyringVerifier.verify`
  unfoldable pub verify_any : Keyring → Text → Text → Result (Unit {0})
  unfolding any_verifies
  verify_any ring bytes sig =
      if any_verifies (active_keys ring) bytes sig
      then ok tt
      else if any_verifies (revoked_keys ring) bytes sig
      then err key_revoked
      else err signature

  -- `KeyringVerifier.verify_pointer`
  unfoldable pub verify_named : Keyring → Text → Text → Option Text → Result (Unit {0})
  unfolding verify_any
  verify_named ring bytes sig none = verify_any ring bytes sig
  verify_named ring bytes sig (some key_id) =
      if is_revoked ring key_id then err key_revoked else elim (find_key ring.keys key_id) [
        | none ↦ err unknown_key
        | some e ↦ verify c (from_hex e.public_key) bytes sig
      ]

-- `revoke_key`
unfoldable pub revoke_key : Keyring → Text → Option Keyring
revoke_key ring key_id =
    if validate_key_id key_id
    then if is_revoked ring key_id
      then some ring
      else build_ring ring.keys (ring.revoked ++ key_id ∷ [])
    else none
