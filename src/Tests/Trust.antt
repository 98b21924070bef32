-- ===== src/Tests/Trust.antt =====
-- Examples of keyrings.
use edge_proc.Prelude.{list_discrete}
use edge_proc.Prelude.{
  ◌≡◌, ◌↔◌, refl, true, none, some, List, [], ◌∷◌, Text, text_eq, Text-discrete, ℕ_discrete,
  option_eq, arith,
}
use edge_proc.Errors.{key_revoked}
use edge_proc.Exec.{ok, err}
use edge_proc.Signing.{key_id_for, signature_verifies, verify, verify_pointer}
use edge_proc.Manifest.{validate_key_id}
use edge_proc.Keyring.{
  KeyringEntry, Keyring, keyring_of, add_key, revoke_key, verify_named, is_unambiguous,
  all_distinct, ids, validate_entry, new_entry, build_ring, verify_any, any_verifies,
}
use edge_proc.Keyring.Sorted.{sort_by, insert_by, text_le}
use edge_proc.Keyring.Hex.{hex, from_hex}
use edge_proc.Keyring.Edits
use edge_proc.Keyring.Edits.{Edited, start, added, revoked_id, IsWellFormed}
use edge_proc.Keyring.Verifier
use edge_proc.Keyring.Verifier.{Signed, Named}
use edge_proc.Tests.World.{toy_crypto, hello, zeros}

abbrev raw_a : Text
raw_a = zeros 32

abbrev raw_b : Text
raw_b = b'1' ∷ zeros 31

abbrev id_a : Text
id_a = b'2' ∷ b'8' ∷ zeros 14

abbrev id_b : Text
id_b = b'2' ∷ b'9' ∷ zeros 14

abbrev entry_a : KeyringEntry
entry_a = record { key_id = id_a; public_key = hex raw_a }

abbrev entry_b : KeyringEntry
entry_b = record { key_id = id_b; public_key = hex raw_b }

abbrev ring_of_two : List Text → Keyring
ring_of_two revoked = record { keys = entry_a ∷ entry_b ∷ []; revoked = revoked }

made-one : keyring_of toy_crypto (raw_a ∷ []) ≡ some (record { keys = entry_a ∷ []; revoked = [] })
unfolding keyring_of new_entry build_ring key_id_for add_key revoke_key is_unambiguous
    validate_entry verify_named verify_any any_verifies signature_verifies verify validate_key_id
    sort_by insert_by text_le hex from_hex list_discrete Text-discrete ℕ_discrete option_eq
made-one = refl

keyring_of-verify_pointer_example :
    verify_named toy_crypto (record { keys = entry_a ∷ []; revoked = [] }) hello raw_a (some id_b)
    ≡ verify_pointer toy_crypto raw_a hello raw_a (some id_b)
keyring_of-verify_pointer_example =
    Verifier.keyring_of-verify_pointer toy_crypto raw_a
      (record { keys = entry_a ∷ []; revoked = [] }) hello raw_a (some id_b) (ground arith) made-one

two-distinct : all_distinct (ids (ring_of_two []).keys) ≡ true
unfolding keyring_of new_entry build_ring key_id_for add_key revoke_key is_unambiguous
    validate_entry verify_named verify_any any_verifies signature_verifies verify validate_key_id
    sort_by insert_by text_le hex from_hex list_discrete Text-discrete ℕ_discrete option_eq
two-distinct = refl

verify_named_iff_example :
    (verify_named toy_crypto (ring_of_two []) hello raw_b (some id_b) ≡ ok tt)
    ↔ ((e : KeyringEntry) × Signed toy_crypto (ring_of_two []) hello raw_b e × (e.key_id ≡ id_b))
verify_named_iff_example =
    Verifier.verify_named_iff toy_crypto (ring_of_two []) hello raw_b (some id_b) two-distinct

two-WellFormed : IsWellFormed toy_crypto (ring_of_two [])
unfolding keyring_of new_entry build_ring key_id_for add_key revoke_key is_unambiguous
    validate_entry verify_named verify_any any_verifies signature_verifies verify validate_key_id
    sort_by insert_by text_le hex from_hex list_discrete Text-discrete ℕ_discrete option_eq
two-WellFormed = record { valid = refl; unambiguous = refl }

revoked-ok : revoke_key (ring_of_two []) id_a ≡ some (ring_of_two (id_a ∷ []))
unfolding keyring_of new_entry build_ring key_id_for add_key revoke_key is_unambiguous
    validate_entry verify_named verify_any any_verifies signature_verifies verify validate_key_id
    sort_by insert_by text_le hex from_hex list_discrete Text-discrete ℕ_discrete option_eq
revoked-ok = refl

revoked_forever_example :
    verify_named toy_crypto (ring_of_two (id_a ∷ [])) hello raw_a (some id_a) ≡ err key_revoked
revoked_forever_example =
    Edits.revoked_forever toy_crypto (ring_of_two []) (ring_of_two (id_a ∷ []))
      (ring_of_two (id_a ∷ [])) id_a hello raw_a revoked-ok start

accepted-b : verify_named toy_crypto (ring_of_two (id_a ∷ [])) hello raw_b none ≡ ok tt
unfolding keyring_of new_entry build_ring key_id_for add_key revoke_key is_unambiguous
    validate_entry verify_named verify_any any_verifies signature_verifies verify validate_key_id
    sort_by insert_by text_le hex from_hex list_discrete Text-discrete ℕ_discrete option_eq
accepted-b = refl

added-ok :
    add_key toy_crypto (record { keys = entry_a ∷ []; revoked = [] }) raw_b ≡ some (ring_of_two [])
unfolding keyring_of new_entry build_ring key_id_for add_key revoke_key is_unambiguous
    validate_entry verify_named verify_any any_verifies signature_verifies verify validate_key_id
    sort_by insert_by text_le hex from_hex list_discrete Text-discrete ℕ_discrete option_eq
added-ok = refl

one-WellFormed : IsWellFormed toy_crypto (record { keys = entry_a ∷ []; revoked = [] })
unfolding keyring_of new_entry build_ring key_id_for add_key revoke_key is_unambiguous
    validate_entry verify_named verify_any any_verifies signature_verifies verify validate_key_id
    sort_by insert_by text_le hex from_hex list_discrete Text-discrete ℕ_discrete option_eq
one-WellFormed = record { valid = refl; unambiguous = refl }

Edited-IsWellFormed_example : IsWellFormed toy_crypto (ring_of_two (id_a ∷ []))
Edited-IsWellFormed_example =
    Edits.Edited-IsWellFormed toy_crypto (record { keys = entry_a ∷ []; revoked = [] })
      (ring_of_two (id_a ∷ [])) one-WellFormed
      (revoked_id id_a (added raw_b start added-ok) revoked-ok)
