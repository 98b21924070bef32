-- ===== src/Keyring/Edits.antt =====
-- Edits of a ring: what stays well-formed, and what a revocation is worth after any of them.
use edge_proc.Prelude.{
  ◌≡◌, ◌≢◌, sym, ap, ◌∙◌, inl, inr, subst, true, ◌||◌, Option, some, List, [], ◌∷◌, ◌++◌, Text, all,
  contains, ◌==◌, text_eq, arith, Bool-cases, Option-cases,
}
use edge_proc.Prelude.Members.{contains-any, all-append}
use edge_proc.Errors.{key_revoked}
use edge_proc.Exec.{ok, err}
use edge_proc.Manifest.{validate_key_id}
use edge_proc.Signing.{Crypto}
use edge_proc.Keyring.{
  KeyringEntry, Keyring, is_revoked, is_unambiguous, build_ring, entry_le, validate_entry,
  new_entry, add_key, revoke_key, verify_named, ids, all_distinct,
}
use edge_proc.Keyring.Sorted.{text_le, sort_by, any-sort_by, all-sort_by}
use edge_proc.Keyring.Verifier.{Signed, verify_named_iff}

build_ring-eq :
    (keys : List KeyringEntry) (revoked : List Text) (r : Keyring)
    → build_ring keys revoked ≡ some r
    → (record { keys = sort_by entry_le keys; revoked = sort_by text_le revoked } ≡ r)
      × (is_unambiguous r ≡ true)
unfolding build_ring
build_ring-eq keys revoked r h = ground arith

contains-sorted : (ks : List Text) (k : Text) → contains (sort_by text_le ks) k ≡ contains ks k
contains-sorted ks k =
    contains-any (sort_by text_le ks) k
    ∙ any-sort_by text_le (λ x. x == k) ks
    ∙ sym (contains-any ks k)

-- Which ids a built ring has revoked.
is_revoked-build_ring :
    (keys : List KeyringEntry) (revoked : List Text) (r : Keyring) (k : Text)
    → build_ring keys revoked ≡ some r
    → is_revoked r k ≡ contains revoked k
is_revoked-build_ring keys revoked r k h =
    ap (λ (x : Keyring). is_revoked x k) (sym (build_ring-eq keys revoked r h).0)
    ∙ contains-sorted revoked k

contains-snoc :
    (ks : List Text) (k j : Text) → contains (ks ++ k ∷ []) j ≡ (contains ks j || k == j)
contains-snoc [] k j = ground arith
contains-snoc (x ∷ ks) k j = ground (arith, contains-snoc ks k j)

-- A revocation revokes its id and leaves the status of every other id.
pub is_revoked-revoke_key :
    (ring r : Keyring) (k j : Text)
    → revoke_key ring k ≡ some r
    → is_revoked r j ≡ (is_revoked ring j || k == j)
unfolding revoke_key
is_revoked-revoke_key ring r k j h = elim (Bool-cases (validate_key_id k)) [
  | inr bad ↦ absurd (ground arith)
  | inl good ↦ elim (Bool-cases (is_revoked ring k)) [
    | inl old ↦
        let same : ring ≡ r = ground arith in
        rw (← same)
          (elim (text_eq.dec k j) [ yes e ↦ ground (arith, rw e at old) | no n ↦ ground arith ])
    | inr new ↦
        is_revoked-build_ring ring.keys (ring.revoked ++ k ∷ []) r j (ground arith)
        ∙ contains-snoc ring.revoked k j
  ]
]

distinct : (r : Keyring) → is_unambiguous r ≡ true → all_distinct (ids r.keys) ≡ true
unfolding is_unambiguous
distinct r h = ground arith

module _ (c : Crypto) where
  add_key-build :
      (ring r : Keyring) (raw : Text)
      → add_key c ring raw ≡ some r
      → (e : KeyringEntry) × (new_entry c raw ≡ some e)
        × (build_ring (ring.keys ++ e ∷ []) ring.revoked ≡ some r)
  unfolding add_key
  add_key-build ring r raw h = elim (Option-cases (new_entry c raw)) [
    | inl none' ↦ absurd (ground arith)
    | inr (e, new) ↦ (e, new, ground arith)
  ]

  -- Rings that edits make of `ring`: `keyring add` and `keyring revoke`, in any order.
  pub data Edited (ring : Keyring) : Keyring → Type 0 where
    start : Edited ring ring
    added : {r s : Keyring} (raw : Text) → Edited ring r → add_key c r raw ≡ some s → Edited ring s
    revoked_id :
        {r s : Keyring} (k : Text) → Edited ring r → revoke_key r k ≡ some s → Edited ring s

  -- Every entry is valid, its id derived from its key, and the ring is unambiguous.
  pub record IsWellFormed (ring : Keyring) : Type 0 where
    pub valid : all (validate_entry c) ring.keys ≡ true
    pub unambiguous : is_unambiguous ring ≡ true

  new_entry-valid :
      (raw : Text) (e : KeyringEntry) → new_entry c raw ≡ some e → validate_entry c e ≡ true
  unfolding new_entry
  new_entry-valid raw e h = ground arith

  build-WellFormed :
      (keys : List KeyringEntry) (revoked : List Text) (r : Keyring)
      → all (validate_entry c) keys ≡ true
      → build_ring keys revoked ≡ some r
      → IsWellFormed r
  build-WellFormed keys revoked r v h =
      let (e, u) = build_ring-eq keys revoked r h in
      record {
        valid = rw (← e) (all-sort_by entry_le (validate_entry c) keys ∙ v);
        unambiguous = u;
      }

  add_key-IsWellFormed :
      (ring r : Keyring) (raw : Text)
      → IsWellFormed ring
      → add_key c ring raw ≡ some r
      → IsWellFormed r
  add_key-IsWellFormed ring r raw w h =
      let (e, new, built) = add_key-build ring r raw h in
      build-WellFormed (ring.keys ++ e ∷ []) ring.revoked r
        (all-append (validate_entry c) ring.keys (e ∷ [])
          ∙ ground (arith, w.valid, new_entry-valid raw e new))
        built

  revoke_key-IsWellFormed :
      (ring r : Keyring) (k : Text)
      → IsWellFormed ring
      → revoke_key ring k ≡ some r
      → IsWellFormed r
  unfolding revoke_key
  revoke_key-IsWellFormed ring r k w h = elim (Bool-cases (validate_key_id k)) [
    | inr bad ↦ absurd (ground arith)
    | inl good ↦ elim (Bool-cases (is_revoked ring k)) [
      | inl old ↦ subst IsWellFormed (ground arith) w
      | inr new ↦ build-WellFormed ring.keys (ring.revoked ++ k ∷ []) r w.valid (ground arith)
    ]
  ]

  -- Edits of a well-formed ring, in any order, leave it well-formed.
  pub Edited-IsWellFormed : (ring r : Keyring) → IsWellFormed ring → Edited ring r → IsWellFormed r
  Edited-IsWellFormed ring r w start = w
  Edited-IsWellFormed ring r w (added {r = q} raw e h) =
      add_key-IsWellFormed q r raw (Edited-IsWellFormed ring q w e) h
  Edited-IsWellFormed ring r w (revoked_id {r = q} k e h) =
      revoke_key-IsWellFormed q r k (Edited-IsWellFormed ring q w e) h

  Edited-is_revoked :
      (ring r : Keyring) (k : Text)
      → Edited ring r
      → is_revoked ring k ≡ true
      → is_revoked r k ≡ true
  Edited-is_revoked ring r k start h = h
  Edited-is_revoked ring r k (added {r = q} raw e a) h =
      let (x, new, built) = add_key-build q r raw a in
      is_revoked-build_ring (q.keys ++ x ∷ []) q.revoked r k built ∙ Edited-is_revoked ring q k e h
  Edited-is_revoked ring r k (revoked_id {r = q} j e a) h =
      is_revoked-revoke_key q r j k a ∙ ground (arith, Edited-is_revoked ring q k e h)

  -- After a revocation of `k` and any edits after it, a pointer that names `k`
  -- is refused as revoked, whatever it is and whoever signed it.
  pub revoked_forever :
      (ring s r : Keyring) (k bytes sig : Text)
      → revoke_key ring k ≡ some s
      → Edited s r
      → verify_named c r bytes sig (some k) ≡ err key_revoked
  unfolding verify_named
  revoked_forever ring s r k bytes sig h ed =
      rw (Edited-is_revoked s r k ed (is_revoked-revoke_key ring s k k h ∙ ground arith))

  -- After a revocation of `k` in a well-formed ring and any edits after it, a signature that is
  -- accepted, for a pointer that names a key or none, verifies under a held key with another id.
  pub revoked_unused :
      (ring s r : Keyring) (k bytes sig : Text) (named : Option Text)
      → IsWellFormed ring
      → revoke_key ring k ≡ some s
      → Edited s r
      → verify_named c r bytes sig named ≡ ok tt
      → (e : KeyringEntry) × Signed c r bytes sig e × (e.key_id ≢ k)
  revoked_unused ring s r k bytes sig named w h ed accepted =
      let gone : is_revoked r k ≡ true =
        Edited-is_revoked s r k ed (is_revoked-revoke_key ring s k k h ∙ ground arith) in
      let well : IsWellFormed r =
        Edited-IsWellFormed s r (revoke_key-IsWellFormed ring s k w h) ed in
      let (e, signed, n) =
        (verify_named_iff c r bytes sig named (distinct r well.unambiguous)).0 accepted in
      (e, signed, λ same. cc (rw same at signed.trusted))
