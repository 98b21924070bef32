-- ===== src/Keyring/Verifier.antt =====
-- What `KeyringVerifier` accepts, and that a ring of one is the single pinned key.
use edge_proc.Prelude.{
  ◌≡◌, ◌↔◌, ap, inl, inr, true, false, not, Option, none, some, List, [], ◌∷◌, Text, any, contains,
  text_eq, option_eq, arith, Option-cases, subst,
}
use edge_proc.Prelude.Members.{
  All, In, In_of_any, any_of_In, In-keep_if, keep_if-In, contains_of_In,
}
use edge_proc.Exec.{ok}
use edge_proc.Signing.{Crypto, verify, verify_pointer, key_id_for, signature_verifies}
use edge_proc.Keyring.{
  KeyringEntry, Keyring, ids, all_distinct, is_revoked, active_keys, find_key, verify_any,
  verify_named, keyring_of,
}
use edge_proc.Keyring.Sorted.{sort_by}
use edge_proc.Keyring.Hex.{hex, from_hex, from_hex-hex, IsByte}

In-ids : (e : KeyringEntry) (es : List KeyringEntry) → In e es → In e.key_id (ids es)
In-ids e [] m = elim m [ ]
In-ids e (x ∷ xs) (inl h) = inl (ap (λ (k : KeyringEntry). k.key_id) h)
In-ids e (x ∷ xs) (inr m) = inr (In-ids e xs m)

find_key-In :
    (es : List KeyringEntry) (k : Text) (e : KeyringEntry)
    → find_key es k ≡ some e
    → In e es × (e.key_id ≡ k)
find_key-In [] k e h = absurd (cc)
find_key-In (x ∷ xs) k e h = elim (text_eq.dec x.key_id k) [
  | yes same ↦ (inl (ground arith), ground arith)
  | no differ ↦ let (m, e') = find_key-In xs k e (ground arith) in (inr m, e')
]

In-find_key :
    (es : List KeyringEntry) (e : KeyringEntry)
    → all_distinct (ids es) ≡ true
    → In e es
    → find_key es e.key_id ≡ some e
In-find_key [] e d m = elim m [ ]
In-find_key (x ∷ xs) e d (inl h) = ground (arith, h)
In-find_key (x ∷ xs) e d (inr m) =
    let held : contains (ids xs) e.key_id ≡ true =
      contains_of_In e.key_id (ids xs) (In-ids e xs m) in
    elim (text_eq.dec x.key_id e.key_id) [
      | yes same ↦ absurd (ground (arith, held, same))
      | no differ ↦ ground (arith, In-find_key xs e (ground arith) m)
    ]

module _ (c : Crypto) (ring : Keyring) (bytes sig : Text) where
  -- A trusted key: in the ring, not revoked, and the signature verifies under it.
  pub record Signed (e : KeyringEntry) : Type 0 where
    pub held : In e ring.keys
    pub trusted : is_revoked ring e.key_id ≡ false
    pub verifies : signature_verifies c (from_hex e.public_key) bytes sig ≡ true

  -- The pointer names no key, or this one.
  abbrev pub Named : Option Text → KeyringEntry → Type 0
  Named none e = Unit
  Named (some key_id) e = e.key_id ≡ key_id

  verify_any-ok : verify_any c ring bytes sig ≡ ok tt → (e : KeyringEntry) × Signed e × Named none e
  unfolding verify_any
  verify_any-ok h =
      let (e, m, v) =
        In_of_any (λ e. signature_verifies c (from_hex e.public_key) bytes sig) (active_keys ring)
          (ground arith) in
      let (m', t) = In-keep_if (λ e. not (contains ring.revoked e.key_id)) e ring.keys m in
      (e, record { held = m'; trusted = ground arith; verifies = v }, tt)

  ok-verify_any : (e : KeyringEntry) → Signed e → verify_any c ring bytes sig ≡ ok tt
  unfolding verify_any
  ok-verify_any e s =
      let found : any (λ e. signature_verifies c (from_hex e.public_key) bytes sig)
            (active_keys ring)
          ≡ true =
        any_of_In _ e (active_keys ring)
          (keep_if-In (λ e. not (contains ring.revoked e.key_id)) e ring.keys s.held
            (ground (arith, s.trusted)))
          s.verifies in
      rw found

  verify_named-ok :
      (key_id : Option Text)
      → verify_named c ring bytes sig key_id ≡ ok tt
      → (e : KeyringEntry) × Signed e × Named key_id e
  unfolding verify_named verify
  verify_named-ok none h = verify_any-ok h
  verify_named-ok (some k) h = elim (Option-cases (find_key ring.keys k)) [
    | inl missing ↦ absurd (ground arith)
    | inr (e, found) ↦
        let (m, same) = find_key-In ring.keys k e found in
        (e, record { held = m; trusted = rw same (ground arith); verifies = ground arith }, same)
  ]

  ok-verify_named :
      (key_id : Option Text) (e : KeyringEntry)
      → all_distinct (ids ring.keys) ≡ true
      → Signed e
      → Named key_id e
      → verify_named c ring bytes sig key_id ≡ ok tt
  unfolding verify_named verify
  ok-verify_named none e d s n = ok-verify_any e s
  ok-verify_named (some k) e d s n =
      subst (λ j. verify_named c ring bytes sig (some j) ≡ ok tt) n
        (rw (s.trusted, verify_named, In-find_key ring.keys e d s.held, s.verifies))

  -- On a ring without a duplicate id a signature is accepted exactly when it verifies under a key of
  -- the ring that is not revoked and, if the pointer names a key, is the named one.
  pub verify_named_iff :
      (key_id : Option Text)
      → all_distinct (ids ring.keys) ≡ true
      → (verify_named c ring bytes sig key_id ≡ ok tt)
        ↔ ((e : KeyringEntry) × Signed e × Named key_id e)
  verify_named_iff key_id d = (verify_named-ok key_id, λ (e, s, n). ok-verify_named key_id e d s n)

-- The single entry of a ring of one.
module _ (c : Crypto) (raw : Text) (key_id : Text) (bytes sig : Text) where
  abbrev only : KeyringEntry
  only = record { key_id = key_id; public_key = hex raw }

  abbrev one : Keyring
  one = record { keys = only ∷ []; revoked = [] }

  verify-one : All IsByte raw → verify_any c one bytes sig ≡ verify c raw bytes sig
  unfolding verify_any verify
  verify-one b = rw (from_hex-hex raw b) (ground arith)

  named-one :
      (named : Option Text)
      → All IsByte raw
      → key_id_for c raw ≡ some key_id
      → verify_named c one bytes sig named ≡ verify_pointer c raw bytes sig named
  unfolding verify_named verify_pointer
  named-one none b k = verify-one b
  named-one (some j) b k = elim (text_eq.dec key_id j) [
    | yes same ↦ ground (arith, from_hex-hex raw b)
    | no differ ↦ ground arith
  ]

module _ (c : Crypto) (raw : Text) where
  -- A keyring of one raw key is that key under its derived id, and nothing revoked.
  pub keyring_of-one :
      (ring : Keyring)
      → keyring_of c (raw ∷ []) ≡ some ring
      → (key_id : Text) × (key_id_for c raw ≡ some key_id)
        × (ring
            ≡ record { keys = record { key_id = key_id; public_key = hex raw } ∷ []; revoked = [] })
  unfolding keyring_of sort_by
  keyring_of-one ring h = elim (Option-cases (key_id_for c raw)) [
    | inl none' ↦ absurd (ground arith)
    | inr (k, e) ↦ (k, e, ground (arith, e, h))
  ]

  -- The keyring of one raw 32-byte key answers every pointer, named or not, with the result, or the
  -- error, of the single pinned key.
  pub keyring_of-verify_pointer :
      (ring : Keyring) (bytes sig : Text) (named : Option Text)
      → All IsByte raw
      → keyring_of c (raw ∷ []) ≡ some ring
      → verify_named c ring bytes sig named ≡ verify_pointer c raw bytes sig named
  keyring_of-verify_pointer ring bytes sig named b h =
      let (k, e, same) = keyring_of-one ring h in rw same (named-one c raw k bytes sig named b e)
