-- ===== src/Publish/Signed.antt =====
-- The pointer that a publisher signs is one that a consumer with its key accepts.
use edge_proc.Prelude.{
  ℕ, ◌≡◌, ◌≢◌, ◌⊎◌, ◌∙◌, refl, sym, subst, inl, inr, Bool, true, not, Option, none, some, List, [],
  ◌∷◌, Text, text_eq, option_eq, if◌then◌else◌, arith,
}
use edge_proc.Errors.{lock_timeout}
use edge_proc.Exec.{ok, bind-ok, pure, refuse_if, ◌>>◌}
use edge_proc.Disk.{FilePath, file, Disk, node, path_eq}
use edge_proc.Disk.Atomic.{parent_of, atomic_write, node-atomic_write}
use edge_proc.Prelude.Codes.{codes}
use edge_proc.Prelude.Int.{pos}
use edge_proc.Manifest.{IndexManifest, VersionPointer, manifest_hashes}
use edge_proc.Manifest.Json.{canonical_bytes}
use edge_proc.Manifest.Preimage.{pointer_signing_bytes}
use edge_proc.Signing.{Crypto, sign, signature_verifies, verify, verify_pointer, key_id_for}
use edge_proc.Externals.{Externals}
use edge_proc.Cas.{store_path, write_atomic, mkdir_parents, put_manifest}
use edge_proc.Sync.{distinct, Verifier, verify_signature, by_key}
use edge_proc.Publish.{
  Binding, sign_pointer, unsigned_pointer, latest, published_manifest, lay_out_origin,
  publish_chunks, require_flat_directory, file_entries, build_bundle, build_bundle_locked,
}

-- Ed25519 and base64, as documented: a signature verifies under its key's public half.
pub record IsSigning (c : Crypto) : Type 0 where
  pub decodes : (bytes : Text) → c.b64decode (c.b64encode bytes) ≡ some bytes
  pub verifies_signed :
      (key bytes : Text) → c.verifies (c.public_of key) (c.sign_raw key bytes) bytes ≡ true

-- An `Ed25519Verifier`, which is a `PointerVerifier` too.
abbrev pub pinned_key : Crypto → Text → Verifier
pinned_key c public_key = record {
  verify = verify c public_key;
  verify_pointer = some (verify_pointer c public_key);
}

signed-verify :
    (c : Crypto) (key bytes : Text)
    → IsSigning c
    → verify c (c.public_of key) bytes (sign c key bytes) ≡ ok tt
unfolding verify signature_verifies sign
signed-verify c key bytes l =
    ground (arith, l.decodes (c.sign_raw key bytes), l.verifies_signed key bytes)

-- The signature is over bytes that leave it out.
pointer_signing_bytes-signature :
    (p : VersionPointer) (sig : Text)
    → pointer_signing_bytes (record p { signature = sig }) ≡ pointer_signing_bytes p
unfolding pointer_signing_bytes
pointer_signing_bytes-signature p sig = refl

signed-by_key :
    (c : Crypto) (key bytes : Text) (named : Option Text)
    → IsSigning c
    → (named ≡ none) ⊎ (named ≡ key_id_for c (c.public_of key))
    → by_key
        (pinned_key c (c.public_of key))
        bytes
        (sign c key bytes)
        named
        (some (verify_pointer c (c.public_of key)))
      ≡ ok tt
unfolding verify_pointer
signed-by_key c key bytes none l h = signed-verify c key bytes l
signed-by_key c key bytes (some k) l (inl h) = absurd (cc)
signed-by_key c key bytes (some k) l (inr h) = ground (arith, h, signed-verify c key bytes l)

-- A pointer that a private key signed, and that names no key or the id of that key, is accepted by
-- a consumer that pins the key's public half.
pub sign_pointer-verify_signature :
    (c : Crypto) (key digest version : Text) (bundle_id : Option Text) (b : Binding)
    (p : VersionPointer)
    → IsSigning c
    → (b.key_id ≡ none) ⊎ (b.key_id ≡ key_id_for c (c.public_of key))
    → sign_pointer (sign c key) digest version bundle_id b ≡ ok p
    → verify_signature p (pinned_key c (c.public_of key)) ≡ ok tt
unfolding sign_pointer verify_signature
sign_pointer-verify_signature c key digest version bundle_id b p l h e =
    let u = unsigned_pointer digest version bundle_id b in
    let made : record u { signature = sign c key (pointer_signing_bytes u) } ≡ p = ground arith in
    subst
      (λ q.
        by_key (pinned_key c (c.public_of key)) (pointer_signing_bytes q) q.signature q.key_id
          (some (verify_pointer c (c.public_of key)))
        ≡ ok tt)
      made
      (rw (pointer_signing_bytes-signature u (sign c key (pointer_signing_bytes u)))
        (signed-by_key c key (pointer_signing_bytes u) b.key_id l h))

module _ (x : Externals) (max_size : ℕ) (pid : Text) where
  write_atomic-ok :
      (path : FilePath) (bytes : Text) (d d' : Disk)
      → path ≢ []
      → write_atomic x max_size pid path bytes d ≡ (ok tt, d')
      → node d' path ≡ some (file bytes)
  unfolding write_atomic store_path
  write_atomic-ok path bytes d d' ne e =
      let (q, s, there, e₁) =
        bind-ok (store_path path)
          (λ target. mkdir_parents [] (parent_of target) >> atomic_write pid target bytes) d d' tt
          e in
      let (t, s', made, wrote) =
        bind-ok (mkdir_parents [] (parent_of q)) (λ _. atomic_write pid q bytes) s d' tt e₁ in
      let same : q ≡ path = ground arith in
      subst (λ r. node d' r ≡ some (file bytes)) same
        (ground (arith, node-atomic_write pid q bytes s' d' q (λ z. ne (sym same ∙ z)) wrote))

  lay_out_origin-latest :
      (m : IndexManifest) (p : VersionPointer) (d d' : Disk)
      → lay_out_origin x max_size pid m p d ≡ (ok tt, d')
      → node d' latest ≡ some (file (x.dump_pointer p))
  unfolding lay_out_origin
  lay_out_origin-latest m p d d' e =
      let (t₁, s₁, r₁, e₁) = bind-ok (mkdir_parents [] (codes "chunk" ∷ [])) _ d d' tt e in
      let (t₂, s₂, r₂, e₂) = bind-ok (mkdir_parents [] (codes "manifest" ∷ [])) _ s₁ d' tt e₁ in
      let (t₃, s₃, r₃, e₃) = bind-ok (require_flat_directory (codes "chunk" ∷ [])) _ s₂ d' tt e₂ in
      let (t₄, s₄, r₄, e₄) =
        bind-ok (require_flat_directory (codes "manifest" ∷ [])) _ s₃ d' tt e₃ in
      let (t₅, s₅, r₅, e₅) =
        bind-ok
          (write_atomic x max_size pid (published_manifest p.manifest_hash) (canonical_bytes m)) _
          s₄ d' tt e₄ in
      let (t₆, s₆, r₆, e₆) =
        bind-ok (publish_chunks x max_size pid (distinct (manifest_hashes m.files)))
          (λ _. write_atomic x max_size pid latest (x.dump_pointer p)) s₅ d' tt e₅ in
      write_atomic-ok latest (x.dump_pointer p) s₆ d' (λ z. cc) e₆

  -- A publication that succeeds leaves at `latest` the pointer that it returns, and a consumer that
  -- pins the publisher's public key accepts its signature, if it names no key or that one.
  pub build_bundle-latest :
      (chunker : Text → List Text) (key : Text) (locked : Bool) (files : List (Text × Text))
      (bundle_id version : Text) (b : Binding) (d d' : Disk) (p : VersionPointer)
      → IsSigning x.crypto
      → (b.key_id ≡ none) ⊎ (b.key_id ≡ key_id_for x.crypto (x.public_of key))
      → build_bundle x max_size pid chunker (sign x.crypto key) locked files bundle_id version b d
        ≡ (ok p, d')
      → (node d' latest ≡ some (file (x.dump_pointer p)))
        × (verify_signature p (pinned_key x.crypto (x.public_of key)) ≡ ok tt)
  unfolding build_bundle build_bundle_locked
  build_bundle-latest chunker key locked files bundle_id version b d d' p l h e =
      let (t₁, s₁, r₁, e₁) = bind-ok (refuse_if (not locked) lock_timeout) _ d d' p e in
      let (entries, s₂, r₂, e₂) =
        bind-ok (file_entries x max_size pid chunker files) _ s₁ d' p e₁ in
      let m : IndexManifest = record {
        schema_version = pos 2;
        bundle_id = bundle_id;
        version = version;
        files = entries;
        metadata = [];
      } in
      let (t₃, s₃, r₃, e₃) =
        bind-ok (put_manifest x max_size pid (canonical_bytes m)) _ s₂ d' p e₂ in
      let bound = if b.bind_identity then some bundle_id else none in
      let (q, s₄, r₄, e₄) =
        bind-ok
          (λ d.
            (sign_pointer (sign x.crypto key) (x.sha256 (canonical_bytes m)) version bound b, d))
          _ s₃ d' p e₃ in
      let (t₅, s₅, r₅, e₅) = bind-ok (lay_out_origin x max_size pid m q) (λ _. pure q) s₄ d' p e₄ in
      let same : q ≡ p = ground arith in
      let done : s₅ ≡ d' = ground arith in
      (
        subst (λ r. node d' latest ≡ some (file (x.dump_pointer r))) same
            (subst (λ s. node s latest ≡ some (file (x.dump_pointer q))) done
              (lay_out_origin-latest m q s₄ s₅ r₅)),
        sign_pointer-verify_signature x.crypto key (x.sha256 (canonical_bytes m)) version bound b p
            l h (ground (arith, r₄, same)),
      )
