-- ===== src/Cas/Chunks.antt =====
-- Chunks: what a read that succeeds says, and what the writes leave to read.
use edge_proc.Prelude.{
  ℕ, ◌+◌, ◌≤◌, ◌≡◌, refl, ◌∙◌, inl, inr, subst, Bool, true, false, ◌&&◌, not, Option, some, [],
  Text, length, take_all, text_eq, if◌then◌else◌, arith, Bool-cases,
}
use edge_proc.Errors.{integrity}
use edge_proc.Exec.{ok, err, bind-ok, pure}
use edge_proc.Disk.{FilePath, Node, file, Disk, node, path_eq}
use edge_proc.Manifest.{validate_sha256_hex}
use edge_proc.Externals.{Externals, IsLawful}
use edge_proc.Cas.Links.{store_chunk-ok, unlinked-links}
use edge_proc.Cas.{
  chunk_of, linked_on, store_path, chunk_path, refuse_symlink, read_bytes, checked_size, decompress,
  check_hash, get_chunk, put_chunk, store_chunk, stored_already, chunk_matches,
}

abbrev contents : Option Node → Text
contents (some (file bytes)) = bytes
contents _ = []

pub chunk_path-eq :
    (h : Text) (d : Disk)
    → chunk_path h d ≡ (
        if validate_sha256_hex h && not (linked_on d [] (chunk_of h))
        then (ok (chunk_of h), d)
        else (err integrity, d))
unfolding chunk_path store_path
chunk_path-eq h d = elim (Bool-cases (validate_sha256_hex h)) [
  | inl good ↦ rw good (ground arith)
  | inr bad ↦ rw bad
]

module _ (x : Externals) (max_size : ℕ) (pid : Text) where
  -- The file under `h` in `d` is a readable chunk with the plaintext `p`.
  pub record Stores (h p : Text) (d : Disk) : Type 0 where
    pub stored : Text
    pub named : validate_sha256_hex h ≡ true
    pub unlinked : linked_on d [] (chunk_of h) ≡ false
    pub at : node d (chunk_of h) ≡ some (file stored)
    pub reads : decompress x max_size pid stored ≡ ok p
    pub hashes : x.sha256 p ≡ h

  -- A read that succeeds changes nothing, and returns the plaintext of the file under the hash; the
  -- plaintext has that hash.
  pub get_chunk-Stores :
      (h p : Text) (d d' : Disk)
      → get_chunk x max_size pid h d ≡ (ok p, d')
      → (d' ≡ d) × Stores h p d
  unfolding get_chunk refuse_symlink read_bytes check_hash
  get_chunk-Stores h p d d' e = (
    ground (arith, chunk_path-eq h d),
    record {
      stored = contents (node d (chunk_of h));
      named = ground (arith, chunk_path-eq h d);
      unlinked = ground (arith, chunk_path-eq h d);
      at = ground (arith, chunk_path-eq h d);
      reads = ground (arith, chunk_path-eq h d);
      hashes = ground (arith, chunk_path-eq h d);
    },
  )

  pub Stores-get_chunk :
      (h p : Text) (d : Disk) → Stores h p d → get_chunk x max_size pid h d ≡ (ok p, d)
  unfolding get_chunk refuse_symlink read_bytes check_hash
  Stores-get_chunk h p d s =
      ground (arith, chunk_path-eq h d, s.named, s.unlinked, s.at, s.reads, s.hashes)

  decompress-compress :
      (p : Text)
      → IsLawful x
      → length p ≤ max_size
      → decompress x max_size pid (x.compress p) ≡ ok p
  unfolding decompress
  decompress-compress p l h =
      rw (l.read-compress (max_size + 1) p, checked_size, take_all (max_size + 1) p (omega arith))
        (ground arith)

  -- A read changes nothing, whether it succeeds or not.
  pub get_chunk-state : (h : Text) (d : Disk) → (get_chunk x max_size pid h d).1 ≡ d
  unfolding get_chunk refuse_symlink read_bytes check_hash
  get_chunk-state h d = ground (arith, chunk_path-eq h d)

  stored_already-lem :
      (path : FilePath) (h p : Text) (d d' : Disk) (found : Bool)
      → stored_already x max_size pid path h p d ≡ (ok found, d')
      → (d' ≡ d) × (found ≡ true → get_chunk x max_size pid h d ≡ (ok p, d))
  unfolding stored_already chunk_matches
  stored_already-lem path h p d d' found e =
      (ground (arith, get_chunk-state h d), λ t. ground (arith, get_chunk-state h d))

  chunk_path-ok :
      (h : Text) (path : FilePath) (d d' : Disk)
      → chunk_path h d ≡ (ok path, d')
      → (path ≡ chunk_of h)
        × (d' ≡ d)
        × (validate_sha256_hex h ≡ true)
        × (linked_on d [] (chunk_of h) ≡ false)
  chunk_path-ok h path d d' e = ground (arith, chunk_path-eq h d)

  -- A write of `p`'s compressed bytes under its hash, as a chunk that can be read.
  stored-Stores :
      (p stored h : Text) (d d' : Disk)
      → validate_sha256_hex h ≡ true
      → linked_on d [] (chunk_of h) ≡ false
      → decompress x max_size pid stored ≡ ok p
      → x.sha256 p ≡ h
      → store_chunk x max_size pid (chunk_of h) stored d ≡ (ok tt, d')
      → Stores h p d'
  stored-Stores p stored h d d' v u r hash e =
      let (at, links, others) =
        store_chunk-ok x max_size pid (chunk_of h) stored d d' (λ q. cc) e in
      record {
        stored = stored;
        named = v;
        unlinked = unlinked-links d d' (chunk_of h) links u;
        at = at;
        reads = r;
        hashes = hash;
      }

  -- Storing a chunk that is not too long and reading it back gives its bytes, and its name is their
  -- hash.
  pub get_chunk-put_chunk :
      (p h : Text) (d d' : Disk)
      → IsLawful x
      → length p ≤ max_size
      → put_chunk x max_size pid p d ≡ (ok h, d')
      → (h ≡ x.sha256 p) × (get_chunk x max_size pid h d' ≡ (ok p, d'))
  unfolding put_chunk
  get_chunk-put_chunk p h d d' l fits e =
      let (path, d₁, e₁, r₁) = bind-ok (chunk_path (x.sha256 p)) _ d d' h e in
      let (same, still, v, u) = chunk_path-ok (x.sha256 p) path d d₁ e₁ in
      let (found, d₂, e₂, r₂) =
        bind-ok (stored_already x max_size pid path (x.sha256 p) p) _ d₁ d' h r₁ in
      let (still', read) = stored_already-lem path (x.sha256 p) p d₁ d₂ found e₂ in
      elim (Bool-cases found) [
        | inl yes' ↦ (ground (arith, r₂), ground (arith, r₂, read yes'))
        | inr no' ↦
            let (t, d₃, e₃, r₃) =
              bind-ok (store_chunk x max_size pid path (x.compress p)) (λ _. pure (x.sha256 p)) d₂
                d' h (rw no' at r₂) in
            let stored : Stores (x.sha256 p) p d₃ =
              stored-Stores p (x.compress p) (x.sha256 p) d d₃ v u (decompress-compress p l fits)
                refl
                (subst
                  (λ s.
                    store_chunk x max_size pid (chunk_of (x.sha256 p)) (x.compress p) s
                    ≡ (ok tt, d₃))
                  (still' ∙ still)
                  (subst (λ q. store_chunk x max_size pid q (x.compress p) d₂ ≡ (ok tt, d₃)) same
                    e₃)) in
            (ground (arith, r₃), ground (arith, r₃, Stores-get_chunk (x.sha256 p) p d₃ stored))
      ]
