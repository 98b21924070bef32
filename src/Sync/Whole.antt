-- ===== src/Sync/Whole.antt =====
-- Files whose chunks are all in the store: what the reassembly check proves, and that the promotion
-- keeps it.
use edge_proc.Prelude.{
  ℕ, ◌≡◌, inl, inr, true, false, some, List, [], ◌∷◌, ◌++◌, Text, take, length, ◌==◌, if◌then◌else◌,
  arith, text_eq,
}
use edge_proc.Prelude.Members.{All}
use edge_proc.Exec.{ok, bind-ok, Result-cases, pure}
use edge_proc.Disk.{FilePath, file, Disk, node, path_eq}
use edge_proc.Manifest.{ChunkRef, FileEntry, IndexManifest}
use edge_proc.Externals.{Externals}
use edge_proc.Cas.{active_path, chunk_of, get_chunk}
use edge_proc.Cas.Links.{unlinked-links}
use edge_proc.Cas.Chunks.{Stores, get_chunk-Stores, Stores-get_chunk, get_chunk-state}
use edge_proc.Sync.{
  exceeds, is_size, joined, verify_entry_reassembly, verify_reassembly, materialize_file,
  file_entry,
}
use edge_proc.Sync.Frame.{joined-state, chunks-ne}

module _ (x : Externals) (max_size : ℕ) (pid : Text) where
  -- A file whose chunks join, in the store, to bytes of its size and its hash.
  pub record Whole (max_bytes : ℕ) (e : FileEntry) (d : Disk) : Type 0 where
    pub bytes : Text
    pub joins : joined x max_size pid e.chunks d ≡ (ok bytes, d)
    pub fits : exceeds e.size max_bytes ≡ false
    pub sized : is_size e.size (length bytes) ≡ true
    pub hashes : (x.sha256 bytes == e.file_sha256) ≡ true

  verify_entry-Whole :
      (e : FileEntry) (max_bytes : ℕ) (d d' : Disk)
      → verify_entry_reassembly x max_size pid e max_bytes d ≡ (ok tt, d')
      → Whole max_bytes e d × (d' ≡ d)
  unfolding verify_entry_reassembly
  verify_entry-Whole e max_bytes d d' h = elim (Result-cases (joined x max_size pid e.chunks d).0) [
    | inr (why, failed) ↦ absurd (ground (arith, failed))
    | inl (bytes, got) ↦
        let still = joined-state x max_size pid e.chunks d in
        (
          record {
            bytes = bytes;
            joins = ground (arith, got, still);
            fits = ground arith;
            sized = ground (arith, got, still);
            hashes = ground (arith, got, still);
          },
          ground (arith, got, still),
        )
  ]

  -- A reassembly check that succeeds found every file whole.
  pub verify_reassembly-Whole :
      (es : List FileEntry) (max_bytes : ℕ) (d d' : Disk)
      → verify_reassembly x max_size pid es max_bytes d ≡ (ok tt, d')
      → All (λ e. Whole max_bytes e d) es
  unfolding verify_reassembly
  verify_reassembly-Whole [] max_bytes d d' h = tt
  verify_reassembly-Whole (f ∷ fs) max_bytes d d' h =
      let (t, s, first, rest) =
        bind-ok (verify_entry_reassembly x max_size pid f max_bytes)
          (λ _. verify_reassembly x max_size pid fs max_bytes) d d' tt h in
      let (whole, still) = verify_entry-Whole f max_bytes d s first in
      (whole, verify_reassembly-Whole fs max_bytes d d' (ground (arith, still, rest)))

  pub Whole-materialize_file :
      (m : IndexManifest) (path : Text) (e : FileEntry) (max_bytes : ℕ) (d : Disk)
      → file_entry m.files path ≡ some e
      → (w : Whole max_bytes e d)
      → materialize_file x max_size pid m path max_bytes d ≡ (ok w.bytes, d)
  unfolding materialize_file
  Whole-materialize_file m path e max_bytes d found w =
      ground (arith, found, w.fits, w.joins, w.sized, w.hashes)

  -- A write of the active pointer hides no chunk.
  module _ (d d' : Disk) (raw : Text)
      (wrote : (q : FilePath)
        → node d' q ≡ (if active_path == q then some (file raw) else node d q)) where
    chunk-kept : (h p : Text) → Stores x max_size pid h p d → Stores x max_size pid h p d'
    chunk-kept h p s = record {
      stored = s.stored;
      named = s.named;
      unlinked = unlinked-links d d' (chunk_of h) (λ q l. ground (arith, wrote q, l)) s.unlinked;
      at = ground (arith, wrote (chunk_of h), s.at, chunks-ne (take 2 h ∷ h ∷ []));
      reads = s.reads;
      hashes = s.hashes;
    }

    joined-kept :
        (cs : List ChunkRef) (bytes : Text)
        → joined x max_size pid cs d ≡ (ok bytes, d)
        → joined x max_size pid cs d' ≡ (ok bytes, d')
    unfolding joined
    joined-kept [] bytes h = ground (arith, h)
    joined-kept (c ∷ cs) bytes h =
        let (chunk, s, got, h₁) = bind-ok (get_chunk x max_size pid c.hash) _ d d bytes h in
        let (rest, s', got', h₂) =
          bind-ok (joined x max_size pid cs) (λ r. pure (chunk ++ r)) s d bytes h₁ in
        let still : s ≡ d = ground (arith, get_chunk-state x max_size pid c.hash d, got) in
        let still' : s' ≡ s = ground (arith, joined-state x max_size pid cs s, got') in
        let stores = (get_chunk-Stores x max_size pid c.hash chunk d s got).1 in
        let here : get_chunk x max_size pid c.hash d' ≡ (ok chunk, d') =
          Stores-get_chunk x max_size pid c.hash chunk d' (chunk-kept c.hash chunk stores) in
        let there : joined x max_size pid cs d' ≡ (ok rest, d') =
          joined-kept cs rest (ground (arith, got', still, still')) in
        ground (arith, here, there, h₂)

    pub Whole-kept : (max_bytes : ℕ) (e : FileEntry) → Whole max_bytes e d → Whole max_bytes e d'
    Whole-kept max_bytes e w = record {
      bytes = w.bytes;
      joins = joined-kept e.chunks w.bytes w.joins;
      fits = w.fits;
      sized = w.sized;
      hashes = w.hashes;
    }
