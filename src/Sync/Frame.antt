-- ===== src/Sync/Frame.antt =====
-- What stays as it is while a sync fetches: the active pointer, and all of it while it only reads.
use edge_proc.Prelude.{
  ℕ, ◌+◌, ◌≡◌, ◌≢◌, refl, ap, inl, inr, Bool, true, false, Option, none, some, List, [], ◌∷◌, ◌++◌,
  Text, length, arith, text_eq, take,
}
use edge_proc.Prelude.Codes.{codes}
use edge_proc.Errors.{Error}
use edge_proc.Exec.{Result, ok, err, Result-cases, Keeps, Keeps-bind, pure, refuse_if, or_raise}
use edge_proc.Disk.{FilePath, Node, directory, Disk, node, node-write, node-unlink, path_eq}
use edge_proc.Disk.Atomic.{atomic_write, node-atomic_write, atomic_write-err, parent_of}
use edge_proc.Manifest.{ChunkRef, FileEntry, VersionPointer, manifest_hashes}
use edge_proc.Externals.{Externals}
use edge_proc.Cas.{
  active_path, chunks_dir, manifest_of, chunk_of, chunk_path, manifest_path, store_path, linked_on,
  made, is_last, durable_mkdir, store_chunk, verify_or_remove, put_chunk_compressed, put_manifest,
  has_chunk, refuse_symlink, read_bytes, check_hash,
}
use edge_proc.Cas.Chunks.{chunk_path-eq, get_chunk-state}
use edge_proc.Sync.{
  SyncCaps, check_manifest_identity, enforce_file_cap, distinct, absent, joined,
  verify_entry_reassembly, verify_reassembly, fetch_missing, fetch_manifest, sync_content,
}

abbrev first_byte : FilePath → ℕ
first_byte ((c ∷ name) ∷ rest) = c
first_byte _ = 0

pub chunks-ne : (rest : FilePath) → codes "chunks" ∷ rest ≢ active_path
chunks-ne rest e = omega (arith, ap first_byte e)

-- The node at a path.
abbrev pub Holds : FilePath → Option Node → Disk → Type 0
Holds q n d = node d q ≡ n

refuse_if-Keeps : (P : Disk → Type 0) (b : Bool) (e : Error) → Keeps P (refuse_if b e)
refuse_if-Keeps P true e d h = h
refuse_if-Keeps P false e d h = h

or_raise-Keeps :
    {A : Type 0} (P : Disk → Type 0) (a : Option A) (e : Error) → Keeps P (or_raise a e)
or_raise-Keeps P none e d h = h
or_raise-Keeps P (some a) e d h = h

atomic_write-Holds :
    (pid : Text) (target : FilePath) (bytes : Text) (q : FilePath) (n : Option Node)
    → target ≢ []
    → target ≢ q
    → Keeps (Holds q n) (atomic_write pid target bytes)
atomic_write-Holds pid target bytes q n h ne d held =
    go (atomic_write pid target bytes d).0 (atomic_write pid target bytes d).1 refl
  where
    go :
        (r : Result (Unit {0})) (d' : Disk)
        → atomic_write pid target bytes d ≡ (r, d')
        → Holds q n d'
    go (ok t) d' e = ground (arith, node-atomic_write pid target bytes d d' q h e)
    go (err why) d' e = ground (arith, atomic_write-err pid target bytes d d' why q e h)

made-Holds :
    (p : FilePath) (last : Bool) (q : FilePath) (n : Option Node) (d : Disk)
    → p ≢ q
    → Holds q n d
    → Holds q n (made p (node d p) last d).1
unfolding made
made-Holds p last q n d ne h = ground (arith, node-write d p q directory)

chunk_path-state : (h : Text) (d : Disk) → (chunk_path h d).1 ≡ d
chunk_path-state h d = ground (arith, chunk_path-eq h d)

pub joined-state :
    (x : Externals) (max_size : ℕ) (pid : Text) (cs : List ChunkRef) (d : Disk)
    → (joined x max_size pid cs d).1 ≡ d
unfolding joined
joined-state x max_size pid [] d = refl
joined-state x max_size pid (c ∷ cs) d =
    ground (arith, get_chunk-state x max_size pid c.hash d, joined-state x max_size pid cs d)

module _ (x : Externals) (max_size : ℕ) (pid : Text) (n : Option Node) where
  store_chunk-Holds :
      (h bytes : Text) → Keeps (Holds active_path n) (store_chunk x max_size pid (chunk_of h) bytes)
  unfolding store_chunk durable_mkdir is_last
  store_chunk-Holds h bytes =
      Keeps-bind (Holds active_path n) (durable_mkdir [] (parent_of (chunk_of h)))
        (λ _. atomic_write pid (chunk_of h) bytes)
        (Keeps-bind (Holds active_path n) (λ d. made chunks_dir (node d chunks_dir) false d)
          (λ _. durable_mkdir chunks_dir (take 2 h ∷ []))
          (λ d held. made-Holds chunks_dir false active_path n d (chunks-ne []) held)
          (λ _.
            Keeps-bind (Holds active_path n)
              (λ d.
                made (chunks_dir ++ take 2 h ∷ []) (node d (chunks_dir ++ take 2 h ∷ [])) true d)
              (λ _. pure tt)
              (λ d held.
                made-Holds (chunks_dir ++ take 2 h ∷ []) true active_path n d
                  (chunks-ne (take 2 h ∷ [])) held)
              (λ _ d held. held)))
        (λ a. atomic_write-Holds pid (chunk_of h) bytes active_path n (λ e. cc) (λ e. cc))

  verify_or_remove-Holds :
      (h : Text) → Keeps (Holds active_path n) (verify_or_remove x max_size pid (chunk_of h) h)
  unfolding verify_or_remove refuse_symlink read_bytes check_hash
  verify_or_remove-Holds h d held = ground (arith, node-unlink d (chunk_of h) active_path)

  put_chunk_compressed-Holds :
      (h bytes : Text) → Keeps (Holds active_path n) (put_chunk_compressed x max_size pid h bytes)
  unfolding put_chunk_compressed
  put_chunk_compressed-Holds h bytes d held = ground (
    arith,
    chunk_path-eq h d,
    store_chunk-Holds h bytes d held,
    verify_or_remove-Holds h (store_chunk x max_size pid (chunk_of h) bytes d).1,
  )

  put_manifest-Holds : (raw : Text) → Keeps (Holds active_path n) (put_manifest x max_size pid raw)
  unfolding put_manifest manifest_path store_path linked_on
  put_manifest-Holds raw d held = ground (
    arith,
    atomic_write-Holds pid (manifest_of (x.sha256 raw)) raw active_path n (λ e. cc) (λ e. cc) d
        held,
  )

  pub absent-state : (hs : List Text) (d : Disk) → (absent x max_size pid hs d).1 ≡ d
  unfolding absent has_chunk refuse_symlink
  absent-state [] d = refl
  absent-state (h ∷ hs) d = ground (arith, chunk_path-eq h d, absent-state hs d)

  verify_entry-state :
      (e : FileEntry) (max : ℕ) (d : Disk) → (verify_entry_reassembly x max_size pid e max d).1 ≡ d
  unfolding verify_entry_reassembly
  verify_entry-state e max d = ground (arith, joined-state x max_size pid e.chunks d)

  pub verify_reassembly-state :
      (es : List FileEntry) (max : ℕ) (d : Disk) → (verify_reassembly x max_size pid es max d).1 ≡ d
  unfolding verify_reassembly
  verify_reassembly-state [] max d = refl
  verify_reassembly-state (e ∷ es) max d =
      ground (arith, verify_entry-state e max d, verify_reassembly-state es max d)

  module _ (fetch : Text → Result Text) where
    fetch_missing-Holds :
        (base : Text) (hs : List Text) (limit fetched : ℕ)
        → Keeps (Holds active_path n) (fetch_missing x max_size pid fetch base hs limit fetched)
    unfolding fetch_missing
    fetch_missing-Holds base [] limit fetched d held = held
    fetch_missing-Holds base (h ∷ hs) limit fetched d held =
        elim (Result-cases (fetch (base ++ (codes "/chunk/" ++ h)))) [
          | inl (bytes, got) ↦ ground (
            arith,
            got,
            put_chunk_compressed-Holds h bytes d held,
            fetch_missing-Holds base hs limit (fetched + length bytes)
                (put_chunk_compressed x max_size pid h bytes d).1,
          )
          | inr (why, failed) ↦ ground (arith, failed)
        ]

    fetch_manifest-Holds :
        (base : Text) (p : VersionPointer)
        → Keeps (Holds active_path n) (fetch_manifest x max_size pid fetch base p)
    unfolding fetch_manifest
    fetch_manifest-Holds base p d held =
        elim (Result-cases (fetch (base ++ (codes "/manifest/" ++ p.manifest_hash)))) [
          | inl (raw, got) ↦ ground (arith, got, put_manifest-Holds raw d held)
          | inr (why, failed) ↦ ground (arith, failed)
        ]

    pub sync_content-Holds :
        (base : Text) (caps : SyncCaps) (p : VersionPointer)
        → Keeps (Holds active_path n) (sync_content x max_size pid fetch base caps p)
    unfolding sync_content check_manifest_identity enforce_file_cap
    sync_content-Holds base caps p d held =
        let s = (fetch_manifest x max_size pid fetch base p d).1 in
        let kept = fetch_manifest-Holds base p d held in
        elim (Result-cases (fetch_manifest x max_size pid fetch base p d).0) [
          | inr (why, failed) ↦ ground (arith, failed, kept)
          | inl (m, got) ↦
              let hashes = distinct (manifest_hashes m.files) in
              elim (Result-cases (absent x max_size pid hashes s).0) [
                | inr (why, failed) ↦ ground (arith, got, failed, kept, absent-state hashes s)
                | inl (missing, lacks) ↦
                    let t =
                      (fetch_missing x max_size pid fetch base missing caps.total_bytes 0 s).1 in
                    ground (
                      arith,
                      got,
                      lacks,
                      absent-state hashes s,
                      fetch_missing-Holds base missing caps.total_bytes 0 s kept,
                      verify_reassembly-state m.files caps.max_materialize_bytes t,
                    )
              ]
        ]
