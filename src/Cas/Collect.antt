-- ===== src/Cas/Collect.antt =====
-- `gc` of edgeproc/bundles/cas.py: removing what the active manifest does not name. A directory is
-- listed when its sweep starts; a file that was removed before a raise stays removed.
use edge_proc.Prelude.{
  ℕ, suc, ◌+◌, ◌≡◌, refl, ap, Bool, true, false, ◌&&◌, not, Option, none, some, List, [], ◌∷◌, ◌++◌,
  Text, length, ==_refl, contains, ◌==◌, text_eq, if◌then◌else◌, arith,
}
use edge_proc.Errors.{integrity, lock_timeout, validation}
use edge_proc.Exec.{ok, Exec, pure, modify, gets, refuse_if, or_raise, ◌>>=◌, ◌>>◌}
use edge_proc.Disk.{
  FilePath, Node, Disk, node, unlink, node-unlink, is_file, is_directory, child_of, path_eq,
}
use edge_proc.Manifest.{IndexManifest, VersionPointer, manifest_hashes}
use edge_proc.Manifest.Json.{canonical_bytes}
use edge_proc.Externals.{Externals, parse_manifest}
use edge_proc.Cas.{
  chunks_dir, manifests_dir, active_path, manifest_of, store_path, linked_on, refuse_symlink,
  get_manifest,
}
use edge_proc.Cas.Active.{read_active}

-- `iterdir`
children_of : FilePath → List (FilePath × Node) → List Text
children_of dir [] = []
children_of dir ((p, n) ∷ rest) =
    let others = children_of dir rest in
    elim (child_of dir p) [ none ↦ others | some name ↦ name ∷ others ]

unfoldable pub children : FilePath → Disk → List Text
unfolding children_of
children dir d = children_of dir d.nodes

-- The loop of `_sweep_chunks` and `_sweep_manifests` over the names in a directory.
unfoldable pub sweep_files : (Text → Bool) → FilePath → List Text → Exec Disk ℕ
sweep_files keep dir [] = pure 0
sweep_files keep dir (name ∷ names) = do
  refuse_symlink (dir ++ name ∷ [])
  present ← gets (λ d. is_file (node d (dir ++ name ∷ [])))
  modify (λ d. if present && not (keep name) then unlink d (dir ++ name ∷ []) else d)
  removed ← sweep_files keep dir names
  pure (if present && not (keep name) then suc removed else removed)

-- `_chunk_files` over the shards, with the sweep of what it yields.
unfoldable pub sweep_shards : (Text → Bool) → List Text → Exec Disk ℕ
sweep_shards keep [] = pure 0
sweep_shards keep (shard ∷ shards) = do
  refuse_symlink (chunks_dir ++ shard ∷ [])
  real ← gets (λ d. is_directory (node d (chunks_dir ++ shard ∷ [])))
  refuse_if (not real) integrity
  names ← gets (children (chunks_dir ++ shard ∷ []))
  removed ← sweep_files keep (chunks_dir ++ shard ∷ []) names
  more ← sweep_shards keep shards
  pure (removed + more)

-- `_sweep_chunks`
unfoldable pub sweep_chunks : List Text → Exec Disk ℕ
sweep_chunks keep = do
  path ← store_path chunks_dir
  shards ← gets (children path)
  sweep_shards (contains keep) shards

-- `_sweep_manifests`
unfoldable pub sweep_manifests : Text → Exec Disk ℕ
sweep_manifests keep = do
  path ← store_path manifests_dir
  names ← gets (children path)
  sweep_files (λ name. name == keep) manifests_dir names

module _ (x : Externals) (max_size : ℕ) (pid : Text) where
  -- `_load_manifest`
  unfoldable pub load_manifest : Text → Exec Disk IndexManifest
  load_manifest manifest_hash = do
    raw ← get_manifest x max_size pid manifest_hash
    m ← or_raise (parse_manifest x raw) validation
    refuse_if (not (x.sha256 (canonical_bytes m) == manifest_hash)) integrity
    pure m

  unfoldable pub collect : Option VersionPointer → Exec Disk ℕ
  collect none = pure 0
  collect (some active) = do
    m ← load_manifest active.manifest_hash
    removed ← sweep_chunks (manifest_hashes m.files)
    more ← sweep_manifests active.manifest_hash
    pure (removed + more)

  -- `gc` and `_gc_locked`
  unfoldable pub gc : Bool → Exec Disk ℕ
  gc locked = do refuse_if (not locked) lock_timeout; active ← read_active x; collect active

abbrev second : FilePath → Text
second (a ∷ b ∷ rest) = b
second _ = []

abbrev third : FilePath → Text
third (a ∷ b ∷ c ∷ rest) = c
third _ = []

-- A path that a sweep keeps: its node is as it was, whether the sweep returns or raises.
sweep_files-node :
    (keep : Text → Bool) (dir : FilePath) (names : List Text) (q : FilePath) (d : Disk)
    → ((name : Text) → dir ++ name ∷ [] ≡ q → keep name ≡ true)
    → node (sweep_files keep dir names d).1 q ≡ node d q
unfolding sweep_files refuse_symlink
sweep_files-node keep dir [] q d h = refl
sweep_files-node keep dir (name ∷ names) q d h = ground (
  arith,
  h name,
  node-unlink d (dir ++ name ∷ []) q,
  sweep_files-node keep dir names q d h,
  sweep_files-node keep dir names q (unlink d (dir ++ name ∷ [])) h,
)

sweep_shards-node :
    (keep : Text → Bool) (shards : List Text) (q : FilePath) (d : Disk)
    → ((shard name : Text) → chunks_dir ++ shard ∷ [] ++ name ∷ [] ≡ q → keep name ≡ true)
    → node (sweep_shards keep shards d).1 q ≡ node d q
unfolding sweep_shards refuse_symlink
sweep_shards-node keep [] q d h = refl
sweep_shards-node keep (shard ∷ shards) q d h =
    let dir = chunks_dir ++ shard ∷ [] in
    let swept = sweep_files keep dir (children dir d) d in
    ground (
      arith,
      sweep_files-node keep dir (children dir d) q d (λ name e. h shard name e),
      sweep_shards-node keep shards q swept.1 h,
    )

module _ (x : Externals) (max_size : ℕ) (pid : Text) where
  sweep_chunks-node :
      (keep : List Text) (q : FilePath) (d : Disk)
      → ((shard name : Text)
          → chunks_dir ++ shard ∷ [] ++ name ∷ [] ≡ q
          → contains keep name ≡ true)
      → node (sweep_chunks keep d).1 q ≡ node d q
  unfolding sweep_chunks store_path linked_on
  sweep_chunks-node keep q d h =
      ground (arith, sweep_shards-node (contains keep) (children chunks_dir d) q d h)

  sweep_manifests-node :
      (keep : Text) (q : FilePath) (d : Disk)
      → ((name : Text) → manifests_dir ++ name ∷ [] ≡ q → (name == keep) ≡ true)
      → node (sweep_manifests keep d).1 q ≡ node d q
  unfolding sweep_manifests store_path linked_on
  sweep_manifests-node keep q d h = ground (
    arith,
    sweep_files-node (λ name. name == keep) manifests_dir (children manifests_dir d) q d h,
  )

  -- A path that both sweeps keep: `gc` leaves its node as it was.
  gc-node :
      (locked : Bool) (d : Disk) (a : VersionPointer) (m : IndexManifest) (q : FilePath)
      → read_active x d ≡ (ok (some a), d)
      → load_manifest x max_size pid a.manifest_hash d ≡ (ok m, d)
      → ((shard name : Text)
          → chunks_dir ++ shard ∷ [] ++ name ∷ [] ≡ q
          → contains (manifest_hashes m.files) name ≡ true)
      → ((name : Text) → manifests_dir ++ name ∷ [] ≡ q → (name == a.manifest_hash) ≡ true)
      → node (gc x max_size pid locked d).1 q ≡ node d q
  unfolding gc collect
  gc-node false d a m q active loaded h k = refl
  gc-node true d a m q active loaded h k =
      let swept = sweep_chunks (manifest_hashes m.files) d in
      ground (
        arith,
        active,
        loaded,
        sweep_chunks-node (manifest_hashes m.files) q d h,
        sweep_manifests-node a.manifest_hash q swept.1 k,
      )

  -- Where an active pointer names a manifest that loads, garbage collection, whether it returns or
  -- raises on the way, leaves as they were the active pointer, the manifest and every chunk that the
  -- manifest names, in whatever shard it stands.
  pub gc-kept :
      (locked : Bool) (d : Disk) (a : VersionPointer) (m : IndexManifest) (shard h : Text)
      → read_active x d ≡ (ok (some a), d)
      → load_manifest x max_size pid a.manifest_hash d ≡ (ok m, d)
      → contains (manifest_hashes m.files) h ≡ true
      → (node (gc x max_size pid locked d).1 active_path ≡ node d active_path)
        × (node (gc x max_size pid locked d).1 (manifest_of a.manifest_hash)
            ≡ node d (manifest_of a.manifest_hash))
        × (node (gc x max_size pid locked d).1 (chunks_dir ++ shard ∷ [] ++ h ∷ [])
            ≡ node d (chunks_dir ++ shard ∷ [] ++ h ∷ []))
  gc-kept locked d a m shard h active loaded held = (
    gc-node locked d a m active_path active loaded (λ s n e. absurd (omega (arith, ap length e)))
        (λ n e. absurd (omega (arith, ap length e))),
    gc-node locked d a m (manifest_of a.manifest_hash) active loaded
        (λ s n e. absurd (omega (arith, ap length e)))
        (λ n e. rw (ap second e) (==_refl a.manifest_hash)),
    gc-node locked d a m (chunks_dir ++ shard ∷ [] ++ h ∷ []) active loaded
        (λ s n e. rw (ap third e) held) (λ n e. absurd (omega (arith, ap length e))),
  )
