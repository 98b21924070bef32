-- ===== src/Sync/Content.antt =====
-- What a sync that succeeds has fetched: the manifest that the pointer names, within the caps, with
-- every file whole.
use edge_proc.Prelude.{
  ℕ, ◌+◌, ◌≤◌, ◌≡◌, ◌∙◌, sym, ap, subst, Bool, true, not, Option, none, some, List, [], ◌∷◌, ◌++◌,
  Text, length, ltb, ◌==◌, arith, text_eq,
}
use edge_proc.Prelude.Codes.{codes}
use mathlib.Core.Option.{some-injective}
use edge_proc.Prelude.Members.{All}
use edge_proc.Errors.{integrity, sync_cap, validation}
use edge_proc.Exec.{Result, ok, bind-ok, lift, refuse_if, or_raise}
use edge_proc.Disk.{Disk, path_eq}
use edge_proc.Disk.Atomic.{node-atomic_write}
use edge_proc.Manifest.{FileEntry, IndexManifest, VersionPointer, manifest_hashes}
use edge_proc.Promotion.{Versions}
use edge_proc.Externals.{Externals, IsLawful, parse_manifest}
use edge_proc.Cas.{active_path, put_manifest, put_chunk_compressed}
use edge_proc.Cas.Active.{read_active, promote-steps, promote-read_active}
use edge_proc.Sync.{
  SyncCaps, SyncResult, Verifier, check_manifest_identity, enforce_file_cap, pinned, is_size,
  distinct, absent, verify_reassembly, materialize_file, file_entry, fetch_missing, fetch_manifest,
  sync_content, sync_index,
}
use edge_proc.Sync.Frame.{verify_reassembly-state}
use edge_proc.Sync.Trust.{sync_index-Synced}
use edge_proc.Sync.Whole.{Whole, verify_reassembly-Whole, Whole-materialize_file, Whole-kept}

All-map :
    {P Q : FileEntry → Type 0} (es : List FileEntry)
    → ((e : FileEntry) → P e → Q e)
    → All P es
    → All Q es
All-map [] f h = tt
All-map (e ∷ es) f h = (f e h.0, All-map es f h.1)

file_entry-All :
    (P : FileEntry → Type 0) (es : List FileEntry) (path : Text) (e : FileEntry)
    → file_entry es path ≡ some e
    → All P es
    → P e
unfolding file_entry
file_entry-All P [] path e found h = absurd (cc)
file_entry-All P (f ∷ fs) path e found h = elim (text_eq.dec f.path path) [
  | yes same ↦ subst P (ground (arith, same, found)) h.0
  | no differ ↦ file_entry-All P fs path e (ground (arith, differ, found)) h.1
]

module _ (x : Externals) (max_size : ℕ) (pid : Text) where
  module _ (fetch : Text → Result Text) where
    -- The running total of a fetch that succeeds never passed the cap.
    fetch_missing-le :
        (base : Text) (hs : List Text) (limit fetched n : ℕ) (d d' : Disk)
        → fetched ≤ limit
        → fetch_missing x max_size pid fetch base hs limit fetched d ≡ (ok n, d')
        → n ≤ limit
    unfolding fetch_missing
    fetch_missing-le base [] limit fetched n d d' h e = ground arith
    fetch_missing-le base (c ∷ cs) limit fetched n d d' h e =
        let (bytes, s, got, e₁) =
          bind-ok (lift (fetch (base ++ (codes "/chunk/" ++ c)))) _ d d' n e in
        let (t, s', fits, e₂) =
          bind-ok (refuse_if (ltb limit (fetched + length bytes)) sync_cap) _ s d' n e₁ in
        let (t', s'', put, e₃) =
          bind-ok (put_chunk_compressed x max_size pid c bytes) _ s' d' n e₂ in
        fetch_missing-le base cs limit (fetched + length bytes) n s'' d' (ground arith) e₃

    -- The manifest that a sync fetched, and what was checked of it.
    pub record Content (base : Text) (caps : SyncCaps) (p : VersionPointer) (r : SyncResult)
        (d : Disk) : Type 0 where
      pub manifest : IndexManifest
      pub raw : Text
      pub served : fetch (base ++ (codes "/manifest/" ++ p.manifest_hash)) ≡ ok raw
      pub addressed : (x.sha256 raw == p.manifest_hash) ≡ true
      pub parsed : parse_manifest x raw ≡ some manifest
      pub bound : pinned p.bundle_id (some manifest.bundle_id) ≡ true
      pub few : length manifest.files ≤ caps.max_files
      pub light : r.bytes_fetched ≤ caps.total_bytes
      pub named : r.manifest_hash ≡ p.manifest_hash
      pub whole : All (λ e. Whole x max_size pid caps.max_materialize_bytes e d) manifest.files

    fetch_manifest-ok :
        (base : Text) (p : VersionPointer) (m : IndexManifest) (d d' : Disk)
        → fetch_manifest x max_size pid fetch base p d ≡ (ok m, d')
        → (raw : Text) × (fetch (base ++ (codes "/manifest/" ++ p.manifest_hash)) ≡ ok raw)
          × ((x.sha256 raw == p.manifest_hash) ≡ true)
          × (parse_manifest x raw ≡ some m)
    unfolding fetch_manifest
    fetch_manifest-ok base p m d d' e =
        let (raw, s, got, e₁) =
          bind-ok (lift (fetch (base ++ (codes "/manifest/" ++ p.manifest_hash)))) _ d d' m e in
        let (t, s', same, e₂) =
          bind-ok (refuse_if (not (x.sha256 raw == p.manifest_hash)) integrity) _ s d' m e₁ in
        let (h, s'', put, e₃) =
          bind-ok (put_manifest x max_size pid raw)
            (λ _. or_raise (parse_manifest x raw) validation) s' d' m e₂ in
        (raw, ground arith, ground arith, ground arith)

    sync_content-Content :
        (base : Text) (caps : SyncCaps) (p : VersionPointer) (r : SyncResult) (d d' : Disk)
        → sync_content x max_size pid fetch base caps p d ≡ (ok r, d')
        → Content base caps p r d'
    unfolding sync_content check_manifest_identity enforce_file_cap
    sync_content-Content base caps p r d d' e =
        let (m, s₁, got, e₁) = bind-ok (fetch_manifest x max_size pid fetch base p) _ d d' r e in
        let (t₁, s₂, bound, e₂) = bind-ok (lift (check_manifest_identity p m)) _ s₁ d' r e₁ in
        let (t₂, s₃, few, e₃) = bind-ok (lift (enforce_file_cap m caps.max_files)) _ s₂ d' r e₂ in
        let (missing, s₄, lacks, e₄) =
          bind-ok (absent x max_size pid (distinct (manifest_hashes m.files))) _ s₃ d' r e₃ in
        let (n, s₅, fetched, e₅) =
          bind-ok (fetch_missing x max_size pid fetch base missing caps.total_bytes 0) _ s₄ d' r
            e₄ in
        let (t₃, s₆, checked, e₆) =
          bind-ok (verify_reassembly x max_size pid m.files caps.max_materialize_bytes) _ s₅ d' r
            e₅ in
        let (raw, served, addressed, parsed) = fetch_manifest-ok base p m d s₁ got in
        let le : n ≤ caps.total_bytes =
          fetch_missing-le base missing caps.total_bytes 0 n s₄ s₅ (ground arith) fetched in
        let still : s₅ ≡ d' = ground (
          arith,
          verify_reassembly-state x max_size pid none m.files caps.max_materialize_bytes s₅,
          checked,
          e₆,
        ) in
        record {
          manifest = m;
          raw = raw;
          served = served;
          addressed = addressed;
          parsed = parsed;
          bound = ground arith;
          few = ground arith;
          light = ground (arith, le, e₆);
          named = ground (arith, e₆);
          whole =
              subst (λ q. All (λ f. Whole x max_size pid caps.max_materialize_bytes f q) m.files)
                still
                (verify_reassembly-Whole x max_size pid m.files caps.max_materialize_bytes s₅ s₆
                  (ground arith));
        }

    -- After a sync that succeeds the active pointer names a manifest that was served with its hash
    -- and binds the same bundle, files and fetched bytes are within the caps, and the chunks in the
    -- store of every file of the manifest join to bytes of its size and its hash.
    pub sync_index-Content :
        (versions : Versions) (locked : Bool) (base : Text) (v : Verifier) (b c : Option Text)
        (caps : SyncCaps) (clock : ℕ) (d d' : Disk) (r : SyncResult)
        → IsLawful x
        → sync_index x max_size pid fetch versions locked base v b c caps clock d ≡ (ok r, d')
        → (p : VersionPointer) × (read_active x d' ≡ (ok (some p), d')) × Content base caps p r d'
    sync_index-Content versions locked base v b c caps clock d d' r l e =
        let s =
          sync_index-Synced x max_size pid fetch versions locked base v b c caps clock d d' r e in
        let (now, fresh) =
          promote-read_active x versions pid true s.pointer s.fetched d' l s.trusted.valid
            s.switched in
        let (judged, wrote) = promote-steps x versions pid true s.pointer s.fetched d' s.switched in
        let content = sync_content-Content base caps s.pointer r d s.fetched s.content in
        (
          s.pointer,
          now,
          record {
            manifest = content.manifest;
            raw = content.raw;
            served = content.served;
            addressed = content.addressed;
            parsed = content.parsed;
            bound = content.bound;
            few = content.few;
            light = content.light;
            named = content.named;
            whole =
                All-map content.manifest.files
                  (λ f w.
                    Whole-kept x max_size pid s.fetched d' (x.dump_pointer s.pointer)
                      (λ q.
                        node-atomic_write pid active_path (x.dump_pointer s.pointer) s.fetched d' q
                          (λ h. cc) wrote)
                      caps.max_materialize_bytes f w)
                  content.whole;
          },
        )

    -- After a sync that succeeds every file of the manifest that the result names can be read back
    -- from the store: `materialize_file` under the same cap gives bytes of the size and the hash
    -- that the manifest says.
    pub sync_index-materialize_file :
        (versions : Versions) (locked : Bool) (base : Text) (v : Verifier) (b c : Option Text)
        (caps : SyncCaps) (clock : ℕ) (d d' : Disk) (r : SyncResult) (raw : Text)
        (m : IndexManifest) (path : Text) (e : FileEntry)
        → IsLawful x
        → sync_index x max_size pid fetch versions locked base v b c caps clock d ≡ (ok r, d')
        → fetch (base ++ (codes "/manifest/" ++ r.manifest_hash)) ≡ ok raw
        → parse_manifest x raw ≡ some m
        → file_entry m.files path ≡ some e
        → (bytes : Text) × (materialize_file x max_size pid m path caps.max_materialize_bytes d'
            ≡ (ok bytes, d'))
          × (is_size e.size (length bytes) ≡ true)
          × ((x.sha256 bytes == e.file_sha256) ≡ true)
    sync_index-materialize_file versions locked base v b c caps clock d d' r raw m path e l synced
          served parsed found =
        let (p, now, content) =
          sync_index-Content versions locked base v b c caps clock d d' r l synced in
        let same : content.raw ≡ raw = ground (arith, content.served, content.named, served) in
        let same' : content.manifest ≡ m =
          some-injective _ _ (sym content.parsed ∙ ap (parse_manifest x) same ∙ parsed) in
        let w =
          file_entry-All (λ f. Whole x max_size pid caps.max_materialize_bytes f d') m.files path e
            found
            (subst (λ n. All (λ f. Whole x max_size pid caps.max_materialize_bytes f d') n.files)
              same' content.whole) in
        (
          w.bytes,
          Whole-materialize_file x max_size pid m path e caps.max_materialize_bytes d' found w,
          w.sized,
          w.hashes,
        )
