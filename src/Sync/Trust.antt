-- ===== src/Sync/Trust.antt =====
-- What a sync that succeeds has checked of its pointer, and what one that raises leaves.
use edge_proc.Prelude.{
  ℕ, ◌≡◌, ◌⊎◌, ◌∙◌, refl, sym, ap, inl, inr, Bool, true, false, not, Option, none, some, Text,
  arith, text_eq,
}
use edge_proc.Errors.{Error, lock_timeout, os}
use edge_proc.Exec.{Result, ok, bind-ok, pure, lift, refuse_if}
use edge_proc.Disk.{Disk, node, path_eq, file}
use edge_proc.Manifest.{VersionPointer, is_expired, validate_pointer}
use edge_proc.Promotion.{Versions, downgrade_reason}
use edge_proc.Externals.{Externals, IsLawful, parse_pointer}
use edge_proc.Cas.{active_path}
use edge_proc.Cas.Active.{read_active, read_active-reading, promote, promote-read_active}
use edge_proc.Sync.{
  SyncCaps, SyncResult, Verifier, verify_signature, check_expiry, verify_pointer, pinned,
  check_identity, fetch_pointer, sync_content, sync_locked, sync_index,
}
use edge_proc.Sync.Frame.{sync_content-Holds}

module _ (x : Externals) (max_size : ℕ) (pid : Text) (fetch : Text → Result Text)
    (versions : Versions) where
  -- What a pointer was checked for before anything that it names was fetched.
  pub record Trusted (v : Verifier) (expected_bundle_id expected_channel : Option Text) (clock : ℕ)
      (p : VersionPointer) : Type 0 where
    pub valid : validate_pointer p ≡ true
    pub signed : verify_signature p v ≡ ok tt
    pub unexpired : is_expired p clock ≡ false
    pub bundle : pinned expected_bundle_id p.bundle_id ≡ true
    pub channel : pinned expected_channel p.channel ≡ true

  fetch_pointer-Trusted :
      (base : Text) (v : Verifier) (b c : Option Text) (clock : ℕ) (p : VersionPointer)
      (d d' d'' : Disk) (t : Unit {0})
      → fetch_pointer x max_size pid fetch base v clock d ≡ (ok p, d')
      → lift (check_identity p b c) d' ≡ (ok t, d'')
      → Trusted v b c clock p × (d'' ≡ d)
  unfolding fetch_pointer verify_pointer check_expiry check_identity parse_pointer
  fetch_pointer-Trusted base v b c clock p d d' d'' t e i = (
    record {
      valid = ground arith;
      signed = ground arith;
      unexpired = ground arith;
      bundle = ground arith;
      channel = ground arith;
    },
    ground arith,
  )

  -- The steps of a sync that succeeds, with the disk between them.
  pub record Synced (base : Text) (v : Verifier) (b c : Option Text) (caps : SyncCaps) (clock : ℕ)
      (d d' : Disk) (r : SyncResult) : Type 0 where
    pub pointer : VersionPointer
    pub fetched : Disk
    pub trusted : Trusted v b c clock pointer
    pub content : sync_content x max_size pid fetch base caps pointer d ≡ (ok r, fetched)
    pub switched : promote x versions pid true pointer fetched ≡ (ok tt, d')

  pub sync_index-Synced :
      (locked : Bool) (base : Text) (v : Verifier) (b c : Option Text) (caps : SyncCaps) (clock : ℕ)
      (d d' : Disk) (r : SyncResult)
      → sync_index x max_size pid fetch versions locked base v b c caps clock d ≡ (ok r, d')
      → Synced base v b c caps clock d d' r
  unfolding sync_index sync_locked
  sync_index-Synced locked base v b c caps clock d d' r e =
      let (u, d₀, held, e₀) = bind-ok (refuse_if (not locked) lock_timeout) _ d d' r e in
      let (p, d₁, got, e₁) =
        bind-ok (fetch_pointer x max_size pid fetch base v clock) _ d₀ d' r e₀ in
      let (u', d₂, known, e₂) = bind-ok (lift (check_identity p b c)) _ d₁ d' r e₁ in
      let (r', d₃, content, e₃) =
        bind-ok (sync_content x max_size pid fetch base caps p) _ d₂ d' r e₂ in
      let (u'', d₄, switched, e₄) =
        bind-ok (promote x versions pid true p) (λ _. pure r') d₃ d' r e₃ in
      let (trusted, still) = fetch_pointer-Trusted base v b c clock p d₀ d₁ d₂ u' got known in
      let here : d₀ ≡ d = ground arith in
      record {
        pointer = p;
        fetched = d₃;
        trusted = trusted;
        content = ground (arith, content, still, here, e₄);
        switched = ground (arith, switched, e₄);
      }

  -- A sync that succeeds leaves as the active pointer one that is valid, whose signature the
  -- verifier accepts, that has not expired and that the pins allow; the guard found it fresh
  -- against the pointer that was active before the sync, if there was one; the result names it.
  pub sync_index-Trusted :
      (locked : Bool) (base : Text) (v : Verifier) (b c : Option Text) (caps : SyncCaps) (clock : ℕ)
      (d d' : Disk) (r : SyncResult)
      → IsLawful x
      → sync_index x max_size pid fetch versions locked base v b c caps clock d ≡ (ok r, d')
      → (p : VersionPointer) × Trusted v b c clock p
        × (read_active x d' ≡ (ok (some p), d'))
        × ((read_active x d ≡ (ok none, d))
            ⊎ ((a : VersionPointer) × (read_active x d ≡ (ok (some a), d))
                × (downgrade_reason versions p a ≡ none)))
  sync_index-Trusted locked base v b c caps clock d d' r l e =
      let s = sync_index-Synced locked base v b c caps clock d d' r e in
      let (now, fresh) =
        promote-read_active x versions pid true s.pointer s.fetched d' l s.trusted.valid
          s.switched in
      let kept : node s.fetched active_path ≡ node d active_path =
        ap (λ (q : Result SyncResult × Disk). node q.1 active_path) (sym s.content)
        ∙ sync_content-Holds x max_size pid (node d active_path) fetch base caps s.pointer d refl in
      (
        s.pointer,
        s.trusted,
        now,
        elim fresh [
          | inl nothing ↦ inl (
              ground
                (arith, read_active-reading x d, read_active-reading x s.fetched, kept, nothing))
          | inr (a, active, accepted) ↦ inr (
            a,
            ground (arith, read_active-reading x d, read_active-reading x s.fetched, kept, active),
            accepted,
          )
        ],
      )

  -- What a sync that raises leaves of the active pointer's file: what was there, or, where the flush
  -- of the directory is what fails, a pointer that was checked and that the guard found fresh.
  pub ActiveAfter : (v : Verifier) (b c : Option Text) (clock : ℕ) (d d' : Disk) → Error → Type 0
  ActiveAfter v b c clock d d' why =
      (node d' active_path ≡ node d active_path)
      ⊎ ((why ≡ os)
          × ((p : VersionPointer) × Trusted v b c clock p
              × (node d' active_path ≡ some (file (x.dump_pointer p)))
              × ((read_active x d ≡ (ok none, d))
                  ⊎ ((a : VersionPointer) × (read_active x d ≡ (ok (some a), d))
                      × (downgrade_reason versions p a ≡ none)))))
