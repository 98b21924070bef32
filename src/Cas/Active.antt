-- ===== src/Cas/Active.antt =====
-- The `active` pointer of edgeproc/bundles/cas.py: `read_active`, `_parse_active`, `promote`,
-- `_reject_rollback`. `locked` tells whether `mutation` got the lock in time.
use edge_proc.Prelude.{
  ◌≡◌, ◌⊎◌, ◌∙◌, refl, subst, inl, inr, Bool, true, false, not, Option, none, some, Text,
  if◌then◌else◌, arith, Option-cases, ◌==◌, text_eq,
}
use edge_proc.Errors.{
  Error, Reason, integrity, lock_timeout, rollback, os, validation, is_integrity,
}
use edge_proc.Exec.{
  Result, ok, err, Exec, bind-ok, pure, raise, catch, gets, refuse_if, or_raise, ◌>>=◌, ◌>>◌,
}
use edge_proc.Disk.{FilePath, Node, file, Disk, node, path_eq, sync_fault}
use edge_proc.Disk.Atomic.{atomic_write, node-atomic_write, atomic_write-err, is_present}
use edge_proc.Manifest.{VersionPointer, validate_pointer}
use edge_proc.Promotion.{Versions, downgrade_reason}
use edge_proc.Promotion.History.{History}
use edge_proc.Externals.{Externals, IsLawful, parse_pointer}
use edge_proc.Cas.{active_path, linked_on, store_path, read_bytes, bytes_of, refuse_symlink}

-- `except (IntegrityError, OSError, ValidationError)`
abbrev as_integrity : Error → Error
as_integrity os = integrity
as_integrity validation = integrity
as_integrity e = if is_integrity e then integrity else e

-- What stands against a promotion over the active pointer.
abbrev refused_by : (VersionPointer → Option Reason) → Option VersionPointer → Exec Disk (Unit {0})
refused_by reason none = pure tt
refused_by reason (some active) = elim (reason active) [
  | none ↦ pure tt
  | some why ↦ raise (rollback why)
]

module _ (x : Externals) where
  -- `_parse_active`
  unfoldable pub parse_active : FilePath → Exec Disk VersionPointer
  parse_active path =
      catch
        (do refuse_symlink path; raw ← read_bytes path; or_raise (parse_pointer x raw) validation)
        λ e. raise (as_integrity e)

  -- `read_active`
  unfoldable pub read_active : Exec Disk (Option VersionPointer)
  read_active = do
    path ← store_path active_path
    present ← gets (λ d. is_present (node d path))
    if present then (do p ← parse_active path; pure (some p)) else pure none

  module _ (v : Versions) where
    -- `_reject_rollback`
    unfoldable pub reject_rollback : VersionPointer → Exec Disk (Unit {0})
    reject_rollback pointer = do
      active ← read_active
      refused_by (downgrade_reason v pointer) active

    module _ (pid : Text) where
      -- `promote`
      unfoldable pub promote : Bool → VersionPointer → Exec Disk (Unit {0})
      promote locked pointer = do
        refuse_if (not locked) lock_timeout
        reject_rollback pointer
        path ← store_path active_path
        atomic_write pid path (x.dump_pointer pointer)

-- What reading the pointer gives, by the node at its path.
abbrev pub reading : Externals → Option Node → Result (Option VersionPointer)
reading x none = ok none
reading x (some (file bytes)) = elim (parse_pointer x bytes) [
  | none ↦ err integrity
  | some p ↦ ok (some p)
]
reading x (some _) = err integrity

module _ (x : Externals) where
  -- Reading the active pointer changes nothing. It is none only where nothing stands at its path:
  -- a directory, a link or bytes that are no valid pointer raise an `IntegrityError`.
  pub read_active-reading : (d : Disk) → read_active x d ≡ (reading x (node d active_path), d)
  unfolding read_active parse_active store_path linked_on read_bytes bytes_of refuse_symlink
  read_active-reading d = ground arith

  module _ (v : Versions) where
    reject_rollback-state : (p : VersionPointer) (d : Disk) → (reject_rollback x v p d).1 ≡ d
    unfolding reject_rollback
    reject_rollback-state p d = ground (arith, read_active-reading d)

    pub reject_rollback-ok :
        (p : VersionPointer) (d d' : Disk)
        → reject_rollback x v p d ≡ (ok tt, d')
        → (d' ≡ d)
          × ((read_active x d ≡ (ok none, d))
              ⊎ ((a : VersionPointer) × (read_active x d ≡ (ok (some a), d))
                  × (downgrade_reason v p a ≡ none)))
    unfolding reject_rollback
    reject_rollback-ok p d d' e =
        let (active, s, read, judged) =
          bind-ok (read_active x) (refused_by (downgrade_reason v p)) d d' tt e in
        elim (Option-cases active) [
          | inl none' ↦
              (ground (arith, read_active-reading d), inl (ground (arith, read_active-reading d)))
          | inr (a, some') ↦ (
            ground (arith, read_active-reading d),
            inr (a, ground (arith, read_active-reading d), ground arith),
          )
        ]

    module _ (pid : Text) where
      store_path-active :
          (d d' : Disk) (path : FilePath)
          → store_path active_path d ≡ (ok path, d')
          → (path ≡ active_path) × (d' ≡ d)
      unfolding store_path linked_on
      store_path-active d d' path e = ground arith

      pub promote-steps :
          (locked : Bool) (p : VersionPointer) (d d' : Disk)
          → promote x v pid locked p d ≡ (ok tt, d')
          → (reject_rollback x v p d ≡ (ok tt, d))
            × (atomic_write pid active_path (x.dump_pointer p) d ≡ (ok tt, d'))
      unfolding promote
      promote-steps locked p d d' e =
          let (t, s, held, e₁) = bind-ok (refuse_if (not locked) lock_timeout) _ d d' tt e in
          let (t', s', fresh, e₂) = bind-ok (reject_rollback x v p) _ s d' tt e₁ in
          let (path, s'', there, e₃) =
            bind-ok (store_path active_path) (λ q. atomic_write pid q (x.dump_pointer p)) s' d' tt
              e₂ in
          let (same, still) = store_path-active s' s'' path there in
          let here : s ≡ d = ground arith in
          let here' : s' ≡ s = ground (arith, reject_rollback-state p s) in
          (
            ground (arith, fresh, here, here', reject_rollback-state p d),
            subst (λ t. atomic_write pid active_path (x.dump_pointer p) t ≡ (ok tt, d'))
                (still ∙ here' ∙ here)
                (subst (λ q. atomic_write pid q (x.dump_pointer p) s'' ≡ (ok tt, d')) same e₃),
          )

      -- A promotion that succeeds was proved fresh against the pointer that was active, if there was
      -- one, and a valid pointer that it promoted is what is read as the active one afterwards.
      pub promote-read_active :
          (locked : Bool) (p : VersionPointer) (d d' : Disk)
          → IsLawful x
          → validate_pointer p ≡ true
          → promote x v pid locked p d ≡ (ok tt, d')
          → (read_active x d' ≡ (ok (some p), d'))
            × ((read_active x d ≡ (ok none, d))
                ⊎ ((a : VersionPointer) × (read_active x d ≡ (ok (some a), d))
                    × (downgrade_reason v p a ≡ none)))
      unfolding parse_pointer
      promote-read_active locked p d d' l valid e =
          let (judged, wrote) = promote-steps locked p d d' e in
          let at : node d' active_path ≡ some (file (x.dump_pointer p)) = ground (
            arith,
            node-atomic_write pid active_path (x.dump_pointer p) d d' active_path (λ h. cc) wrote,
          ) in
          (
            ground (arith, read_active-reading d', at, l.load-dump p, valid),
            (reject_rollback-ok p d d judged).1,
          )

      -- A promotion that raises, for the lock, the guard, an unreadable pointer or the file system,
      -- leaves every file as it was, with one exception: where what raises is an `OSError` of the
      -- flush of the directory, the active pointer is the promoted one already, and every other file
      -- is as it was.
      pub promote-err :
          (locked : Bool) (p : VersionPointer) (d d' : Disk) (why : Error) (q : FilePath)
          → promote x v pid locked p d ≡ (err why, d')
          → (node d' q ≡ node d q)
            ⊎ ((why ≡ os)
                × (d.faults active_path ≡ sync_fault)
                × (reject_rollback x v p d ≡ (ok tt, d))
                × (node d' q
                    ≡ (if active_path == q then some (file (x.dump_pointer p)) else node d q)))
      unfolding promote store_path linked_on
      promote-err false p d d' why q e = inl (ground arith)
      promote-err true p d d' why q e = ground (
        arith,
        reject_rollback-state p d,
        atomic_write-err pid active_path (x.dump_pointer p) d d' why q,
        atomic_write-err pid active_path (x.dump_pointer p) (reject_rollback x v p d).1 d' why q,
      )

      -- An active pointer that is there and cannot be read refuses every promotion.
      pub promote-unreadable :
          (locked : Bool) (p : VersionPointer) (d : Disk)
          → reading x (node d active_path) ≡ err integrity
          → (why : Error) × (is_integrity why ≡ true) × (promote x v pid locked p d ≡ (err why, d))
      unfolding promote reject_rollback
      promote-unreadable true p d h = (integrity, refl, ground (arith, read_active-reading d))
      promote-unreadable false p d h = (lock_timeout, refl, refl)

-- Promotions of valid pointers that succeed, one after another, in one store or several processes.
pub data Promotions (x : Externals) (v : Versions) (d : Disk) : Disk → Type 0 where
  started : Promotions x v d d
  promoted :
      {d' d'' : Disk} (pid : Text) (p : VersionPointer)
      → Promotions x v d d'
      → validate_pointer p ≡ true
      → promote x v pid true p d' ≡ (ok tt, d'')
      → Promotions x v d d''
