-- ===== src/Disk/Atomic.antt =====
-- `_atomic_write` of edgeproc/bundles/cas.py, as the operations that it asks of the file system, and
-- what a crash between two of them leaves. `fsync` has no effect that another process sees.
use edge_proc.Prelude.{
  ◌≡◌, ◌≢◌, ◌⊎◌, refl, inl, inr, Bool, true, false, ◌||◌, not, Option, none, some, List, [], ◌∷◌,
  ◌++◌, Text, ◌==◌, text_eq, if◌then◌else◌, arith, ℕ, zero, suc, ◌+◌, length, take, length-append,
  ap,
}
use edge_proc.Errors.{Error, integrity, os}
use edge_proc.Exec.{ok, err, Exec}
use edge_proc.Prelude.Codes.{codes}
use edge_proc.Disk.{
  FilePath, Node, file, Disk, node, write, unlink, node-write, node-unlink, is_link, is_directory,
  path_eq, Fault, sound, write_fault, replace_fault, sync_fault,
}

-- `target.with_name(f"{target.name}.tmp.{os.getpid()}")`
abbrev pub temp_of : Text → FilePath → FilePath
temp_of pid [] = []
temp_of pid (name ∷ []) = (name ++ (codes ".tmp." ++ pid)) ∷ []
temp_of pid (name ∷ next ∷ rest) = name ∷ temp_of pid (next ∷ rest)

abbrev pub parent_of : FilePath → FilePath
parent_of [] = []
parent_of (name ∷ []) = []
parent_of (name ∷ next ∷ rest) = name ∷ parent_of (next ∷ rest)

-- One request to the file system, and its effect. The temporary file is created empty, grows, and
-- takes the target's name.
pub data Op : Type 0 where
  create : FilePath → Op
  extend : FilePath → Text → Op
  replace : FilePath → FilePath → Op
  remove : FilePath → Op

unfoldable pub effect : Disk → Op → Disk
effect d (create p) = write d p (file [])
effect d (extend p bytes) = write d p (file bytes)
effect d (replace from to) = elim (node d from) [ none ↦ d | some n ↦ write (unlink d from) to n ]
effect d (remove p) = unlink d p

pub effects : Disk → List Op → Disk
unfolding effect
effects d [] = d
effects d (op ∷ ops) = effects (effect d op) ops

-- The block after `_open_exclusive_temp` has created the file; the last is the `finally`.
abbrev pub write_ops : FilePath → FilePath → Text → List Op
write_ops temp target bytes =
    create temp ∷ extend temp bytes ∷ replace temp target ∷ remove temp ∷ []

cons-head : {A : Type 0} {x y : A} {xs ys : List A} → x ∷ xs ≡ y ∷ ys → x ≡ y
cons-head e = cc

cons-tail : {A : Type 0} {x y : A} {xs ys : List A} → x ∷ xs ≡ y ∷ ys → xs ≡ ys
cons-tail e = cc

abbrev has_parent : Disk → FilePath → Bool
has_parent d [] = false
has_parent d (name ∷ []) = true
has_parent d (name ∷ next ∷ rest) = is_directory (node d (parent_of (name ∷ next ∷ rest)))

abbrev pub is_present : Option Node → Bool
is_present none = false
is_present (some n) = true

module _ (pid : Text) where
  -- The `finally` removes the temporary file whatever fails. `os.replace` onto a directory fails;
  -- when the flush of the directory does, the file has taken its name already.
  replaced : FilePath → Text → Exec Disk (Unit {0})
  unfolding effects
  replaced target bytes d =
      let temp = temp_of pid target in
      let undone = effects d (create temp ∷ extend temp bytes ∷ remove temp ∷ []) in
      let done = effects d (write_ops temp target bytes) in
      elim (d.faults target) [
        | sound ↦ if is_directory (node d target) then (err os, undone) else (ok tt, done)
        | write_fault ↦ (err os, undone)
        | replace_fault ↦ (err os, undone)
        | sync_fault ↦ if is_directory (node d target) then (err os, undone) else (err os, done)
      ]

  -- `_atomic_write`. The exclusive open fails on a temporary file that is there, and on a missing
  -- parent directory; the root is a directory.
  unfoldable pub atomic_write : FilePath → Text → Exec Disk (Unit {0})
  unfolding replaced
  atomic_write target bytes d =
      if is_link (node d target)
      then (err integrity, d)
      else if is_present (node d (temp_of pid target)) || not (has_parent d target)
      then (err integrity, d)
      else replaced target bytes d

  length-temp :
      (name : Text) → length (name ++ (codes ".tmp." ++ pid)) ≡ length name + (5 + length pid)
  length-temp name = omega (arith, length-append name (codes ".tmp." ++ pid))

  temp_of-ne : (target : FilePath) → target ≢ [] → temp_of pid target ≢ target
  temp_of-ne [] h e = h refl
  temp_of-ne (name ∷ []) h e = absurd (omega (arith, length-temp name, ap length (cons-head e)))
  temp_of-ne (name ∷ next ∷ rest) h e = temp_of-ne (next ∷ rest) (λ e'. cc) (cons-tail e)

  module _ (target : FilePath) (bytes : Text) (d : Disk) where
    -- What `q` holds after the first operations, whatever part was written.
    node-torn :
        (q : FilePath) (part : Text)
        → node (effects d (create (temp_of pid target) ∷ extend (temp_of pid target) part ∷ [])) q
          ≡ (if temp_of pid target == q then some (file part) else node d q)
    unfolding effects
    node-torn q part = ground (
      arith,
      node-write (write d (temp_of pid target) (file [])) (temp_of pid target) q (file part),
      node-write d (temp_of pid target) q (file []),
    )

    node-undone :
        (q : FilePath) (part : Text)
        → node
            (effects d (
              create (temp_of pid target)
              ∷ extend (temp_of pid target) part
              ∷ remove (temp_of pid target)
              ∷ []))
            q
          ≡ (if temp_of pid target == q then none else node d q)
    unfolding effects
    node-undone q part = ground (
      arith,
      node-unlink (effects d (create (temp_of pid target) ∷ extend (temp_of pid target) part ∷ []))
          (temp_of pid target) q,
      node-torn q part,
    )

    node-replaced :
        (q : FilePath)
        → node (effects d (take 3 (write_ops (temp_of pid target) target bytes))) q ≡ (
            if target == q
            then some (file bytes)
            else if temp_of pid target == q
            then none
            else node d q)
    unfolding effects
    node-replaced q = ground (
      arith,
      node-torn (temp_of pid target) bytes,
      node-write
          (effects d (
            create (temp_of pid target)
            ∷ extend (temp_of pid target) bytes
            ∷ remove (temp_of pid target)
            ∷ []))
          target q (file bytes),
      node-undone q bytes,
    )

    -- What `q` holds after a write that went through.
    node-write_ops :
        (q : FilePath)
        → node (effects d (write_ops (temp_of pid target) target bytes)) q ≡ (
            if temp_of pid target == q
            then none
            else if target == q
            then some (file bytes)
            else node d q)
    unfolding effects
    node-write_ops q = ground (
      arith,
      node-unlink (effects d (take 3 (write_ops (temp_of pid target) target bytes)))
          (temp_of pid target) q,
      node-replaced q,
    )

    atomic_write-ok :
        (d' : Disk)
        → atomic_write target bytes d ≡ (ok tt, d')
        → (d' ≡ effects d (write_ops (temp_of pid target) target bytes))
          × (node d (temp_of pid target) ≡ none)
    unfolding atomic_write
    atomic_write-ok d' e = ground arith

    -- A write that succeeds has put the bytes at the target, and left every other path as it was.
    pub node-atomic_write :
        (d' : Disk) (q : FilePath)
        → target ≢ []
        → atomic_write target bytes d ≡ (ok tt, d')
        → node d' q ≡ (if target == q then some (file bytes) else node d q)
    unfolding atomic_write
    node-atomic_write d' q h e =
        let (done, fresh) = atomic_write-ok d' e in
        rw (done, node-write_ops q) (ground (arith, temp_of-ne target h))

    -- A write that raises has changed nothing, unless it is the flush of the directory that raises:
    -- then the target holds the new bytes, and every other path is as it was.
    pub atomic_write-err :
        (d' : Disk) (x : Error) (q : FilePath)
        → atomic_write target bytes d ≡ (err x, d')
        → target ≢ []
        → (node d' q ≡ node d q)
          ⊎ ((x ≡ os)
              × (d.faults target ≡ sync_fault)
              × (node d' q ≡ (if target == q then some (file bytes) else node d q)))
    unfolding atomic_write
    atomic_write-err d' x q e h = go (d.faults target) refl
      where
        go :
            (f : Fault)
            → d.faults target ≡ f
            → (node d' q ≡ node d q)
              ⊎ ((x ≡ os)
                  × (d.faults target ≡ sync_fault)
                  × (node d' q ≡ (if target == q then some (file bytes) else node d q)))
        go sound i = inl (ground (arith, node-undone q bytes))
        go write_fault i = inl (ground (arith, node-undone q bytes))
        go replace_fault i = inl (ground (arith, node-undone q bytes))
        go sync_fault i = ground (arith, node-undone q bytes, node-write_ops q, temp_of-ne target h)

    -- Where a crash may leave the files: before, in the middle of the data, or between operations.
    pub data Crashed : Disk → Type 0 where
      torn :
          (part : Text)
          → Crashed
              (effects d (create (temp_of pid target) ∷ extend (temp_of pid target) part ∷ []))
      stopped : (n : ℕ) → Crashed (effects d (take n (write_ops (temp_of pid target) target bytes)))

    -- A crash at any moment of an atomic write leaves at the target, not the root, the node that was
    -- there or the whole new file, never a part.
    pub node-Crashed :
        (d' : Disk)
        → target ≢ []
        → Crashed d'
        → (node d' target ≡ node d target) ⊎ (node d' target ≡ some (file bytes))
    unfolding effects
    node-Crashed d' h (torn part) = inl (ground (arith, node-torn target part, temp_of-ne target h))
    node-Crashed d' h (stopped zero) = inl refl
    node-Crashed d' h (stopped (suc zero)) =
        inl
          (ground (arith, node-write d (temp_of pid target) target (file []), temp_of-ne target h))
    node-Crashed d' h (stopped (suc (suc zero))) =
        inl (ground (arith, node-torn target bytes, temp_of-ne target h))
    node-Crashed d' h (stopped (suc (suc (suc zero)))) = inr (ground (arith, node-replaced target))
    node-Crashed d' h (stopped (suc (suc (suc (suc zero))))) =
        inr (ground (arith, node-write_ops target, temp_of-ne target h))
    node-Crashed d' h (stopped (suc (suc (suc (suc (suc n)))))) =
        inr (ground (arith, node-write_ops target, temp_of-ne target h))

    -- A crash of an atomic write leaves every path but the target and the temporary file's as it was.
    pub others-Crashed :
        (d' : Disk) (q : FilePath)
        → q ≢ target
        → q ≢ temp_of pid target
        → Crashed d'
        → node d' q ≡ node d q
    unfolding effects
    others-Crashed d' q a b (torn part) = ground (arith, node-torn q part)
    others-Crashed d' q a b (stopped zero) = refl
    others-Crashed d' q a b (stopped (suc zero)) =
        ground (arith, node-write d (temp_of pid target) q (file []))
    others-Crashed d' q a b (stopped (suc (suc zero))) = ground (arith, node-torn q bytes)
    others-Crashed d' q a b (stopped (suc (suc (suc zero)))) = ground (arith, node-replaced q)
    others-Crashed d' q a b (stopped (suc (suc (suc (suc zero))))) =
        ground (arith, node-write_ops q)
    others-Crashed d' q a b (stopped (suc (suc (suc (suc (suc n)))))) =
        ground (arith, node-write_ops q)
