-- ===== src/Localvec/Snapshots/Safe.antt =====
-- A commit that stops at any of its requests, for a crash or an error.
use edge_proc.Prelude.{
  ℕ, zero, suc, ◌≡◌, ◌∙◌, ◌⊎◌, refl, sym, subst, ap, inl, inr, true, Bool, Option, List, [], ◌∷◌,
  Text, length, take, all, nat_eq, text_eq, arith,
}
use edge_proc.Prelude.Dicts.{del}
use edge_proc.Exec.{ok, err, Result-cases, Keeps-bind, ◌>>=◌}
use edge_proc.Manifest.{is_hex_of}
use edge_proc.Localvec.Snapshots.{
  Files, Formats, IsLawful, SnapshotPayload, manifest_name, index_temp, state_temp, manifest_temp,
  next_sequence, latest,
}
use edge_proc.Localvec.Snapshots.Commit.{
  Op, unlinked, effect, effects, commit_ops, committed_files, unlink_each, unreferenced, to_keep,
  to_remove, generations, collect_old_generations,
}
use edge_proc.Localvec.Snapshots.Names.{length-hex}
use edge_proc.Localvec.Snapshots.Current.{Current, latest-Current}
use edge_proc.Localvec.Snapshots.Collect.{spare, del-Current, unlink_each-Current}
use edge_proc.Localvec.Snapshots.Own.{index_temp-Own, state_temp-Own, manifest_temp-Own}
use edge_proc.Localvec.Snapshots.Stable.{IsFresh, Current-same}
use edge_proc.Localvec.Snapshots.Crash.{crashed, crashed-Kept, Kept-trans, OwnOps, effects-Kept}
use edge_proc.Localvec.Snapshots.Numbers.{next-fits}
use edge_proc.Localvec.Snapshots.Fresh.{
  staged, bytes, after, snapshot, staged-Own, commit_ops-eq, Current-new,
}
use edge_proc.Localvec.Snapshots.Spared.{
  unreferenced-spare, to_remove-spare, generation-is_hex, generation-kept, collect-Current,
}
use edge_proc.Localvec.Snapshots.Committed.{
  index_temp-spare, state_temp-spare, manifest_temp-spare, committed-Current,
  committed_files-Current,
}

abbrev removals : List Text → List Op
removals [] = []
removals (name ∷ names) = unlinked name ∷ removals names

-- Where `_write_generation` stops. `writing k part j` is after `k` requests of the commit and a part
-- of the next one, and `j` of the removals that the two `finally` make where a request fails; the
-- collection stops in the manifests or in the data that it removes, and `cleaning` is after it, an
-- error of it included.
pub data Stopped : Type 0 where
  writing : ℕ → Option Text → ℕ → Stopped
  removing_manifests : ℕ → Stopped
  removing_data : ℕ → Stopped
  cleaning : ℕ → Stopped

module _ (x : Formats) (n : ℕ) (gen uuid index state : Text) where
  removed_part : ℕ → Files → Files
  removed_part k files = elim (generations x files (to_keep x files)) [
    | err e ↦ files
    | ok gs ↦
        ((unlink_each (to_remove x files) >>= λ _ swept.
        unlink_each (take k (unreferenced gs swept)) swept)
          files).1
  ]

  unfoldable pub stopped : Files → Stopped → Files
  unfolding removed_part
  stopped files (writing k part j) =
      effects (crashed files (commit_ops x n gen uuid index state) k part)
        (removals (take j (manifest_temp uuid ∷ index_temp gen ∷ state_temp gen ∷ [])))
  stopped files (removing_manifests k) =
      let left = committed_files x n gen uuid index state files in
      (unlink_each (take k (to_remove x left)) left).1
  stopped files (removing_data k) = removed_part k (committed_files x n gen uuid index state files)
  stopped files (cleaning k) =
      effects (collect_old_generations x (committed_files x n gen uuid index state files)).1
        (removals (take k (index_temp gen ∷ state_temp gen ∷ [])))

all-take : (p : Text → Bool) (k : ℕ) (ts : List Text) → all p ts ≡ true → all p (take k ts) ≡ true
all-take p zero ts h = refl
all-take p (suc k) [] h = refl
all-take p (suc k) (t ∷ ts) h = ground (arith, h, all-take p k ts)

module _ (x : Formats) where
  removals-Current :
      (ts : List Text) (files : Files) (name : Text) (p : SnapshotPayload)
      → all (spare name p.revision.generation) ts ≡ true
      → Current x files name p
      → Current x (effects files (removals ts)) name p
  unfolding effects effect
  removals-Current [] files name p h c = c
  removals-Current (t ∷ ts) files name p h c =
      removals-Current ts (del files t) name p (ground arith)
        (del-Current x files name p t c (ground arith))

  removed_part-Current :
      (n : ℕ) (gen uuid index state : Text) (k : ℕ) (files : Files) (name : Text)
      (p : SnapshotPayload)
      → Current x files name p
      → Current x (removed_part x n gen uuid index state k files) name p
  unfolding removed_part
  removed_part-Current n gen uuid index state k files name p c =
      elim (Result-cases (generations x files (to_keep x files))) [
        | inr (e, bad) ↦ subst (λ d. Current x d name p) (sym (rw (removed_part, bad) refl)) c
        | inl (gs, good) ↦
            subst (λ d. Current x d name p) (sym (rw (removed_part, good) refl))
              (Keeps-bind (λ d. Current x d name p) (unlink_each (to_remove x files))
                (λ _ swept. unlink_each (take k (unreferenced gs swept)) swept)
                (unlink_each-Current x name p _ (to_remove-spare x files name p c))
                (λ _ d kept.
                  unlink_each-Current x name p _
                    (all-take _ k (unreferenced gs d) (
                      unreferenced-spare x name p.revision.generation gs d
                        (generation-is_hex x files name p c) c.manifest
                        (generation-kept x files name p c gs good)))
                    d kept)
                files c)
      ]

  module _ (l : IsLawful x) (files : Files) (gen uuid index state : Text) (n : ℕ)
      (fresh : IsFresh x files gen) (hex : is_hex_of 32 gen ≡ true) (named : length uuid ≡ 32)
      (next : next_sequence x files ≡ ok n) where
    removals-Own :
        (j : ℕ)
        → OwnOps gen (removals (take j (manifest_temp uuid ∷ index_temp gen ∷ state_temp gen ∷ [])))
    removals-Own zero = tt
    removals-Own (suc zero) = (manifest_temp-Own gen uuid named, tt)
    removals-Own (suc (suc zero)) =
        (manifest_temp-Own gen uuid named, (index_temp-Own gen (length-hex 32 gen hex), tt))
    removals-Own (suc (suc (suc j))) = (
      manifest_temp-Own gen uuid named,
      (
        index_temp-Own gen (length-hex 32 gen hex),
        (state_temp-Own gen (length-hex 32 gen hex), own-rest j),
      ),
    )
      where
        own-rest : (j : ℕ) → OwnOps gen (removals (take j []))
        own-rest zero = tt
        own-rest (suc j) = tt

    temps-spare :
        all
          (spare (manifest_name n) gen)
          (manifest_temp uuid ∷ index_temp gen ∷ state_temp gen ∷ [])
        ≡ true
    temps-spare =
        let size = length-hex 32 gen hex in
        ground (
          arith,
          manifest_temp-spare x l gen uuid n size named,
          index_temp-spare x l gen n size,
          state_temp-spare x l gen n size,
        )

    -- What the two `finally` remove leaves the old snapshot or the new one.
    writing-Current :
        (name : Text) (p : SnapshotPayload) (k : ℕ) (part : Option Text) (j : ℕ)
        → Current x files name p
        → Current x (stopped x n gen uuid index state files (writing k part j)) name p
          ⊎ Current x
              (stopped x n gen uuid index state files (writing k part j))
              (manifest_name n)
              (snapshot x index state n gen)
    unfolding stopped staged bytes after
    writing-Current name p k part j c =
        let (low, high) = next-fits x files n next in
        let undo = removals (take j (manifest_temp uuid ∷ index_temp gen ∷ state_temp gen ∷ [])) in
        let ops =
          ap (λ o. effects (crashed files o k part) undo)
            (commit_ops-eq x l gen uuid index state n hex named low high) in
        elim (crashed-Kept x gen files _ _ _ k part
          (staged-Own x l gen uuid index state n hex named low high) fresh) [
            | inl kept ↦ inl (
                subst (λ d. Current x d name p) (sym ops)
                  (let both =
                      Kept-trans x kept (effects-Kept x gen _ undo (removals-Own j) kept.fresh) in
                    Current-same x files _ name p both.unchanged c))
            | inr e ↦ inr (
                subst (λ d. Current x d (manifest_name n) (snapshot x index state n gen))
                  (sym (ops ∙ ap (λ d. effects d undo) e))
                  (removals-Current _ _ (manifest_name n) (snapshot x index state n gen)
                    (all-take _ j _ temps-spare)
                    (Current-new x l gen uuid index state n hex named low high files fresh next)))
          ]

    collected-Current :
        Current x
          (committed_files x n gen uuid index state files)
          (manifest_name n)
          (snapshot x index state n gen)
    collected-Current =
        committed_files-Current x l files gen uuid index state n (length-hex 32 gen hex) named
          (committed-Current x l files gen uuid index state n fresh hex named next)

    -- In a directory with a current snapshot and a sequence number left, a commit of a new
    -- generation, which no manifest names, that stops after any of its requests or in the middle of a
    -- write, or that fails there and removes its temporary files, or that stops in the collection or
    -- the removals after it, leaves a directory whose next load gives the snapshot that was current
    -- before, or the new one whole.
    pub latest-crashed :
        (name : Text) (p : SnapshotPayload) (at : Stopped)
        → Current x files name p
        → let left = stopped x n gen uuid index state files at in
          (latest x (λ t. left) ≡ ok p) ⊎ (latest x (λ t. left) ≡ ok (snapshot x index state n gen))
    unfolding stopped
    latest-crashed name p (writing k part j) c = elim (writing-Current name p k part j c) [
      | inl old ↦ inl (latest-Current x _ name p old)
      | inr new' ↦ inr (latest-Current x _ (manifest_name n) (snapshot x index state n gen) new')
    ]
    latest-crashed name p (removing_manifests k) c =
        let q = snapshot x index state n gen in
        inr (
          latest-Current x _ (manifest_name n) q (
            unlink_each-Current x (manifest_name n) q _
              (all-take _ k _ (to_remove-spare x _ (manifest_name n) q collected-Current)) _
              collected-Current))
    latest-crashed name p (removing_data k) c =
        let q = snapshot x index state n gen in
        inr (
          latest-Current x _ (manifest_name n) q
            (removed_part-Current n gen uuid index state k _ (manifest_name n) q collected-Current))
    latest-crashed name p (cleaning k) c =
        let q = snapshot x index state n gen in
        let size = length-hex 32 gen hex in
        inr (
          latest-Current x _ (manifest_name n) q (
            removals-Current _ _ (manifest_name n) q
              (all-take _ k (index_temp gen ∷ state_temp gen ∷ [])
                (ground (arith, index_temp-spare x l gen n size, state_temp-spare x l gen n size)))
              (collect-Current x _ (manifest_name n) q collected-Current)))
