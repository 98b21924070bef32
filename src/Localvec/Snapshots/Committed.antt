-- ===== src/Localvec/Snapshots/Committed.antt =====
-- A commit that returns has made its snapshot the one that the next load gives.
use edge_proc.Prelude.{
  ℕ, ◌≡◌, ◌≢◌, ◌∙◌, refl, sym, ap, subst, true, List, [], ◌∷◌, ◌++◌, Text, length, nat_eq, text_eq,
  arith,
}
use edge_proc.Exec.{ok}
use edge_proc.Manifest.{is_hex_of}
use edge_proc.Localvec.Snapshots.{
  Files, Formats, IsLawful, manifest_name, index_final, state_final, index_temp, state_temp,
  manifest_temp, next_sequence,
}
use edge_proc.Localvec.Snapshots.Commit.{Op, effect, effects, commit_ops, committed_files}
use edge_proc.Localvec.Snapshots.Names.{
  length-manifest, length-index_final, length-state_final, length-index_temp, length-state_temp,
  length-manifest_temp, other_length, manifest_name-is_manifest,
}
use edge_proc.Localvec.Snapshots.Current.{Current}
use edge_proc.Localvec.Snapshots.Collect.{spare, del-Current}
use edge_proc.Localvec.Snapshots.Stable.{IsFresh}
use edge_proc.Localvec.Snapshots.Numbers.{next-fits}
use edge_proc.Localvec.Snapshots.Fresh.{staged, bytes, after, snapshot, commit_ops-eq, Current-new}

effects-snoc :
    (files : Files) (ops : List Op) (op : Op)
    → effects files (ops ++ op ∷ []) ≡ effect (effects files ops) op
unfolding effects
effects-snoc files [] op = refl
effects-snoc files (o ∷ ops) op = effects-snoc (effect files o) ops op

module _ (x : Formats) where
  module _ (l : IsLawful x) where
    -- The temporary files of a commit, and what is there once its manifest has its name.
    pub spare-temp :
        (t gen : Text) (n : ℕ)
        → length gen ≡ 32
        → length t ≢ 34
        → length t ≢ 38
        → length t ≢ 43
        → spare (manifest_name n) gen t ≡ true
    spare-temp t gen n size a b d = ground (
      arith,
      other_length t (manifest_name n)
          (λ e. a (e ∙ length-manifest (manifest_name n) (manifest_name-is_manifest n))),
      other_length t (index_final gen) (λ e. b (omega (arith, e, size, length-index_final gen))),
      other_length t (state_final gen) (λ e. d (omega (arith, e, size, length-state_final gen))),
    )

    pub index_temp-spare :
        (gen : Text) (n : ℕ) → length gen ≡ 32 → spare (manifest_name n) gen (index_temp gen) ≡ true
    index_temp-spare gen n size =
        let e = length-index_temp gen in
        spare-temp (index_temp gen) gen n size (λ a. omega (arith, a, e, size))
          (λ a. omega (arith, a, e, size)) (λ a. omega (arith, a, e, size))

    pub state_temp-spare :
        (gen : Text) (n : ℕ) → length gen ≡ 32 → spare (manifest_name n) gen (state_temp gen) ≡ true
    state_temp-spare gen n size =
        let e = length-state_temp gen in
        spare-temp (state_temp gen) gen n size (λ a. omega (arith, a, e, size))
          (λ a. omega (arith, a, e, size)) (λ a. omega (arith, a, e, size))

    pub manifest_temp-spare :
        (gen uuid : Text) (n : ℕ)
        → length gen ≡ 32
        → length uuid ≡ 32
        → spare (manifest_name n) gen (manifest_temp uuid) ≡ true
    manifest_temp-spare gen uuid n size named =
        let e = length-manifest_temp uuid in
        spare-temp (manifest_temp uuid) gen n size (λ a. omega (arith, a, e, named))
          (λ a. omega (arith, a, e, named)) (λ a. omega (arith, a, e, named))

    pub committed_files-Current :
        (files : Files) (gen uuid index state : Text) (n : ℕ)
        → length gen ≡ 32
        → length uuid ≡ 32
        → Current x
            (effects files (commit_ops x n gen uuid index state))
            (manifest_name n)
            (snapshot x index state n gen)
        → Current x
            (committed_files x n gen uuid index state files)
            (manifest_name n)
            (snapshot x index state n gen)
    unfolding committed_files effects effect
    committed_files-Current files gen uuid index state n size named c =
        del-Current x _ (manifest_name n) (snapshot x index state n gen) (manifest_temp uuid) c
          (manifest_temp-spare gen uuid n size named)

    pub committed-Current :
        (files : Files) (gen uuid index state : Text) (n : ℕ)
        → IsFresh x files gen
        → is_hex_of 32 gen ≡ true
        → length uuid ≡ 32
        → next_sequence x files ≡ ok n
        → Current x
            (effects files (commit_ops x n gen uuid index state))
            (manifest_name n)
            (snapshot x index state n gen)
    unfolding staged bytes after
    committed-Current files gen uuid index state n fresh hex named next =
        let (low, high) = next-fits x files n next in
        subst (λ d. Current x d (manifest_name n) (snapshot x index state n gen))
          (sym (
            ap (effects files) (commit_ops-eq x l gen uuid index state n hex named low high)
            ∙ effects-snoc files _ _))
          (Current-new x l gen uuid index state n hex named low high files fresh next)
