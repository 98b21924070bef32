-- ===== src/Localvec/Snapshots/Crash.antt =====
-- A crash in a commit leaves the old snapshot or the new one.
use edge_proc.Prelude.{
  ℕ, zero, suc, ◌≡◌, ◌∙◌, ◌⊎◌, refl, sym, subst, Option-cases, inl, inr, false, Option, none, some,
  List, [], ◌∷◌, ◌++◌, Text, ◌==◌, nat_eq, text_eq, arith,
}
use edge_proc.Prelude.Dicts.{get, put, del, get-put, get-del}
use edge_proc.Disk.{Node, file}
use edge_proc.Localvec.Snapshots.{Files, Formats, committed}
use edge_proc.Localvec.Snapshots.Commit.{Op, written, renamed, unlinked, effect, effects}
use edge_proc.Localvec.Snapshots.Own.{Own}
use edge_proc.Localvec.Snapshots.Stable.{IsFresh, apart-committed, apart-IsFresh}

-- What is there after `k` requests and a part of the next one, if it has begun to write.
unfoldable pub crashed : Files → List Op → ℕ → Option Text → Files
crashed files [] k part = files
crashed files (op ∷ ops) (suc k) part = crashed (effect files op) ops k part
crashed files (written name bytes ∷ ops) zero none = files
crashed files (written name bytes ∷ ops) zero (some part) = put files name (file part)
crashed files (renamed from to ∷ ops) zero part = files
crashed files (unlinked name ∷ ops) zero part = files

abbrev pub OwnOp : Text → Op → Type 0
OwnOp gen (written name bytes) = Own gen name
OwnOp gen (renamed from to) = Own gen from × Own gen to
OwnOp gen (unlinked name) = Own gen name

abbrev pub OwnOps : Text → List Op → Type 0
OwnOps gen [] = Unit
OwnOps gen (op ∷ ops) = OwnOp gen op × OwnOps gen ops

-- A rename moves what the name holds.
pub moved :
    (files : Files) (from to : Text) (n : Node)
    → get files from ≡ some n
    → effect files (renamed from to) ≡ put (del files from) to n
unfolding effect
moved files from to n h = rw (effect, h) refl

still :
    (files : Files) (from to : Text)
    → get files from ≡ none
    → effect files (renamed from to) ≡ files
unfolding effect
still files from to h = rw (effect, h) refl

module _ (x : Formats) where
  -- The same snapshots are committed, and the generation is still new.
  pub record Kept (gen : Text) (files after : Files) : Type 0 where
    pub unchanged : (y : Text) → committed x after y ≡ committed x files y
    pub fresh : IsFresh x after gen

  same-Kept : (gen : Text) (files : Files) → IsFresh x files gen → Kept gen files files
  same-Kept gen files fresh = record { unchanged = λ y. refl; fresh = fresh }

  pub put-Kept :
      (gen t : Text) (n : Node) (files : Files)
      → Own gen t
      → IsFresh x files gen
      → Kept gen files (put files t n)
  put-Kept gen t n files own fresh =
      let same : (q : Text) → (t == q) ≡ false → get (put files t n) q ≡ get files q =
        λ q h. ground (arith, get-put files t q n, h) in
      record {
        unchanged = λ y. apart-committed x files (put files t n) gen t own y fresh same;
        fresh = apart-IsFresh x files (put files t n) gen t own fresh same;
      }

  pub del-Kept :
      (gen t : Text) (files : Files)
      → Own gen t
      → IsFresh x files gen
      → Kept gen files (del files t)
  del-Kept gen t files own fresh =
      let same : (q : Text) → (t == q) ≡ false → get (del files t) q ≡ get files q =
        λ q h. ground (arith, get-del files t q, h) in
      record {
        unchanged = λ y. apart-committed x files (del files t) gen t own y fresh same;
        fresh = apart-IsFresh x files (del files t) gen t own fresh same;
      }

  pub Kept-trans : {gen : Text} {a b c : Files} → Kept gen a b → Kept gen b c → Kept gen a c
  Kept-trans k j = record { unchanged = λ y. j.unchanged y ∙ k.unchanged y; fresh = j.fresh }

  effect-Kept :
      (gen : Text) (files : Files) (op : Op)
      → OwnOp gen op
      → IsFresh x files gen
      → Kept gen files (effect files op)
  unfolding effect
  effect-Kept gen files (written name bytes) own fresh =
      put-Kept gen name (file bytes) files own fresh
  effect-Kept gen files (renamed from to) (own, own') fresh = elim (Option-cases (get files from)) [
    | inl none' ↦
        subst (Kept gen files) (sym (still files from to none')) (same-Kept gen files fresh)
    | inr (n, some') ↦
        let k = del-Kept gen from files own fresh in
        subst (Kept gen files) (sym (moved files from to n some'))
          (Kept-trans k (put-Kept gen to n (del files from) own' k.fresh))
  ]
  effect-Kept gen files (unlinked name) own fresh = del-Kept gen name files own fresh

  pub effects-Kept :
      (gen : Text) (files : Files) (ops : List Op)
      → OwnOps gen ops
      → IsFresh x files gen
      → Kept gen files (effects files ops)
  unfolding effects
  effects-Kept gen files [] own fresh = record { unchanged = λ y. refl; fresh = fresh }
  effects-Kept gen files (op ∷ ops) (own, owns) fresh =
      let k = effect-Kept gen files op own fresh in
      Kept-trans k (effects-Kept gen (effect files op) ops owns k.fresh)

  pub crashed-Kept :
      (gen : Text) (files : Files) (ops : List Op) (from to : Text) (k : ℕ) (part : Option Text)
      → OwnOps gen ops
      → IsFresh x files gen
      → Kept gen files (crashed files (ops ++ renamed from to ∷ []) k part)
        ⊎ (crashed files (ops ++ renamed from to ∷ []) k part
            ≡ effect (effects files ops) (renamed from to))
  unfolding crashed effects
  crashed-Kept gen files [] from to zero part own fresh =
      inl (record { unchanged = λ y. refl; fresh = fresh })
  crashed-Kept gen files [] from to (suc k) part own fresh = inr refl
  crashed-Kept gen files (op ∷ ops) from to (suc k) part (own, owns) fresh =
      let step = effect-Kept gen files op own fresh in
      elim (crashed-Kept gen (effect files op) ops from to k part owns step.fresh) [
        | inl kept ↦ inl (Kept-trans step kept)
        | inr e ↦ inr e
      ]
  crashed-Kept gen files (written name b ∷ ops) from to zero none owns fresh =
      inl (record { unchanged = λ y. refl; fresh = fresh })
  crashed-Kept gen files (written name b ∷ ops) from to zero (some part) (own, owns) fresh =
      inl (put-Kept gen name (file part) files own fresh)
  crashed-Kept gen files (renamed a b ∷ ops) from to zero part owns fresh =
      inl (record { unchanged = λ y. refl; fresh = fresh })
  crashed-Kept gen files (unlinked name ∷ ops) from to zero part owns fresh =
      inl (record { unchanged = λ y. refl; fresh = fresh })
