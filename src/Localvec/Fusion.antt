-- ===== src/Localvec/Fusion.antt =====
-- `reciprocal_rank_fusion` of edgeproc/localvec/fusion.py. Floats and what it computes with them are
-- the record `Floats`; a dict keeps its keys in the order of their first insertion.
use edge_proc.Prelude.{ℕ, ◌+◌, Bool, not, List, [], ◌∷◌, Text, ◌==◌, text_eq, if◌then◌else◌}
use edge_proc.Keyring.Sorted.{sort_by}

pub record Floats : Type 1 where
  pub Float : Type 0
  pub zero_float : Float
  pub one_float : Float
  pub add : Float → Float → Float
  pub one_over : ℕ → Float
  pub lt : Float → Float → Bool

module _ (f : Floats) where
  -- `rrf_scores[doc_id] = rrf_scores.get(doc_id, 0.0) + gain`
  unfoldable pub credit : Text → f.Float → List (Text × f.Float) → List (Text × f.Float)
  credit doc_id gain [] = (doc_id, f.add f.zero_float gain) ∷ []
  credit doc_id gain ((other, score) ∷ rest) =
      let others = credit doc_id gain rest in
      if other == doc_id then (other, f.add score gain) ∷ rest else (other, score) ∷ others

  -- One of the two loops, from rank `rank` on.
  unfoldable pub credit_ranks :
      ℕ → ℕ → List (Text × f.Float) → List (Text × f.Float) → List (Text × f.Float)
  credit_ranks k rank [] scores = scores
  credit_ranks k rank ((doc_id, score) ∷ rest) scores =
      credit_ranks k (rank + 1) rest (credit doc_id (f.one_over (k + rank + 1)) scores)

  -- `sorted(…, key=…, reverse=True)`, which keeps the order of equal scores
  unfoldable pub reciprocal_rank_fusion :
      List (Text × f.Float) → List (Text × f.Float) → ℕ → List (Text × f.Float)
  reciprocal_rank_fusion keyword_results vector_results k =
      sort_by (λ a b. not (f.lt a.1 b.1))
        (credit_ranks k 0 vector_results (credit_ranks k 0 keyword_results []))
