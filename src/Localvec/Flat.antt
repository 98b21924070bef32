-- ===== src/Localvec/Flat.antt =====
-- `faiss.IndexFlatIP`: rows of vectors that a query ranks by inner product. FAISS is a third-party
-- library, so its index is a parameter; the laws are what its documentation says of a flat index.
use edge_proc.Prelude.{
  ℕ, ◌+◌, ◌≡◌, List, [], ◌∷◌, ◌++◌, Option, none, some, length, take, get_elem?, ltb, ◌==◌, nat_eq,
  if◌then◌else◌,
}

pub record Flat : Type 1 where
  pub Vector : Type 0
  pub Score : Type 0
  pub Index : Type 0
  pub empty : ℕ → Index
  pub add : Index → List Vector → Index
  pub ntotal : Index → ℕ
  pub dimension : Index → ℕ
  pub reconstruct : Index → ℕ → Option Vector
  -- `none` is the `AssertionError` of FAISS's Python layer.
  pub search : Index → Vector → ℕ → Option (List (Score × ℕ))
  -- `np.asarray(values, dtype=np.float32)` and `1.0 - score`, of floats
  pub Float : Type 0
  pub as_vector : List Float → Vector
  pub distance : Score → Float

abbrev pub count_row : ℕ → List ℕ → ℕ
count_row r [] = 0
count_row r (i ∷ is) = (if i == r then 1 else 0) + count_row r is

abbrev pub row_numbers : {S : Type 0} → List (S × ℕ) → List ℕ
row_numbers [] = []
row_numbers ((score, row) ∷ hits) = row ∷ row_numbers hits

-- A flat index is the list of the rows that were added. A query ranks every row, each once, and a
-- search for `n` gives the first `n` of the ranking; a query of another dimension is refused.
pub record IsFlat (f : Flat) : Type 0 where
  pub rows : f.Index → List f.Vector
  pub ranking : f.Index → f.Vector → List (f.Score × ℕ)
  pub rows-empty : (d : ℕ) → rows (f.empty d) ≡ []
  pub rows-add : (i : f.Index) (vs : List f.Vector) → rows (f.add i vs) ≡ rows i ++ vs
  pub ntotal-rows : (i : f.Index) → f.ntotal i ≡ length (rows i)
  pub reconstruct-rows : (i : f.Index) (r : ℕ) → f.reconstruct i r ≡ get_elem? (rows i) r
  pub width : f.Vector → ℕ
  pub width-as_vector : (xs : List f.Float) → width (f.as_vector xs) ≡ length xs
  pub search-ranking :
      (i : f.Index) (q : f.Vector) (n : ℕ)
      → f.search i q n ≡ (if width q == f.dimension i then some (take n (ranking i q)) else none)
  pub length-ranking : (i : f.Index) (q : f.Vector) → length (ranking i q) ≡ length (rows i)
  pub ranks_once :
      (i : f.Index) (q : f.Vector) (r : ℕ)
      → count_row r (row_numbers (ranking i q)) ≡ (if ltb r (length (rows i)) then 1 else 0)
  pub dimension-empty : (d : ℕ) → f.dimension (f.empty d) ≡ d
  pub dimension-add : (i : f.Index) (vs : List f.Vector) → f.dimension (f.add i vs) ≡ f.dimension i
