-- ===== src/Tests/Vectors.antt =====
-- A flat index of numbers, and an index over it.
use edge_proc.Prelude.{
  ℕ, suc, ◌+◌, ◌*◌, ◌-◌, ◌≡◌, ◌∙◌, refl, sym, ap, Bool, true, false, ◌&&◌, none, some, List, [],
  ◌∷◌, ◌++◌, Text, length, take, get_elem?, leb, ltb, ◌==◌, nat_eq, text_eq, option_eq,
  Text-discrete, ℕ_discrete, if◌then◌else◌, arith,
}
use edge_proc.Prelude.Codes.{codes}
use edge_proc.Prelude.Int.{pos}
use edge_proc.Exec.{ok}
use edge_proc.Manifest.{Scalar, str}
use edge_proc.Localvec.Flat.{Flat, IsFlat, count_row, row_numbers}
use edge_proc.Localvec.Index.{
  IndexConfig, VectorEmbedding, State, supported_metric, tuned_graph_knobs, honoured, fresh_state,
  validate_new, added, add_one, insert, delete, delete_one, forget, search_sync, search, passes,
  collect, candidate,
}
use edge_proc.Localvec.Index.Valid.{IsValid, fresh-IsValid}
use edge_proc.Localvec.Index.Spec.{
  Call, inserting, deleting, perform, promise, session, view, stored_view,
}
use edge_proc.Localvec.Index.Refine.{session-refines, session-IsValid}
use edge_proc.Localvec.Index.Search.{hits}
use edge_proc.Localvec.Index.Found.{search-nearest}
use edge_proc.Localvec.Index.Persist.{persisted_state, restore_persisted}
use edge_proc.Localvec.Index.Persist.Load.{restore_persisted-IsValid, restore-persisted_state}

abbrev dot : List ℕ → List ℕ → ℕ
dot [] w = 0
dot (a ∷ v) [] = 0
dot (a ∷ v) (b ∷ w) = a * b + dot v w

abbrev place : ℕ × ℕ → List (ℕ × ℕ) → List (ℕ × ℕ)
place h [] = h ∷ []
place h (k ∷ ks) = let rest = place h ks in if ltb h.0 k.0 then k ∷ rest else h ∷ k ∷ ks

abbrev rank : List ℕ → ℕ → List (List ℕ) → List (ℕ × ℕ)
rank q row [] = []
rank q row (v ∷ vs) = place (dot q v, row) (rank q (suc row) vs)

count-place :
    (r : ℕ) (h : ℕ × ℕ) (ks : List (ℕ × ℕ))
    → count_row r (row_numbers (place h ks))
      ≡ (if h.1 == r then 1 else 0) + count_row r (row_numbers ks)
count-place r h [] = refl
count-place r h (k ∷ ks) = ground (arith, count-place r h ks)

length-place : (h : ℕ × ℕ) (ks : List (ℕ × ℕ)) → length (place h ks) ≡ suc (length ks)
length-place h [] = refl
length-place h (k ∷ ks) = ground (arith, length-place h ks)

count-rank :
    (q : List ℕ) (row r : ℕ) (vs : List (List ℕ))
    → count_row r (row_numbers (rank q row vs))
      ≡ (if leb row r && ltb r (row + length vs) then 1 else 0)
count-rank q row r [] = ground arith
count-rank q row r (v ∷ vs) =
    ground (arith, count-place r (dot q v, row) (rank q (suc row) vs), count-rank q (suc row) r vs)

length-rank : (q : List ℕ) (row : ℕ) (vs : List (List ℕ)) → length (rank q row vs) ≡ length vs
length-rank q row [] = refl
length-rank q row (v ∷ vs) =
    omega (arith, length-place (dot q v, row) (rank q (suc row) vs), length-rank q (suc row) vs)

abbrev pub toy : Flat
toy = record {
  Vector = List ℕ;
  Score = ℕ;
  Index = ℕ × List (List ℕ);
  empty = λ d. (d, []);
  add = λ i vs. (i.0, i.1 ++ vs);
  ntotal = λ i. length i.1;
  dimension = λ i. i.0;
  reconstruct = λ i r. get_elem? i.1 r;
  search = λ i q n. if length q == i.0 then some (take n (rank q 0 i.1)) else none;
  Float = ℕ;
  as_vector = λ v. v;
  distance = λ s. 100 - s;
}

pub toy-IsFlat : IsFlat toy
toy-IsFlat = record {
  rows = λ i. i.1;
  ranking = λ i q. rank q 0 i.1;
  rows-empty = λ d. refl;
  rows-add = λ i vs. refl;
  ntotal-rows = λ i. refl;
  reconstruct-rows = λ i r. refl;
  width = length;
  width-as_vector = λ xs. refl;
  search-ranking = λ i q n. refl;
  length-ranking = λ i q. length-rank q 0 i.1;
  ranks_once = λ i q r. ground (arith, count-rank q 0 r i.1);
  dimension-empty = λ d. refl;
  dimension-add = λ i vs. refl;
}

abbrev pub same : Scalar → Scalar → Bool
same a b = true

abbrev pub config : IndexConfig
config = record {
  dimension = 2;
  distance_metric = supported_metric;
  m = 16;
  ef_construction = 200;
  ef_search = 50;
}

abbrev embedding : Text → List ℕ → VectorEmbedding ℕ
embedding id v = record { entity_id = id; embedding = v; metadata = [] }

abbrev calls : List (Call toy)
calls =
    inserting (embedding (codes "a") (1 ∷ 0 ∷ []) ∷ embedding (codes "b") (0 ∷ 1 ∷ []) ∷ [])
    ∷ deleting none (codes "a" ∷ [])
    ∷ inserting (embedding (codes "a") (2 ∷ 2 ∷ []) ∷ [])
    ∷ []

abbrev start : State toy
start = fresh_state toy same config config

unfoldable pub left : State toy
unfolding session
left = (session toy same config (perform toy same config) calls start).1

pub left-IsValid : IsValid toy toy-IsFlat left
unfolding left
left-IsValid =
    session-IsValid toy toy-IsFlat same config calls start
      (fresh-IsValid toy toy-IsFlat same config config)

session-refines_example :
    let run = session toy same config (perform toy same config) calls start in
    (run.0, stored_view toy same config run.1)
    ≡ session toy same config (promise toy same config) calls (stored_view toy same config start)
session-refines_example = session-refines toy toy-IsFlat same config config calls

left-config : left.config ≡ config
unfolding left session perform insert delete add_one delete_one validate_new added forget passes
    Text-discrete ℕ_discrete
left-config = refl

left-dimension : 2 ≡ left.config.dimension
left-dimension = ap (λ (c : IndexConfig). c.dimension) (sym left-config)

search-nearest_example :
    search toy same config left (1 ∷ 1 ∷ []) (pos 1) none none
    ≡ ok (take 1 (hits toy same config left none (rank (1 ∷ 1 ∷ []) 0 left.faiss.1)))
unfolding left toy-IsFlat
search-nearest_example =
    search-nearest toy toy-IsFlat same config left (1 ∷ 1 ∷ []) (pos 1) left-IsValid left-dimension

honours : honoured config config ≡ ok config
unfolding honoured tuned_graph_knobs Text-discrete ℕ_discrete
honours = refl

pub left-honoured : honoured config left.config ≡ ok left.config
left-honoured = ap (honoured config) left-config ∙ honours ∙ ap (λ c. ok c) (sym left-config)

loaded :
    (t : State toy) × (restore_persisted toy same config left.faiss
        (persisted_state toy same config left)
      ≡ ok t)
    × IsValid toy toy-IsFlat t
    × (view toy same config t ≡ view toy same config left)
loaded = restore-persisted_state toy toy-IsFlat same config left left-IsValid left-honoured

restore_persisted-IsValid_example : IsValid toy toy-IsFlat loaded.0
unfolding persisted_state
restore_persisted-IsValid_example =
    restore_persisted-IsValid toy toy-IsFlat same config left.faiss
      (persisted_state toy same config left) loaded.0 left-IsValid.described_once loaded.1

-- Two entries of different kinds, the first one nearer to the query.
abbrev kind_is : Scalar → Scalar → Bool
kind_is (str a) (str b) = a == b
kind_is _ _ = false

abbrev of_kind : Text → Text → List ℕ → VectorEmbedding ℕ
of_kind id kind v = record {
  entity_id = id;
  embedding = v;
  metadata = (codes "kind", str kind) ∷ [];
}

two : State toy
two =
    (insert toy kind_is config
      (of_kind (codes "a") (codes "x") (2 ∷ 0 ∷ [])
        ∷ of_kind (codes "b") (codes "y") (1 ∷ 0 ∷ [])
        ∷ [])
      (fresh_state toy kind_is config config)).1

-- A search for one entry of the second kind finds none, though there is one: nothing is dead, so
-- only one row is fetched, and the filter drops it.
filtered_search :
    search toy kind_is config two
      (1 ∷ 0 ∷ [])
      (pos 1)
      (some ((codes "kind", str (codes "y")) ∷ []))
      none
    ≡ ok []
unfolding two insert add_one validate_new added search search_sync collect candidate passes
    option_eq Text-discrete ℕ_discrete
filtered_search = refl

-- A search for two finds it.
filtered_search_wider :
    search toy kind_is config two
      (1 ∷ 0 ∷ [])
      (pos 2)
      (some ((codes "kind", str (codes "y")) ∷ []))
      none
    ≡ ok ((codes "b", 99) ∷ [])
unfolding two insert add_one validate_new added search search_sync collect candidate passes
    option_eq Text-discrete ℕ_discrete
filtered_search_wider = refl
