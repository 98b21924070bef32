-- ===== src/Tests/Saved.antt =====
-- An index that is saved in an empty directory, and loaded again.
use edge_proc.Prelude.{
  ℕ, zero, suc, true, false, none, some, List, [], ◌∷◌, Text, length, drop, get_or, ◌==◌, nat_eq,
  if◌then◌else◌,
}
use edge_proc.Prelude.Codes.{codes}
use edge_proc.Prelude.Int.{pos, negsuc}
use edge_proc.Manifest.{Scalar, str, int, float, bool, null}
use edge_proc.Localvec.Index.Persist.{PersistedState}
use edge_proc.Localvec.Snapshots.{manifest_name}
use edge_proc.Localvec.Snapshots.Current.{latest-Current}
use edge_proc.Localvec.Snapshots.Fresh.{snapshot}
use edge_proc.Localvec.Snapshots.Looked.{Whole, latest-Whole}
use edge_proc.Localvec.Saved.{Codecs, Folder}
use edge_proc.Tests.Vectors as Vectors
use edge_proc.Tests.Snapshots as Snapshots
use edge_proc.Tests.World.{parts_text, text_parts}

-- Codes of lists and pairs
abbrev each : {A B : Type 0} → (A → B) → List A → List B
each g [] = []
each g (a ∷ xs) = g a ∷ each g xs

abbrev list_text : {A : Type 0} → (A → Text) → List A → Text
list_text enc xs = length xs ∷ parts_text (each enc xs)

abbrev text_list : {A : Type 0} → (Text → A) → Text → List A
text_list dec [] = []
text_list dec (n ∷ t) = each dec (text_parts n t)

abbrev nth : List Text → ℕ → Text
nth [] n = []
nth (t ∷ ts) zero = t
nth (t ∷ ts) (suc n) = nth ts n

abbrev scalar_text : Scalar → Text
scalar_text (str t) = 0 ∷ t
scalar_text (int (pos n)) = 1 ∷ n ∷ []
scalar_text (int (negsuc n)) = 2 ∷ n ∷ []
scalar_text (float t) = 3 ∷ t
scalar_text (bool true) = 4 ∷ []
scalar_text (bool false) = 5 ∷ []
scalar_text null = 6 ∷ []

abbrev text_scalar : Text → Scalar
text_scalar [] = null
text_scalar (c ∷ t) =
    if c == 0
    then str t
    else if c == 1
    then int (pos (get_or t 0 0))
    else if c == 2
    then int (negsuc (get_or t 0 0))
    else if c == 3
    then float t
    else if c == 4
    then bool true
    else if c == 5
    then bool false
    else null

abbrev pair_text : {A B : Type 0} → (A → Text) → (B → Text) → A × B → Text
pair_text e g p = parts_text (e p.0 ∷ g p.1 ∷ [])

abbrev text_pair : {A B : Type 0} → (Text → A) → (Text → B) → Text → A × B
text_pair d h t = (d (nth (text_parts 2 t) 0), h (nth (text_parts 2 t) 1))

abbrev meta_text : List (Text × Scalar) → Text
meta_text = list_text (pair_text (λ t. t) scalar_text)

abbrev text_meta : Text → List (Text × Scalar)
text_meta = text_list (text_pair (λ t. t) text_scalar)

abbrev state_parts : PersistedState → List Text
state_parts p =
    (p.config.dimension ∷ p.config.m ∷ p.config.ef_construction ∷ p.config.ef_search ∷ [])
    ∷ p.config.distance_metric
    ∷ list_text (λ t. t) p.faiss_ids
    ∷ list_text (λ t. t) p.tombstoned
    ∷ list_text (pair_text (λ t. t) meta_text) p.meta
    ∷ []

abbrev state_of : List Text → PersistedState
state_of ts = record {
  config = record {
    dimension = get_or (nth ts 0) 0 0;
    distance_metric = nth ts 1;
    m = get_or (nth ts 0) 1 0;
    ef_construction = get_or (nth ts 0) 2 0;
    ef_search = get_or (nth ts 0) 3 0;
  };
  faiss_ids = text_list (λ t. t) (nth ts 2);
  tombstoned = text_list (λ t. t) (nth ts 3);
  meta = text_list (text_pair (λ t. t) text_meta) (nth ts 4);
}

abbrev toy : Codecs Vectors.toy
toy = record {
  formats = Snapshots.toy;
  write_index = λ i. i.0 ∷ list_text (λ t. t) i.1;
  read_index = λ t. some (get_or t 0 0, text_list (λ t. t) (drop 1 t));
  dump_state = λ p. parts_text (state_parts p);
  load_state = λ t. some (state_of (text_parts 5 t));
}

abbrev empty : Folder
empty = record { root = []; snapshots = none }

latest-Whole_example :
    Whole Snapshots.toy
      (λ t. Snapshots.left)
      (snapshot Snapshots.toy (codes "rows") (codes "ids") 1 Snapshots.first)
latest-Whole_example =
    latest-Whole Snapshots.toy (λ t. Snapshots.left)
      (snapshot Snapshots.toy (codes "rows") (codes "ids") 1 Snapshots.first)
      (latest-Current Snapshots.toy Snapshots.left (manifest_name 1) _ Snapshots.left-Current)
