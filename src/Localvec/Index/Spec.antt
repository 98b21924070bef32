-- ===== src/Localvec/Index/Spec.antt =====
-- What an index is for its client: a map from ids to vectors and metadata, of a fixed dimension.
use edge_proc.Prelude.{
  ℕ, Bool, true, false, ◌&&◌, not, get_elem?, option_eq, Option, none, some, List, [], ◌∷◌, Text,
  length, ◌==◌, nat_eq, text_eq, if◌then◌else◌,
}
use edge_proc.Prelude.Dicts.{get}
use edge_proc.Prelude.Codes.{codes}
use edge_proc.Errors.{value, unsupported}
use edge_proc.Exec.{Result, ok, err, Exec, pure, ◌>>◌}
use edge_proc.Manifest.{Scalar}
use edge_proc.Localvec.Flat.{Flat}
use edge_proc.Localvec.Index.{
  IndexConfig, Metadata, VectorEmbedding, State, passes, insert, delete, rebuild,
}

-- The abstract index
pub record Held (f : Flat) : Type 0 where
  pub size : ℕ
  pub entry : Text → Option (f.Vector × Metadata)

-- A call of a client
pub data Call (f : Flat) : Type 0 where
  inserting : List (VectorEmbedding f.Float) → Call f
  deleting : Option Metadata → List Text → Call f
  rebuilding : Option IndexConfig → Call f

module _ (f : Flat) (same : Scalar → Scalar → Bool) (default : IndexConfig) where
  abbrev pub paired : Option f.Vector → Option Metadata → Option (f.Vector × Metadata)
  paired none m = none
  paired (some v) none = none
  paired (some v) (some m) = some (v, m)

  unfoldable pub view : State f → Held f
  view s = record { size = s.config.dimension; entry = λ q. paired (get s.live q) (get s.meta q) }

  -- What FAISS holds of an id, at the row that the index has for it, if that row is the id's.
  unfoldable pub stored : State f → Text → Option (f.Vector × Metadata)
  stored s q = elim (get s.row_of q) [
    | none ↦ none
    | some row ↦
        if get_elem? s.faiss_ids row == some q
        then paired (f.reconstruct s.faiss row) (get s.meta q)
        else none
  ]

  unfoldable pub stored_view : State f → Held f
  stored_view s = record { size = f.dimension s.faiss; entry = stored s }

  abbrev pub is_some : {A : Type 0} → Option A → Bool
  is_some none = false
  is_some (some a) = true

  abbrev pub set : Held f → Text → Option (f.Vector × Metadata) → Held f
  set h id e = record { size = h.size; entry = λ q. if id == q then e else h.entry q }

  unfoldable pub hold_one : VectorEmbedding f.Float → Exec (Held f) (Unit {0})
  hold_one e h =
      if not (is_some (h.entry e.entity_id)) && length e.embedding == h.size
      then (ok tt, set h e.entity_id (some (f.as_vector e.embedding, e.metadata)))
      else (err value, h)

  unfoldable pub hold : List (VectorEmbedding f.Float) → Exec (Held f) (Unit {0})
  hold [] = pure tt
  hold (e ∷ es) = do hold_one e; hold es

  abbrev pub drop_held :
      Option Metadata → Text → Option (f.Vector × Metadata) → Exec (Held f) (Unit {0})
  drop_held filters id none h = (ok tt, h)
  drop_held filters id (some held) h =
      (ok tt, if passes same held.1 filters then set h id none else h)

  unfoldable pub drop_one : Option Metadata → Text → Exec (Held f) (Unit {0})
  drop_one filters id h = drop_held filters id (h.entry id) h

  unfoldable pub drop : Option Metadata → List Text → Exec (Held f) (Unit {0})
  drop filters [] = pure tt
  drop filters (id ∷ ids) = do drop_one filters id; drop filters ids

  -- The cosine metric, and no knob of a graph that differs from its default
  abbrev pub is_plain : IndexConfig → Bool
  is_plain config =
      config.distance_metric == codes "cosine"
      && config.m == default.m
      && config.ef_construction == default.ef_construction
      && config.ef_search == default.ef_search

  unfoldable pub keep_all : Option IndexConfig → Exec (Held f) (Unit {0})
  keep_all none h = (ok tt, h)
  keep_all (some config) h = if is_plain config then (ok tt, h) else (err unsupported, h)

  unfoldable pub perform : Call f → Exec (State f) (Unit {0})
  perform (inserting es) = insert f same default es
  perform (deleting filters ids) = delete f same default filters ids
  perform (rebuilding config) = rebuild f same default config

  unfoldable pub promise : Call f → Exec (Held f) (Unit {0})
  promise (inserting es) = hold es
  promise (deleting filters ids) = drop filters ids
  promise (rebuilding config) = keep_all config

  -- The results of a session of calls, an error not ending it, and the state it leaves.
  unfoldable pub session :
      {S : Type 0} → (Call f → Exec S (Unit {0})) → List (Call f) → S → List (Result (Unit {0})) × S
  session run [] s = ([], s)
  session run (c ∷ cs) s = let (r, s') = run c s in let (rs, t) = session run cs s' in (r ∷ rs, t)
