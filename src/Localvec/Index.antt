-- ===== src/Localvec/Index.antt =====
-- `FaissVectorIndex` of edgeproc/localvec/faiss_index.py. Its `RLock` makes each method one step on
-- the state; `asyncio.to_thread` only moves the step to another thread.
pub mod Compact
pub mod Persist
pub mod Refine
pub mod Found
pub mod Search
pub mod Spec
pub mod Valid
use edge_proc.Prelude.{
  ℕ, zero, suc, ◌+◌, ◌-◌, ◌*◌, min, Bool, true, false, ◌&&◌, ◌||◌, not, Option, none, some, List,
  [], ◌∷◌, ◌++◌, Text, length, keep_if, all, contains, get_elem?, ltb, leb, ◌==◌, nat_eq, text_eq,
  option_eq, if◌then◌else◌,
}
use edge_proc.Prelude.Codes.{codes}
use edge_proc.Prelude.Int.{ℤ, positive}
use edge_proc.Prelude.Dicts.{get, has, keys, put, del}
use edge_proc.Errors.{Error, value, unsupported, key, assertion}
use edge_proc.Exec.{Result, ok, err, Exec, pure, modify, refuse_if, or_raise, ◌>>=◌, ◌>>◌}
use edge_proc.Manifest.{Scalar, null}
use edge_proc.Localvec.Flat.{Flat}

-- `IndexConfig` and its defaults are types of the package `edgeproc_core`: the fields that are read.
pub record IndexConfig : Type 0 where
  pub dimension : ℕ
  pub distance_metric : Text
  pub m : ℕ
  pub ef_construction : ℕ
  pub ef_search : ℕ

abbrev pub Metadata : Type 0
Metadata = List (Text × Scalar)

-- `_SUPPORTED_METRIC`
abbrev pub supported_metric : Text
supported_metric = codes "cosine"

-- `_tuned_graph_knobs`, and whether it finds one
unfoldable pub tuned_graph_knobs : IndexConfig → IndexConfig → List Text
tuned_graph_knobs default config =
    (if config.m == default.m then [] else codes "m" ∷ [])
    ++ (if config.ef_construction == default.ef_construction
        then []
        else codes "ef_construction" ∷ [])
    ++ (if config.ef_search == default.ef_search then [] else codes "ef_search" ∷ [])

-- `_honoured`
unfoldable pub honoured : IndexConfig → IndexConfig → Result IndexConfig
honoured default config =
    if not (config.distance_metric == supported_metric)
    then err unsupported
    else if not (length (tuned_graph_knobs default config) == 0)
    then err unsupported
    else ok config

-- A `VectorEmbedding`
pub record VectorEmbedding (F : Type 0) : Type 0 where
  pub entity_id : Text
  pub embedding : List F
  pub metadata : Metadata

module _ (same_scalar : Scalar → Scalar → Bool) where
  -- `meta.get(key) == value`; a missing key is None.
  abbrev pub field_is : Option Scalar → Scalar → Bool
  field_is none wanted = same_scalar null wanted
  field_is (some held) wanted = same_scalar held wanted

  -- `_passes`
  unfoldable pub passes : Metadata → Option Metadata → Bool
  passes meta none = true
  passes meta (some filters) = all (λ kv. field_is (get meta kv.0) kv.1) filters

pub record State (f : Flat) : Type 0 where
  pub config : IndexConfig
  pub faiss : f.Index
  pub faiss_ids : List Text
  pub live : List (Text × f.Vector)
  pub row_of : List (Text × ℕ)
  pub meta : List (Text × Metadata)
  pub tombstoned : List Text

-- `set.add` and `set.discard`
abbrev pub set_add : List Text → Text → List Text
set_add xs x = if contains xs x then xs else x ∷ xs

abbrev pub set_discard : List Text → Text → List Text
set_discard xs x = keep_if (λ y. not (y == x)) xs

-- `{entity_id: row for row, entity_id in enumerate(ids)}`, from row `row` on
unfoldable pub enumerate_rows : ℕ → List Text → List (Text × ℕ) → List (Text × ℕ)
enumerate_rows row [] rows = rows
enumerate_rows row (id ∷ ids) rows = enumerate_rows (suc row) ids (put rows id row)

abbrev pub values : {A : Type 0} → List (Text × A) → List A
values [] = []
values ((k, a) ∷ d) = a ∷ values d

module _ (f : Flat) (same_scalar : Scalar → Scalar → Bool) (default : IndexConfig) where
  abbrev pub fresh_state : IndexConfig → State f
  fresh_state config = record {
    config = config;
    faiss = f.empty config.dimension;
    faiss_ids = [];
    live = [];
    row_of = [];
    meta = [];
    tombstoned = [];
  }

  -- `__init__`
  unfoldable pub new_index : IndexConfig → Result (State f)
  new_index config = elim (honoured default config) [ err e ↦ err e | ok c ↦ ok (fresh_state c) ]

  -- `_validate_new`; false is the `ValueError`.
  unfoldable pub validate_new : State f → VectorEmbedding f.Float → Bool
  validate_new s e = not (has s.live e.entity_id) && length e.embedding == s.config.dimension

  -- `_add_one` after the validation
  unfoldable pub added : State f → VectorEmbedding f.Float → State f
  added s e =
      let vector = f.as_vector e.embedding in
      let ids = s.faiss_ids ++ e.entity_id ∷ [] in
      record s {
        faiss = f.add s.faiss (vector ∷ []);
        faiss_ids = ids;
        row_of = put s.row_of e.entity_id (length ids - 1);
        live = put s.live e.entity_id vector;
        meta = put s.meta e.entity_id e.metadata;
        tombstoned = set_discard s.tombstoned e.entity_id;
      }

  unfoldable pub add_one : VectorEmbedding f.Float → Exec (State f) (Unit {0})
  add_one e s = if validate_new s e then (ok tt, added s e) else (err value, s)

  -- `_insert_sync`: what was added before a refusal stays.
  unfoldable pub insert : List (VectorEmbedding f.Float) → Exec (State f) (Unit {0})
  insert [] = pure tt
  insert (e ∷ es) = do add_one e; insert es

  unfoldable pub forget : State f → Text → State f
  forget s id = record s {
    live = del s.live id;
    meta = del s.meta id;
    row_of = del s.row_of id;
    tombstoned = set_add s.tombstoned id;
  }

  -- One round of the loop of `delete`; `_meta[entity_id]` may miss its key.
  unfoldable pub delete_one : Option Metadata → Text → Exec (State f) (Unit {0})
  delete_one filters id s =
      if has s.live id
      then elim (get s.meta id) [
        | none ↦ (err key, s)
        | some meta ↦ if passes same_scalar meta filters then (ok tt, forget s id) else (ok tt, s)
      ]
      else (ok tt, s)

  -- `delete`
  unfoldable pub delete : Option Metadata → List Text → Exec (State f) (Unit {0})
  delete filters [] = pure tt
  delete filters (id ∷ ids) = do delete_one filters id; delete filters ids

  -- `_candidate`; FAISS never gives a negative row, as the fetch is at most `ntotal`.
  unfoldable pub candidate : State f → Option Metadata → ℕ → Result (Option Text)
  candidate s filters row = elim (get_elem? s.faiss_ids row) [
    | none ↦ err key
    | some id ↦ if not (get s.row_of id == some row) then ok none else elim (get s.meta id) [
      | none ↦ err key
      | some meta ↦ ok (if passes same_scalar meta filters then some id else none)
    ]
  ]

  abbrev pub cons_hit :
      Text × f.Float → Result (List (Text × f.Float)) → Result (List (Text × f.Float))
  cons_hit hit (ok hits) = ok (hit ∷ hits)
  cons_hit hit (err e) = err e

  -- `_collect`: `wanted` is `k` less the hits so far, and the loop breaks at none wanted.
  unfoldable pub collect :
      State f → Option Metadata → ℕ → List (f.Score × ℕ) → Result (List (Text × f.Float))
  collect s filters zero ranked = ok []
  collect s filters (suc wanted) [] = ok []
  collect s filters (suc wanted) ((score, row) ∷ ranked) =
      let skipped = collect s filters (suc wanted) ranked in
      let taken = collect s filters wanted ranked in
      elim (candidate s filters row) [
        | err e ↦ err e
        | ok none ↦ skipped
        | ok (some id) ↦ cons_hit (id, f.distance score) taken
      ]

  abbrev pub search_some :
      State f → List f.Float → ℕ → Option Metadata → Result (List (Text × f.Float))
  search_some s query k filters =
      let dead_rows = f.ntotal s.faiss - length s.live in
      let fetch = min (f.ntotal s.faiss) (k + dead_rows) in
      elim (f.search s.faiss (f.as_vector query) fetch) [
        | none ↦ err assertion
        | some ranked ↦ collect s filters k ranked
      ]

  -- `_search_sync`
  unfoldable pub search_sync :
      State f → List f.Float → ℤ → Option Metadata → Result (List (Text × f.Float))
  search_sync s query k filters =
      if f.ntotal s.faiss == 0
      then ok []
      else elim (positive k) [ none ↦ ok [] | some n ↦ search_some s query n filters ]

  -- `search`: an `ef_search` is refused, not dropped.
  unfoldable pub search :
      State f → List f.Float → ℤ → Option Metadata → Option ℕ → Result (List (Text × f.Float))
  search s query k filters none = search_sync s query k filters
  search s query k filters (some ef_search) = err unsupported

  -- `if survivors: self._faiss.add(…)`
  abbrev pub add_survivors : f.Index → List f.Vector → f.Index
  add_survivors index [] = index
  add_survivors index (v ∷ vs) = f.add index (v ∷ vs)

  -- `_reindex_survivors`, and the rest of `_rebuild_sync`
  unfoldable pub compacted : State f → IndexConfig → State f
  compacted s config =
      let ids = keys s.live in
      record s {
        config = config;
        faiss = add_survivors (f.empty config.dimension) (values s.live);
        faiss_ids = ids;
        row_of = enumerate_rows 0 ids [];
        tombstoned = [];
      }

  -- `_rebuild_sync`: a refused configuration leaves the index as it was.
  unfoldable pub rebuild : Option IndexConfig → Exec (State f) (Unit {0})
  rebuild none s = (ok tt, compacted s s.config)
  rebuild (some config) s = elim (honoured default config) [
    | err e ↦ (err e, s)
    | ok c ↦ (ok tt, compacted s (record c { dimension = s.config.dimension }))
  ]

  -- The counts of `get_stats`: live, and dead rows.
  unfoldable pub get_stats : State f → Option Metadata → ℕ × ℕ
  get_stats s filters =
      let live = length (keep_if (λ kv. passes same_scalar kv.1 filters) s.meta) in
      (
        live,
        elim filters [
          | none ↦ f.ntotal s.faiss - live
          | some (kv ∷ rest) ↦ 0
          | some [] ↦ f.ntotal s.faiss - live
        ],
      )
