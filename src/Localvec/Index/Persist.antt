-- ===== src/Localvec/Index/Persist.antt =====
-- The sidecar of a saved index, and the maps that a load rebuilds from it.
pub mod Load
pub mod Restore
use edge_proc.Prelude.{
  ℕ, zero, suc, ◌+◌, Bool, true, false, ◌&&◌, not, Option, none, some, List, [], ◌∷◌, Text, length,
  keep_if, all, contains, ◌==◌, nat_eq, text_eq, if◌then◌else◌,
}
use edge_proc.Prelude.Dicts.{keys, put}
use edge_proc.Errors.{Error, value, runtime}
use edge_proc.Exec.{Result, ok, err}
use edge_proc.Keyring.Sorted.{text_le, sort_by}
use edge_proc.Manifest.{Scalar}
use edge_proc.Localvec.Flat.{Flat}
use edge_proc.Localvec.Index.{IndexConfig, Metadata, State, new_index}

-- `_PersistedState`
pub record PersistedState : Type 0 where
  pub config : IndexConfig
  pub faiss_ids : List Text
  pub tombstoned : List Text
  pub meta : List (Text × Metadata)

-- `xs == ys`, of sets
abbrev pub same_set : List Text → List Text → Bool
same_set xs ys = all (contains ys) xs && all (contains xs) ys

module _ (f : Flat) (same_scalar : Scalar → Scalar → Bool) (default : IndexConfig) where
  -- `_persisted_state`
  unfoldable pub persisted_state : State f → PersistedState
  persisted_state s = record {
    config = s.config;
    faiss_ids = s.faiss_ids;
    tombstoned = sort_by text_le s.tombstoned;
    meta = s.meta;
  }

  -- `_validate_persisted_index`; false is a `ValueError`.
  unfoldable pub validate_persisted_index : f.Index → PersistedState → Bool
  validate_persisted_index index state =
      f.ntotal index == length state.faiss_ids
      && f.dimension index == state.config.dimension
      && same_set (keys state.meta)
          (keep_if (λ id. not (contains state.tombstoned id)) state.faiss_ids)

  -- The loop of `_reconstruct_live_rows`, from row `row` on
  unfoldable pub reconstruct_from :
      f.Index
      → List Text
      → ℕ
      → List Text
      → List (Text × f.Vector)
      → List (Text × ℕ)
      → Result (List (Text × f.Vector) × List (Text × ℕ))
  reconstruct_from index tombstoned row [] live rows = ok (live, rows)
  reconstruct_from index tombstoned row (id ∷ ids) live rows =
      if contains tombstoned id
      then reconstruct_from index tombstoned (suc row) ids live rows
      else elim (f.reconstruct index row) [
        | none ↦ err runtime
        | some v ↦ reconstruct_from index tombstoned (suc row) ids (put live id v) (put rows id row)
      ]

  -- `_restore`
  unfoldable pub restore : State f → f.Index → PersistedState → Result (State f)
  restore s index state = elim (reconstruct_from index state.tombstoned 0 state.faiss_ids [] []) [
    | err e ↦ err e
    | ok maps ↦ ok (record {
      config = s.config;
      faiss = index;
      faiss_ids = state.faiss_ids;
      live = maps.0;
      row_of = maps.1;
      meta = state.meta;
      tombstoned = state.tombstoned;
    })
  ]

  -- `_restore_persisted` once the two files are read
  unfoldable pub restore_persisted : f.Index → PersistedState → Result (State f)
  restore_persisted index state =
      if not (validate_persisted_index index state)
      then err value
      else elim (new_index f same_scalar default state.config) [
        | err e ↦ err e
        | ok s ↦ restore s index state
      ]
