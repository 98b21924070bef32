-- ===== src/Localvec/Runtime.antt =====
-- `LocalVecRuntime` of edgeproc/localvec/runtime.py: which tasks it takes, and what it returns. The
-- encoder, the index, the keyword search and the clock are parameters.
use edge_proc.Prelude.{
  ℕ, suc, ◌-◌, Bool, true, false, Option, none, some, List, [], ◌∷◌, Text, length, take, ◌==◌,
  text_eq, if◌then◌else◌,
}
use edge_proc.Prelude.Codes.{codes}
use edge_proc.Prelude.Int.{ℤ, pos, negsuc}
use edge_proc.Errors.{Error, value, key, is_value}
use edge_proc.Exec.{Result, ok, err}
use edge_proc.Core.Models.{
  JsonValue, JsonItems, JsonFields, str, int, bool, float, list, nil, cons, end, field, PrivacyMode,
  local_only, TaskKind, embed, search_kind, rank, CapabilityVerdict, accept, reject_capability,
  reject_kind, Task, ResultEnvelope,
}
use edge_proc.Core.Facade.{runtime_version}
use edge_proc.Localvec.Fusion.{Floats, reciprocal_rank_fusion}

abbrev pub is_supported : TaskKind → Bool
is_supported embed = true
is_supported search_kind = true
is_supported rank = true
is_supported _ = false

abbrev pub is_local : PrivacyMode → Bool
is_local local_only = true
is_local _ = false

-- `except (ValueError, KeyError, TypeError)`
abbrev pub is_caught : Error → Bool
is_caught key = true
is_caught e = is_value e

-- `xs[:k]`: a negative `k` drops from the end.
abbrev pub take_to : {A : Type 0} → ℤ → List A → List A
take_to (pos n) xs = take n xs
take_to (negsuc n) xs = take (length xs - suc n) xs

module _ (f : Floats) where
  -- `payload.get(name)`
  unfoldable pub lookup : JsonFields f.Float → Text → Option (JsonValue f.Float)
  lookup end name = none
  lookup (field k v rest) name = if k == name then some v else lookup rest name

  -- `LocalVecRuntime.can_handle`
  unfoldable pub can_handle : Task f.Float → CapabilityVerdict
  can_handle task =
      if is_local task.privacy_mode
      then if is_supported task.kind then accept else reject_kind
      else reject_capability

  -- The texts of a list, if all its items are strings.
  unfoldable pub all_texts : JsonItems f.Float → Option (List Text)
  all_texts nil = some []
  all_texts (cons (str t) rest) = elim (all_texts rest) [ none ↦ none | some ts ↦ some (t ∷ ts) ]
  all_texts (cons _ rest) = none

  abbrev texts_of : Option (JsonValue f.Float) → Result (List Text)
  texts_of (some (list items)) = elim (all_texts items) [ none ↦ err value | some ts ↦ ok ts ]
  texts_of _ = err value

  abbrev text_of : Option (JsonValue f.Float) → Result Text
  text_of (some (str t)) = ok t
  text_of _ = err value

  -- A bool is an `int`.
  abbrev k_of : ℤ → Option (JsonValue f.Float) → Result ℤ
  k_of default none = ok default
  k_of default (some (int n)) = ok n
  k_of default (some (bool true)) = ok (pos 1)
  k_of default (some (bool false)) = ok (pos 0)
  k_of default (some _) = err value

  -- `_require_texts`, `_require_query`, `_require_k`
  unfoldable pub require_texts : Task f.Float → Result (List Text)
  require_texts task = texts_of (lookup task.payload (codes "texts"))

  unfoldable pub require_query : Task f.Float → Result Text
  require_query task = text_of (lookup task.payload (codes "query"))

  unfoldable pub require_k : Task f.Float → ℤ → Result ℤ
  require_k task default = k_of default (lookup task.payload (codes "k"))

  -- `_as_rows`
  unfoldable pub as_rows : List (Text × f.Float) → JsonItems f.Float
  as_rows [] = nil
  as_rows ((doc, score) ∷ hits) =
      cons (list (cons (str doc) (cons (float score) nil))) (as_rows hits)

  abbrev one_field : Text → JsonItems f.Float → JsonFields f.Float
  one_field name items = field name (list items) end

  -- The constructor's arguments, and the two settings.
  pub record LocalVec : Type 0 where
    pub encode_texts : List Text → Result (JsonItems f.Float)
    pub encode_query : Text → Result (List f.Float)
    pub search_index : List f.Float → ℤ → Result (List (Text × f.Float))
    pub keyword : Option (Text → ℤ → Result (List (Text × f.Float)))
    pub default_k : ℤ
    pub rrf_k_window : ℕ

  abbrev and_then : {A B : Type 0} → Result A → (A → Result B) → Result B
  and_then (ok a) next = next a
  and_then (err e) next = err e

  -- `_embed`, `_search`, `_rank`
  unfoldable pub run_embed : LocalVec → Task f.Float → Result (JsonFields f.Float)
  run_embed r task =
      and_then (require_texts task)
        λ texts. and_then (r.encode_texts texts) λ rows. ok (one_field (codes "embeddings") rows)

  unfoldable pub run_search : LocalVec → Task f.Float → Result (JsonFields f.Float)
  run_search r task = and_then (require_query task) λ text. and_then (r.encode_query text) λ query.
      and_then (require_k task r.default_k) λ k.
        and_then (r.search_index query k) λ hits. ok (one_field (codes "results") (as_rows hits))

  unfoldable pub run_rank : LocalVec → Task f.Float → Result (JsonFields f.Float)
  run_rank r task = elim r.keyword [
    | none ↦ err value
    | some search ↦ and_then (require_query task) λ text. and_then (require_k task r.default_k) λ k.
        and_then (search text k) λ keyword_hits. and_then (r.encode_query text) λ query.
          and_then (r.search_index query k) λ vector_hits. ok (
            one_field (codes "results") (
              as_rows
                (take_to k (reciprocal_rank_fusion f keyword_hits vector_hits r.rrf_k_window))))
  ]

  -- `_dispatch`
  unfoldable pub dispatch : LocalVec → Task f.Float → Result (JsonFields f.Float)
  dispatch r task = elim task.kind [
    | embed ↦ run_embed r task
    | search_kind ↦ run_search r task
    | _ ↦ run_rank r task
  ]

  -- `_envelope`; `latency` is what the clock gives.
  unfoldable pub envelope :
      Task f.Float → Bool → JsonFields f.Float → f.Float → Option Text → ResultEnvelope f.Float
  envelope task success payload latency error = record {
    request_id = task.request_id;
    task_kind = task.kind;
    success = success;
    payload = payload;
    runtime_used = codes "localvec";
    privacy_mode = task.privacy_mode;
    confidence = if success then f.one_float else f.zero_float;
    latency_ms = latency;
    provenance = record {
      signature_status = codes "unsigned";
      runtime_version = runtime_version;
      model_id = none;
      model_hash = none;
      bundle_id = none;
    };
    cost_usd = f.zero_float;
    edit_distance = none;
    error = error;
  }

  -- `execute`; `message` is `str` of an exception.
  unfoldable pub execute :
      LocalVec → (Error → Text) → f.Float → Task f.Float → Result (ResultEnvelope f.Float)
  execute r message latency task = elim (dispatch r task) [
    | ok payload ↦ ok (envelope task true payload latency none)
    | err e ↦ if is_caught e then ok (envelope task false end latency (some (message e))) else err e
  ]
