-- ===== src/Core/Settings.antt =====
-- `EdgeProcSettings` of edgeproc/core/settings.py: the fields and their defaults. The environment and
-- the `.env` file, which may override a default, are read by pydantic-settings.
use edge_proc.Prelude.{
  ℕ, ◌*◌, ◌≤◌, ◌≡◌, Bool, false, Option, none, some, List, [], ◌∷◌, Text, length, arith,
}
use edge_proc.Prelude.Codes.{codes}
use edge_proc.Prelude.Members.{All}
use edge_proc.Chunking.{default_cdc, chunk}
use edge_proc.Chunking.Rejoin.{IsSmall, chunk-Chunks}
use mathlib.Core.Option.{some-injective}
use edge_proc.Prelude.{sym, ◌∙◌, subst}

-- `F` stands for floats: the three timeouts.
pub record Settings (F : Type 0) : Type 0 where
  pub model_name : Text
  pub hf_token : Option Text
  pub model_path : Option Text
  pub model_digest : Option Text
  pub allow_model_download : Bool
  pub default_k : ℕ
  pub http_timeout : F
  pub max_decompressed_bytes : ℕ
  pub max_fetch_bytes : ℕ
  pub max_sync_total_bytes : ℕ
  pub max_sync_files : ℕ
  pub max_materialize_bytes : ℕ
  pub max_in_flight_memory_mb : ℕ
  pub mutation_lock_timeout : F
  pub snapshot_lock_timeout : F
  pub task_budget_ms : ℕ
  pub task_budget_memory_mb : ℕ
  pub rrf_k_window : ℕ
  pub trust_root_pubkey_path : Option Text
  pub publish_stamp_key_id : Bool
  pub publish_expires_in : Option ℕ

-- The values that the class declares; `thirty` is 30.0.
abbrev pub default_settings : {F : Type 0} → F → Settings F
default_settings thirty = record {
  model_name = codes "sentence-transformers/all-MiniLM-L6-v2";
  hf_token = none;
  model_path = none;
  model_digest = none;
  allow_model_download = false;
  default_k = 10;
  http_timeout = thirty;
  max_decompressed_bytes = 64 * 1024 * 1024;
  max_fetch_bytes = 256 * 1024 * 1024;
  max_sync_total_bytes = 4 * 1024 * 1024 * 1024;
  max_sync_files = 100_000;
  max_materialize_bytes = 256 * 1024 * 1024;
  max_in_flight_memory_mb = 512;
  mutation_lock_timeout = thirty;
  snapshot_lock_timeout = thirty;
  task_budget_ms = 5000;
  task_budget_memory_mb = 256;
  rrf_k_window = 60;
  trust_root_pubkey_path = none;
  publish_stamp_key_id = false;
  publish_expires_in = none;
}

small-fits :
    (cs : List Text) → All (IsSmall default_cdc) cs → All (λ c. length c ≤ 64 * 1024 * 1024) cs
small-fits [] h = tt
small-fits (c ∷ cs) h = (omega (arith, h.0.1), small-fits cs h.1)

-- Every chunk that the default chunker makes is below the default ceiling on the plaintext of a
-- stored chunk, whatever the data and the table: the ceiling refuses no chunk of its own publisher.
pub default-fits :
    {F : Type 0} (thirty : F) (gear_table : ℕ → ℕ) (bytes : Text) (cs : List Text)
    → chunk gear_table bytes default_cdc ≡ some cs
    → All (λ c. length c ≤ (default_settings thirty).max_decompressed_bytes) cs
default-fits thirty gear_table bytes cs e =
    let (ds, e', h) = chunk-Chunks gear_table default_cdc (omega arith) bytes in
    small-fits cs
      (subst (λ xs. All (IsSmall default_cdc) xs) (some-injective _ _ (sym e' ∙ e)) h.small)
