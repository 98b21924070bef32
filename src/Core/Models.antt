-- ===== src/Core/Models.antt =====
-- edgeproc/core/models.py and protocols.py.
-- `F` stands for Python's floats, which the core stores and never computes with.
use edge_proc.Prelude.{Bool, Option, Text}
use edge_proc.Prelude.Int.{ℤ}

mutual
  pub data JsonValue (F : Type 0) : Type 0 where
    str : Text → JsonValue F
    int : ℤ → JsonValue F
    float : F → JsonValue F
    bool : Bool → JsonValue F
    list : JsonItems F → JsonValue F
    dict : JsonFields F → JsonValue F
    null : JsonValue F

  pub data JsonItems (F : Type 0) : Type 0 where
    nil : JsonItems F
    cons : JsonValue F → JsonItems F → JsonItems F

  pub data JsonFields (F : Type 0) : Type 0 where
    end : JsonFields F
    field : Text → JsonValue F → JsonFields F → JsonFields F

pub data PrivacyMode : Type 0 where
  local_only local_draft_cloud_verify cloud_premium : PrivacyMode

pub data TaskKind : Type 0 where
  deterministic embed search_kind rank generate classify custom_wasm : TaskKind

pub data CapabilityVerdict : Type 0 where
  accept reject_capability reject_budget reject_kind : CapabilityVerdict

pub record Provenance : Type 0 where
  pub signature_status : Text
  pub runtime_version : Text
  pub model_id : Option Text
  pub model_hash : Option Text
  pub bundle_id : Option Text

-- The budgets are integers: a task that skipped validation may hold any.
pub record Task (F : Type 0) : Type 0 where
  pub request_id : Text
  pub kind : TaskKind
  pub payload : JsonFields F
  pub privacy_mode : PrivacyMode
  pub capability_token : Text
  pub budget_ms : ℤ
  pub budget_memory_mb : ℤ
  pub path_signature : Option Text

pub record ResultEnvelope (F : Type 0) : Type 0 where
  pub request_id : Text
  pub task_kind : TaskKind
  pub success : Bool
  pub payload : JsonFields F
  pub runtime_used : Text
  pub privacy_mode : PrivacyMode
  pub confidence : F
  pub latency_ms : F
  pub provenance : Provenance
  pub cost_usd : F
  pub edit_distance : Option F
  pub error : Option Text

-- The `Runtime` protocol, less `execute`: what a run returns is an event of the environment.
pub record Runtime (F : Type 0) : Type 0 where
  pub name : Text
  pub can_handle : Task F → CapabilityVerdict
