-- ===== src/Core/Facade.antt =====
-- edgeproc/core/facade.py. A call of `EdgeProc.run` is two atomic parts around the `await` of the
-- runtime: `admit`, up to the reservation, and the return or raise. Between the two
-- other calls of the same object run, in any order; the module `Steps` has the interleavings.
pub mod Steps
use edge_proc.Prelude.{ℕ, ◌*◌, ◌++◌, Option, none, some, List, [], ◌∷◌, Text, false}
use edge_proc.Prelude.Int.{pos, positive}
use edge_proc.Prelude.Codes.{codes}
use edge_proc.Core.Models.{Task, Runtime, ResultEnvelope, end}
use edge_proc.Core.Router.{pick}
use edge_proc.Core.Memory.{
  MemoryManager, Reserved, admitted, refused, not_positive, budget_exceeded, reserve, release,
  bytes_per_megabyte,
}

abbrev pub runtime_version : Text
runtime_version = codes "0.5.0"

-- A run that was admitted: it holds `bytes` of the manager until it ends.
pub record InFlight (F : Type 0) : Type 0 where
  pub task : Task F
  pub runtime : Runtime F
  pub bytes : ℕ

-- How `run` goes up to its `await`: it has its envelope, or it waits for the runtime. `escaped` is
-- an exception other than `MemoryBudgetExceededError`.
pub data Admission (F : Type 0) : Type 0 where
  answered : ResultEnvelope F → Admission F
  dispatched : InFlight F → MemoryManager → Admission F
  escaped : Admission F

module _ {F : Type 0} (zero_float : F) where
  -- The three failure envelopes differ in `runtime_used` and `error`.
  failure_envelope : Task F → Text → Text → ResultEnvelope F
  failure_envelope task runtime_used error = record {
    request_id = task.request_id;
    task_kind = task.kind;
    success = false;
    payload = end;
    runtime_used = runtime_used;
    privacy_mode = task.privacy_mode;
    confidence = zero_float;
    latency_ms = zero_float;
    provenance = record {
      signature_status = codes "unsigned";
      runtime_version = runtime_version;
      model_id = none;
      model_hash = none;
      bundle_id = none;
    };
    cost_usd = zero_float;
    edit_distance = none;
    error = some error;
  }

  pub no_runtime_envelope : Task F → ResultEnvelope F
  unfolding failure_envelope
  no_runtime_envelope task = failure_envelope task (codes "none") (codes "no_runtime_accepted")

  pub memory_rejection_envelope : Task F → Runtime F → ResultEnvelope F
  unfolding failure_envelope
  memory_rejection_envelope task r = failure_envelope task r.name (codes "memory_budget_exceeded")

  pub invalid_memory_budget_envelope : Task F → Runtime F → ResultEnvelope F
  unfolding failure_envelope
  invalid_memory_budget_envelope task r =
      failure_envelope task r.name (codes "invalid_memory_budget")

  reserved_run : Task F → Runtime F → Reserved → Admission F
  reserved_run task r (refused (budget_exceeded n available capacity)) =
      answered (memory_rejection_envelope task r)
  reserved_run task r (refused not_positive) = escaped
  reserved_run task r (admitted bytes m) =
      dispatched (record { task = task; runtime = r; bytes = bytes }) m

  budgeted_run : MemoryManager → Task F → Runtime F → Option ℕ → Admission F
  unfolding reserved_run
  budgeted_run m task r none = answered (invalid_memory_budget_envelope task r)
  budgeted_run m task r (some mb) = reserved_run task r (reserve m (pos (mb * bytes_per_megabyte)))

  -- `_run_with_memory`, up to the `await`
  run_with_memory : MemoryManager → Task F → Option (Runtime F) → Admission F
  unfolding budgeted_run
  run_with_memory m task none = answered (no_runtime_envelope task)
  run_with_memory m task (some r) = budgeted_run m task r (positive task.budget_memory_mb)

  -- `run`, up to the `await`
  unfoldable pub admit : List (Runtime F) → MemoryManager → Task F → Admission F
  unfolding run_with_memory
  admit runtimes m task = run_with_memory m task (pick task runtimes)
