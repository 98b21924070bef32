-- ===== src/Tests/Core.antt =====
-- Examples of chunking and of the core.
use edge_proc.Prelude.{list_discrete}
use edge_proc.Prelude.{
  ℕ, ◌<◌, ◌≤◌, ◌≡◌, ◌↔◌, ◌⊎◌, min, refl, true, none, some, List, [], ◌∷◌, ◌++◌, Text, nat_eq,
  text_eq, Text-discrete, ℕ_discrete, arith,
}
use edge_proc.Prelude.Codes.{codes}
use edge_proc.Prelude.Int.{pos}
use edge_proc.Prelude.Members.{All}
use edge_proc.Chunking.{GearCdc, cut_point, chunk}
use edge_proc.Chunking.Bounds
use edge_proc.Chunking.Rejoin
use edge_proc.Chunking.Resync
use edge_proc.Core.Models.{
  Task, Runtime, CapabilityVerdict, accept, reject_kind, embed, local_only, end,
}
use edge_proc.Core.Router.{pick, register, is_accept}
use edge_proc.Core.Router.Choice
use edge_proc.Core.Router.Choice.{Refuses, UniqueNames}
use edge_proc.Core.Memory.{MemoryManager, reserve}
use edge_proc.Core.Facade.{InFlight, admit, dispatched}
use edge_proc.Core.Facade.Steps
use edge_proc.Core.Facade.Steps.{System, Reach, here, next, dispatch, IsBalanced}
use edge_proc.Core.Duration.{parse_duration}
use edge_proc.Core.Duration.Grammar
use edge_proc.Core.Duration.Grammar.{Reads}
use edge_proc.Chunking.{default_cdc}

abbrev tiny : GearCdc
tiny = record { min_size = 1; avg_size = 2; max_size = 3 }

abbrev identity : ℕ → ℕ
identity b = b

cut_point_bounds_example :
    (0 < cut_point identity (1 ∷ 2 ∷ []) 0 tiny)
    × (cut_point identity (1 ∷ 2 ∷ []) 0 tiny ≤ 2)
    × (cut_point identity (1 ∷ 2 ∷ []) 0 tiny ≤ 3)
    × ((cut_point identity (1 ∷ 2 ∷ []) 0 tiny ≡ min 3 2)
        ⊎ (1 < cut_point identity (1 ∷ 2 ∷ []) 0 tiny))
cut_point_bounds_example =
    Bounds.cut_point_bounds identity (1 ∷ 2 ∷ []) 0 tiny (omega arith) (omega arith)

chunk-Chunks_example :
    (cs : List Text) × (chunk identity (codes "hello") tiny ≡ some cs)
    × Rejoin.Chunks tiny (codes "hello") cs
chunk-Chunks_example = Rejoin.chunk-Chunks identity tiny (omega arith) (codes "hello")

-- With this table every word masks to 0, so the cut is one byte after `min_size`.
cuts_hello : chunk identity (codes "hello") tiny ≡ some (codes "he" ∷ codes "ll" ∷ codes "o" ∷ [])
unfolding chunk cut_point ℕ_discrete
cuts_hello = refl

cuts_yahello :
    chunk identity (codes "yahello") tiny
    ≡ some (codes "ya" ∷ codes "he" ∷ codes "ll" ∷ codes "o" ∷ [])
unfolding chunk cut_point ℕ_discrete
cuts_yahello = refl

chunk_resync_example : codes "ll" ∷ codes "o" ∷ [] ≡ codes "ll" ∷ codes "o" ∷ []
chunk_resync_example =
    Resync.chunk_resync identity tiny (omega arith) (codes "hello") (codes "yahello")
      (codes "he" ∷ []) (codes "ya" ∷ codes "he" ∷ []) (codes "ll" ∷ codes "o" ∷ [])
      (codes "ll" ∷ codes "o" ∷ []) cuts_hello cuts_yahello refl

cuts_none : chunk identity (codes "hello") default_cdc ≡ some (codes "hello" ∷ [])
unfolding chunk cut_point ℕ_discrete
cuts_none = refl

abbrev task : Task Unit
task = record {
  request_id = codes "1";
  kind = embed;
  payload = end;
  privacy_mode = local_only;
  capability_token = [];
  budget_ms = pos 10;
  budget_memory_mb = pos 2;
  path_signature = none;
}

abbrev named : Text → CapabilityVerdict → Runtime Unit
named name verdict = record { name = name; can_handle = λ t. verdict }

abbrev refusing : Runtime Unit
refusing = named (codes "a") reject_kind

abbrev accepting : Runtime Unit
accepting = named (codes "b") accept

picked : pick task (refusing ∷ accepting ∷ []) ≡ some accepting
unfolding pick
picked = refl

pick_first_example :
    (before after : List (Runtime Unit)) × (refusing ∷ accepting ∷ [] ≡ before ++ accepting ∷ after)
    × (is_accept (accepting.can_handle task) ≡ true)
    × All (Refuses task) before
pick_first_example = Choice.pick_first task (refusing ∷ accepting ∷ []) accepting picked

registered : register (refusing ∷ []) accepting ≡ some (refusing ∷ accepting ∷ [])
unfolding register list_discrete Text-discrete ℕ_discrete
registered = refl

abbrev manager : MemoryManager
manager = record { capacity = 4000000; reserved = 0 }

abbrev waiting : InFlight Unit
waiting = record { task = task; runtime = accepting; bytes = 2097152 }

admitted-ok :
    admit tt (accepting ∷ []) manager task
    ≡ dispatched waiting (record { capacity = 4000000; reserved = 2097152 })
unfolding admit pick reserve
admitted-ok = refl

reserved-Reach_example : (2097152 ≡ Steps.held (waiting ∷ [])) × (2097152 ≤ 4000000)
reserved-Reach_example =
    Steps.reserved-Reach tt (accepting ∷ []) 4000000
      (record {
        runtimes = accepting ∷ [];
        manager = record { capacity = 4000000; reserved = 2097152 };
        in_flight = waiting ∷ [];
        emitted = [];
      })
      (next here
        (dispatch task waiting (record { capacity = 4000000; reserved = 2097152 }) admitted-ok))

parse_duration_iff_example : (parse_duration (codes " 2m ") ≡ some 120) ↔ Reads (codes " 2m ") 120
parse_duration_iff_example = Grammar.parse_duration_iff (codes " 2m ") 120
