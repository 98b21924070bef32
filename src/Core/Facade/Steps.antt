-- ===== src/Core/Facade/Steps.antt =====
-- Runs of one `EdgeProc` that interleave, and the memory that they hold.
use edge_proc.Prelude.{ℕ, ◌+◌, ◌≤◌, ◌≡◌, refl, ap, List, [], ◌∷◌, ◌++◌, arith}
use edge_proc.Core.Models.{Task, Runtime, ResultEnvelope}
use edge_proc.Core.Memory.{MemoryManager, reserve, release}
use edge_proc.Core.Facade.{InFlight, answered, dispatched, admit}

-- The facade's registry, manager and sink, and the runs that wait for their runtime.
pub record System (F : Type 0) : Type 0 where
  pub runtimes : List (Runtime F)
  pub manager : MemoryManager
  pub in_flight : List (InFlight F)
  pub emitted : List (ResultEnvelope F)

module _ {F : Type 0} where
  -- The memory that the runs hold together.
  abbrev pub held : List (InFlight F) → ℕ
  held [] = 0
  held (j ∷ js) = j.bytes + held js

  held-append : (xs ys : List (InFlight F)) → held (xs ++ ys) ≡ held xs + held ys
  held-append [] ys = omega arith
  held-append (x ∷ xs) ys = omega (arith, held-append xs ys)

  -- Every reserved byte belongs to a run in flight, and the capacity is kept.
  pub record IsBalanced (capacity : ℕ) (s : System F) : Type 0 where
    pub same : s.manager.capacity ≡ capacity
    pub balanced : s.manager.reserved ≡ held s.in_flight
    pub fits : s.manager.reserved ≤ capacity

module _ {F : Type 0} (zero_float : F) where
  -- One atomic part of some run. A runtime returns any envelope, or raises (which its protocol
  -- rules out, and cancellation does not); both leave the `with` block.
  pub data Step (s : System F) : System F → Type 0 where
    answer :
        (task : Task F) (e : ResultEnvelope F)
        → admit zero_float s.runtimes s.manager task ≡ answered e
        → Step s (record s { emitted = s.emitted ++ e ∷ [] })
    dispatch :
        (task : Task F) (j : InFlight F) (m : MemoryManager)
        → admit zero_float s.runtimes s.manager task ≡ dispatched j m
        → Step s (record s { manager = m; in_flight = j ∷ s.in_flight })
    return :
        (before after : List (InFlight F)) (j : InFlight F) (e : ResultEnvelope F)
        → s.in_flight ≡ before ++ j ∷ after
        → Step s (record s {
          manager = release s.manager j.bytes;
          in_flight = before ++ after;
          emitted = s.emitted ++ e ∷ [];
        })
    raise :
        (before after : List (InFlight F)) (j : InFlight F)
        → s.in_flight ≡ before ++ j ∷ after
        → Step s (record s { manager = release s.manager j.bytes; in_flight = before ++ after })

  pub data Reach (s : System F) : System F → Type 0 where
    here : Reach s s
    next : {t u : System F} → Reach s t → Step t u → Reach s u

  admit-dispatched :
      (rs : List (Runtime F)) (m m' : MemoryManager) (task : Task F) (j : InFlight F)
      → admit zero_float rs m task ≡ dispatched j m'
      → (m'.capacity ≡ m.capacity)
        × (m'.reserved ≡ m.reserved + j.bytes)
        × (m'.reserved ≤ m.capacity)
  unfolding admit reserve
  admit-dispatched rs m m' task j h = ground arith

  Step-IsBalanced :
      (capacity : ℕ) {s t : System F} → Step s t → IsBalanced capacity s → IsBalanced capacity t
  unfolding release
  Step-IsBalanced capacity (answer task e h) b = record {
    same = b.same;
    balanced = b.balanced;
    fits = b.fits;
  }
  Step-IsBalanced capacity {s} (dispatch task j m h) b =
      omega (arith, admit-dispatched s.runtimes s.manager m task j h)
  Step-IsBalanced capacity {s} (return before after j e h) b =
      omega (arith, ap held h, held-append before (j ∷ after), held-append before after)
  Step-IsBalanced capacity {s} (raise before after j h) b =
      omega (arith, ap held h, held-append before (j ∷ after), held-append before after)

  Reach-IsBalanced :
      (capacity : ℕ) {s t : System F} → IsBalanced capacity s → Reach s t → IsBalanced capacity t
  Reach-IsBalanced capacity b here = b
  Reach-IsBalanced capacity b (next r st) =
      Step-IsBalanced capacity st (Reach-IsBalanced capacity b r)

  -- However the calls of one facade with a fresh manager interleave, with returns and with raises,
  -- the reserved bytes are at every moment the sum of what the runs in flight declared, never more
  -- than the capacity, and 0 again when no run is in flight.
  pub reserved-Reach :
      (rs : List (Runtime F)) (capacity : ℕ) (t : System F)
      → Reach
          (record {
            runtimes = rs;
            manager = record { capacity = capacity; reserved = 0 };
            in_flight = [];
            emitted = [];
          })
          t
      → (t.manager.reserved ≡ held t.in_flight) × (t.manager.reserved ≤ capacity)
  reserved-Reach rs capacity t r =
      let b : IsBalanced capacity t =
        Reach-IsBalanced capacity (record { same = refl; balanced = refl; fits = omega arith }) r in
      (b.balanced, b.fits)
