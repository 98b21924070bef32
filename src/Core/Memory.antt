-- ===== src/Core/Memory.antt =====
-- edgeproc/core/memory.py: admission by declared memory. The lock makes `reserve` and `_release`
-- atomic, so each is one step here; `reserved` starts at 0 and is never below it.
use edge_proc.Prelude.{ℕ, ◌+◌, ◌-◌, ◌*◌, Option, none, some, ltb, if◌then◌else◌}
use edge_proc.Prelude.Int.{ℤ, sub_ℕ, positive}

abbrev pub bytes_per_megabyte : ℕ
bytes_per_megabyte = 1024 * 1024

-- `available` may not be below 0, but the code computes it as an integer.
pub data MemoryError : Type 0 where
  not_positive : MemoryError
  budget_exceeded : (requested : ℕ) (available : ℤ) (capacity : ℕ) → MemoryError

pub record MemoryManager : Type 0 where
  pub capacity : ℕ
  pub reserved : ℕ

of_capacity : Option ℕ → Option MemoryManager
of_capacity none = none
of_capacity (some n) = some (record { capacity = n; reserved = 0 })

-- `MemoryManager.__init__`: `max_bytes`, or the setting; `none` is the `ValueError`.
unfoldable pub new_manager : Option ℤ → ℤ → Option MemoryManager
unfolding of_capacity
new_manager max_bytes configured =
    of_capacity (positive (elim max_bytes [ some n ↦ n | none ↦ configured ]))

pub data Reserved : Type 0 where
  admitted : ℕ → MemoryManager → Reserved
  refused : MemoryError → Reserved

reserve_bytes : MemoryManager → Option ℕ → Reserved
reserve_bytes m none = refused not_positive
reserve_bytes m (some n) =
    if ltb m.capacity (m.reserved + n)
    then refused (budget_exceeded n (sub_ℕ m.capacity m.reserved) m.capacity)
    else admitted n (record m { reserved = m.reserved + n })

-- `reserve`: `n > capacity - reserved` of integers is `capacity < reserved + n`.
unfoldable pub reserve : MemoryManager → ℤ → Reserved
unfolding reserve_bytes
reserve m requested = reserve_bytes m (positive requested)

unfoldable pub release : MemoryManager → ℕ → MemoryManager
release m n = record m { reserved = m.reserved - n }
