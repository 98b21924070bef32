-- ===== src/Chunking.antt =====
-- edgeproc/bundles/chunking.py: content-defined chunking.
-- `_build_gear_table` fills the table from `random.Random(_GEAR_SEED)`; the generator of the
-- standard library is a parameter, `gear_table`, the 64-bit word for each byte.
-- A `while i < stop` loop does `stop - i` rounds; `chunk` has fuel for one round per byte.
pub mod Bounds
pub mod Rejoin
pub mod Resync
use Prim.Native.Nat.{bit_and}
use edge_proc.Prelude.{
  ℕ, zero, suc, ◌+◌, ◌-◌, ◌*◌, ◌%◌, ◌^◌, min, Option, none, some, List, [], ◌∷◌, Bool, ltb, ◌==◌,
  nat_eq, if◌then◌else◌, length, get_or, take, drop, Text,
}

abbrev pub mask_s : ℕ
mask_s = 0x0003_5907_0353_0000

abbrev pub mask_l : ℕ
mask_l = 0x0000_D900_4353_0000

-- `GearCDC.__init__`, with its defaults in `default_cdc`
pub record GearCdc : Type 0 where
  pub min_size : ℕ
  pub avg_size : ℕ
  pub max_size : ℕ

abbrev pub default_cdc : GearCdc
default_cdc = record { min_size = 16 * 1024; avg_size = 64 * 1024; max_size = 256 * 1024 }

-- How one of the two loops ends: with a cut, or at its stop with `i` and `fp`.
pub data Scan : Type 0 where
  cut : ℕ → Scan
  ended : ℕ → ℕ → Scan

-- A `yield` in front of what the generator yields later.
abbrev pub cons_some : Text → Option (List Text) → Option (List Text)
cons_some x none = none
cons_some x (some xs) = some (x ∷ xs)

module _ (gear_table : ℕ → ℕ) where
  -- `((fp << 1) + GEAR_TABLE[data[i]]) & _MASK_64`
  pub roll : Text → ℕ → ℕ → ℕ
  roll bytes i fp = (fp * 2 + gear_table (get_or bytes i 0)) % 2 ^ 64

  pub scan : ℕ → Text → ℕ → ℕ → ℕ → Scan
  scan mask bytes zero i fp = ended i fp
  scan mask bytes (suc rounds) i fp =
      let fp' = roll bytes i fp in
      let rest = scan mask bytes rounds (i + 1) fp' in
      if bit_and fp' mask == 0 then cut (i + 1) else rest

  pub after_loose : ℕ → Scan → ℕ
  after_loose hard_end (cut e) = e
  after_loose hard_end (ended i fp) = hard_end

  pub after_strict : Text → ℕ → Scan → ℕ
  after_strict bytes hard_end (cut e) = e
  after_strict bytes hard_end (ended i fp) =
      after_loose hard_end (scan mask_l bytes (hard_end - i) i fp)

  unfoldable pub cut_point : Text → ℕ → GearCdc → ℕ
  unfolding roll scan after_loose after_strict
  cut_point bytes start c =
      let hard_end = min (start + c.max_size) (length bytes) in
      let norm_end = min (start + c.avg_size) hard_end in
      let i = start + c.min_size in
      after_strict bytes hard_end (scan mask_s bytes (norm_end - i) i 0)

  -- `chunk` from `start`; `none` means that the fuel ran out.
  pub chunk_from : ℕ → Text → ℕ → GearCdc → Option (List Text)
  chunk_from zero bytes start c = none
  chunk_from (suc fuel) bytes start c =
      let end = cut_point bytes start c in
      let rest = chunk_from fuel bytes end c in
      if ltb start (length bytes)
      then cons_some (take (end - start) (drop start bytes)) rest
      else some []

  unfoldable pub chunk : Text → GearCdc → Option (List Text)
  unfolding cut_point chunk_from
  chunk bytes c = chunk_from (suc (length bytes)) bytes 0 c
