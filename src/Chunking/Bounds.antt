-- ===== src/Chunking/Bounds.antt =====
-- Where `_cut_point` may cut.
use edge_proc.Prelude.{
  ℕ, zero, suc, ◌+◌, ◌-◌, ◌≤◌, ◌<◌, min, ◌≡◌, refl, ◌⊎◌, inl, inr, Bool, true, false, arith, length,
  Text, if◌then◌else◌,
}
use edge_proc.Chunking.{
  GearCdc, Scan, cut, ended, mask_s, mask_l, scan, after_loose, after_strict, cut_point,
}

-- What a loop that starts at `i` and stops at `stop` can return.
abbrev Scanned : ℕ → ℕ → Scan → Type 0
Scanned i stop (cut e) = (i < e) × (e ≤ stop)
Scanned i stop (ended j fp) = (i ≤ j) × (stop ≤ j)

Scanned-step :
    (b : Bool) (i stop : ℕ) (s : Scan)
    → i < stop
    → Scanned (i + 1) stop s
    → Scanned i stop (if b then cut (i + 1) else s)
Scanned-step true i stop s h k = omega arith
Scanned-step false i stop (cut e) h k = omega arith
Scanned-step false i stop (ended j fp) h k = omega arith

-- Either the forced cut at `hard_end`, or a cut of the content's own in `(i, hard_end]`.
abbrev CutFrom : ℕ → ℕ → ℕ → Type 0
CutFrom i hard_end e = (e ≡ hard_end) ⊎ ((i < e) × (e ≤ hard_end))

module _ (gear_table : ℕ → ℕ) where
  scan-Scanned :
      (mask : ℕ) (bytes : Text) (rounds i fp stop : ℕ)
      → rounds ≡ stop - i
      → Scanned i stop (scan gear_table mask bytes rounds i fp)
  unfolding scan
  scan-Scanned mask bytes zero i fp stop e = omega arith
  scan-Scanned mask bytes (suc rounds) i fp stop e =
      Scanned-step _ i stop _ (omega arith)
        (scan-Scanned mask bytes rounds (i + 1) _ stop (omega arith))

  after_loose-CutFrom :
      (hard_end i : ℕ) (s : Scan)
      → Scanned i hard_end s
      → CutFrom i hard_end (after_loose gear_table hard_end s)
  unfolding after_loose
  after_loose-CutFrom hard_end i (cut e) h = inr h
  after_loose-CutFrom hard_end i (ended j fp) h = inl refl

  after_strict-CutFrom :
      (bytes : Text) (norm_end hard_end i : ℕ) (s : Scan)
      → norm_end ≤ hard_end
      → Scanned i norm_end s
      → CutFrom i hard_end (after_strict gear_table bytes hard_end s)
  unfolding after_strict
  after_strict-CutFrom bytes norm_end hard_end i (cut e) le h = inr (omega arith)
  after_strict-CutFrom bytes norm_end hard_end i (ended j fp) le h =
      widen (after_loose-CutFrom hard_end j _ (scan-Scanned mask_l bytes _ j fp hard_end refl))
    where
      widen : {e : ℕ} → CutFrom j hard_end e → CutFrom i hard_end e
      widen (inl e) = inl e
      widen (inr h') = inr (omega arith)

  pub cut_point-CutFrom :
      (bytes : Text) (start : ℕ) (c : GearCdc)
      → CutFrom
          (start + c.min_size)
          (min (start + c.max_size) (length bytes))
          (cut_point gear_table bytes start c)
  unfolding cut_point
  cut_point-CutFrom bytes start c =
      after_strict-CutFrom bytes _ _ _ _ (omega arith)
        (scan-Scanned mask_s bytes _ (start + c.min_size) 0 _ refl)

  -- From a start inside the data and with a positive `max_size`, the cut is after the start, within
  -- the data and at most `max_size` away; and a cut before the forced one leaves more than
  -- `min_size` bytes.
  pub cut_point_bounds :
      (bytes : Text) (start : ℕ) (c : GearCdc)
      → start < length bytes
      → 0 < c.max_size
      → (start < cut_point gear_table bytes start c)
        × (cut_point gear_table bytes start c ≤ length bytes)
        × (cut_point gear_table bytes start c ≤ start + c.max_size)
        × ((cut_point gear_table bytes start c ≡ min (start + c.max_size) (length bytes))
            ⊎ (start + c.min_size < cut_point gear_table bytes start c))
  cut_point_bounds bytes start c h pos = omega (arith, cut_point-CutFrom bytes start c)
