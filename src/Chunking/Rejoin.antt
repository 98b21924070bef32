-- ===== src/Chunking/Rejoin.antt =====
-- `GearCDC.chunk` ends, and its chunks are the data.
use edge_proc.Prelude.{
  ℕ, zero, suc, ◌-◌, ◌≤◌, ◌<◌, ◌≡◌, sym, ap, ◌∙◌, ◌⊎◌, inl, inr, arith, some, List, [], ◌∷◌, ◌++◌,
  length, take, drop, concat, take-append-drop, length-take, length-append, length-drop, drop-drop,
  drop_all, Text, ltb, Bool-cases,
}
use edge_proc.Prelude.Members.{All}
use edge_proc.Chunking.{GearCdc, cut_point, chunk_from, chunk}
use edge_proc.Chunking.Bounds.{cut_point_bounds}

-- A predicate of every item that another item follows.
abbrev pub AllButLast {ℓ} : {A : Type ℓ} → (A → Type 0) → List A → Type 0
AllButLast P [] = Unit
AllButLast P (x ∷ []) = Unit
AllButLast P (x ∷ y ∷ r) = P x × AllButLast P (y ∷ r)

abbrev pub IsSmall : GearCdc → Text → Type 0
IsSmall c x = (0 < length x) × (length x ≤ c.max_size)

abbrev pub IsLong : GearCdc → Text → Type 0
IsLong c x = (length x ≡ c.max_size) ⊎ (c.min_size < length x)

-- What the chunks of `rest` are like.
pub record Chunks (c : GearCdc) (rest : Text) (cs : List Text) : Type 0 where
  pub rejoined : concat cs ≡ rest
  pub small : All (IsSmall c) cs
  pub long : AllButLast (IsLong c) cs

slice-append :
    (start end : ℕ) (bytes : Text)
    → start ≤ end
    → take (end - start) (drop start bytes) ++ drop end bytes ≡ drop start bytes
slice-append start end bytes h =
    rw (← drop-drop (end - start) start end bytes (omega arith))
      (take-append-drop (end - start) (drop start bytes))

length-slice :
    (start end : ℕ) (bytes : Text)
    → end ≤ length bytes
    → length (take (end - start) (drop start bytes)) ≡ end - start
length-slice start end bytes h =
    omega (arith, length-take (end - start) (drop start bytes), length-drop start bytes)

Chunks-cons :
    (c : GearCdc) (x rest whole : Text) (cs : List Text)
    → x ++ rest ≡ whole
    → IsSmall c x
    → (0 < length rest → IsLong c x)
    → Chunks c rest cs
    → Chunks c whole (x ∷ cs)
Chunks-cons c x rest whole [] e sm lg h = record {
  rejoined = ap (λ r. x ++ r) h.rejoined ∙ e;
  small = (sm, tt);
  long = tt;
}
Chunks-cons c x rest whole (y ∷ ys) e sm lg h = record {
  rejoined = ap (λ r. x ++ r) h.rejoined ∙ e;
  small = (sm, h.small);
  long = (lg (rw (← h.rejoined) (omega (arith, length-append y (concat ys), h.small.0.0))), h.long);
}

module _ (gear_table : ℕ → ℕ) (c : GearCdc) (pos : 0 < c.max_size) where
  -- One round of `chunk`, whose cut is `end`, before chunks of what is left.
  Chunks-round :
      (bytes : Text) (start : ℕ) (cs : List Text)
      → start < length bytes
      → Chunks c (drop (cut_point gear_table bytes start c) bytes) cs
      → Chunks c
          (drop start bytes)
          (take (cut_point gear_table bytes start c - start) (drop start bytes) ∷ cs)
  Chunks-round bytes start cs h rest =
      let end : ℕ = cut_point gear_table bytes start c in
      let (after, inside, near, early) = cut_point_bounds gear_table bytes start c h pos in
      let size : length (take (end - start) (drop start bytes)) ≡ end - start =
        length-slice start end bytes inside in
      Chunks-cons c _ _ _ cs (slice-append start end bytes (omega arith)) (omega arith, omega arith)
        (λ left. omega (arith, length-drop end bytes, early)) rest

  chunk_from-Chunks :
      (fuel : ℕ) (bytes : Text) (start : ℕ)
      → length bytes - start < fuel
      → (cs : List Text) × (chunk_from gear_table fuel bytes start c ≡ some cs)
        × Chunks c (drop start bytes) cs
  unfolding chunk_from
  chunk_from-Chunks zero bytes start enough = absurd (omega arith)
  chunk_from-Chunks (suc fuel) bytes start enough = elim (Bool-cases (ltb start (length bytes))) [
    | inr done ↦ (
      [],
      rw done,
      record { rejoined = sym (drop_all start bytes (ground arith)); small = tt; long = tt },
    )
    | inl more ↦
        let lt : start < length bytes = ground arith in
        let (cs, e, h) =
          chunk_from-Chunks fuel bytes (cut_point gear_table bytes start c)
            (omega (arith, cut_point_bounds gear_table bytes start c lt pos)) in
        (
          take (cut_point gear_table bytes start c - start) (drop start bytes) ∷ cs,
          rw (more, e),
          Chunks-round bytes start cs lt h,
        )
  ]

  -- With a positive `max_size` the chunker ends on every input. Its chunks joined are the data;
  -- each is non-empty and at most `max_size` long; and each but the last is longer than `min_size`
  -- or exactly `max_size` long.
  pub chunk-Chunks :
      (bytes : Text) → (cs : List Text) × (chunk gear_table bytes c ≡ some cs) × Chunks c bytes cs
  unfolding chunk
  chunk-Chunks bytes = chunk_from-Chunks (suc (length bytes)) bytes 0 (omega arith)
