-- ===== src/Chunking/Resync.antt =====
-- A boundary forgets what stands before it: the chunks after it depend on the data after it alone.
use mathlib.Core.Option.{some-injective}
use edge_proc.Prelude.{
  ℕ, zero, suc, ◌+◌, ◌-◌, ◌≤◌, ◌<◌, min, ◌≡◌, refl, sym, ap, subst, ◌∙◌, ◌⊎◌, inl, inr,
  Option-cases, Bool, true, false, arith, some, List, [], ◌∷◌, ◌++◌, length, get_or, take, drop,
  concat, length-drop, drop-drop, Text, ltb, if◌then◌else◌, Bool-cases,
}
use edge_proc.Chunking.{
  GearCdc, Scan, cut, ended, roll, scan, after_loose, after_strict, cut_point, chunk_from, chunk,
  mask_l, mask_s,
}
use edge_proc.Chunking.Bounds.{cut_point_bounds}
use edge_proc.Chunking.Rejoin.{chunk-Chunks}

abbrev shift : ℕ → Scan → Scan
shift k (cut e) = cut (k + e)
shift k (ended i fp) = ended (k + i) fp

get_or-drop : (k i j : ℕ) (bytes : Text) → j ≡ k + i → get_or bytes j 0 ≡ get_or (drop k bytes) i 0
get_or-drop zero i j bytes e = ap (λ n. get_or bytes n 0) (omega arith)
get_or-drop (suc k) i j [] e = refl
get_or-drop (suc k) i zero (x ∷ xs) e = absurd (omega arith)
get_or-drop (suc k) i (suc j) (x ∷ xs) e = get_or-drop k i j xs (omega arith)

shift-if :
    (b : Bool) (k i j : ℕ) (s t : Scan)
    → j ≡ k + i
    → s ≡ shift k t
    → (if b then cut (j + 1) else s) ≡ shift k (if b then cut (i + 1) else t)
shift-if true k i j s t e h = ap cut (omega arith)
shift-if false k i j s t e h = h

cons-tail {ℓ} : {A : Type ℓ} {x y : A} {xs ys : List A} → x ∷ xs ≡ y ∷ ys → xs ≡ ys
cons-tail e = cc

module _ (gear_table : ℕ → ℕ) where
  scan-drop :
      (mask k : ℕ) (bytes : Text) (rounds i j fp : ℕ)
      → j ≡ k + i
      → scan gear_table mask bytes rounds j fp
        ≡ shift k (scan gear_table mask (drop k bytes) rounds i fp)
  unfolding scan roll
  scan-drop mask k bytes zero i j fp e = ap (λ n. ended n fp) e
  scan-drop mask k bytes (suc rounds) i j fp e =
      rw (get_or-drop k i j bytes e)
        (shift-if _ k i j _ _ e (scan-drop mask k bytes rounds (i + 1) (j + 1) _ (omega arith)))

  after_strict-drop :
      (k : ℕ) (bytes : Text) (h h' : ℕ) (s : Scan)
      → h' ≡ k + h
      → after_strict gear_table bytes h' (shift k s)
        ≡ k + after_strict gear_table (drop k bytes) h s
  unfolding after_strict after_loose
  after_strict-drop k bytes h h' (cut e) p = refl
  after_strict-drop k bytes h h' (ended i fp) p =
      let same : h' - (k + i) ≡ h - i = omega arith in
      rw (same, scan-drop mask_l k bytes (h - i) i (k + i) fp refl) (loose _)
    where
      loose : (s : Scan) → after_loose gear_table h' (shift k s) ≡ k + after_loose gear_table h s
      loose (cut e) = refl
      loose (ended i fp) = p

  cut_point-drop :
      (k s t : ℕ) (bytes : Text) (c : GearCdc)
      → k ≤ length bytes
      → t ≡ k + s
      → cut_point gear_table bytes t c ≡ k + cut_point gear_table (drop k bytes) s c
  unfolding cut_point
  cut_point-drop k s t bytes c h e =
      let same : min (t + c.max_size) (length bytes)
          ≡ k + min (s + c.max_size) (length (drop k bytes)) =
        omega (arith, length-drop k bytes) in
      let rounds : min (t + c.avg_size) (min (t + c.max_size) (length bytes)) - (t + c.min_size)
          ≡ min (s + c.avg_size) (min (s + c.max_size) (length (drop k bytes))) - (s + c.min_size) =
        omega (arith, length-drop k bytes) in
      ap
        (λ r.
          after_strict gear_table bytes (min (t + c.max_size) (length bytes))
            (scan gear_table mask_s bytes r (t + c.min_size) 0))
        rounds
      ∙ ap (after_strict gear_table bytes (min (t + c.max_size) (length bytes)))
          (scan-drop mask_s k bytes _ (s + c.min_size) (t + c.min_size) 0 (omega arith))
      ∙ after_strict-drop k bytes _ _ _ same

  chunk_from-drop :
      (fuel k s t : ℕ) (bytes : Text) (c : GearCdc)
      → k ≤ length bytes
      → t ≡ k + s
      → chunk_from gear_table fuel bytes t c ≡ chunk_from gear_table fuel (drop k bytes) s c
  unfolding chunk_from
  chunk_from-drop zero k s t bytes c h e = refl
  chunk_from-drop (suc fuel) k s t bytes c h e =
      let end : ℕ = cut_point gear_table (drop k bytes) s c in
      let size : k + end - t ≡ end - s = omega arith in
      let test : ltb t (length bytes) ≡ ltb s (length (drop k bytes)) =
        ground (arith, length-drop k bytes) in
      rw (
        cut_point-drop k s t bytes c h e,
        drop-drop s k t bytes e,
        chunk_from-drop fuel k end (k + end) bytes c h refl,
        size,
        test,
      )

  -- One round of a run that ends.
  chunk_from_step :
      (f : ℕ) (bytes : Text) (s : ℕ) (c : GearCdc) (xs : List Text)
      → chunk_from gear_table (suc f) bytes s c ≡ some xs
      → ((r : List Text) × (ltb s (length bytes) ≡ true)
          × (chunk_from gear_table f bytes (cut_point gear_table bytes s c) c ≡ some r)
          × (xs ≡ take (cut_point gear_table bytes s c - s) (drop s bytes) ∷ r))
        ⊎ ((ltb s (length bytes) ≡ false) × (xs ≡ []))
  unfolding chunk_from
  chunk_from_step f bytes s c xs e = elim (Bool-cases (ltb s (length bytes))) [
    | inr done ↦ inr (done, ground (arith, e))
    | inl more ↦
        elim (Option-cases (chunk_from gear_table f bytes (cut_point gear_table bytes s c) c)) [
          | inl out ↦ absurd (ground (arith, e))
          | inr (r, e') ↦ inl (r, more, e', ground (arith, e))
        ]
  ]

  -- Two runs with enough fuel agree.
  chunk_from_unique :
      (f g : ℕ) (bytes : Text) (s : ℕ) (c : GearCdc) (xs ys : List Text)
      → chunk_from gear_table f bytes s c ≡ some xs
      → chunk_from gear_table g bytes s c ≡ some ys
      → xs ≡ ys
  unfolding chunk_from
  chunk_from_unique zero g bytes s c xs ys p q = cc
  chunk_from_unique (suc f) zero bytes s c xs ys p q = cc
  chunk_from_unique (suc f) (suc g) bytes s c xs ys p q = elim (chunk_from_step f bytes s c xs p) [
    | inr (done, e) ↦ elim (chunk_from_step g bytes s c ys q) [
      | inr (done', e') ↦ cc
      | inl (r, more, e', e'') ↦ cc
    ]
    | inl (r, more, e, e') ↦ elim (chunk_from_step g bytes s c ys q) [
      | inr (done, e'') ↦ cc
      | inl (r', more', d, d') ↦ cc (chunk_from_unique f g bytes _ c r r' e d)
    ]
  ]

  module _ (c : GearCdc) (pos : 0 < c.max_size) where
    -- A run from inside the data is the run on what is left of it.
    chunk-drop :
        (f : ℕ) (bytes : Text) (s : ℕ) (ds : List Text)
        → s ≤ length bytes
        → chunk_from gear_table f bytes s c ≡ some ds
        → chunk gear_table (concat ds) c ≡ some ds
    unfolding chunk
    chunk-drop f bytes s ds h e =
        let zeroed : chunk_from gear_table f (drop s bytes) 0 c ≡ some ds =
          sym (chunk_from-drop f s 0 s bytes c h (omega arith)) ∙ e in
        let (xs, run, whole) = chunk-Chunks gear_table c pos (drop s bytes) in
        let same : xs ≡ ds =
          chunk_from_unique (suc (length (drop s bytes))) f (drop s bytes) 0 c xs ds run zeroed in
        let joined : concat ds ≡ drop s bytes = ap concat (sym same) ∙ whole.rejoined in
        subst (λ t. chunk gear_table t c ≡ some ds) (sym joined) (run ∙ ap some same)

    chunk_from_tail :
        (f : ℕ) (bytes : Text) (s : ℕ) (cs ds : List Text)
        → s ≤ length bytes
        → chunk_from gear_table f bytes s c ≡ some (cs ++ ds)
        → chunk gear_table (concat ds) c ≡ some ds
    unfolding chunk_from
    chunk_from_tail f bytes s [] ds h e = chunk-drop f bytes s ds h e
    chunk_from_tail zero bytes s (x ∷ cs) ds h e = cc
    chunk_from_tail (suc f) bytes s (x ∷ cs) ds h e =
        elim (chunk_from_step f bytes s c (x ∷ cs ++ ds) e) [
          | inr (done, e') ↦ cc
          | inl (r, more, e', e'') ↦
              chunk_from_tail f bytes _ cs ds
                (cut_point_bounds gear_table bytes s c (ground arith) pos).1
                (e' ∙ ap some (sym (cons-tail e'')))
        ]

    -- The chunks of a tail of the chunk list are the chunking of the data that the tail joins to.
    pub chunk_tail :
        (bytes : Text) (cs ds : List Text)
        → chunk gear_table bytes c ≡ some (cs ++ ds)
        → chunk gear_table (concat ds) c ≡ some ds
    unfolding chunk
    chunk_tail bytes cs ds e = chunk_from_tail (suc (length bytes)) bytes 0 cs ds (omega arith) e

    -- Two inputs that differ only before a boundary of both have the same chunks after it: if the
    -- chunks of each end with chunks that join to the same data, these chunks are the same.
    pub chunk_resync :
        (a b : Text) (cs cs' ds ds' : List Text)
        → chunk gear_table a c ≡ some (cs ++ ds)
        → chunk gear_table b c ≡ some (cs' ++ ds')
        → concat ds ≡ concat ds'
        → ds ≡ ds'
    chunk_resync a b cs cs' ds ds' p q e =
        some-injective _ _
          (sym (chunk_tail a cs ds p) ∙ ap (λ t. chunk gear_table t c) e ∙ chunk_tail b cs' ds' q)
