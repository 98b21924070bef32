-- ===== src/Localvec/Snapshots/Names.antt =====
-- The names of a snapshot's files: none is another's.
use edge_proc.Prelude.{
  ℕ, zero, suc, ◌+◌, ◌*◌, ◌-◌, ◌/◌, ◌%◌, ◌^◌, ◌<◌, ◌≡◌, ◌≢◌, ◌∙◌, refl, sym, ap, Bool, true, false,
  ◌&&◌, ◌||◌, [], ◌∷◌, ◌++◌, Text, length, length-append, take, drop, drop-drop, all, leb, ◌==◌,
  nat_eq, text_eq, arith, ℕ_discrete, Text-discrete,
}
use edge_proc.Prelude.Codes.{codes}
use edge_proc.Core.Duration.{is_digit}
use edge_proc.Manifest.{is_hex, is_hex_of}
use edge_proc.Localvec.Snapshots.{
  padded, number_from, manifest_suffix, is_manifest, manifest_sequence, manifest_name, index_final,
  state_final, index_temp, state_temp, manifest_temp,
}
use edge_proc.Localvec.Snapshots.Commit.{is_generation_data, data_generation}

length-padded : (w n : ℕ) → length (padded w n) ≡ w
unfolding padded
length-padded zero n = refl
length-padded (suc w) n =
    omega (arith, length-padded w (n / 10), length-append (padded w (n / 10)) ((48 + n % 10) ∷ []))

number_from-snoc :
    (acc : ℕ) (cs : Text) (c : ℕ)
    → number_from acc (cs ++ c ∷ []) ≡ number_from acc cs * 10 + (c - 48)
unfolding number_from
number_from-snoc acc [] c = refl
number_from-snoc acc (d ∷ cs) c = number_from-snoc (acc * 10 + (d - 48)) cs c

-- Padding loses nothing of a number that fits.
number_from-padded : (w n : ℕ) → n < 10 ^ w → number_from 0 (padded w n) ≡ n
unfolding padded number_from
number_from-padded zero n h = omega arith
number_from-padded (suc w) n h =
    let shorter : n / 10 < 10 ^ w = omega arith in
    omega (
      arith,
      number_from-padded w (n / 10) shorter,
      number_from-snoc 0 (padded w (n / 10)) (48 + n % 10),
    )

digits-padded : (w n : ℕ) → all is_digit (padded w n) ≡ true
unfolding padded
digits-padded zero n = refl
digits-padded (suc w) n =
    let last : is_digit (48 + n % 10) ≡ true = ground arith in
    all-snoc (padded w (n / 10)) (48 + n % 10) (digits-padded w (n / 10)) last
  where
    all-snoc :
        (cs : Text) (c : ℕ)
        → all is_digit cs ≡ true
        → is_digit c ≡ true
        → all is_digit (cs ++ c ∷ []) ≡ true
    all-snoc [] c h e = ground (arith, e)
    all-snoc (d ∷ cs) c h e = ground (arith, all-snoc cs c (ground arith) e)

take-front : (xs ys : Text) → take (length xs) (xs ++ ys) ≡ xs
take-front [] ys = refl
take-front (x ∷ xs) ys = ap (λ zs. x ∷ zs) (take-front xs ys)

drop-front : (xs ys : Text) → drop (length xs) (xs ++ ys) ≡ ys
drop-front [] ys = refl
drop-front (x ∷ xs) ys = drop-front xs ys

take-name : (n : ℕ) → take 20 (manifest_name n) ≡ padded 20 n
unfolding manifest_name
take-name n =
    ap (λ w. take w (padded 20 n ++ manifest_suffix)) (sym (length-padded 20 n))
    ∙ take-front (padded 20 n) manifest_suffix

drop-name : (n : ℕ) → drop 20 (manifest_name n) ≡ manifest_suffix
unfolding manifest_name
drop-name n =
    ap (λ w. drop w (padded 20 n ++ manifest_suffix)) (sym (length-padded 20 n))
    ∙ drop-front (padded 20 n) manifest_suffix

-- The name of a sequence number is a manifest's, and gives the number back.
pub manifest_sequence-name : (n : ℕ) → n < 10 ^ 20 → manifest_sequence (manifest_name n) ≡ n
unfolding manifest_sequence
manifest_sequence-name n h = ap (number_from 0) (take-name n) ∙ number_from-padded 20 n h

length-name : (n : ℕ) → length (manifest_name n) ≡ 34
unfolding manifest_name
length-name n = omega (arith, length-append (padded 20 n) manifest_suffix, length-padded 20 n)

pub manifest_name-is_manifest : (n : ℕ) → is_manifest (manifest_name n) ≡ true
unfolding is_manifest
manifest_name-is_manifest n =
    let front : all is_digit (take 20 (manifest_name n)) ≡ true =
      ap (all is_digit) (take-name n) ∙ digits-padded 20 n in
    ground (arith, length-name n, front, drop-name n)

pub length-manifest : (name : Text) → is_manifest name ≡ true → length name ≡ 34
unfolding is_manifest
length-manifest name h = ground arith

pub length-hex : (n : ℕ) (t : Text) → is_hex_of n t ≡ true → length t ≡ n
length-hex n t h = ground arith

pub length-index_final : (g : Text) → length (index_final g) ≡ length g + 6
unfolding index_final
length-index_final g = length-append g (codes ".faiss")

pub length-state_final : (g : Text) → length (state_final g) ≡ length g + 11
unfolding state_final
length-state_final g = length-append g (codes ".state.json")

pub length-index_temp : (g : Text) → length (index_temp g) ≡ length g + 10
unfolding index_temp
length-index_temp g = length-append g (codes ".faiss.tmp")

pub length-state_temp : (g : Text) → length (state_temp g) ≡ length g + 15
unfolding state_temp
length-state_temp g = length-append g (codes ".state.json.tmp")

pub length-manifest_temp : (u : Text) → length (manifest_temp u) ≡ length u + 14
unfolding manifest_temp
length-manifest_temp u = omega (arith, length-append u (codes ".manifest.tmp"))

-- Names of different lengths differ.
pub other_length : (a b : Text) → length a ≢ length b → (a == b) ≡ false
other_length a b h = elim (text_eq.dec a b) [
  | yes e ↦ absurd (h (ap length e))
  | no n ↦ ground (arith, n)
]

append-cancel : (a b s : Text) → length a ≡ length b → a ++ s ≡ b ++ s → a ≡ b
append-cancel a b s h e =
    sym (take-front a s) ∙ ap (λ n. take n (a ++ s)) h ∙ ap (take (length b)) e ∙ take-front b s

pub other_index :
    (a b : Text) → length a ≡ length b → (a == b) ≡ false → (index_final a == index_final b) ≡ false
unfolding index_final
other_index a b h e = elim (text_eq.dec (a ++ codes ".faiss") (b ++ codes ".faiss")) [
  | yes same ↦ absurd (ground (arith, append-cancel a b (codes ".faiss") h same, e))
  | no n ↦ ground (arith, n)
]

pub other_state :
    (a b : Text) → length a ≡ length b → (a == b) ≡ false → (state_final a == state_final b) ≡ false
unfolding state_final
other_state a b h e = elim (text_eq.dec (a ++ codes ".state.json") (b ++ codes ".state.json")) [
  | yes same ↦ absurd (ground (arith, append-cancel a b (codes ".state.json") h same, e))
  | no n ↦ ground (arith, n)
]

-- A generation has no dot, so the data of a generation name it.
pub data_generation-hex : (g s : Text) → all is_hex g ≡ true → data_generation (g ++ 46 ∷ s) ≡ g
unfolding data_generation ℕ_discrete
data_generation-hex [] s h = refl
data_generation-hex (c ∷ g) s h = ground (arith, data_generation-hex g s)

suffix : (name : Text) → is_manifest name ≡ true → drop 20 name ≡ manifest_suffix
unfolding is_manifest
suffix name h = ground arith

nowhere : (a b c d : Bool) → (a && false || b && false || c && false || d && false) ≡ false
nowhere a b c d = ground arith

abbrev first : Text → ℕ
first [] = 0
first (c ∷ cs) = c

not-shifted : (t : Text) → drop 1 t ≡ manifest_suffix → (t == codes ".state.json.tmp") ≡ false
not-shifted t h = elim (text_eq.dec t (codes ".state.json.tmp")) [
  | yes e ↦ absurd (omega (arith, ap first (sym h ∙ ap (drop 1) e)))
  | no n ↦ ground (arith, n)
]

-- A manifest is not taken for the data of a generation.
pub manifest-data : (name : Text) → is_manifest name ≡ true → is_generation_data name ≡ false
unfolding is_generation_data is_manifest Text-discrete ℕ_discrete
manifest-data name h =
    let sized = length-manifest name h in
    let tail : drop 20 name ≡ manifest_suffix = suffix name h in
    let faiss : (drop (length name - 6) name == codes ".faiss") ≡ false =
      ap (λ n. drop (n - 6) name == codes ".faiss") sized
      ∙ ap (λ t. t == codes ".faiss")
          (sym (drop-drop 8 20 28 name (omega arith)) ∙ ap (drop 8) tail) in
    let state : (drop (length name - 11) name == codes ".state.json") ≡ false =
      ap (λ n. drop (n - 11) name == codes ".state.json") sized
      ∙ ap (λ t. t == codes ".state.json")
          (sym (drop-drop 3 20 23 name (omega arith)) ∙ ap (drop 3) tail) in
    let faiss_tmp : (drop (length name - 10) name == codes ".faiss.tmp") ≡ false =
      ap (λ n. drop (n - 10) name == codes ".faiss.tmp") sized
      ∙ ap (λ t. t == codes ".faiss.tmp")
          (sym (drop-drop 4 20 24 name (omega arith)) ∙ ap (drop 4) tail) in
    let state_tmp : (drop (length name - 15) name == codes ".state.json.tmp") ≡ false =
      ap (λ n. drop (n - 15) name == codes ".state.json.tmp") sized
      ∙ not-shifted (drop 19 name) (drop-drop 1 19 20 name (omega arith) ∙ tail) in
    rw (faiss, state, faiss_tmp, state_tmp)
      (nowhere (leb 6 (length name)) (leb 11 (length name)) (leb 10 (length name))
        (leb 15 (length name)))
