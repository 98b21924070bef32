-- ===== src/Localvec/Index/Search.antt =====
-- What a search returns: over-fetching by the dead rows loses no live hit.
use edge_proc.Prelude.{
  ℕ, zero, suc, ◌+◌, ◌-◌, ◌<◌, ◌≤◌, ◌≡◌, ◌∙◌, refl, ap, inl, inr, Bool, true, false, ◌&&◌, not,
  Option, none, some, List, [], ◌∷◌, Text, length, take, get_elem?, ltb, ◌==◌, nat_eq, text_eq,
  option_eq, if◌then◌else◌, arith, Bool-cases, Option-cases,
}
use edge_proc.Prelude.Dicts.{get, keys, has-get, has-keys, distinct_keys}
use edge_proc.Exec.{ok}
use edge_proc.Manifest.{Scalar}
use edge_proc.Localvec.Flat.{Flat, IsFlat, count_row}
use edge_proc.Localvec.Index.{IndexConfig, Metadata, State, passes, candidate, cons_hit, collect}
use edge_proc.Localvec.Index.Valid.{IsValid, get_elem?-some}

module _ (f : Flat) (same : Scalar → Scalar → Bool) (default : IndexConfig) where
  -- The id that a row stands for, if the row is the id's current one and its metadata pass.
  abbrev pub owner : State f → Option Metadata → ℕ → Option Text
  owner s filters row = elim (get_elem? s.faiss_ids row) [
    | none ↦ none
    | some id ↦
        if get s.row_of id == some row
        then elim (get s.meta id) [
          | none ↦ none
          | some meta ↦ if passes same meta filters then some id else none
        ]
        else none
  ]

  abbrev pub cons_owner : Option Text → f.Float → List (Text × f.Float) → List (Text × f.Float)
  cons_owner none d hits = hits
  cons_owner (some id) d hits = (id, d) ∷ hits

  -- Every hit of a ranking, in its order
  abbrev pub hits : State f → Option Metadata → List (f.Score × ℕ) → List (Text × f.Float)
  hits s filters [] = []
  hits s filters ((score, row) ∷ ranked) =
      cons_owner (owner s filters row) (f.distance score) (hits s filters ranked)

  abbrev pub misses : State f → Option Metadata → List (f.Score × ℕ) → ℕ
  misses s filters [] = 0
  misses s filters ((score, row) ∷ ranked) =
      elim (owner s filters row) [ none ↦ 1 | some id ↦ 0 ] + misses s filters ranked

  take-nil : {A : Type 0} (n : ℕ) → take {A = A} n [] ≡ []
  take-nil zero = refl
  take-nil (suc n) = refl

  -- A fetch of the `misses` more than `k` gives the first `k` hits of the whole ranking.
  pub take-hits :
      (s : State f) (filters : Option Metadata) (k m : ℕ) (ranked : List (f.Score × ℕ))
      → misses s filters ranked ≤ m
      → take k (hits s filters (take (k + m) ranked)) ≡ take k (hits s filters ranked)
  take-hits s filters k m [] h = ap (λ xs. take k (hits s filters xs)) (take-nil (k + m))
  take-hits s filters zero m (hit ∷ ranked) h = refl
  take-hits s filters (suc k) m ((score, row) ∷ ranked) h =
      elim (Option-cases (owner s filters row)) [
        | inr (id, some') ↦
            let next : suc k + m ≡ suc (k + m) = omega arith in
            ap (λ n. take (suc k) (hits s filters (take n ((score, row) ∷ ranked)))) next
            ∙ rw some' (
                ap (λ xs. (id, f.distance score) ∷ xs)
                  (take-hits s filters k m ranked (ground (arith, some', h))))
        | inl none' ↦
            let less : misses s filters ranked + 1 ≤ m = ground (arith, none', h) in
            let more : suc k + m ≡ suc (suc k + (m - 1)) = omega (arith, less) in
            ap (λ n. take (suc k) (hits s filters (take n ((score, row) ∷ ranked)))) more
            ∙ rw none' (take-hits s filters (suc k) (m - 1) ranked (omega (arith, less)))
      ]

  -- The rows of a ranking that are below `n`
  abbrev pub below : ℕ → List (f.Score × ℕ) → Bool
  below n [] = true
  below n ((score, row) ∷ ranked) = ltb row n && below n ranked

module _ (f : Flat) (l : IsFlat f) (same : Scalar → Scalar → Bool) (default : IndexConfig) where
  -- On a valid index no key is missing: a row is skipped, or it is its owner's.
  candidate-owner :
      (s : State f) (filters : Option Metadata) (row : ℕ)
      → IsValid f l s
      → row < length s.faiss_ids
      → candidate f same default s filters row ≡ ok (owner f same default s filters row)
  unfolding candidate
  candidate-owner s filters row v h =
      let (id, at) = get_elem?-some s.faiss_ids row h in
      elim (Bool-cases (get s.row_of id == some row)) [
        | inr stale ↦ rw (at, candidate, owner, stale) refl
        | inl current ↦ elim (Option-cases (get s.meta id)) [
          | inr (meta, found) ↦ rw (at, candidate, owner, current, found) refl
          | inl lost ↦ absurd (
              ground (arith, current, v.described id, has-get s.meta id, has-get s.row_of id, lost))
        ]
      ]

  pub collect-hits :
      (s : State f) (filters : Option Metadata) (k : ℕ) (ranked : List (f.Score × ℕ))
      → IsValid f l s
      → below f same default (length s.faiss_ids) ranked ≡ true
      → collect f same default s filters k ranked
        ≡ ok (take k (hits f same default s filters ranked))
  unfolding collect
  collect-hits s filters zero ranked v h = refl
  collect-hits s filters (suc k) [] v h = refl
  collect-hits s filters (suc k) ((score, row) ∷ ranked) v h =
      let found = candidate-owner s filters row v (ground arith) in
      elim (Option-cases (owner f same default s filters row)) [
        | inl none' ↦
            rw (found, collect, none') (collect-hits s filters (suc k) ranked v (ground arith))
        | inr (id, some') ↦
            rw (found, collect, some')
              (ap (cons_hit f same default (id, f.distance score))
                (collect-hits s filters k ranked v (ground arith)))
      ]

-- How many members of a list pass
abbrev pub acc : (ℕ → Bool) → List ℕ → ℕ
acc p [] = 0
acc p (n ∷ ns) = (if p n then 1 else 0) + acc p ns

acc-split :
    (p : ℕ → Bool) (r : ℕ) (ns : List ℕ)
    → p r ≡ true
    → acc p ns ≡ acc (λ n. p n && not (n == r)) ns + count_row r ns
acc-split p r [] h = omega arith
acc-split p r (n ∷ ns) h = elim (nat_eq.dec n r) [
  | yes e ↦ ground (arith, acc-split p r ns h, ap p e, h, e)
  | no ne ↦ ground (arith, acc-split p r ns h, ne)
]

-- Every key of a dict has a row of its own, so as many rows pass as the dict has keys.
pub acc-keys :
    (d : List (Text × ℕ)) (ids : List Text) (p : ℕ → Bool) (ns : List ℕ)
    → distinct_keys (keys d) ≡ true
    → ((q : Text) (r : ℕ) → get d q ≡ some r → get_elem? ids r ≡ some q)
    → ((q : Text) (r : ℕ) → get d q ≡ some r → p r ≡ true)
    → ((q : Text) (r : ℕ) → get d q ≡ some r → 1 ≤ count_row r ns)
    → length d ≤ acc p ns
acc-keys [] ids p ns u at passes' counted = omega arith
acc-keys ((k, r) ∷ d) ids p ns u at passes' counted =
    let here : get ((k, r) ∷ d) k ≡ some r = ground arith in
    let other : (q : Text) (n : ℕ) → get d q ≡ some n → k == q ≡ false = λ q n e.
      elim (text_eq.dec k q) [
        | yes same ↦ absurd (ground (arith, u, has-keys d q, has-get d q, e, same))
        | no ne ↦ ground (arith, ne)
      ] in
    let there : (q : Text) (n : ℕ) → get d q ≡ some n → get ((k, r) ∷ d) q ≡ some n =
      λ q n e. ground (arith, other q n e, e) in
    let apart : (q : Text) (n : ℕ) → get d q ≡ some n → n == r ≡ false = λ q n e.
      elim (nat_eq.dec n r) [
        | yes same ↦ absurd (ground (arith, other q n e, at k r here, at q n (there q n e), same))
        | no ne ↦ ground (arith, ne)
      ] in
    let rest =
      acc-keys d ids (λ n. p n && not (n == r)) ns (ground (arith, u))
        (λ q n e. at q n (there q n e))
        (λ q n e. ground (arith, passes' q n (there q n e), apart q n e))
        (λ q n e. counted q n (there q n e)) in
    omega (arith, rest, acc-split p r ns (passes' k r here), counted k r here)
