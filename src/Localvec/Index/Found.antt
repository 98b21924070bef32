-- ===== src/Localvec/Index/Found.antt =====
-- A search of a valid index finds what the whole ranking holds.
use edge_proc.Prelude.{
  ℕ, zero, suc, ◌+◌, ◌-◌, ◌≤◌, ◌≡◌, ◌∙◌, refl, sym, ap, inl, inr, min, Bool, true, false, Option,
  none, some, List, [], ◌∷◌, Text, length, take, get_elem?, ltb, ◌==◌, nat_eq, text_eq, option_eq,
  arith, Bool-cases, Option-cases,
}
use edge_proc.Prelude.Int.{ℤ, positive}
use edge_proc.Prelude.Dicts.{get, has-get, length-keys}
use edge_proc.Exec.{ok}
use edge_proc.Manifest.{Scalar}
use edge_proc.Localvec.Flat.{Flat, IsFlat, count_row, row_numbers}
use edge_proc.Localvec.Index.{
  IndexConfig, Metadata, State, passes, search_some, search_sync, search,
}
use edge_proc.Localvec.Index.Valid.{last_row-at, IsValid, get_elem?-lt}
use edge_proc.Localvec.Index.Search.{
  owner, hits, misses, below, take-hits, collect-hits, acc, acc-keys,
}

abbrev owned : {A : Type 0} → Option A → Bool
owned none = false
owned (some a) = true

module _ (f : Flat) (l : IsFlat f) (same : Scalar → Scalar → Bool) (default : IndexConfig) where
  below-ranked :
      (n : ℕ) (ranked : List (f.Score × ℕ))
      → ((r : ℕ) → n ≤ r → count_row r (row_numbers ranked) ≡ 0)
      → below f same default n ranked ≡ true
  below-ranked n [] h = refl
  below-ranked n ((score, row) ∷ ranked) h = elim (Bool-cases (ltb row n)) [
    | inl yes' ↦ ground (arith, yes', below-ranked n ranked (λ r p. omega (arith, h r p)))
    | inr no' ↦ absurd (ground (arith, no', h row (ground (arith, no'))))
  ]

  misses-owned :
      (s : State f) (filters : Option Metadata) (ranked : List (f.Score × ℕ))
      → misses f same default s filters ranked
          + acc (λ r. owned (owner f same default s filters r)) (row_numbers ranked)
        ≡ length ranked
  misses-owned s filters [] = omega arith
  misses-owned s filters ((score, row) ∷ ranked) =
      elim (Option-cases (owner f same default s filters row)) [
        | inl none' ↦ ground (arith, misses-owned s filters ranked, none')
        | inr (id, some') ↦ ground (arith, misses-owned s filters ranked, some')
      ]

  row-at :
      (s : State f) (q : Text) (r : ℕ)
      → IsValid f l s
      → get s.row_of q ≡ some r
      → get_elem? s.faiss_ids r ≡ some q
  row-at s q r v e = last_row-at s.faiss_ids q r (ground (arith, v.last q, e))

  row-owned :
      (s : State f) (q : Text) (r : ℕ)
      → IsValid f l s
      → get s.row_of q ≡ some r
      → owned (owner f same default s none r) ≡ true
  unfolding passes
  row-owned s q r v e = elim (Option-cases (get s.meta q)) [
    | inl lost ↦
        absurd (ground (arith, v.described q, has-get s.meta q, has-get s.row_of q, lost, e))
    | inr (meta, found) ↦ ground (arith, row-at s q r v e, e, found)
  ]

  -- The rows that a search without filters passes over are at most the dead ones.
  misses-dead :
      (s : State f) (query : f.Vector)
      → IsValid f l s
      → misses f same default s none (l.ranking s.faiss query) + length s.live
        ≤ length (l.rows s.faiss)
  misses-dead s query v =
      let ranked = l.ranking s.faiss query in
      let counted =
        acc-keys s.row_of s.faiss_ids (λ r. owned (owner f same default s none r))
          (row_numbers ranked) v.distinct (λ q r e. row-at s q r v e) (λ q r e. row-owned s q r v e)
          (λ q r e. ground (
            arith,
            l.ranks_once s.faiss query r,
            v.counted,
            get_elem?-lt s.faiss_ids r q (row-at s q r v e),
          )) in
      let same-length : length s.live ≡ length s.row_of =
        sym (length-keys s.live) ∙ ap length v.same_keys ∙ length-keys s.row_of in
      omega
        (arith, counted, same-length, misses-owned s none ranked, l.length-ranking s.faiss query)

  take-min : {A : Type 0} (n : ℕ) (xs : List A) → take (min (length xs) n) xs ≡ take n xs
  take-min zero xs = let none' : min (length xs) 0 ≡ 0 = omega arith in ap (λ m. take m xs) none'
  take-min (suc n) [] = let none' : min 0 (suc n) ≡ 0 = omega arith in ap (λ m. take m []) none'
  take-min (suc n) (x ∷ xs) =
      let both : min (suc (length xs)) (suc n) ≡ suc (min (length xs) n) = omega arith in
      ap (λ m. take m (x ∷ xs)) both ∙ ap (λ ys. x ∷ ys) (take-min n xs)

  below-take :
      (n m : ℕ) (ranked : List (f.Score × ℕ))
      → below f same default n ranked ≡ true
      → below f same default n (take m ranked) ≡ true
  below-take n zero ranked h = refl
  below-take n (suc m) [] h = refl
  below-take n (suc m) ((score, row) ∷ ranked) h =
      ground (arith, below-take n m ranked (ground arith))

  -- FAISS answers a query of the dimension of the index.
  answered :
      (s : State f) (query : List f.Float) (n : ℕ)
      → length query ≡ f.dimension s.faiss
      → f.search s.faiss (f.as_vector query) n
        ≡ some (take n (l.ranking s.faiss (f.as_vector query)))
  answered s query n fits =
      ground (arith, l.search-ranking s.faiss (f.as_vector query) n, l.width-as_vector query, fits)

  -- A search reads the first `k + dead` of the ranking, whatever the filters.
  pub search_some-hits :
      (s : State f) (query : List f.Float) (k : ℕ) (filters : Option Metadata)
      → IsValid f l s
      → length query ≡ f.dimension s.faiss
      → search_some f same default s query k filters
        ≡ ok (
            take k (
              hits f same default s filters (
                take
                  (k + (length (l.rows s.faiss) - length s.live))
                  (l.ranking s.faiss (f.as_vector query)))))
  search_some-hits s query k filters v fits =
      let ranked = l.ranking s.faiss (f.as_vector query) in
      let fetch = min (f.ntotal s.faiss) (k + (f.ntotal s.faiss - length s.live)) in
      let fetched : f.search s.faiss (f.as_vector query) fetch
          ≡ some (take (k + (length (l.rows s.faiss) - length s.live)) ranked) =
        answered s query fetch fits
        ∙ ap (λ rs. some rs)
            (ap (λ n. take (min n (k + (n - length s.live))) ranked)
                (l.ntotal-rows s.faiss ∙ sym (l.length-ranking s.faiss (f.as_vector query)))
              ∙ take-min (k + (length ranked - length s.live)) ranked
              ∙ ap (λ n. take (k + (n - length s.live)) ranked)
                  (l.length-ranking s.faiss (f.as_vector query))) in
      let inside =
        below-ranked (length s.faiss_ids) ranked
          (λ r p. ground (arith, l.ranks_once s.faiss (f.as_vector query) r, v.counted, p)) in
      rw (search_some, fetched) refl
      ∙ collect-hits f l same default s filters k
          (take (k + (length (l.rows s.faiss) - length s.live)) ranked) v
          (below-take (length s.faiss_ids) (k + (length (l.rows s.faiss) - length s.live)) ranked
            inside)

  -- Without filters and options, a search of a valid index for `k` neighbours of a query of the
  -- index's dimension returns the first `k` of all the live entries in the order of the ranking, and none for `k` of zero or less: the over-fetch by
  -- the dead rows makes up for every row that it skips.
  pub search-nearest :
      (s : State f) (query : List f.Float) (k : ℤ)
      → IsValid f l s
      → length query ≡ s.config.dimension
      → search f same default s query k none none
        ≡ ok (elim (positive k) [
          | none ↦ []
          | some n ↦ take n (hits f same default s none (l.ranking s.faiss (f.as_vector query)))
        ])
  unfolding search search_sync
  search-nearest s query k v fits = elim (Option-cases (positive k)) [
    | inl none' ↦ elim (Bool-cases (f.ntotal s.faiss == 0)) [
      | inl yes' ↦ rw (yes', none') refl
      | inr no' ↦ rw (no', none') refl
    ]
    | inr (n, some') ↦ elim (Bool-cases (f.ntotal s.faiss == 0)) [
      | inl yes' ↦ rw (yes', some') (ap (λ r. ok r) (nothing n ranked (ranked-empty yes')))
      | inr no' ↦
          rw (no', some')
            (search_some-hits s query n none v (fits ∙ sym v.sized)
              ∙ ap (λ r. ok r)
                  (take-hits f same default s none n (length (l.rows s.faiss) - length s.live)
                    ranked (omega (arith, misses-dead s (f.as_vector query) v))))
    ]
  ]
    where
      ranked : List (f.Score × ℕ)
      ranked = l.ranking s.faiss (f.as_vector query)

      nothing :
          (n : ℕ) (hs : List (f.Score × ℕ))
          → length hs ≡ 0
          → [] ≡ take n (hits f same default s none hs)
      nothing zero [] e = refl
      nothing (suc n) [] e = refl
      nothing n (h ∷ hs) e = absurd (omega arith)

      ranked-empty : (f.ntotal s.faiss == 0) ≡ true → length ranked ≡ 0
      ranked-empty e =
          ground (arith, e, l.ntotal-rows s.faiss, l.length-ranking s.faiss (f.as_vector query))
