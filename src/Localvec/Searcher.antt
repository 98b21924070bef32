-- ===== src/Localvec/Searcher.antt =====
-- `KeywordSearcher` of edgeproc/localvec/searcher.py. BM25, floats and the splitting of text into
-- lower-case words are parameters.
use edge_proc.Prelude.{
  ℕ, zero, suc, ◌+◌, ◌-◌, ◌≤◌, ◌<◌, ◌≡◌, ◌∙◌, refl, inl, inr, all, length, take, ltb, arith,
  Bool-cases, Bool, true, false, ◌||◌, not, Option, none, some, List, [], ◌∷◌, Text, get_elem?,
  if◌then◌else◌,
}
use edge_proc.Prelude.Int.{ℤ, pos, negsuc}
use edge_proc.Errors.{key}
use edge_proc.Exec.{Result, ok, err}
use edge_proc.Keyring.Sorted.{sort_by, all-sort_by}
use edge_proc.Localvec.Fusion.{Floats}
use edge_proc.Localvec.Runtime.{take_to}

-- rank_bm25's `BM25Okapi`: an index of documents, and a score for each of them
pub record Bm25 (f : Floats) : Type 1 where
  pub Corpus : Type 0
  pub okapi : List (List Text) → Corpus
  pub get_scores : Corpus → List Text → List f.Float

module _ (f : Floats) (b : Bm25 f) (tokenize : Text → List Text) (is_blank : Text → Bool) where
  pub record KeywordSearcher : Type 0 where
    pub bm25 : b.Corpus
    pub ids : List Text

  abbrev pub tokenized : List Text → List (List Text)
  tokenized [] = []
  tokenized (t ∷ ts) = tokenize t ∷ tokenized ts

  -- An empty corpus is replaced by one document of one empty word.
  abbrev pub or_blank : List (List Text) → List (List Text)
  or_blank [] = ([] ∷ []) ∷ []
  or_blank (d ∷ ds) = d ∷ ds

  -- `from_texts`
  unfoldable pub from_texts : List Text → List Text → KeywordSearcher
  from_texts texts ids = record { bm25 = b.okapi (or_blank (tokenized texts)); ids = ids }

  -- `_resolve_k`
  unfoldable pub resolve_k : ℤ → Option ℤ → ℤ
  resolve_k default none = default
  resolve_k default (some k) = k

  -- `enumerate(scores)`, from `idx` on
  abbrev pub enumerated : ℕ → List f.Float → List (ℕ × f.Float)
  enumerated idx [] = []
  enumerated idx (score ∷ scores) = (idx, score) ∷ enumerated (suc idx) scores

  abbrev pub cons_ok :
      Text × f.Float → Result (List (Text × f.Float)) → Result (List (Text × f.Float))
  cons_ok hit (ok hits) = ok (hit ∷ hits)
  cons_ok hit (err e) = err e

  -- The hits of positive score; an id that is missing is an `IndexError`, a kind of LookupError as
  -- `key` is.
  unfoldable pub named_hits : List Text → List (ℕ × f.Float) → Result (List (Text × f.Float))
  named_hits ids [] = ok []
  named_hits ids ((idx, score) ∷ ranked) =
      let rest = named_hits ids ranked in
      if f.lt f.zero_float score
      then elim (get_elem? ids idx) [ none ↦ err key | some id ↦ cons_ok (id, score) rest ]
      else rest

  abbrev pub no_ids : List Text → Bool
  no_ids [] = true
  no_ids (id ∷ ids) = false

  -- `search`
  unfoldable pub search : KeywordSearcher → ℤ → Text → Option ℤ → Result (List (Text × f.Float))
  search s default query k =
      if is_blank query || no_ids s.ids
      then ok []
      else named_hits s.ids (
          take_to (resolve_k default k) (
            sort_by (λ a b. not (f.lt a.1 b.1))
              (enumerated 0 (b.get_scores s.bm25 (tokenize query)))))

  all-take :
      {A : Type 0} (p : A → Bool) (n : ℕ) (xs : List A) → all p xs ≡ true → all p (take n xs) ≡ true
  all-take p zero xs h = refl
  all-take p (suc n) [] h = refl
  all-take p (suc n) (x ∷ xs) h = ground (arith, all-take p n xs (ground (arith, h)), h)

  all-take_to :
      {A : Type 0} (p : A → Bool) (k : ℤ) (xs : List A)
      → all p xs ≡ true
      → all p (take_to k xs) ≡ true
  all-take_to p (pos n) xs h = all-take p n xs h
  all-take_to p (negsuc n) xs h = all-take p (length xs - suc n) xs h

  all-enumerated :
      (n idx : ℕ) (scores : List f.Float)
      → idx + length scores ≤ n
      → all (λ e. ltb e.0 n) (enumerated idx scores) ≡ true
  all-enumerated n idx [] h = refl
  all-enumerated n idx (score ∷ scores) h =
      let rest = all-enumerated n (suc idx) scores (omega (arith, h)) in ground (arith, rest, h)

  get_elem?-below :
      (xs : List Text) (n : ℕ) → n < length xs → (x : Text) × (get_elem? xs n ≡ some x)
  get_elem?-below [] n h = absurd (omega arith)
  get_elem?-below (x ∷ xs) zero h = (x, refl)
  get_elem?-below (x ∷ xs) (suc n) h = get_elem?-below xs n (omega arith)

  named_hits-ok :
      (ids : List Text) (ranked : List (ℕ × f.Float))
      → all (λ e. ltb e.0 (length ids)) ranked ≡ true
      → (hits : List (Text × f.Float)) × (named_hits ids ranked ≡ ok hits)
        × (all (λ hit. f.lt f.zero_float hit.1) hits ≡ true)
        × (length hits ≤ length ranked)
  unfolding named_hits
  named_hits-ok ids [] h = ([], refl, refl, omega arith)
  named_hits-ok ids ((idx, score) ∷ ranked) h =
      let (hits, e, positive, few) = named_hits-ok ids ranked (ground (arith, h)) in
      elim (Bool-cases (f.lt f.zero_float score)) [
        | inr no' ↦ (hits, rw (no', named_hits) e, positive, omega (arith, few))
        | inl yes' ↦
            let (id, at) = get_elem?-below ids idx (ground (arith, h)) in
            (
              (id, score) ∷ hits,
              rw (yes', named_hits, at, e) refl,
              ground (arith, yes', positive),
              omega (arith, few),
            )
      ]

  -- With a score for each id at most, a keyword search raises nothing, and every hit that it returns
  -- has a positive score.
  pub search-positive :
      (s : KeywordSearcher) (default : ℤ) (query : Text) (k : Option ℤ)
      → length (b.get_scores s.bm25 (tokenize query)) ≤ length s.ids
      → (hits : List (Text × f.Float)) × (search s default query k ≡ ok hits)
        × (all (λ hit. f.lt f.zero_float hit.1) hits ≡ true)
  unfolding search
  search-positive s default query k h = elim (Bool-cases (is_blank query || no_ids s.ids)) [
    | inl yes' ↦ ([], rw yes' refl, refl)
    | inr no' ↦
        let ranked =
          sort_by (λ a b. not (f.lt a.1 b.1))
            (enumerated 0 (b.get_scores s.bm25 (tokenize query))) in
        let inside =
          all-sort_by (λ a b. not (f.lt a.1 b.1)) (λ e. ltb e.0 (length s.ids))
            (enumerated 0 (b.get_scores s.bm25 (tokenize query)))
          ∙ all-enumerated (length s.ids) 0 (b.get_scores s.bm25 (tokenize query))
              (omega (arith, h)) in
        let (hits, e, positive, few) =
          named_hits-ok s.ids (take_to (resolve_k default k) ranked)
            (all-take_to (λ e. ltb e.0 (length s.ids)) (resolve_k default k) ranked inside) in
        (hits, rw no' e, positive)
  ]
