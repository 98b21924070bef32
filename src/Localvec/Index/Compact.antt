-- ===== src/Localvec/Index/Compact.antt =====
-- The compaction of `rebuild`: the survivors in their order, one row each.
use edge_proc.Prelude.{
  ℕ, suc, ◌+◌, ◌≡◌, ◌∙◌, refl, sym, ap, inl, inr, Bool, true, false, Option, none, some, List, [],
  ◌∷◌, ◌++◌, Text, length, contains, nat_eq, text_eq, arith, Option-cases,
}
use edge_proc.Prelude.Dicts.{get, keys, put, get-put, has-keys, keys-put, distinct_keys}
use edge_proc.Exec.{Result, ok, err, Keeps}
use edge_proc.Manifest.{Scalar}
use edge_proc.Localvec.Flat.{Flat, IsFlat}
use edge_proc.Localvec.Index.{
  IndexConfig, State, honoured, enumerate_rows, values, compacted, rebuild, add_survivors,
}
use edge_proc.Localvec.Index.Valid.{last_row, at_row, IsValid}

append-nil : {A : Type 0} (xs : List A) → xs ++ [] ≡ xs
append-nil [] = refl
append-nil (x ∷ xs) = ap (λ ys. x ∷ ys) (append-nil xs)

append-cons : {A : Type 0} (xs : List A) (y : A) (zs : List A) → (xs ++ y ∷ []) ++ zs ≡ xs ++ y ∷ zs
append-cons [] y zs = refl
append-cons (x ∷ xs) y zs = ap (λ ws. x ∷ ws) (append-cons xs y zs)

last_row-absent : (ids : List Text) (q : Text) → contains ids q ≡ false → last_row ids q ≡ none
last_row-absent [] q h = refl
last_row-absent (x ∷ xs) q h = ground (arith, last_row-absent xs q)

contains-middle :
    (ks : List Text) (id : Text) (ids : List Text) → contains (ks ++ id ∷ ids) id ≡ true
contains-middle [] id ids = ground arith
contains-middle (k ∷ ks) id ids = ground (arith, contains-middle ks id ids)

distinct-middle :
    (ks : List Text) (id : Text) (ids : List Text)
    → distinct_keys (ks ++ id ∷ ids) ≡ true
    → contains ks id ≡ false
distinct-middle [] id ids h = refl
distinct-middle (k ∷ ks) id ids h = elim (text_eq.dec k id) [
  | yes e ↦ ground (arith, e, contains-middle ks id ids)
  | no n ↦ ground (arith, n, distinct-middle ks id ids)
]

get-enumerate_rows :
    (n : ℕ) (ids : List Text) (rows : List (Text × ℕ)) (q : Text)
    → get (enumerate_rows n ids rows) q
      ≡ elim (last_row ids q) [ none ↦ get rows q | some r ↦ some (n + r) ]
unfolding enumerate_rows
get-enumerate_rows n [] rows q = refl
get-enumerate_rows n (id ∷ ids) rows q = elim (Option-cases (last_row ids q)) [
  | inl none' ↦
      ground (arith, none', get-enumerate_rows (suc n) ids (put rows id n) q, get-put rows id q n)
  | inr (r, some') ↦ ground (arith, some', get-enumerate_rows (suc n) ids (put rows id n) q)
]

keys-enumerate_rows :
    (n : ℕ) (ids : List Text) (rows : List (Text × ℕ))
    → distinct_keys (keys rows ++ ids) ≡ true
    → keys (enumerate_rows n ids rows) ≡ keys rows ++ ids
unfolding enumerate_rows
keys-enumerate_rows n [] rows h = sym (append-nil (keys rows))
keys-enumerate_rows n (id ∷ ids) rows h =
    let new = distinct-middle (keys rows) id ids h in
    let keys-eq : keys (put rows id n) ++ ids ≡ keys rows ++ id ∷ ids =
      ap (λ ks. ks ++ ids) (keys-put rows id n new) ∙ append-cons (keys rows) id ids in
    keys-enumerate_rows (suc n) ids (put rows id n) (ap distinct_keys keys-eq ∙ h) ∙ keys-eq

-- With distinct keys, the row of a key in the list of keys is the row of its value.
get-values :
    {A : Type 0} (d : List (Text × A)) (q : Text)
    → distinct_keys (keys d) ≡ true
    → get d q ≡ at_row (values d) (last_row (keys d) q)
get-values [] q h = refl
get-values ((k, a) ∷ d) q h = elim (text_eq.dec k q) [
  | yes e ↦ ground (arith, e, last_row-absent (keys d) q)
  | no n ↦ elim (Option-cases (last_row (keys d) q)) [
    | inl none' ↦ ground (arith, n, none', get-values d q)
    | inr (r, some') ↦ ground (arith, n, some', get-values d q)
  ]
]

length-values : {A : Type 0} (d : List (Text × A)) → length (values d) ≡ length (keys d)
length-values [] = refl
length-values ((k, a) ∷ d) = ap suc (length-values d)

module _ (f : Flat) (l : IsFlat f) (same : Scalar → Scalar → Bool) (default : IndexConfig) where
  rows-add_survivors :
      (i : f.Index) (vs : List f.Vector)
      → l.rows (add_survivors f same default i vs) ≡ l.rows i ++ vs
  rows-add_survivors i [] = sym (append-nil (l.rows i))
  rows-add_survivors i (v ∷ vs) = l.rows-add i (v ∷ vs)

  dimension-add_survivors :
      (i : f.Index) (vs : List f.Vector)
      → f.dimension (add_survivors f same default i vs) ≡ f.dimension i
  dimension-add_survivors i [] = refl
  dimension-add_survivors i (v ∷ vs) = l.dimension-add i (v ∷ vs)

  pub compacted-IsValid :
      (s : State f) (config : IndexConfig)
      → IsValid f l s
      → IsValid f l (compacted f same default s config)
  unfolding compacted
  compacted-IsValid s config v =
      let ids = keys s.live in
      let live-distinct : distinct_keys ids ≡ true = ap distinct_keys v.same_keys ∙ v.distinct in
      let rows-eq : l.rows (add_survivors f same default (f.empty config.dimension) (values s.live))
          ≡ values s.live =
        rows-add_survivors (f.empty config.dimension) (values s.live)
        ∙ ap (λ rows. rows ++ values s.live) (l.rows-empty config.dimension) in
      let row-eq : (q : Text) → get (enumerate_rows 0 ids []) q ≡ last_row ids q = λ q.
        elim (Option-cases (last_row ids q)) [
          | inl none' ↦ ground (arith, none', get-enumerate_rows 0 ids [] q)
          | inr (r, some') ↦ ground (arith, some', get-enumerate_rows 0 ids [] q)
        ] in
      let keys-eq : keys (enumerate_rows 0 ids []) ≡ ids =
        keys-enumerate_rows 0 ids [] live-distinct in
      record {
        counted = ap length rows-eq ∙ length-values s.live;
        sized =
            dimension-add_survivors (f.empty config.dimension) (values s.live)
            ∙ l.dimension-empty config.dimension;
        last = row-eq;
        held = λ q. rw (rows-eq, row-eq q) (get-values s.live q live-distinct);
        same_keys = sym keys-eq;
        described = λ q.
            v.described q
            ∙ has-keys s.row_of q
            ∙ ap (λ ks. contains ks q) (sym v.same_keys ∙ sym keys-eq)
            ∙ sym (has-keys (enumerate_rows 0 ids []) q);
        described_once = v.described_once;
        distinct = ap distinct_keys keys-eq ∙ live-distinct;
      }

  pub rebuild-IsValid :
      (config : Option IndexConfig) → Keeps (IsValid f l) (rebuild f same default config)
  unfolding rebuild
  rebuild-IsValid none s v = compacted-IsValid s s.config v
  rebuild-IsValid (some config) s v =
      elim (honoured default config)
        as (λ r.
          IsValid f l
            (elim r as (λ _. Result (Unit {0}) × State f) [
              | err e ↦ (err e, s)
              | ok c ↦
                  (ok tt, compacted f same default s (record c { dimension = s.config.dimension }))
            ]).1) [
              | err e ↦ v
              | ok c ↦ compacted-IsValid s (record c { dimension = s.config.dimension }) v
            ]
