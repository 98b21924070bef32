-- ===== src/Localvec/Index/Persist/Restore.antt =====
-- A load rebuilds a valid index, the one that was saved.
use edge_proc.Prelude.{
  ℕ, suc, ◌+◌, ◌≤◌, ◌≡◌, ◌∙◌, refl, sym, ap, inl, inr, Bool, true, false, ◌&&◌, not, Option, none,
  some, List, [], ◌∷◌, ◌++◌, Text, length, keep_if, all, contains, get_elem?, nat_eq, text_eq,
  if◌then◌else◌, arith, Bool-cases, Option-cases,
}
use edge_proc.Prelude.Dicts.{get, keys, put, get-put, keys-put, distinct_keys, distinct-snoc}
use edge_proc.Exec.{ok}
use edge_proc.Manifest.{Scalar}
use edge_proc.Localvec.Flat.{Flat, IsFlat}
use edge_proc.Localvec.Index.{IndexConfig}
use edge_proc.Localvec.Index.Valid.{last_row, at_row, get_elem?-some}
use edge_proc.Localvec.Index.Persist.{same_set, reconstruct_from}

keys-put-old :
    {A : Type 0} (d : List (Text × A)) (k : Text) (a : A)
    → contains (keys d) k ≡ true
    → keys (put d k a) ≡ keys d
keys-put-old [] k a h = absurd (cc)
keys-put-old ((j, b) ∷ d) k a h = ground (arith, keys-put-old d k a)

all-contains :
    (xs ys : List Text) (q : Text)
    → all (contains ys) xs ≡ true
    → contains xs q ≡ true
    → contains ys q ≡ true
all-contains [] ys q h m = absurd (cc)
all-contains (x ∷ xs) ys q h m = elim (text_eq.dec x q) [
  | yes e ↦ ground (arith, e, h)
  | no n ↦ ground (arith, n, all-contains xs ys q)
]

pub same_set-contains :
    (xs ys : List Text) (q : Text) → same_set xs ys ≡ true → contains xs q ≡ contains ys q
same_set-contains xs ys q h = elim (Bool-cases (contains xs q)) [
  | inl here ↦ here ∙ sym (all-contains xs ys q (ground arith) here)
  | inr gone ↦ elim (Bool-cases (contains ys q)) [
    | inl there ↦ absurd (ground (arith, all-contains ys xs q (ground arith) there, gone))
    | inr nowhere ↦ gone ∙ sym nowhere
  ]
]

-- The ids that are not tombstoned
pub contains-kept :
    (tomb ids : List Text) (q : Text)
    → contains (keep_if (λ id. not (contains tomb id)) ids) q
      ≡ (not (contains tomb q) && contains ids q)
contains-kept tomb [] q = ground arith
contains-kept tomb (x ∷ xs) q = elim (text_eq.dec x q) [
  | yes e ↦ ground (arith, e, contains-kept tomb xs q)
  | no n ↦ ground (arith, n, contains-kept tomb xs q)
]

pub last_row-found :
    (ids : List Text) (q : Text) (r : ℕ) → last_row ids q ≡ some r → contains ids q ≡ true
last_row-found [] q r h = absurd (cc)
last_row-found (x ∷ xs) q r h = elim (Option-cases (last_row xs q)) [
  | inl none' ↦ ground (arith, none')
  | inr (n, some') ↦ ground (arith, some', last_row-found xs q n some')
]

module _ (f : Flat) (l : IsFlat f) where
  -- What the maps are while the rows are read.
  pub record Agree (rows : List f.Vector) (live : List (Text × f.Vector)) (row_of : List (Text × ℕ))
      : Type 0 where
    pub held : (q : Text) → get live q ≡ at_row rows (get row_of q)
    pub same_keys : keys live ≡ keys row_of
    pub distinct : distinct_keys (keys row_of) ≡ true

  put-Agree :
      (rows : List f.Vector) (live : List (Text × f.Vector)) (row_of : List (Text × ℕ)) (id : Text)
      (v : f.Vector) (row : ℕ)
      → Agree rows live row_of
      → get_elem? rows row ≡ some v
      → Agree rows (put live id v) (put row_of id row)
  put-Agree rows live row_of id v row a at = elim (Bool-cases (contains (keys row_of) id)) [
    | inl old ↦
        let old-live : contains (keys live) id ≡ true =
          ap (λ ks. contains ks id) a.same_keys ∙ old in
        record {
          held = λ q. ground (arith, get-put live id q v, get-put row_of id q row, a.held q, at);
          same_keys =
              keys-put-old live id v old-live ∙ a.same_keys ∙ sym (keys-put-old row_of id row old);
          distinct = ap distinct_keys (keys-put-old row_of id row old) ∙ a.distinct;
        }
    | inr new ↦
        let new-live : contains (keys live) id ≡ false =
          ap (λ ks. contains ks id) a.same_keys ∙ new in
        record {
          held = λ q. ground (arith, get-put live id q v, get-put row_of id q row, a.held q, at);
          same_keys =
              keys-put live id v new-live
              ∙ ap (λ ks. ks ++ id ∷ []) a.same_keys
              ∙ sym (keys-put row_of id row new);
          distinct =
              ap distinct_keys (keys-put row_of id row new)
              ∙ distinct-snoc (keys row_of) id new
              ∙ a.distinct;
        }
  ]

  module _ (same : Scalar → Scalar → Bool) (default : IndexConfig) where
    -- The row that counts for an id after the rows of `ids` are read from row `row` on
    abbrev pub row_after : List Text → ℕ → List Text → List (Text × ℕ) → Text → Option ℕ
    row_after tomb row ids row_of q =
        if contains tomb q
        then get row_of q
        else elim (last_row ids q) [ none ↦ get row_of q | some r ↦ some (row + r) ]

    row_after-put :
        (tomb : List Text) (row : ℕ) (id : Text) (ids : List Text) (row_of : List (Text × ℕ))
        (q : Text)
        → contains tomb id ≡ false
        → row_after tomb (suc row) ids (put row_of id row) q
          ≡ row_after tomb row (id ∷ ids) row_of q
    row_after-put tomb row id ids row_of q h = elim (text_eq.dec id q) [
      | yes e ↦ elim (Option-cases (last_row ids q)) [
        | inl none' ↦ ground (arith, get-put row_of id q row, h, e, none')
        | inr (r, some') ↦ ground (arith, get-put row_of id q row, h, e, some')
      ]
      | no n ↦ elim (Option-cases (last_row ids q)) [
        | inl none' ↦ ground (arith, get-put row_of id q row, h, n, none')
        | inr (r, some') ↦ ground (arith, get-put row_of id q row, h, n, some')
      ]
    ]

    row_after-skip :
        (tomb : List Text) (row : ℕ) (id : Text) (ids : List Text) (row_of : List (Text × ℕ))
        (q : Text)
        → contains tomb id ≡ true
        → row_after tomb (suc row) ids row_of q ≡ row_after tomb row (id ∷ ids) row_of q
    row_after-skip tomb row id ids row_of q h = elim (text_eq.dec id q) [
      | yes e ↦ ground (arith, h, e)
      | no n ↦ elim (Option-cases (last_row ids q)) [
        | inl none' ↦ ground (arith, n, none')
        | inr (r, some') ↦ ground (arith, n, some')
      ]
    ]

    pub reconstructed :
        (index : f.Index) (tomb : List Text) (row : ℕ) (ids : List Text)
        (live : List (Text × f.Vector)) (row_of : List (Text × ℕ))
        → Agree (l.rows index) live row_of
        → row + length ids ≤ length (l.rows index)
        → (live' : List (Text × f.Vector)) × (row_of' : List (Text × ℕ)) × (reconstruct_from f same
              default index tomb row ids live row_of
            ≡ ok (live', row_of'))
          × Agree (l.rows index) live' row_of'
          × ((q : Text) → get row_of' q ≡ row_after tomb row ids row_of q)
    unfolding reconstruct_from
    reconstructed index tomb row [] live row_of a h = (live, row_of, refl, a, λ q. ground arith)
    reconstructed index tomb row (id ∷ ids) live row_of a h = elim (Bool-cases (contains tomb id)) [
      | inl dead ↦
          let (live', row_of', e, a', after) =
            reconstructed index tomb (suc row) ids live row_of a (omega (arith, h)) in
          (
            live',
            row_of',
            rw (dead, reconstruct_from) e,
            a',
            λ q. after q ∙ row_after-skip tomb row id ids row_of q dead,
          )
      | inr alive ↦
          let (v, at) = get_elem?-some (l.rows index) row (omega (arith, h)) in
          let (live', row_of', e, a', after) =
            reconstructed index tomb (suc row) ids (put live id v) (put row_of id row)
              (put-Agree (l.rows index) live row_of id v row a at) (omega (arith, h)) in
          (
            live',
            row_of',
            rw (alive, reconstruct_from, l.reconstruct-rows index row ∙ at) e,
            a',
            λ q. after q ∙ row_after-put tomb row id ids row_of q alive,
          )
    ]
