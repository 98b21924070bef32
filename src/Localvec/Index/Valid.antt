-- ===== src/Localvec/Index/Valid.antt =====
-- The invariant of an index: rows, ids and maps agree; every operation keeps it.
use edge_proc.Prelude.{
  ℕ, zero, suc, ◌-◌, ◌<◌, ◌≡◌, ◌∙◌, refl, sym, ap, inl, inr, Bool, true, false, ◌||◌, Option, none,
  some, List, [], ◌∷◌, ◌++◌, Text, length, length-append, contains, get_elem?, ◌==◌, nat_eq,
  text_eq, if◌then◌else◌, arith, Bool-cases, Option-cases,
}
use edge_proc.Prelude.Dicts.{
  get, has, keys, put, del, get-put, get-del, has-get, has-keys, keys-put, keys-del, distinct_keys,
  contains-removed, distinct-snoc, distinct-removed,
}
use edge_proc.Exec.{Keeps, Keeps-bind}
use edge_proc.Manifest.{Scalar}
use edge_proc.Localvec.Flat.{Flat, IsFlat}
use edge_proc.Localvec.Index.{
  IndexConfig, Metadata, VectorEmbedding, State, passes, set_add, fresh_state, validate_new, added,
  add_one, insert, forget, delete_one, delete,
}

-- The last row of an id: the one that counts.
abbrev pub last_row : List Text → Text → Option ℕ
last_row [] id = none
last_row (x ∷ xs) id = elim (last_row xs id) [
  | some r ↦ some (suc r)
  | none ↦ if x == id then some 0 else none
]

pub last_row-snoc :
    (ids : List Text) (id q : Text)
    → last_row (ids ++ id ∷ []) q ≡ (if id == q then some (length ids) else last_row ids q)
last_row-snoc [] id q = refl
last_row-snoc (x ∷ xs) id q = ground (arith, last_row-snoc xs id q)

pub last_row-contains :
    (ids : List Text) (q : Text) → last_row ids q ≡ none → contains ids q ≡ false
last_row-contains [] q h = refl
last_row-contains (x ∷ xs) q h = ground (arith, last_row-contains xs q)

pub last_row-at :
    (ids : List Text) (q : Text) (r : ℕ) → last_row ids q ≡ some r → get_elem? ids r ≡ some q
last_row-at [] q r h = absurd (cc)
last_row-at (x ∷ xs) q r h = elim (Option-cases (last_row xs q)) [
  | inl none' ↦ ground (arith, none')
  | inr (n, some') ↦ ground (arith, some', last_row-at xs q n some')
]

abbrev pub at_row : {A : Type 0} → List A → Option ℕ → Option A
at_row rows none = none
at_row rows (some r) = get_elem? rows r

pub contains-set_add :
    (xs : List Text) (x q : Text) → contains (set_add xs x) q ≡ (x == q || contains xs q)
contains-set_add xs x q = elim (Bool-cases (contains xs x)) [
  | inl yes' ↦
      rw yes'
        (elim (text_eq.dec x q) [ yes e ↦ ground (arith, e, yes') | no n ↦ ground (arith, n) ])
  | inr no' ↦ rw no'
]

pub get_elem?-snoc :
    {A : Type 0} (xs : List A) (a : A) (r : ℕ)
    → get_elem? (xs ++ a ∷ []) r ≡ (if r == length xs then some a else get_elem? xs r)
get_elem?-snoc [] a zero = ground arith
get_elem?-snoc [] a (suc r) = ground arith
get_elem?-snoc (x ∷ xs) a zero = ground arith
get_elem?-snoc (x ∷ xs) a (suc r) = ground (arith, get_elem?-snoc xs a r)

pub get_elem?-lt :
    {A : Type 0} (xs : List A) (r : ℕ) (a : A) → get_elem? xs r ≡ some a → r < length xs
get_elem?-lt [] r a h = absurd (cc)
get_elem?-lt (x ∷ xs) zero a h = omega arith
get_elem?-lt (x ∷ xs) (suc r) a h = omega (arith, get_elem?-lt xs r a h)

pub get_elem?-some :
    {A : Type 0} (xs : List A) (r : ℕ) → r < length xs → (a : A) × (get_elem? xs r ≡ some a)
get_elem?-some [] r h = absurd (omega arith)
get_elem?-some (x ∷ xs) zero h = (x, refl)
get_elem?-some (x ∷ xs) (suc r) h = get_elem?-some xs r (omega arith)

module _ (f : Flat) (l : IsFlat f) where
  -- Every id has one row of the flat index; an id is live unless it is tombstoned, and then its
  -- last row holds its vector; the three maps have the same keys.
  pub record IsValid (s : State f) : Type 0 where
    pub counted : length (l.rows s.faiss) ≡ length s.faiss_ids
    pub sized : f.dimension s.faiss ≡ s.config.dimension
    pub last :
        (q : Text)
        → get s.row_of q ≡ (if contains s.tombstoned q then none else last_row s.faiss_ids q)
    pub held : (q : Text) → get s.live q ≡ at_row (l.rows s.faiss) (get s.row_of q)
    pub same_keys : keys s.live ≡ keys s.row_of
    pub described : (q : Text) → has s.meta q ≡ has s.row_of q
    pub described_once : distinct_keys (keys s.meta) ≡ true
    pub distinct : distinct_keys (keys s.row_of) ≡ true

  pub fresh-IsValid :
      (same : Scalar → Scalar → Bool) (default config : IndexConfig)
      → IsValid (fresh_state f same default config)
  fresh-IsValid same default config = record {
    counted = rw l.rows-empty;
    sized = l.dimension-empty config.dimension;
    last = λ q. refl;
    held = λ q. refl;
    same_keys = refl;
    described = λ q. refl;
    described_once = refl;
    distinct = refl;
  }

  module _ (same : Scalar → Scalar → Bool) (default : IndexConfig) where
    pub live_rows : (s : State f) (q : Text) → IsValid s → has s.live q ≡ has s.row_of q
    live_rows s q v =
        has-keys s.live q ∙ ap (λ ks. contains ks q) v.same_keys ∙ sym (has-keys s.row_of q)

    pub added-IsValid :
        (s : State f) (e : VectorEmbedding f.Float)
        → IsValid s
        → has s.live e.entity_id ≡ false
        → IsValid (added f same default s e)
    unfolding added
    added-IsValid s e v new =
        let id = e.entity_id in
        let n = length (s.faiss_ids ++ id ∷ []) - 1 in
        let vector = f.as_vector e.embedding in
        let n-eq : n ≡ length s.faiss_ids = omega (arith, length-append s.faiss_ids (id ∷ [])) in
        let no-live : contains (keys s.live) id ≡ false = sym (has-keys s.live id) ∙ new in
        let no-row : contains (keys s.row_of) id ≡ false =
          ap (λ ks. contains ks id) (sym v.same_keys) ∙ no-live in
        let no-meta : contains (keys s.meta) id ≡ false =
          sym (has-keys s.meta id) ∙ v.described id ∙ has-keys s.row_of id ∙ no-row in
        record {
          counted = rw (l.rows-add s.faiss (vector ∷ [])) (
              omega (
                arith,
                v.counted,
                length-append (l.rows s.faiss) (vector ∷ []),
                length-append s.faiss_ids (id ∷ []),
              ));
          sized = l.dimension-add s.faiss (vector ∷ []) ∙ v.sized;
          last = λ q. ground (
            arith,
            get-put s.row_of id q n,
            last_row-snoc s.faiss_ids id q,
            v.last q,
            n-eq,
            contains-removed s.tombstoned id q,
          );
          held = λ q. elim (text_eq.dec id q) [
            | yes same' ↦ ground (
              arith,
              same',
              get-put s.row_of id q n,
              get-put s.live id q vector,
              l.rows-add s.faiss (vector ∷ []),
              get_elem?-snoc (l.rows s.faiss) vector n,
              n-eq,
              v.counted,
            )
            | no differ ↦ elim (Option-cases (get s.row_of q)) [
              | inl none' ↦ ground (
                arith,
                differ,
                none',
                get-put s.row_of id q n,
                get-put s.live id q vector,
                v.held q,
              )
              | inr (r, some') ↦
                  let inside : r < length s.faiss_ids =
                    get_elem?-lt s.faiss_ids r q
                      (last_row-at s.faiss_ids q r (ground (arith, v.last q, some'))) in
                  ground (
                    arith,
                    differ,
                    some',
                    get-put s.row_of id q n,
                    get-put s.live id q vector,
                    v.held q,
                    l.rows-add s.faiss (vector ∷ []),
                    get_elem?-snoc (l.rows s.faiss) vector r,
                    v.counted,
                    inside,
                  )
            ]
          ];
          same_keys =
              rw (keys-put s.live id vector no-live, keys-put s.row_of id n no-row, v.same_keys)
                refl;
          described = λ q. ground (
            arith,
            has-get (put s.meta id e.metadata) q,
            has-get (put s.row_of id n) q,
            get-put s.meta id q e.metadata,
            get-put s.row_of id q n,
            v.described q,
            has-get s.meta q,
            has-get s.row_of q,
          );
          described_once =
              rw (keys-put s.meta id e.metadata no-meta)
                (distinct-snoc (keys s.meta) id no-meta ∙ v.described_once);
          distinct =
              rw (keys-put s.row_of id n no-row)
                (distinct-snoc (keys s.row_of) id no-row ∙ v.distinct);
        }

    pub forget-IsValid :
        (s : State f) (id : Text) → IsValid s → IsValid (forget f same default s id)
    unfolding forget
    forget-IsValid s id v = record {
      counted = v.counted;
      sized = v.sized;
      last =
          λ q. ground (arith, get-del s.row_of id q, v.last q, contains-set_add s.tombstoned id q);
      held = λ q. ground (arith, get-del s.row_of id q, get-del s.live id q, v.held q);
      same_keys = rw (keys-del s.live id, keys-del s.row_of id, v.same_keys) refl;
      described = λ q. ground (
        arith,
        has-get (del s.meta id) q,
        has-get (del s.row_of id) q,
        get-del s.meta id q,
        get-del s.row_of id q,
        v.described q,
        has-get s.meta q,
        has-get s.row_of q,
      );
      described_once = rw (keys-del s.meta id) (distinct-removed (keys s.meta) id v.described_once);
      distinct = rw (keys-del s.row_of id) (distinct-removed (keys s.row_of) id v.distinct);
    }

    pub add_one-IsValid : (e : VectorEmbedding f.Float) → Keeps IsValid (add_one f same default e)
    unfolding add_one validate_new
    add_one-IsValid e s v = elim (Bool-cases (validate_new f same default s e)) [
      | inl yes' ↦ rw yes' (added-IsValid s e v (ground arith))
      | inr no' ↦ rw no' v
    ]

    pub delete_one-IsValid :
        (filters : Option Metadata) (id : Text)
        → Keeps IsValid (delete_one f same default filters id)
    unfolding delete_one
    delete_one-IsValid filters id s v = elim (Bool-cases (has s.live id)) [
      | inr no' ↦ rw no' v
      | inl yes' ↦ elim (Option-cases (get s.meta id)) [
        | inl none' ↦ rw (yes', none') v
        | inr (meta, some') ↦ elim (Bool-cases (passes same meta filters)) [
          | inl ok' ↦ rw (yes', some', ok') (forget-IsValid s id v)
          | inr bad' ↦ rw (yes', some', bad') v
        ]
      ]
    ]

    pub insert-IsValid :
        (es : List (VectorEmbedding f.Float)) → Keeps IsValid (insert f same default es)
    unfolding insert
    insert-IsValid [] = λ s v. v
    insert-IsValid (e ∷ es) =
        Keeps-bind IsValid (add_one f same default e) (λ _. insert f same default es)
          (add_one-IsValid e) (λ _. insert-IsValid es)

    pub delete-IsValid :
        (filters : Option Metadata) (ids : List Text)
        → Keeps IsValid (delete f same default filters ids)
    unfolding delete
    delete-IsValid filters [] = λ s v. v
    delete-IsValid filters (id ∷ ids) =
        Keeps-bind IsValid (delete_one f same default filters id)
          (λ _. delete f same default filters ids) (delete_one-IsValid filters id)
          (λ _. delete-IsValid filters ids)
