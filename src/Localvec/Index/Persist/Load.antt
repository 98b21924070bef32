-- ===== src/Localvec/Index/Persist/Load.antt =====
-- A load gives a valid index, and after a save the index that was saved.
use edge_proc.Prelude.{
  ℕ, ◌≡◌, ◌∙◌, refl, sym, ap, subst, inl, inr, Bool, true, not, none, List, [], ◌∷◌, Text, length,
  keep_if, all, contains, ◌==◌, nat_eq, text_eq, if◌then◌else◌, arith, Bool-cases, Option-cases,
}
use edge_proc.Prelude.Members.{contains-any}
use edge_proc.Prelude.Dicts.{get, keys, has-get, has-keys, distinct_keys}
use edge_proc.Exec.{ok, Result-cases}
use edge_proc.Keyring.Sorted.{text_le, sort_by, any-sort_by}
use edge_proc.Manifest.{Scalar}
use edge_proc.Localvec.Flat.{Flat, IsFlat}
use edge_proc.Localvec.Index.{
  IndexConfig, State, supported_metric, tuned_graph_knobs, honoured, new_index,
}
use edge_proc.Localvec.Index.Valid.{last_row, last_row-contains, at_row, IsValid}
use edge_proc.Localvec.Index.Spec.{paired, view}
use edge_proc.Localvec.Index.Persist.{
  PersistedState, same_set, persisted_state, validate_persisted_index, restore, restore_persisted,
}
use edge_proc.Localvec.Index.Persist.Restore.{
  same_set-contains, contains-kept, last_row-found, Agree, reconstructed,
}

honoured-same : (default config c : IndexConfig) → honoured default config ≡ ok c → config ≡ c
unfolding honoured
honoured-same default config c h = elim (Bool-cases (config.distance_metric == supported_metric)) [
  | inr no' ↦ absurd (ground (arith, no', h))
  | inl yes' ↦ elim (Bool-cases (length (tuned_graph_knobs default config) == 0)) [
    | inr no' ↦ absurd (ground (arith, yes', no', h))
    | inl none' ↦ ground (arith, yes', none', h)
  ]
]

module _ (f : Flat) (l : IsFlat f) (same : Scalar → Scalar → Bool) (default : IndexConfig) where
  -- What a load gives, where it is not refused
  record Loaded (index : f.Index) (p : PersistedState) (t : State f) : Type 0 where
    valid : IsValid f l t
    same_index : t.faiss ≡ index
    same_meta : t.meta ≡ p.meta
    same_config : t.config ≡ p.config
    rows_of :
        (q : Text)
        → get t.row_of q ≡ (if contains p.tombstoned q then none else last_row p.faiss_ids q)

  loaded-IsValid :
      (index : f.Index) (p : PersistedState) (live : List (Text × f.Vector))
      (row_of : List (Text × ℕ))
      → validate_persisted_index f same default index p ≡ true
      → distinct_keys (keys p.meta) ≡ true
      → Agree f l (l.rows index) live row_of
      → ((q : Text)
          → get row_of q ≡ (if contains p.tombstoned q then none else last_row p.faiss_ids q))
      → IsValid f l (record {
        config = p.config;
        faiss = index;
        faiss_ids = p.faiss_ids;
        live = live;
        row_of = row_of;
        meta = p.meta;
        tombstoned = p.tombstoned;
      })
  unfolding validate_persisted_index
  loaded-IsValid index p live row_of ok' once a after = record {
    counted = ground (arith, ok', l.ntotal-rows index);
    sized = ground (arith, ok');
    last = after;
    held = a.held;
    same_keys = a.same_keys;
    described = λ q.
        let ids = keep_if (λ id. not (contains p.tombstoned id)) p.faiss_ids in
        let sets : contains (keys p.meta) q ≡ contains ids q =
          same_set-contains (keys p.meta) ids q (ground (arith, ok')) in
        elim (Option-cases (last_row p.faiss_ids q)) [
          | inl none' ↦ ground (
            arith,
            has-keys p.meta q,
            sets,
            contains-kept p.tombstoned p.faiss_ids q,
            has-get row_of q,
            after q,
            none',
            last_row-contains p.faiss_ids q none',
          )
          | inr (r, some') ↦ ground (
            arith,
            has-keys p.meta q,
            sets,
            contains-kept p.tombstoned p.faiss_ids q,
            has-get row_of q,
            after q,
            some',
            last_row-found p.faiss_ids q r some',
          )
        ];
    described_once = once;
    distinct = a.distinct;
  }

  counts :
      (index : f.Index) (p : PersistedState)
      → validate_persisted_index f same default index p ≡ true
      → length p.faiss_ids ≡ length (l.rows index)
  unfolding validate_persisted_index
  counts index p h = ground (arith, h, l.ntotal-rows index)

  loads :
      (index : f.Index) (p : PersistedState)
      → validate_persisted_index f same default index p ≡ true
      → honoured default p.config ≡ ok p.config
      → distinct_keys (keys p.meta) ≡ true
      → (t : State f) × (restore_persisted f same default index p ≡ ok t) × Loaded index p t
  unfolding restore_persisted restore new_index
  loads index p ok' honours once =
      let (live, row_of, e, a, after) =
        reconstructed f l same default index p.tombstoned 0 p.faiss_ids [] []
          (record { held = λ q. refl; same_keys = refl; distinct = refl })
          (omega (arith, counts index p ok')) in
      let from_zero : (q : Text)
          → get row_of q ≡ (if contains p.tombstoned q then none else last_row p.faiss_ids q) =
        λ q. elim (Option-cases (last_row p.faiss_ids q)) [
          | inl none' ↦ ground (arith, none', after q)
          | inr (r, some') ↦ ground (arith, some', after q)
        ] in
      (
        _,
        rw (ok', honours, restore, e) refl,
        record {
          valid = loaded-IsValid index p live row_of ok' once a from_zero;
          same_index = refl;
          same_meta = refl;
          same_config = refl;
          rows_of = from_zero;
        },
      )

  -- The first part of a theorem about a load: it is not refused.
  accepted :
      (index : f.Index) (p : PersistedState) (s : State f)
      → restore_persisted f same default index p ≡ ok s
      → (validate_persisted_index f same default index p ≡ true)
        × (honoured default p.config ≡ ok p.config)
  unfolding restore_persisted new_index
  accepted index p s h = elim (Bool-cases (validate_persisted_index f same default index p)) [
    | inr no' ↦ absurd (ground (arith, no', h))
    | inl yes' ↦ elim (Result-cases (honoured default p.config)) [
      | inr (e, bad) ↦ absurd (ground (arith, yes', bad, h))
      | inl (c, good) ↦ (yes', good ∙ ap (λ x. ok x) (sym (honoured-same default p.config c good)))
    ]
  ]

  -- Whatever two files a snapshot holds, an index that loads from them has the invariant of an
  -- index, if the sidecar's metadata are a dict, which no key stands twice in.
  pub restore_persisted-IsValid :
      (index : f.Index) (p : PersistedState) (s : State f)
      → distinct_keys (keys p.meta) ≡ true
      → restore_persisted f same default index p ≡ ok s
      → IsValid f l s
  restore_persisted-IsValid index p s once h =
      let (ok', honours) = accepted index p s h in
      let (t, e, loaded) = loads index p ok' honours once in
      subst (IsValid f l) (ground (arith, e, h)) loaded.valid

  same_set-of :
      (xs ys : List Text) → ((q : Text) → contains xs q ≡ contains ys q) → same_set xs ys ≡ true
  same_set-of xs ys h =
      let forth = all-of xs ys (λ q m. sym (h q) ∙ m) in
      let back = all-of ys xs (λ q m. h q ∙ m) in ground (arith, forth, back)
    where
      all-of :
          (xs ys : List Text)
          → ((q : Text) → contains xs q ≡ true → contains ys q ≡ true)
          → all (contains ys) xs ≡ true
      all-of [] ys h = refl
      all-of (x ∷ xs) ys h =
          let first : contains (x ∷ xs) x ≡ true = ground arith in
          let rest = all-of xs ys (λ q m. h q (ground (arith, m))) in
          ground (arith, h x first, rest)

  contains-sorted : (ks : List Text) (k : Text) → contains (sort_by text_le ks) k ≡ contains ks k
  contains-sorted ks k =
      contains-any (sort_by text_le ks) k
      ∙ any-sort_by text_le (λ x. x == k) ks
      ∙ sym (contains-any ks k)

  saved-ids :
      (s : State f) (q : Text)
      → IsValid f l s
      → contains (keys s.meta) q
        ≡ contains (keep_if (λ id. not (contains (sort_by text_le s.tombstoned) id)) s.faiss_ids) q
  saved-ids s q v = elim (Option-cases (last_row s.faiss_ids q)) [
    | inl none' ↦ ground (
      arith,
      sym (has-keys s.meta q),
      v.described q,
      has-get s.row_of q,
      v.last q,
      none',
      contains-sorted s.tombstoned q,
      contains-kept (sort_by text_le s.tombstoned) s.faiss_ids q,
      last_row-contains s.faiss_ids q none',
    )
    | inr (r, some') ↦ ground (
      arith,
      sym (has-keys s.meta q),
      v.described q,
      has-get s.row_of q,
      v.last q,
      some',
      contains-sorted s.tombstoned q,
      contains-kept (sort_by text_le s.tombstoned) s.faiss_ids q,
      last_row-found s.faiss_ids q r some',
    )
  ]

  saved-valid :
      (s : State f)
      → IsValid f l s
      → validate_persisted_index f same default s.faiss (persisted_state f same default s) ≡ true
  unfolding validate_persisted_index persisted_state
  saved-valid s v =
      let ids =
        same_set-of (keys s.meta)
          (keep_if (λ id. not (contains (sort_by text_le s.tombstoned) id)) s.faiss_ids)
          (λ q. saved-ids s q v) in
      ground (arith, ids, v.counted, v.sized, l.ntotal-rows s.faiss)

  -- A valid index of a configuration that is honoured loads again from what a save writes: the
  -- index that comes back is valid, and has the same dimension, vectors and metadata.
  pub restore-persisted_state :
      (s : State f)
      → IsValid f l s
      → honoured default s.config ≡ ok s.config
      → (t : State f) × (restore_persisted f same default s.faiss (persisted_state f same default s)
          ≡ ok t)
        × IsValid f l t
        × (view f same default t ≡ view f same default s)
  unfolding persisted_state view
  restore-persisted_state s v honours =
      let (t, e, loaded) =
        loads s.faiss (persisted_state f same default s) (saved-valid s v) honours
          v.described_once in
      let same_row : (q : Text) → get t.row_of q ≡ get s.row_of q =
        λ q. ground (arith, loaded.rows_of q, v.last q, contains-sorted s.tombstoned q) in
      let same_live : (q : Text) → get t.live q ≡ get s.live q = λ q.
        loaded.valid.held q
        ∙ ap (λ i. at_row (l.rows i) (get t.row_of q)) loaded.same_index
        ∙ ap (at_row (l.rows s.faiss)) (same_row q)
        ∙ sym (v.held q) in
      (
        t,
        e,
        loaded.valid,
        λ i. record {
          size = (loaded.same_config i).dimension;
          entry = λ q. paired f same default (same_live q i) (get (loaded.same_meta i) q);
        },
      )
