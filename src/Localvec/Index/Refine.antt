-- ===== src/Localvec/Index/Refine.antt =====
-- Insert, delete and rebuild do to an index what the abstract calls do to its map.
use edge_proc.Prelude.{
  ℕ, ◌≡◌, ◌∙◌, refl, sym, ap, inl, inr, Bool, true, false, Option, none, some, List, [], ◌∷◌, Text,
  length, ◌==◌, nat_eq, text_eq, if◌then◌else◌, arith, Bool-cases, Option-cases,
}
use edge_proc.Prelude.Dicts.{get, has, get-put, get-del, has-get}
use edge_proc.Errors.{unsupported}
use edge_proc.Exec.{Result, ok, err, Keeps, Refines, Refines-bind}
use edge_proc.Manifest.{Scalar}
use edge_proc.Localvec.Flat.{Flat, IsFlat}
use edge_proc.Localvec.Index.{
  IndexConfig, Metadata, VectorEmbedding, State, passes, honoured, tuned_graph_knobs, fresh_state,
  validate_new, added, add_one, insert, forget, delete_one, delete, compacted, rebuild,
}
use edge_proc.Localvec.Index.Valid.{
  last_row-at, IsValid, fresh-IsValid, live_rows, add_one-IsValid, delete_one-IsValid,
  insert-IsValid, delete-IsValid,
}
use edge_proc.Localvec.Index.Compact.{rebuild-IsValid}
use edge_proc.Localvec.Index.Spec.{
  Held, stored, stored_view, is_plain, Call, inserting, deleting, rebuilding, paired, view, is_some,
  set, hold_one, hold, drop_held, drop_one, drop, keep_all, perform, promise, session,
}

module _ (f : Flat) (l : IsFlat f) (same : Scalar → Scalar → Bool) (default : IndexConfig) where
  held-eq :
      (d : ℕ) (g h : Text → Option (f.Vector × Metadata))
      → ((q : Text) → g q ≡ h q)
      → ◌≡◌ {A = Held f} (record { size = d; entry = g }) (record { size = d; entry = h })
  held-eq d g h e = λ i. record { size = d; entry = λ q. e q i }

  live_described : (s : State f) (q : Text) → IsValid f l s → has s.meta q ≡ has s.live q
  live_described s q v = v.described q ∙ sym (live_rows f l same default s q v)

  is_some-entry :
      (s : State f) (q : Text)
      → IsValid f l s
      → is_some f same default (paired f same default (get s.live q) (get s.meta q)) ≡ has s.live q
  is_some-entry s q v = ground (arith, live_described s q v, has-get s.live q, has-get s.meta q)

  add_one-hold_one :
      (e : VectorEmbedding f.Float)
      → Refines
          (IsValid f l)
          (view f same default)
          (add_one f same default e)
          (hold_one f same default e)
  unfolding add_one hold_one view added validate_new
  add_one-hold_one e s v = elim (Bool-cases (has s.live e.entity_id)) [
    | inl old ↦ rw (is_some-entry s e.entity_id v, old) refl
    | inr new ↦ elim (Bool-cases (length e.embedding == s.config.dimension)) [
      | inr odd ↦ rw (is_some-entry s e.entity_id v, new, odd) refl
      | inl fits ↦
          rw (is_some-entry s e.entity_id v, new, fits)
            (ap (λ h. (ok tt, h))
              (held-eq s.config.dimension _ _ (λ q. ground (
                arith,
                get-put s.live e.entity_id q (f.as_vector e.embedding),
                get-put s.meta e.entity_id q e.metadata,
              ))))
    ]
  ]

  drop_one-absent :
      (filters : Option Metadata) (id : Text) (h : Held f)
      → h.entry id ≡ none
      → drop_one f same default filters id h ≡ (ok tt, h)
  unfolding drop_one
  drop_one-absent filters id h e = ap (λ x. drop_held f same default filters id x h) e

  drop_one-present :
      (filters : Option Metadata) (id : Text) (h : Held f) (v : f.Vector) (meta : Metadata)
      → h.entry id ≡ some (v, meta)
      → drop_one f same default filters id h
        ≡ (ok tt, if passes same meta filters then set f same default h id none else h)
  unfolding drop_one
  drop_one-present filters id h v meta e = ap (λ x. drop_held f same default filters id x h) e

  delete_one-absent :
      (filters : Option Metadata) (id : Text) (s : State f)
      → get s.live id ≡ none
      → delete_one f same default filters id s ≡ (ok tt, s)
  unfolding delete_one
  delete_one-absent filters id s e = rw (has-get s.live id, e) refl

  delete_one-present :
      (filters : Option Metadata) (id : Text) (s : State f) (v : f.Vector) (meta : Metadata)
      → get s.live id ≡ some v
      → get s.meta id ≡ some meta
      → delete_one f same default filters id s
        ≡ (ok tt, if passes same meta filters then forget f same default s id else s)
  unfolding delete_one
  delete_one-present filters id s v meta e m = elim (Bool-cases (passes same meta filters)) [
    | inl yes' ↦ rw (has-get s.live id, e, m, yes') refl
    | inr no' ↦ rw (has-get s.live id, e, m, no') refl
  ]

  forget-view :
      (id : Text) (s : State f)
      → view f same default (forget f same default s id)
        ≡ set f same default (view f same default s) id none
  unfolding view forget
  forget-view id s =
      held-eq s.config.dimension _ _ (λ q. ground (arith, get-del s.live id q, get-del s.meta id q))

  absent-view :
      (s : State f) (id : Text) → get s.live id ≡ none → (view f same default s).entry id ≡ none
  unfolding view
  absent-view s id e = rw e refl

  present-view :
      (s : State f) (id : Text) (v : f.Vector) (meta : Metadata)
      → get s.live id ≡ some v
      → get s.meta id ≡ some meta
      → (view f same default s).entry id ≡ some (v, meta)
  unfolding view
  present-view s id v meta e m = rw (e, m) refl

  either-view :
      (b : Bool) (s : State f) (id : Text)
      → view f same default (if b then forget f same default s id else s)
        ≡ (if b then set f same default (view f same default s) id none else view f same default s)
  either-view true s id = forget-view id s
  either-view false s id = refl

  delete_one-drop_one :
      (filters : Option Metadata) (id : Text)
      → Refines
          (IsValid f l)
          (view f same default)
          (delete_one f same default filters id)
          (drop_one f same default filters id)
  delete_one-drop_one filters id s v =
      let viewed : Result (Unit {0}) × State f → Result (Unit {0}) × Held f =
        λ r. (r.0, view f same default r.1) in
      elim (Option-cases (get s.live id)) [
        | inl none' ↦
            ap viewed (delete_one-absent filters id s none')
            ∙ sym (drop_one-absent filters id (view f same default s) (absent-view s id none'))
        | inr (vector, some') ↦ elim (Option-cases (get s.meta id)) [
          | inl lost ↦ absurd (
              ground
                (arith, live_described s id v, has-get s.live id, has-get s.meta id, some', lost))
          | inr (meta, found) ↦
              ap viewed (delete_one-present filters id s vector meta some' found)
              ∙ ap (λ h. (ok tt, h)) (either-view (passes same meta filters) s id)
              ∙ sym (
                  drop_one-present filters id (view f same default s) vector meta
                    (present-view s id vector meta some' found))
        ]
      ]

  insert-hold :
      (es : List (VectorEmbedding f.Float))
      → Refines
          (IsValid f l)
          (view f same default)
          (insert f same default es)
          (hold f same default es)
  unfolding insert hold
  insert-hold [] = λ s v. refl
  insert-hold (e ∷ es) =
      Refines-bind (IsValid f l) (view f same default) (add_one f same default e)
        (hold_one f same default e) (λ _. insert f same default es) (λ _. hold f same default es)
        (add_one-IsValid f l same default e) (add_one-hold_one e) (λ _. insert-hold es)

  delete-drop :
      (filters : Option Metadata) (ids : List Text)
      → Refines
          (IsValid f l)
          (view f same default)
          (delete f same default filters ids)
          (drop f same default filters ids)
  unfolding delete drop
  delete-drop filters [] = λ s v. refl
  delete-drop filters (id ∷ ids) =
      Refines-bind (IsValid f l) (view f same default) (delete_one f same default filters id)
        (drop_one f same default filters id) (λ _. delete f same default filters ids)
        (λ _. drop f same default filters ids) (delete_one-IsValid f l same default filters id)
        (delete_one-drop_one filters id) (λ _. delete-drop filters ids)

  honoured-plain :
      (config : IndexConfig)
      → honoured default config
        ≡ (if is_plain f same default config then ok config else err unsupported)
  unfolding honoured tuned_graph_knobs
  honoured-plain config = ground arith

  rebuild-keep_all :
      (config : Option IndexConfig)
      → Refines
          (IsValid f l)
          (view f same default)
          (rebuild f same default config)
          (keep_all f same default config)
  unfolding rebuild keep_all view compacted
  rebuild-keep_all none s v = refl
  rebuild-keep_all (some config) s v = elim (Bool-cases (is_plain f same default config)) [
    | inl plain ↦ rw (rebuild, keep_all, honoured-plain config, plain) refl
    | inr tuned ↦ rw (rebuild, keep_all, honoured-plain config, tuned) refl
  ]

  pub perform-promise :
      (c : Call f)
      → Refines
          (IsValid f l)
          (view f same default)
          (perform f same default c)
          (promise f same default c)
  unfolding perform promise
  perform-promise (inserting es) = insert-hold es
  perform-promise (deleting filters ids) = delete-drop filters ids
  perform-promise (rebuilding config) = rebuild-keep_all config

  pub perform-IsValid : (c : Call f) → Keeps (IsValid f l) (perform f same default c)
  unfolding perform
  perform-IsValid (inserting es) = insert-IsValid f l same default es
  perform-IsValid (deleting filters ids) = delete-IsValid f l same default filters ids
  perform-IsValid (rebuilding config) = rebuild-IsValid f l same default config

  pub session-promise :
      (cs : List (Call f)) (s : State f)
      → IsValid f l s
      → (
        (session f same default (perform f same default) cs s).0,
        view f same default (session f same default (perform f same default) cs s).1,
      )
        ≡ session f same default (promise f same default) cs (view f same default s)
  unfolding session
  session-promise [] s v = refl
  session-promise (c ∷ cs) s v =
      ap (λ t. ((perform f same default c s).0 ∷ t.0, t.1))
        (session-promise cs (perform f same default c s).1 (perform-IsValid c s v))
      ∙ ap (λ t. let u = session f same default (promise f same default) cs t.1 in (t.0 ∷ u.0, u.1))
          (perform-promise c s v)

  pub session-IsValid :
      (cs : List (Call f)) (s : State f)
      → IsValid f l s
      → IsValid f l (session f same default (perform f same default) cs s).1
  unfolding session
  session-IsValid [] s v = v
  session-IsValid (c ∷ cs) s v =
      session-IsValid cs (perform f same default c s).1 (perform-IsValid c s v)

  stored-entry :
      (s : State f) (q : Text)
      → IsValid f l s
      → stored f same default s q ≡ paired f same default (get s.live q) (get s.meta q)
  unfolding stored
  stored-entry s q v = elim (Option-cases (get s.row_of q)) [
    | inl none' ↦ ground (arith, none', v.held q)
    | inr (r, some') ↦ ground (
      arith,
      some',
      v.held q,
      l.reconstruct-rows s.faiss r,
      last_row-at s.faiss_ids q r (ground (arith, v.last q, some')),
    )
  ]

  -- In a valid index, FAISS holds the live entries.
  pub stored_view-view :
      (s : State f) → IsValid f l s → stored_view f same default s ≡ view f same default s
  unfolding stored_view view
  stored_view-view s v =
      held-eq (f.dimension s.faiss) (stored f same default s) _ (λ q. stored-entry s q v)
      ∙ ap of_size v.sized
    where
      of_size : ℕ → Held f
      of_size d = record {
        size = d;
        entry = λ q. paired f same default (get s.live q) (get s.meta q);
      }

  -- Whatever is inserted, deleted and rebuilt in a new index, each call returns or raises what the
  -- same call does on a map from ids to vectors and metadata: duplicates and other dimensions are a
  -- `ValueError`, and a configuration other than the cosine metric with the default knobs is an
  -- UnsupportedIndexOptionError. What FAISS holds at the rows of the ids afterwards is that map.
  pub session-refines :
      (config : IndexConfig) (cs : List (Call f))
      → let start = fresh_state f same default config in
        let run = session f same default (perform f same default) cs start in
        (run.0, stored_view f same default run.1)
        ≡ session f same default (promise f same default) cs (stored_view f same default start)
  session-refines config cs =
      let start = fresh_state f same default config in
      let run = session f same default (perform f same default) cs start in
      let fresh = fresh-IsValid f l same default config in
      ap (λ h. (run.0, h)) (stored_view-view run.1 (session-IsValid cs start fresh))
      ∙ session-promise cs start fresh
      ∙ ap (λ h. session f same default (promise f same default) cs h)
          (sym (stored_view-view start fresh))
