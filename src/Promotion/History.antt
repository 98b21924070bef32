-- ===== src/Promotion/History.antt =====
-- Histories of the active pointer: what has been superseded stays refused.
use mathlib.Core.Option.{some-injective}
use edge_proc.Prelude.{
  ℕ, ◌<◌, ◌≡◌, ◌≢◌, ◌⊎◌, sym, inl, inr, ◌∙◌, true, none, some, arith, ap, subst, Option-cases,
}
use edge_proc.Manifest.{VersionPointer}
use edge_proc.Promotion.{Versions, IsOrder, downgrade_reason}
use edge_proc.Promotion.Guard.{NewerSequence, NewerVersion, Proves, downgrade_reason-none_iff}

module _ (v : Versions) where
  -- `b` came to be active some promotions after `a`, each of another pointer than the active one.
  pub data History (a : VersionPointer) : VersionPointer → Type 0 where
    once : {b : VersionPointer} → downgrade_reason v b a ≡ none → b ≢ a → History a b
    again :
        {b c : VersionPointer} → History a b → downgrade_reason v c b ≡ none → c ≢ b → History a c

  -- An order of pointers that every promotion climbs.
  abbrev pub Later : VersionPointer → VersionPointer → Type 0
  Later a b =
      NewerSequence b a
      ⊎ ((n : ℕ) × (a.sequence ≡ none) × (b.sequence ≡ some n))
      ⊎ ((a.sequence ≡ none) × (b.sequence ≡ none) × NewerVersion v b a)

  Proves-Later : (a b : VersionPointer) → Proves v b a → Later a b
  Proves-Later a b (inl (n, rest)) = inl n
  Proves-Later a b (inr (had, n)) = elim (Option-cases b.sequence) [
    | inl none' ↦ inr (inr (had, none', n))
    | inr (m, has) ↦ inr (inl (m, had, has))
  ]

  module _ (o : IsOrder v) where
    NewerVersion-trans :
        (a b c : VersionPointer) → NewerVersion v b a → NewerVersion v c b → NewerVersion v c a
    NewerVersion-trans a b c p q =
        let same : q.before ≡ p.after = some-injective _ _ (sym q.had ∙ p.has) in
        record {
          before = p.before;
          after = q.after;
          had = p.had;
          has = q.has;
          grows = o.lt_trans p.before p.after q.after p.grows (rw (← same) q.grows);
        }

    NewerVersion-irrefl : (a : VersionPointer) → ¬ NewerVersion v a a
    NewerVersion-irrefl a p =
        let same : p.before ≡ p.after = some-injective _ _ (sym p.had ∙ p.has) in
        let loop : v.lt p.before p.before ≡ true = ap (v.lt p.before) same ∙ p.grows in
        cc (o.lt_irrefl p.before)

    Later-irrefl : (a : VersionPointer) → ¬ Later a a
    Later-irrefl a (inl n) = absurd (ground (arith, n.had, n.has, n.grows))
    Later-irrefl a (inr (inl (n, p, q))) = cc
    Later-irrefl a (inr (inr (p, q, n))) = NewerVersion-irrefl a n

    Later-trans : (a b c : VersionPointer) → Later a b → Later b c → Later a c
    Later-trans a b c (inl p) (inl q) = inl (record {
      before = p.before;
      after = q.after;
      had = p.had;
      has = q.has;
      grows = ground (arith, p.has, q.had, p.grows, q.grows);
    })
    Later-trans a b c (inl p) (inr (inl (n, q, r))) = absurd (cc (p.has))
    Later-trans a b c (inl p) (inr (inr (q, r, n))) = absurd (cc (p.has))
    Later-trans a b c (inr (inl (n, p, q))) (inl r) = inr (inl (r.after, p, r.has))
    Later-trans a b c (inr (inl (n, p, q))) (inr (inl (m, r, s))) = absurd (cc)
    Later-trans a b c (inr (inl (n, p, q))) (inr (inr (r, s, m))) = absurd (cc)
    Later-trans a b c (inr (inr (p, q, n))) (inl r) = inr (inl (r.after, p, r.has))
    Later-trans a b c (inr (inr (p, q, n))) (inr (inl (m, r, s))) = inr (inl (m, p, s))
    Later-trans a b c (inr (inr (p, q, n))) (inr (inr (r, s, m))) =
        inr (inr (p, s, NewerVersion-trans a b c n m))

    step-Later : (a b : VersionPointer) → downgrade_reason v b a ≡ none → b ≢ a → Later a b
    step-Later a b accepted differ = elim ((downgrade_reason-none_iff v o b a).0 accepted) [
      | inl same ↦ absurd (differ same)
      | inr p ↦ Proves-Later a b p
    ]

    History-Later : {a b : VersionPointer} → History a b → Later a b
    History-Later {a} {b} (once h d) = step-Later a b h d
    History-Later {a} (again {b = b} {c = c} hist h d) =
        Later-trans a b c (History-Later hist) (step-Later b c h d)

    -- A pointer that was superseded is never active again: after any number of promotions to other
    -- pointers, the guard refuses it.
    pub no_replay : (a b : VersionPointer) → History a b → downgrade_reason v a b ≢ none
    no_replay a b hist accepted =
        let later : Later a b = History-Later hist in
        elim ((downgrade_reason-none_iff v o a b).0 accepted) [
          | inl same ↦ Later-irrefl b (subst (λ x. Later x b) same later)
          | inr p ↦ Later-irrefl a (Later-trans a b a later (Proves-Later b a p))
        ]

    -- Once the active pointer has a counter, every later active pointer has a greater one.
    pub sequence-History :
        (a b : VersionPointer) (n : ℕ)
        → History a b
        → a.sequence ≡ some n
        → (m : ℕ) × (b.sequence ≡ some m) × (n < m)
    sequence-History a b n hist had = elim (History-Later hist) [
      | inl p ↦ (p.after, p.has, ground (arith, p.had, p.grows))
      | inr (inl (m, gone, r)) ↦ absurd (cc)
      | inr (inr (gone, r, s)) ↦ absurd (cc)
    ]
