-- ===== src/Promotion/Guard.antt =====
-- What the guard accepts, said without its verdicts.
use edge_proc.Prelude.{
  ℕ, ◌<◌, ◌≡◌, ◌≢◌, ◌↔◌, ◌⊎◌, refl, inl, inr, true, false, none, some, arith, Option-cases,
  Bool-cases,
}
use edge_proc.Manifest.{VersionPointer, is_fresh_sequence}
use edge_proc.Promotion.{
  Versions, IsOrder, Freshness, fresh, stale, undecidable, sequence_verdict, version_verdict,
  freshness_refusal, downgrade_reason, pointer_eq,
}

-- The incoming counter is above the active one, and both are there.
pub record NewerSequence (incoming active : VersionPointer) : Type 0 where
  pub before : ℕ
  pub after : ℕ
  pub had : active.sequence ≡ some before
  pub has : incoming.sequence ≡ some after
  pub grows : before < after

module _ (v : Versions) where
  -- Both versions are versions of PEP 440, and the incoming one is above the active one.
  pub record NewerVersion (incoming active : VersionPointer) : Type 0 where
    pub before : v.Version
    pub after : v.Version
    pub had : v.parse active.version ≡ some before
    pub has : v.parse incoming.version ≡ some after
    pub grows : v.lt before after ≡ true

  -- Both versions are versions of PEP 440, and the incoming one is below the active one.
  pub record OlderVersion (incoming active : VersionPointer) : Type 0 where
    pub before : v.Version
    pub after : v.Version
    pub had : v.parse active.version ≡ some before
    pub has : v.parse incoming.version ≡ some after
    pub falls : v.lt after before ≡ true

  -- A counter that grows, with a version that does not fall; or a version that grows, where the
  -- active pointer has no counter.
  abbrev pub Proves : VersionPointer → VersionPointer → Type 0
  Proves incoming active =
      (NewerSequence incoming active × (¬ OlderVersion incoming active))
      ⊎ ((active.sequence ≡ none) × NewerVersion incoming active)

  lt_asymm : IsOrder v → (a b : v.Version) → v.lt a b ≡ true → v.lt b a ≡ false
  lt_asymm o a b h = elim (Bool-cases (v.lt b a)) [
    | inl back ↦ absurd (ground (arith, o.lt_trans a b a h back, o.lt_irrefl a))
    | inr not-back ↦ not-back
  ]

  sequence-fresh : (i a : VersionPointer) → sequence_verdict i a ≡ fresh → NewerSequence i a
  unfolding sequence_verdict is_fresh_sequence
  sequence-fresh i a h = elim (Option-cases a.sequence) [
    | inl none' ↦ absurd (ground arith)
    | inr (m, had) ↦ elim (Option-cases i.sequence) [
      | inl none' ↦ absurd (ground arith)
      | inr (n, has) ↦ record { before = m; after = n; had = had; has = has; grows = ground arith }
    ]
  ]

  fresh-sequence : (i a : VersionPointer) → NewerSequence i a → sequence_verdict i a ≡ fresh
  unfolding sequence_verdict is_fresh_sequence
  fresh-sequence i a n = ground (arith, n.had, n.has, n.grows)

  sequence-undecidable :
      (i a : VersionPointer) → sequence_verdict i a ≡ undecidable → a.sequence ≡ none
  unfolding sequence_verdict
  sequence-undecidable i a h = ground arith

  version-stale :
      (i a : VersionPointer) → OlderVersion i a → version_verdict v i.version a.version ≡ stale
  unfolding version_verdict
  version-stale i a n = ground (arith, n.had, n.has, n.falls)

  module _ (o : IsOrder v) where
    version-fresh :
        (i a : VersionPointer) → NewerVersion i a → version_verdict v i.version a.version ≡ fresh
    unfolding version_verdict
    version-fresh i a n = ground (
      arith,
      n.had,
      n.has,
      n.grows,
      lt_asymm o n.before n.after n.grows,
      o.eq_lt n.after n.before,
    )

    fresh-version :
        (i a : VersionPointer) → version_verdict v i.version a.version ≡ fresh → NewerVersion i a
    unfolding version_verdict
    fresh-version i a h = elim (Option-cases (v.parse a.version)) [
      | inl none' ↦ absurd (ground arith)
      | inr (x, had) ↦ elim (Option-cases (v.parse i.version)) [
        | inl none' ↦ absurd (ground arith)
        | inr (y, has) ↦ record {
          before = x;
          after = y;
          had = had;
          has = has;
          grows = ground (arith, o.trichotomy y x);
        }
      ]
    ]

    older-stale :
        (i a : VersionPointer) → version_verdict v i.version a.version ≢ stale → ¬ OlderVersion i a
    older-stale i a h n = h (version-stale i a n)

    stale-older :
        (i a : VersionPointer) → version_verdict v i.version a.version ≡ stale → OlderVersion i a
    unfolding version_verdict
    stale-older i a h = elim (Option-cases (v.parse a.version)) [
      | inl none' ↦ absurd (ground arith)
      | inr (x, had) ↦ elim (Option-cases (v.parse i.version)) [
        | inl none' ↦ absurd (ground arith)
        | inr (y, has) ↦ record {
          before = x;
          after = y;
          had = had;
          has = has;
          falls = ground arith;
        }
      ]
    ]

    refusal-none :
        (i a : VersionPointer) (s t : Freshness)
        → sequence_verdict i a ≡ s
        → version_verdict v i.version a.version ≡ t
        → freshness_refusal s t ≡ none
        → Proves i a
    refusal-none i a stale t e e' h = cc
    refusal-none i a fresh stale e e' h = cc
    refusal-none i a fresh fresh e e' h = inl (sequence-fresh i a e, older-stale i a (λ x. cc))
    refusal-none i a fresh undecidable e e' h =
        inl (sequence-fresh i a e, older-stale i a (λ x. cc))
    refusal-none i a undecidable stale e e' h = cc
    refusal-none i a undecidable fresh e e' h =
        inr (sequence-undecidable i a e, fresh-version i a e')
    refusal-none i a undecidable undecidable e e' h = cc

    none-refusal :
        (i a : VersionPointer)
        → Proves i a
        → freshness_refusal (sequence_verdict i a) (version_verdict v i.version a.version) ≡ none
    unfolding sequence_verdict
    none-refusal i a (inl (n, notOlder)) = go (version_verdict v i.version a.version) refl
      where
        go :
            (t : Freshness)
            → version_verdict v i.version a.version ≡ t
            → freshness_refusal (sequence_verdict i a) t ≡ none
        go stale e = absurd (notOlder (stale-older i a e))
        go fresh e = rw (fresh-sequence i a n)
        go undecidable e = rw (fresh-sequence i a n)
    none-refusal i a (inr (had, n)) = rw (had, version-fresh i a n)

    -- The guard lets a pointer replace the active one exactly when the two are equal or the incoming
    -- one proves itself newer.
    pub downgrade_reason-none_iff :
        (incoming active : VersionPointer)
        → (downgrade_reason v incoming active ≡ none)
          ↔ ((incoming ≡ active) ⊎ Proves incoming active)
    unfolding downgrade_reason
    downgrade_reason-none_iff i a = (
      λ h. elim (pointer_eq.dec i a) [
        | yes same ↦ inl same
        | no differ ↦ inr (refusal-none i a _ _ refl refl (ground arith))
      ],
      λ c. elim c [ inl same ↦ ground arith | inr p ↦ ground (arith, none-refusal i a p) ],
    )
