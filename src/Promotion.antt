-- ===== src/Promotion.antt =====
-- The freshness guard of edgeproc/bundles/cas.py: which pointer may replace the active one.
-- `packaging.version.Version` is a third-party library: a parameter, the record `Versions`.
pub mod Guard
pub mod History
use edge_proc.Prelude.{
  ◌≡◌, ◌⊎◌, Bool, true, false, ◌||◌, Option, none, some, Text, Eq, ◌==◌, if◌then◌else◌,
  Text-discrete, ℕ_discrete, text_eq, nat_eq, option_eq, arith,
}
use edge_proc.Errors.{Reason, stale_sequence, stale_version, unprovable}
use edge_proc.Manifest.{VersionPointer, is_fresh_sequence}

-- `Version(text)`, or its `InvalidVersion`, and `<` and `==` between versions.
pub record Versions : Type 1 where
  pub Version : Type 0
  pub parse : Text → Option Version
  pub lt : Version → Version → Bool
  pub eq : Version → Version → Bool

-- PEP 440 orders versions: `<` is a strict order, and `==` is compatible with it.
pub record IsOrder (v : Versions) : Type 0 where
  pub lt_irrefl : (a : v.Version) → v.lt a a ≡ false
  pub lt_trans : (a b c : v.Version) → v.lt a b ≡ true → v.lt b c ≡ true → v.lt a c ≡ true
  pub eq_lt : (a b : v.Version) → v.eq a b ≡ true → v.lt b a ≡ false
  pub trichotomy : (a b : v.Version) → v.lt a b ≡ false → v.eq a b ≡ false → v.lt b a ≡ true

-- `_Freshness`
pub data Freshness : Type 0 where
  fresh stale undecidable : Freshness

unfoldable both : {P Q : Type 0} → Dec P → Dec Q → Dec (P × Q)
both (yes p) (yes q) = yes (p, q)
both (yes p) (no n) = no (λ h. n h.1)
both (no n) d = no (λ h. n h.0)

abbrev pub Fields : VersionPointer → VersionPointer → Type 0
Fields a b =
    (a.manifest_hash ≡ b.manifest_hash)
    × ((a.version ≡ b.version)
        × ((a.bundle_id ≡ b.bundle_id)
            × ((a.channel ≡ b.channel)
                × ((a.sequence ≡ b.sequence)
                    × ((a.key_id ≡ b.key_id)
                        × ((a.expires_at ≡ b.expires_at) × (a.signature ≡ b.signature)))))))

pub same-Fields : (a b : VersionPointer) → Fields a b → a ≡ b
same-Fields a b f = ground arith

pub Fields-same : (a b : VersionPointer) → a ≡ b → Fields a b
Fields-same a b e = ground arith

-- Pydantic compares models field by field.
unfoldable pub VersionPointer-discrete : Discrete VersionPointer
unfolding both
VersionPointer-discrete a b =
    elim (both (Text-discrete a.manifest_hash b.manifest_hash) (
      both (Text-discrete a.version b.version) (
        both (option_eq.dec a.bundle_id b.bundle_id) (
          both (option_eq.dec a.channel b.channel) (
            both (option_eq.dec a.sequence b.sequence) (
              both (option_eq.dec a.key_id b.key_id) (
                both (option_eq.dec a.expires_at b.expires_at)
                  (Text-discrete a.signature b.signature)))))))) [
                    | no n ↦ no (λ e. n (Fields-same a b e))
                    | yes p ↦ yes (same-Fields a b p)
                  ]

instance abbrev pub pointer_eq : Eq VersionPointer
pointer_eq = record { dec = VersionPointer-discrete }

-- `_sequence_verdict`
unfoldable pub sequence_verdict : VersionPointer → VersionPointer → Freshness
sequence_verdict incoming active = elim active.sequence [
  | none ↦ undecidable
  | some n ↦ if is_fresh_sequence incoming active then fresh else stale
]

-- `_freshness_refusal`
abbrev pub freshness_refusal : Freshness → Freshness → Option Reason
freshness_refusal stale version = some stale_sequence
freshness_refusal sequence stale = some stale_version
freshness_refusal fresh version = none
freshness_refusal sequence fresh = none
freshness_refusal undecidable undecidable = some unprovable

module _ (v : Versions) where
  compare_versions : Option v.Version → Option v.Version → Freshness
  compare_versions (some incoming) (some active) =
      if v.lt incoming active then stale else if v.eq incoming active then undecidable else fresh
  compare_versions _ _ = undecidable

  -- `_version_verdict`
  unfoldable pub version_verdict : Text → Text → Freshness
  unfolding compare_versions
  version_verdict incoming active = compare_versions (v.parse incoming) (v.parse active)

  -- `_downgrade_reason`
  unfoldable pub downgrade_reason : VersionPointer → VersionPointer → Option Reason
  unfolding sequence_verdict version_verdict
  downgrade_reason incoming active =
      if incoming == active
      then none
      else freshness_refusal (sequence_verdict incoming active)
          (version_verdict incoming.version active.version)
