-- ===== src/Prelude/Tests.antt =====
-- Boolean tests, the conditional, and Python's `==` and `in` at the types that have an `Eq`.
use Prim.Native.Nat.{ℕ, compare, Ordering}
use mathlib.Core.Path.{◌≡◌, refl, ap}
use mathlib.Core.Logic.{◌≢◌, ite, dite}
use mathlib.Core.Bool.{Bool, true, false, ◌||◌}
use mathlib.Core.Option.{Option, none, some, none-ne-some, some-ne-none, some-injective}
use mathlib.Core.List.{List, [], ◌∷◌}
use native.Mathlib.Omega.{arith}
use native.Mathlib.Decide.{ℕ_discrete}

abbrev pub ltb : ℕ → ℕ → Bool
ltb a b = elim (compare a b) [ Ordering.lt ↦ true | _ ↦ false ]

abbrev pub leb : ℕ → ℕ → Bool
leb a b = elim (compare a b) [ Ordering.gt ↦ false | _ ↦ true ]

infix 1 if◌then◌else◌
abbrev pub if◌then◌else◌ {ℓ} : {A : Type ℓ} → Bool → A → A → A
if true then x else y = x
if false then x else y = y

pub record Eq {ℓ} (A : Type ℓ) : Type ℓ where
  pub dec : Discrete A

-- Code points of a text, and bytes: a list of numbers both.
abbrev pub Text : Type 0
Text = List ℕ

-- Lists compare item by item.
unfoldable pub list_discrete {ℓ} : {A : Type ℓ} → Discrete A → Discrete (List A)
list_discrete d [] [] = yes refl
list_discrete d [] (y ∷ ys) = no (λ e. cc)
list_discrete d (x ∷ xs) [] = no (λ e. cc)
list_discrete d (x ∷ xs) (y ∷ ys) =
    let rest = list_discrete d xs ys in
    elim (d x y) [
      | no n ↦ no (λ e. n (cc))
      | yes p ↦ elim rest [ no n ↦ no (λ e. n (cc)) | yes q ↦ yes (cc) ]
    ]

unfoldable pub Text-discrete : Discrete (List ℕ)
unfolding list_discrete
Text-discrete = list_discrete ℕ_discrete

instance abbrev pub nat_eq : Eq ℕ
nat_eq = record { dec = ℕ_discrete }

instance abbrev pub text_eq : Eq (List ℕ)
text_eq = record { dec = Text-discrete }

module _ {ℓ} {A : Type ℓ} ⦃e : Eq A⦄ where
  infix 50 ◌==◌
  abbrev pub ◌==◌ : A → A → Bool
  a == b = ite (e.dec a b) true false

  pub ==_sound : (a b : A) → (a == b) ≡ true → a ≡ b
  ==_sound a b h = ground arith

  pub ==_refl : (a : A) → (a == a) ≡ true
  ==_refl a = ground arith

  pub ==_ne : (a b : A) → a ≢ b → (a == b) ≡ false
  ==_ne a b h = ground arith

  -- `a in xs`
  abbrev pub contains : List A → A → Bool
  contains [] a = false
  contains (x ∷ xs) a = x == a || contains xs a

  option_dec : Discrete (Option A)
  option_dec none none = yes refl
  option_dec none (some b) = no (none-ne-some b)
  option_dec (some a) none = no (some-ne-none a)
  option_dec (some a) (some b) =
      dite (e.dec a b) (λ p. yes (ap some p)) (λ n. no (λ p. n (some-injective a b p)))

  instance unfoldable pub option_eq : Eq (Option A)
  unfolding option_dec
  option_eq = record { dec = option_dec }
