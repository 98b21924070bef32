-- ===== src/Prelude/Members.antt =====
-- A predicate at every item of a list, and membership by the code's own test.
use mathlib.Core.Path.{◌≡◌, refl, sym, subst}
use mathlib.Core.Logic.{◌⊎◌, inl, inr}
use mathlib.Core.Bool.{Bool, true, false, ◌&&◌, ◌||◌}
use mathlib.Core.List.{List, [], ◌∷◌, ◌++◌}
use native.Mathlib.Omega.{arith}
use edge_proc.Prelude.Logic.{Bool-cases}
use edge_proc.Prelude.Lists.{any, all, keep_if}
use edge_proc.Prelude.Tests.{Eq, ◌==◌, contains}

-- A predicate by recursion computes to tuples, which the tactics read and build.
abbrev pub All {ℓ κ} : {A : Type ℓ} → (A → Type κ) → List A → Type κ
All P [] = Unit
All P (x ∷ xs) = P x × All P xs

pub All-append {ℓ κ} :
    {A : Type ℓ} (P : A → Type κ) (xs ys : List A) → All P xs → All P ys → All P (xs ++ ys)
All-append P [] ys hx hy = hy
All-append P (x ∷ xs) ys hx hy = (hx.0, All-append P xs ys hx.1 hy)

-- Membership with its place kept.
abbrev pub In : {A : Type 0} → A → List A → Type 0
In a [] = ⊥
In a (x ∷ xs) = (x ≡ a) ⊎ In a xs

module _ {A : Type 0} where
  pub In-append_left : (a : A) (xs ys : List A) → In a xs → In a (xs ++ ys)
  In-append_left a [] ys h = elim h [ ]
  In-append_left a (x ∷ xs) ys (inl e) = inl e
  In-append_left a (x ∷ xs) ys (inr h) = inr (In-append_left a xs ys h)

  pub In-append_right : (a : A) (xs ys : List A) → In a ys → In a (xs ++ ys)
  In-append_right a [] ys h = h
  In-append_right a (x ∷ xs) ys h = inr (In-append_right a xs ys h)

  -- An item at which a test passes, from `any`, and back.
  pub In_of_any : (p : A → Bool) (xs : List A) → any p xs ≡ true → (a : A) × In a xs × (p a ≡ true)
  In_of_any p [] h = absurd (cc)
  In_of_any p (x ∷ xs) h = elim (Bool-cases (p x)) [
    | inl e ↦ (x, inl refl, e)
    | inr e ↦ let (a, m, e') = In_of_any p xs (ground arith) in (a, inr m, e')
  ]

  pub any_of_In : (p : A → Bool) (a : A) (xs : List A) → In a xs → p a ≡ true → any p xs ≡ true
  any_of_In p a [] m h = elim m [ ]
  any_of_In p a (x ∷ xs) (inl e) h = ground (arith, e)
  any_of_In p a (x ∷ xs) (inr m) h = ground (arith, any_of_In p a xs m h)

  pub all_at : (p : A → Bool) (a : A) (xs : List A) → all p xs ≡ true → In a xs → p a ≡ true
  all_at p a [] h m = elim m [ ]
  all_at p a (x ∷ xs) h (inl e) = ground (arith, e)
  all_at p a (x ∷ xs) h (inr m) = all_at p a xs (ground arith) m

  pub all-append : (p : A → Bool) (xs ys : List A) → all p (xs ++ ys) ≡ all p xs && all p ys
  all-append p [] ys = refl
  all-append p (x ∷ xs) ys = ground (arith, all-append p xs ys)

  pub any-append : (p : A → Bool) (xs ys : List A) → any p (xs ++ ys) ≡ any p xs || any p ys
  any-append p [] ys = refl
  any-append p (x ∷ xs) ys = ground (arith, any-append p xs ys)

  kept : (p : A → Bool) (x : A) (xs : List A) → p x ≡ true → keep_if p (x ∷ xs) ≡ x ∷ keep_if p xs
  kept p x xs h = rw (h, keep_if)

  dropped : (p : A → Bool) (x : A) (xs : List A) → p x ≡ false → keep_if p (x ∷ xs) ≡ keep_if p xs
  dropped p x xs h = rw (h, keep_if)

  pub In-keep_if :
      (p : A → Bool) (a : A) (xs : List A) → In a (keep_if p xs) → In a xs × (p a ≡ true)
  In-keep_if p a [] m = elim m [ ]
  In-keep_if p a (x ∷ xs) m = elim (Bool-cases (p x)) [
    | inl e ↦ elim (subst (In a) (kept p x xs e) m) [
      | inl same ↦ (inl same, ground (arith, same))
      | inr m' ↦ let (m'', e') = In-keep_if p a xs m' in (inr m'', e')
    ]
    | inr e ↦ let (m', e') = In-keep_if p a xs (subst (In a) (dropped p x xs e) m) in (inr m', e')
  ]

  pub keep_if-In : (p : A → Bool) (a : A) (xs : List A) → In a xs → p a ≡ true → In a (keep_if p xs)
  keep_if-In p a [] m h = elim m [ ]
  keep_if-In p a (x ∷ xs) (inl e) h = subst (In a) (sym (kept p x xs (ground (arith, e)))) (inl e)
  keep_if-In p a (x ∷ xs) (inr m) h = elim (Bool-cases (p x)) [
    | inl e ↦ subst (In a) (sym (kept p x xs e)) (inr (keep_if-In p a xs m h))
    | inr e ↦ subst (In a) (sym (dropped p x xs e)) (keep_if-In p a xs m h)
  ]

module _ {A : Type 0} ⦃e : Eq A⦄ where
  pub contains-any : (xs : List A) (a : A) → contains xs a ≡ any (λ x. x == a) xs
  contains-any [] a = refl
  contains-any (x ∷ xs) a = ground (arith, contains-any xs a)

  pub contains_of_In : (a : A) (xs : List A) → In a xs → contains xs a ≡ true
  contains_of_In a [] m = elim m [ ]
  contains_of_In a (x ∷ xs) (inl h) = ground (arith, h)
  contains_of_In a (x ∷ xs) (inr m) = ground (arith, contains_of_In a xs m)

  pub In_of_contains : (a : A) (xs : List A) → contains xs a ≡ true → In a xs
  In_of_contains a [] h = absurd (cc)
  In_of_contains a (x ∷ xs) h = elim (e.dec x a) [
    | yes same ↦ inl same
    | no differ ↦ inr (In_of_contains a xs (ground arith))
  ]
