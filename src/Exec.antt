-- ===== src/Exec.antt =====
-- Methods that change files and may raise. What was written before a raise stays written, so the
-- state comes back beside the error too.
use edge_proc.Prelude.{◌≡◌, ◌∙◌, ◌⊎◌, inl, inr, refl, ap, Bool, true, false, Option, none, some}
use edge_proc.Errors.{Error}

pub data Result {ℓ} (A : Type ℓ) : Type ℓ where
  ok : A → Result A
  err : Error → Result A

abbrev pub Exec : Type 0 → Type 0 → Type 0
Exec S A = S → Result A × S

module _ {S A : Type 0} where
  abbrev pub pure : A → Exec S A
  pure a s = (ok a, s)

  abbrev pub raise : Error → Exec S A
  raise e s = (err e, s)

  abbrev pub lift : Result A → Exec S A
  lift r s = (r, s)

  -- `except`: the handler sees the error and the state that the block left.
  abbrev pub catch : Exec S A → (Error → Exec S A) → Exec S A
  catch m handler s = let (r, s') = m s in elim r [ ok a ↦ (ok a, s') | err e ↦ handler e s' ]

abbrev pub modify : {S : Type 0} → (S → S) → Exec S (Unit {0})
modify f s = (ok tt, f s)

abbrev pub gets : {S A : Type 0} → (S → A) → Exec S A
gets f s = (ok (f s), s)

-- `if b: raise e`
abbrev pub refuse_if : {S : Type 0} → Bool → Error → Exec S (Unit {0})
refuse_if true e s = (err e, s)
refuse_if false e s = (ok tt, s)

abbrev pub or_raise : {S A : Type 0} → Option A → Error → Exec S A
or_raise none e s = (err e, s)
or_raise (some a) e s = (ok a, s)

abbrev pub continue : {S A B : Type 0} → Result A → (A → Exec S B) → Exec S B
continue (ok a) f s = f a s
continue (err e) f s = (err e, s)

infixl 5 ◌>>=◌ ◌>>◌
abbrev pub ◌>>=◌ : {S A B : Type 0} → Exec S A → (A → Exec S B) → Exec S B
◌>>=◌ m f s = let (r, s') = m s in continue r f s'

abbrev pub ◌>>◌ : {S A B : Type 0} → Exec S A → Exec S B → Exec S B
m >> n = m >>= λ _. n

-- A block that succeeds went through its first step.
pub bind-ok :
    {S A B : Type 0} (m : Exec S A) (f : A → Exec S B) (s t : S) (b : B)
    → (m >>= f) s ≡ (ok b, t)
    → (a : A) × (s' : S) × (m s ≡ (ok a, s')) × (f a s' ≡ (ok b, t))
bind-ok {S} {A} {B} m f s t b h = go (m s).0 (m s).1 refl h
  where
    go :
        (r : Result A) (s' : S)
        → m s ≡ (r, s')
        → continue r f s' ≡ (ok b, t)
        → (a : A) × (s'' : S) × (m s ≡ (ok a, s'')) × (f a s'' ≡ (ok b, t))
    go (ok a) s' e h' = (a, s', e, h')
    go (err x) s' e h' = absurd (cc (ap (λ (p : Result B × S). p.0) h'))

pub Result-cases :
    {A : Type 0} (r : Result A) → ((a : A) × (r ≡ ok a)) ⊎ ((e : Error) × (r ≡ err e))
Result-cases (ok a) = inl (a, refl)
Result-cases (err e) = inr (e, refl)

-- Properties of the state that a method keeps, whether it returns or raises.
abbrev pub Keeps : {S A : Type 0} → (S → Type 0) → Exec S A → Type 0
Keeps {S} P m = (s : S) → P s → P (m s).1

pub Keeps-bind :
    {S A B : Type 0} (P : S → Type 0) (m : Exec S A) (f : A → Exec S B)
    → Keeps P m
    → ((a : A) → Keeps P (f a))
    → Keeps P (m >>= f)
Keeps-bind {S} {A} P m f km kf s p = go (m s).0 (m s).1 (km s p)
  where
    go : (r : Result A) (s' : S) → P s' → P (continue r f s').1
    go (ok a) s' q = kf a s' q
    go (err e) s' q = q

pub bind-step :
    {S A B : Type 0} (m : Exec S A) (f : A → Exec S B) {s s' : S} {a : A}
    → m s ≡ (ok a, s')
    → (m >>= f) s ≡ f a s'
bind-step m f e = ap (λ r. continue r.0 f r.1) e

pub bind-stop :
    {S A B : Type 0} (m : Exec S A) (f : A → Exec S B) {s s' : S} {e : Error}
    → m s ≡ (err e, s')
    → (m >>= f) s ≡ (err e, s')
bind-stop m f e = ap (λ r. continue r.0 f r.1) e

-- Under a view of the state, a method does what the method of the view does.
abbrev pub Refines : {S T A : Type 0} → (S → Type 0) → (S → T) → Exec S A → Exec T A → Type 0
Refines {S} P view m n = (s : S) → P s → ((m s).0, view (m s).1) ≡ n (view s)

pub Refines-bind :
    {S T A B : Type 0} (P : S → Type 0) (view : S → T) (m : Exec S A) (n : Exec T A)
    (f : A → Exec S B) (g : A → Exec T B)
    → Keeps P m
    → Refines P view m n
    → ((a : A) → Refines P view (f a) (g a))
    → Refines P view (m >>= f) (n >>= g)
Refines-bind {S} {T} {A} {B} P view m n f g km rm rf s p =
    go (m s).0 (m s).1 (km s p) ∙ ap (λ r. continue r.0 g r.1) (rm s p)
  where
    go :
        (r : Result A) (s' : S)
        → P s'
        → ((continue r f s').0, view (continue r f s').1) ≡ continue r g (view s')
    go (ok a) s' q = rf a s' q
    go (err e) s' q = refl
