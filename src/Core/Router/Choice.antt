-- ===== src/Core/Router/Choice.antt =====
-- What `pick` chooses, and what registration does to earlier choices.
use edge_proc.Prelude.{
  ◌≡◌, refl, true, false, none, some, List, [], ◌∷◌, ◌++◌, any, arith, ap, ◌==◌, ◌≢◌, text_eq,
  if◌then◌else◌, Bool-cases, inl, inr, ◌↔◌,
}
use edge_proc.Prelude.Members.{All, All-append}
use edge_proc.Core.Models.{Task, Runtime}
use edge_proc.Core.Router.{is_accept, pick, register}

module _ {F : Type 0} where
  abbrev pub Refuses : Task F → Runtime F → Type 0
  Refuses task r = is_accept (r.can_handle task) ≡ false

  abbrev pub NamedApart : Runtime F → Runtime F → Type 0
  NamedApart r s = s.name ≢ r.name

  -- No two runtimes of the registry share a name.
  abbrev pub UniqueNames : List (Runtime F) → Type 0
  UniqueNames [] = Unit
  UniqueNames (r ∷ rs) = All (NamedApart r) rs × UniqueNames rs

  -- The runtime that `pick` returns accepts the task, and every runtime registered before it does
  -- not.
  pub pick_first :
      (task : Task F) (rs : List (Runtime F)) (r : Runtime F)
      → pick task rs ≡ some r
      → (before after : List (Runtime F)) × (rs ≡ before ++ r ∷ after)
        × (is_accept (r.can_handle task) ≡ true)
        × All (Refuses task) before
  unfolding pick
  pick_first task [] r h = cc
  pick_first task (x ∷ rs) r h = elim (Bool-cases (is_accept (x.can_handle task))) [
    | inl yes' ↦ ([], rs, ground arith, ground arith, tt)
    | inr no' ↦
        let (before, after, e, a, refused) = pick_first task rs r (ground arith) in
        (x ∷ before, after, ap (λ l. x ∷ l) e, a, (no', refused))
  ]

  -- `pick` returns nothing exactly when every registered runtime refuses the task.
  pub pick-none :
      (task : Task F) (rs : List (Runtime F)) → (pick task rs ≡ none) ↔ All (Refuses task) rs
  unfolding pick
  pick-none task [] = (λ _. tt, λ _. refl)
  pick-none task (x ∷ rs) = (
    λ h. (ground arith, (pick-none task rs).0 (ground arith)),
    λ h. rw h.0 ((pick-none task rs).1 h.1),
  )

  pick-append :
      (task : Task F) (rs : List (Runtime F)) (r : Runtime F)
      → pick task (rs ++ r ∷ []) ≡ elim (pick task rs) [
        | some s ↦ some s
        | none ↦ if is_accept (r.can_handle task) then some r else none
      ]
  unfolding pick
  pick-append task [] r = refl
  pick-append task (x ∷ rs) r = ground (arith, pick-append task rs r)

  -- Registering one more runtime keeps every choice that was made without it: a task goes to the
  -- new runtime only if no earlier one accepts it.
  pub pick-register :
      (task : Task F) (rs rs' : List (Runtime F)) (r : Runtime F)
      → register rs r ≡ some rs'
      → pick task rs' ≡ elim (pick task rs) [
        | some s ↦ some s
        | none ↦ if is_accept (r.can_handle task) then some r else none
      ]
  unfolding register
  pick-register task rs rs' r h =
      let e : rs ++ r ∷ [] ≡ rs' = ground arith in rw (← e) (pick-append task rs r)

  apart :
      (rs : List (Runtime F)) (r : Runtime F)
      → any (λ existing. existing.name == r.name) rs ≡ false
      → All (λ x. NamedApart x r) rs
  apart [] r h = tt
  apart (x ∷ rs) r h = (λ e. ground arith, apart rs r (ground arith))

  UniqueNames-append :
      (rs : List (Runtime F)) (r : Runtime F)
      → UniqueNames rs
      → All (λ x. NamedApart x r) rs
      → UniqueNames (rs ++ r ∷ [])
  UniqueNames-append [] r u a = (tt, tt)
  UniqueNames-append (x ∷ rs) r u a =
      (All-append (NamedApart x) rs (r ∷ []) u.0 (a.0, tt), UniqueNames-append rs r u.1 a.1)

  -- A registration that is not refused keeps the names unique.
  pub register-UniqueNames :
      (rs rs' : List (Runtime F)) (r : Runtime F)
      → UniqueNames rs
      → register rs r ≡ some rs'
      → UniqueNames rs'
  unfolding register
  register-UniqueNames rs rs' r u h =
      elim (Bool-cases (any (λ existing. existing.name == r.name) rs)) [
        | inl taken ↦ absurd (ground arith)
        | inr free ↦
            let e : rs ++ r ∷ [] ≡ rs' = ground arith in
            rw (← e) (UniqueNames-append rs r u (apart rs r free))
      ]
