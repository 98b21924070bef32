-- ===== src/Core/Router.antt =====
-- edgeproc/core/router.py and registry.py: the first runtime that accepts, in registration order.
pub mod Choice
use edge_proc.Prelude.{
  Bool, true, false, Option, none, some, List, [], ◌∷◌, ◌++◌, any, ◌==◌, text_eq, if◌then◌else◌,
}
use edge_proc.Core.Models.{CapabilityVerdict, accept, Task, Runtime}

-- `verdict == CapabilityVerdict.ACCEPT`
abbrev pub is_accept : CapabilityVerdict → Bool
is_accept accept = true
is_accept _ = false

module _ {F : Type 0} where
  -- `DefaultRouter.pick`
  unfoldable pub pick : Task F → List (Runtime F) → Option (Runtime F)
  pick task [] = none
  pick task (runtime ∷ rest) =
      if is_accept (runtime.can_handle task) then some runtime else pick task rest

  -- `RuntimeRegistry.register` on `_runtimes`; `none` is the `ValueError` of a name that is taken.
  unfoldable pub register : List (Runtime F) → Runtime F → Option (List (Runtime F))
  register runtimes runtime =
      if any (λ existing. existing.name == runtime.name) runtimes
      then none
      else some (runtimes ++ runtime ∷ [])
