-- ===== src/Database/LifeCycle/Hooks.antt =====
-- pkg/database/tx.go: what registering a hook does to the hooks of each API.
use cs.Prelude.{ap, ◌≡◌, refl, ite, List, [], ◌∷◌, ◌++◌, arith}
use cs.Prelude.Tests.{Key}
use cs.Prelude.Map.{Map, lookup, lookup-insert}
use cs.Format.{Context}
use cs.Database.LifeCycle.{
  HookFunc, TxHookMap, hooks_of, append_hook, start_hook, end_hook, before_hook, after_hook,
}

pub hooks_of-append_hook :
    {A H : Type 0} ⦃k : Key A⦄ (api other : A) (hook : H) (m : Map A (List H))
    → hooks_of other (append_hook api hook m)
      ≡ ite (k.dec other api) (hooks_of other m ++ hook ∷ []) (hooks_of other m)
unfolding hooks_of append_hook
hooks_of-append_hook ⦃k⦄ api other hook m = elim (k.dec other api) [
  | yes same ↦
      ground
        (arith, lookup-insert api other (hooks_of api m ++ hook ∷ []) m, ap (λ x. lookup x m) same)
  | no differ ↦ ground (arith, lookup-insert api other (hooks_of api m ++ hook ∷ []) m)
]

-- The hooks of an API, here `other`, after a hook has been registered for `api`.
abbrev pub Registered :
    {A H : Type 0} ⦃k : Key A⦄ → A → A → H → Map A (List H) → Map A (List H) → Type 0
Registered ⦃k⦄ api other hook m m' =
    hooks_of other m' ≡ ite (k.dec other api) (hooks_of other m ++ hook ∷ []) (hooks_of other m)

module _ {A V D E : Type 0} ⦃k : Key A⦄ where
  -- Registering a start, end, before or after hook for an API adds it after those that the API has
  -- of that kind, and changes those of no other API. A start hook leaves the end hooks alone and the
  -- reverse, and a before hook leaves the after hooks alone and the reverse.
  pub register_lem :
      (thm : TxHookMap A V D E) (api other : A) (hook : HookFunc (Context V) E)
      (tx_hook : HookFunc (Context V × D) E)
      → Registered api other hook thm.start_hooks (start_hook thm api hook).start_hooks
        × Registered api other hook thm.end_hooks (end_hook thm api hook).end_hooks
        × Registered api other tx_hook thm.before_hooks (before_hook thm api tx_hook).before_hooks
        × Registered api other tx_hook thm.after_hooks (after_hook thm api tx_hook).after_hooks
        × ((start_hook thm api hook).end_hooks ≡ thm.end_hooks)
        × ((end_hook thm api hook).start_hooks ≡ thm.start_hooks)
        × ((before_hook thm api tx_hook).after_hooks ≡ thm.after_hooks)
        × ((after_hook thm api tx_hook).before_hooks ≡ thm.before_hooks)
  unfolding start_hook end_hook before_hook after_hook
  register_lem thm api other hook tx_hook = (
    hooks_of-append_hook api other hook thm.start_hooks,
    hooks_of-append_hook api other hook thm.end_hooks,
    hooks_of-append_hook api other tx_hook thm.before_hooks,
    hooks_of-append_hook api other tx_hook thm.after_hooks,
    refl,
    refl,
    refl,
    refl,
  )
