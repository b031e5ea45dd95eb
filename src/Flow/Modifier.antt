-- ===== src/Flow/Modifier.antt =====
-- nexssflow/library.go: the cost_estimate modifier of a local ledger, which puts hooks round an action.
use cost.Prelude.{◌≡◌, ap, sym, ◌∙◌, ℤ, Bool, Option, if◌then◌else◌, Bool-cases, inl, inr}
use cost.Text.{Text}
use cost.Errors.{Context, Error, Result, ok}
use cost.Errors.Checks.{ok_inj, ◌>>=◌}
use cost.World.{World}
use cost.Guard.{Ending}
use cost.Flow.Value.{Value}
use cost.Flow.Estimate.{EstimateSpec, dynamic, parse_estimate_spec, resolve}
use cost.Flow.Dynamic.Static.{under_dynamic_guard, under_guard, dynamic_guard_lem}

-- b.AnyHook(dynamicEstimateGuard(ledger, estimate)) and b.AnyHook(kernelcost.GuardAction(ledger, estimate))
pub data Hooks : Type 0 where
  dynamic_hooks : EstimateSpec → Hooks
  guard_hooks : (estimate : ℤ) → Hooks

-- The function that costEstimateModifier applies
abbrev pub hooks_of : EstimateSpec → Hooks
hooks_of spec = if dynamic spec then dynamic_hooks spec else guard_hooks spec.literal

-- The Apply of costEstimateModifierWithApply
unfoldable pub cost_estimate : (raw : Text) → Result Hooks
cost_estimate raw = do spec ← parse_estimate_spec raw; ok (hooks_of spec)

-- An action under these hooks on a local ledger
abbrev pub under_hooks :
    Hooks → (present : Bool) → Value → Context → Ending → World → Option Error × World
under_hooks (dynamic_hooks spec) present input ctx ending w =
    under_dynamic_guard present spec input ctx ending w
under_hooks (guard_hooks estimate) present input ctx ending w =
    under_guard present estimate ctx ending w

hooks_of_lem :
    (present : Bool) (spec : EstimateSpec) (input : Value) (estimate : ℤ) (ctx : Context)
    (ending : Ending) (w : World)
    → resolve spec input ≡ ok estimate
    → under_hooks (hooks_of spec) present input ctx ending w
      ≡ under_guard present estimate ctx ending w
unfolding resolve
hooks_of_lem present spec input estimate ctx ending w resolved = elim (Bool-cases (dynamic spec)) [
  | inl moving ↦ rw moving (dynamic_guard_lem present spec input estimate ctx ending w resolved)
  | inr fixed ↦ rw fixed (
      ap (λ n. under_guard present n ctx ending w)
        (ok_inj spec.literal estimate (rw fixed at resolved)))
]

-- An action with a cost_estimate modifier on a local ledger, whose text is an estimate or names a
-- field of the input that holds one, runs as with the hooks of the kernel adapter for that
-- estimate: the same error before the action and the same ledger after it, however the action
-- ends.
pub cost_estimate_lem :
    (present : Bool) (raw : Text) (spec : EstimateSpec) (hooks : Hooks) (input : Value)
    (estimate : ℤ) (ctx : Context) (ending : Ending) (w : World)
    → parse_estimate_spec raw ≡ ok spec
    → cost_estimate raw ≡ ok hooks
    → resolve spec input ≡ ok estimate
    → under_hooks hooks present input ctx ending w ≡ under_guard present estimate ctx ending w
unfolding cost_estimate
cost_estimate_lem present raw spec hooks input estimate ctx ending w parsed applied resolved =
    ap (λ h. under_hooks h present input ctx ending w)
      (sym (ok_inj (hooks_of spec) hooks (rw parsed at applied)))
    ∙ hooks_of_lem present spec input estimate ctx ending w resolved
