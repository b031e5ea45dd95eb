-- ===== src/Flow/Dynamic.antt =====
-- nexssflow/dynamic_guard.go: the hooks of an action whose estimate is a field of its input.
pub mod Static
use cost.Prelude.{ℕ, ℤ, pos, leb_ℤ, Bool, true, false, if◌then◌else◌, Option, none, some, []}
use cost.Text.{Text}
use cost.Errors.{
  Context, nil_context, context, background, Error, sentinel, err_nil_context, Result, ok, err,
}
use cost.Guard.{Outcome, failed, returned, Ending, finished, panicked, canceled}
use cost.Flow.Value.{Value}
use cost.Flow.Estimate.{EstimateSpec, resolve}
use cost.Flow.Reserver.{Reserver, finish_reservation, actual_cost, action_event}

-- The context of a request: what its Err() returns, and the dynamicReservation under
-- dynamicReservationKey.
pub record DynamicContext (H : Type 0) : Type 0 where
  pub state : Context
  pub reservation : Option (H × ℤ)

module _ {S H : Type 0} (ledger : Reserver S H) where
  abbrev pub remembered :
      DynamicContext H → (estimate : ℤ) → Result H × S → Option Error × (DynamicContext H × S)
  remembered ctx estimate (ok h, s) = (none, (record ctx { reservation = some (h, estimate) }, s))
  remembered ctx estimate (err e, s) = (some e, (ctx, s))

  abbrev pub reserve_resolved :
      DynamicContext H → Result ℤ → S → Option Error × (DynamicContext H × S)
  reserve_resolved ctx (ok estimate) s =
      remembered ctx estimate (ledger.reserve ctx.state estimate s)
  reserve_resolved ctx (err e) s = (some e, (ctx, s))

  abbrev pub is_nil : Context → Bool
  is_nil nil_context = true
  is_nil (context _) = false

  -- Before; `present` is ledger != nil.
  unfoldable pub before :
      (present : Bool)
      → EstimateSpec
      → Value
      → DynamicContext H
      → S
      → Option Error × (DynamicContext H × S)
  before present spec input ctx s =
      if is_nil ctx.state
      then (some (sentinel err_nil_context), (ctx, s))
      else if present
      then reserve_resolved ctx (resolve spec input) s
      else (some (sentinel err_nil_context), (ctx, s))

  -- After a commit: the event of a cost that is more than 0.
  abbrev pub report : (now : ℕ) → Option Text → (actual : ℤ) → Result (Unit {0}) × (H × S) → S
  report now meta actual (err e, (h, s)) = s
  report now meta actual (ok _, (h, s)) =
      if leb_ℤ actual (pos 0)
      then s
      else (ledger.record_event background now
          (action_event (elim meta [ none ↦ [] | some name ↦ name ]) actual) s).1

  abbrev pub settle : (now : ℕ) → Outcome → Option Text → H → (estimate : ℤ) → S → S
  settle now failed meta h estimate s = (finish_reservation ledger false (pos 0) h s).1.1
  settle now (returned reported) meta h estimate s =
      let actual = actual_cost estimate reported in
      report now meta actual (finish_reservation ledger true actual h s)

  -- After; errors are only logged.
  unfoldable pub after : (now : ℕ) → DynamicContext H → Outcome → Option Text → S → S
  after now ctx outcome meta s = elim ctx.reservation [
    | none ↦ s
    | some (h, estimate) ↦ settle now outcome meta h estimate s
  ]

  -- releaseDynamicReservation
  unfoldable pub release_dynamic_reservation : DynamicContext H → S → S
  release_dynamic_reservation ctx s = if is_nil ctx.state then s else elim ctx.reservation [
    | none ↦ s
    | some (h, _) ↦ (finish_reservation ledger false (pos 0) h s).1.1
  ]

  -- After, OnPanic or OnCancel
  unfoldable pub end_action : DynamicContext H → Ending → S → S
  unfolding after release_dynamic_reservation
  end_action ctx (finished outcome meta now) s = after now ctx outcome meta s
  end_action ctx panicked s = release_dynamic_reservation ctx s
  end_action ctx canceled s = release_dynamic_reservation ctx s
