-- ===== src/Flow/Dynamic/Static.antt =====
-- The dynamic hooks against those of adapters/kernel/guard.go.
use cost.Prelude.{
  ℕ, ◌≡◌, refl, ap, ℤ, pos, max_ℤ, leb_ℤ, Bool, true, false, if◌then◌else◌, Option, none, some, [],
  length,
}
use cost.Text.{Text}
use cost.Ledger.{empty_event, reserve}
use cost.Errors.{CtxError, Context, nil_context, context, background, Error, Result, ok, err}
use cost.World.{World, apply, reserve_call, commit_call, record_call}
use cost.Guard.{
  Outcome, failed, returned, Ending, finished, panicked, canceled, RequestContext, domain,
  operation,
}
use cost.Guard
use cost.Flow.Value.{Value}
use cost.Flow.Estimate.{EstimateSpec, resolve}
use cost.Flow.Reserver.{
  local, numbered, with_handle, finish_reservation, action_event, action_domain_operation_lem,
}
use cost.Flow.Dynamic.{remembered, report, before, after, end_action, release_dynamic_reservation}

-- An action under hooks: its ending, if Before lets it in.
abbrev ended {ℓ} :
    {C : Type ℓ} → (C → World → World) → Option Error × (C × World) → Option Error × World
ended finish (none, (ctx, w)) = (none, finish ctx w)
ended finish (some e, (ctx, w)) = (some e, w)

abbrev pub under_dynamic_guard :
    (present : Bool) → EstimateSpec → Value → Context → Ending → World → Option Error × World
under_dynamic_guard present spec input ctx ending w =
    ended (λ c. end_action local c ending)
      (before local present spec input (record { state = ctx; reservation = none }) w)

abbrev pub under_guard :
    (present : Bool) → (estimate : ℤ) → Context → Ending → World → Option Error × World
under_guard present estimate ctx ending w =
    ended (λ c. Guard.end_action estimate c ending)
      (Guard.before present estimate (record { state = ctx; reservation = none }) w)

event_alike :
    (meta : Option Text) (actual : ℤ)
    → action_event (elim meta [ none ↦ [] | some name ↦ name ]) actual
      ≡ Guard.reported_event meta actual
event_alike meta actual =
    let name : Text = elim meta [ none ↦ [] | some name ↦ name ] in
    ap
      (λ (parts : Text × Text). record empty_event {
        domain = parts.0;
        operation = parts.1;
        cost_micros = actual;
      })
      (action_domain_operation_lem name)

report_alike :
    (now : ℕ) (meta : Option Text) (actual : ℤ) (i : ℕ) (c : Result (Unit {0}) × World)
    → report local now meta actual (with_handle i c) ≡ Guard.report now meta actual c
report_alike now meta actual i (err e, w) = refl
report_alike now meta actual i (ok _, w) =
    ap (λ event. if leb_ℤ actual (pos 0) then w else (apply (record_call background now event) w).1)
      (event_alike meta actual)

settled_alike :
    (estimate : ℤ) (ctx : Option CtxError) (i : ℕ) (ending : Ending) (w : World)
    → end_action local (record { state = context ctx; reservation = some (i, estimate) }) ending w
      ≡ Guard.end_action estimate (record { state = context ctx; reservation = some i }) ending w
unfolding end_action after release_dynamic_reservation finish_reservation Guard.end_action
    Guard.after Guard.release Guard.finish_context
settled_alike estimate ctx i (finished failed meta now) w = refl
settled_alike estimate ctx i (finished (returned none) meta now) w =
    report_alike now meta estimate i (apply (commit_call background i estimate) w)
settled_alike estimate ctx i (finished (returned (some cost)) meta now) w =
    let actual = max_ℤ cost (pos 0) in
    report_alike now meta actual i (apply (commit_call background i actual) w)
settled_alike estimate ctx i panicked w = refl
settled_alike estimate ctx i canceled w = refl

reserved_alike :
    (estimate : ℤ) (c : Option CtxError) (ending : Ending) (w : World)
    (result : Result (Unit {0}) × World)
    → ended
        (λ ctx. end_action local ctx ending)
        (remembered local
          (record { state = context c; reservation = none })
          estimate
          (numbered (length w.reservations) result))
      ≡ ended
          (λ ctx. Guard.end_action estimate ctx ending)
          (Guard.remembered (record { state = context c; reservation = none }) w result)
reserved_alike estimate c ending w (err e, w') = refl
reserved_alike estimate c ending w (ok _, w') =
    ap (λ v. (none, v)) (settled_alike estimate c (length w.reservations) ending w')

-- Both sets of hooks, where the input resolves to an estimate
pub dynamic_guard_lem :
    (present : Bool) (spec : EstimateSpec) (input : Value) (estimate : ℤ) (ctx : Context)
    (ending : Ending) (w : World)
    → resolve spec input ≡ ok estimate
    → under_dynamic_guard present spec input ctx ending w
      ≡ under_guard present estimate ctx ending w
unfolding before Guard.before apply reserve
dynamic_guard_lem false spec input estimate nil_context ending w e = refl
dynamic_guard_lem false spec input estimate (context c) ending w e = refl
dynamic_guard_lem true spec input estimate nil_context ending w e = refl
dynamic_guard_lem true spec input estimate (context c) ending w e =
    rw e (reserved_alike estimate c ending w (apply (reserve_call (context c) estimate) w))
