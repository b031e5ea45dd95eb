-- ===== src/Guard/Charge.antt =====
-- The net effect of a guarded action on a local ledger.
use cost.Prelude.{
  ℕ, ◌≡◌, refl, ◌∙◌, ℤ, pos, ltb_ℤ, ◌+ℤ◌, Bool, true, false, if◌then◌else◌, Option, none, some,
  List, [], ◌∷◌, ◌++◌, length, get_elem?, set, subst, arith, int_laws, if-elim, leb_ℤ,
}
use cost.Int64.{
  add64, sub64, to_bits, wrap_of_bits, add64-IsInt64, to_bits-add64, to_bits-sub64, to_bits-+ℤ,
  to_bits-lt,
}
use cost.Errors.{Context, context_error, background, Error, Result, ok, err, checked-elim}
use cost.Ledger.{
  Ledger, LocalReservation, fresh, reserve, reserve_loop, budget_error, invalid_estimate,
}
use cost.Ledger.Audit.{record_event_lem}
use cost.Text.{Text}
use cost.Reservation.{clamp, settle, commit as commit_local, release as release_local}
use cost.World.{World, apply, commit_call, release_call, handed_out, held}
use cost.World.Conservation.{held-append, held-set}
use cost.Guard.{
  RequestContext, remembered, before, finish_context, release, failed, returned, actual_cost,
  reported_event, report, after, Ending, finished, panicked, canceled, end_action,
}

-- What an action costs by the way it ends: nothing if it fails, panics or is canceled.
abbrev pub charge : ℤ → Ending → ℤ
charge estimate (finished failed meta now) = pos 0
charge estimate (finished (returned reported) meta now) = clamp (actual_cost estimate reported)
charge estimate panicked = pos 0
charge estimate canceled = pos 0

-- From `w` to `w'`, a cost has been charged, and the reservations hold what they held.
pub record Charged (cost : ℤ) (w w' : World) : Type 0 where
  pub used : w'.ledger.used_micros ≡ add64 w.ledger.used_micros cost
  pub spent :
      w'.ledger.spent_micros
      ≡ (if ltb_ℤ (pos 0) cost then add64 w.ledger.spent_micros cost else w.ledger.spent_micros)
  pub still_held : held w'.reservations ≡ held w.reservations

-- The world after a reservation has been handed out.
abbrev admitted : ℤ → World → World
admitted estimate w = record {
  ledger = record (w.ledger) { used_micros = add64 w.ledger.used_micros estimate };
  reservations = w.reservations ++ fresh estimate ∷ [];
}

abbrev Admits : World → ℤ → Option Error × (RequestContext × World) → Type 0
Admits w estimate (some e, _) = Unit
Admits w estimate (none, (ctx', w')) =
    (ctx'.reservation ≡ some (length w.reservations)) × (w' ≡ admitted estimate w)

before-Admits :
    (present : Bool) (estimate : ℤ) (ctx : RequestContext) (w : World)
    → Admits w estimate (before present estimate ctx w)
unfolding before apply reserve reserve_loop
before-Admits false estimate ctx w = tt
before-Admits true estimate ctx w =
    let P : Result LocalReservation × Ledger → Type 0 =
      λ res. Admits w estimate (remembered ctx w (handed_out w res)) in
    checked-elim P (context_error ctx.state) w.ledger (λ _ _. tt)
      (λ _.
        if-elim P (invalid_estimate estimate) (λ _. tt)
          (λ _.
            checked-elim P (budget_error w.ledger.limit_micros w.ledger.used_micros estimate)
              w.ledger (λ _ _. tt) (λ _. (refl, refl))))

get_elem?-last :
    (rs : List LocalReservation) (r : LocalReservation)
    → get_elem? (rs ++ r ∷ []) (length rs) ≡ some r
get_elem?-last [] r = refl
get_elem?-last (x ∷ rs) r = get_elem?-last rs r

net_bits :
    (used estimate actual : ℤ)
    → to_bits (add64 (add64 used estimate) (sub64 actual estimate)) ≡ to_bits (used +ℤ actual)
net_bits used estimate actual = omega (
  arith,
  to_bits-add64 (add64 used estimate) (sub64 actual estimate),
  to_bits-add64 used estimate,
  to_bits-sub64 actual estimate,
  to_bits-+ℤ used actual,
  to_bits-lt used,
  to_bits-lt estimate,
  to_bits-lt actual,
)

-- Reserving and then settling comes to the actual amount.
net_exact :
    (used estimate actual : ℤ)
    → add64 (add64 used estimate) (sub64 actual estimate) ≡ add64 used actual
unfolding add64
net_exact used estimate actual =
    wrap_of_bits (add64 (add64 used estimate) (sub64 actual estimate)) (used +ℤ actual)
      (add64-IsInt64 (add64 used estimate) (sub64 actual estimate)) (net_bits used estimate actual)

held-settled :
    (estimate : ℤ) (rs : List LocalReservation)
    → held (set (rs ++ fresh estimate ∷ []) (length rs) (record (fresh estimate) { done = true }))
      ≡ held rs
held-settled estimate rs = grind (
  int_laws,
  held-set (rs ++ fresh estimate ∷ []) (length rs) (fresh estimate)
      (record (fresh estimate) { done = true }) (get_elem?-last rs (fresh estimate)),
  held-append rs (fresh estimate),
)

module _ (estimate : ℤ) (w : World) where
  commit-Charged :
      (actual : ℤ)
      → Charged
          (clamp actual)
          w
          (apply (commit_call background (length w.reservations) actual) (admitted estimate w)).1
  unfolding apply commit_local settle
  commit-Charged actual =
      rw (apply, get_elem?-last w.reservations (fresh estimate))
        (record {
          used = net_exact w.ledger.used_micros estimate (clamp actual);
          spent = refl;
          still_held = held-settled estimate w.reservations;
        })

  release-Charged :
      Charged
        (pos 0)
        w
        (apply (release_call background (length w.reservations)) (admitted estimate w)).1
  unfolding apply release_local
  release-Charged =
      rw (apply, get_elem?-last w.reservations (fresh estimate))
        (record {
          used = net_exact w.ledger.used_micros estimate (pos 0);
          spent = refl;
          still_held = held-settled estimate w.reservations;
        })

  -- A record call charges nothing.
  report-Charged :
      (cost : ℤ) (now : ℕ) (meta : Option Text) (actual : ℤ) (result : Result (Unit {0}))
      (w' : World)
      → Charged cost w w'
      → Charged cost w (report now meta actual (result, w'))
  report-Charged cost now meta actual (err e) w' c = c
  report-Charged cost now meta actual (ok _) w' c =
      if-elim (Charged cost w) (leb_ℤ actual (pos 0)) (λ _. c)
        (λ _.
          unfold apply in
          let (_, _, used, spent, _) =
            record_event_lem background now (reported_event meta actual) w'.ledger in
          record { used = used ∙ c.used; spent = spent ∙ c.spent; still_held = c.still_held })

  end_action-Charged :
      (state : Context) (ending : Ending)
      → Charged (charge estimate ending) w (
          end_action estimate
            (record { state = state; reservation = some (length w.reservations) })
            ending
            (admitted estimate w))
  unfolding end_action after release finish_context
  end_action-Charged state (finished failed meta now) = release-Charged
  end_action-Charged state (finished (returned reported) meta now) =
      let actual = actual_cost estimate reported in
      let committed = finish_context (length w.reservations) true actual (admitted estimate w) in
      report-Charged (clamp actual) now meta actual committed.0 committed.1 (commit-Charged actual)
  end_action-Charged state panicked = release-Charged
  end_action-Charged state canceled = release-Charged

-- If Before admits an action on a local ledger, then, however the action ends, and whatever has
-- become of the context of the request by then, the used counter has moved by what is charged,
-- modulo 2^64, and the spent counter has as well if that is more than 0, and the reservations hold
-- in all what they held before; the charge is 0 for a failure, a panic or a cancellation, and else
-- the reported cost, or the estimate if none is reported, a negative one as 0.
pub end_action-before :
    (present : Bool) (estimate : ℤ) (ctx ctx' : RequestContext) (w w' : World) (ending : Ending)
    (later : Context)
    → before present estimate ctx w ≡ (none, (ctx', w'))
    → Charged
        (charge estimate ending)
        w
        (end_action estimate (record ctx' { state = later }) ending w')
end_action-before present estimate ctx ctx' w w' ending later admits =
    let (handle, world) : Admits w estimate (none, (ctx', w')) =
      subst (Admits w estimate) admits (before-Admits present estimate ctx w) in
    rw (handle, world) (end_action-Charged estimate w later ending)
