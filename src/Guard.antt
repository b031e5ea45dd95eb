-- ===== src/Guard.antt =====
-- adapters/kernel/guard.go: the hooks that put a reservation round an action of the kernel, on a
-- local ledger with the reservations it has handed out.
mod Names
mod Charge
mod Tests
use Prim.Native.String.{String}
use cost.Prelude.{
  ℕ, zero, suc, ℤ, pos, max_ℤ, leb_ℤ, ◌==◌, Bool, false, true, if◌then◌else◌, Option, none, some,
  List, [], ◌∷◌, ◌++◌, length, get_elem?, drop,
}
use cost.Text.{Text, text, text_eqb}
use cost.Errors.{Context, background, Error, sentinel, err_nil_context, Result, ok, err}
use cost.Event.{Event}
use cost.Ledger.{empty_event}
use cost.World.{World, Call, apply, reserve_call, commit_call, release_call, record_call}

-- `name[:i]`
unfoldable pub take : ℕ → Text → Text
take zero name = []
take (suc i) [] = []
take (suc i) (c ∷ name) = c ∷ take i name

abbrev pub is_dot : Option ℕ → Bool
is_dot none = false
is_dot (some c) = c == 46

-- `name[i] == '.'`
abbrev pub dot_at : Text → ℕ → Bool
dot_at name i = is_dot (get_elem? name i)

-- The loop of domain and of operation, below `i`: the place of the last dot.
unfoldable pub last_dot : Text → ℕ → Option ℕ
last_dot name zero = none
last_dot name (suc i) = let rest = last_dot name i in if dot_at name i then some i else rest

unfoldable pub domain : Text → Text
domain name = elim (last_dot name (length name)) [ none ↦ text "action" | some i ↦ take i name ]

unfoldable pub operation : Text → Text
operation name = elim (last_dot name (length name)) [
  | none ↦ if text_eqb name [] then text "action" else name
  | some i ↦ drop (suc i) name
]

-- The context of a request: what its Err() returns, and the value under reservationKey, a
-- reservation of the world by its number.
pub record RequestContext : Type 0 where
  pub state : Context
  pub reservation : Option ℕ

-- What Reserve returns, from what it has done to the world.
abbrev pub remembered :
    RequestContext → World → Result (Unit {0}) × World → Option Error × (RequestContext × World)
remembered ctx w (ok _, w') =
    (none, (record ctx { reservation = some (length w.reservations) }, w'))
remembered ctx w (err e, w') = (some e, (ctx, w'))

-- Before; `present` is ledger != nil. A new reservation is the last of the world's.
unfoldable pub before :
    (present : Bool) (estimate : ℤ)
    → RequestContext
    → World
    → Option Error × (RequestContext × World)
before present estimate ctx w =
    if present
    then remembered ctx w (apply (reserve_call ctx.state estimate) w)
    else (some (sentinel err_nil_context), (ctx, w))

-- finishContext: the context of the accounting is not canceled with that of the request.
unfoldable pub finish_context :
    (handle : ℕ) (commit : Bool) (actual : ℤ) → World → Result (Unit {0}) × World
finish_context r commit actual w =
    if commit
    then apply (commit_call background r actual) w
    else apply (release_call background r) w

-- release
unfoldable pub release : RequestContext → World → World
release ctx w = elim ctx.reservation [ none ↦ w | some r ↦ (finish_context r false (pos 0) w).1 ]

-- What an action returns: an error, or a result, with its CostMicros() if it is a cost.Reporter.
pub data Outcome : Type 0 where
  failed : Outcome
  returned : (reported : Option ℤ) → Outcome

abbrev pub actual_cost : ℤ → Option ℤ → ℤ
actual_cost estimate none = estimate
actual_cost estimate (some cost) = max_ℤ cost (pos 0)

-- The event of After, under the name of the action, if it has metadata.
abbrev pub reported_event : Option Text → ℤ → Event
reported_event meta actual =
    let name : Text = elim meta [ none ↦ [] | some n ↦ n ] in
    record empty_event { domain = domain name; operation = operation name; cost_micros = actual }

-- After a commit: the event of a cost that is more than 0.
abbrev pub report : (now : ℕ) → Option Text → ℤ → Result (Unit {0}) × World → World
report now meta actual (err e, w) = w
report now meta actual (ok _, w) =
    if leb_ℤ actual (pos 0)
    then w
    else (apply (record_call background now (reported_event meta actual)) w).1

-- After; errors are only logged.
unfoldable pub after :
    (estimate : ℤ) (now : ℕ) → RequestContext → Outcome → Option Text → World → World
after estimate now ctx failed meta w = elim ctx.reservation [
  | none ↦ w
  | some r ↦ (finish_context r false (pos 0) w).1
]
after estimate now ctx (returned reported) meta w = elim ctx.reservation [
  | none ↦ w
  | some r ↦
      let actual = actual_cost estimate reported in
      report now meta actual (finish_context r true actual w)
]

-- How the kernel ends an action that Before has let in: After, OnPanic or OnCancel.
pub data Ending : Type 0 where
  finished : Outcome → (meta : Option Text) → (now : ℕ) → Ending
  panicked canceled : Ending

unfoldable pub end_action : (estimate : ℤ) → RequestContext → Ending → World → World
end_action estimate ctx (finished outcome meta now) w = after estimate now ctx outcome meta w
end_action estimate ctx panicked w = release ctx w
end_action estimate ctx canceled w = release ctx w
