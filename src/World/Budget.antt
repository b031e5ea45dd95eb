-- ===== src/World/Budget.antt =====
-- The budget of the local ledger in exact arithmetic: the invariant, and how far a sequence of
-- calls commits above its own reservations.
pub mod Settling
pub mod Admitting
pub mod Limit
use native.Mathlib.Nat.{add-zero}
use cost.Prelude.{
  ℕ, zero, suc, ◌+◌, ◌≤◌, ◌≡◌, refl, ℤ, pos, ◌+ℤ◌, ◌-ℤ◌, ◌≤ℤ◌, pos_part, Bool, true, false,
  if◌then◌else◌, Option, none, some, List, [], ◌∷◌, ◌++◌, get_elem?, set, set_self, Bool-cases,
  if-elim, arith, int_laws, Option-cases, inl, inr, ltb_ℤ, ◌∙◌, ap, sym,
}
use cost.Int64.{IsInt64, max_int64, add64, sub64, add64_exact, sub64_exact, wrap, of_bits, to_bits}
use cost.Errors.{
  Context, nil_context, context, context_error, Result, ok, err, checked, checked-elim, validation,
}
use cost.Currency.{Currency}
use cost.Ledger.{
  Ledger, LocalReservation, fresh, new_ledger, budget_error, invalid_estimate, reserve_loop,
  reserve, record_event,
}
use cost.Ledger.Admission.{budget_error-Fits, IsEstimate, Fits, add64_estimate}
use cost.Ledger.Audit.{record_event_lem}
use cost.Reservation.{clamp, settle, commit, release}
use cost.World.{
  World, new_world, Call, reserve_call, commit_call, release_call, record_call, apply, run,
  open_amount, held, on_handle, handed_out,
}
use cost.World.Conservation.{held-append, held-set}

abbrev pub AllNonneg : List LocalReservation → Type 0
AllNonneg [] = Unit
AllNonneg (r ∷ rs) = (pos 0 ≤ℤ r.reserved) × AllNonneg rs

-- A limited ledger whose counter is exactly what is spent and held, at most `over` above the limit.
pub record IsBalanced (over : ℕ) (w : World) : Type 0 where
  pub limited : pos 0 ≤ℤ w.ledger.limit_micros
  pub exact : w.ledger.used_micros ≡ w.ledger.spent_micros +ℤ held w.reservations
  pub spent : pos 0 ≤ℤ w.ledger.spent_micros
  pub amounts : AllNonneg w.reservations
  pub within : w.ledger.used_micros ≤ℤ w.ledger.limit_micros +ℤ pos over

-- By how much a call commits more than the open reservation it settles.
abbrev pub excess_of : Context → ℤ → Option LocalReservation → ℕ
excess_of ctx actual none = 0
excess_of ctx actual (some r) = elim (context_error ctx) [
  | some _ ↦ 0
  | none ↦ if r.done then 0 else pos_part (clamp actual -ℤ r.reserved)
]

unfoldable pub excess : Call → World → ℕ
excess (commit_call ctx i actual) w = excess_of ctx actual (get_elem? w.reservations i)
excess (reserve_call ctx estimate) w = 0
excess (release_call ctx i) w = 0
excess (record_call ctx now event) w = 0

unfoldable pub overrun : List Call → World → ℕ
overrun [] w = 0
overrun (c ∷ calls) w = excess c w + overrun calls (apply c w).1
