-- ===== src/Reservation.antt =====
-- reservation.go: Commit and Release of a local reservation.
use cost.Prelude.{ℤ, pos, ◌≤ℤ◌, arith, true, ltb_ℤ, if◌then◌else◌}
use cost.Int64.{add64, sub64}
use cost.Errors.{Context, context_error, Result, ok, checked}
use cost.Ledger.{Ledger, LocalReservation}

-- `if actual < 0 { actual = 0 }`
abbrev pub clamp : ℤ → ℤ
clamp actual = if ltb_ℤ actual (pos 0) then pos 0 else actual

pub clamp_nonneg : (actual : ℤ) → pos 0 ≤ℤ clamp actual
clamp_nonneg actual = ground arith

-- The additions of Commit after it has won `done`.
unfoldable pub settle : (reserved actual : ℤ) → Ledger → Ledger
settle reserved actual l = record l {
  used_micros = add64 l.used_micros (sub64 actual reserved);
  spent_micros = if ltb_ℤ (pos 0) actual then add64 l.spent_micros actual else l.spent_micros;
}

-- (*localReservation).Commit
unfoldable pub commit :
    Context → ℤ → LocalReservation → Ledger → Result (Unit {0}) × (LocalReservation × Ledger)
unfolding settle
commit ctx actual r l =
    checked (context_error ctx) (r, l)
      (if r.done
        then (ok tt, (r, l))
        else (ok tt, (record r { done = true }, settle r.reserved (clamp actual) l)))

-- (*localReservation).Release
unfoldable pub release :
    Context → LocalReservation → Ledger → Result (Unit {0}) × (LocalReservation × Ledger)
release ctx r l =
    checked (context_error ctx) (r, l)
      (if r.done then (ok tt, (r, l)) else (
        ok tt,
        (
          record r { done = true },
          record l { used_micros = add64 l.used_micros (sub64 (pos 0) r.reserved) },
        ),
      ))
