-- ===== src/World.antt =====
-- A local ledger (ledger.go) with the reservations that it has handed out (reservation.go), and
-- sequences of calls on them. A reservation is named by the order in which it was handed out.
pub mod Conservation
pub mod Budget
pub mod Settled
mod Tests
use cost.Prelude.{
  ℕ, zero, suc, ℤ, pos, ◌+ℤ◌, Bool, true, false, if◌then◌else◌, Option, none, some, List, [], ◌∷◌,
  ◌++◌, get_elem?, set,
}
use cost.Errors.{Context, Result, ok, err}
use cost.Currency.{Currency}
use cost.Event.{Event}
use cost.Ledger.{Ledger, LocalReservation, new_ledger, reserve, record_event}
use cost.Reservation.{commit, release}

pub record World : Type 0 where
  pub ledger : Ledger
  pub reservations : List LocalReservation

abbrev pub new_world : ℤ → Currency → World
new_world limit currency = record { ledger = new_ledger limit currency; reservations = [] }

-- A method call of the public interface.
pub data Call : Type 0 where
  reserve_call : Context → (estimate : ℤ) → Call
  commit_call : Context → (handle : ℕ) → (actual : ℤ) → Call
  release_call : Context → (handle : ℕ) → Call
  record_call : Context → (now : ℕ) → Event → Call

-- What Reserve leaves: a reservation more, if it succeeded.
abbrev pub handed_out : World → Result LocalReservation × Ledger → Result (Unit {0}) × World
handed_out w (ok r, l) = (ok tt, record { ledger = l; reservations = w.reservations ++ r ∷ [] })
handed_out w (err e, l) = (err e, record w { ledger = l })

-- What a terminal call leaves: the reservation object and the ledger it points to.
abbrev pub stored :
    World → ℕ → Result (Unit {0}) × (LocalReservation × Ledger) → Result (Unit {0}) × World
stored w i (result, (r, l)) = (result, record { ledger = l; reservations = set w.reservations i r })

abbrev pub recorded : World → Result (Unit {0}) × Ledger → Result (Unit {0}) × World
recorded w (result, l) = (result, record w { ledger = l })

-- A terminal method on a reservation; no call names one that was not handed out.
abbrev pub on_handle :
    World
    → ℕ
    → (LocalReservation → Ledger → Result (Unit {0}) × (LocalReservation × Ledger))
    → Option LocalReservation
    → Result (Unit {0}) × World
on_handle w i method none = (ok tt, w)
on_handle w i method (some r) = stored w i (method r w.ledger)

unfoldable pub apply : Call → World → Result (Unit {0}) × World
apply (reserve_call ctx estimate) w = handed_out w (reserve ctx estimate [] w.ledger)
apply (commit_call ctx i actual) w = on_handle w i (commit ctx actual) (get_elem? w.reservations i)
apply (release_call ctx i) w = on_handle w i (release ctx) (get_elem? w.reservations i)
apply (record_call ctx now event) w = recorded w (record_event ctx now event w.ledger)

unfoldable pub run : List Call → World → World
run [] w = w
run (c ∷ calls) w = run calls (apply c w).1

-- The amount of the reservations that are neither committed nor released.
abbrev pub open_amount : LocalReservation → ℤ
open_amount r = if r.done then pos 0 else r.reserved

unfoldable pub held : List LocalReservation → ℤ
held [] = pos 0
held (r ∷ rs) = open_amount r +ℤ held rs
