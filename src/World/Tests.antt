-- ===== src/World/Tests.antt =====
-- Runs of the local ledger, and the theorems about calls at them.
use cost.Prelude.{◌≡◌, refl, pos, ◌+ℤ◌, ◌-ℤ◌, ◌≤ℤ◌, true, List, [], ◌∷◌, arith, some}
use cost.Int64.{wrap, add64, sub64, to_bits, of_bits}
use cost.Errors.{context, canceled, background, ok}
use cost.Currency.{usd}
use cost.Ledger.{new_ledger, reserve, fresh}
use cost.Reservation.{commit, release}
use cost.World.{World, new_world, Call, reserve_call, commit_call, release_call, apply, run, held}
use cost.World.Conservation.{run_conserves}
use cost.World.Budget.{excess, overrun}
use cost.World.Budget.Limit.{run_within_limit}
use cost.World.Settled.{commits, releases, settles_once}

-- Two reservations; the first is committed 10 above its amount, and a third does not fit.
abbrev calls : List Call
calls =
    reserve_call background (pos 60)
    ∷ reserve_call background (pos 30)
    ∷ commit_call background 0 (pos 70)
    ∷ reserve_call background (pos 1)
    ∷ commit_call (context (some canceled)) 1 (pos 5)
    ∷ []

abbrev after : World
after = run calls (new_world (pos 100) usd)

after_counters : (after.ledger.used_micros ≡ pos 100) × (after.ledger.spent_micros ≡ pos 70)
unfolding run apply reserve commit new_ledger add64 sub64 wrap to_bits of_bits ◌+ℤ◌ ◌-ℤ◌
after_counters = (refl, refl)

-- The testkit's contract run: 100 reserved and 40 committed, twice; 61 refused; 20 released, twice.
contract_run :
    let w =
      run
        (reserve_call background (pos 100)
          ∷ commit_call background 0 (pos 40)
          ∷ commit_call background 0 (pos 90)
          ∷ reserve_call background (pos 61)
          ∷ reserve_call background (pos 20)
          ∷ release_call background 1
          ∷ release_call background 1
          ∷ [])
        (new_world (pos 100) usd) in
    (w.ledger.used_micros ≡ pos 40)
    × (w.ledger.spent_micros ≡ pos 40)
    × (w.reservations
        ≡ record { reserved = pos 100; done = true }
          ∷ record { reserved = pos 20; done = true }
          ∷ [])
unfolding run apply reserve commit release new_ledger add64 sub64 wrap to_bits of_bits ◌+ℤ◌ ◌-ℤ◌
contract_run = (refl, refl, refl)

run_conserves_example :
    after.ledger.used_micros ≡ wrap (after.ledger.spent_micros +ℤ held after.reservations)
run_conserves_example = run_conserves (pos 100) usd calls

run_within_limit_example :
    (after.ledger.used_micros ≡ after.ledger.spent_micros +ℤ held after.reservations)
    × (pos 0 ≤ℤ after.ledger.spent_micros)
    × (pos 0 ≤ℤ held after.reservations)
    × (after.ledger.used_micros ≤ℤ pos 110)
unfolding run apply overrun excess reserve commit new_ledger add64 sub64 wrap to_bits of_bits ◌+ℤ◌
    ◌-ℤ◌
run_within_limit_example = run_within_limit 100 usd calls (omega arith)

abbrev reserved_once : World
reserved_once = run (reserve_call background (pos 60) ∷ []) (new_world (pos 100) usd)

settles_once_example :
    let later = run calls (apply (commit_call background 0 (pos 50)) reserved_once).1 in
    apply (release_call background 0) later ≡ (ok tt, later)
unfolding run apply reserve new_ledger sub64 wrap of_bits to_bits ◌-ℤ◌
settles_once_example =
    settles_once (commits (pos 50)) releases 0 (fresh (pos 60)) calls reserved_once refl
