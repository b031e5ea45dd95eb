-- ===== src/World/Budget/Limit.antt =====
-- The budget of the local ledger over every sequence of calls.
use native.Mathlib.Nat.{add-zero}
use cost.Prelude.{ℕ, ◌+◌, ◌≡◌, refl, ℤ, pos, ◌+ℤ◌, ◌≤ℤ◌, List, [], ◌∷◌, arith, ◌∙◌}
use cost.Int64.{IsInt64, max_int64}
use cost.Currency.{Currency}
use cost.Ledger.{new_ledger, reserve}
use cost.Ledger.Audit.{record_event_lem}
use cost.Reservation.{settle, commit, release}
use cost.World.{
  World, new_world, Call, reserve_call, commit_call, release_call, record_call, apply, run, held,
}
use cost.World.Budget.{IsBalanced, excess, overrun}
use cost.World.Budget.Settling.{held_nonneg, commit-IsBalanced, release-IsBalanced}
use cost.World.Budget.Admitting.{reserve-IsBalanced}

apply-limit : (c : Call) (w : World) → (apply c w).1.ledger.limit_micros ≡ w.ledger.limit_micros
unfolding apply reserve commit release settle
apply-limit (reserve_call ctx estimate) w = ground arith
apply-limit (commit_call ctx i actual) w = ground arith
apply-limit (release_call ctx i) w = ground arith
apply-limit (record_call ctx now event) w = (record_event_lem ctx now event w.ledger).4

-- Room for the bound `over`, and for any smaller one.
abbrev Room : ℤ → ℕ → Type 0
Room limit over = limit +ℤ pos over ≤ℤ max_int64

Room-le : (limit : ℤ) (over more : ℕ) → Room limit (over + more) → Room limit over
unfolding ◌+ℤ◌
Room-le limit over more h = ground arith

apply-IsBalanced :
    (c : Call) (over : ℕ) (w : World)
    → IsInt64 w.ledger.limit_micros
    → w.ledger.limit_micros +ℤ pos (over + excess c w) ≤ℤ max_int64
    → IsBalanced over w
    → IsBalanced (over + excess c w) (apply c w).1
unfolding excess
apply-IsBalanced (reserve_call ctx estimate) over w hl room h =
    rw add-zero
      (reserve-IsBalanced ctx estimate over w hl (Room-le w.ledger.limit_micros over 0 room) h)
apply-IsBalanced (commit_call ctx i actual) over w hl room h =
    commit-IsBalanced ctx i actual over w room h
apply-IsBalanced (release_call ctx i) over w hl room h =
    rw add-zero (release-IsBalanced ctx i over w (Room-le w.ledger.limit_micros over 0 room) h)
apply-IsBalanced (record_call ctx now event) over w hl room h =
    unfold apply in
    let (_, _, used, spent, limit) = record_event_lem ctx now event w.ledger in
    rw add-zero (record {
      limited = rw limit h.limited;
      exact = rw (used, spent) h.exact;
      spent = rw spent h.spent;
      amounts = h.amounts;
      within = rw (used, limit) h.within;
    })

run-IsBalanced :
    (calls : List Call) (over : ℕ) (w : World)
    → IsInt64 w.ledger.limit_micros
    → w.ledger.limit_micros +ℤ pos (over + overrun calls w) ≤ℤ max_int64
    → IsBalanced over w
    → IsBalanced (over + overrun calls w) (run calls w)
unfolding run overrun
run-IsBalanced [] over w hl room h = rw add-zero h
run-IsBalanced (c ∷ calls) over w hl room h =
    let l = w.ledger.limit_micros in
    let same : (apply c w).1.ledger.limit_micros ≡ l = apply-limit c w in
    let both : over + (excess c w + overrun calls (apply c w).1)
        ≡ over + excess c w + overrun calls (apply c w).1 =
      omega arith in
    let room' : Room l (over + excess c w + overrun calls (apply c w).1) = rw both at room in
    rw both (
      run-IsBalanced calls (over + excess c w) (apply c w).1 (rw same hl) (rw same room')
        (apply-IsBalanced c over w hl (Room-le l (over + excess c w) _ room') h))

run-limit :
    (calls : List Call) (w : World) → (run calls w).ledger.limit_micros ≡ w.ledger.limit_micros
unfolding run
run-limit [] w = refl
run-limit (c ∷ calls) w = run-limit calls (apply c w).1 ∙ apply-limit c w

new_world-IsBalanced :
    (limit : ℕ) (currency : Currency) → IsBalanced 0 (new_world (pos limit) currency)
unfolding new_ledger held ◌+ℤ◌
new_world-IsBalanced limit currency = ground arith

-- From a new ledger with a limit that is not negative, after any calls, in any order and with any
-- errors, the used counter is exactly what is spent plus what open reservations hold, both at
-- least 0, and at most the limit plus the amounts by which commits exceeded the reservations they
-- settled, if that bound is an int64.
pub run_within_limit :
    (limit : ℕ) (currency : Currency) (calls : List Call)
    → pos (limit + overrun calls (new_world (pos limit) currency)) ≤ℤ max_int64
    → let over = overrun calls (new_world (pos limit) currency) in
      let w = run calls (new_world (pos limit) currency) in
      (w.ledger.used_micros ≡ w.ledger.spent_micros +ℤ held w.reservations)
      × (pos 0 ≤ℤ w.ledger.spent_micros)
      × (pos 0 ≤ℤ held w.reservations)
      × (w.ledger.used_micros ≤ℤ pos (limit + over))
unfolding ◌+ℤ◌ new_ledger
run_within_limit limit currency calls room =
    let w = run calls (new_world (pos limit) currency) in
    let over = overrun calls (new_world (pos limit) currency) in
    let exact : pos limit +ℤ pos (0 + over) ≡ pos (limit + over) = ground arith in
    let same : w.ledger.limit_micros ≡ pos limit =
      run-limit calls (new_world (pos limit) currency) in
    let b : IsBalanced (0 + overrun calls (new_world (pos limit) currency)) w =
      run-IsBalanced calls 0 (new_world (pos limit) currency) (omega arith) (rw exact room)
        (new_world-IsBalanced limit currency) in
    (b.exact, b.spent, held_nonneg w.reservations b.amounts, rw exact at (rw same at b.within))
