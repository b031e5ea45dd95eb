-- ===== src/Goroutines.antt =====
-- ledger.go and reservation.go under goroutines: the atomic operations of Reserve, Commit and
-- Release as steps, interleaved in any order. A call that its guards turn away takes no step.
pub mod Conservation
pub mod Linear
pub mod Progress
mod Tests
use cost.Prelude.{
  ℕ, zero, suc, ◌≡◌, ◌≢◌, ℤ, pos, ltb_ℤ, true, false, if◌then◌else◌, none, some, List, [], ◌∷◌,
  ◌++◌, get_elem?, set,
}
use cost.Int64.{add64, sub64}
use cost.Errors.{Error}
use cost.Ledger.{LocalReservation, invalid_estimate, budget_error, fresh}
use cost.Reservation.{clamp}
use cost.World.{World}

-- Where a goroutine stands: outside of any call; in Reserve, before the Load and after the budget
-- tests on what it has loaded; in Commit and Release, before the swap of `done`, before the
-- addition to usedMicros and before the addition to spentMicros.
pub data Goroutine : Type 0 where
  idle : Goroutine
  reserving : (estimate : ℤ) → Goroutine
  loaded : (estimate used : ℤ) → Goroutine
  committing : (handle : ℕ) → (actual : ℤ) → Goroutine
  releasing : (handle : ℕ) → Goroutine
  settling : (delta actual : ℤ) → Goroutine
  spending : (actual : ℤ) → Goroutine

-- A CompareAndSwap of Reserve that has found its value.
abbrev pub swapped : (estimate used : ℤ) → World → World
swapped estimate used w = record {
  ledger = record w.ledger { used_micros = add64 used estimate };
  reservations = w.reservations ++ fresh estimate ∷ [];
}

-- A CompareAndSwap(false, true) of `done`.
abbrev pub taken : ℕ → LocalReservation → World → World
taken i r w = record w { reservations = set w.reservations i (record r { done = true }) }

abbrev pub used_added : ℤ → World → World
used_added delta w = record w {
  ledger = record w.ledger { used_micros = add64 w.ledger.used_micros delta };
}

abbrev pub spent_added : ℤ → World → World
spent_added actual w = record w {
  ledger = record w.ledger { spent_micros = add64 w.ledger.spent_micros actual };
}

-- `if actualMicros > 0` of Commit, after its first addition.
abbrev pub after_used : ℤ → Goroutine
after_used actual = if ltb_ℤ (pos 0) actual then spending actual else idle

-- One atomic operation of a goroutine, with the tests up to the next one.
pub data Move (w : World) : Goroutine → World → Goroutine → Type 0 where
  call_reserve :
      {estimate : ℤ} → invalid_estimate estimate ≡ false → Move w idle w (reserving estimate)
  load :
      {estimate : ℤ}
      → budget_error w.ledger.limit_micros w.ledger.used_micros estimate ≡ none
      → Move w (reserving estimate) w (loaded estimate w.ledger.used_micros)
  refuse :
      {estimate : ℤ} {e : Error}
      → budget_error w.ledger.limit_micros w.ledger.used_micros estimate ≡ some e
      → Move w (reserving estimate) w idle
  swap :
      {estimate used : ℤ}
      → w.ledger.used_micros ≡ used
      → Move w (loaded estimate used) (swapped estimate used w) idle
  retry :
      {estimate used : ℤ}
      → w.ledger.used_micros ≢ used
      → Move w (loaded estimate used) w (reserving estimate)
  cancel : {estimate used : ℤ} → w.ledger.used_micros ≢ used → Move w (loaded estimate used) w idle
  call_commit : {i : ℕ} {actual : ℤ} → Move w idle w (committing i actual)
  call_release : {i : ℕ} → Move w idle w (releasing i)
  take :
      {i : ℕ} {actual : ℤ} {r : LocalReservation}
      → get_elem? w.reservations i ≡ some r
      → r.done ≡ false
      → Move w
          (committing i actual)
          (taken i r w)
          (settling (sub64 (clamp actual) r.reserved) (clamp actual))
  take_back :
      {i : ℕ} {r : LocalReservation}
      → get_elem? w.reservations i ≡ some r
      → r.done ≡ false
      → Move w (releasing i) (taken i r w) (settling (sub64 (pos 0) r.reserved) (pos 0))
  commit_again :
      {i : ℕ} {actual : ℤ} {r : LocalReservation}
      → get_elem? w.reservations i ≡ some r
      → r.done ≡ true
      → Move w (committing i actual) w idle
  release_again :
      {i : ℕ} {r : LocalReservation}
      → get_elem? w.reservations i ≡ some r
      → r.done ≡ true
      → Move w (releasing i) w idle
  add_used :
      {delta actual : ℤ} → Move w (settling delta actual) (used_added delta w) (after_used actual)
  add_spent : {actual : ℤ} → Move w (spending actual) (spent_added actual w) idle

pub record System : Type 0 where
  pub world : World
  pub goroutines : List Goroutine

-- One goroutine takes its next step.
pub data Step (s : System) : System → Type 0 where
  pick :
      (i : ℕ) {g g' : Goroutine} {w' : World}
      → get_elem? s.goroutines i ≡ some g
      → Move s.world g w' g'
      → Step s (record { world = w'; goroutines = set s.goroutines i g' })

-- `n` goroutines, none of them in a call.
unfoldable pub crowd : ℕ → List Goroutine
crowd zero = []
crowd (suc n) = idle ∷ crowd n

-- What `n` goroutines reach from a world in which none of them is in a call.
pub data Reach (w : World) (n : ℕ) : System → Type 0 where
  start : Reach w n (record { world = w; goroutines = crowd n })
  later : {s t : System} → Reach w n s → Step s t → Reach w n t
