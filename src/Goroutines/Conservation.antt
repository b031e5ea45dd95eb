-- ===== src/Goroutines/Conservation.antt =====
-- The account of ledger.go under goroutines, modulo 2^64: what the counters miss is what the
-- goroutines in the middle of a Commit or a Release still have to add.
use cost.Prelude.{
  ℕ, zero, suc, ◌+◌, ◌%◌, ◌≡◌, refl, ℤ, pos, ltb_ℤ, true, false, if◌then◌else◌, some, List, [], ◌∷◌,
  get_elem?, set, arith, ap, if-elim,
}
use cost.Int64.{sub64, to_bits, to_bits-lt, to_bits-add64, to_bits-sub64}
use cost.Ledger.{LocalReservation, fresh}
use cost.Reservation.{clamp}
use cost.World.{World, open_amount, held}
use cost.World.Conservation.{held-append_bits, held-set_bits, zero_bits}
use cost.Goroutines.{
  Goroutine, idle, settling, spending, taken, after_used, Move, System, pick, Reach, crowd, start,
  later, call_reserve, load, refuse, swap, retry, cancel, call_commit, call_release, take,
  take_back, commit_again, release_again, add_used, add_spent,
}

-- What a goroutine still has to add to usedMicros and to spentMicros.
abbrev pub due : Goroutine → ℕ
due (settling delta actual) = to_bits delta
due _ = 0

abbrev pub owed : Goroutine → ℕ
owed (settling delta actual) = if ltb_ℤ (pos 0) actual then to_bits actual else 0
owed (spending actual) = to_bits actual
owed _ = 0

module _ (weight : Goroutine → ℕ) where
  unfoldable pub total : List Goroutine → ℕ
  total [] = 0
  total (g ∷ gs) = weight g + total gs

  pub total-set :
      (gs : List Goroutine) (i : ℕ) (g g' : Goroutine)
      → get_elem? gs i ≡ some g
      → total (set gs i g') + weight g ≡ total gs + weight g'
  unfolding total
  total-set [] i g g' e = ground arith
  total-set (x ∷ gs) zero g g' e = ground arith
  total-set (x ∷ gs) (suc i) g g' e = omega (arith, total-set gs i g g' e)

-- The counters, with what is still to be added to them, agree modulo 2^64.
abbrev pub IsSettled : (due owed : ℕ) → World → Type 0
IsSettled due owed w =
    (to_bits w.ledger.used_micros + due) % 18446744073709551616
    ≡ (to_bits w.ledger.spent_micros + to_bits (held w.reservations) + owed) % 18446744073709551616

owed-after_used : (actual : ℤ) → owed (after_used actual) ≡ owed (settling (pos 0) actual)
owed-after_used actual =
    if-elim (λ g. owed g ≡ (if ltb_ℤ (pos 0) actual then to_bits actual else 0))
      (ltb_ℤ (pos 0) actual) (λ more. ground arith) (λ none. ground arith)

due-after_used : (actual : ℤ) → due (after_used actual) ≡ 0
due-after_used actual = if-elim (λ g. due g ≡ 0) (ltb_ℤ (pos 0) actual) (λ _. refl) (λ _. refl)

owed-clamp : (actual : ℤ) → owed (settling (pos 0) (clamp actual)) ≡ to_bits (clamp actual)
unfolding to_bits
owed-clamp actual = ground arith

open_amount-fresh : (r : LocalReservation) → r.done ≡ false → open_amount r ≡ r.reserved
open_amount-fresh r e = ground arith

-- A reservation that is taken leaves what is held, and its goroutine has to add the rest.
taken-IsSettled :
    (w : World) (i : ℕ) (actual : ℤ) (r : LocalReservation) (d o : ℕ)
    → get_elem? w.reservations i ≡ some r
    → r.done ≡ false
    → IsSettled d o w
    → IsSettled (d + to_bits (sub64 actual r.reserved)) (o + to_bits actual) (taken i r w)
taken-IsSettled w i actual r d o e fresh h = omega (
  arith,
  to_bits-sub64 actual r.reserved,
  to_bits-lt r.reserved,
  to_bits-lt actual,
  held-set_bits w.reservations i r (record r { done = true }) e,
  ap to_bits (open_amount-fresh r fresh),
  zero_bits,
)

pub Move-IsSettled :
    (w w' : World) (g g' : Goroutine) (d o : ℕ)
    → Move w g w' g'
    → IsSettled (d + due g) (o + owed g) w
    → IsSettled (d + due g') (o + owed g') w'
Move-IsSettled w w' _ _ d o (call_reserve _) h = h
Move-IsSettled w w' _ _ d o (load _) h = h
Move-IsSettled w w' _ _ d o (refuse _) h = h
Move-IsSettled w w' _ _ d o (swap {estimate} {used} same) h = omega (
  arith,
  ap to_bits same,
  to_bits-add64 used estimate,
  held-append_bits w.reservations (fresh estimate),
)
Move-IsSettled w w' _ _ d o (retry _) h = h
Move-IsSettled w w' _ _ d o (cancel _) h = h
Move-IsSettled w w' _ _ d o call_commit h = h
Move-IsSettled w w' _ _ d o call_release h = h
Move-IsSettled w w' _ _ d o (take {i} {actual} {r} e fresh) h =
    omega (
      arith,
      owed-clamp actual,
      taken-IsSettled w i (clamp actual) r d o e fresh (omega (arith, h)),
    )
Move-IsSettled w w' _ _ d o (take_back {i} {r} e fresh) h =
    omega (arith, zero_bits, taken-IsSettled w i (pos 0) r d o e fresh (omega (arith, h)))
Move-IsSettled w w' _ _ d o (commit_again _ _) h = h
Move-IsSettled w w' _ _ d o (release_again _ _) h = h
Move-IsSettled w w' _ _ d o (add_used {delta} {actual}) h =
    omega (
      arith,
      to_bits-add64 w.ledger.used_micros delta,
      owed-after_used actual,
      due-after_used actual,
    )
Move-IsSettled w w' _ _ d o (add_spent {actual}) h =
    omega (arith, to_bits-add64 w.ledger.spent_micros actual)

total-crowd : (weight : Goroutine → ℕ) (n : ℕ) → weight idle ≡ 0 → total weight (crowd n) ≡ 0
unfolding total crowd
total-crowd weight zero e = refl
total-crowd weight (suc n) e = omega (arith, e, total-crowd weight n e)

-- However the atomic operations of any number of goroutines in Reserve, Commit and Release
-- interleave, in every state that is reached from a balanced ledger used_micros, with what the
-- goroutines still have to add to it, agrees modulo 2^64 with what is spent, what is held, and
-- what the goroutines still have to add to spent_micros.
pub Reach-IsSettled :
    (w : World) (n : ℕ) (s : System)
    → IsSettled 0 0 w
    → Reach w n s
    → IsSettled (total due s.goroutines) (total owed s.goroutines) s.world
Reach-IsSettled w n _ h start = omega (arith, h, total-crowd due n refl, total-crowd owed n refl)
Reach-IsSettled w n _ h (later {s} reach (pick i {g} {g'} {w'} e move)) =
    let gs = s.goroutines in
    let before = Reach-IsSettled w n s h reach in
    let others = total due (set gs i idle) in
    let others_owed = total owed (set gs i idle) in
    let due_before = total-set due gs i g idle e in
    let owed_before = total-set owed gs i g idle e in
    omega (
      arith,
      Move-IsSettled s.world w' g g' others others_owed move
          (omega (arith, before, due_before, owed_before)),
      total-set due gs i g g' e,
      total-set owed gs i g g' e,
      due_before,
      owed_before,
    )
