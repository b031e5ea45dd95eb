-- ===== src/Goroutines/Progress.antt =====
-- The retry loop of Reserve under goroutines: a swap fails only after another goroutine has moved
-- the counter, so the calls that have begun come to their ends.
use cost.Prelude.{
  ℕ, zero, suc, ◌+◌, ◌*◌, ◌≤◌, ◌<◌, ◌≡◌, ◌≢◌, refl, sym, ap, subst, ◌⊎◌, inl, inr, ℤ, pos, ltb_ℤ,
  eqb_ℤ, eqb_ℤ_iff, if◌then◌else◌, some, List, [], ◌∷◌, length, get_elem?, set, arith, if-elim,
  Option-cases, Bool-cases, ◌∙◌,
}
use mathlib.Core.Bool.{true≢false}
use cost.Int64.{sub64}
use cost.Ledger.{LocalReservation, budget_error}
use cost.Reservation.{clamp}
use cost.World.{World}
use cost.Goroutines.{
  Goroutine, idle, reserving, loaded, committing, releasing, settling, spending, after_used,
  swapped, taken, used_added, spent_added, Move, call_reserve, load, refuse, swap, retry, cancel,
  call_commit, call_release, take, take_back, commit_again, release_again, add_used, add_spent,
  System,
}
use cost.Goroutines.Conservation.{total, total-set}

-- A step of a goroutine that is in a call.
pub data InnerStep (s : System) : System → Type 0 where
  inner :
      (i : ℕ) {g g' : Goroutine} {w' : World}
      → g ≢ idle
      → get_elem? s.goroutines i ≡ some g
      → Move s.world g w' g'
      → InnerStep s (record { world = w'; goroutines = set s.goroutines i g' })

-- `k` of these steps, one after the other.
pub data InnerSteps (s : System) : (k : ℕ) → System → Type 0 where
  none_yet : InnerSteps s 0 s
  one_more : {k : ℕ} {t u : System} → InnerSteps s k t → InnerStep t u → InnerSteps s (suc k) u

-- How far a goroutine is from the end of its call, where moving the counter is worth `k`. What it
-- has loaded is out of date once the counter has moved.
abbrev pub distance : (k : ℕ) → (used : ℤ) → Goroutine → ℕ
distance k used idle = 0
distance k used (reserving estimate) = k + 2
distance k used (loaded estimate seen) = if eqb_ℤ used seen then k + 1 else k + 3
distance k used (committing i actual) = k + 3
distance k used (releasing i) = k + 3
distance k used (settling delta actual) = k + 2
distance k used (spending actual) = 1

-- A move of the counter puts each goroutine back by 2 at most.
distance_moved :
    (k : ℕ) (used used' : ℤ) (g : Goroutine) → distance k used' g ≤ distance k used g + 2
distance_moved k used used' idle = omega arith
distance_moved k used used' (reserving estimate) = omega arith
distance_moved k used used' (loaded estimate seen) = ground arith
distance_moved k used used' (committing i actual) = omega arith
distance_moved k used used' (releasing i) = omega arith
distance_moved k used used' (settling delta actual) = omega arith
distance_moved k used used' (spending actual) = omega arith

total_moved :
    (k : ℕ) (used used' : ℤ) (gs : List Goroutine)
    → total (distance k used') gs ≤ total (distance k used) gs + 2 * length gs
unfolding total
total_moved k used used' [] = omega arith
total_moved k used used' (g ∷ gs) =
    omega (arith, distance_moved k used used' g, total_moved k used used' gs)

distance-le : (k : ℕ) (used : ℤ) (g : Goroutine) → distance k used g ≤ k + 3
distance-le k used idle = omega arith
distance-le k used (reserving estimate) = omega arith
distance-le k used (loaded estimate seen) = ground arith
distance-le k used (committing i actual) = omega arith
distance-le k used (releasing i) = omega arith
distance-le k used (settling delta actual) = omega arith
distance-le k used (spending actual) = omega arith

total-distance-le :
    (k : ℕ) (used : ℤ) (gs : List Goroutine) → total (distance k used) gs ≤ length gs * (k + 3)
unfolding total
total-distance-le k used [] = omega arith
total-distance-le k used (g ∷ gs) = grind (arith, distance-le k used g, total-distance-le k used gs)

distance-after_used : (k : ℕ) (used actual : ℤ) → distance k used (after_used actual) ≤ 1
distance-after_used k used actual =
    if-elim (λ g. distance k used g ≤ 1) (ltb_ℤ (pos 0) actual) (λ _. omega arith)
      (λ _. omega arith)

-- A move either brings its goroutine nearer to the end and leaves the counter, or it moves the
-- counter and takes away what that is worth.
abbrev Nearer : (k : ℕ) → World → Goroutine → World → Goroutine → Type 0
Nearer k w g w' g' =
    ((w'.ledger.used_micros ≡ w.ledger.used_micros)
      × (distance k w.ledger.used_micros g' < distance k w.ledger.used_micros g))
    ⊎ (distance k w'.ledger.used_micros g' + k < distance k w.ledger.used_micros g)

Move-Nearer :
    (k : ℕ) (w w' : World) (g g' : Goroutine) → g ≢ idle → Move w g w' g' → Nearer k w g w' g'
Move-Nearer k w w' _ _ busy (call_reserve _) = absurd (busy refl)
Move-Nearer k w w' _ _ busy (load {estimate} _) =
    inl (refl, ground (arith, eqb_ℤ_iff w.ledger.used_micros w.ledger.used_micros))
Move-Nearer k w w' _ _ busy (refuse _) = inl (refl, omega arith)
Move-Nearer k w w' _ _ busy (swap {estimate} {used} same) =
    inr (ground (arith, eqb_ℤ_iff w.ledger.used_micros used))
Move-Nearer k w w' _ _ busy (retry {estimate} {used} other) =
    inl (refl, ground (arith, eqb_ℤ_iff w.ledger.used_micros used))
Move-Nearer k w w' _ _ busy (cancel {estimate} {used} other) =
    inl (refl, ground (arith, eqb_ℤ_iff w.ledger.used_micros used))
Move-Nearer k w w' _ _ busy call_commit = absurd (busy refl)
Move-Nearer k w w' _ _ busy call_release = absurd (busy refl)
Move-Nearer k w w' _ _ busy (take _ _) = inl (refl, omega arith)
Move-Nearer k w w' _ _ busy (take_back _ _) = inl (refl, omega arith)
Move-Nearer k w w' _ _ busy (commit_again _ _) = inl (refl, omega arith)
Move-Nearer k w w' _ _ busy (release_again _ _) = inl (refl, omega arith)
Move-Nearer k w w' _ _ busy (add_used {delta} {actual}) =
    inr (omega (arith, distance-after_used k w'.ledger.used_micros actual))
Move-Nearer k w w' _ _ busy add_spent = inl (refl, omega arith)

length-set : (gs : List Goroutine) (i : ℕ) (g : Goroutine) → length (set gs i g) ≡ length gs
length-set [] i g = refl
length-set (x ∷ gs) zero g = refl
length-set (x ∷ gs) (suc i) g = ap suc (length-set gs i g)

abbrev remaining : System → ℕ
remaining s = total (distance (2 * length s.goroutines) s.world.ledger.used_micros) s.goroutines

Nearer-lt :
    (k : ℕ) (w w' : World) (gs : List Goroutine) (i : ℕ) (g g' : Goroutine)
    → k ≡ 2 * length gs
    → get_elem? gs i ≡ some g
    → Nearer k w g w' g'
    → total (distance k w'.ledger.used_micros) (set gs i g')
      < total (distance k w.ledger.used_micros) gs
Nearer-lt k w w' gs i g g' e found (inl (same, near)) =
    subst
      (λ used. total (distance k used) (set gs i g') < total (distance k w.ledger.used_micros) gs)
      (sym same) (omega (arith, total-set (distance k w.ledger.used_micros) gs i g g' found, near))
Nearer-lt k w w' gs i g g' e found (inr near) = omega (
  arith,
  e,
  total-set (distance k w'.ledger.used_micros) gs i g g' found,
  total-set (distance k w'.ledger.used_micros) gs i g idle found,
  total-set (distance k w.ledger.used_micros) gs i g idle found,
  total_moved k w.ledger.used_micros w'.ledger.used_micros (set gs i idle),
  length-set gs i idle,
  near,
)

InnerStep-lt :
    (s t : System)
    → InnerStep s t
    → (remaining t < remaining s) × (length t.goroutines ≡ length s.goroutines)
InnerStep-lt s _ (inner i {g} {g'} {w'} busy found move) =
    let k = 2 * length s.goroutines in
    let same = length-set s.goroutines i g' in
    (
      subst
          (λ n.
            total (distance (2 * n) w'.ledger.used_micros) (set s.goroutines i g') < remaining s)
          (sym same)
          (Nearer-lt k s.world w' s.goroutines i g g' refl found
            (Move-Nearer k s.world w' g g' busy move)),
      same,
    )

InnerSteps-le : (s t : System) (k : ℕ) → InnerSteps s k t → k + remaining t ≤ remaining s
InnerSteps-le s _ _ none_yet = omega arith
InnerSteps-le s u _ (one_more {k} {t} steps step) =
    omega (arith, InnerSteps-le s t k steps, (InnerStep-lt t u step).0)

-- The reservation that a goroutine settles is one that has been handed out.
abbrev pub HasHandle : World → Goroutine → Type 0
HasHandle w (committing i actual) = (r : LocalReservation) × (get_elem? w.reservations i ≡ some r)
HasHandle w (releasing i) = (r : LocalReservation) × (get_elem? w.reservations i ≡ some r)
HasHandle w _ = Unit

-- Every goroutine that is in a call has a move.
Move-enabled :
    (w : World) (g : Goroutine)
    → g ≢ idle
    → HasHandle w g
    → (w' : World) × ((g' : Goroutine) × Move w g w' g')
Move-enabled w idle busy h = absurd (busy refl)
Move-enabled w (reserving estimate) busy h =
    elim (Option-cases (budget_error w.ledger.limit_micros w.ledger.used_micros estimate)) [
      | inl fits ↦ (w, (loaded estimate w.ledger.used_micros, load fits))
      | inr (e, over) ↦ (w, (idle, refuse over))
    ]
Move-enabled w (loaded estimate used) busy h = elim (Bool-cases (eqb_ℤ w.ledger.used_micros used)) [
  | inl same ↦
      (swapped estimate used w, (idle, swap ((eqb_ℤ_iff w.ledger.used_micros used).0 same)))
  | inr other ↦ (
    w,
    (
      reserving estimate,
      retry (λ e. true≢false (sym ((eqb_ℤ_iff w.ledger.used_micros used).1 e) ∙ other)),
    ),
  )
]
Move-enabled w (committing i actual) busy (r, found) = elim (Bool-cases r.done) [
  | inl done ↦ (w, (idle, commit_again found done))
  | inr open_yet ↦ (
    taken i r w,
    (settling (sub64 (clamp actual) r.reserved) (clamp actual), take found open_yet),
  )
]
Move-enabled w (releasing i) busy (r, found) = elim (Bool-cases r.done) [
  | inl done ↦ (w, (idle, release_again found done))
  | inr open_yet ↦
      (taken i r w, (settling (sub64 (pos 0) r.reserved) (pos 0), take_back found open_yet))
]
Move-enabled w (settling delta actual) busy h = (used_added delta w, (after_used actual, add_used))
Move-enabled w (spending actual) busy h = (spent_added actual w, (idle, add_spent))

pub InnerStep-enabled :
    (s : System) (i : ℕ) (g : Goroutine)
    → g ≢ idle
    → get_elem? s.goroutines i ≡ some g
    → HasHandle s.world g
    → (t : System) × InnerStep s t
InnerStep-enabled s i g busy found h =
    let (w', (g', move)) = Move-enabled s.world g busy h in
    (record { world = w'; goroutines = set s.goroutines i g' }, inner i busy found move)

-- From any state of n goroutines, a sequence of atomic operations in which no goroutine begins
-- another call has at most n (2 n + 3) of them: the CompareAndSwap loops of all the calls under
-- way end, in whatever order the goroutines run.
pub InnerSteps-bound :
    (s t : System) (k : ℕ)
    → InnerSteps s k t
    → k ≤ length s.goroutines * (2 * length s.goroutines + 3)
InnerSteps-bound s t k steps =
    let n = length s.goroutines in
    let bound = total-distance-le (2 * n) s.world.ledger.used_micros s.goroutines in
    grind (arith, InnerSteps-le s t k steps, bound)
