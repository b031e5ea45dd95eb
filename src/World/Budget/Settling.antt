-- ===== src/World/Budget/Settling.antt =====
-- Commit and Release keep the budget invariant: their additions are exact.
use native.Mathlib.Nat.{add-zero}
use cost.Prelude.{
  ℕ, zero, suc, ◌+◌, ◌≡◌, ℤ, pos, ◌+ℤ◌, ◌-ℤ◌, ◌≤ℤ◌, pos_part, true, false, if◌then◌else◌, none,
  some, List, [], ◌∷◌, ◌++◌, get_elem?, set, set_self, Bool-cases, arith, int_laws, Option-cases,
  inl, inr, ltb_ℤ,
}
use cost.Int64.{max_int64, add64, sub64, wrap, of_bits, to_bits}
use cost.Errors.{Context, nil_context, context}
use cost.Ledger.{LocalReservation}
use cost.Reservation.{clamp, settle, commit, release}
use cost.World.{World, commit_call, release_call, apply, open_amount, held, on_handle}
use cost.World.Conservation.{held-set}
use cost.World.Budget.{AllNonneg, IsBalanced, excess_of, excess}

pub held_nonneg : (rs : List LocalReservation) → AllNonneg rs → pos 0 ≤ℤ held rs
unfolding held
held_nonneg [] h = omega arith
held_nonneg (r ∷ rs) h = grind (int_laws, held_nonneg rs h.1)

-- An open reservation is part of the sum.
held-split :
    (rs : List LocalReservation) (i : ℕ) (r : LocalReservation)
    → AllNonneg rs
    → get_elem? rs i ≡ some r
    → (pos 0 ≤ℤ r.reserved) × (open_amount r ≤ℤ held rs)
unfolding held
held-split [] i r h e = ground arith
held-split (x ∷ rs) zero r h e = grind (int_laws, held_nonneg rs h.1)
held-split (x ∷ rs) (suc i) r h e = grind (int_laws, held-split rs i r h.1 e)

AllNonneg-set :
    (rs : List LocalReservation) (i : ℕ) (r : LocalReservation)
    → AllNonneg rs
    → pos 0 ≤ℤ r.reserved
    → AllNonneg (set rs i r)
AllNonneg-set [] i r h n = tt
AllNonneg-set (x ∷ rs) zero r h n = (n, h.1)
AllNonneg-set (x ∷ rs) (suc i) r h n = (h.0, AllNonneg-set rs i r h.1 n)

pub AllNonneg-append :
    (rs : List LocalReservation) (r : LocalReservation)
    → AllNonneg rs
    → pos 0 ≤ℤ r.reserved
    → AllNonneg (rs ++ r ∷ [])
AllNonneg-append [] r h n = (n, tt)
AllNonneg-append (x ∷ rs) r h n = (h.0, AllNonneg-append rs r h.1 n)

-- The additions of Commit are exact where the new total is an int64.
module _ (used spent reserved actual sum : ℤ) where
  settle_exact :
      pos 0 ≤ℤ spent
      → pos 0 ≤ℤ reserved
      → pos 0 ≤ℤ actual
      → reserved ≤ℤ sum
      → used ≡ spent +ℤ sum
      → used ≤ℤ max_int64
      → used +ℤ (actual -ℤ reserved) ≤ℤ max_int64
      → (add64 used (sub64 actual reserved) ≡ used +ℤ (actual -ℤ reserved))
        × ((if ltb_ℤ (pos 0) actual then add64 spent actual else spent) ≡ spent +ℤ actual)
  unfolding add64 sub64 wrap of_bits to_bits ◌+ℤ◌ ◌-ℤ◌
  settle_exact hs hr ha hh e hu hm = ground arith

regroup_settled :
    (used spent sum reserved actual rest : ℤ)
    → used ≡ spent +ℤ sum
    → rest +ℤ reserved ≡ sum +ℤ pos 0
    → used +ℤ (actual -ℤ reserved) ≡ spent +ℤ actual +ℤ rest
regroup_settled used spent sum reserved actual rest e less = grind int_laws

-- The world after the open reservation `r` at `i` is settled at `actual`.
abbrev settled : World → ℕ → LocalReservation → ℤ → World
settled w i r actual = record {
  ledger = settle r.reserved actual w.ledger;
  reservations = set w.reservations i (record r { done = true });
}

abbrev excess_amount : ℤ → LocalReservation → ℕ
excess_amount actual r = pos_part (actual -ℤ r.reserved)

settled-IsBalanced :
    (i : ℕ) (r : LocalReservation) (actual : ℤ) (over : ℕ) (w : World)
    → get_elem? w.reservations i ≡ some r
    → r.done ≡ false
    → pos 0 ≤ℤ actual
    → w.ledger.limit_micros +ℤ pos (over + excess_amount actual r) ≤ℤ max_int64
    → IsBalanced over w
    → IsBalanced (over + excess_amount actual r) (settled w i r actual)
unfolding settle
settled-IsBalanced i r actual over w e open_r ha room h =
    let rs = w.reservations in
    let l = w.ledger in
    let (nonneg, part) = held-split rs i r h.amounts e in
    let amount : open_amount r ≡ r.reserved = rw open_r in
    let covered : r.reserved ≤ℤ held rs = rw amount at part in
    let below : l.used_micros ≤ℤ max_int64 = grind int_laws in
    let above : l.used_micros +ℤ (actual -ℤ r.reserved) ≤ℤ max_int64 = grind int_laws in
    let (used_eq, spent_eq) =
      settle_exact l.used_micros l.spent_micros r.reserved actual (held rs) h.spent nonneg ha
        covered h.exact below above in
    let less : held (set rs i (record r { done = true })) +ℤ r.reserved ≡ held rs +ℤ pos 0 =
      rw amount at (held-set rs i r (record r { done = true }) e) in
    record {
      limited = h.limited;
      exact =
          rw (used_eq, spent_eq)
            (regroup_settled l.used_micros l.spent_micros (held rs) r.reserved actual _ h.exact
              less);
      spent = rw spent_eq (grind int_laws);
      amounts = AllNonneg-set rs i (record r { done = true }) h.amounts nonneg;
      within = rw used_eq (grind int_laws);
    }

unchanged :
    (i : ℕ) (r : LocalReservation) (over : ℕ) (w : World)
    → get_elem? w.reservations i ≡ some r
    → IsBalanced over w
    → IsBalanced (over + 0) (record w { reservations = set w.reservations i r })
unchanged i r over w e h = rw (add-zero, set_self w.reservations i r e) h

clamp_nonneg : (actual : ℤ) → pos 0 ≤ℤ clamp actual
clamp_nonneg actual = ground arith

on_commit-IsBalanced :
    (ctx : Context) (i : ℕ) (r : LocalReservation) (actual : ℤ) (over : ℕ) (w : World)
    → get_elem? w.reservations i ≡ some r
    → w.ledger.limit_micros +ℤ pos (over + excess_of ctx actual (some r)) ≤ℤ max_int64
    → IsBalanced over w
    → IsBalanced
        (over + excess_of ctx actual (some r))
        (on_handle w i (commit ctx actual) (some r)).1
unfolding commit
on_commit-IsBalanced nil_context i r actual over w e room h = unchanged i r over w e h
on_commit-IsBalanced (context (some c)) i r actual over w e room h = unchanged i r over w e h
on_commit-IsBalanced (context none) i r actual over w e room h = elim (Bool-cases r.done) [
  | inl done ↦ simp done (unchanged i r over w e h)
  | inr open_r ↦ simp open_r (
      settled-IsBalanced i r (clamp actual) over w e open_r (clamp_nonneg actual)
        (simp open_r at room) h)
]

pub commit-IsBalanced :
    (ctx : Context) (i : ℕ) (actual : ℤ) (over : ℕ) (w : World)
    → w.ledger.limit_micros +ℤ pos (over + excess (commit_call ctx i actual) w) ≤ℤ max_int64
    → IsBalanced over w
    → IsBalanced (over + excess (commit_call ctx i actual) w) (apply (commit_call ctx i actual) w).1
unfolding apply excess
commit-IsBalanced ctx i actual over w room h = elim (Option-cases (get_elem? w.reservations i)) [
  | inl missing ↦ rw missing (rw add-zero h)
  | inr (r, e) ↦ rw e (on_commit-IsBalanced ctx i r actual over w e (rw e at room) h)
]

no_excess :
    (over : ℕ) (r : LocalReservation) → pos 0 ≤ℤ r.reserved → over + excess_amount (pos 0) r ≡ over
unfolding ◌-ℤ◌
no_excess over r h = ground arith

on_release-IsBalanced :
    (ctx : Context) (i : ℕ) (r : LocalReservation) (over : ℕ) (w : World)
    → get_elem? w.reservations i ≡ some r
    → w.ledger.limit_micros +ℤ pos over ≤ℤ max_int64
    → IsBalanced over w
    → IsBalanced over (on_handle w i (release ctx) (some r)).1
unfolding release settle
on_release-IsBalanced nil_context i r over w e room h = rw add-zero at (unchanged i r over w e h)
on_release-IsBalanced (context (some c)) i r over w e room h =
    rw add-zero at (unchanged i r over w e h)
on_release-IsBalanced (context none) i r over w e room h = elim (Bool-cases r.done) [
  | inl done ↦ simp done (rw add-zero at (unchanged i r over w e h))
  | inr open_r ↦
      let none_over : over + excess_amount (pos 0) r ≡ over =
        no_excess over r (held-split w.reservations i r h.amounts e).0 in
      simp open_r (
        rw none_over at
          (settled-IsBalanced i r (pos 0) over w e open_r (omega arith) (rw none_over room) h))
]

pub release-IsBalanced :
    (ctx : Context) (i : ℕ) (over : ℕ) (w : World)
    → w.ledger.limit_micros +ℤ pos over ≤ℤ max_int64
    → IsBalanced over w
    → IsBalanced over (apply (release_call ctx i) w).1
unfolding apply
release-IsBalanced ctx i over w room h = elim (Option-cases (get_elem? w.reservations i)) [
  | inl missing ↦ rw missing h
  | inr (r, e) ↦ rw e (on_release-IsBalanced ctx i r over w e room h)
]
