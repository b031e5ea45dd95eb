-- ===== src/World/Conservation.antt =====
-- The accounting equation of the local ledger under every sequence of calls, modulo 2^64.
use cost.Prelude.{
  ℕ, zero, suc, ◌+◌, ◌%◌, ◌≡◌, refl, ℤ, pos, ◌+ℤ◌, true, some, List, [], ◌∷◌, ◌++◌, get_elem?, set,
  arith, int_laws, Option-cases, inl, inr, ◌∙◌, ap, sym,
}
use cost.Int64.{
  IsInt64, wrap, sub64, to_bits, to_bits-lt, add64-IsInt64, wrap_of_bits, to_bits-+ℤ, to_bits-add64,
  to_bits-sub64,
}
use cost.Errors.{Context}
use cost.Currency.{Currency}
use cost.Ledger.{LocalReservation, fresh, new_ledger, reserve}
use cost.Ledger.Audit.{record_event_lem}
use cost.Reservation.{clamp, commit, release}
use cost.World.{
  World, new_world, Call, reserve_call, commit_call, release_call, record_call, apply, run,
  open_amount, held,
}

pub held-append :
    (rs : List LocalReservation) (r : LocalReservation)
    → held (rs ++ r ∷ []) ≡ held rs +ℤ open_amount r
unfolding held
held-append [] r = grind int_laws
held-append (x ∷ rs) r = grind (int_laws, held-append rs r)

-- Writing a reservation back changes the sum by the change of its own open amount.
pub held-set :
    (rs : List LocalReservation) (i : ℕ) (r r' : LocalReservation)
    → get_elem? rs i ≡ some r
    → held (set rs i r') +ℤ open_amount r ≡ held rs +ℤ open_amount r'
unfolding held
held-set [] i r r' e = ground arith
held-set (x ∷ rs) zero r r' e = grind int_laws
held-set (x ∷ rs) (suc i) r r' e = grind (int_laws, held-set rs i r r' e)

module _ (rs : List LocalReservation) where
  pub held-append_bits :
      (r : LocalReservation)
      → to_bits (held (rs ++ r ∷ []))
        ≡ (to_bits (held rs) + to_bits (open_amount r)) % 18446744073709551616
  held-append_bits r = ap to_bits (held-append rs r) ∙ to_bits-+ℤ (held rs) (open_amount r)

  pub held-set_bits :
      (i : ℕ) (r r' : LocalReservation)
      → get_elem? rs i ≡ some r
      → (to_bits (held (set rs i r')) + to_bits (open_amount r)) % 18446744073709551616
        ≡ (to_bits (held rs) + to_bits (open_amount r')) % 18446744073709551616
  held-set_bits i r r' e =
      sym (to_bits-+ℤ (held (set rs i r')) (open_amount r))
      ∙ ap to_bits (held-set rs i r r' e)
      ∙ to_bits-+ℤ (held rs) (open_amount r')

-- The counter is an int64, and agrees modulo 2^64 with what is spent and what is held.
pub record IsConserved (w : World) : Type 0 where
  pub machine : IsInt64 w.ledger.used_micros
  pub agrees :
      to_bits w.ledger.used_micros
      ≡ (to_bits w.ledger.spent_micros + to_bits (held w.reservations)) % 18446744073709551616

pub zero_bits : to_bits (pos 0) ≡ 0
unfolding to_bits
zero_bits = refl

reserve-IsConserved :
    (ctx : Context) (estimate : ℤ) (w : World)
    → IsConserved w
    → IsConserved (apply (reserve_call ctx estimate) w).1
unfolding apply reserve
reserve-IsConserved ctx estimate w h =
    let used = w.ledger.used_micros in
    ground (
      arith,
      add64-IsInt64 used estimate,
      to_bits-add64 used estimate,
      held-append_bits w.reservations (fresh estimate),
      to_bits-lt (held w.reservations),
      to_bits-lt w.ledger.spent_micros,
      to_bits-lt estimate,
    )

commit-IsConserved :
    (ctx : Context) (i : ℕ) (actual : ℤ) (w : World)
    → IsConserved w
    → IsConserved (apply (commit_call ctx i actual) w).1
unfolding apply commit
commit-IsConserved ctx i actual w h = elim (Option-cases (get_elem? w.reservations i)) [
  | inl missing ↦ rw (missing, apply) h
  | inr (r, e) ↦
      let used = w.ledger.used_micros in
      rw (e, apply) ground
        (
          arith,
          add64-IsInt64 used (sub64 (clamp actual) r.reserved),
          to_bits-add64 used (sub64 (clamp actual) r.reserved),
          to_bits-sub64 (clamp actual) r.reserved,
          to_bits-add64 w.ledger.spent_micros (clamp actual),
          held-set_bits w.reservations i r (record r { done = true }) e,
          held-set_bits w.reservations i r r e,
          to_bits-lt (held (set w.reservations i r)),
          to_bits-lt (held (set w.reservations i (record r { done = true }))),
          to_bits-lt (held w.reservations),
          to_bits-lt w.ledger.spent_micros,
          to_bits-lt r.reserved,
          to_bits-lt (clamp actual),
          zero_bits,
        )
]

release-IsConserved :
    (ctx : Context) (i : ℕ) (w : World)
    → IsConserved w
    → IsConserved (apply (release_call ctx i) w).1
unfolding apply release
release-IsConserved ctx i w h = elim (Option-cases (get_elem? w.reservations i)) [
  | inl missing ↦ rw (missing, apply) h
  | inr (r, e) ↦
      let used = w.ledger.used_micros in
      rw (e, apply) ground
        (
          arith,
          add64-IsInt64 used (sub64 (pos 0) r.reserved),
          to_bits-add64 used (sub64 (pos 0) r.reserved),
          to_bits-sub64 (pos 0) r.reserved,
          held-set_bits w.reservations i r (record r { done = true }) e,
          held-set_bits w.reservations i r r e,
          to_bits-lt (held (set w.reservations i r)),
          to_bits-lt (held (set w.reservations i (record r { done = true }))),
          to_bits-lt (held w.reservations),
          to_bits-lt w.ledger.spent_micros,
          to_bits-lt r.reserved,
          zero_bits,
        )
]

apply-IsConserved : (c : Call) (w : World) → IsConserved w → IsConserved (apply c w).1
apply-IsConserved (reserve_call ctx estimate) w h = reserve-IsConserved ctx estimate w h
apply-IsConserved (commit_call ctx i actual) w h = commit-IsConserved ctx i actual w h
apply-IsConserved (release_call ctx i) w h = release-IsConserved ctx i w h
apply-IsConserved (record_call ctx now event) w h =
    unfold apply in
    let (_, _, used, spent, _) = record_event_lem ctx now event w.ledger in
    record { machine = rw used h.machine; agrees = rw (used, spent) h.agrees }

run-IsConserved : (calls : List Call) (w : World) → IsConserved w → IsConserved (run calls w)
unfolding run
run-IsConserved [] w h = h
run-IsConserved (c ∷ calls) w h = run-IsConserved calls (apply c w).1 (apply-IsConserved c w h)

-- After any calls on a new ledger, in any order, with any amounts and any errors, the used counter
-- is the truncation to int64 of the spent counter plus what the open reservations hold.
pub run_conserves :
    (limit : ℤ) (currency : Currency) (calls : List Call)
    → let w = run calls (new_world limit currency) in
      w.ledger.used_micros ≡ wrap (w.ledger.spent_micros +ℤ held w.reservations)
unfolding new_ledger held
run_conserves limit currency calls =
    let w = run calls (new_world limit currency) in
    let kept : IsConserved w =
      run-IsConserved calls (new_world limit currency)
        (record { machine = omega arith; agrees = rw zero_bits }) in
    wrap_of_bits w.ledger.used_micros (w.ledger.spent_micros +ℤ held w.reservations) kept.machine
      (kept.agrees ∙ sym (to_bits-+ℤ w.ledger.spent_micros (held w.reservations)))
