-- ===== src/Quota/Updates.antt =====
-- What the other update functions of nexssflow/storage_backend.go do to a sound record.
use cost.Prelude.{ℕ, ◌+◌, ◌≤◌, ◌<◌, ◌≡◌, ap, sym, ◌∙◌, ℤ, pos, not, ltb_ℤ, some, [], true, arith}
use cost.Int64.{add64, sub64, max_int64}
use cost.Text.{Text, text}
use cost.Text.Decimal.{format_int, parse_int-format_int, parse_int_given}
use cost.Errors.{errorf, ok}
use cost.Quota.Record.{
  ◌>>=◌, check, ok_inj, bind-ok_inv, check-ok_inv, RuntimeQuotaRecord, entries, with_budget,
  require, require-ok_inv, reservation_not_found, with_spent, add_spent, charge, drop_reservation,
  parse_non_negative_micros, get_amount, delete_amount, policy_invalid,
}
use cost.Quota.Amounts.{
  micros, parse_non_negative_micros-ok, micros-lt, micros_lem, micros-format_int,
  delete_amount-IsSound, total-delete_amount, total-delete_amount_hit, add64_pos, exceeds_iff,
}
use cost.Quota.Records.{IsSoundRecord, used}

spent_fits :
    (spent actual : ℕ)
    → spent < 9223372036854775808
    → not (ltb_ℤ (sub64 max_int64 (pos spent)) (pos actual)) ≡ true
    → spent + actual < 9223372036854775808
spent_fits spent actual lt h = ground (arith, exceeds_iff spent actual lt)

add_spent_lem :
    (actual : ℕ) (id raw : Text) (r r' : RuntimeQuotaRecord) (spent : ℕ)
    → spent < 9223372036854775808
    → add_spent (pos actual) id raw r (pos spent) ≡ ok r'
    → (spent + actual < 9223372036854775808) × (r' ≡ with_spent id (pos (spent + actual)) r)
add_spent_lem actual id raw r r' spent lt e =
    let (u, fits, e1) =
      bind-ok_inv
        (check (not (ltb_ℤ (sub64 max_int64 (pos spent)) (pos actual)))
          (errorf "%w: committed usage overflows int64" [] policy_invalid))
        (λ _. parse_non_negative_micros raw (text "reservation amount") >>= λ _.
          ok (with_spent id (add64 (pos spent) (pos actual)) r))
        r' e in
    let (v, _, e2) =
      bind-ok_inv (parse_non_negative_micros raw (text "reservation amount"))
        (λ _. ok (with_spent id (add64 (pos spent) (pos actual)) r)) r' e1 in
    let room =
      spent_fits spent actual lt
        (check-ok_inv _ (errorf "%w: committed usage overflows int64" [] policy_invalid) u fits) in
    (
      room,
      sym (ok_inj (with_spent id (add64 (pos spent) (pos actual)) r) r' e2)
          ∙ ap (λ k. with_spent id k r) (add64_pos spent actual room),
    )

-- What Commit makes of the record.
pub charge_lem :
    (actual : ℕ) (id : Text) (r r' : RuntimeQuotaRecord)
    → IsSoundRecord r
    → charge (pos actual) id r ≡ ok r'
    → (raw : Text) × (get_amount id (entries r) ≡ some raw)
      × (micros r.spent_micros + actual < 9223372036854775808)
      × (r' ≡ with_spent id (pos (micros r.spent_micros + actual)) r)
unfolding charge
charge_lem actual id r r' s e =
    let (raw, found, e1) =
      bind-ok_inv (require (get_amount id (entries r)) (reservation_not_found id))
        (λ raw. parse_non_negative_micros r.spent_micros (text "spent_micros") >>= λ spent.
          add_spent (pos actual) id raw r spent)
        r' e in
    let (fits, after) =
      add_spent_lem actual id raw r r' (micros r.spent_micros)
        (micros-lt r.spent_micros (micros r.spent_micros) s.spent)
        (rw
          (parse_non_negative_micros-ok r.spent_micros (text "spent_micros") (micros r.spent_micros)
            s.spent)
          at e1) in
    (
      raw,
      require-ok_inv (get_amount id (entries r)) (reservation_not_found id) raw found,
      fits,
      after,
    )

pub drop_reservation_lem :
    (id : Text) (r r' : RuntimeQuotaRecord)
    → drop_reservation id r ≡ ok r'
    → (raw : Text) × (get_amount id (entries r) ≡ some raw)
      × (r' ≡ record r { reservations = some (delete_amount id (entries r)) })
unfolding drop_reservation
drop_reservation_lem id r r' e =
    let (raw, found, e1) =
      bind-ok_inv (require (get_amount id (entries r)) (reservation_not_found id))
        (λ _. ok (record r { reservations = some (delete_amount id (entries r)) })) r' e in
    (
      raw,
      require-ok_inv (get_amount id (entries r)) (reservation_not_found id) raw found,
      sym (ok_inj (record r { reservations = some (delete_amount id (entries r)) }) r' e1),
    )

-- The records that the updates make are sound again.
pub with_budget-IsSoundRecord :
    (limit : ℤ) (r : RuntimeQuotaRecord) → IsSoundRecord r → IsSoundRecord (with_budget limit r)
with_budget-IsSoundRecord limit r s = record {
  version = s.version;
  spent_given = s.spent_given;
  spent = s.spent;
  reservations = s.reservations;
}

pub drop_reservation-IsSoundRecord :
    (id : Text) (r : RuntimeQuotaRecord)
    → IsSoundRecord r
    → IsSoundRecord (record r { reservations = some (delete_amount id (entries r)) })
drop_reservation-IsSoundRecord id r s = record {
  version = s.version;
  spent_given = s.spent_given;
  spent = s.spent;
  reservations = delete_amount-IsSound id (entries r) s.reservations;
}

pub with_spent-IsSoundRecord :
    (spent : ℕ) (id : Text) (r : RuntimeQuotaRecord)
    → spent < 9223372036854775808
    → IsSoundRecord r
    → IsSoundRecord (with_spent id (pos spent) r)
with_spent-IsSoundRecord spent id r lt s = record {
  version = s.version;
  spent_given =
      parse_int_given (format_int (pos spent)) (pos spent) (parse_int-format_int spent lt);
  spent = micros-format_int spent lt;
  reservations = delete_amount-IsSound id (entries r) s.reservations;
}

pub used-with_spent :
    (actual : ℕ) (id raw : Text) (r : RuntimeQuotaRecord)
    → micros r.spent_micros + actual < 9223372036854775808
    → get_amount id (entries r) ≡ some raw
    → used (with_spent id (pos (micros r.spent_micros + actual)) r) + micros raw ≤ used r + actual
used-with_spent actual id raw r lt held = omega (
  arith,
  micros_lem (format_int (pos (micros r.spent_micros + actual))) (micros r.spent_micros + actual)
      (parse_int-format_int (micros r.spent_micros + actual) lt),
  total-delete_amount_hit id raw (entries r) held,
)

pub used-dropped :
    (id : Text) (r : RuntimeQuotaRecord)
    → used (record r { reservations = some (delete_amount id (entries r)) }) ≤ used r
used-dropped id r = omega (arith, total-delete_amount id (entries r))
