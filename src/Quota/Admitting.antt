-- ===== src/Quota/Admitting.antt =====
-- What the update function of Reserve in nexssflow/storage_backend.go does to a sound record.
use cost.Prelude.{
  ℕ, ◌+◌, ◌≤◌, ◌<◌, ltb, ◌≡◌, refl, ap, sym, subst, ◌∙◌, ◌⊎◌, inl, inr, ℤ, pos, not, ◌||◌, Bool,
  ltb_ℤ, ◌↔◌, [], true, false, arith, int_laws, if-elim,
}
use mathlib.Core.Bool.{false≢true}
use cost.Int64.{add64, sub64, max_int64}
use cost.Text.{Text, text, text_eqb}
use cost.Text.Decimal.{format_int, parse_int-format_int}
use cost.Errors.{Error, Result, ok, err, is_ok}
use cost.Quota.Record.{
  ◌>>=◌, ◌>>◌, check, ok_inj, bind-ok_inv, RuntimeQuotaRecord, entries, within_limit,
  with_reservation, admit, parse_non_negative_micros, sum_reserved,
}
use cost.Quota.Amounts.{
  IsMicros, micros, total, parse_non_negative_micros-ok, parse_non_negative_micros-IsMicros,
  micros-lt, micros_lem, micros-format_int, delete_amount-IsSound, total-delete_amount, add64_pos,
  sub64_pos, exceeds_iff, sum_or_overflow, sum_reserved_all,
}
use cost.Quota.Records.{Same, Same-sym, IsSoundRecord, IsSoundRecord-Same, used, used-Same}

-- What a reservation needs of the record, and what it makes of it.
abbrev pub Verdict :
    (limit used estimate : ℕ) → RuntimeQuotaRecord → Result RuntimeQuotaRecord → Type 0
Verdict limit used estimate admitted c =
    ((c ≡ ok admitted) × (used + estimate ≤ limit))
    ⊎ ((is_ok c ≡ false) × (limit < used + estimate))

sub_lt_iff :
    (a b c : ℕ)
    → a < 9223372036854775808
    → b < 9223372036854775808
    → (ltb_ℤ (sub64 (pos a) (pos b)) (pos c) ≡ true) ↔ (a < b + c)
sub_lt_iff a b c ha hb = rw (sub64_pos a b ha hb) (grind int_laws)

abbrev overflow_1 : (spent reserved : ℕ) → Bool
overflow_1 spent reserved = ltb_ℤ (sub64 max_int64 (pos reserved)) (pos spent)

abbrev overflow_2 : (spent reserved estimate : ℕ) → Bool
overflow_2 spent reserved estimate =
    ltb_ℤ (sub64 max_int64 (add64 (pos spent) (pos reserved))) (pos estimate)

abbrev exceeded : (limit spent reserved estimate : ℕ) → Bool
exceeded limit spent reserved estimate =
    ltb_ℤ (sub64 (pos limit) (add64 (pos spent) (pos reserved))) (pos estimate)

fits_int64 :
    (spent reserved : ℕ)
    → reserved < 9223372036854775808
    → overflow_1 spent reserved ≡ false
    → spent + reserved < 9223372036854775808
fits_int64 spent reserved h t = ground (arith, exceeds_iff reserved spent h)

overflow_2_iff :
    (spent reserved estimate : ℕ)
    → spent + reserved < 9223372036854775808
    → (overflow_2 spent reserved estimate ≡ true)
      ↔ (9223372036854775808 ≤ spent + reserved + estimate)
overflow_2_iff spent reserved estimate h =
    rw (add64_pos spent reserved h) (exceeds_iff (spent + reserved) estimate h)

exceeded_iff :
    (limit spent reserved estimate : ℕ)
    → limit < 9223372036854775808
    → spent + reserved < 9223372036854775808
    → (exceeded limit spent reserved estimate ≡ true) ↔ (limit < spent + reserved + estimate)
exceeded_iff limit spent reserved estimate hl h =
    rw (add64_pos spent reserved h) (sub_lt_iff limit (spent + reserved) estimate hl h)

checked-Verdict :
    (t1 t2 t3 : Bool) (limit used estimate : ℕ) (admitted : RuntimeQuotaRecord) (e1 e2 : Error)
    → (t1 ≡ true → limit < used + estimate)
    → (t1 ≡ false → t2 ≡ true → limit < used + estimate)
    → (t1 ≡ false → t3 ≡ true → limit < used + estimate)
    → (t1 ≡ false → t3 ≡ false → used + estimate ≤ limit)
    → Verdict limit used estimate admitted
        (check (not (t1 || t2)) e1 >> (check (not t3) e2 >> ok admitted))
checked-Verdict t1 t2 t3 limit used estimate admitted e1 e2 h1 h2 h3 h4 = ground arith

within_limit_lem :
    (limit spent reserved estimate : ℕ) (admitted : RuntimeQuotaRecord)
    → limit < 9223372036854775808
    → spent < 9223372036854775808
    → Verdict limit
        (spent + reserved)
        estimate
        admitted
        (sum_or_overflow reserved >>= within_limit (pos limit) (pos spent) (pos estimate) admitted)
within_limit_lem limit spent reserved estimate admitted hl hs =
    if-elim
      (λ c.
        Verdict limit (spent + reserved) estimate admitted
          (c >>= within_limit (pos limit) (pos spent) (pos estimate) admitted))
      (ltb reserved 9223372036854775808)
      (λ small.
        let room = fits_int64 spent reserved (ground arith) in
        checked-Verdict (overflow_1 spent reserved) (overflow_2 spent reserved estimate)
          (exceeded limit spent reserved estimate) limit (spent + reserved) estimate admitted _ _
          (λ t. omega (arith, (exceeds_iff reserved spent (ground arith)).0 t))
          (λ t u. omega (arith, (overflow_2_iff spent reserved estimate (room t)).0 u))
          (λ t u. omega (arith, (exceeded_iff limit spent reserved estimate hl (room t)).0 u))
          (λ t u. ground (arith, exceeded_iff limit spent reserved estimate hl (room t))))
      (λ large. inr (refl, ground arith))

pub admit_lem :
    (estimate : ℕ) (id : Text) (r : RuntimeQuotaRecord)
    → IsSoundRecord r
    → IsMicros r.budget_micros (micros r.budget_micros)
    → Verdict
        (micros r.budget_micros)
        (used r)
        estimate
        (with_reservation (pos estimate) id r)
        (admit (pos estimate) id r)
unfolding admit
admit_lem estimate id r s b =
    rw
      (
        parse_non_negative_micros-ok r.budget_micros (text "budget_micros") (micros r.budget_micros)
            b,
        parse_non_negative_micros-ok r.spent_micros (text "spent_micros") (micros r.spent_micros)
            s.spent,
        sum_reserved_all (entries r) s.reservations,
      )
      (within_limit_lem (micros r.budget_micros) (micros r.spent_micros) (total (entries r))
        estimate (with_reservation (pos estimate) id r)
        (micros-lt r.budget_micros (micros r.budget_micros) b)
        (micros-lt r.spent_micros (micros r.spent_micros) s.spent))

pub with_reservation-IsSoundRecord :
    (estimate : ℕ) (id : Text) (r : RuntimeQuotaRecord)
    → estimate < 9223372036854775808
    → text_eqb id [] ≡ false
    → IsSoundRecord r
    → IsSoundRecord (with_reservation (pos estimate) id r)
with_reservation-IsSoundRecord estimate id r lt given s = record {
  version = s.version;
  spent_given = s.spent_given;
  spent = s.spent;
  reservations =
      ((given, micros-format_int estimate lt), delete_amount-IsSound id (entries r) s.reservations);
}

-- How much of the budget is in use after an update.
pub used-with_reservation :
    (estimate : ℕ) (id : Text) (r : RuntimeQuotaRecord)
    → estimate < 9223372036854775808
    → used (with_reservation (pos estimate) id r) ≤ used r + estimate
unfolding total
used-with_reservation estimate id r lt = omega (
  arith,
  micros_lem (format_int (pos estimate)) estimate (parse_int-format_int estimate lt),
  total-delete_amount id (entries r),
)

-- A reservation is granted only on a record whose budget is a number.
pub admit-IsMicros :
    (estimate : ℤ) (id : Text) (r r' : RuntimeQuotaRecord)
    → admit estimate id r ≡ ok r'
    → IsMicros r.budget_micros (micros r.budget_micros)
unfolding admit
admit-IsMicros estimate id r r' e =
    let (limit, parsed, _) =
      bind-ok_inv (parse_non_negative_micros r.budget_micros (text "budget_micros"))
        (λ limit. parse_non_negative_micros r.spent_micros (text "spent_micros") >>= λ spent.
          sum_reserved (pos 0) (entries r) >>= λ reserved.
          within_limit limit spent estimate (with_reservation estimate id r) reserved)
        r' e in
    (parse_non_negative_micros-IsMicros r.budget_micros (text "budget_micros") limit parsed).1

pub admit-ok :
    (estimate : ℕ) (id : Text) (r r' : RuntimeQuotaRecord)
    → IsSoundRecord r
    → admit (pos estimate) id r ≡ ok r'
    → IsMicros r.budget_micros (micros r.budget_micros)
      × (used r + estimate ≤ micros r.budget_micros)
      × (r' ≡ with_reservation (pos estimate) id r)
admit-ok estimate id r r' s e =
    let b = admit-IsMicros (pos estimate) id r r' e in
    let (fits, made) = admitted (admit (pos estimate) id r) (admit_lem estimate id r s b) e in
    (b, fits, made)
  where
    admitted :
        (c : Result RuntimeQuotaRecord)
        → Verdict
            (micros r.budget_micros)
            (used r)
            estimate
            (with_reservation (pos estimate) id r)
            c
        → c ≡ ok r'
        → (used r + estimate ≤ micros r.budget_micros) × (r' ≡ with_reservation (pos estimate) id r)
    admitted c (inl (granted, fits)) e =
        (fits, ok_inj r' (with_reservation (pos estimate) id r) (sym e ∙ granted))
    admitted c (inr (refused, _)) e = absurd (false≢true (sym refused ∙ ap is_ok e))

ok-is_ok {ℓ} : {A : Type ℓ} (c : Result A) → is_ok c ≡ true → (a : A) × (c ≡ ok a)
ok-is_ok (ok a) h = (a, refl)
ok-is_ok (err e) h = absurd (false≢true h)

admit-Same :
    (estimate : ℕ) (id : Text) (r r' : RuntimeQuotaRecord)
    → Same r r'
    → IsSoundRecord r
    → IsSoundRecord r'
    → is_ok (admit (pos estimate) id r) ≡ true
    → is_ok (admit (pos estimate) id r') ≡ true
admit-Same estimate id r r' same s s' h =
    let (r1, e) = ok-is_ok (admit (pos estimate) id r) h in
    let (b, fits, _) = admit-ok estimate id r r1 s e in
    granted (admit (pos estimate) id r')
      (admit_lem estimate id r' s' (subst (λ raw. IsMicros raw (micros raw)) same.budget b))
      (omega (arith, fits, used-Same r r' same, ap micros same.budget))
  where
    granted :
        (c : Result RuntimeQuotaRecord)
        → Verdict
            (micros r'.budget_micros)
            (used r')
            estimate
            (with_reservation (pos estimate) id r')
            c
        → used r' + estimate ≤ micros r'.budget_micros
        → is_ok c ≡ true
    granted c (inl (e, _)) fits = ap is_ok e
    granted c (inr (_, over)) fits = absurd (omega (arith, over, fits))

-- On two sound records that differ in the order of their reservations only, the update function of
-- Reserve succeeds for the same estimates: the order in which range meets the map does not matter.
pub admit_any_order :
    (estimate : ℕ) (id : Text) (r r' : RuntimeQuotaRecord)
    → Same r r'
    → IsSoundRecord r
    → (is_ok (admit (pos estimate) id r) ≡ true) ↔ (is_ok (admit (pos estimate) id r') ≡ true)
admit_any_order estimate id r r' same s = (
  admit-Same estimate id r r' same s (IsSoundRecord-Same r r' same s),
  admit-Same estimate id r' r (Same-sym r r' same) (IsSoundRecord-Same r r' same s) s,
)
