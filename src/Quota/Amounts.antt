-- ===== src/Quota/Amounts.antt =====
-- The amounts of nexssflow/storage_backend.go: what a text and a map of texts stand for.
use mathlib.Core.List.{Permᴰ}
use cost.Prelude.{
  ℕ, ◌+◌, ◌≤◌, ◌<◌, ltb, ◌↔◌, Bool, ◌≡◌, refl, ap, sym, subst, ◌∙◌, ℤ, pos, pos_part, ◌-ℤ◌, not,
  ltb_ℤ, int_laws, none, some, [], ◌∷◌, if◌then◌else◌, true, false, arith, if-elim,
}
use cost.Int64.{add64, sub64, add64_exact, sub64_exact, max_int64}
use cost.Text.{Text, text, text_eqb}
use cost.Text.Decimal.{parse_int, parse_int-lt, format_int, parse_int-format_int}
use cost.Errors.{errorf, Result, ok, err}
use cost.Quota.Record.{
  ◌>>=◌, ◌>>◌, check, bind-ok_inv, check-ok_inv, Amounts, parse_non_negative_micros, check_amounts,
  sum_reserved, get_amount, delete_amount, policy_invalid,
}

-- The text is a number from 0 on that an int64 holds.
abbrev pub IsMicros : Text → ℕ → Type 0
IsMicros raw n = parse_int raw ≡ some (pos n)

-- The number that a text stands for, or 0.
abbrev pub micros : Text → ℕ
micros raw = elim (parse_int raw) [ none ↦ 0 | some n ↦ pos_part n ]

abbrev pub IsSoundEntry : Text × Text → Type 0
IsSoundEntry e = (text_eqb e.0 [] ≡ false) × IsMicros e.1 (micros e.1)

-- Every entry has an id and an amount.
abbrev pub IsSound : Amounts → Type 0
IsSound [] = Unit
IsSound (e ∷ m) = IsSoundEntry e × IsSound m

-- What a map of reservations holds.
unfoldable pub total : Amounts → ℕ
total [] = 0
total (e ∷ m) = micros e.1 + total m

pub parse_non_negative_micros-ok :
    (raw field : Text) (n : ℕ) → IsMicros raw n → parse_non_negative_micros raw field ≡ ok (pos n)
unfolding parse_non_negative_micros
parse_non_negative_micros-ok raw field n e = ground arith

pub parse_non_negative_micros-IsMicros :
    (raw field : Text) (v : ℤ)
    → parse_non_negative_micros raw field ≡ ok v
    → (v ≡ pos (micros raw)) × IsMicros raw (micros raw)
unfolding parse_non_negative_micros
parse_non_negative_micros-IsMicros raw field v e = ground arith

pub micros-lt : (raw : Text) (n : ℕ) → IsMicros raw n → micros raw < 9223372036854775808
micros-lt raw n e = ground (arith, parse_int-lt raw n e)

pub micros_lem : (raw : Text) (n : ℕ) → IsMicros raw n → micros raw ≡ n
micros_lem raw n e = ground arith

not-true : (b : Bool) → not b ≡ true → b ≡ false
not-true b h = ground arith

pub check_amounts-IsSound : (m : Amounts) → check_amounts m ≡ ok tt → IsSound m
unfolding check_amounts
check_amounts-IsSound [] e = tt
check_amounts-IsSound ((id, raw) ∷ m) e =
    let (u, named, e') =
      bind-ok_inv
        (check (not (text_eqb id [])) (errorf "%w: empty reservation ID" [] policy_invalid))
        (λ _. parse_non_negative_micros raw (text "reservation amount") >>= λ _. check_amounts m) tt
        e in
    let (v, parsed, rest) =
      bind-ok_inv (parse_non_negative_micros raw (text "reservation amount")) (λ _. check_amounts m)
        tt e' in
    (
      (
        not-true _ (
            check-ok_inv (not (text_eqb id []))
              (errorf "%w: empty reservation ID" [] policy_invalid) u named),
        (parse_non_negative_micros-IsMicros raw (text "reservation amount") v parsed).1,
      ),
      check_amounts-IsSound m rest,
    )

pub IsSound-check_amounts : (m : Amounts) → IsSound m → check_amounts m ≡ ok tt
unfolding check_amounts
IsSound-check_amounts [] h = refl
IsSound-check_amounts ((id, raw) ∷ m) ((named, valid), h) = ground (
  arith,
  parse_non_negative_micros-ok raw (text "reservation amount") (micros raw) valid,
  IsSound-check_amounts m h,
)

pub total-Permᴰ : (m m' : Amounts) → Permᴰ m m' → total m ≡ total m'
unfolding total
total-Permᴰ _ _ Permᴰ.nil = refl
total-Permᴰ (a ∷ m) (b ∷ m') (Permᴰ.cons e p) =
    omega (arith, ap (λ (x : Text × Text). micros x.1) e, total-Permᴰ m m' p)
total-Permᴰ (a ∷ b ∷ m) (a' ∷ b' ∷ _) (Permᴰ.swap e f) =
    omega (arith, ap (λ (x : Text × Text). micros x.1) e, ap (λ (x : Text × Text). micros x.1) f)
total-Permᴰ _ _ (Permᴰ.trans {l₂ = m} p q) = total-Permᴰ _ m p ∙ total-Permᴰ m _ q

pub IsSound-Permᴰ : (m m' : Amounts) → Permᴰ m m' → IsSound m → IsSound m'
IsSound-Permᴰ _ _ Permᴰ.nil h = h
IsSound-Permᴰ (a ∷ m) (b ∷ m') (Permᴰ.cons e p) (ha, h) =
    (subst IsSoundEntry e ha, IsSound-Permᴰ m m' p h)
IsSound-Permᴰ (a ∷ b ∷ m) (a' ∷ b' ∷ _) (Permᴰ.swap e f) (ha, (hb, h)) =
    (subst IsSoundEntry f hb, (subst IsSoundEntry e ha, h))
IsSound-Permᴰ _ _ (Permᴰ.trans {l₂ = m} p q) h = IsSound-Permᴰ m _ q (IsSound-Permᴰ _ m p h)

pub delete_amount-IsSound : (id : Text) (m : Amounts) → IsSound m → IsSound (delete_amount id m)
unfolding delete_amount
delete_amount-IsSound id [] h = tt
delete_amount-IsSound id ((key, raw) ∷ m) (he, h) =
    if-elim IsSound (text_eqb key id) (λ _. delete_amount-IsSound id m h)
      (λ _. (he, delete_amount-IsSound id m h))

pub total-delete_amount : (id : Text) (m : Amounts) → total (delete_amount id m) ≤ total m
unfolding delete_amount total
total-delete_amount id [] = omega arith
total-delete_amount id ((key, raw) ∷ m) = ground (arith, total-delete_amount id m)

-- Deleting an entry frees at least its amount.
pub total-delete_amount_hit :
    (id raw : Text) (m : Amounts)
    → get_amount id m ≡ some raw
    → total (delete_amount id m) + micros raw ≤ total m
unfolding delete_amount total get_amount
total-delete_amount_hit id raw [] e = ground arith
total-delete_amount_hit id raw ((key, held) ∷ m) e =
    ground (arith, total-delete_amount id m, total-delete_amount_hit id raw m)

pub add64_pos : (a b : ℕ) → a + b < 9223372036854775808 → add64 (pos a) (pos b) ≡ pos (a + b)
add64_pos a b h = add64_exact (pos a) (pos b) (grind int_laws) ∙ grind int_laws

pub sub64_pos :
    (a b : ℕ)
    → a < 9223372036854775808
    → b < 9223372036854775808
    → sub64 (pos a) (pos b) ≡ pos a -ℤ pos b
sub64_pos a b ha hb = sub64_exact (pos a) (pos b) (grind int_laws)

-- The overflow tests `b > math.MaxInt64-a`.
pub exceeds_iff :
    (a b : ℕ)
    → a < 9223372036854775808
    → (ltb_ℤ (sub64 max_int64 (pos a)) (pos b) ≡ true) ↔ (9223372036854775808 ≤ a + b)
exceeds_iff a b ha = rw (sub64_pos 9223372036854775807 a (omega arith) ha) (grind int_laws)

add_amount :
    (m : Amounts) (acc n : ℕ) (rest : Result ℤ)
    → acc < 9223372036854775808
    → n < 9223372036854775808
    → (acc + n < 9223372036854775808 → sum_reserved (pos (acc + n)) m ≡ rest)
    → (9223372036854775808 ≤ acc + n
        → err (errorf "%w: reserved amount overflows int64" [] policy_invalid) ≡ rest)
    → (check
          (not (ltb_ℤ (sub64 max_int64 (pos acc)) (pos n)))
          (errorf "%w: reserved amount overflows int64" [] policy_invalid)
        >> sum_reserved (add64 (pos acc) (pos n)) m)
      ≡ rest
add_amount m acc n rest ha hn small large =
    if-elim (λ c. (c >>= λ _. sum_reserved (add64 (pos acc) (pos n)) m) ≡ rest)
      (not (ltb_ℤ (sub64 max_int64 (pos acc)) (pos n)))
      (λ fits.
        ap (λ k. sum_reserved k m) (add64_pos acc n (ground (arith, exceeds_iff acc n ha)))
        ∙ small (ground (arith, exceeds_iff acc n ha)))
      (λ exceeds. large (ground (arith, exceeds_iff acc n ha)))

-- The sum of the loop, or its error if the sum leaves int64.
abbrev pub sum_or_overflow : ℕ → Result ℤ
sum_or_overflow n =
    if ltb n 9223372036854775808
    then ok (pos n)
    else err (errorf "%w: reserved amount overflows int64" [] policy_invalid)

assoc : (a b c : ℕ) → a + b + c ≡ a + (b + c)
assoc a b c = omega arith

overflows :
    (n : ℕ)
    → 9223372036854775808 ≤ n
    → err (errorf "%w: reserved amount overflows int64" [] policy_invalid) ≡ sum_or_overflow n
overflows n h = ground arith

-- The loop gives the sum, or an error if it leaves int64.
pub sum_reserved_lem :
    (m : Amounts) (acc : ℕ)
    → IsSound m
    → acc < 9223372036854775808
    → sum_reserved (pos acc) m ≡ sum_or_overflow (acc + total m)
unfolding sum_reserved total
sum_reserved_lem [] acc h lt = ground arith
sum_reserved_lem ((id, raw) ∷ m) acc ((_, valid), h) lt =
    rw (parse_non_negative_micros-ok raw (text "reservation amount") (micros raw) valid) (
      add_amount m acc (micros raw) _ lt (micros-lt raw (micros raw) valid)
        (λ fits.
          sum_reserved_lem m (acc + micros raw) h fits
          ∙ ap sum_or_overflow (assoc acc (micros raw) (total m)))
        (λ exceeds. overflows (acc + (micros raw + total m)) (omega arith)))

zero_left : (n : ℕ) → 0 + n ≡ n
zero_left n = omega arith

pub sum_reserved_all :
    (m : Amounts) → IsSound m → sum_reserved (pos 0) m ≡ sum_or_overflow (total m)
sum_reserved_all m h =
    sum_reserved_lem m 0 h (omega arith) ∙ ap sum_or_overflow (zero_left (total m))

pub micros-format_int :
    (n : ℕ) → n < 9223372036854775808 → IsMicros (format_int (pos n)) (micros (format_int (pos n)))
micros-format_int n h =
    parse_int-format_int n h
    ∙ ap (λ k. some (pos k)) (sym (micros_lem (format_int (pos n)) n (parse_int-format_int n h)))

pub micros-IsMicros : (raw : Text) (n : ℕ) → IsMicros raw n → IsMicros raw (micros raw)
micros-IsMicros raw n e = e ∙ ap (λ k. some (pos k)) (sym (micros_lem raw n e))
