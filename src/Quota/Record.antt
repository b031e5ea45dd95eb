-- ===== src/Quota/Record.antt =====
-- nexssflow/storage_backend.go: runtimeQuotaRecord, what is read from the store as one, and the
-- amounts in it.
use cost.Prelude.{ℤ, pos, ltb_ℤ, eqb_ℤ, not, ◌||◌, if◌then◌else◌, Option, none, some, List, [], ◌∷◌}
use cost.Int64.{max_int64, add64, sub64}
use cost.Text.{Text, text, text_eqb}
use cost.Text.Decimal.{parse_int, format_int}
pub use cost.Errors.Checks.{
  ◌>>=◌, ◌>>◌, check, require, require-ok_inv, ok_inj, bind-ok_inv, check-ok_inv,
}
use cost.Errors.{
  Error, message, errorf, txt, num, sentinel, err_budget_exceeded, err_reservation_not_found,
  Result, ok, err,
}

-- A map[string]string, as its entries in the order in which `range` meets them.
abbrev pub Amounts : Type 0
Amounts = List (Text × Text)

-- type runtimeQuotaRecord; `none` is the nil map.
pub record RuntimeQuotaRecord : Type 0 where
  pub version : ℤ
  pub budget_micros : Text
  pub spent_micros : Text
  pub reservations : Option Amounts

-- What reads the map as if a nil map were empty.
abbrev pub entries : RuntimeQuotaRecord → Amounts
entries r = elim r.reservations [ none ↦ [] | some m ↦ m ]

-- m[id]
unfoldable pub get_amount : Text → Amounts → Option Text
get_amount id [] = none
get_amount id ((key, raw) ∷ m) =
    let rest = get_amount id m in if text_eqb key id then some raw else rest

-- delete(m, id)
unfoldable pub delete_amount : Text → Amounts → Amounts
delete_amount id [] = []
delete_amount id ((key, raw) ∷ m) =
    let rest = delete_amount id m in if text_eqb key id then rest else (key, raw) ∷ rest

-- m[id] = raw
abbrev pub set_amount : Text → Text → Amounts → Amounts
set_amount id raw m = (id, raw) ∷ delete_amount id m

-- newRuntimeQuotaRecord
abbrev pub new_record : RuntimeQuotaRecord
new_record = record {
  version = pos 1;
  budget_micros = [];
  spent_micros = text "0";
  reservations = some [];
}

-- errRuntimePolicyMissing and errRuntimePolicyInvalid
abbrev pub policy_missing : Error
policy_missing = message "cost: runtime tenant budget policy is missing" []

abbrev pub policy_invalid : Error
policy_invalid = message "cost: runtime tenant budget policy is invalid" []

-- parseNonNegativeMicros
unfoldable pub parse_non_negative_micros : Text → Text → Result ℤ
parse_non_negative_micros raw field =
    let invalid =
      errorf "%w: %s must be a non-negative decimal integer in micros" (txt field ∷ [])
        policy_invalid in
    elim (parse_int raw) [
      | none ↦ err invalid
      | some n ↦ if ltb_ℤ n (pos 0) then err invalid else ok n
    ]

-- The loop of decodeRuntimeQuotaRecord over the reservations.
unfoldable pub check_amounts : Amounts → Result (Unit {0})
check_amounts [] = ok tt
check_amounts ((id, raw) ∷ m) =
    let rest = check_amounts m in
    check (not (text_eqb id [])) (errorf "%w: empty reservation ID" [] policy_invalid)
    >> (parse_non_negative_micros raw (text "reservation amount") >>= λ _. rest)

-- What json.Marshal and json.Unmarshal make of a stored value.
pub data Reencoded : Type 0 where
  marshal_failed unmarshal_failed : Error → Reencoded
  reencoded : RuntimeQuotaRecord → Reencoded

-- `if record.SpentMicros == "" { record.SpentMicros = "0" }`
abbrev pub spent_or_zero : RuntimeQuotaRecord → Text
spent_or_zero r = if text_eqb r.spent_micros [] then text "0" else r.spent_micros

-- The record that decodeRuntimeQuotaRecord returns.
abbrev pub completed : RuntimeQuotaRecord → RuntimeQuotaRecord
completed r = record {
  version = pos 1;
  budget_micros = r.budget_micros;
  spent_micros = spent_or_zero r;
  reservations = some (entries r);
}

abbrev pub unsupported_version : RuntimeQuotaRecord → Error
unsupported_version r =
    errorf "%w: unsupported record version %d" (num r.version ∷ []) policy_invalid

-- decodeRuntimeQuotaRecord from its version test on
unfoldable pub decode_fields : RuntimeQuotaRecord → Result RuntimeQuotaRecord
decode_fields r =
    check (eqb_ℤ r.version (pos 0) || eqb_ℤ r.version (pos 1)) (unsupported_version r)
    >> (parse_non_negative_micros (spent_or_zero r) (text "spent_micros") >>= λ _.
        check_amounts (entries r) >> ok (completed r))

-- decodeRuntimeQuotaRecord
unfoldable pub decode_record : Reencoded → Result RuntimeQuotaRecord
decode_record (marshal_failed e) =
    err (errorf "cost: runtime tenant budget policy is invalid: encode stored record: %w" [] e)
decode_record (unmarshal_failed e) =
    err (errorf "cost: runtime tenant budget policy is invalid: decode stored record: %w" [] e)
decode_record (reencoded r) = decode_fields r

-- The loop of Reserve that adds the reserved amounts up.
unfoldable pub sum_reserved : (reserved : ℤ) → Amounts → Result ℤ
sum_reserved reserved [] = ok reserved
sum_reserved reserved ((_, raw) ∷ m) =
    parse_non_negative_micros raw (text "reservation amount") >>= λ amount.
    let rest = sum_reserved (add64 reserved amount) m in
    check (not (ltb_ℤ (sub64 max_int64 reserved) amount))
      (errorf "%w: reserved amount overflows int64" [] policy_invalid)
    >> rest

-- The update function of SetRuntimeBudget on a decoded record.
abbrev pub with_budget : ℤ → RuntimeQuotaRecord → RuntimeQuotaRecord
with_budget limit r = record r { budget_micros = format_int limit }

-- The tests of Reserve on the amounts, and the record with the reservation.
abbrev pub within_limit :
    (limit spent estimate : ℤ)
    → (admitted : RuntimeQuotaRecord) → (reserved : ℤ) → Result RuntimeQuotaRecord
within_limit limit spent estimate admitted reserved = do
  check
      (not (
        ltb_ℤ (sub64 max_int64 reserved) spent
        || ltb_ℤ (sub64 max_int64 (add64 spent reserved)) estimate))
      (errorf "%w: usage amount overflows int64" [] policy_invalid)
  check (not (ltb_ℤ (sub64 limit (add64 spent reserved)) estimate)) (
      errorf "%w: spent=%d reserved=%d estimate=%d limit=%d"
        (num spent ∷ num reserved ∷ num estimate ∷ num limit ∷ []) (sentinel err_budget_exceeded))
  ok admitted

-- `record.Reservations[id] = strconv.FormatInt(estimate, 10)`
abbrev pub with_reservation : (estimate : ℤ) → (id : Text) → RuntimeQuotaRecord → RuntimeQuotaRecord
with_reservation estimate id r = record r {
  reservations = some (set_amount id (format_int estimate) (entries r));
}

-- The update function of Reserve on a decoded record.
unfoldable pub admit : (estimate : ℤ) → (id : Text) → RuntimeQuotaRecord → Result RuntimeQuotaRecord
admit estimate id r = do
  limit ← parse_non_negative_micros r.budget_micros (text "budget_micros")
  spent ← parse_non_negative_micros r.spent_micros (text "spent_micros")
  reserved ← sum_reserved (pos 0) (entries r)
  within_limit limit spent estimate (with_reservation estimate id r) reserved

abbrev pub reservation_not_found : Text → Error
reservation_not_found id = errorf "%w: %s" (txt id ∷ []) (sentinel err_reservation_not_found)

-- `record.SpentMicros = strconv.FormatInt(spent+actual, 10)` after `delete(record.Reservations, id)`
abbrev pub with_spent : (id : Text) → (spent : ℤ) → RuntimeQuotaRecord → RuntimeQuotaRecord
with_spent id spent r = record r {
  spent_micros = format_int spent;
  reservations = some (delete_amount id (entries r));
}

-- The tests of Commit on the amounts, and the record after it.
abbrev pub add_spent :
    (actual : ℤ) → (id raw : Text) → RuntimeQuotaRecord → (spent : ℤ) → Result RuntimeQuotaRecord
add_spent actual id raw r spent =
    check (not (ltb_ℤ (sub64 max_int64 spent) actual))
      (errorf "%w: committed usage overflows int64" [] policy_invalid)
    >> (parse_non_negative_micros raw (text "reservation amount") >>= λ _.
        ok (with_spent id (add64 spent actual) r))

-- The update function of Commit on a decoded record.
unfoldable pub charge : (actual : ℤ) → (id : Text) → RuntimeQuotaRecord → Result RuntimeQuotaRecord
charge actual id r = do
  raw ← require (get_amount id (entries r)) (reservation_not_found id)
  spent ← parse_non_negative_micros r.spent_micros (text "spent_micros")
  add_spent actual id raw r spent

-- The update function of Release on a decoded record.
unfoldable pub drop_reservation : (id : Text) → RuntimeQuotaRecord → Result RuntimeQuotaRecord
drop_reservation id r = require (get_amount id (entries r)) (reservation_not_found id) >>= λ _.
    ok (record r { reservations = some (delete_amount id (entries r)) })
