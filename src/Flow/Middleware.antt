-- ===== src/Flow/Middleware.antt =====
-- The quota middleware of nexssflow/postgres.go and nexssflow/storage_backend.go: a reservation round
-- an action, and what its caller gets back.
pub mod Storage
pub mod Budget
pub mod Keeping
pub mod Postgres
pub mod Wallets
pub mod Charges
pub mod Requests
mod Tests
use Prim.Native.String.{String}
use cost.Prelude.{
  ℕ, ℤ, pos, ltb_ℤ, Bool, true, false, if◌then◌else◌, Option, none, some, List, [], ◌∷◌, ◌++◌,
}
use cost.Text.{Text, text}
use cost.Errors.{
  Context, background, Error, Arg, message, errorf, is, err_budget_exceeded, Result, ok, err,
}
use cost.Currency.{Currency}
use cost.Flow.Value.{
  Value, nil_value, boolean, string_value, any_map, text_map, Entries, set_entry, as_entries,
}
use cost.Flow.Reserver.{Reserver, finish_reservation, actual_cost, action_event}

-- setQuotaState on the object
abbrev pub with_quota_state : (reserved : Bool) → (state : Text) → Entries → Value
with_quota_state reserved state object = any_map (
    set_entry (text "quota_state") (string_value state)
      (set_entry (text "quota_reserved") (boolean reserved) object))

-- setQuotaState
unfoldable pub set_quota_state : Value → (reserved : Bool) → (state : Text) → Result Value
set_quota_state (any_map object) reserved state = ok (with_quota_state reserved state object)
set_quota_state (text_map object) reserved state =
    ok (with_quota_state reserved state (as_entries object))
set_quota_state _ reserved state =
    err (message "cost: durable accounting target must return an object, got %T" [])

-- How the wrapped action ends. A result comes with its CostMicros() if it is a cost.Reporter.
pub data ActionEnd : Type 0 where
  action_panicked : ActionEnd
  action_failed : (output : Value) → Error → ActionEnd
  action_returned : (output : Value) → (reported : Option ℤ) → ActionEnd

-- What the caller of the middleware gets: an output with the errors that errors.Join puts together (none
-- of them for a nil error), or the panic of the action.
pub data Reply : Type 0 where
  replied : (output : Value) → List Error → Reply
  repanicked : Reply

abbrev pub reply_of : Result Value → Reply
reply_of (ok v) = replied v []
reply_of (err e) = replied nil_value (e ∷ [])

-- The texts in which the two middlewares differ; `in_commit` is the state that is reported where
-- the commit has written the usage too.
pub record Style : Type 0 where
  pub reserve_format : String
  pub release_format : String
  pub settle_format : String
  pub record_format : String
  pub operands : List Arg
  pub denied : Text
  pub done : Text
  pub in_commit : Option Text
  pub currency : Currency

module _ {S H : Type 0} (ledger : Reserver S H) (style : Style) where
  abbrev joined : List Error → Result (Unit {0}) → List Error
  joined errors (ok _) = errors
  joined errors (err e) = errors ++ errorf style.release_format style.operands e ∷ []

  -- The deferred function where the reservation is not settled: an error of the release joins those
  -- of the reply.
  unfoldable pub released : Value → List Error → H → S → Reply × S
  unfolding finish_reservation
  released output errors h s =
      let (result, (h', s')) = finish_reservation ledger false (pos 0) h s in
      (replied output (joined errors result), s')

  -- What follows a Record.
  abbrev pub recorded : Value → Result (Unit {0}) × S → Reply × S
  recorded output (ok _, s) = (reply_of (set_quota_state output true style.done), s)
  recorded output (err e, s) = (replied nil_value (errorf style.record_format [] e ∷ []), s)

  -- What follows a commit of more than 0.
  abbrev pub paid :
      (now : ℕ) → (name : Text) → Value → (actual : ℤ) → (in_commit : Option Text) → S → Reply × S
  paid now name output actual (some state) s = (reply_of (set_quota_state output true state), s)
  paid now name output actual none s = recorded output (
      ledger.record_event background now
        (record (action_event name actual) { currency = style.currency }) s)

  -- The rest of the middleware after a commit of `actual`.
  abbrev pub committed :
      (now : ℕ) → (name : Text) → Value → (actual : ℤ) → Result (Unit {0}) × (H × S) → Reply × S
  committed now name output actual (err e, (h, s)) =
      released nil_value (errorf style.settle_format style.operands e ∷ []) h s
  committed now name output actual (ok _, (h, s)) =
      if ltb_ℤ (pos 0) actual
      then paid now name output actual style.in_commit s
      else (reply_of (set_quota_state output true style.done), s)

  -- The middleware once it has its reservation.
  unfoldable pub with_reservation :
      (now : ℕ) → (name : Text) → (estimate : ℤ) → ActionEnd → H → S → Reply × S
  unfolding released finish_reservation
  with_reservation now name estimate action_panicked h s =
      (repanicked, (finish_reservation ledger false (pos 0) h s).1.1)
  with_reservation now name estimate (action_failed output e) h s = released output (e ∷ []) h s
  with_reservation now name estimate (action_returned output reported) h s =
      let actual = actual_cost estimate reported in
      committed now name output actual (finish_reservation ledger true actual h s)

  -- What follows a Reserve.
  abbrev pub answered :
      (now : ℕ) → (name : Text) → Value → (estimate : ℤ) → ActionEnd → Result H × S → Reply × S
  answered now name input estimate action (ok h, s) = with_reservation now name estimate action h s
  answered now name input estimate action (err e, s) =
      if is e err_budget_exceeded
      then (reply_of (set_quota_state input false style.denied), s)
      else (replied nil_value (errorf style.reserve_format style.operands e ∷ []), s)

  -- The middleware from the Reserve on.
  unfoldable pub guarded_action :
      Context → (now : ℕ) → (name : Text) → Value → (estimate : ℤ) → ActionEnd → S → Reply × S
  unfolding with_reservation
  guarded_action ctx now name input estimate action s =
      answered now name input estimate action (ledger.reserve ctx estimate s)
