-- ===== src/Errors.antt =====
-- errors.go, and the context and result values that every operation of the program passes round.
pub mod Checks
use Prim.Native.String.{String}
use text.Mathlib.Text.{◌==◌ as str_eq}
use cost.Prelude.{ℕ, ℤ, ◌≡◌, refl, Bool, true, false, ◌==◌, if◌then◌else◌, Option, none, some, List}
use cost.Text.{Text}

-- The package's error variables.
pub data Sentinel : Type 0 where
  err_nil_context err_budget_exceeded err_validation : Sentinel
  err_invalid_estimate err_invalid_cost err_reservation_not_found : Sentinel

abbrev sentinel_code : Sentinel → ℕ
sentinel_code err_nil_context = 0
sentinel_code err_budget_exceeded = 1
sentinel_code err_validation = 2
sentinel_code err_invalid_estimate = 3
sentinel_code err_invalid_cost = 4
sentinel_code err_reservation_not_found = 5

-- What ctx.Err() may return.
pub data CtxError : Type 0 where
  canceled deadline_exceeded : CtxError

-- A context.Context argument: nil, or a context with what its Err() returns at the call.
pub data Context : Type 0 where
  nil_context : Context
  context : Option CtxError → Context

-- An operand that a format prints.
pub data Arg : Type 0 where
  num : ℤ → Arg
  txt : Text → Arg

-- Error values. `errorf` is fmt.Errorf with a `%w` verb: its format, its other operands and the error
-- that it wraps. `message` is errors.New, or fmt.Errorf with no `%w`.
pub data Error : Type 0 where
  sentinel : Sentinel → Error
  ctx_error : CtxError → Error
  validation : (field : String) → (value : ℤ) → Error
  message : (format : String) → (args : List Arg) → Error
  errorf : (format : String) → (args : List Arg) → Error → Error

-- ValidationError.Unwrap
unfoldable pub unwrap : String → Sentinel
unwrap field =
    if str_eq field "estimate_micros"
    then err_invalid_estimate
    else if str_eq field "cost_micros"
    then err_invalid_cost
    else err_validation

-- errors.Is(err, target) for the sentinels.
unfoldable pub is : Error → Sentinel → Bool
unfolding unwrap
is (sentinel s) t = sentinel_code s == sentinel_code t
is (ctx_error _) t = false
is (validation field _) t = sentinel_code (unwrap field) == sentinel_code t
is (message _ _) t = false
is (errorf _ _ e) t = is e t

pub data Result {ℓ} (A : Type ℓ) : Type ℓ where
  ok : A → Result A
  err : Error → Result A

abbrev pub is_ok {ℓ} : {A : Type ℓ} → Result A → Bool
is_ok (ok _) = true
is_ok (err _) = false

-- `if ctx == nil { return ErrNilContext }` and `if err := ctx.Err(); err != nil { return err }`, the
-- two guards that every operation begins with.
abbrev pub context_error : Context → Option Error
context_error nil_context = some (sentinel err_nil_context)
context_error (context none) = none
context_error (context (some e)) = some (ctx_error e)

abbrev pub background : Context
background = context none

-- `if err := …; err != nil { return err }` before the rest of a method on the state `s`.
abbrev pub checked {ℓ κ} :
    {A : Type ℓ} {S : Type κ} → Option Error → S → Result A × S → Result A × S
checked (some e) s rest = (err e, s)
checked none s rest = rest

-- A property of both ways on from a check.
pub checked-elim {ℓ κ μ} :
    {A : Type ℓ} {S : Type κ} (P : Result A × S → Type μ) (o : Option Error) (s : S)
    {rest : Result A × S}
    → ((e : Error) → o ≡ some e → P (err e, s))
    → (o ≡ none → P rest)
    → P (checked o s rest)
checked-elim P (some e) s f g = f e refl
checked-elim P none s f g = g refl
