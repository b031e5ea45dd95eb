-- ===== src/Redis.antt =====
-- adapters/redis/ledger.go: the ledger whose operations are Lua scripts, each one atomic step of the
-- server. Lua computes in doubles: `lua` gives the number that a script makes of an integer.
pub mod Keys
pub mod Rows
pub mod Accounts
pub mod Limit
pub mod Settlement
pub mod Zero
mod Tests
use Prim.Native.String.{String}
use cost.Prelude.{
  ℕ, ◌+◌, ◌*◌, ◌/◌, ℤ, pos, pos_part, ◌+ℤ◌, ◌-ℤ◌, ltb_ℤ, leb_ℤ, eqb_ℤ, ltb, Bool, true, false, not,
  ◌&&◌, if◌then◌else◌, Option, none, some, List, [], ◌∷◌, ◌++◌,
}
use cost.Text.{Text, text}
use cost.Errors.{
  Context, context_error, Error, sentinel, validation, message, errorf, txt, err_budget_exceeded,
  err_reservation_not_found, Result, ok, err, checked,
}
use cost.Currency.{Currency, currency_eqb, empty_currency}
use cost.Event.{Event}
use cost.Ledger.{invalid_estimate}
use cost.Reservation.{clamp}
use cost.Sql.{fits_int64}
use Keys.{Amount, Keyspace, get_amount, del_amount, zrem, zadd, zrange, get_spent, set_spent}

-- type Config, and type Ledger with the same fields; `connected` is Client != nil, and the keys are
-- fixed by the prefix. Durations are in nanoseconds.
pub record Ledger : Type 0 where
  pub connected : Bool
  pub prefix : Text
  pub limit_micros : ℤ
  pub currency : Currency
  pub ttl : ℤ

-- New
unfoldable pub new : Ledger → Ledger
new config = record config {
  ttl = if ltb_ℤ config.ttl (pos 1000000000) then pos 30000000000 else config.ttl;
}

-- `max(int64(l.ttl/time.Second), 1)`
abbrev pub ttl_seconds : Ledger → ℕ
ttl_seconds l = let s = pos_part l.ttl / 1000000000 in if ltb s 1 then 1 else s

-- What a script returns: a number, or redis.error_reply.
pub data Reply : Type 0 where
  number_reply : ℤ → Reply
  budget_exceeded reservation_not_found : Reply

-- How running a script ends for the client: with its reply, or with an error, and then the script
-- may have run or not; the client does not run it again by itself.
pub data Delivery : Type 0 where
  delivered : Delivery
  undelivered : Error → (ran : Bool) → Delivery

module _ (lua : ℤ → ℤ) where
  -- tonumber(redis.call('GET', …) or '0')
  abbrev pub to_number : Option ℤ → ℤ
  to_number none = lua (pos 0)
  to_number (some v) = lua v

  -- The loop over `expired`: what is used, and the keys.
  unfoldable pub reclaim_each : (clock : ℕ) → List Text → ℤ → Keyspace → ℤ × Keyspace
  reclaim_each clock [] used k = (used, k)
  reclaim_each clock (id ∷ expired) used k =
      let value = to_number (get_amount clock id k.amounts) in
      let left = record k { amounts = del_amount id k.amounts; expiry = zrem id k.expiry } in
      reclaim_each clock expired (if ltb_ℤ (pos 0) value then lua (used -ℤ value) else used) left

  -- The first part of every script.
  unfoldable pub reclaim : (clock : ℕ) → Keyspace → ℤ × Keyspace
  reclaim clock k = reclaim_each clock (zrange 100 (clock / 1000) k.expiry) (to_number k.used) k

  -- The rest of reserveScript.
  unfoldable pub grant :
      (limit estimate : ℤ) (id : Text) (ttl clock : ℕ) → ℤ × Keyspace → Reply × Keyspace
  grant limit estimate id ttl clock (used, k) =
      let sum = lua (used +ℤ lua estimate) in
      if leb_ℤ (pos 0) (lua limit) && ltb_ℤ (lua limit) sum
      then (budget_exceeded, record k { used = some used })
      else (
        number_reply sum,
        record k {
          used = some sum;
          amounts =
              record { id = id; value = lua estimate; dies_at = clock + (ttl + 86400) * 1000 }
              ∷ del_amount id k.amounts;
          expiry = zadd (clock / 1000 + ttl) id k.expiry;
        },
      )

  -- reserveScript
  unfoldable pub reserve_script :
      (limit estimate : ℤ) (id : Text) (ttl clock : ℕ) → Keyspace → Reply × Keyspace
  reserve_script limit estimate id ttl clock k = grant limit estimate id ttl clock (reclaim clock k)

  -- The rest of terminalScript and releaseScript, with what they make of the used and the reserved
  -- number.
  unfoldable pub close :
      (change : (used reserved : ℤ) → ℤ) (id : Text) (clock : ℕ) → ℤ × Keyspace → Reply × Keyspace
  close change id clock (used, k) =
      let reserved = to_number (get_amount clock id k.amounts) in
      let new_used = change used reserved in
      if eqb_ℤ reserved (pos 0) then (reservation_not_found, record k { used = some used }) else (
        number_reply new_used,
        record k {
          used = some new_used;
          amounts = del_amount id k.amounts;
          expiry = zrem id k.expiry;
        },
      )

  -- terminalScript
  unfoldable pub terminal_script :
      (id : Text) (actual : ℤ) (clock : ℕ) → Keyspace → Reply × Keyspace
  terminal_script id actual clock k =
      close (λ used reserved. lua (lua (used +ℤ lua actual) -ℤ reserved)) id clock (reclaim clock k)

  -- releaseScript
  unfoldable pub release_script : (id : Text) (clock : ℕ) → Keyspace → Reply × Keyspace
  release_script id clock k =
      close (λ used reserved. lua (used -ℤ reserved)) id clock (reclaim clock k)

-- Script.Run(…).Err() and the tests on its prefix; `k` is the keyspace before the script.
abbrev pub delivery :
    String → Delivery → (k : Keyspace) → Reply × Keyspace → Result (Unit {0}) × Keyspace
delivery format delivered k (number_reply _, k') = (ok tt, k')
delivery format delivered k (budget_exceeded, k') =
    (err (errorf "%w: %w" (txt (text "BUDGET_EXCEEDED") ∷ []) (sentinel err_budget_exceeded)), k')
delivery format delivered k (reservation_not_found, k') = (
  err (
      errorf "%w: %w" (txt (text "RESERVATION_NOT_FOUND") ∷ [])
        (sentinel err_reservation_not_found)),
  k',
)
delivery format (undelivered e ran) k (_, k') = (err (errorf format [] e), if ran then k' else k)

-- type reservation, but for its ledger, which the methods take, and its mutex.
pub record Reservation : Type 0 where
  pub id : Text
  pub done : Bool

abbrev pub handed : Text → Result (Unit {0}) × Keyspace → Result Reservation × Keyspace
handed id (ok _, k) = (ok (record { id = id; done = false }), k)
handed id (err e, k) = (err e, k)

abbrev pub nil_client : Error
nil_client = message "redis: nil client" []

-- (*Ledger).Reserve, once the estimate is valid; `new_id` is the id it makes, or the error of
-- rand.Read.
unfoldable pub reserve_with :
    (ℤ → ℤ)
    → Ledger
    → Result Text
    → (clock : ℕ) → Delivery
    → ℤ
    → Keyspace
    → Result Reservation × Keyspace
reserve_with lua l (err e) clock d estimate k = (err (errorf "redis: reservation id: %w" [] e), k)
reserve_with lua l (ok id) clock d estimate k = handed id (
    delivery "redis: reserve: %w" d k
      (reserve_script lua l.limit_micros estimate id (ttl_seconds l) clock k))

-- (*Ledger).Reserve
unfoldable pub reserve :
    (ℤ → ℤ)
    → Context
    → Ledger
    → Result Text
    → (clock : ℕ) → Delivery
    → ℤ
    → Keyspace
    → Result Reservation × Keyspace
reserve lua ctx l new_id clock d estimate k =
    let rest = reserve_with lua l new_id clock d estimate k in
    checked (context_error ctx) k (
      if not l.connected
      then (err nil_client, k)
      else if invalid_estimate estimate
      then (err (validation "estimate_micros" estimate), k)
      else rest)

-- `r.done = true` after a script that reported success.
abbrev pub mark_done :
    Reservation → Result (Unit {0}) × Keyspace → Result (Unit {0}) × (Reservation × Keyspace)
mark_done r (ok _, k) = (ok tt, (record r { done = true }, k))
mark_done r (err e, k) = (err e, (r, k))

-- (*reservation).Commit
unfoldable pub commit :
    (ℤ → ℤ)
    → Context
    → (clock : ℕ) → Delivery
    → ℤ
    → Reservation
    → Keyspace
    → Result (Unit {0}) × (Reservation × Keyspace)
commit lua ctx clock d actual r k =
    let settled =
      delivery "redis: commit: %w" d k (terminal_script lua r.id (clamp actual) clock k) in
    checked (context_error ctx) (r, k) (if r.done then (ok tt, (r, k)) else mark_done r settled)

-- (*reservation).Release
unfoldable pub release :
    (ℤ → ℤ)
    → Context
    → (clock : ℕ) → Delivery
    → Reservation
    → Keyspace
    → Result (Unit {0}) × (Reservation × Keyspace)
release lua ctx clock d r k =
    let settled = delivery "redis: release: %w" d k (release_script lua r.id clock k) in
    checked (context_error ctx) (r, k) (if r.done then (ok tt, (r, k)) else mark_done r settled)

-- fmt.Sprintf("%s:spent:%s:%s", l.prefix, event.Domain, event.Operation)
abbrev pub spent_key : Ledger → Event → Text
spent_key l event = l.prefix ++ text ":spent:" ++ event.domain ++ text ":" ++ event.operation

abbrev increment_overflow : Error
increment_overflow = message "ERR increment or decrement would overflow" []

-- IncrBy(…).Err()
abbrev pub increment : Delivery → Text → ℤ → Keyspace → Result (Unit {0}) × Keyspace
increment d key cost k =
    let sum = get_spent key k.spent +ℤ cost in
    let k' = record k { spent = set_spent key sum k.spent } in
    elim d [
      | delivered ↦ (if fits_int64 sum then (ok tt, k') else (err increment_overflow, k))
      | undelivered e ran ↦ (err e, if ran && fits_int64 sum then k' else k)
    ]

-- (*Ledger).Record, on a ledger with a client: without one it panics.
unfoldable pub record_event :
    Context → Ledger → Delivery → Event → Keyspace → Result (Unit {0}) × Keyspace
record_event ctx l d event k =
    let currency =
      if currency_eqb event.currency empty_currency then l.currency else event.currency in
    checked (context_error ctx) k (
      if leb_ℤ event.cost_micros (pos 0)
      then (err (validation "cost_micros" event.cost_micros), k)
      else if not (currency_eqb currency l.currency)
      then (err (message "redis: currency mismatch" []), k)
      else increment d (spent_key l event) event.cost_micros k)
