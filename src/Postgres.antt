-- ===== src/Postgres.antt =====
-- adapters/postgres/ledger.go: the transactional ledger. Row locks (FOR UPDATE, and those of DELETE
-- and UPDATE) order the transactions on a scope, so each is one step on the tables.
pub mod Tables
pub mod Rows
pub mod Steps
pub mod Accounts
pub mod Limit
pub mod Settlement
pub mod Recording
pub mod Schema
pub mod Availability
mod Tests
use Prim.Native.String.{String}
use cost.Prelude.{
  ℕ, ◌+◌, ◌*◌, ◌/◌, ℤ, pos, pos_part, ◌+ℤ◌, ◌-ℤ◌, ltb_ℤ, leb_ℤ, ltb, Bool, true, false, not, ◌&&◌,
  if◌then◌else◌, Option, none, some, List, [], ◌∷◌, ◌++◌,
}
use cost.Int64.{add64, sub64}
use cost.Text.{Text, text, text_eqb}
use cost.Errors.{
  Context, context_error, Error, sentinel, validation, message, errorf, num, txt, err_nil_context,
  err_budget_exceeded, err_reservation_not_found, Result, ok, err, checked,
}
use cost.Currency.{Currency, currency_eqb, empty_currency, to_string}
use cost.Event.{Event}
use cost.Ledger.{invalid_estimate}
use cost.Reservation.{clamp}
use cost.Sql.{
  Tx, ◌>>=◌, ◌>>◌, pure, gets, modify, attempt, require, check, fits_int64, CommitOutcome,
  committed, commit_failed, Faults, Finish, transaction,
}
use Tables.{
  BudgetRow, ReservationRow, EntryRow, Database, find_budget, update_used, delete_expired,
  expired_sum, find_reservation, delete_reservation, has_entry, upsert_budget,
}

-- type Config, and type Ledger with the same fields; `connected` is DB != nil. Durations are in
-- nanoseconds.
pub record Ledger : Type 0 where
  pub connected : Bool
  pub scope : Text
  pub limit_micros : ℤ
  pub currency : Currency
  pub ttl : ℤ

-- New
unfoldable pub new : Ledger → Ledger
new config = record config {
  ttl = if ltb_ℤ config.ttl (pos 1000000000) then pos 30000000000 else config.ttl;
}

-- The statements of the methods.
pub data Statement : Type 0 where
  select_budget reclaim update_reclaimed insert_reservation update_budget : Statement
  delete_returning select_currency upsert : Statement

-- What a call meets: CURRENT_TIMESTAMP, the id that newID makes or its error, and the driver's
-- faults.
pub record Environment : Type 0 where
  pub now : ℕ
  pub new_id : Result Text
  pub faults : Faults Statement

abbrev no_rows : Error
no_rows = message "sql: no rows in result set" []

abbrev out_of_range : Error
out_of_range = message "bigint out of range" []

-- `l.ttl / time.Second`, at least 1, in microseconds.
abbrev pub lease : Ledger → ℕ
lease l = let s = pos_part l.ttl / 1000000000 in (if ltb s 1 then 1 else s) * 1000000

-- (*Ledger).loadBudgetAndReclaim: what is used after the reclaim, and the limit.
unfoldable pub load_budget_and_reclaim : Ledger → Environment → Tx Database (ℤ × ℤ)
load_budget_and_reclaim l env = do
  attempt "postgres: load budget: %w" (env.faults.statement_error select_budget)
  row ←
      λ t. require (find_budget l.scope t.budgets) (errorf "postgres: load budget: %w" [] no_rows) t
  check (text_eqb row.currency (to_string l.currency)) (
      message "postgres: currency mismatch: database=%s ledger=%s"
        (txt row.currency ∷ txt (to_string l.currency) ∷ []))
  attempt "postgres: reclaim: %w" (env.faults.statement_error reclaim)
  reclaimed ← gets (λ t. expired_sum l.scope env.now t.reservations)
  check (fits_int64 reclaimed) (errorf "postgres: reclaim: %w" [] out_of_range)
  modify (λ t. record t { reservations = delete_expired l.scope env.now t.reservations })
  let used = sub64 row.used_micros reclaimed
  if ltb_ℤ (pos 0) reclaimed
      then attempt "postgres: update reclaimed budget: %w"
          (env.faults.statement_error update_reclaimed)
        >> modify (λ t. record t { budgets = update_used l.scope (λ _. used) t.budgets })
        >> pure (used, row.limit_micros)
      else pure (row.used_micros, row.limit_micros)

-- type reservation, but for its ledger, which the methods take, and its mutex.
pub record Reservation : Type 0 where
  pub id : Text
  pub done : Bool

-- The part of Reserve after the budget test.
unfoldable pub hold :
    Ledger → Environment → Text → (estimate used : ℤ) → Tx Database (Finish Reservation)
hold l env id estimate used = do
  attempt "postgres: reserve row: %w" (env.faults.statement_error insert_reservation)
  known ← gets (λ t. find_reservation id t.reservations)
  check (elim known [ none ↦ true | some _ ↦ false ])
      (errorf "postgres: reserve row: %w" [] (message "duplicate key value" []))
  modify (λ t. record t {
    reservations =
        record {
          id = id;
          scope = l.scope;
          amount_micros = estimate;
          expires_at = env.now + lease l;
        }
        ∷ t.reservations;
  })
  attempt "postgres: update budget: %w" (env.faults.statement_error update_budget)
  modify (λ t. record t { budgets = update_used l.scope (λ _. add64 used estimate) t.budgets })
  pure (record {
    commit_format = "postgres: commit reserve: %w";
    result = ok (record { id = id; done = false });
  })

-- The budget test of Reserve and what follows it, on what is used and the limit. A refusal commits
-- too, so that what was reclaimed stays free.
unfoldable pub admit : Ledger → Environment → Text → ℤ → ℤ × ℤ → Tx Database (Finish Reservation)
admit l env id estimate (used, limit) =
    if leb_ℤ (pos 0) limit && ltb_ℤ (sub64 limit estimate) used
    then pure (record {
      commit_format = "postgres: commit reclaimed budget: %w";
      result = err (
          errorf "%w: used=%d estimate=%d limit=%d" (num used ∷ num estimate ∷ num limit ∷ [])
            (sentinel err_budget_exceeded));
    })
    else hold l env id estimate used

-- The body of Reserve's transaction.
unfoldable pub reserve_body : Ledger → Environment → Text → ℤ → Tx Database (Finish Reservation)
reserve_body l env id estimate = do
  budget ← load_budget_and_reclaim l env
  admit l env id estimate budget

abbrev pub nil_database : Error
nil_database = message "postgres: nil database" []

-- Reserve after the guards: an id, then the transaction.
unfoldable pub reserve_with : Ledger → Environment → ℤ → Result Text → Tx Database Reservation
reserve_with l env estimate (err e) t = (err (errorf "postgres: reservation id: %w" [] e), t)
reserve_with l env estimate (ok id) t =
    transaction env.faults "postgres: begin: %w" (reserve_body l env id estimate) t

-- (*Ledger).Reserve
unfoldable pub reserve : Context → Ledger → Environment → ℤ → Tx Database Reservation
reserve ctx l env estimate t =
    let rest = reserve_with l env estimate env.new_id t in
    checked (context_error ctx) t (
      if not l.connected
      then (err nil_database, t)
      else if invalid_estimate estimate
      then (err (validation "estimate_micros" estimate), t)
      else rest)

-- DELETE … RETURNING and the relative update of Commit and Release, with their formats; `change` is
-- computed from the amount.
unfoldable pub settle_body :
    Ledger
    → Environment
    → Text
    → (not_deleted not_updated not_committed : String) → (change : ℤ → ℤ)
    → Tx Database (Finish (Unit {0}))
settle_body l env id not_deleted not_updated not_committed change = do
  attempt not_deleted (env.faults.statement_error delete_returning)
  row ← λ t.
      require (find_reservation id t.reservations)
        (errorf "%w: %s" (txt id ∷ []) (sentinel err_reservation_not_found)) t
  modify (λ t. record t { reservations = delete_reservation id t.reservations })
  attempt not_updated (env.faults.statement_error update_budget)
  budget ← gets (λ t. find_budget l.scope t.budgets)
  check
      (elim budget [
        | none ↦ true
        | some b ↦ fits_int64 (b.used_micros +ℤ change row.amount_micros)
      ])
      (errorf not_updated [] out_of_range)
  modify (λ t. record t {
    budgets = update_used l.scope (λ used. used +ℤ change row.amount_micros) t.budgets;
  })
  pure (record { commit_format = not_committed; result = ok tt })

-- `r.done = true` after a transaction that reported success.
abbrev pub mark_done :
    Reservation → Result (Unit {0}) × Database → Result (Unit {0}) × (Reservation × Database)
mark_done r (ok _, t) = (ok tt, (record r { done = true }, t))
mark_done r (err e, t) = (err e, (r, t))

-- (*reservation).Commit
unfoldable pub commit :
    Context
    → Ledger
    → Environment
    → ℤ
    → Reservation
    → Database
    → Result (Unit {0}) × (Reservation × Database)
commit ctx l env actual r t =
    let settled =
      transaction env.faults "postgres: begin commit: %w"
        (settle_body l env r.id "postgres: commit reservation: %w" "postgres: commit budget: %w"
          "postgres: commit transaction: %w" (λ reserved. sub64 (clamp actual) reserved))
        t in
    checked (context_error ctx) (r, t) (if r.done then (ok tt, (r, t)) else mark_done r settled)

-- (*reservation).Release
unfoldable pub release :
    Context
    → Ledger
    → Environment
    → Reservation
    → Database
    → Result (Unit {0}) × (Reservation × Database)
release ctx l env r t =
    let settled =
      transaction env.faults "postgres: begin release: %w"
        (settle_body l env r.id "postgres: release reservation: %w" "postgres: release budget: %w"
          "postgres: release transaction: %w" (λ reserved. pos 0 -ℤ reserved))
        t in
    checked (context_error ctx) (r, t) (if r.done then (ok tt, (r, t)) else mark_done r settled)

-- INSERT INTO cost_entries … ON CONFLICT DO NOTHING; the id is the event's, empty or not.
unfoldable pub insert_entry : Ledger → Event → Database → Database
insert_entry l event t = if has_entry l.scope event.id t.entries then t else record t {
  entries =
      record {
        scope = l.scope;
        domain = event.domain;
        operation = event.operation;
        cost_micros = event.cost_micros;
        currency = to_string l.currency;
        event_id = some event.id;
      }
      ∷ t.entries;
}

-- The single statement of Record, and how it ends.
abbrev pub executed : CommitOutcome → (t t' : Database) → Result (Unit {0}) × Database
executed committed t t' = (ok tt, t')
executed (commit_failed e applied) t t' = (err e, if applied then t' else t)

-- (*Ledger).Record
unfoldable pub record_event : Context → Ledger → CommitOutcome → Event → Tx Database (Unit {0})
record_event ctx l outcome event t =
    let currency =
      if currency_eqb event.currency empty_currency then l.currency else event.currency in
    checked (context_error ctx) t (
      if not l.connected
      then (err nil_database, t)
      else if leb_ℤ event.cost_micros (pos 0)
      then (err (validation "cost_micros" event.cost_micros), t)
      else if not (currency_eqb currency l.currency)
      then (err (message "postgres: currency mismatch" []), t)
      else executed outcome t (insert_entry l event t))

-- The transaction of EnsureSchema.
unfoldable pub ensure_body : Ledger → Environment → Tx Database (Finish (Unit {0}))
ensure_body l env = do
  attempt "postgres: check existing currency: %w" (env.faults.statement_error select_currency)
  existing ← gets (λ t. find_budget l.scope t.budgets)
  check (elim existing [ none ↦ true | some b ↦ text_eqb b.currency (to_string l.currency) ])
      (message "postgres: currency mismatch for scope %s: database has %s, config has %s" (
        txt l.scope
        ∷ txt (elim existing [ none ↦ text "" | some b ↦ b.currency ])
        ∷ txt (to_string l.currency)
        ∷ []))
  attempt "postgres: upsert budget: %w" (env.faults.statement_error upsert)
  modify (λ t. record t {
    budgets = upsert_budget l.scope l.limit_micros (to_string l.currency) t.budgets;
  })
  pure (record { commit_format = "%w"; result = ok tt })

-- (*Ledger).EnsureSchema, on tables that exist; `created` is the error of running Schema. It tests
-- that the context is not nil, and leaves its Err() to the driver.
unfoldable pub ensure_schema : Bool → Ledger → Environment → Option Error → Tx Database (Unit {0})
ensure_schema no_context l env created t =
    let upserted =
      transaction env.faults "postgres: begin schema upsert: %w" (ensure_body l env) t in
    if no_context
    then (err (sentinel err_nil_context), t)
    else if not l.connected
    then (err nil_database, t)
    else elim created [ some e ↦ (err (errorf "postgres: schema: %w" [] e), t) | none ↦ upserted ]
