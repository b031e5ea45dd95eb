-- ===== src/Ledger.antt =====
-- ledger.go: the in-process ledger. The atomics and the ring are fields of one record, and each
-- method takes the ledger and returns it as the call leaves it. What other goroutines do to
-- `usedMicros` between a Load and the CompareAndSwap after it is an argument of Reserve.
pub mod Admission
pub mod Contention
pub mod Ring
pub mod Audit
mod Tests
use cost.Prelude.{
  ℕ, zero, suc, ◌+◌, ◌-◌, ◌%◌, ℤ, pos, ◌&&◌, not, Bool, true, false, ◌==◌, ltb_ℤ, leb_ℤ, eqb_ℤ,
  if◌then◌else◌, Option, none, some, List, [], ◌∷◌, min,
}
use cost.Int64.{max_int64, half_max_int64, add64, sub64}
use cost.Errors.{
  CtxError, Context, context, context_error, Error, sentinel, validation, message, errorf, num, txt,
  err_budget_exceeded, Result, ok, err, checked,
}
use cost.Currency.{Currency, currency_eqb, empty_currency, to_string}
use cost.Event.{Event}

-- auditRingCapacity
abbrev pub audit_ring_capacity : ℕ
audit_ring_capacity = 1024

-- type Ledger. The array `entries` is read and written at indices below the capacity only.
pub record Ledger : Type 0 where
  pub currency : Currency
  pub limit_micros : ℤ
  pub used_micros : ℤ
  pub spent_micros : ℤ
  pub head : ℕ
  pub entries : ℕ → Event

-- Event{}
abbrev pub empty_event : Event
empty_event = record {
  id = [];
  domain = [];
  operation = [];
  cost_micros = pos 0;
  currency = empty_currency;
  timestamp = 0;
}

-- NewLedger
unfoldable pub new_ledger : ℤ → Currency → Ledger
new_ledger limit currency = record {
  currency = currency;
  limit_micros = limit;
  used_micros = pos 0;
  spent_micros = pos 0;
  head = 0;
  entries = λ _. empty_event;
}

-- type localReservation, but for its pointer to the ledger.
pub record LocalReservation : Type 0 where
  pub reserved : ℤ
  pub done : Bool

-- What happens around one CompareAndSwap of a contended round: the value that other goroutines have
-- left in usedMicros, and what ctx.Err() returns if the swap fails.
pub record Interference : Type 0 where
  pub found : ℤ
  pub interrupted : Option CtxError

-- The range test on an estimate, which Reserve of every backend makes.
abbrev pub invalid_estimate : ℤ → Bool
invalid_estimate estimate = if ltb_ℤ estimate (pos 0) then true else ltb_ℤ half_max_int64 estimate

-- The two budget tests of a round, on the loaded value.
unfoldable pub budget_error : (limit used estimate : ℤ) → Option Error
budget_error limit used estimate =
    if ltb_ℤ (sub64 max_int64 used) estimate
    then some (
        errorf "%w: overflow prevented used=%d estimate=%d" (num used ∷ num estimate ∷ [])
          (sentinel err_budget_exceeded))
    else if leb_ℤ (pos 0) limit && ltb_ℤ (sub64 limit estimate) used
    then some (
        errorf "%w: used=%d estimate=%d limit=%d" (num used ∷ num estimate ∷ num limit ∷ [])
          (sentinel err_budget_exceeded))
    else none

-- A reservation handed out at an estimate.
abbrev pub fresh : ℤ → LocalReservation
fresh estimate = record { reserved = estimate; done = false }

-- The loop of Reserve, a round for each element of the list and a last one in which nobody
-- interferes.
unfoldable pub reserve_loop : ℤ → List Interference → Ledger → Result LocalReservation × Ledger
unfolding budget_error
reserve_loop estimate [] l =
    checked (budget_error l.limit_micros l.used_micros estimate) l
      (ok (fresh estimate), record l { used_micros = add64 l.used_micros estimate })
reserve_loop estimate (i ∷ rounds) l =
    let found = record l { used_micros = i.found } in
    let rest = reserve_loop estimate rounds found in
    checked (budget_error l.limit_micros l.used_micros estimate) l (
      if eqb_ℤ i.found l.used_micros
      then (ok (fresh estimate), record l { used_micros = add64 l.used_micros estimate })
      else checked (context_error (context i.interrupted)) found rest)

-- (*Ledger).Reserve
unfoldable pub reserve : Context → ℤ → List Interference → Ledger → Result LocalReservation × Ledger
unfolding reserve_loop
reserve ctx estimate rounds l =
    let loop = reserve_loop estimate rounds l in
    checked (context_error ctx) l
      (if invalid_estimate estimate then (err (validation "estimate_micros" estimate), l) else loop)

-- `l.entries[i] = event`
abbrev pub update : (ℕ → Event) → ℕ → Event → ℕ → Event
update f i event j = if i == j then event else f j

-- The section of Record under the lock. `head` is a uint64.
unfoldable pub append_entry : Event → Ledger → Ledger
append_entry event l = record l {
  entries = update l.entries (l.head % audit_ring_capacity) event;
  head = (l.head + 1) % 18446744073709551616;
}

-- The event as Record stores it: a missing currency and a missing timestamp are filled in.
unfoldable pub complete : (now : ℕ) → Currency → Event → Event
complete now currency event = record event {
  currency = if currency_eqb event.currency empty_currency then currency else event.currency;
  timestamp = if event.timestamp == 0 then now else event.timestamp;
}

-- (*Ledger).Record; `now` is time.Now().UTC().
unfoldable pub record_event : Context → (now : ℕ) → Event → Ledger → Result (Unit {0}) × Ledger
unfolding complete append_entry to_string
record_event ctx now event l =
    let completed = complete now l.currency event in
    checked (context_error ctx) l (
      if leb_ℤ event.cost_micros (pos 0)
      then (err (validation "cost_micros" event.cost_micros), l)
      else if not (currency_eqb completed.currency l.currency)
      then (
        err (
            message "cost: currency mismatch: event=%s ledger=%s"
              (txt (to_string completed.currency) ∷ txt (to_string l.currency) ∷ [])),
        l,
      )
      else (ok tt, append_entry completed l))

-- The loop of Entries: `n` slots from `start` on.
unfoldable pub copy_entries : (ℕ → Event) → (start n : ℕ) → List Event
copy_entries f start zero = []
copy_entries f start (suc n) =
    f (start % audit_ring_capacity) ∷ copy_entries f ((start + 1) % 18446744073709551616) n

-- (*Ledger).Entries
unfoldable pub entries_snapshot : Ledger → List Event
unfolding copy_entries
entries_snapshot l =
    let count = min l.head audit_ring_capacity in copy_entries l.entries (l.head - count) count
