-- ===== src/Ledger/Audit.antt =====
-- Record of ledger.go: what it accepts, what it leaves alone, and what Entries shows after any
-- sequence of calls.
use cost.Prelude.{
  ℕ, ◌+◌, ◌-◌, ◌<◌, ◌≡◌, refl, ◌↔◌, ℤ, pos, ◌<ℤ◌, ◌&&◌, ◌||◌, ltb_ℤ, Bool, true, false,
  if◌then◌else◌, none, some, List, [], ◌∷◌, ◌++◌, length, drop, length-append, arith, ◌⊎◌, inl, inr,
  Bool-cases,
}
use mathlib.Core.List.{append_assoc, append-nil}
use cost.Errors.{Context, context_error, is_ok, ok}
use cost.Currency.{Currency, currency_eqb, currency_eqb_iff, empty_currency}
use cost.Event.{Event}
use cost.Ledger.{
  Ledger, audit_ring_capacity, new_ledger, append_entry, complete, record_event, entries_snapshot,
}
use cost.Ledger.Ring.{Holds, append_entry-Holds, entries_snapshot-Holds}

-- An event that a ledger of this currency takes: a positive cost, and its currency or none.
abbrev pub IsRecordable : Currency → Event → Type 0
IsRecordable currency event =
    (pos 0 <ℤ event.cost_micros) × ((event.currency ≡ empty_currency) ⊎ (event.currency ≡ currency))

-- Record succeeds exactly on a recordable event under a live context; then it appends the
-- completed event, and otherwise it changes nothing. The reservation counters and the limit stay
-- as they are on every path.
pub record_event_lem :
    (ctx : Context) (now : ℕ) (event : Event) (l : Ledger)
    → let (r, l') = record_event ctx now event l in
      ((r ≡ ok tt) ↔ ((context_error ctx ≡ none) × IsRecordable l.currency event))
      × (l' ≡ (if is_ok r then append_entry (complete now l.currency event) l else l))
      × (l'.used_micros ≡ l.used_micros)
      × (l'.spent_micros ≡ l.spent_micros)
      × (l'.limit_micros ≡ l.limit_micros)
unfolding record_event
record_event_lem ctx now event l = ground (
  arith,
  currency_eqb_iff event.currency empty_currency,
  currency_eqb_iff event.currency l.currency,
)

-- A call of Record.
pub record RecordCall : Type 0 where
  pub ctx : Context
  pub now : ℕ
  pub event : Event

unfoldable pub record_all : List RecordCall → Ledger → Ledger
record_all [] l = l
record_all (c ∷ calls) l = record_all calls (record_event c.ctx c.now c.event l).1

-- The events that the calls leave behind, by the rule and not by the code: live context, positive
-- cost, matching or missing currency.
abbrev recordable : Currency → RecordCall → Bool
recordable currency c =
    elim (context_error c.ctx) [ none ↦ true | some _ ↦ false ]
    && (ltb_ℤ (pos 0) c.event.cost_micros
        && (currency_eqb c.event.currency empty_currency || currency_eqb c.event.currency currency))

unfoldable pub accepted : Currency → List RecordCall → List Event
accepted currency [] = []
accepted currency (c ∷ calls) =
    if recordable currency c
    then complete c.now currency c.event ∷ accepted currency calls
    else accepted currency calls

record_event-recordable :
    (c : RecordCall) (l : Ledger)
    → (record_event c.ctx c.now c.event l).1
      ≡ (if recordable l.currency c then append_entry (complete c.now l.currency c.event) l else l)
unfolding record_event
record_event-recordable c l = ground (
  arith,
  currency_eqb_iff c.event.currency empty_currency,
  currency_eqb_iff c.event.currency l.currency,
)

record_all-Holds :
    (calls : List RecordCall) (history : List Event) (l : Ledger)
    → Holds history l
    → length history + length calls < 18446744073709551616
    → Holds (history ++ accepted l.currency calls) (record_all calls l)
unfolding record_all accepted append_entry
record_all-Holds [] history l h room = rw append-nil h
record_all-Holds (c ∷ calls) history l h room = elim (Bool-cases (recordable l.currency c)) [
  | inl taken ↦
      let event = complete c.now l.currency c.event in
      let ih : Holds ((history ++ event ∷ []) ++ accepted l.currency calls)
          (record_all calls (append_entry event l)) =
        record_all-Holds calls (history ++ event ∷ []) (append_entry event l)
          (append_entry-Holds event history l h (omega arith))
          (omega (arith, length-append history (event ∷ []))) in
      rw (record_event-recordable c l, taken) (rw append_assoc at ih)
  | inr refused ↦
      rw (record_event-recordable c l, refused) (record_all-Holds calls history l h (omega arith))
]

-- After any sequence of Record calls on a new ledger, fewer than 2^64, Entries returns the last
-- 1024 accepted events, completed, oldest first.
pub entries_snapshot-record_all :
    (limit : ℤ) (currency : Currency) (calls : List RecordCall)
    → length calls < 18446744073709551616
    → let events = accepted currency calls in
      entries_snapshot (record_all calls (new_ledger limit currency))
      ≡ drop (length events - audit_ring_capacity) events
unfolding new_ledger
entries_snapshot-record_all limit currency calls room =
    entries_snapshot-Holds (accepted currency calls) _ (
      record_all-Holds calls [] (new_ledger limit currency)
        (record { counted = refl; small = omega arith; kept = λ i e h. ground arith })
        (omega arith))
