-- ===== src/Ledger/Tests.antt =====
-- Reserve, Record and Entries at concrete ledgers.
use cost.Prelude.{
  ◌≡◌, refl, ◌↔◌, ◌⊎◌, inr, pos, ◌+ℤ◌, ◌-ℤ◌, ◌≤ℤ◌, true, if◌then◌else◌, none, some, List, [], ◌∷◌,
  length, drop, ◌-◌, arith,
}
use cost.Text.{text}
use cost.Int64.{add64, sub64, wrap, to_bits, of_bits}
use cost.Errors.{
  context, canceled, background, context_error, errorf, sentinel, num, err_budget_exceeded,
  err_invalid_estimate, is, is_ok, ok,
}
use cost.Currency.{usd, eur}
use cost.Event.{Event}
use cost.Ledger.{
  Ledger, Interference, new_ledger, empty_event, reserve, complete, append_entry, record_event,
  entries_snapshot, audit_ring_capacity,
}
use cost.Ledger.Admission.{Fits, IsEstimate, reserve-Fits_iff, reserve_refusal, reserve_progress}
use cost.Ledger.Contention.{Outcome, reserve-Outcome}
use cost.Ledger.Audit.{
  IsRecordable, RecordCall, record_event_lem, record_all, accepted, entries_snapshot-record_all,
}

abbrev ledger : Ledger
ledger = record {
  currency = usd;
  limit_micros = pos 100;
  used_micros = pos 40;
  spent_micros = pos 40;
  head = 0;
  entries = λ _. empty_event;
}

-- Another goroutine takes 20 more before the first swap.
abbrev contended : List Interference
contended = record { found = pos 60; interrupted = none } ∷ []

lost_swap_retried : (reserve background (pos 30) contended ledger).1.used_micros ≡ pos 90
unfolding reserve add64 sub64 wrap to_bits of_bits ◌+ℤ◌ ◌-ℤ◌
lost_swap_retried = refl

reserve-Outcome_example :
    Outcome background ledger (pos 30) contended (reserve background (pos 30) contended ledger)
reserve-Outcome_example =
    reserve-Outcome background (pos 30) contended ledger (omega arith) (omega arith)

reserve-Fits_iff_example :
    (is_ok (reserve background (pos 60) [] ledger).0 ≡ true)
    ↔ (IsEstimate (pos 60) × (pos 0 ≤ℤ pos 40) × Fits (pos 100) (pos 40) (pos 60))
reserve-Fits_iff_example = reserve-Fits_iff (pos 60) ledger (omega arith) (omega arith)

-- One micro-unit too much is refused.
reserve_refusal_example :
    let e =
      errorf "%w: used=%d estimate=%d limit=%d"
        (num (pos 40) ∷ num (pos 61) ∷ num (pos 100) ∷ [])
        (sentinel err_budget_exceeded) in
    ((reserve background (pos 61) [] ledger).1 ≡ ledger)
    × ((context_error background ≡ some e)
        ⊎ (¬ IsEstimate (pos 61)) × (is e err_invalid_estimate ≡ true)
        ⊎ IsEstimate (pos 61)
          × (¬ ((pos 0 ≤ℤ pos 40) × Fits (pos 100) (pos 40) (pos 61)))
          × (is e err_budget_exceeded ≡ true))
unfolding reserve add64 sub64 wrap to_bits of_bits ◌+ℤ◌ ◌-ℤ◌
reserve_refusal_example =
    reserve_refusal background (pos 61) ledger (omega arith) (omega arith) refl

reserve_progress_example : is_ok (reserve background (pos 30) contended ledger).0 ≡ true
unfolding ◌+ℤ◌
reserve_progress_example =
    reserve_progress (pos 30) contended ledger (omega arith) (omega arith)
      (
        omega arith,
        omega arith,
        (omega arith, inr (omega arith)),
        (omega arith, omega arith, (omega arith, inr (omega arith)), tt),
      )
      (refl, tt)

abbrev purchase : Event
purchase = record empty_event { id = text "request-123"; cost_micros = pos 8 }

record_event_lem_example :
    let (r, l') = record_event background 5 purchase ledger in
    ((r ≡ ok tt) ↔ ((context_error background ≡ none) × IsRecordable usd purchase))
    × (l' ≡ (if is_ok r then append_entry (complete 5 usd purchase) ledger else ledger))
    × (l'.used_micros ≡ pos 40)
    × (l'.spent_micros ≡ pos 40)
    × (l'.limit_micros ≡ pos 100)
record_event_lem_example = record_event_lem background 5 purchase ledger

-- A free event, a foreign one and a canceled call leave nothing.
abbrev record_calls : List RecordCall
record_calls =
    record { ctx = background; now = 5; event = purchase }
    ∷ record { ctx = background; now = 6; event = empty_event }
    ∷ record { ctx = background; now = 7; event = record purchase { currency = eur } }
    ∷ record { ctx = context (some canceled); now = 8; event = purchase }
    ∷ record { ctx = background; now = 9; event = record purchase { currency = usd } }
    ∷ []

record_calls_kept :
    entries_snapshot (record_all record_calls (new_ledger (pos 100) usd))
    ≡ record purchase { currency = usd; timestamp = 5 }
      ∷ record purchase { currency = usd; timestamp = 9 }
      ∷ []
unfolding entries_snapshot record_all record_event new_ledger
record_calls_kept = refl

entries_snapshot-record_all_example :
    let events = accepted usd record_calls in
    entries_snapshot (record_all record_calls (new_ledger (pos 100) usd))
    ≡ drop (length events - audit_ring_capacity) events
entries_snapshot-record_all_example =
    entries_snapshot-record_all (pos 100) usd record_calls (omega arith)
