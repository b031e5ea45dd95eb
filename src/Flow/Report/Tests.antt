-- ===== src/Flow/Report/Tests.antt =====
-- Tests of the reports.
use cost.Prelude.{◌≡◌, refl, ℤ, pos, some, ◌+ℤ◌, [], ◌∷◌, map}
use cost.Int64.{add64, wrap, of_bits, to_bits}
use cost.Text.{Text, text}
use cost.Errors.{background}
use cost.Currency.{usd}
use cost.Event.{Event}
use cost.Ledger.{Ledger, new_ledger, empty_event, record_event, entries_snapshot}
use cost.Flow.Report.{buckets_of, report_of, report_action}
use cost.Flow.Report.Tally.{tally, distinct_keys}
use cost.Flow.Report.Loop.{report_action_lem}

abbrev paid : (domain operation : Text) → ℤ → Event
paid domain operation amount = record empty_event {
  domain = domain;
  operation = operation;
  cost_micros = amount;
  timestamp = 1;
}

abbrev recorded_ledger : Ledger
recorded_ledger =
    let l1 =
      (record_event background 7 (paid (text "shop") (text "buy") (pos 30))
        (new_ledger (pos 100) usd)).1 in
    let l2 = (record_event background 8 (paid (text "shop") (text "ask") (pos 5)) l1).1 in
    (record_event background 9 (paid (text "shop") (text "buy") (pos 20)) l2).1

reported_buckets :
    buckets_of (entries_snapshot recorded_ledger)
    ≡ some (
        record { domain = text "shop"; operation = text "buy"; count = 2; spent_micros = pos 50 }
        ∷ record { domain = text "shop"; operation = text "ask"; count = 1; spent_micros = pos 5 }
        ∷ [])
unfolding buckets_of entries_snapshot record_event new_ledger add64 wrap of_bits to_bits ◌+ℤ◌
reported_buckets = refl

report_action_lem_example :
    report_action recorded_ledger
    ≡ some (
        report_of recorded_ledger (
          map
            (tally (entries_snapshot recorded_ledger))
            (distinct_keys (entries_snapshot recorded_ledger))))
report_action_lem_example = report_action_lem recorded_ledger
