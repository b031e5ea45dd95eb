-- ===== src/Postgres/Recording.antt =====
-- Record of adapters/postgres/ledger.go and the unique index on event ids.
use cost.Prelude.{◌≡◌, true, arith, ap, ◌∙◌}
use cost.Text.{text_eqb_refl}
use cost.Errors.{background, ok}
use cost.Currency.{currency_eqb_iff, empty_currency}
use cost.Event.{Event}
use cost.Ledger.Audit.{IsRecordable}
use cost.Sql.{CommitOutcome, committed}
use cost.Postgres.Tables.{Database, has_entry}
use cost.Postgres.{Ledger, insert_entry, executed, record_event}

-- A recordable event on a connected ledger gets as far as the INSERT.
record_event-insert :
    (l : Ledger) (outcome : CommitOutcome) (event : Event) (t : Database)
    → l.connected ≡ true
    → IsRecordable l.currency event
    → record_event background l outcome event t ≡ executed outcome t (insert_entry l event t)
unfolding record_event
record_event-insert l outcome event t c h = ground (
  arith,
  currency_eqb_iff event.currency empty_currency,
  currency_eqb_iff event.currency l.currency,
  currency_eqb_iff l.currency l.currency,
)

has_entry-insert_entry :
    (l : Ledger) (event : Event) (t : Database)
    → has_entry l.scope event.id (insert_entry l event t).entries ≡ true
unfolding insert_entry has_entry
has_entry-insert_entry l event t = ground (arith, text_eqb_refl l.scope, text_eqb_refl event.id)

insert_entry_kept :
    (l : Ledger) (event : Event) (t : Database)
    → has_entry l.scope event.id t.entries ≡ true
    → insert_entry l event t ≡ t
unfolding insert_entry
insert_entry_kept l event t h = rw h

-- On a connected ledger and under a live context: once a Record of a recordable event has been
-- committed, an entry has its id, and a Record of any recordable event with the same id, the empty
-- id included, reports success and writes nothing.
pub record_event_once :
    (l : Ledger) (first second : Event) (t : Database)
    → l.connected ≡ true
    → IsRecordable l.currency first
    → IsRecordable l.currency second
    → second.id ≡ first.id
    → let t' = (record_event background l committed first t).1 in
      (has_entry l.scope first.id t'.entries ≡ true)
      × (record_event background l committed second t' ≡ (ok tt, t'))
record_event_once l first second t c h1 h2 same =
    let t' = insert_entry l first t in
    let there : has_entry l.scope first.id t'.entries ≡ true = has_entry-insert_entry l first t in
    let kept : insert_entry l second t' ≡ t' = insert_entry_kept l second t' (rw same there) in
    rw (record_event-insert l committed first t c h1) (
      there,
      record_event-insert l committed second t' c h2
          ∙ ap (λ (d : Database). executed committed t' d) kept,
    )
