-- ===== src/Flow/Report.antt =====
-- nexssflow/report.go, and the snapshot and record actions of nexssflow/library.go.
pub mod Tally
pub mod Loop
mod Tests
use cost.Prelude.{
  ℕ, suc, ℤ, pos, negsuc, leb_ℤ, Bool, true, false, ◌&&◌, if◌then◌else◌, Option, none, some, List,
  [], ◌∷◌, ◌++◌,
}
use cost.Int64.{add64, sub64}
use cost.Text.{Text, text_eqb}
use cost.Errors.{Context, Result, ok, err}
use cost.Currency.{to_string}
use cost.Event.{Event}
use cost.Ledger.{Ledger, entries_snapshot, record_event}

-- type bucketKey
pub record BucketKey : Type 0 where
  pub domain : Text
  pub operation : Text

-- `==` on two keys
abbrev pub key_eqb : BucketKey → BucketKey → Bool
key_eqb j k = text_eqb j.domain k.domain && text_eqb j.operation k.operation

-- type ReportBucket. A ring of 1024 entries does not fill the int that counts them.
pub record ReportBucket : Type 0 where
  pub domain : Text
  pub operation : Text
  pub count : ℕ
  pub spent_micros : ℤ

-- type Report
pub record Report : Type 0 where
  pub limit_micros : ℤ
  pub used_micros : ℤ
  pub spent_micros : ℤ
  pub currency : Text
  pub buckets : List ReportBucket

-- bucketKey{e.Domain, e.Operation}
abbrev pub key_of : Event → BucketKey
key_of e = record { domain = e.domain; operation = e.operation }

-- The maps and slices of the loop: what `byKey` has under a key, and the keys in `order`.
pub record Buckets : Type 0 where
  pub by_key : BucketKey → Option ReportBucket
  pub order : List BucketKey

-- &ReportBucket{Domain: e.Domain, Operation: e.Operation}, where there is no bucket yet
abbrev pub bucket_for : Event → Option ReportBucket → ReportBucket
bucket_for e none = record {
  domain = e.domain;
  operation = e.operation;
  count = 0;
  spent_micros = pos 0;
}
bucket_for e (some b) = b

-- The two additions of a round
abbrev pub bumped : Event → ReportBucket → ReportBucket
bumped e b = record b { count = suc b.count; spent_micros = add64 b.spent_micros e.cost_micros }

-- `order` after a round
abbrev pub extended : BucketKey → Option ReportBucket → List BucketKey → List BucketKey
extended k none order = order ++ k ∷ []
extended k (some _) order = order

-- A round of the loop over the entries
abbrev pub add_entry : Event → Buckets → Buckets
add_entry e s =
    let k = key_of e in
    let found = s.by_key k in
    record {
      by_key = λ j. if key_eqb k j then some (bumped e (bucket_for e found)) else s.by_key j;
      order = extended k found s.order;
    }

unfoldable pub add_entries : List Event → Buckets → Buckets
add_entries [] s = s
add_entries (e ∷ es) s = add_entries es (add_entry e s)

-- append(buckets, *bucket)
abbrev pub appended : Option ReportBucket → Option (List ReportBucket) → Option (List ReportBucket)
appended (some b) (some bs) = some (b ∷ bs)
appended _ _ = none

-- The loop over `order`; none is the panic on a nil pointer.
unfoldable pub in_order :
    (BucketKey → Option ReportBucket) → List BucketKey → Option (List ReportBucket)
in_order by_key [] = some []
in_order by_key (k ∷ ks) = appended (by_key k) (in_order by_key ks)

abbrev pub no_buckets : Buckets
no_buckets = record { by_key = λ _. none; order = [] }

-- The buckets of a list of entries
unfoldable pub buckets_of : List Event → Option (List ReportBucket)
unfolding add_entries in_order
buckets_of es = let s = add_entries es no_buckets in in_order s.by_key s.order

-- Report{...}
abbrev pub report_of : Ledger → List ReportBucket → Report
report_of l buckets = record {
  limit_micros = l.limit_micros;
  used_micros = l.used_micros;
  spent_micros = l.spent_micros;
  currency = to_string l.currency;
  buckets = buckets;
}

-- reportAction
unfoldable pub report_action : Ledger → Option Report
unfolding buckets_of
report_action l = elim (buckets_of (entries_snapshot l)) [
  | none ↦ none
  | some buckets ↦ some (report_of l buckets)
]

-- type Snapshot
pub record Snapshot : Type 0 where
  pub limit_micros : ℤ
  pub remaining_micros : ℤ
  pub used_micros : ℤ
  pub spent_micros : ℤ
  pub currency : Text

-- snapshotAction
unfoldable pub snapshot_action : Ledger → Snapshot
snapshot_action l = record {
  limit_micros = l.limit_micros;
  remaining_micros =
      if leb_ℤ (pos 0) l.limit_micros then sub64 l.limit_micros l.used_micros else negsuc 0;
  used_micros = l.used_micros;
  spent_micros = l.spent_micros;
  currency = to_string l.currency;
}

-- type RecordResult
pub record RecordResult : Type 0 where
  pub recorded : Bool

-- recordAction
abbrev pub record_result : Result (Unit {0}) × Ledger → Result RecordResult × Ledger
record_result (ok _, l) = (ok (record { recorded = true }), l)
record_result (err e, l) = (err e, l)

unfoldable pub record_action : Context → (now : ℕ) → Event → Ledger → Result RecordResult × Ledger
record_action ctx now event l = record_result (record_event ctx now event l)
