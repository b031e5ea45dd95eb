-- ===== src/Flow/Report/Loop.antt =====
-- The loops of a report: each key of the entries has one bucket, at its first entry.
use mathlib.Core.List.{append_assoc, append-nil}
use cost.Prelude.{
  ◌≡◌, refl, sym, ap, ◌∙◌, inl, inr, true, if◌then◌else◌, Option, none, some, List, [], ◌∷◌, ◌++◌,
  map, Bool-cases, if-elim, arith,
}
use cost.Event.{Event}
use cost.Ledger.{Ledger, entries_snapshot}
use cost.Flow.Report.{
  BucketKey, key_eqb, key_of, ReportBucket, Buckets, bucket_for, bumped, extended, add_entry,
  add_entries, in_order, no_buckets, buckets_of, report_of, report_action,
}
use cost.Flow.Report.Tally.{
  has_event, tally, without, distinct_keys, key_eqb-eq, key_eqb_refl, after, after-none,
}

by_key-add_entry :
    (k : BucketKey) (e : Event) (s : Buckets)
    → (add_entry e s).by_key k
      ≡ (if key_eqb (key_of e) k then some (bumped e (bucket_for e (s.by_key k))) else s.by_key k)
by_key-add_entry k e s = elim (Bool-cases (key_eqb (key_of e) k)) [
  | inl same ↦
      rw same (ap (λ j. some (bumped e (bucket_for e (s.by_key j)))) (key_eqb-eq (key_of e) k same))
  | inr other ↦ rw other refl
]

-- What the loop has under a key at its end.
by_key-add_entries :
    (k : BucketKey) (es : List Event) (s : Buckets)
    → (add_entries es s).by_key k ≡ after k (s.by_key k) es
unfolding add_entries after
by_key-add_entries k [] s = refl
by_key-add_entries k (e ∷ es) s =
    by_key-add_entries k es (add_entry e s) ∙ ap (λ o. after k o es) (by_key-add_entry k e s)

abbrev kept : BucketKey → Option ReportBucket → List BucketKey → List BucketKey
kept k none ks = k ∷ ks
kept k (some _) ks = ks

-- The keys that the loop has not met yet.
unfoldable unknown : (BucketKey → Option ReportBucket) → List BucketKey → List BucketKey
unknown by_key [] = []
unknown by_key (k ∷ ks) = kept k (by_key k) (unknown by_key ks)

unknown-add_entry :
    (e : Event) (s : Buckets) (ks : List BucketKey)
    → unknown (add_entry e s).by_key ks ≡ unknown s.by_key (without (key_of e) ks)
unfolding unknown without
unknown-add_entry e s [] = refl
unknown-add_entry e s (k ∷ ks) = elim (Bool-cases (key_eqb (key_of e) k)) [
  | inl same ↦ rw same (unknown-add_entry e s ks)
  | inr other ↦ rw other (ap (kept k (s.by_key k)) (unknown-add_entry e s ks))
]

unknown-none : (ks : List BucketKey) → unknown (λ _. none) ks ≡ ks
unfolding unknown
unknown-none [] = refl
unknown-none (k ∷ ks) = ap (λ js. k ∷ js) (unknown-none ks)

extended-append :
    (k : BucketKey) (o : Option ReportBucket) (js ks : List BucketKey)
    → extended k o js ++ ks ≡ js ++ kept k o ks
extended-append k none js ks = append_assoc js (k ∷ []) ks
extended-append k (some _) js ks = refl

order-add_entries :
    (es : List Event) (s : Buckets)
    → (add_entries es s).order ≡ s.order ++ unknown s.by_key (distinct_keys es)
unfolding add_entries unknown distinct_keys
order-add_entries [] s = sym (append-nil s.order)
order-add_entries (e ∷ es) s =
    let k = key_of e in
    order-add_entries es (add_entry e s)
    ∙ ap (λ ks. extended k (s.by_key k) s.order ++ ks) (unknown-add_entry e s (distinct_keys es))
    ∙ extended-append k (s.by_key k) s.order (unknown s.by_key (without k (distinct_keys es)))

Covers : List Event → List BucketKey → Type 0
Covers es [] = Unit {0}
Covers es (k ∷ ks) = (has_event k es ≡ true) × Covers es ks

Covers-cons :
    (e : Event) (es : List Event) (ks : List BucketKey) → Covers es ks → Covers (e ∷ es) ks
unfolding Covers has_event
Covers-cons e es [] h = tt
Covers-cons e es (k ∷ ks) (here, rest) = (ground (arith, here), Covers-cons e es ks rest)

Covers-without :
    (j : BucketKey) (es : List Event) (ks : List BucketKey)
    → Covers es ks
    → Covers es (without j ks)
unfolding Covers without
Covers-without j es [] h = tt
Covers-without j es (k ∷ ks) (here, rest) =
    if-elim (Covers es) (key_eqb j k) (λ _. Covers-without j es ks rest)
      (λ _. (here, Covers-without j es ks rest))

distinct_keys-Covers : (es : List Event) → Covers es (distinct_keys es)
unfolding Covers distinct_keys has_event
distinct_keys-Covers [] = tt
distinct_keys-Covers (e ∷ es) = (
  rw (key_eqb_refl (key_of e)) refl,
  Covers-cons e es (without (key_of e) (distinct_keys es))
      (Covers-without (key_of e) es (distinct_keys es) (distinct_keys-Covers es)),
)

in_order-Covers :
    (by_key : BucketKey → Option ReportBucket) (es : List Event) (ks : List BucketKey)
    → ((k : BucketKey) → by_key k ≡ (if has_event k es then some (tally es k) else none))
    → Covers es ks
    → in_order by_key ks ≡ some (map (tally es) ks)
unfolding in_order Covers
in_order-Covers by_key es [] known h = refl
in_order-Covers by_key es (k ∷ ks) known (here, rest) =
    let found : by_key k ≡ some (tally es k) =
      known k ∙ ap (λ b. if b then some (tally es k) else none) here in
    rw (found, in_order-Covers by_key es ks known rest) refl

-- The buckets of the loop are one for each key, with its count and sum.
buckets_of_lem : (es : List Event) → buckets_of es ≡ some (map (tally es) (distinct_keys es))
unfolding buckets_of
buckets_of_lem es =
    ap (in_order (add_entries es no_buckets).by_key)
      (order-add_entries es no_buckets ∙ unknown-none (distinct_keys es))
    ∙ in_order-Covers (add_entries es no_buckets).by_key es (distinct_keys es)
        (λ k. by_key-add_entries k es no_buckets ∙ after-none k es) (distinct_keys-Covers es)

-- The report of a ledger has its counters, and one bucket for each pair of a domain and an
-- operation of its entries, in the order of their first entries, with the number of the entries of
-- the pair and the sum of their costs, truncated to int64; no pointer of its map is nil.
pub report_action_lem :
    (l : Ledger)
    → report_action l
      ≡ some (report_of l (map (tally (entries_snapshot l)) (distinct_keys (entries_snapshot l))))
unfolding report_action
report_action_lem l =
    ap (λ o. elim o [ none ↦ none | some buckets ↦ some (report_of l buckets) ])
      (buckets_of_lem (entries_snapshot l))
