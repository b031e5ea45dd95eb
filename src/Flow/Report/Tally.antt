-- ===== src/Flow/Report/Tally.antt =====
-- The buckets of a report against a count and a sum for each key.
use cost.Prelude.{
  ℕ, suc, ◌+◌, ◌≡◌, refl, sym, ap, ◌∙◌, inl, inr, ℤ, pos, ◌+ℤ◌, Bool, true, false, ◌||◌,
  if◌then◌else◌, Option, none, some, List, [], ◌∷◌, Bool-cases, +ℤ_zero, zero_+ℤ, +ℤ_assoc, arith,
}
use cost.Int64.{wrap, add64, wrap-add64_left}
use cost.Text.{text_eqb_iff, text_eqb_refl}
use cost.Event.{Event}
use cost.Flow.Report.{BucketKey, key_eqb, key_of, ReportBucket, bucket_for, bumped}

-- The number of entries under a key, and the exact sum of their costs.
unfoldable pub count_under : BucketKey → List Event → ℕ
count_under k [] = 0
count_under k (e ∷ es) = (if key_eqb (key_of e) k then 1 else 0) + count_under k es

unfoldable pub cost_under : BucketKey → List Event → ℤ
cost_under k [] = pos 0
cost_under k (e ∷ es) = (if key_eqb (key_of e) k then e.cost_micros else pos 0) +ℤ cost_under k es

unfoldable pub has_event : BucketKey → List Event → Bool
has_event k [] = false
has_event k (e ∷ es) = key_eqb (key_of e) k || has_event k es

-- What a report has to say of a key.
abbrev bucket_with : BucketKey → ℕ → ℤ → ReportBucket
bucket_with k n spent = record {
  domain = k.domain;
  operation = k.operation;
  count = n;
  spent_micros = spent;
}

abbrev pub bucket : BucketKey → ℕ → ℤ → ReportBucket
bucket k n total = bucket_with k n (wrap total)

abbrev pub tally : List Event → BucketKey → ReportBucket
tally es k = bucket k (count_under k es) (cost_under k es)

unfoldable pub without : BucketKey → List BucketKey → List BucketKey
without k [] = []
without k (j ∷ js) = if key_eqb k j then without k js else j ∷ without k js

-- Each key of the entries once, in the order of their first entries.
unfoldable pub distinct_keys : List Event → List BucketKey
unfolding without
distinct_keys [] = []
distinct_keys (e ∷ es) = key_of e ∷ without (key_of e) (distinct_keys es)

pub key_eqb-eq : (j k : BucketKey) → key_eqb j k ≡ true → j ≡ k
key_eqb-eq j k e =
    ground (arith, text_eqb_iff j.domain k.domain, text_eqb_iff j.operation k.operation)

pub key_eqb_refl : (k : BucketKey) → key_eqb k k ≡ true
key_eqb_refl k = rw (text_eqb_refl k.domain, text_eqb_refl k.operation) refl

-- The loop as one key sees it.
unfoldable pub after : BucketKey → Option ReportBucket → List Event → Option ReportBucket
after k o [] = o
after k o (e ∷ es) =
    after k (if key_eqb (key_of e) k then some (bumped e (bucket_for e o)) else o) es

bucket_eq :
    (k : BucketKey) (m n : ℕ) (a b : ℤ)
    → m ≡ n
    → a ≡ b
    → ◌≡◌ {A = Option ReportBucket} (some (bucket k m a)) (some (bucket k n b))
bucket_eq k m n a b p q = cc

bumped-bucket :
    (k : BucketKey) (n : ℕ) (total : ℤ) (e : Event)
    → bumped e (bucket k n total) ≡ bucket k (suc n) (total +ℤ e.cost_micros)
unfolding add64
bumped-bucket k n total e = ap (bucket_with k (suc n)) (wrap-add64_left total e.cost_micros)

after-some :
    (k : BucketKey) (n : ℕ) (total : ℤ) (es : List Event)
    → after k (some (bucket k n total)) es
      ≡ some (bucket k (n + count_under k es) (total +ℤ cost_under k es))
unfolding after count_under cost_under
after-some k n total [] = bucket_eq k n (n + 0) total (total +ℤ pos 0) (omega arith) (+ℤ_zero total)
after-some k n total (e ∷ es) = elim (Bool-cases (key_eqb (key_of e) k)) [
  | inl same ↦ rw same (
      ap (λ b. after k (some b) es) (bumped-bucket k n total e)
      ∙ after-some k (suc n) (total +ℤ e.cost_micros) es
      ∙ bucket_eq k (suc n + count_under k es) (n + (1 + count_under k es))
          (total +ℤ e.cost_micros +ℤ cost_under k es) (total +ℤ (e.cost_micros +ℤ cost_under k es))
          (omega arith) (+ℤ_assoc total e.cost_micros (cost_under k es)))
  | inr other ↦ rw other (
      after-some k n total es
      ∙ bucket_eq k (n + count_under k es) (n + (0 + count_under k es)) (total +ℤ cost_under k es)
          (total +ℤ (pos 0 +ℤ cost_under k es)) (omega arith)
          (ap (λ c. total +ℤ c) (zero_+ℤ (cost_under k es))))
]

first_bucket :
    (k : BucketKey) (e : Event)
    → key_eqb (key_of e) k ≡ true
    → bumped e (bucket_for e none) ≡ bucket k 1 (pos 0 +ℤ e.cost_micros)
unfolding add64
first_bucket k e same = ap (λ j. bucket j 1 (pos 0 +ℤ e.cost_micros)) (key_eqb-eq (key_of e) k same)

pub after-none :
    (k : BucketKey) (es : List Event)
    → after k none es ≡ (if has_event k es then some (tally es k) else none)
unfolding after count_under cost_under has_event
after-none k [] = refl
after-none k (e ∷ es) = elim (Bool-cases (key_eqb (key_of e) k)) [
  | inl same ↦ rw same (
      ap (λ b. after k (some b) es) (first_bucket k e same)
      ∙ after-some k 1 (pos 0 +ℤ e.cost_micros) es
      ∙ bucket_eq k (1 + count_under k es) (1 + count_under k es)
          (pos 0 +ℤ e.cost_micros +ℤ cost_under k es) (e.cost_micros +ℤ cost_under k es) refl
          (ap (λ c. c +ℤ cost_under k es) (sym (zero_+ℤ e.cost_micros))))
  | inr other ↦ rw other (
      after-none k es
      ∙ ap (λ o. if has_event k es then o else none)
          (bucket_eq k (count_under k es) (0 + count_under k es) (cost_under k es)
            (pos 0 +ℤ cost_under k es) (omega arith) (zero_+ℤ (cost_under k es))))
]
