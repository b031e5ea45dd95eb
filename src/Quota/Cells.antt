-- ===== src/Quota/Cells.antt =====
-- A store that is a function, for the tests of nexssflow/storage_backend.go, with one tenant in it.
use mathlib.Core.List.Permᴰ
use cost.Prelude.{
  ◌≡◌, refl, sym, subst, inl, pos, Option, none, some, [], ◌∷◌, ◌++◌, true, if◌then◌else◌, arith,
}
use cost.Text.{Text, text, text_eqb, text_eqb_refl}
use cost.Text.Spaces.{trim_space, space_width, space_width_back}
use cost.Text.Decimal.{parse_int}
use cost.Errors.{Context, Result, ok, err, is_ok}
use cost.Quota.Record.{
  RuntimeQuotaRecord, reencoded, entries, decode_record, decode_fields, parse_non_negative_micros,
  check_amounts,
}
use cost.Quota.Base.{Storage, RuntimeQuotaLedger, runtime_quota_key, runtime_quota_key_prefix}
use cost.Quota.Amounts.{IsMicros, micros, total}
use cost.Quota.Records.{Same}
use cost.Quota.Store.{IsAtomic, Answers, UpdateOutcome, Reads}
use cost.Quota.Within.{IsWithinBudget}

abbrev pub Cells : Type 0
Cells = Text → Option RuntimeQuotaRecord

abbrev pub answered : Text → Cells → Result RuntimeQuotaRecord → Result (Unit {0}) × Cells
answered key s (ok v) = (ok tt, λ k. if text_eqb k key then some v else s k)
answered key s (err e) = (err e, s)

abbrev pub cells : Storage Cells RuntimeQuotaRecord
cells = record {
  lookup = λ key s. s key;
  update = λ _ key f s. answered key s (f (s key));
  any_of = λ r. r;
  reencode = reencoded;
  hex_digest = λ t. t;
}

pub Same-refl : (r : RuntimeQuotaRecord) → Same r r
Same-refl r = record {
  version = refl;
  budget = refl;
  spent = refl;
  reservations = Permᴰ.refl (entries r);
}

pub cells-IsAtomic : IsAtomic cells
cells-IsAtomic ctx key f s = outcome (f (s key)) refl
  where
    outcome :
        (c : Result RuntimeQuotaRecord)
        → f (s key) ≡ c
        → UpdateOutcome cells key f s (answered key s c)
    outcome (ok v) e = (
      v,
      e,
      (
        v,
        rw (text_eqb_refl key) refl,
        λ r same. (v, refl, subst (λ x. Same r x) (sym same) (Same-refl r)),
      ),
    )
    outcome (err x) e = inl refl

pub cells-Answers : (ctx : Context) (s : Cells) → Answers cells ctx s
cells-Answers ctx s key f = answer (f (s key))
  where
    answer : (c : Result RuntimeQuotaRecord) → is_ok (answered key s c).0 ≡ is_ok c
    answer (ok v) = refl
    answer (err e) = refl

abbrev pub stored : RuntimeQuotaRecord
stored = record {
  version = pos 1;
  budget_micros = text "100";
  spent_micros = text "20";
  reservations = some ((text "a", text "30") ∷ (text "b", text "5") ∷ []);
}

abbrev pub tenant_key : Text
tenant_key = runtime_quota_key_prefix ++ text "t"

abbrev pub store : Cells
store key = if text_eqb key tenant_key then some stored else none

abbrev pub ledger : RuntimeQuotaLedger
ledger = record { connected = true; tenant_id = text " t" }

pub ledger-named : runtime_quota_key cells ledger.tenant_id ≡ ok tenant_key
unfolding runtime_quota_key trim_space space_width space_width_back
ledger-named = refl

pub store-Reads : Reads cells tenant_key store stored
unfolding decode_record decode_fields parse_non_negative_micros parse_int check_amounts
store-Reads = (stored, refl, refl)

pub stored-budget : IsMicros stored.budget_micros (micros stored.budget_micros)
unfolding parse_int
stored-budget = refl

pub store-IsWithinBudget : IsWithinBudget cells tenant_key store
unfolding total parse_int
store-IsWithinBudget = (stored, store-Reads, (stored-budget, omega arith))
