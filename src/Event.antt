-- ===== src/Event.antt =====
-- entry.go: the audit record.
use cost.Prelude.{ℕ, ℤ}
use cost.Text.{Text}
use cost.Currency.{Currency}

-- type Event. The timestamp counts nanoseconds from the zero time, so `IsZero` is `== 0`.
pub record Event : Type 0 where
  pub id : Text
  pub domain : Text
  pub operation : Text
  pub cost_micros : ℤ
  pub currency : Currency
  pub timestamp : ℕ
