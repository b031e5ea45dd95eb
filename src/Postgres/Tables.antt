-- ===== src/Postgres/Tables.antt =====
-- The tables of adapters/postgres/ledger.go (its `Schema`) and the statements that it runs on them.
-- Times are microseconds of the database's clock.
use cost.Prelude.{
  ℕ, ℤ, pos, ◌+ℤ◌, leb, Bool, false, ◌&&◌, ◌||◌, if◌then◌else◌, Option, none, some, List, [], ◌∷◌,
}
use cost.Text.{Text, text_eqb}

-- A row of cost_budgets, whose key is the scope.
pub record BudgetRow : Type 0 where
  pub scope : Text
  pub limit_micros : ℤ
  pub used_micros : ℤ
  pub currency : Text

-- A row of cost_reservations, whose key is the id.
pub record ReservationRow : Type 0 where
  pub id : Text
  pub scope : Text
  pub amount_micros : ℤ
  pub expires_at : ℕ

-- A row of cost_entries, with `none` for NULL.
pub record EntryRow : Type 0 where
  pub scope : Text
  pub domain : Text
  pub operation : Text
  pub cost_micros : ℤ
  pub currency : Text
  pub event_id : Option Text

pub record Database : Type 0 where
  pub budgets : List BudgetRow
  pub reservations : List ReservationRow
  pub entries : List EntryRow

-- SELECT … FROM cost_budgets WHERE scope = $1
unfoldable pub find_budget : Text → List BudgetRow → Option BudgetRow
find_budget scope [] = none
find_budget scope (b ∷ rows) = if text_eqb b.scope scope then some b else find_budget scope rows

-- UPDATE cost_budgets SET used_micros = … WHERE scope = $2
unfoldable pub update_used : Text → (ℤ → ℤ) → List BudgetRow → List BudgetRow
update_used scope f [] = []
update_used scope f (b ∷ rows) =
    let rest = update_used scope f rows in
    if text_eqb b.scope scope then record b { used_micros = f b.used_micros } ∷ rest else b ∷ rest

-- WHERE scope = $1 AND expires_at <= CURRENT_TIMESTAMP
abbrev pub is_expired : Text → ℕ → ReservationRow → Bool
is_expired scope now r = text_eqb r.scope scope && leb r.expires_at now

-- What the DELETE of the reclaim query leaves, and the SUM of what it returns.
unfoldable pub delete_expired : Text → ℕ → List ReservationRow → List ReservationRow
delete_expired scope now [] = []
delete_expired scope now (r ∷ rows) =
    let rest = delete_expired scope now rows in if is_expired scope now r then rest else r ∷ rest

unfoldable pub expired_sum : Text → ℕ → List ReservationRow → ℤ
expired_sum scope now [] = pos 0
expired_sum scope now (r ∷ rows) =
    let rest = expired_sum scope now rows in
    if is_expired scope now r then r.amount_micros +ℤ rest else rest

-- DELETE FROM cost_reservations WHERE id = $1 RETURNING amount_micros: the row, and what is left.
-- The key makes the row unique.
unfoldable pub find_reservation : Text → List ReservationRow → Option ReservationRow
find_reservation id [] = none
find_reservation id (r ∷ rows) = if text_eqb r.id id then some r else find_reservation id rows

unfoldable pub delete_reservation : Text → List ReservationRow → List ReservationRow
delete_reservation id [] = []
delete_reservation id (r ∷ rows) =
    let rest = delete_reservation id rows in if text_eqb r.id id then rows else r ∷ rest

-- Is there an entry of the scope with this event id? (The unique index cost_entries_scope_event_id_idx.)
unfoldable pub has_entry : Text → Text → List EntryRow → Bool
has_entry scope event_id [] = false
has_entry scope event_id (e ∷ rows) =
    (text_eqb e.scope scope && elim e.event_id [ none ↦ false | some i ↦ text_eqb i event_id ])
    || has_entry scope event_id rows

-- INSERT INTO cost_budgets … ON CONFLICT(scope) DO UPDATE SET limit_micros = EXCLUDED.limit_micros
unfoldable pub upsert_budget : Text → ℤ → Text → List BudgetRow → List BudgetRow
upsert_budget scope limit currency [] =
    record { scope = scope; limit_micros = limit; used_micros = pos 0; currency = currency } ∷ []
upsert_budget scope limit currency (b ∷ rows) =
    let rest = upsert_budget scope limit currency rows in
    if text_eqb b.scope scope then record b { limit_micros = limit } ∷ rows else b ∷ rest

-- The amount that the reservations of a scope hold.
unfoldable pub held : Text → List ReservationRow → ℤ
held scope [] = pos 0
held scope (r ∷ rows) =
    let rest = held scope rows in if text_eqb r.scope scope then r.amount_micros +ℤ rest else rest
