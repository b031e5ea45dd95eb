-- ===== src/Postgres/Rows.antt =====
-- Laws of the statements of Postgres/Tables: what each does to the budget row of a scope and to the
-- amount that its reservations hold.
use cost.Prelude.{
  ℕ, ◌≡◌, refl, ◌≢◌, ℤ, pos, ◌+ℤ◌, ◌≤ℤ◌, if◌then◌else◌, some, List, [], ◌∷◌, arith, int_laws,
}
use cost.Text.{Text, text_eqb, text_eqb_iff}
use cost.Postgres.Tables.{
  BudgetRow, ReservationRow, find_budget, update_used, delete_expired, expired_sum,
  find_reservation, delete_reservation, held,
}

abbrev pub AllNonneg : List ReservationRow → Type 0
AllNonneg [] = Unit
AllNonneg (r ∷ rows) = (pos 0 ≤ℤ r.amount_micros) × AllNonneg rows

module _ (scope : Text) where
  pub find_budget-update_used :
      (f : ℤ → ℤ) (rows : List BudgetRow) (b : BudgetRow)
      → find_budget scope rows ≡ some b
      → find_budget scope (update_used scope f rows)
        ≡ some (record b { used_micros = f b.used_micros })
  unfolding find_budget update_used
  find_budget-update_used f [] b h = ground arith
  find_budget-update_used f (c ∷ rows) b h = ground (arith, find_budget-update_used f rows b)

  pub find_budget-update_used_ne :
      (other : Text) (f : ℤ → ℤ) (rows : List BudgetRow)
      → other ≢ scope
      → find_budget other (update_used scope f rows) ≡ find_budget other rows
  unfolding find_budget update_used
  find_budget-update_used_ne other f [] h = refl
  find_budget-update_used_ne other f (c ∷ rows) h = ground (
    arith,
    find_budget-update_used_ne other f rows,
    text_eqb_iff c.scope scope,
    text_eqb_iff c.scope other,
  )

  -- What expired and what is left add up.
  pub held-delete_expired :
      (now : ℕ) (rows : List ReservationRow)
      → held scope (delete_expired scope now rows) +ℤ expired_sum scope now rows ≡ held scope rows
  unfolding held delete_expired expired_sum
  held-delete_expired now [] = grind int_laws
  held-delete_expired now (r ∷ rows) = grind (int_laws, held-delete_expired now rows)

  pub held_nonneg : (rows : List ReservationRow) → AllNonneg rows → pos 0 ≤ℤ held scope rows
  unfolding held
  held_nonneg [] h = omega arith
  held_nonneg (r ∷ rows) h = grind (int_laws, held_nonneg rows h.1)

  pub expired_sum_nonneg :
      (now : ℕ) (rows : List ReservationRow) → AllNonneg rows → pos 0 ≤ℤ expired_sum scope now rows
  unfolding expired_sum
  expired_sum_nonneg now [] h = omega arith
  expired_sum_nonneg now (r ∷ rows) h = grind (int_laws, expired_sum_nonneg now rows h.1)

  pub delete_expired-AllNonneg :
      (now : ℕ) (rows : List ReservationRow)
      → AllNonneg rows
      → AllNonneg (delete_expired scope now rows)
  unfolding delete_expired
  delete_expired-AllNonneg now [] h = tt
  delete_expired-AllNonneg now (r ∷ rows) h = ground (arith, delete_expired-AllNonneg now rows)

  pub held-delete_reservation :
      (id : Text) (rows : List ReservationRow) (r : ReservationRow)
      → find_reservation id rows ≡ some r
      → held scope (delete_reservation id rows)
          +ℤ (if text_eqb r.scope scope then r.amount_micros else pos 0)
        ≡ held scope rows
  unfolding held delete_reservation find_reservation
  held-delete_reservation id [] r h = ground arith
  held-delete_reservation id (q ∷ rows) r h = grind (int_laws, held-delete_reservation id rows r)

pub find_reservation-nonneg :
    (id : Text) (rows : List ReservationRow) (r : ReservationRow)
    → AllNonneg rows
    → find_reservation id rows ≡ some r
    → pos 0 ≤ℤ r.amount_micros
unfolding find_reservation
find_reservation-nonneg id [] r n h = ground arith
find_reservation-nonneg id (q ∷ rows) r n h = ground (arith, find_reservation-nonneg id rows r)

pub delete_reservation-AllNonneg :
    (id : Text) (rows : List ReservationRow)
    → AllNonneg rows
    → AllNonneg (delete_reservation id rows)
unfolding delete_reservation
delete_reservation-AllNonneg id [] h = tt
delete_reservation-AllNonneg id (r ∷ rows) h = ground (arith, delete_reservation-AllNonneg id rows)
