-- ===== src/Postgres/Schema.antt =====
-- EnsureSchema of adapters/postgres/ledger.go on the budget row of its scope.
use cost.Prelude.{
  ◌≡◌, refl, ◌≢◌, ℤ, pos, Bool, true, not, if◌then◌else◌, Option, none, some, List, [], ◌∷◌, arith,
  if-elim,
}
use cost.Text.{Text, text_eqb, text_eqb_iff, text_eqb_refl}
use cost.Errors.{Error, Result, ok, err, sentinel, errorf, err_nil_context}
use cost.Currency.{to_string}
use cost.Sql.{transaction}
use cost.Sql.Rules.{OnOk, OnOk-mono, transaction-OnOk}
use cost.Postgres.Tables.{BudgetRow, Database, find_budget, upsert_budget}
use cost.Postgres.{Ledger, Environment, ensure_body, ensure_schema, nil_database}

-- What the scope has used, 0 without a row.
abbrev pub used_of : Text → Database → ℤ
used_of scope t = elim (find_budget scope t.budgets) [ none ↦ pos 0 | some b ↦ b.used_micros ]

find_budget-upsert_budget :
    (scope : Text) (limit : ℤ) (currency : Text) (rows : List BudgetRow)
    → find_budget scope (upsert_budget scope limit currency rows)
      ≡ some (elim (find_budget scope rows) as (λ _. BudgetRow) [
        | none ↦ record {
          scope = scope;
          limit_micros = limit;
          used_micros = pos 0;
          currency = currency;
        }
        | some b ↦ record b { limit_micros = limit }
      ])
unfolding find_budget upsert_budget
find_budget-upsert_budget scope limit currency [] = rw (text_eqb_refl scope)
find_budget-upsert_budget scope limit currency (b ∷ rows) =
    ground (arith, find_budget-upsert_budget scope limit currency rows)

find_budget-upsert_budget_ne :
    (other scope : Text) (limit : ℤ) (currency : Text) (rows : List BudgetRow)
    → other ≢ scope
    → find_budget other (upsert_budget scope limit currency rows) ≡ find_budget other rows
unfolding find_budget upsert_budget
find_budget-upsert_budget_ne other scope limit currency [] h =
    ground (arith, text_eqb_iff scope other)
find_budget-upsert_budget_ne other scope limit currency (b ∷ rows) h = ground (
  arith,
  find_budget-upsert_budget_ne other scope limit currency rows h,
  text_eqb_iff b.scope scope,
  text_eqb_iff b.scope other,
)

module _ (l : Ledger) (env : Environment) where
  -- The scope's row after the call: the configured limit and currency, and what was used before. Other
  -- scopes, reservations and entries are as they were.
  abbrev pub Ensured : Database → Database → Type 0
  Ensured t t' =
      ((b : BudgetRow) × (find_budget l.scope t'.budgets ≡ some b)
        × (b.limit_micros ≡ l.limit_micros)
        × (text_eqb b.currency (to_string l.currency) ≡ true)
        × (b.used_micros ≡ used_of l.scope t))
      × ((other : Text)
          → other ≢ l.scope
          → find_budget other t'.budgets ≡ find_budget other t.budgets)
      × (t'.reservations ≡ t.reservations)
      × (t'.entries ≡ t.entries)

  ensure_body_effect :
      (t : Database)
      → OnOk
          (λ f t'.
            (f.result ≡ ok tt)
            × (elim (find_budget l.scope t.budgets) [
              | none ↦ true
              | some b ↦ text_eqb b.currency (to_string l.currency)
            ]
                ≡ true)
            × (t' ≡ record t {
              budgets = upsert_budget l.scope l.limit_micros (to_string l.currency) t.budgets;
            }))
          (ensure_body l env t)
  unfolding ensure_body
  ensure_body_effect t = ground arith

  upserted-Ensured :
      (t : Database)
      → elim (find_budget l.scope t.budgets) [
        | none ↦ true
        | some b ↦ text_eqb b.currency (to_string l.currency)
      ]
        ≡ true
      → Ensured t (record t {
        budgets = upsert_budget l.scope l.limit_micros (to_string l.currency) t.budgets;
      })
  upserted-Ensured t c =
      let found =
        find_budget-upsert_budget l.scope l.limit_micros (to_string l.currency) t.budgets in
      (
        (
          _,
          found,
          ground arith,
          ground (arith, text_eqb_refl (to_string l.currency)),
          ground arith,
        ),
        (λ other ne.
            find_budget-upsert_budget_ne other l.scope l.limit_micros (to_string l.currency)
              t.budgets ne),
        refl,
        refl,
      )

  -- If EnsureSchema reports success, the budget row of the scope has the configured limit and
  -- currency and keeps what was used, 0 if it is new, and the rows of other scopes, the
  -- reservations and the entries are unchanged.
  pub ensure_schema-Ensured :
      (no_context : Bool) (created : Option Error) (t : Database)
      → OnOk (λ _ t'. Ensured t t') (ensure_schema no_context l env created t)
  unfolding ensure_schema
  ensure_schema-Ensured no_context created t = reached created
    where
      upserted :
          OnOk
            (λ _ t'. Ensured t t')
            (transaction env.faults "postgres: begin schema upsert: %w" (ensure_body l env) t)
      upserted =
          transaction-OnOk (λ _ t'. Ensured t t') env.faults _ (ensure_body l env) t
            (OnOk-mono _ _ (ensure_body l env t) (λ f t' q. rw (q.0, q.2) (upserted-Ensured t q.1))
              (ensure_body_effect t))

      E : Result (Unit {0}) × Database → Type 0
      E = OnOk (λ _ t'. Ensured t t')

      created_rest : Option Error → Result (Unit {0}) × Database
      created_rest c = elim c [
        | some e ↦ (err (errorf "postgres: schema: %w" [] e), t)
        | none ↦ transaction env.faults "postgres: begin schema upsert: %w" (ensure_body l env) t
      ]

      connected_rest : Option Error → Result (Unit {0}) × Database
      connected_rest c = if not l.connected then (err nil_database, t) else created_rest c

      last : (c : Option Error) → E (created_rest c)
      last none = upserted
      last (some e) = tt

      reached :
          (c : Option Error) → OnOk (λ _ t'. Ensured t t') (ensure_schema no_context l env c t)
      reached c =
          if-elim E no_context {x = (err (sentinel err_nil_context), t)} {y = connected_rest c}
            (λ _. tt)
            (λ _.
              if-elim E (not l.connected) {x = (err nil_database, t)} {y = created_rest c} (λ _. tt)
                (λ _. last c))
