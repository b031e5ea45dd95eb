-- ===== src/Wallet/Tables.antt =====
-- The tables that nexssflow/wallet.go works on (nexssflow/examples/durable_quota/schema.sql) and its
-- statements. The columns of cost_wallet_reservations are those of cost_reservations, with the
-- wallet for the scope.
use cost.Prelude.{
  ℕ, ℤ, pos, ◌+ℤ◌, ltb, Bool, true, false, ◌&&◌, ◌||◌, if◌then◌else◌, Option, none, some, List, [],
  ◌∷◌,
}
use cost.Text.{Text, text_eqb}
use cost.Postgres.Tables.{ReservationRow}

-- A row of cost_tenants.
pub record TenantRow : Type 0 where
  pub tenant_id : Text
  pub status : Text

-- A row of cost_users.
pub record UserRow : Type 0 where
  pub tenant_id : Text
  pub user_id : Text
  pub status : Text

-- A row of cost_wallets, whose key is the wallet_id.
pub record WalletRow : Type 0 where
  pub wallet_id : Text
  pub tenant_id : Text
  pub user_id : Text
  pub currency : Text
  pub balance_micros : ℤ
  pub reserved_micros : ℤ
  pub status : Text

-- The entry_type of an entry.
pub data EntryType : Type 0 where
  credit debit : EntryType

-- A row of cost_wallet_entries.
pub record WalletEntry : Type 0 where
  pub wallet_id : Text
  pub entry_type : EntryType
  pub amount_micros : ℤ
  pub idempotency_key : Text
  pub domain : Text
  pub operation : Text

-- A row of cost_wallet_usage_events, with `none` for NULL.
pub record UsageRow : Type 0 where
  pub wallet_id : Text
  pub domain : Text
  pub operation : Text
  pub cost_micros : ℤ
  pub currency : Text
  pub event_id : Option Text

pub record Database : Type 0 where
  pub tenants : List TenantRow
  pub users : List UserRow
  pub wallets : List WalletRow
  pub reservations : List ReservationRow
  pub entries : List WalletEntry
  pub usage_events : List UsageRow

unfoldable pub find_tenant : Text → List TenantRow → Option TenantRow
find_tenant tenant [] = none
find_tenant tenant (r ∷ rows) =
    if text_eqb r.tenant_id tenant then some r else find_tenant tenant rows

unfoldable pub find_user : (tenant user : Text) → List UserRow → Option UserRow
find_user tenant user [] = none
find_user tenant user (r ∷ rows) =
    if text_eqb r.tenant_id tenant && text_eqb r.user_id user
    then some r
    else find_user tenant user rows

unfoldable pub find_wallet : Text → List WalletRow → Option WalletRow
find_wallet wallet [] = none
find_wallet wallet (r ∷ rows) =
    if text_eqb r.wallet_id wallet then some r else find_wallet wallet rows

-- UPDATE cost_wallets SET … WHERE wallet_id = …
unfoldable pub update_wallet : Text → (WalletRow → WalletRow) → List WalletRow → List WalletRow
update_wallet wallet f [] = []
update_wallet wallet f (r ∷ rows) =
    let rest = update_wallet wallet f rows in
    if text_eqb r.wallet_id wallet then f r ∷ rest else r ∷ rest

-- The row of lockWallet's second SELECT.
abbrev pub owned : (tenant user : Text) → Option WalletRow → Option WalletRow
owned tenant user none = none
owned tenant user (some r) =
    if text_eqb r.tenant_id tenant && text_eqb r.user_id user then some r else none

-- The row of its first SELECT, the JOIN, with the statuses of the tenant and the user.
abbrev pub joined :
    Option WalletRow → Option TenantRow → Option UserRow → Option (WalletRow × Text × Text)
joined (some w) (some t) (some u) = some (w, t.status, u.status)
joined _ _ _ = none

-- DELETE FROM cost_wallet_reservations WHERE id = $1 AND wallet_id = $2, and AND expires_at >
-- CURRENT_TIMESTAMP if `unexpired`: the row that goes. The id is the key.
abbrev pub held_by :
    (wallet : Text) (now : ℕ) (unexpired : Bool) → Option ReservationRow → Option ReservationRow
held_by wallet now unexpired none = none
held_by wallet now unexpired (some r) =
    if text_eqb r.scope wallet && (if unexpired then ltb now r.expires_at else true)
    then some r
    else none

-- Is there a usage event of the wallet with this id? (cost_wallet_usage_event_id_idx)
unfoldable pub has_usage : (wallet event_id : Text) → List UsageRow → Bool
has_usage wallet event_id [] = false
has_usage wallet event_id (u ∷ rows) =
    (text_eqb u.wallet_id wallet && elim u.event_id [ none ↦ false | some i ↦ text_eqb i event_id ])
    || has_usage wallet event_id rows

-- What a wallet's entries come to: its debits, and its credits.
abbrev pub amount_as : EntryType → WalletEntry → ℤ
amount_as debit e = elim e.entry_type [ debit ↦ e.amount_micros | credit ↦ pos 0 ]
amount_as credit e = elim e.entry_type [ debit ↦ pos 0 | credit ↦ e.amount_micros ]

unfoldable pub total : EntryType → (wallet : Text) → List WalletEntry → ℤ
total type wallet [] = pos 0
total type wallet (e ∷ entries) =
    let rest = total type wallet entries in
    if text_eqb e.wallet_id wallet then amount_as type e +ℤ rest else rest

-- Is the key of an entry taken? (UNIQUE (wallet_id, idempotency_key))
unfoldable pub has_key : (wallet key : Text) → List WalletEntry → Bool
has_key wallet key [] = false
has_key wallet key (e ∷ entries) =
    (text_eqb e.wallet_id wallet && text_eqb e.idempotency_key key) || has_key wallet key entries
