-- ===== src/Wallet/Base.antt =====
-- nexssflow/wallet.go: the ledger, its statements, and lockWallet.
use Prim.Native.String.{String}
use cost.Prelude.{
  ℕ, ◌*◌, ◌/◌, ltb, ℤ, pos_part, Bool, not, ◌||◌, if◌then◌else◌, Option, none, some, [], ◌∷◌,
}
use cost.Text.{Text, text, text_eqb}
use cost.Errors.{Error, message, errorf, txt, Result, ok, err}
use cost.Currency.{Currency, to_string}
use cost.Sql.{Tx, ◌>>=◌, ◌>>◌, pure, modify, attempt, require, check, Faults}
use cost.Wallet.Tables.{
  WalletRow, Database, find_tenant, find_user, find_wallet, update_wallet, owned, joined,
}

-- type walletIdentity
pub record WalletIdentity : Type 0 where
  pub tenant_id : Text
  pub user_id : Text
  pub wallet_id : Text

-- type walletLedger; `connected` is db != nil, and the ttl is in nanoseconds.
pub record WalletLedger : Type 0 where
  pub connected : Bool
  pub identity : WalletIdentity
  pub currency : Currency
  pub ttl : ℤ
  pub domain : Text
  pub operation : Text

abbrev pub active_status : Text
active_status = text "active"

-- The statements of the methods.
pub data Statement : Type 0 where
  lock reclaim update_reserved insert_reservation : Statement
  delete_returning debit_wallet write_debit release_funds : Statement

-- What a call meets: CURRENT_TIMESTAMP in microseconds, the id that newWalletReservationID makes or
-- its error, and the driver's faults.
pub record Environment : Type 0 where
  pub now : ℕ
  pub new_id : Result Text
  pub faults : Faults Statement

-- `l.ttl / time.Second`, at least 1, in microseconds.
abbrev pub lease : WalletLedger → ℕ
lease l = let s = pos_part l.ttl / 1000000000 in (if ltb s 1 then 1 else s) * 1000000

-- `if err != nil { return fmt.Errorf(format, err) }` on an error that is wrapped already.
abbrev pub wrapped {ℓ} : {T : Type 0} {A : Type ℓ} → String → Tx T A → Tx T A
wrapped format m t =
    let (r, t') = m t in (elim r [ ok a ↦ ok a | err e ↦ err (errorf format [] e) ], t')

-- (*walletLedger).updateReservedAmount
unfoldable pub update_reserved_amount : WalletLedger → Environment → ℤ → Tx Database (Unit {0})
update_reserved_amount l env reserved = do
  attempt "postgres wallet: hold funds: %w" (env.faults.statement_error update_reserved)
  modify (λ t. record t {
    wallets =
        update_wallet l.identity.wallet_id (λ w. record w { reserved_micros = reserved }) t.wallets;
  })

-- The two queries of lockWallet: the wallet's row, and the statuses of its tenant and its user,
-- which only the first one reads.
abbrev pub select_wallet :
    WalletLedger → (require_active_owner : Bool) → Database → Option (WalletRow × Text × Text)
select_wallet l require_active_owner t =
    let i = l.identity in
    let row = owned i.tenant_id i.user_id (find_wallet i.wallet_id t.wallets) in
    if require_active_owner
    then joined row (find_tenant i.tenant_id t.tenants) (find_user i.tenant_id i.user_id t.users)
    else elim row [ none ↦ none | some w ↦ some (w, [], []) ]

-- (*walletLedger).lockWallet; it returns the balance, the reserved amount and the status of the
-- row.
unfoldable pub lock_wallet :
    WalletLedger → Environment → (require_active_owner : Bool) → Tx Database WalletRow
lock_wallet l env require_active_owner = do
  attempt "postgres wallet: load wallet: %w" (env.faults.statement_error lock)
  (row, tenant_status, user_status) ← λ t.
      require (select_wallet l require_active_owner t)
        (message "postgres wallet: active wallet %q was not found for tenant %q and user %q"
          (txt l.identity.wallet_id ∷ txt l.identity.tenant_id ∷ txt l.identity.user_id ∷ []))
        t
  check (text_eqb row.currency (to_string l.currency)) (
      message "postgres wallet: currency mismatch: database=%s configured=%s"
        (txt row.currency ∷ txt (to_string l.currency) ∷ []))
  check (not require_active_owner || text_eqb tenant_status active_status) (
      message "postgres wallet: tenant %q is %q"
        (txt l.identity.tenant_id ∷ txt tenant_status ∷ []))
  check (not require_active_owner || text_eqb user_status active_status)
      (message "postgres wallet: user %q is %q" (txt l.identity.user_id ∷ txt user_status ∷ []))
  pure row

-- `if status != activeStatus` of Reserve and Commit
abbrev pub check_status : WalletLedger → WalletRow → Tx Database (Unit {0})
check_status l row =
    check (text_eqb row.status active_status)
      (message "postgres wallet: wallet %q is %q" (txt l.identity.wallet_id ∷ txt row.status ∷ []))

abbrev pub out_of_range : Error
out_of_range = message "bigint out of range" []

-- type walletReservation, but for its ledger, which the methods take, and its mutex.
pub record WalletReservation : Type 0 where
  pub id : Text
  pub done : Bool

abbrev pub nil_database : Error
nil_database = message "postgres wallet: nil database" []
