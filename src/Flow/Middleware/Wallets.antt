-- ===== src/Flow/Middleware/Wallets.antt =====
-- The calls of a wallet, as the middleware makes them, keep its account.
use cost.Prelude.{ℤ}
use cost.Wallet
use cost.Wallet.Base.{WalletLedger, WalletIdentity}
use cost.Wallet.Accounts.{Accounted}
use cost.Wallet.Keeps.{reserve-Kept, commit-Kept, release-Kept, record_event-Kept}
use cost.Flow.Middleware.Keeping.{Keeps}
use cost.Flow.Middleware.Postgres.{Calls, wallet_reserver}

pub wallet_reserver-Keeps :
    (l : WalletLedger) (calls : Calls Wallet.Base.Environment) (opening : ℤ)
    → Keeps (wallet_reserver l calls) (Accounted l.identity.wallet_id opening)
wallet_reserver-Keeps l calls opening = record {
  reserve_keeps = λ ctx estimate t a. reserve-Kept l calls.reserving opening ctx estimate t a;
  commit_keeps = λ ctx actual r t a. commit-Kept l calls.committing opening ctx actual r t a;
  release_keeps = λ ctx r t a. release-Kept l calls.releasing opening ctx r t a;
  record_keeps = λ ctx now event t a. record_event-Kept l opening ctx calls.recording event t a;
}
