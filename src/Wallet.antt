-- ===== src/Wallet.antt =====
-- nexssflow/wallet.go: the ledger of a prepaid wallet. lockWallet locks the row of the wallet, so
-- the transactions on a wallet follow one another, and each is one step on the tables.
pub mod Tables
pub mod Base
pub mod Reserve
pub mod Settle
pub mod Record
pub mod Accounts
pub mod Steps
pub mod Keeps
pub mod History
pub mod Settlement
pub mod Availability
pub mod Payment
pub mod Holding
pub mod Sample
mod Tests
