-- ===== src/Flow.antt =====
-- nexssflow: the bundle that puts the ledgers round the actions of a flow.
pub mod Value
pub mod Estimate
pub mod Reserver
pub mod Dynamic
pub mod Accounts
pub mod Middleware
pub mod Report
pub mod Modifier
pub mod Settings
pub mod Bundle
mod Tests
