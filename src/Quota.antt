-- ===== src/Quota.antt =====
-- nexssflow/storage_backend.go: the runtime budgets of tenants, kept in an atomic key-value store.
pub mod Record
pub mod Base
pub mod Amounts
pub mod Records
pub mod Updates
pub mod Admitting
pub mod Store
pub mod Admission
pub mod Settlement
pub mod Within
pub mod Entries
pub mod History
pub mod Cells
mod Tests
