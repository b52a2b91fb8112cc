-- ===== src/Path.antt =====
-- internal/core/path.go: one path, from the state to the runs of its loop.
pub mod State
pub mod OnDemand
pub mod Ready
pub mod Handlers
pub mod Run
pub mod Ledger
pub mod Exact
pub mod Invariant
pub mod Accounts
pub mod Behaviour
