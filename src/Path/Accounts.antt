-- ===== src/Path/Accounts.antt =====
-- No request of a reader is lost, and none is answered twice.
pub mod Parts
pub mod Rounds
pub mod Steps
pub mod Totals
