-- ===== src/Qconstruct.antt =====
-- The q construct algorithm (crates/aprsr-core/src/qconstruct.rs).
pub mod Code
pub mod Apply
pub mod Found
pub mod Recorded
pub mod Loop
pub mod Reject
pub mod Letters
