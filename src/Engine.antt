-- ===== src/Engine.antt =====
-- crates/pgtest-core/src/worker_engine: the engine that leases databases, one message at a time.
pub mod State
pub mod Leases
pub mod Growth
pub mod Dispatch
pub mod Handlers
pub mod Invariant
pub mod Grow
pub mod Custody
pub mod Order
pub mod Steps
pub mod Retire
pub mod Serve
pub mod Loop
pub mod Attach
pub mod Fresh
pub mod Close
pub mod Soundness
pub mod Isolation
pub mod Records
pub mod Release
pub mod Ledger
pub mod Admission
pub mod Refinement
pub mod Stale
pub mod Supply
pub mod Startup
pub mod Settle
pub mod Started
pub mod Tests
pub mod CallTests
