-- ===== src/Ledger/Laws.antt =====
-- What a ledger that keeps its word gives to the service.
pub mod Contract
pub mod Keeps
pub mod History
pub mod Anchored
pub mod Again
pub mod Bundle
pub mod Fresh
