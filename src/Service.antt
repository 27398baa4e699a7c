-- ===== src/Service.antt =====
-- internal/service/service.go: the payment operations over the storage.
pub mod Types
pub mod Core
pub mod Operations
pub mod Requests
pub mod DoubleEntry
pub mod Movement
pub mod Atomicity
pub mod Mirror
pub mod Reversal
pub mod Idempotency
pub mod Overdraft
pub mod History
pub mod Tests
