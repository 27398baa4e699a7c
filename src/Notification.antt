-- ===== src/Notification.antt =====
-- The notification service, internal/notification: from the records of the ledger topic to the
-- clients' WebSockets.
pub mod Hub
pub mod Message
pub mod Redis
pub mod Dedup
pub mod Processor
pub mod Consumer
pub mod Subscriber
pub mod Socket
mod Tests
