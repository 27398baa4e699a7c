-- ===== src/Storage.antt =====
-- internal/storage: the tables, the queries and the database transaction.
pub mod Schema
pub mod Session
pub mod Querier
pub mod WithTx
