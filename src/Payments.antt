-- ===== src/Payments.antt =====
-- The payment service: its records and events, the tables with the repository's transactions, and the
-- service over them.
pub mod Model
pub mod Event
pub mod Tables
pub mod Repository
pub mod Service
pub mod Consistency
pub mod Lifecycle
pub mod History
pub mod Contract
pub mod Outbox
pub mod Publisher
pub mod Answer
pub mod Handler
