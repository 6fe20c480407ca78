-- ===== src/Consumer.antt =====
-- The ledger's Kafka consumer (services/ledger-service/internal/consumer): one message, its retries,
-- the dead letters, and the loop that fetches and commits.
pub mod Message
pub mod Payload
pub mod Handle
pub mod Retry
pub mod DeadLetter
pub mod Run
