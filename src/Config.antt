-- ===== src/Config.antt =====
-- The reading and the validation of the services' settings, internal/config of each service.
pub mod Problems
pub mod KafkaClient
pub mod Secured
pub mod Kafka
pub mod Ledger
pub mod Payments
pub mod Gateway
pub mod Valid
pub mod Variables
pub mod Load
pub mod Loaded
