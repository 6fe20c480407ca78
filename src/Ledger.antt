-- ===== src/Ledger.antt =====
-- The ledger service: its records, the validation of double entries, the tables with the repository's
-- statements, and the service over them.
pub mod Model
pub mod Balance
pub mod Tables
pub mod Repository
pub mod Service
pub mod Handler
