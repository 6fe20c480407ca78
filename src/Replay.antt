-- ===== src/Replay.antt =====
-- The replay of dead letters (services/ledger-service/internal/replay/replayer.go and
-- repository/replay_repository.go): the audit table, its two statements, and `Replay`.
pub mod Audit
pub mod Replayer
pub mod Claims
pub mod Restored
pub mod Command
pub mod Selected
