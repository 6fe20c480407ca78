-- ===== src/Migrations.antt =====
-- services/payment-service/internal/migration/migration.go: the directory of migrations and the run
-- over the database.
pub mod Files
pub mod Found
pub mod Run
pub mod Upgrade
pub mod Again
