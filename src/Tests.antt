-- ===== src/Tests.antt =====
-- Runs of the services on concrete inputs.
mod Inputs
mod Payments
mod Ledger
mod Consumer
mod Publisher
mod Gateway
mod Config
mod Retention
mod Migrations
mod Http
