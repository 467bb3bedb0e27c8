-- ===== src/Outbox.antt =====
-- The outbox worker (apps/outbox-worker/src).
pub mod Table
pub mod Pump
