-- ===== src/Edge.antt =====
-- The edge agent (apps/edge-agent/src).
pub mod Queue
pub mod Runner
