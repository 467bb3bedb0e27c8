-- ===== src/Pipeline.antt =====
-- Pipelines of the platform core (packages/platform-core/src).
pub mod Plan
