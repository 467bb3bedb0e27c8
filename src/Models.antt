-- ===== src/Models.antt =====
-- Information models: packages/platform-core/src/modeling.ts.
pub mod Names
pub mod View
pub mod Value
pub mod Filter
pub mod Instance
