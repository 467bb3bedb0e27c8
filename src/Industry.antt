-- ===== src/Industry.antt =====
-- The industrial half of the class `FusionDatabase` in apps/api/src/database.ts: assets, series,
-- data points, documents and relations, which a bundle fills, and the review of a relation.
pub mod Tables
pub mod Hierarchy
pub mod Bundle
pub mod Write
pub mod Ingest
pub mod Review
