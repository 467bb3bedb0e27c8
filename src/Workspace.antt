-- ===== src/Workspace.antt =====
-- The Canvas workspaces of the SQLite store (apps/api/src/database.ts).
pub mod Snapshot
pub mod Merge
pub mod Store
