-- ===== src/Workspace/Store.antt =====
-- The workspace tables and the handlers on them: the class `FusionDatabase` of
-- apps/api/src/database.ts, from `getWorkspace` to `rollbackWorkspace`. A table is a list of rows.
-- A statement whose WHERE clause names a primary key reaches the first row with that key, and an
-- INSERT of a key that is there fails with `constraint`. A snapshot column holds the snapshot
-- itself, since JSON text is read back as it was written. `now` is the result of `nowIso()`.
pub mod Tables
pub mod Members
pub mod Edits
pub mod Consistent
pub mod Owners
pub mod Versions
pub mod Effects
pub mod Concurrency
pub mod History
