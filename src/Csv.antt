-- ===== src/Csv.antt =====
-- The CSV import of the web application: apps/web/src/lib/csvIngest.ts.
pub mod Text
pub mod Parse
pub mod Patterns
pub mod Mapping
pub mod Bundle
