-- ===== src/Mysql.antt =====
-- The converter to MySQL statements, web/src/components/sqleditor/components/Utils/SQLConverter/
-- mysql.js.
pub mod Defs
mod Reader
pub mod RowReader
pub mod Insert
pub mod Delete
pub mod Escape
pub mod Diff
pub mod Comma
pub mod Paths
mod Tests
mod SchemaTests
