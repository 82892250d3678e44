-- ===== src/Tree.antt =====
-- The tree of databases, tables, views and routines: its functions in web/src/components/sqleditor/
-- components/Utils/visibilityProvider.js and Utils/index.js.
pub mod Defs
pub mod Find
pub mod Update
mod Tests
