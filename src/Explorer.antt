-- ===== src/Explorer.antt =====
-- The panel of objects: web/src/components/sqleditor/components/TableTreePanel/TableDrawer/DataTree.js.
pub mod Defs
pub mod Search
pub mod Saved
pub mod Dropping
pub mod Listing
mod Tests
