-- ===== src/Compare.antt =====
-- The panel that compares tables: Buttons.js and FilterSelect.js of web/src/components/sqleditor/
-- components/TabBoxPanel/SQLDiffEditorPanel.
pub mod Defs
pub mod Sides
pub mod Loading
mod Tests
