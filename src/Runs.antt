-- ===== src/Runs.antt =====
-- The buttons that run the statements of a tab: Buttons.js of the panels in web/src/components/sqleditor/
-- components/TabBoxPanel.
pub mod Defs
pub mod Format
pub mod Editor
pub mod Created
mod Tests
