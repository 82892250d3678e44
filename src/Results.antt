-- ===== src/Results.antt =====
-- The results of queries in the tabs: the answer `tableRsesult` of web/src/components/sqleditor/
-- components/Utils/visibilityProvider.js.
pub mod Defs
pub mod Lists
pub mod Shown
mod Tests
