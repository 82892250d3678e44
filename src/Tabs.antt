-- ===== src/Tabs.antt =====
-- The editor tabs: their part of the context web/src/components/sqleditor/components/Utils/
-- visibilityProvider.js, and the handlers of TabBoxPanel/index.js.
pub mod Defs
pub mod Ids
pub mod Remove
pub mod Change
pub mod Invariant
pub mod Order
pub mod Cycle
pub mod Steps
mod Tests
