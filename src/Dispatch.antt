-- ===== src/Dispatch.antt =====
-- Which converter a command goes to: `getSQLConverter` of web/src/components/sqleditor/components/Utils/
-- visibilityProvider.js.
pub mod Defs
pub mod Names
pub mod Throws
pub mod Outcomes
mod Tests
