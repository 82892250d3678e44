-- ===== src/Utils.antt =====
-- Small functions of web/src/utils/utils.js, web/src/common/eventBus.js, and Utils/index.js of the editor.
pub mod Defs
pub mod Cut
pub mod Groups
pub mod Bus
mod Clock
mod Durations
mod Tests
