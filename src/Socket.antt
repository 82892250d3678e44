-- ===== src/Socket.antt =====
-- The connections to the server: web/src/components/sqleditor/components/Utils/webSocketManager.js,
-- the messages of web/src/components/access/Message.js, and `webSocketOnData` of visibilityProvider.js.
pub mod Defs
pub mod Packets
pub mod Steps
mod Kept
pub mod Paired
pub mod Leak
pub mod Sending
pub mod Joined
mod Tests
