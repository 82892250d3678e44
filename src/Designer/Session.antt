-- ===== src/Designer/Session.antt =====
-- Sessions at a panel: what the buttons, the form and the mouse can do, in any order.
pub mod Steps
pub mod Synced
pub mod Locked
