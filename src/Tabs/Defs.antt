-- ===== src/Tabs/Defs.antt =====
-- The state of the tabs and its operations, by the closures of one render.
mod Types
mod Operations
mod Bar
unfoldable pub use Types.*
unfoldable pub use Operations.*
unfoldable pub use Bar.*
