-- ===== src/Answers/Defs.antt =====
-- The state that the answers change, and their handlers.
mod State
mod KeyValue
mod Menu
unfoldable pub use State.*
unfoldable pub use KeyValue.*
unfoldable pub use Menu.*
