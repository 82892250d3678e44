-- ===== src/WeekTime/Standard.antt =====
-- Every handler keeps the seven days of 48 slots: only the marks change.
mod Shape
mod Rendering
mod Sessions
unfoldable pub use Shape.*
unfoldable pub use Rendering.*
unfoldable pub use Sessions.*
