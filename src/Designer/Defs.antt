-- ===== src/Designer/Defs.antt =====
-- The rows of a panel, the operations that the panels share, and what each panel does of its own.
mod Rows
mod Editing
mod Panels
mod Adding
unfoldable pub use Rows.*
unfoldable pub use Editing.*
unfoldable pub use Panels.*
unfoldable pub use Adding.*
