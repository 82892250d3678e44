-- ===== src/Grid/Defs.antt =====
-- The state of the table, what its rows report, and the buttons.
mod State
mod Saving
mod Rows
unfoldable pub use State.*
unfoldable pub use Saving.*
unfoldable pub use Rows.*
