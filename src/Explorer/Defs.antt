-- ===== src/Explorer/Defs.antt =====
-- The panel's state, its search, and its handlers.
mod Search
mod State
mod Opening
mod Menus
mod Objects
unfoldable pub use Search.*
unfoldable pub use State.*
unfoldable pub use Opening.*
unfoldable pub use Menus.*
unfoldable pub use Objects.*
