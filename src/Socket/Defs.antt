-- ===== src/Socket/Defs.antt =====
-- The definitions of the connections.
mod Packets
mod State
mod Connection
mod Incoming
unfoldable pub use Packets.*
unfoldable pub use State.*
unfoldable pub use Connection.*
unfoldable pub use Incoming.*
