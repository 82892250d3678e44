-- ===== src/WeekTime/Grid.antt =====
-- The grid and the state of the component `DragWeekTime`, with its handlers.
mod Cells
mod Handlers
mod Periods
unfoldable pub use Cells.*
unfoldable pub use Handlers.*
unfoldable pub use Periods.*
