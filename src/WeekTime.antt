-- ===== src/WeekTime.antt =====
-- its mouse handlers, and the texts of periods that it reads and writes.
pub mod Date
pub mod Label
pub mod Grid
pub mod Zone
pub mod Paint
pub mod Spans
pub mod SpanText
pub mod RoundTrip
pub mod WeekRoundTrip
pub mod Standard
pub mod Select
mod Tests
