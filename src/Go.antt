-- ===== src/Go.antt =====
-- What the services use of Go itself: error values, instants, float64 and text.
pub mod Error
pub mod Call
pub mod Time
pub mod Float
pub mod Text
pub mod Decimal
pub mod Json
pub mod Process
