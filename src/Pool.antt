-- ===== src/Pool.antt =====
-- The dispatcher of a worker pool, which the two services share word for word.
pub mod Defs
pub mod Schedule
pub mod Outage
pub mod Delivery
pub mod Drain
pub mod Grace
pub mod Select
