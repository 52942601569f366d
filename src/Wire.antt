-- ===== src/Wire.antt =====
-- The queue processed-events between the services: what the processor publishes, as the aggregator
-- receives it.
pub mod Event
pub mod Delivery
pub mod Strict
pub mod Counted
pub mod Batches
pub mod Intake
pub mod Pipeline
