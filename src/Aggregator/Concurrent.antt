-- ===== src/Aggregator/Concurrent.antt =====
-- Several workers of services/aggregator at once: the calls of `AggregateEvent.Execute` and of
-- `Pool.handle` are steps that interleave.
pub mod Defs
pub mod Safe
pub mod Interleavings
pub mod Sums
pub mod Orders
