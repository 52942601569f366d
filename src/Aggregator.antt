-- ===== src/Aggregator.antt =====
-- services/aggregator: processed events in, rows of two DynamoDB tables and an HTTP API out.
pub mod Domain
pub mod UseCase
pub mod Repository
pub mod Worker
pub mod Concurrent
pub mod Api
pub mod Config
pub mod Queue
pub mod Codec
pub mod Main
pub mod Tracing
