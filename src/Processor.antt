-- ===== src/Processor.antt =====
-- services/processor: raw events in, validated and enriched events out.
pub mod Domain
pub mod UseCase
pub mod Queue
pub mod Worker
pub mod Config
pub mod Codec
pub mod Main
