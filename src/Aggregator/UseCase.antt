-- ===== src/Aggregator/UseCase.antt =====
-- services/aggregator/internal/usecase/aggregate_event.go.
pub mod Defs
pub mod AtMostOnce
pub mod Complete
pub mod Lost
pub mod Sources
