-- ===== src/Aggregator/Repository.antt =====
-- services/aggregator/internal/infra/repository/dynamodb.go.
pub mod Defs
pub mod Contract
pub mod Totals
pub mod Sums
pub mod Bag
