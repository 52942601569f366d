-- ===== src/Aggregator/Worker.antt =====
-- services/aggregator/internal/infra/worker/pool.go.
pub mod Defs
pub mod Intake
