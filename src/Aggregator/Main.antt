-- ===== src/Aggregator/Main.antt =====
-- services/aggregator/cmd/aggregator/main.go.
pub mod Defs
pub mod Served
pub mod Exit
