-- ===== src/Processor/Main.antt =====
-- services/processor/cmd/processor/main.go.
pub mod Defs
pub mod Exit
