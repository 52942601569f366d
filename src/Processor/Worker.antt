-- ===== src/Processor/Worker.antt =====
-- services/processor/internal/infra/worker/pool.go, less the dispatcher of `Pool`.
pub mod Defs
pub mod Acks
pub mod Published
