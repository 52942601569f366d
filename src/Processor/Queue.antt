-- ===== src/Processor/Queue.antt =====
-- services/processor/internal/infra/queue/sqs.go.
pub mod Defs
pub mod Partition
