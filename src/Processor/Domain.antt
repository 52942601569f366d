-- ===== src/Processor/Domain.antt =====
-- services/processor/internal/domain: the events of the two queues and the validation of a raw event.
pub mod Event
pub mod Rules
pub mod Stability
