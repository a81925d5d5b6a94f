-- ===== src/Workers.antt =====
-- workers: the outbox worker, and the consumer of leaf-flow's events.
pub mod OutboxWorker
pub mod LeafEventsConsumer
pub mod StreamConsumer
pub mod StreamLoop
pub mod ConsumerRun
