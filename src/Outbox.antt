-- ===== src/Outbox.antt =====
-- core/pkg/outbox/consumer.go: the bridge from the outbox stream to the event bus. The cache of
-- seen ids is in Outbox/Dedup, the delays in Outbox/Backoff, the loop in Outbox/Consumer, Start and
-- Stop in Outbox/Lifecycle.
pub mod Dedup
pub mod Backoff
pub mod Consumer
pub mod Lifecycle
mod Tests
