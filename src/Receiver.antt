-- ===== src/Receiver.antt =====
-- internal/receiver: OTLP spans and logs turned into the storage package's records, and the services
-- that take them in.
pub mod Proto
pub mod Aliases
pub mod Buckets
pub mod Spans
pub mod Timing
pub mod Logs
pub mod Export
pub mod Delivery
