-- ===== src/Tests.antt =====
-- The theorems at concrete inputs, and runs of the modelled code.
mod Alerting
mod Storage
mod Pipeline
mod Queries
mod Stats
mod Sessions
mod Receiver
mod Metrics
