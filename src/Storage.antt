-- ===== src/Storage.antt =====
-- internal/storage: the data of traces, spans and logs, their aggregation, and the in-memory store.
pub mod Types
pub mod Ids
pub mod Text
pub mod Tokens
pub mod Aggregate
pub mod Pricing
pub mod Mem
pub mod Context
pub mod Logs
pub mod AgentStats
pub mod Traces
pub mod Sessions
pub mod Sql
pub mod CostSummary
