-- ===== src/Lib.antt =====
-- labubu: an observability server for agents. This library models the core of its Go code and
-- proves what makes that core correct. Paths are from the repository's root.
--
-- The parts and how they meet
--   Spans and logs arrive at the receivers, pass through the pipeline's buffer and are written to a
--   store, which keeps spans, aggregates them into traces and prices them. Queries read the store.
--   The alerting engine looks at the stored traces at intervals, drives one state machine for each
--   rule and trace, keeps the states in a file of its own and hands events to notifiers.
--
-- Which file models what
--   Base          what the parts share: lists, Go strings, integers with their wrap-around
--                 (`to_int64`, `u32`, `u16`), maps as association lists (Base/Dict), sort.Slice as
--                 an interface (Base/Sort), strconv.ParseUint (Base/Strconv), floats as an
--                 interface (Base/Floats), and the slice of one page (Base/Page).
--   Alerting      internal/alerting. Types: types.go. Conditions: evaluateConditions and its
--                 comparisons. Machine: driveStateMachine, with a transition relation in
--                 Machine/Relation. Store: store.go, with its laws in Store/Laws and its file in
--                 Store/Persistence. Engine: one call of Evaluate in engine.go, with Engine/Alert
--                 for one alert over time, Engine/Cycle for a whole cycle, and Engine/Story for the
--                 events of successive cycles, alert by alert.
--   Storage       internal/storage and internal/pricing. Types and Ids and Text: storage.go.
--                 Tokens: tokens.go. Aggregate: aggregateTraces of chdb_query.go and the merge in
--                 InsertSpans of memstore.go. Pricing: pricing.go. Mem: the in-memory store of
--                 memstore.go, with Mem/Retention for Purge and PurgeLogs, Mem/Persist for the
--                 methods that write its JSON file, Mem/Consistency for its invariant,
--                 Mem/PurgeLaws for what Purge keeps, Mem/Configs for the default and the masked
--                 key of the LLM configurations, Mem/Costs for UpdateTraceCost, and Mem/Reload for
--                 the loading of a saved file. Text/Search: containsSubstring. Context:
--                 session_context.go. Logs: the log methods of memstore.go. AgentStats:
--                 agent_stats.go. Traces: ListTraces of memstore.go, with Traces/Messages for the
--                 messages it attaches and Traces/Detail for GetTrace. Sessions: the session
--                 queries of memstore.go, with Sessions/Summary for a session's sums in any order
--                 of its traces, Sessions/Totals for its figures and Sessions/Groups for the groups of ListSessions. CostSummary:
--                 GetCostSummary of memstore.go. Sql: the literals and filters of chdb_query.go, with
--                 Sql/Reading for a reader of SQL text, Sql/Clauses for the pieces of a filter and
--                 Sql/Filters for the filters read again.
--   Pipeline      internal/pipeline/pipeline.go: Ingest, Shutdown, worker and flush as steps that
--                 goroutines take in any order, over an interface of a store, which the in-memory
--                 store fills in Tests/Pipeline.
--   Receiver      internal/receiver. Proto: the messages as far as they are read, attribute maps and
--                 the table of alternative keys in otlp.go. Aliases and Buckets:
--                 normalizeAttributes, and the token counts after it. Spans: the translation of
--                 spans, resources and scopes, with Timing for their times. Logs:
--                 logs_translator.go. Export: Export and handleHTTPTraces over an interface of the
--                 pipeline, with Delivery for what becomes of a request's batches.
--   Metrics       internal/api/metrics_handler.go: the computations on metric points, with
--                 Metrics/Nearest for pickClosestPoint and Metrics/Matching for labelsMatchForRatio.
--   Tests         the theorems at concrete inputs, and runs of the modelled code.
--
-- How the code is modelled
--   State is a record that each operation returns anew. A method that holds its lock throughout is
--   one step; where the code releases the lock in between, as Ingest does, the two halves are
--   steps of their own. A map is a list of pairs whose order stands for the order in which `range`
--   meets the entries, so that a theorem about every list covers every order. A file is the data
--   that its text stands for, or one of the ways in which it cannot be read. What becomes of a write
--   is an argument: it fails, or it leaves the data as encoding/json gives them back, which may
--   differ from what went in, as text that is not valid UTF-8 is replaced.
--   The clock, new identifiers and the registry of notifiers are arguments. An out-of-range slice,
--   a send on a closed channel and a second closing of it are results of their own.
--   sort.Slice is assumed to return a rearrangement that is sorted where the order is a strict
--   weak one, and no more: it is not stable. Of floats nothing is assumed.
--
-- Bounds and fuel
--   Times are int64 and spans' times uint64, token counts uint32 and span counts uint16, each with
--   its wrap-around. The walk to a span's owner in session_context.go has the code's own bound of
--   500 rounds; all other loops are by recursion on the list they run over. The theorems on pages
--   ask that the numbers of a query fit 63 bits.
--
-- What is not modelled
--   encoding/json, fmt and the text of files, the servers, the decoding of protobuf messages, the
--   translation of metrics, the parsing, grouping and downsampling of metric queries, the SQL
--   stores (sqlite_store.go, chdb.go and most statements of chdb_query.go), the other HTTP handlers,
--   mail and webhook notifiers, the polling loops and the web client.
pub mod Base
pub mod Alerting
pub mod Storage
pub mod Pipeline
pub mod Receiver
pub mod Metrics
mod Tests
