-- ===== src/Storage/Aggregate/DurationLaws.antt =====
-- When the duration of an aggregated trace is the length of its time range, and when it is not
-- (aggregateTraces of internal/storage/chdb_query.go, InsertSpans of internal/storage/memstore.go).
use labubu.Base.{◌≤◌, ◌<◌, ◌≡◌, List, [], ◌∷◌, arith, All}
use labubu.Base.Dict.{nat_eq, bytes_eq}
use labubu.Base.Words.{sub_u64}
use labubu.Storage.Types.{Span, ResourceInfo, ScopeInfo, Trace}
use labubu.Storage.Aggregate.{new_trace, add_span}
use labubu.Storage.Aggregate.PerTrace.{add_spans}

module _ {F : Type 0} where
  abbrev pub IsTimed : Trace F → Type 0
  IsTimed t = t.duration_ms ≡ sub_u64 t.end_time_ms t.start_time_ms

  add_span-IsTimed :
      (s : Span F) (t : Trace F)
      → t.start_time_ms ≤ s.start_time_ms
      → IsTimed t
      → IsTimed (add_span s t) × ((add_span s t).start_time_ms ≡ t.start_time_ms)
  unfolding add_span
  add_span-IsTimed s t h timed = (ground arith, ground arith)

  add_spans-IsTimed :
      (ss : List (Span F)) (t : Trace F)
      → All (λ s. t.start_time_ms ≤ s.start_time_ms) ss
      → IsTimed t
      → IsTimed (add_spans ss t)
  unfolding add_spans
  add_spans-IsTimed [] t h timed = timed
  add_spans-IsTimed (s ∷ ss) t h timed =
      let (timed', same) = add_span-IsTimed s t h.0 timed in
      add_spans-IsTimed ss (add_span s t) (rw same h.1) timed'

  -- If no span begins before the first one of the batch, the trace's duration is the length of its
  -- time range.
  pub trace_of-IsTimed :
      (resource : ResourceInfo) (scope : ScopeInfo) (s : Span F) (ss : List (Span F))
      → s.duration_ms ≡ sub_u64 s.end_time_ms s.start_time_ms
      → All (λ x. s.start_time_ms ≤ x.start_time_ms) ss
      → IsTimed (add_spans (s ∷ ss) (new_trace resource scope s))
  unfolding new_trace
  trace_of-IsTimed resource scope s ss timed h =
      add_spans-IsTimed (s ∷ ss) (new_trace resource scope s) (omega arith, h) timed

  -- A span that begins before the trace and does not end after it moves the start and leaves the
  -- duration as it was: the duration is then shorter than the time range.
  pub add_span_stale_duration :
      (s : Span F) (t : Trace F)
      → s.start_time_ms < t.start_time_ms
      → t.start_time_ms ≤ t.end_time_ms
      → s.end_time_ms ≤ t.end_time_ms
      → t.end_time_ms < 18446744073709551616
      → IsTimed t
      → ((add_span s t).duration_ms ≡ t.duration_ms)
        × ((add_span s t).duration_ms
            < sub_u64 (add_span s t).end_time_ms (add_span s t).start_time_ms)
  unfolding add_span
  add_span_stale_duration s t early ordered inside bound timed = (ground arith, ground arith)
