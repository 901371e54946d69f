-- ===== src/Storage/Aggregate.antt =====
-- Trace-level aggregates: aggregateTraces of internal/storage/chdb_query.go, and the merge of a new
-- batch into a stored trace in InsertSpans of internal/storage/memstore.go.
pub mod PerTrace
pub mod Summary
pub mod Batches
pub mod DurationLaws
use labubu.Base.{
  ℕ, zero, suc, ◌+◌, ◌-◌, ◌*◌, ◌/◌, ◌%◌, ◌^◌, ◌≤◌, ◌<◌, ◌≡◌, refl, sym, ap, ◌∙◌, ◌≢◌, ◌↔◌, ◌⊎◌, inl,
  inr, Bool, true, false, not, ◌&&◌, ◌||◌, Option, none, some, List, [], ◌∷◌, ◌++◌, map, arith, ltb,
  leb, ◌==◌, ==_iff, if◌then◌else◌, Bool-cases, Option-cases, length, take, drop, keep, count, any,
  all, All, length-append, length-take, length-drop, length-keep, count_split, keep-append,
  keep-All,
}
use labubu.Base.Int.{
  ℤ, pos, negsuc, pos_part, neg_part, ◌+ℤ◌, ◌-ℤ◌, ◌*ℤ◌, ◌≤ℤ◌, ◌<ℤ◌, ltb_ℤ, leb_ℤ, to_int64,
  int_laws,
}
use labubu.Base.Str.{Str, codes, str_eq, str_eq_iff, str_eq_self, is_empty}
use labubu.Base.Dict.{
  Eq, nat_eq, bytes_eq, Dict, lookup, insert, delete, has, lookup-insert, lookup-insert_self,
  lookup-delete, Distinct, has-insert, has_of_delete, insert-Distinct, delete-Distinct,
  insert_fresh, has_of_append, has-eq-lookup, insert-All, keep-All_of_All,
}
use labubu.Base.Sort.{
  Sorter, IsSorted, IsWeakOrder, insertion_sort, insertion, count-perm, length-perm, All-perm,
}
use labubu.Base.Strconv.{parse_uint, parse_uint-lt}
use labubu.Base.Time.{Time, Duration, seconds, sub_time, seconds-eq_of_lt}
use labubu.Base.Words.{u16, u32, u64, sub_u64, u32-add, u16-add, sub_u64-eq}
use labubu.Base.Floats.{Floats, whole}
use labubu.Base.Page.{paginate}
use labubu.Storage.Types.{Span, ResourceInfo, ScopeInfo, Trace}
use labubu.Storage.Ids.{trace_id_to_hex}

-- `*a + *b` on `uint32`, where an absent count leaves the other one as it is.
abbrev pub merge_tokens : Option ℕ → Option ℕ → Option ℕ
merge_tokens a none = a
merge_tokens none (some n) = some n
merge_tokens (some m) (some n) = some (u32 (m + n))

-- A session identifier that is there replaces the one at hand.
abbrev session_or : Option Str → Str → Str
session_or none old = old
session_or (some sid) old = sid

abbrev pub is_root_span : ℕ → Bool
is_root_span parent_span_id = parent_span_id == 0

abbrev pub session_key : Str
session_key = codes "jiuwenclaw.session.id"

module _ {F : Type 0} where
  unfoldable pub new_trace : ResourceInfo → ScopeInfo → Span F → Trace F
  unfolding trace_id_to_hex
  new_trace resource scope span = record {
    trace_id = span.trace_id;
    trace_id_hex = trace_id_to_hex span.trace_id;
    root_span_id = 0;
    root_name = [];
    span_count = 0;
    start_time_ms = span.start_time_ms;
    end_time_ms = span.end_time_ms;
    duration_ms = span.duration_ms;
    resource_attrs = resource.attributes;
    resource_schema_url = resource.schema_url;
    scope_name = scope.name;
    scope_version = scope.version;
    scope_attrs = scope.attributes;
    scope_schema_url = scope.schema_url;
    status_code = span.status_code;
    status_message = span.status_message;
    total_tokens = none;
    cost = none;
    cost_currency = [];
    session_id = [];
  }

  -- `if isRootSpan(span.ParentSpanID) { … }`
  unfoldable pub note_root : Span F → Trace F → Trace F
  unfolding lookup
  note_root span t =
      if is_root_span span.parent_span_id
      then record t {
        root_span_id = span.span_id;
        root_name = span.name;
        status_code = span.status_code;
        status_message = span.status_message;
        session_id = session_or (lookup session_key span.attributes) t.session_id;
      }
      else t

  -- The start is lowered first; the duration is set only where the end moves.
  unfoldable pub widen : ℕ → ℕ → Trace F → Trace F
  widen start_ms end_ms t =
      let start = if ltb start_ms t.start_time_ms then start_ms else t.start_time_ms in
      if ltb t.end_time_ms end_ms
      then record t {
        start_time_ms = start;
        end_time_ms = end_ms;
        duration_ms = sub_u64 end_ms start;
      }
      else record t { start_time_ms = start }

  -- The body of the loop over the spans, from the root test on.
  unfoldable pub add_span : Span F → Trace F → Trace F
  unfolding note_root widen
  add_span span t =
      let t' = note_root span t in
      let t'' =
        widen span.start_time_ms span.end_time_ms
          (record t' { span_count = u16 (t'.span_count + 1) }) in
      record t'' { total_tokens = merge_tokens t''.total_tokens span.total_tokens }

  -- The trace of the span so far, or a new one.
  abbrev pub trace_or_new : ResourceInfo → ScopeInfo → Span F → Option (Trace F) → Trace F
  trace_or_new resource scope span none = new_trace resource scope span
  trace_or_new resource scope span (some t) = t

  unfoldable pub aggregate_from :
      ResourceInfo → ScopeInfo → List (Span F) → Dict ℕ (Trace F) → Dict ℕ (Trace F)
  unfolding lookup insert add_span
  aggregate_from resource scope [] traces = traces
  aggregate_from resource scope (span ∷ spans) traces =
      let t = trace_or_new resource scope span (lookup span.trace_id traces) in
      aggregate_from resource scope spans (insert span.trace_id (add_span span t) traces)

  unfoldable pub aggregate_traces : ResourceInfo → ScopeInfo → List (Span F) → Dict ℕ (Trace F)
  unfolding aggregate_from
  aggregate_traces resource scope spans = aggregate_from resource scope spans []

  -- `if trace.RootName != "" { … }`
  unfoldable pub merge_root : Trace F → Trace F → Trace F
  merge_root trace existing =
      if not (is_empty trace.root_name)
      then record existing {
        root_span_id = trace.root_span_id;
        root_name = trace.root_name;
        status_code = trace.status_code;
        status_message = trace.status_message;
        session_id =
            if not (is_empty trace.session_id) then trace.session_id else existing.session_id;
      }
      else existing

  -- A stored trace with the aggregate of a new batch.
  unfoldable pub merge_trace : Trace F → Trace F → Trace F
  unfolding widen merge_root
  merge_trace trace existing =
      let t =
        widen trace.start_time_ms trace.end_time_ms
          (record existing { span_count = u16 (existing.span_count + trace.span_count) }) in
      merge_root trace (record t { total_tokens = merge_tokens t.total_tokens trace.total_tokens })
