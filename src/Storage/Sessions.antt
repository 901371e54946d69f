-- ===== src/Storage/Sessions.antt =====
-- The session queries of internal/storage/memstore.go: ListSessions, GetSession, GetServices,
-- GetSessionAgentStats and GetSessionContextSpans.
pub mod Summary
pub mod Totals
pub mod Groups
pub mod Listing
use labubu.Base.{
  ℕ, zero, suc, ◌+◌, ◌-◌, ◌*◌, ◌/◌, ◌%◌, ◌^◌, ◌≤◌, ◌<◌, ◌≡◌, refl, sym, ap, ◌∙◌, ◌≢◌, ◌↔◌, ◌⊎◌, inl,
  inr, Bool, true, false, not, ◌&&◌, ◌||◌, Option, none, some, List, [], ◌∷◌, ◌++◌, map, arith, ltb,
  leb, ◌==◌, ==_iff, if◌then◌else◌, Bool-cases, Option-cases, length, take, get_elem?, drop, keep,
  count, any, all, All, length-append, length-take, length-drop, length-keep, count_split,
  keep-append, keep-All, All-append, All-weaken,
}
use labubu.Base.Int.{
  ℤ, pos, negsuc, pos_part, neg_part, ◌+ℤ◌, ◌-ℤ◌, ◌*ℤ◌, ◌≤ℤ◌, ◌<ℤ◌, ltb_ℤ, leb_ℤ, to_int64,
  int64_half, int_laws,
}
use labubu.Base.Str.{Str, codes, str_eq, str_eq_iff, str_eq_self, is_empty}
use labubu.Base.Dict.{
  Eq, nat_eq, bytes_eq, Dict, lookup, insert, delete, has, lookup-insert, lookup-insert_self,
  lookup-delete, Distinct, has-insert, has_of_delete, insert-Distinct, delete-Distinct,
  insert_fresh, has_of_append, has-eq-lookup, insert-All, keep-All_of_All,
}
use labubu.Base.Sort.{
  Sorter, IsSorted, IsWeakOrder, insertion_sort, insertion, count-perm, length-perm, All-perm,
}
use labubu.Base.Strconv.{parse_uint, parse_uint-lt}
use labubu.Base.Time.{Time, Duration, seconds, sub_time, seconds-eq_of_lt}
use labubu.Base.Words.{u16, u32, u64, sub_u64, u32-add, u16-add, sub_u64-eq}
use labubu.Base.Floats.{Floats, whole}
use labubu.Base.Page.{paginate, paginate_lem}
use labubu.Storage.Types.{Span, Trace, Pagination, attribute}
use labubu.Storage.Ids.{trace_id_to_hex, span_id_to_hex}
use labubu.Storage.Text.{contains_substring}
use labubu.Storage.Mem.{MemStore, entries}
use labubu.Storage.Traces.{TraceListItem, service_of, trace_item, attach_messages}
use labubu.Storage.Logs.{str_less}
use labubu.Storage.AgentStats.{AgentStats, InsightText, compute_agent_stats}
use labubu.Storage.Context.{SpanInput, SessionContextSpan, compute_session_context_spans}

pub record SessionQuery : Type 0 where
  pub page : ℤ
  pub page_size : ℤ
  pub service : Str
  pub query : Str
  pub start_time_ms : ℕ
  pub end_time_ms : ℕ

pub record SessionListItem (F : Type 0) : Type 0 where
  pub session_id : Str
  pub trace_count : ℕ
  pub total_tokens : Option ℕ
  pub cost : Option F
  pub cost_currency : Str
  pub total_duration_ms : ℕ
  pub max_duration_ms : ℕ
  pub avg_duration_ms : F
  pub error_count : ℕ
  pub error_rate : F
  pub first_active_ms : ℕ
  pub last_active_ms : ℕ

pub record SessionListResult (F : Type 0) : Type 0 where
  pub sessions : List (SessionListItem F)
  pub pagination : Pagination

pub record SessionDetail (F : Type 0) : Type 0 where
  pub session : SessionListItem F
  pub traces : List (TraceListItem F)
  pub pagination : Pagination

-- The variables that both methods keep over a session's traces.
pub record SessionSums : Type 0 where
  pub total_tokens : ℕ
  pub has_tokens : Bool
  pub total_duration_ms : ℕ
  pub max_duration_ms : ℕ
  pub error_count : ℕ
  pub first_active_ms : ℕ
  pub last_active_ms : ℕ

-- `agg`
pub record SessionAgg : Type 0 where
  pub trace_count : ℕ
  pub sums : SessionSums

-- `totalTokens += *t.TotalTokens` on `uint32`
abbrev pub add_tokens : ℕ → Option ℕ → ℕ
add_tokens total none = total
add_tokens total (some n) = u32 (total + n)

abbrev pub note_tokens : Bool → Option ℕ → Bool
note_tokens seen none = seen
note_tokens seen (some n) = true

-- `t.StatusCode == 2`
abbrev pub is_error_code : ℤ → Bool
is_error_code (pos n) = n == 2
is_error_code (negsuc n) = false

module _ {F : Type 0} where
  -- Whether a trace lets its session appear.
  unfoldable pub session_matches : SessionQuery → Trace F → Bool
  session_matches q t =
      not (is_empty t.session_id)
      && not (not (is_empty q.service) && not (str_eq (service_of t) q.service))
      && not (not (is_empty q.query) && not (contains_substring t.session_id q.query))
      && not (ltb 0 q.start_time_ms && ltb t.start_time_ms q.start_time_ms)
      && not (ltb 0 q.end_time_ms && ltb q.end_time_ms t.start_time_ms)

  -- The first pass: `matched`.
  unfoldable pub matched_sessions : SessionQuery → List (Trace F) → Dict Str Bool → Dict Str Bool
  matched_sessions q [] matched = matched
  matched_sessions q (t ∷ ts) matched =
      matched_sessions q ts
        (if session_matches q t then insert t.session_id true matched else matched)

  unfoldable pub new_sums : Trace F → SessionSums
  new_sums t = record {
    total_tokens = 0;
    has_tokens = false;
    total_duration_ms = 0;
    max_duration_ms = 0;
    error_count = 0;
    first_active_ms = t.start_time_ms;
    last_active_ms = t.start_time_ms;
  }

  -- One round of the loop over the traces.
  unfoldable pub add_trace : Trace F → SessionSums → SessionSums
  add_trace t g = record {
    total_tokens = add_tokens g.total_tokens t.total_tokens;
    has_tokens = note_tokens g.has_tokens t.total_tokens;
    total_duration_ms = u64 (g.total_duration_ms + t.duration_ms);
    max_duration_ms =
        if ltb g.max_duration_ms t.duration_ms then t.duration_ms else g.max_duration_ms;
    error_count = if is_error_code t.status_code then g.error_count + 1 else g.error_count;
    first_active_ms =
        if ltb t.start_time_ms g.first_active_ms then t.start_time_ms else g.first_active_ms;
    last_active_ms =
        if ltb g.last_active_ms t.start_time_ms then t.start_time_ms else g.last_active_ms;
  }

  unfoldable pub sum_traces : List (Trace F) → SessionSums → SessionSums
  sum_traces [] g = g
  sum_traces (t ∷ ts) g = sum_traces ts (add_trace t g)

  abbrev pub agg_or_new : Trace F → Option SessionAgg → SessionAgg
  agg_or_new t none = record { trace_count = 0; sums = new_sums t }
  agg_or_new t (some g) = g

  abbrev pub count_trace : Trace F → SessionAgg → SessionAgg
  count_trace t g = record { trace_count = g.trace_count + 1; sums = add_trace t g.sums }

  -- The second pass: all traces of the sessions that matched, whether they match themselves or not.
  unfoldable pub group_sessions :
      Dict Str Bool → List (Trace F) → Dict Str SessionAgg → Dict Str SessionAgg
  group_sessions matched [] groups = groups
  group_sessions matched (t ∷ ts) groups = group_sessions matched ts (
      if has t.session_id matched
      then insert t.session_id (count_trace t (agg_or_new t (lookup t.session_id groups))) groups
      else groups)

  unfoldable pub session_groups : SessionQuery → MemStore F → Dict Str SessionAgg
  session_groups q m =
      group_sessions (matched_sessions q (entries m.traces) []) (entries m.traces) []

  abbrev pub of_session : Str → Trace F → Bool
  of_session session_id t = str_eq t.session_id session_id

  abbrev pub starts_earlier : Trace F → Trace F → Bool
  starts_earlier a b = ltb a.start_time_ms b.start_time_ms

abbrev pub active_later : Str × SessionAgg → Str × SessionAgg → Bool
active_later a b = ltb b.1.sums.last_active_ms a.1.sums.last_active_ms

module _ (fl : Floats) where
  open fl use {Float, zero_float, of_nat, div}

  unfoldable pub session_item : Str → ℕ → SessionSums → SessionListItem Float
  session_item id trace_count g = record {
    session_id = id;
    trace_count = trace_count;
    total_tokens = if g.has_tokens then some g.total_tokens else none;
    cost = none;
    cost_currency = [];
    total_duration_ms = g.total_duration_ms;
    max_duration_ms = g.max_duration_ms;
    avg_duration_ms =
        if ltb 0 trace_count
        then div (of_nat g.total_duration_ms) (of_nat trace_count)
        else zero_float;
    error_count = g.error_count;
    error_rate =
        if ltb 0 trace_count then div (of_nat g.error_count) (of_nat trace_count) else zero_float;
    first_active_ms = g.first_active_ms;
    last_active_ms = g.last_active_ms;
  }

  abbrev pub session_items : List (Str × SessionAgg) → List (SessionListItem Float)
  session_items page =
      map (λ (e : Str × SessionAgg). session_item e.0 e.1.trace_count e.1.sums) page

  abbrev pub session_page :
      SessionQuery → ℕ → Option (List (Str × SessionAgg)) → Option (SessionListResult Float)
  session_page q total none = none
  session_page q total (some page) = some (record {
    sessions = session_items page;
    pagination = record { page = q.page; page_size = q.page_size; total = total };
  })

  -- A page that lies outside panics, which is `none`.
  unfoldable pub list_sessions :
      Sorter → MemStore Float → SessionQuery → Option (SessionListResult Float)
  list_sessions sorter m q =
      let found = sorter.sort_slice active_later (session_groups q m) in
      session_page q (length found) (paginate q.page q.page_size found)

  -- `if len(pageTraces) > 0 { … }`
  abbrev pub attach_to_page :
      List (Span Float) → List (TraceListItem Float) → List (TraceListItem Float)
  attach_to_page spans [] = []
  attach_to_page spans (i ∷ is) = attach_messages spans (i ∷ is)

  abbrev pub detail_page :
      MemStore Float
      → SessionListItem Float
      → ℤ
      → ℤ
      → ℕ
      → Option (List (TraceListItem Float))
      → Option (Option (SessionDetail Float))
  detail_page m summary page page_size total none = none
  detail_page m summary page page_size total (some items) = some (
      some (record {
        session = summary;
        traces = attach_to_page m.spans items;
        pagination = record { page = page; page_size = page_size; total = total };
      }))

  -- The summary of the sorted traces, which are the first one and the others.
  unfoldable pub session_summary : Str → Trace Float → List (Trace Float) → SessionListItem Float
  session_summary id t ts = session_item id (length (t ∷ ts)) (sum_traces (t ∷ ts) (new_sums t))

  abbrev pub session_detail :
      MemStore Float → Str → ℤ → ℤ → List (Trace Float) → Option (Option (SessionDetail Float))
  session_detail m id page page_size [] = some none
  session_detail m id page page_size (t ∷ ts) =
      let items = map trace_item (t ∷ ts) in
      detail_page m (session_summary id t ts) page page_size (length items)
        (paginate page page_size items)

  unfoldable pub session_traces : Sorter → MemStore Float → Str → List (Trace Float)
  session_traces sorter m id =
      sorter.sort_slice starts_earlier (keep (of_session id) (entries m.traces))

  -- The outer `none` is a panic, the inner one the `nil` of a session without traces.
  unfoldable pub get_session :
      Sorter → MemStore Float → Str → ℤ → ℤ → Option (Option (SessionDetail Float))
  get_session sorter m id page page_size =
      let page' = if ltb_ℤ page (pos 1) then pos 1 else page in
      let page_size' = if ltb_ℤ page_size (pos 1) then pos 20 else page_size in
      session_detail m id page' page_size' (session_traces sorter m id)

  -- `traceIDs`
  unfoldable pub trace_ids : List (Trace Float) → Dict ℕ Bool → Dict ℕ Bool
  trace_ids [] ids = ids
  trace_ids (t ∷ ts) ids = trace_ids ts (insert t.trace_id true ids)

  unfoldable pub session_spans : MemStore Float → List (Trace Float) → List (Span Float)
  session_spans m ts = keep (λ (s : Span Float). has s.trace_id (trace_ids ts [])) m.spans

  abbrev pub stats_of :
      InsightText Float → Sorter → MemStore Float → List (Trace Float) → Option (AgentStats Float)
  stats_of text sorter m [] = none
  stats_of text sorter m (t ∷ ts) =
      some (compute_agent_stats fl text sorter (t ∷ ts) (session_spans m (t ∷ ts)))

  unfoldable pub get_session_agent_stats :
      InsightText Float → Sorter → MemStore Float → Str → Option (AgentStats Float)
  get_session_agent_stats text sorter m id =
      stats_of text sorter m (keep (of_session id) (entries m.traces))

  -- `rootByTrace`
  unfoldable pub roots_by_trace : List (Trace Float) → Dict Str Str → Dict Str Str
  roots_by_trace [] roots = roots
  roots_by_trace (t ∷ ts) roots =
      roots_by_trace ts (insert t.trace_id_hex (span_id_to_hex t.root_span_id) roots)

  abbrev pub span_input : Span Float → SpanInput
  span_input s = record {
    trace_id_hex = trace_id_to_hex s.trace_id;
    span_id_hex = span_id_to_hex s.span_id;
    parent_span_id_hex = span_id_to_hex s.parent_span_id;
    name = s.name;
    start_time_ms = s.start_time_ms;
    input_tokens = s.input_tokens;
    output_tokens = s.output_tokens;
    total_tokens = s.total_tokens;
    cache_read_tokens = s.cache_read_tokens;
    cache_creation_tokens = s.cache_creation_tokens;
    gen_ai_request_model = s.gen_ai_request_model;
  }

  abbrev pub context_of :
      Sorter → MemStore Float → List (Trace Float) → Option (List SessionContextSpan)
  context_of sorter m [] = none
  context_of sorter m (t ∷ ts) = some (
      compute_session_context_spans sorter (roots_by_trace (t ∷ ts) [])
        (map span_input (session_spans m (t ∷ ts))))

  unfoldable pub get_session_context_spans :
      Sorter → MemStore Float → Str → Option (List SessionContextSpan)
  get_session_context_spans sorter m id =
      context_of sorter m (keep (of_session id) (entries m.traces))

-- `GetServices`
unfoldable pub get_services : {F : Type 0} → Sorter → MemStore F → List Str
get_services sorter m = sorter.sort_slice str_less (map (λ (e : Str × Bool). e.0) m.services)
