-- ===== src/Storage/Traces.antt =====
-- The trace queries of internal/storage/memstore.go: ListTraces and GetTrace.
pub mod Messages
pub mod Listing
pub mod Detail
use labubu.Base.{
  ℕ, zero, suc, ◌+◌, ◌-◌, ◌*◌, ◌/◌, ◌%◌, ◌^◌, ◌≤◌, ◌<◌, ◌≡◌, refl, sym, ap, ◌∙◌, ◌≢◌, ◌↔◌, ◌⊎◌, inl,
  inr, Bool, true, false, not, ◌&&◌, ◌||◌, Option, none, some, List, [], ◌∷◌, ◌++◌, map, arith, ltb,
  leb, ◌==◌, ==_iff, if◌then◌else◌, Bool-cases, Option-cases, length, take, drop, keep, count, any,
  all, All, length-append, length-take, length-drop, length-keep, count_split, keep-append,
  keep-All, All-append, All-weaken,
}
use labubu.Base.Int.{
  ℤ, pos, negsuc, pos_part, neg_part, ◌+ℤ◌, ◌-ℤ◌, ◌*ℤ◌, ◌≤ℤ◌, ◌<ℤ◌, ltb_ℤ, leb_ℤ, to_int64,
  int64_half, int_laws,
}
use labubu.Base.Str.{Str, codes, str_eq, str_eq_iff, str_eq_self, is_empty}
use labubu.Base.Dict.{
  Eq, nat_eq, bytes_eq, Dict, lookup, insert, delete, has, lookup-insert, lookup-insert_self,
  lookup-delete, Distinct, has-insert, has_of_delete, insert-Distinct, delete-Distinct,
  insert_fresh, has_of_append, has-eq-lookup, insert-All, keep-All_of_All,
}
use labubu.Base.Sort.{
  Sorter, IsSorted, IsWeakOrder, insertion_sort, insertion, count-perm, length-perm, All-perm,
}
use labubu.Base.Strconv.{parse_uint, parse_uint-lt}
use labubu.Base.Time.{Time, Duration, seconds, sub_time, seconds-eq_of_lt}
use labubu.Base.Words.{u16, u32, u64, sub_u64, u32-add, u16-add, sub_u64-eq}
use labubu.Base.Floats.{Floats, whole}
use labubu.Base.Page.{paginate, paginate_lem}
use labubu.Storage.Types.{Span, Trace, Pagination, attribute}
use labubu.Storage.Ids.{trace_id_to_hex, span_id_to_hex}
use labubu.Storage.Text.{contains_substring, status_code_to_string, kind_to_string}
use labubu.Storage.Aggregate.{is_root_span}
use labubu.Storage.Mem.{MemStore, entries}

pub record TraceQuery (F : Type 0) : Type 0 where
  pub page : ℤ
  pub page_size : ℤ
  pub service : Str
  pub status : Str
  pub query : Str
  pub start_time_ms : ℕ
  pub end_time_ms : ℕ
  pub min_duration : ℕ
  pub max_duration : ℕ
  pub min_span_count : ℕ
  pub max_span_count : ℕ
  pub min_cost : F
  pub max_cost : F

pub record TraceListItem (F : Type 0) : Type 0 where
  pub trace_id_hex : Str
  pub root_span_id : Str
  pub root_name : Str
  pub root_service : Str
  pub start_time_ms : ℕ
  pub duration_ms : ℕ
  pub span_count : ℕ
  pub status : Str
  pub total_tokens : Option ℕ
  pub cost : Option F
  pub cost_currency : Str
  pub input_messages : Option Str

pub record TraceListResult (F : Type 0) : Type 0 where
  pub traces : List (TraceListItem F)
  pub pagination : Pagination

abbrev pub service_of : {F : Type 0} → Trace F → Str
service_of t = attribute (codes "service.name") t.resource_attrs

module _ (fl : Floats) where
  open fl use {Float, zero_float, less}

  -- `t.Cost == nil || *t.Cost < q.MinCost`, and the test of the upper bound.
  abbrev pub too_cheap : Float → Option Float → Bool
  too_cheap bound none = true
  too_cheap bound (some c) = less c bound

  abbrev pub too_dear : Float → Option Float → Bool
  too_dear bound none = true
  too_dear bound (some c) = less bound c

  -- The tests of the filter loop, each of which skips the trace.
  unfoldable pub trace_matches : TraceQuery Float → Trace Float → Bool
  trace_matches q t =
      not (not (is_empty q.service) && not (str_eq (service_of t) q.service))
      && not
          (not (is_empty q.status) && not (str_eq (status_code_to_string t.status_code) q.status))
      && not (not (is_empty q.query) && not (contains_substring t.root_name q.query))
      && not (ltb 0 q.start_time_ms && ltb t.start_time_ms q.start_time_ms)
      && not (ltb 0 q.end_time_ms && ltb q.end_time_ms t.start_time_ms)
      && not (ltb 0 q.min_duration && ltb t.duration_ms q.min_duration)
      && not (ltb 0 q.max_duration && ltb q.max_duration t.duration_ms)
      && not (ltb 0 q.min_span_count && ltb t.span_count q.min_span_count)
      && not (ltb 0 q.max_span_count && ltb q.max_span_count t.span_count)
      && not (less zero_float q.min_cost && too_cheap q.min_cost t.cost)
      && not (less zero_float q.max_cost && too_dear q.max_cost t.cost)

module _ {F : Type 0} where
  abbrev pub trace_later : Trace F → Trace F → Bool
  trace_later a b = ltb b.start_time_ms a.start_time_ms

  unfoldable pub trace_item : Trace F → TraceListItem F
  trace_item t = record {
    trace_id_hex = trace_id_to_hex t.trace_id;
    root_span_id = span_id_to_hex t.root_span_id;
    root_name = t.root_name;
    root_service = service_of t;
    start_time_ms = t.start_time_ms;
    duration_ms = t.duration_ms;
    span_count = t.span_count;
    status = status_code_to_string t.status_code;
    total_tokens = t.total_tokens;
    cost = t.cost;
    cost_currency = t.cost_currency;
    input_messages = none;
  }

  -- `idxByTid`: where an item stands, by its trace; a later item replaces an earlier one.
  unfoldable pub index_items : ℕ → List (TraceListItem F) → Dict Str ℕ → Dict Str ℕ
  index_items n [] index = index
  index_items n (i ∷ is) index = index_items (n + 1) is (insert i.trace_id_hex n index)

  -- `items[idx].InputMessages = &vv`
  unfoldable pub set_message : ℕ → Str → List (TraceListItem F) → List (TraceListItem F)
  set_message n v [] = []
  set_message zero v (i ∷ is) = record i { input_messages = some v } ∷ is
  set_message (suc n) v (i ∷ is) = i ∷ set_message n v is

  -- The input messages that a span brings along: those of a root span, where they are not empty.
  abbrev pub messages_of : Span F → Str
  messages_of s =
      if is_root_span s.parent_span_id
      then attribute (codes "gen_ai.input.messages") s.attributes
      else []

  abbrev pub set_found : Str → Option ℕ → List (TraceListItem F) → List (TraceListItem F)
  set_found v none items = items
  set_found v (some n) items = set_message n v items

  -- The loop that attaches the messages, with the index of the items as it was at the start.
  unfoldable pub attach_spans :
      Dict Str ℕ → List (Span F) → List (TraceListItem F) → List (TraceListItem F)
  attach_spans index [] items = items
  attach_spans index (s ∷ ss) items = attach_spans index ss (
      if is_empty (messages_of s)
      then items
      else set_found (messages_of s) (lookup (trace_id_to_hex s.trace_id) index) items)

  unfoldable pub attach_messages : List (Span F) → List (TraceListItem F) → List (TraceListItem F)
  attach_messages spans items = attach_spans (index_items 0 items []) spans items

module _ (fl : Floats) where
  open fl use {Float}

  -- The traces that pass, the latest first.
  unfoldable pub matching_traces : Sorter → TraceQuery Float → MemStore Float → List (Trace Float)
  matching_traces sorter q m =
      sorter.sort_slice trace_later (keep (trace_matches fl q) (entries m.traces))

  abbrev pub trace_page :
      MemStore Float
      → TraceQuery Float
      → ℕ
      → Option (List (Trace Float))
      → Option (TraceListResult Float)
  trace_page m q total none = none
  trace_page m q total (some page) = some (record {
    traces = attach_messages m.spans (map trace_item page);
    pagination = record { page = q.page; page_size = q.page_size; total = total };
  })

  -- A page that lies outside panics, which is `none`.
  unfoldable pub list_traces :
      Sorter → MemStore Float → TraceQuery Float → Option (TraceListResult Float)
  list_traces sorter m q =
      let found = matching_traces sorter q m in
      trace_page m q (length found) (paginate q.page q.page_size found)
