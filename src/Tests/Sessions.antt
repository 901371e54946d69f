-- ===== src/Tests/Sessions.antt =====
-- The theorems on the trace and session queries at concrete records (internal/storage).
use labubu.Base.{
  ℕ, ◌+◌, ◌*◌, ◌≡◌, refl, none, some, List, [], ◌∷◌, map, arith, length, take, drop, keep, any,
}
use labubu.Base.Int.{pos}
use labubu.Base.Str.{Str, codes, str_eq}
use labubu.Base.Dict.{nat_eq, bytes_eq, lookup, insert, has}
use labubu.Base.Sort.{insertion_sort, insertion}
use labubu.Base.Floats.{whole}
use labubu.Storage.Types.{Span, Trace, attribute}
use labubu.Storage.Ids.{trace_id_to_hex}
use labubu.Storage.Text.{contains_substring, status_code_to_string}
use labubu.Storage.Mem.{MemStore, missing, entries}
use labubu.Storage.Traces.{
  TraceQuery, trace_item, trace_matches, attach_messages, matching_traces, list_traces,
}
use labubu.Storage.Traces.Messages.{with_last_message, attach_messages-eq-map}
use labubu.Storage.Traces.Listing.{IsTraceListing, list_traces_lem}
use labubu.Storage.Traces.Detail.{get_trace, IsTraceSpans, described_trace, get_trace_lem}
use labubu.Storage.Sessions.{
  SessionQuery, SessionAgg, matched_sessions, session_matches, group_sessions, session_traces,
  session_groups, session_items, list_sessions, get_session,
}
use labubu.Storage.Sessions.Listing.{
  IsSessionListing, list_sessions_lem, IsSessionTraces, described_session, get_session_lem,
}
use labubu.Storage.CostSummary.{
  CostQuery, get_cost_summary, costly_traces, summary_by_service, group_spans,
}
use labubu.Storage.CostSummary.Adds.{IsAddedUp, get_cost_summary-IsAddedUp}
use labubu.Storage.Sql.{NumberTexts, build_trace_where_clause}
use labubu.Storage.Sql.Reading.{read_sql, in_code, marks_all}
use labubu.Storage.Sql.Clauses.{where_pieces}
use labubu.Storage.Sql.Filters.{trace_pieces, read_sql-build_trace_where_clause}

abbrev trace_at : ℕ → ℕ → Trace ℕ
trace_at id time = record {
  trace_id = id;
  trace_id_hex = [];
  root_span_id = id;
  root_name = codes "run";
  span_count = 1;
  start_time_ms = time;
  end_time_ms = time + 4;
  duration_ms = 4;
  resource_attrs = (codes "service.name", codes "agent") ∷ [];
  resource_schema_url = [];
  scope_name = [];
  scope_version = [];
  scope_attrs = [];
  scope_schema_url = [];
  status_code = pos 2;
  status_message = [];
  total_tokens = some 7;
  cost = none;
  cost_currency = [];
  session_id = codes "s";
}

abbrev span_at : ℕ → ℕ → ℕ → ℕ → Span ℕ
span_at trace id parent time = record {
  trace_id = trace;
  span_id = id;
  parent_span_id = parent;
  name = codes "run";
  kind = pos 1;
  start_time_ms = time;
  end_time_ms = time + 4;
  duration_ms = 4;
  attributes = (codes "gen_ai.input.messages", codes "hello") ∷ [];
  events = [];
  links = [];
  status_code = pos 1;
  status_message = [];
  input_tokens = none;
  output_tokens = none;
  total_tokens = none;
  cache_creation_tokens = none;
  cache_read_tokens = none;
  gen_ai_request_model = none;
  cost = none;
  cost_currency = [];
  trace_state = [];
}

abbrev traced : MemStore ℕ
traced = record {
  spans = span_at 1 5 4 12 ∷ span_at 1 4 0 10 ∷ span_at 2 6 0 20 ∷ [];
  traces = (1, trace_at 1 10) ∷ (2, trace_at 2 20) ∷ [];
  services = [];
  logs = [];
  pricing = [];
  llm_configs = [];
  diagnosis_results = [];
  json_path = [];
  file = missing;
}

abbrev all_traces : TraceQuery ℕ
all_traces = record {
  page = pos 1;
  page_size = pos 1;
  service = codes "agent";
  status = codes "ERROR";
  query = [];
  start_time_ms = 0;
  end_time_ms = 0;
  min_duration = 0;
  max_duration = 0;
  min_span_count = 0;
  max_span_count = 0;
  min_cost = 0;
  max_cost = 0;
}

attach_messages-eq-map_example :
    attach_messages traced.spans (map trace_item (trace_at 1 10 ∷ trace_at 2 20 ∷ []))
    ≡ map (with_last_message traced.spans) (map trace_item (trace_at 1 10 ∷ trace_at 2 20 ∷ []))
unfolding trace_item any str_eq trace_id_to_hex
attach_messages-eq-map_example =
    attach_messages-eq-map traced.spans (map trace_item (trace_at 1 10 ∷ trace_at 2 20 ∷ []))
      (refl, (refl, tt))

list_traces_lem_example :
    (found : List (Trace ℕ)) × IsTraceListing whole all_traces (entries traced.traces) found
    × (list_traces whole insertion traced all_traces
        ≡ some (record {
          traces = attach_messages traced.spans (map trace_item (take 1 (drop (0 * 1) found)));
          pagination = record { page = pos 1; page_size = pos 1; total = length found };
        }))
unfolding matching_traces insertion_sort keep entries trace_matches str_eq contains_substring
    attribute status_code_to_string
list_traces_lem_example =
    list_traces_lem whole insertion traced all_traces 0 1 refl refl (omega arith) (omega arith)
      (omega arith)

abbrev no_json : Str → List ℕ
no_json s = []

get_trace_lem_example :
    (found : List (Span ℕ)) × IsTraceSpans 1 traced.spans found
    × (get_trace no_json insertion traced 1
        ≡ some (described_trace no_json 1 (lookup 1 traced.traces) found))
get_trace_lem_example = get_trace_lem no_json insertion traced 1

abbrev all_sessions : SessionQuery
all_sessions = record {
  page = pos 1;
  page_size = pos 5;
  service = [];
  query = [];
  start_time_ms = 15;
  end_time_ms = 0;
}

list_sessions_lem_example :
    (found : List (Str × SessionAgg)) × IsSessionListing whole insertion all_sessions traced found
    × (list_sessions whole insertion traced all_sessions
        ≡ some (record {
          sessions = session_items whole (take 5 (drop (0 * 5) found));
          pagination = record { page = pos 1; page_size = pos 5; total = length found };
        }))
unfolding session_groups matched_sessions session_matches group_sessions insert has entries
    insertion_sort str_eq lookup
list_sessions_lem_example =
    list_sessions_lem whole insertion traced all_sessions 0 5 refl refl (omega arith) (omega arith)
      (omega arith)

get_session_lem_example :
    (found : List (Trace ℕ)) × IsSessionTraces whole (codes "s") (entries traced.traces) found
    × (get_session whole insertion traced (codes "s") (pos 1) (pos 5)
        ≡ some (described_session whole traced (codes "s") 0 5 found))
unfolding session_traces insertion_sort keep entries str_eq
get_session_lem_example =
    get_session_lem whole insertion traced (codes "s") 0 4 (omega arith) (omega arith) (omega arith)

abbrev by_service : CostQuery
by_service = record { start_time_ms = 0; end_time_ms = 0; group_by = codes "service" }

abbrev costed : MemStore ℕ
costed = record traced {
  spans =
      record (span_at 1 4 0 10) {
        total_tokens = some 7;
        input_tokens = some 3;
        output_tokens = some 4;
      }
      ∷ record (span_at 1 5 4 12) { total_tokens = some 2; input_tokens = some 2 }
      ∷ [];
  traces = (1, record (trace_at 1 10) { cost = some 5 }) ∷ (2, trace_at 2 20) ∷ [];
}

get_cost_summary-IsAddedUp_example : IsAddedUp (get_cost_summary whole insertion costed by_service)
get_cost_summary-IsAddedUp_example = get_cost_summary-IsAddedUp whole insertion costed by_service

-- Both spans count, and the service has five input tokens.
five_inputs :
    map (λ i. i.input_tokens) (get_cost_summary whole insertion costed by_service).by_service
    ≡ 5 ∷ []
unfolding get_cost_summary costly_traces summary_by_service group_spans insertion_sort insert lookup
    has str_eq attribute
five_inputs = refl

abbrev one_digit : NumberTexts ℕ
one_digit = record {
  format_uint = λ n. codes "7";
  format_float = λ x. codes "0.5";
  format_uint-All = λ n. (refl, tt);
  format_float-All = λ x. (refl, (refl, (refl, tt)));
}

-- A service that tries to end its literal.
abbrev hostile : TraceQuery ℕ
hostile = record all_traces { service = codes "x' OR 'a'='a"; query = codes "\\" }

read_sql-build_trace_where_clause_example :
    read_sql in_code (build_trace_where_clause whole one_digit hostile)
    ≡ marks_all (where_pieces (trace_pieces whole one_digit hostile))
read_sql-build_trace_where_clause_example =
    read_sql-build_trace_where_clause whole one_digit hostile
