-- ===== src/Tests/Queries.antt =====
-- The theorems on logs, pages and session contexts at concrete records (internal/storage).
use labubu.Base.{
  ℕ, ◌*◌, ◌<◌, ◌≡◌, refl, ◌↔◌, true, none, some, List, [], ◌∷◌, map, arith, length, take, drop,
  keep,
}
use labubu.Base.Int.{pos}
use labubu.Base.Str.{Str, codes, str_eq}
use labubu.Base.Dict.{nat_eq, bytes_eq, Dict, lookup, insert}
use labubu.Base.Sort.{insertion_sort, insertion}
use labubu.Storage.Text.{contains_substring}
use labubu.Storage.Text.Search.{Occurs, contains_substring-iff_Occurs}
use labubu.Storage.Types.{LogRecord}
use labubu.Storage.Mem.{MemStore, missing}
use labubu.Storage.Logs.{LogQuery, log_item, log_matches, log_before, matching_logs, list_logs}
use labubu.Storage.Logs.Listing.{IsListing, list_logs_lem}
use labubu.Storage.Context.{
  SpanInput, is_invoke, by_id, owner_invoke, is_main_agent, context_span,
  compute_session_context_spans,
}
use labubu.Storage.Context.Owner.{
  Owner, owner_invoke-iff_Owner, IsMainCall, is_main_agent-iff_IsMainCall,
}

abbrev log_at : ℕ → ℕ → LogRecord
log_at trace time = record {
  trace_id = trace;
  span_id = 3;
  timestamp = time;
  severity = codes "INFO";
  event_name = codes "tool";
  body = codes "{}";
  attributes = [];
}

abbrev logged : MemStore ℕ
logged = record {
  spans = [];
  traces = [];
  services = [];
  logs = log_at 1 10 ∷ log_at 2 20 ∷ log_at 1 30 ∷ [];
  pricing = [];
  llm_configs = [];
  diagnosis_results = [];
  json_path = [];
  file = missing;
}

abbrev second_page : LogQuery
second_page = record {
  page = pos 2;
  page_size = pos 2;
  severity = [];
  event_name = codes "tool";
  query = [];
  trace_id = 0;
  span_id = 0;
  start_time = 0;
  end_time = 0;
  asc = true;
}

three : length (matching_logs str_eq insertion second_page logged.logs) ≡ 3
unfolding matching_logs insertion_sort keep log_matches str_eq log_before
three = refl

list_logs_lem_example :
    (found : List LogRecord) × IsListing str_eq second_page logged.logs found
    × (list_logs str_eq insertion logged second_page
        ≡ some (record {
          logs = map log_item (take 2 (drop (1 * 2) found));
          pagination = record { page = pos 2; page_size = pos 2; total = length found };
        }))
list_logs_lem_example =
    list_logs_lem str_eq insertion logged second_page 1 2 refl refl (omega arith) (omega arith)
      (omega (arith, three))

abbrev entries : List ℕ
entries = 10 ∷ 20 ∷ 30 ∷ []

abbrev call : Str → Str → Str → ℕ → SpanInput
call id parent name start = record {
  trace_id_hex = codes "t";
  span_id_hex = id;
  parent_span_id_hex = parent;
  name = name;
  start_time_ms = start;
  input_tokens = some 3;
  output_tokens = some 4;
  total_tokens = some 7;
  cache_read_tokens = none;
  cache_creation_tokens = none;
  gen_ai_request_model = none;
}

abbrev calls : List SpanInput
calls =
    call (codes "a") [] (codes "agent.invoke") 5 ∷ call (codes "b") (codes "a") (codes "llm") 3 ∷ []

abbrev roots : Dict Str Str
roots = (codes "t", codes "a") ∷ []

owner_invoke-iff_Owner_example :
    (owner_invoke 500 (by_id calls []) (some (call (codes "b") (codes "a") (codes "llm") 3))
      ≡ some (call (codes "a") [] (codes "agent.invoke") 5))
    ↔ ((n : ℕ) × (n < 500)
        × Owner
            (by_id calls [])
            n
            (call (codes "b") (codes "a") (codes "llm") 3)
            (call (codes "a") [] (codes "agent.invoke") 5))
owner_invoke-iff_Owner_example =
    owner_invoke-iff_Owner 500 (by_id calls []) (call (codes "b") (codes "a") (codes "llm") 3)
      (call (codes "a") [] (codes "agent.invoke") 5)

is_main_agent-iff_IsMainCall_example :
    (is_main_agent roots (by_id calls []) (call (codes "b") (codes "a") (codes "llm") 3) ≡ true)
    ↔ IsMainCall roots (by_id calls []) (call (codes "b") (codes "a") (codes "llm") 3)
is_main_agent-iff_IsMainCall_example =
    is_main_agent-iff_IsMainCall roots (by_id calls [])
      (call (codes "b") (codes "a") (codes "llm") 3)

-- Both spans are shown, the model call first.
both_calls :
    compute_session_context_spans insertion roots calls
    ≡ map context_span (
        call (codes "b") (codes "a") (codes "llm") 3
        ∷ call (codes "a") [] (codes "agent.invoke") 5
        ∷ [])
unfolding compute_session_context_spans is_main_agent by_id owner_invoke insertion_sort keep lookup
    insert is_invoke str_eq context_span
both_calls = refl

contains_substring-iff_Occurs_example :
    (contains_substring (codes "A Tool failed") (codes "tOOL") ≡ true)
    ↔ Occurs (codes "A Tool failed") (codes "tOOL")
contains_substring-iff_Occurs_example =
    contains_substring-iff_Occurs (codes "A Tool failed") (codes "tOOL")
