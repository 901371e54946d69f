-- ===== src/Tests/Storage.antt =====
-- The storage theorems at concrete spans and stores (internal/storage, internal/pricing).
use labubu.Base.{ℕ, ◌<◌, ◌≡◌, refl, none, some, List, [], ◌∷◌, arith}
use labubu.Base.Int.{pos}
use labubu.Base.Str.{Str, codes}
use labubu.Base.Dict.{nat_eq, bytes_eq, Dict, lookup}
use labubu.Base.Sort.{insertion}
use labubu.Base.Words.{u16, sub_u64}
use labubu.Base.Floats.{whole}
use labubu.Storage.Types.{Span, Trace, ResourceInfo, ScopeInfo, ModelPricing}
use labubu.Storage.Tokens.{derive_token_buckets, derive_token_buckets-IsTotalled, IsTotalled}
use labubu.Storage.Aggregate.{new_trace, add_span, aggregate_traces, merge_trace}
use labubu.Storage.Aggregate.PerTrace.{add_spans, trace_of, spans_of, lookup-aggregate_traces}
use labubu.Storage.Aggregate.Summary.{
  Sums, trace_of-Sums, least_start, greatest_end, summed_tokens, counts_of,
}
use labubu.Storage.Aggregate.Batches.{merge_trace-add_spans}
use labubu.Storage.Aggregate.DurationLaws.{add_span_stale_duration}
use labubu.Storage.Mem.{MemStore, missing, insert_spans}
use labubu.Storage.Mem.Retention.{purge}
use labubu.Storage.Mem.Consistency.{IsConsistent, insert_spans-IsConsistent, purge-IsConsistent}

abbrev usage : Dict Str Str
usage =
    (codes "gen_ai.usage.input_tokens", codes "ten")
    ∷ (codes "input_tokens", codes "10")
    ∷ (codes "output_tokens", codes "5")
    ∷ []

abbrev span_at : ℕ → ℕ → ℕ → ℕ → ℕ → Span ℕ
span_at trace id parent start end = record {
  trace_id = trace;
  span_id = id;
  parent_span_id = parent;
  name = codes "invoke";
  kind = pos 1;
  start_time_ms = start;
  end_time_ms = end;
  duration_ms = sub_u64 end start;
  attributes = usage;
  events = [];
  links = [];
  status_code = pos 1;
  status_message = [];
  input_tokens = some 10;
  output_tokens = some 5;
  total_tokens = some 15;
  cache_creation_tokens = none;
  cache_read_tokens = none;
  gen_ai_request_model = some (codes "m");
  cost = none;
  cost_currency = [];
  trace_state = [];
}

abbrev resource : ResourceInfo
resource = record { attributes = (codes "service.name", codes "agent") ∷ []; schema_url = [] }

abbrev scope : ScopeInfo
scope = record { name = codes "s"; version = []; attributes = []; schema_url = [] }

abbrev price : ModelPricing ℕ
price = record {
  model_name = codes "m";
  input_price = 2000000;
  output_price = 3000000;
  currency = codes "USD";
  context_window = pos 1000;
}

abbrev empty_store : MemStore ℕ
empty_store = record {
  spans = [];
  traces = [];
  services = [];
  logs = [];
  pricing = (codes "m", price) ∷ [];
  llm_configs = [];
  diagnosis_results = [];
  json_path = [];
  file = missing;
}

empty-IsConsistent : IsConsistent empty_store
empty-IsConsistent = record { owned = tt; distinct = tt }

abbrev batch : List (Span ℕ)
batch = span_at 1 11 0 1000 1500 ∷ span_at 2 21 0 2000 2500 ∷ span_at 1 12 11 1100 1900 ∷ []

abbrev filled : MemStore ℕ
filled = insert_spans whole empty_store resource scope batch

insert_spans-IsConsistent_example :
    IsConsistent (insert_spans whole empty_store resource scope batch)
insert_spans-IsConsistent_example =
    insert_spans-IsConsistent whole empty_store resource scope batch empty-IsConsistent

abbrev first_span : Span ℕ
first_span = span_at 1 11 0 1000 1500

abbrev later_span : Span ℕ
later_span = span_at 1 12 11 1100 1900

abbrev early_span : Span ℕ
early_span = span_at 1 13 11 900 1200

abbrev stored : Trace ℕ
unfolding new_trace
stored = new_trace resource scope first_span

merge_trace-add_spans_example :
    Sums
      (merge_trace
        (add_spans (later_span ∷ early_span ∷ []) (new_trace resource scope later_span))
        stored)
      (add_spans (later_span ∷ early_span ∷ []) stored).span_count
      (add_spans (later_span ∷ early_span ∷ []) stored).start_time_ms
      (add_spans (later_span ∷ early_span ∷ []) stored).end_time_ms
      (add_spans (later_span ∷ early_span ∷ []) stored).total_tokens
unfolding new_trace
merge_trace-add_spans_example =
    merge_trace-add_spans resource scope later_span (early_span ∷ []) stored (omega arith)

lookup-aggregate_traces_example :
    lookup 1 (aggregate_traces resource scope batch) ≡ trace_of resource scope (spans_of 1 batch)
lookup-aggregate_traces_example = lookup-aggregate_traces resource scope batch 1

trace_of-Sums_example :
    Sums
      (add_spans (first_span ∷ later_span ∷ []) (new_trace resource scope first_span))
      (u16 2)
      (least_start (first_span ∷ later_span ∷ []) 1000)
      (greatest_end (first_span ∷ later_span ∷ []) 1500)
      (summed_tokens (counts_of (first_span ∷ later_span ∷ [])))
trace_of-Sums_example = trace_of-Sums resource scope first_span (later_span ∷ [])

purge-IsConsistent_example : IsConsistent (purge insertion 3000 (pos 0) (pos 1) filled).0
purge-IsConsistent_example =
    purge-IsConsistent insertion 3000 (pos 0) (pos 1) filled insert_spans-IsConsistent_example

add_span_stale_duration_example :
    ((add_span early_span stored).duration_ms ≡ 500)
    × ((add_span early_span stored).duration_ms
        < sub_u64
            (add_span early_span stored).end_time_ms
            (add_span early_span stored).start_time_ms)
unfolding new_trace
add_span_stale_duration_example =
    add_span_stale_duration early_span stored (omega arith) (omega arith) (omega arith)
      (omega arith) refl

derive_token_buckets-IsTotalled_example : IsTotalled (derive_token_buckets usage)
derive_token_buckets-IsTotalled_example = derive_token_buckets-IsTotalled usage
