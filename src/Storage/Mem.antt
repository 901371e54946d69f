-- ===== src/Storage/Mem.antt =====
-- The in-memory store of internal/storage/memstore.go: its state, and InsertSpans.
pub mod Retention
pub mod Persist
pub mod Consistency
pub mod PurgeLaws
pub mod Configs
pub mod Costs
pub mod Reload
use labubu.Base.{
  ℕ, zero, suc, ◌+◌, ◌-◌, ◌*◌, ◌/◌, ◌%◌, ◌^◌, ◌≤◌, ◌<◌, ◌≡◌, refl, sym, ap, ◌∙◌, ◌≢◌, ◌↔◌, ◌⊎◌, inl,
  inr, Bool, true, false, not, ◌&&◌, ◌||◌, Option, none, some, List, [], ◌∷◌, ◌++◌, map, arith, ltb,
  leb, ◌==◌, ==_iff, if◌then◌else◌, Bool-cases, Option-cases, length, take, drop, keep, count, any,
  all, All, length-append, length-take, length-drop, length-keep, count_split, keep-append,
  keep-All,
}
use labubu.Base.Int.{
  ℤ, pos, negsuc, pos_part, neg_part, ◌+ℤ◌, ◌-ℤ◌, ◌*ℤ◌, ◌≤ℤ◌, ◌<ℤ◌, ltb_ℤ, leb_ℤ, to_int64,
  int_laws,
}
use labubu.Base.Str.{Str, codes, str_eq, str_eq_iff, str_eq_self, is_empty}
use labubu.Base.Dict.{
  Eq, nat_eq, bytes_eq, Dict, lookup, insert, delete, has, lookup-insert, lookup-insert_self,
  lookup-delete, Distinct, has-insert, has_of_delete, insert-Distinct, delete-Distinct,
  insert_fresh, has_of_append, has-eq-lookup, insert-All, keep-All_of_All,
}
use labubu.Base.Sort.{
  Sorter, IsSorted, IsWeakOrder, insertion_sort, insertion, count-perm, length-perm, All-perm,
}
use labubu.Base.Strconv.{parse_uint, parse_uint-lt}
use labubu.Base.Time.{Time, Duration, seconds, sub_time, seconds-eq_of_lt}
use labubu.Base.Words.{u16, u32, u64, sub_u64, u32-add, u16-add, sub_u64-eq}
use labubu.Base.Floats.{Floats, whole}
use labubu.Base.Page.{paginate}
use labubu.Storage.Types.{
  Span, ResourceInfo, ScopeInfo, Trace, LogRecord, ModelPricing, LlmConfig, attribute,
}
use labubu.Storage.Aggregate.{aggregate_traces, merge_trace}
use labubu.Storage.Pricing.{no_tokens, named_model, find_pricing}

pub record DiagnosisScores : Type 0 where
  pub latency : ℤ
  pub cost : ℤ
  pub error : ℤ
  pub efficiency : ℤ

pub record DiagnosisFinding : Type 0 where
  pub severity : Str
  pub dimension : Str
  pub title : Str
  pub description : Str
  pub suggestion : Str
  pub span_name : Str
  pub span_index : ℤ

pub record DiagnosisResult : Type 0 where
  pub trace_id : ℕ
  pub trace_id_hex : Str
  pub model_name : Str
  pub scores : DiagnosisScores
  pub overall_score : ℕ
  pub findings : List DiagnosisFinding
  pub summary : Str
  pub spans_snapshot : Str
  pub raw_response : Str
  pub created_at : Time
  pub stale : Bool

pub record PersistedMemData (F : Type 0) : Type 0 where
  pub model_pricing : List (ModelPricing F)
  pub llm_configs : List (LlmConfig F)
  pub diagnosis_results : List DiagnosisResult

-- The file at `jsonPath`: none, one that cannot be read, an empty one, text that is no JSON of this
-- shape, or saved data.
pub data MemFile (F : Type 0) : Type 0 where
  missing unreadable empty_file broken : MemFile F
  holds : PersistedMemData F → MemFile F

-- The lock is not modelled: each method runs as one step.
pub record MemStore (F : Type 0) : Type 0 where
  pub spans : List (Span F)
  pub traces : Dict ℕ (Trace F)
  pub services : Dict Str Bool
  pub logs : List LogRecord
  pub pricing : Dict Str (ModelPricing F)
  pub llm_configs : Dict Str (LlmConfig F)
  pub diagnosis_results : Dict ℕ DiagnosisResult
  pub json_path : Str
  pub file : MemFile F

unfoldable pub entries {ℓ κ} : {K : Type ℓ} {V : Type κ} → Dict K V → List V
entries [] = []
entries ((k, v) ∷ m) = v ∷ entries m

module _ {F : Type 0} where
  -- One round of the merge loop: the stored trace with the batch's, or the batch's alone.
  abbrev pub merged_with : Trace F → Option (Trace F) → Trace F
  merged_with trace none = trace
  merged_with trace (some existing) = merge_trace trace existing

  unfoldable pub merge_all : Dict ℕ (Trace F) → Dict ℕ (Trace F) → Dict ℕ (Trace F)
  unfolding lookup insert
  merge_all [] traces = traces
  merge_all ((id, trace) ∷ rest) traces =
      merge_all rest (insert id (merged_with trace (lookup id traces)) traces)

module _ (fl : Floats) where
  open fl use {Float, zero_float, add, mul, div, of_nat, constant, round}

  -- The variables of the cost loop of one trace.
  pub record CostSum : Type 0 where
    pub total : Float
    pub currency : Str
    pub has_cost : Bool

  -- An absent count is 0.
  abbrev inserted_count : Option ℕ → Float
  inserted_count none = of_nat 0
  inserted_count (some n) = of_nat n

  -- The loop's own formula of a span's cost, to six decimals.
  unfoldable pub inserted_cost : ModelPricing Float → Span Float → Float
  inserted_cost p s =
      let input_t = inserted_count s.input_tokens in
      let output_t = inserted_count s.output_tokens in
      let cc_t = inserted_count s.cache_creation_tokens in
      let cr_t = inserted_count s.cache_read_tokens in
      let span_cost =
        div
          (add
            (add (add (mul input_t p.input_price) (mul (mul cc_t p.input_price) (constant 125 100)))
              (mul (mul cr_t p.input_price) (constant 1 10)))
            (mul output_t p.output_price))
          (constant 1000000 1) in
      div (round (mul span_cost (constant 1000000 1))) (constant 1000000 1)

  abbrev pub set_cost : ModelPricing Float → Span Float → Span Float
  set_cost p s = record s { cost = some (inserted_cost p s); cost_currency = p.currency }

  abbrev pub sum_cost : ModelPricing Float → Span Float → CostSum → CostSum
  sum_cost p s acc = record {
    total = add acc.total (inserted_cost p s);
    currency = if is_empty acc.currency then p.currency else acc.currency;
    has_cost = true;
  }

  -- The price of a span: none if it has no tokens, no model, or a model without one.
  abbrev price_of_model : List (ModelPricing Float) → Option Str → Option (ModelPricing Float)
  price_of_model ps none = none
  price_of_model ps (some model) = find_pricing fl model ps

  unfoldable pub price_of : List (ModelPricing Float) → Span Float → Option (ModelPricing Float)
  unfolding find_pricing
  price_of ps s =
      if no_tokens s.total_tokens
      then none
      else price_of_model ps (named_model s.gen_ai_request_model)

  -- A span with its price, and the sums with that span's cost.
  abbrev pub priced : Option (ModelPricing Float) → Span Float → Span Float
  priced none s = s
  priced (some p) s = set_cost p s

  abbrev pub summed : Option (ModelPricing Float) → Span Float → CostSum → CostSum
  summed none s acc = acc
  summed (some p) s acc = sum_cost p s acc

  -- The price that one round finds for a span: none for a span of another trace.
  abbrev pub price_in : ℕ → List (ModelPricing Float) → Span Float → Option (ModelPricing Float)
  price_in id ps s = if not (s.trace_id == id) then none else price_of ps s

  -- The loop over the stored spans: those of the trace get their cost.
  unfoldable pub price_spans :
      ℕ → List (ModelPricing Float) → List (Span Float) → CostSum → List (Span Float) × CostSum
  price_spans id ps [] acc = ([], acc)
  price_spans id ps (s ∷ ss) acc =
      let (ss', acc') = price_spans id ps ss (summed (price_in id ps s) s acc) in
      (priced (price_in id ps s) s ∷ ss', acc')

  -- The cost of one trace of the batch.
  abbrev pub price_stored : ℕ → MemStore Float → Option (Trace Float) → MemStore Float
  price_stored id m none = m
  price_stored id m (some merged) =
      if no_tokens merged.total_tokens
      then m
      else let (spans', acc) =
          price_spans id (entries m.pricing) m.spans
            (record { total = zero_float; currency = []; has_cost = false }) in
        if acc.has_cost
        then record m {
          spans = spans';
          traces =
              insert id (record merged { cost = some acc.total; cost_currency = acc.currency })
                m.traces;
        }
        else record m { spans = spans' }

  unfoldable pub price_traces : Dict ℕ (Trace Float) → MemStore Float → MemStore Float
  unfolding lookup insert price_spans price_of entries
  price_traces [] m = m
  price_traces ((id, t) ∷ rest) m = price_traces rest (price_stored id m (lookup id m.traces))

  -- `if svc := …; svc != "" { m.services[svc] = true }`
  abbrev track_service : Str → Dict Str Bool → Dict Str Bool
  track_service svc services = if not (is_empty svc) then insert svc true services else services

  unfoldable pub insert_spans :
      MemStore Float → ResourceInfo → ScopeInfo → List (Span Float) → MemStore Float
  unfolding merge_all price_traces aggregate_traces attribute
  insert_spans m resource scope in_spans =
      let trace_map = aggregate_traces resource scope in_spans in
      price_traces trace_map (record m {
        spans = m.spans ++ in_spans;
        traces = merge_all trace_map m.traces;
        services = track_service (attribute (codes "service.name") resource.attributes) m.services;
      })
