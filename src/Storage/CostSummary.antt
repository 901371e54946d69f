-- ===== src/Storage/CostSummary.antt =====
-- GetCostSummary of internal/storage/memstore.go.
pub mod Adds
use labubu.Base.{
  ℕ, zero, suc, ◌+◌, ◌-◌, ◌*◌, ◌/◌, ◌%◌, ◌^◌, ◌≤◌, ◌<◌, ◌≡◌, refl, sym, ap, ◌∙◌, ◌≢◌, ◌↔◌, ◌⊎◌, inl,
  inr, Bool, true, false, not, ◌&&◌, ◌||◌, Option, none, some, List, [], ◌∷◌, ◌++◌, map, arith, ltb,
  leb, ◌==◌, ==_iff, if◌then◌else◌, Bool-cases, Option-cases, length, take, get_elem?, drop, keep,
  count, any, all, All, length-append, length-take, length-drop, length-keep, count_split,
  keep-append, keep-All, All-append, All-weaken,
}
use labubu.Base.Int.{
  ℤ, pos, negsuc, pos_part, neg_part, ◌+ℤ◌, ◌-ℤ◌, ◌*ℤ◌, ◌≤ℤ◌, ◌<ℤ◌, ltb_ℤ, leb_ℤ, to_int64,
  int64_half, int_laws,
}
use labubu.Base.Str.{Str, codes, str_eq, str_eq_iff, str_eq_self, is_empty}
use labubu.Base.Dict.{
  Eq, nat_eq, bytes_eq, Dict, lookup, insert, delete, has, lookup-insert, lookup-insert_self,
  lookup-delete, Distinct, has-insert, has_of_delete, insert-Distinct, delete-Distinct,
  insert_fresh, has_of_append, has-eq-lookup, insert-All, keep-All_of_All,
}
use labubu.Base.Sort.{
  Sorter, IsSorted, IsWeakOrder, insertion_sort, insertion, count-perm, length-perm, All-perm,
}
use labubu.Base.Strconv.{parse_uint, parse_uint-lt}
use labubu.Base.Time.{Time, Duration, seconds, sub_time, seconds-eq_of_lt}
use labubu.Base.Words.{u16, u32, u64, sub_u64, u32-add, u16-add, sub_u64-eq}
use labubu.Base.Floats.{Floats, whole}
use labubu.Base.Page.{paginate, paginate_lem}
use labubu.Storage.Types.{Span, Trace, attribute}
use labubu.Storage.Mem.{MemStore}

pub record CostQuery : Type 0 where
  pub start_time_ms : ℕ
  pub end_time_ms : ℕ
  pub group_by : Str

pub record CostOverview (F : Type 0) : Type 0 where
  pub total_cost : F
  pub total_tokens : ℕ
  pub total_input_tokens : ℕ
  pub total_cache_creation_tokens : ℕ
  pub total_cache_read_tokens : ℕ
  pub total_output_tokens : ℕ
  pub avg_cost_per_trace : F
  pub trace_count : ℕ

pub record ModelCostItem (F : Type 0) : Type 0 where
  pub model : Str
  pub cost : F
  pub tokens : ℕ
  pub input_tokens : ℕ
  pub cache_creation_tokens : ℕ
  pub cache_read_tokens : ℕ
  pub output_tokens : ℕ
  pub trace_count : ℕ
  pub avg_cost : F

pub record ServiceCostItem (F : Type 0) : Type 0 where
  pub service : Str
  pub cost : F
  pub tokens : ℕ
  pub input_tokens : ℕ
  pub cache_creation_tokens : ℕ
  pub cache_read_tokens : ℕ
  pub output_tokens : ℕ
  pub trace_count : ℕ
  pub avg_cost : F

pub record CostSummaryResult (F : Type 0) : Type 0 where
  pub period : Str
  pub currency : Str
  pub overview : CostOverview F
  pub group_by : Str
  pub by_model : List (ModelCostItem F)
  pub by_service : List (ServiceCostItem F)

-- `modelAgg` and `svcAgg`, which are the same.
pub record CostAgg : Type 0 where
  pub cost : ℕ
  pub input : ℕ
  pub cc : ℕ
  pub cr : ℕ
  pub output : ℕ
  pub traces : Dict ℕ Bool

-- `oIn`, `oCC`, `oCR`, `oOut`
pub record TokenTotals : Type 0 where
  pub input : ℕ
  pub cc : ℕ
  pub cr : ℕ
  pub output : ℕ

pub record CostGroups : Type 0 where
  pub groups : Dict Str CostAgg
  pub totals : TokenTotals

abbrev pub no_groups : CostGroups
no_groups = record { groups = []; totals = record { input = 0; cc = 0; cr = 0; output = 0 } }

-- `if p != nil { total += uint64(*p) }`
abbrev pub add_count : ℕ → Option ℕ → ℕ
add_count total none = total
add_count total (some n) = u64 (total + n)

abbrev pub unknown_if_empty : Str → Str
unknown_if_empty name = if is_empty name then codes "(unknown)" else name

abbrev pub cost_group_or_new : Option CostAgg → CostAgg
cost_group_or_new none = record { cost = 0; input = 0; cc = 0; cr = 0; output = 0; traces = [] }
cost_group_or_new (some g) = g

abbrev pub is_absent : Option ℕ → Bool
is_absent none = true
is_absent (some n) = false

abbrev pub model_of_span : Option Str → Str
model_of_span none = codes "(unknown)"
model_of_span (some name) = unknown_if_empty name

module _ {F : Type 0} where
  abbrev pub service_of_trace : Option (Trace F) → Str
  service_of_trace none = codes "(unknown)"
  service_of_trace (some t) = unknown_if_empty (attribute (codes "service.name") t.resource_attrs)

  abbrev pub in_range : CostQuery → Trace F → Bool
  in_range q t =
      not (ltb 0 q.start_time_ms && ltb t.start_time_ms q.start_time_ms)
      && not (ltb 0 q.end_time_ms && ltb q.end_time_ms t.start_time_ms)

  abbrev pub note_totals : Span F → TokenTotals → TokenTotals
  note_totals s t = record {
    input = add_count t.input s.input_tokens;
    cc = add_count t.cc s.cache_creation_tokens;
    cr = add_count t.cr s.cache_read_tokens;
    output = add_count t.output s.output_tokens;
  }

module _ (fl : Floats) where
  open fl use {Float, zero_float, add, mul, div, of_nat, round, equal, truncate}

  -- `costlyTraces`, `totalCost` and `currency`
  pub record CostlyTraces : Type 0 where
    pub ids : Dict ℕ Bool
    pub total_cost : Float
    pub currency : Str

  -- The cost of a trace that has one which is not zero.
  abbrev pub cost_of : Option Float → Option Float
  cost_of none = none
  cost_of (some c) = if equal c zero_float then none else some c

  abbrev pub add_costly : ℕ → Trace Float → Option Float → CostlyTraces → CostlyTraces
  add_costly id t none acc = acc
  add_costly id t (some c) acc = record {
    ids = insert id true acc.ids;
    total_cost = add acc.total_cost c;
    currency =
        if is_empty acc.currency && not (is_empty t.cost_currency)
        then t.cost_currency
        else acc.currency;
  }

  unfoldable pub costly_traces : CostQuery → Dict ℕ (Trace Float) → CostlyTraces → CostlyTraces
  costly_traces q [] acc = acc
  costly_traces q ((id, t) ∷ traces) acc =
      costly_traces q traces (if in_range q t then add_costly id t (cost_of t.cost) acc else acc)

  -- `uint64(math.Round(*s.Cost * 1e6))`
  abbrev pub add_micros : ℕ → Option Float → ℕ
  add_micros total none = total
  add_micros total (some c) = u64 (total + truncate (round (mul c (of_nat 1000000))))

  abbrev pub note_span : Span Float → CostAgg → CostAgg
  note_span s g = record {
    cost = add_micros g.cost s.cost;
    input = add_count g.input s.input_tokens;
    cc = add_count g.cc s.cache_creation_tokens;
    cr = add_count g.cr s.cache_read_tokens;
    output = add_count g.output s.output_tokens;
    traces = insert s.trace_id true g.traces;
  }

  abbrev pub counts_span : Dict ℕ Bool → Span Float → Bool
  counts_span ids s = has s.trace_id ids && not (is_absent s.total_tokens)

  abbrev pub group_span : (Span Float → Str) → Span Float → CostGroups → CostGroups
  group_span key s st = record {
    groups = insert (key s) (note_span s (cost_group_or_new (lookup (key s) st.groups))) st.groups;
    totals = note_totals s st.totals;
  }

  abbrev pub group_if : Bool → (Span Float → Str) → Span Float → CostGroups → CostGroups
  group_if true key s st = group_span key s st
  group_if false key s st = st

  -- The loop over the spans; `key` is what they are grouped by.
  unfoldable pub group_spans :
      (Span Float → Str) → Dict ℕ Bool → List (Span Float) → CostGroups → CostGroups
  group_spans key ids [] st = st
  group_spans key ids (s ∷ ss) st = group_spans key ids ss (group_if (counts_span ids s) key s st)

  -- `math.Round(total/float64(count)*1e6) / 1e6`
  abbrev pub rounded_average : Float → ℕ → Float
  rounded_average total n =
      if ltb 0 n
      then div (round (mul (div total (of_nat n)) (of_nat 1000000))) (of_nat 1000000)
      else zero_float

  abbrev pub group_cost : CostAgg → Float
  group_cost g = div (of_nat g.cost) (of_nat 1000000)

  abbrev pub model_item : Str × CostAgg → ModelCostItem Float
  model_item (name, g) = record {
    model = name;
    cost = group_cost g;
    tokens = u64 (g.input + g.cc + g.cr + g.output);
    input_tokens = g.input;
    cache_creation_tokens = g.cc;
    cache_read_tokens = g.cr;
    output_tokens = g.output;
    trace_count = length g.traces;
    avg_cost = rounded_average (group_cost g) (length g.traces);
  }

  abbrev pub service_item : Str × CostAgg → ServiceCostItem Float
  service_item (name, g) = record {
    service = name;
    cost = group_cost g;
    tokens = u64 (g.input + g.cc + g.cr + g.output);
    input_tokens = g.input;
    cache_creation_tokens = g.cc;
    cache_read_tokens = g.cr;
    output_tokens = g.output;
    trace_count = length g.traces;
    avg_cost = rounded_average (group_cost g) (length g.traces);
  }

  abbrev pub cost_overview : CostlyTraces → TokenTotals → CostOverview Float
  cost_overview costly t = record {
    total_cost = costly.total_cost;
    total_tokens = u64 (t.input + t.cc + t.cr + t.output);
    total_input_tokens = t.input;
    total_cache_creation_tokens = t.cc;
    total_cache_read_tokens = t.cr;
    total_output_tokens = t.output;
    avg_cost_per_trace = rounded_average costly.total_cost (length costly.ids);
    trace_count = length costly.ids;
  }

  unfoldable pub summary_by_service :
      Sorter → MemStore Float → CostlyTraces → CostSummaryResult Float
  summary_by_service sorter m costly =
      let st =
        group_spans (λ s. service_of_trace (lookup s.trace_id m.traces)) costly.ids m.spans
          no_groups in
      record {
        period = [];
        currency = costly.currency;
        overview = cost_overview costly st.totals;
        group_by = codes "service";
        by_model = [];
        by_service = sorter.sort_slice (λ a b. fl.less b.cost a.cost) (map service_item st.groups);
      }

  unfoldable pub summary_by_model : Sorter → MemStore Float → CostlyTraces → CostSummaryResult Float
  summary_by_model sorter m costly =
      let st =
        group_spans (λ s. model_of_span s.gen_ai_request_model) costly.ids m.spans no_groups in
      record {
        period = [];
        currency = costly.currency;
        overview = cost_overview costly st.totals;
        group_by = codes "model";
        by_model = sorter.sort_slice (λ a b. fl.less b.cost a.cost) (map model_item st.groups);
        by_service = [];
      }

  unfoldable pub get_cost_summary : Sorter → MemStore Float → CostQuery → CostSummaryResult Float
  get_cost_summary sorter m q =
      let costly =
        costly_traces q m.traces (record { ids = []; total_cost = zero_float; currency = [] }) in
      if str_eq q.group_by (codes "service")
      then summary_by_service sorter m costly
      else summary_by_model sorter m costly
