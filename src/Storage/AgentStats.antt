-- ===== src/Storage/AgentStats.antt =====
-- internal/storage/agent_stats.go: how the tool calls of a session went.
pub mod Loops
pub mod Calls
use labubu.Base.{
  ℕ, zero, suc, ◌+◌, ◌-◌, ◌*◌, ◌/◌, ◌%◌, ◌^◌, ◌≤◌, ◌<◌, ◌≡◌, refl, sym, ap, ◌∙◌, ◌≢◌, ◌↔◌, ◌⊎◌, inl,
  inr, Bool, true, false, not, ◌&&◌, ◌||◌, Option, none, some, List, [], ◌∷◌, ◌++◌, map, arith, ltb,
  leb, ◌==◌, ==_iff, if◌then◌else◌, Bool-cases, Option-cases, length, take, drop, keep, count, any,
  all, All, length-append, length-take, length-drop, length-keep, count_split, keep-append,
  keep-All, All-append, All-weaken,
}
use labubu.Base.Int.{
  ℤ, pos, negsuc, pos_part, neg_part, ◌+ℤ◌, ◌-ℤ◌, ◌*ℤ◌, ◌≤ℤ◌, ◌<ℤ◌, ltb_ℤ, leb_ℤ, to_int64,
  int_laws,
}
use labubu.Base.Str.{Str, codes, str_eq, str_eq_iff, str_eq_self, is_empty}
use labubu.Base.Dict.{
  Eq, nat_eq, bytes_eq, Dict, lookup, insert, delete, has, lookup-insert, lookup-insert_self,
  lookup-delete, Distinct, has-insert, has_of_delete, insert-Distinct, delete-Distinct,
  insert_fresh, has_of_append, has-eq-lookup, insert-All, keep-All_of_All,
}
use labubu.Base.Sort.{
  Sorter, IsSorted, IsWeakOrder, insertion_sort, insertion, count-perm, length-perm, All-perm,
}
use labubu.Base.Strconv.{parse_uint, parse_uint-lt}
use labubu.Base.Time.{Time, Duration, seconds, sub_time, seconds-eq_of_lt}
use labubu.Base.Words.{u16, u32, u64, sub_u64, u32-add, u16-add, sub_u64-eq}
use labubu.Base.Floats.{Floats, whole}
use labubu.Base.Page.{paginate}
use labubu.Storage.Types.{Span, Trace, attribute}
use labubu.Storage.Text.{status_code_to_string}

pub record ToolUsageItem (F : Type 0) : Type 0 where
  pub tool_name : Str
  pub call_count : ℕ
  pub success_rate : F
  pub avg_retries : F
  pub max_loop : ℕ

pub record AgentStats (F : Type 0) : Type 0 where
  pub trace_success_rate : F
  pub avg_tool_success_rate : F
  pub avg_retries : F
  pub avg_loop_depth : F
  pub max_loop_depth : ℕ
  pub span_per_trace : F
  pub total_tool_calls : ℕ
  pub successful_tool_calls : ℕ
  pub tool_usage : List (ToolUsageItem F)
  pub insights : List Str

abbrev pub is_ok : ℤ → Bool
is_ok c = str_eq (status_code_to_string c) (codes "OK")

abbrev pub is_error : ℤ → Bool
is_error c = str_eq (status_code_to_string c) (codes "ERROR")

-- `m[name]` on a map of numbers.
abbrev pub number_at : Str → Dict Str ℕ → ℕ
number_at name m = elim (lookup name m) [ none ↦ 0 | some n ↦ n ]

unfoldable pub sum_values : Dict Str ℕ → ℕ
sum_values [] = 0
sum_values ((k, n) ∷ m) = n + sum_values m

pub record ToolAgg (F : Type 0) : Type 0 where
  pub call_count : ℕ
  pub success_count : ℕ
  pub spans : List (Span F)

abbrev pub larger : ℕ → ℕ → ℕ
larger a b = if ltb a b then b else a

-- `if count > m[name] { m[name] = count }`
abbrev pub raise_to : Str → ℕ → Dict Str ℕ → Dict Str ℕ
raise_to name n m = if ltb (number_at name m) n then insert name n m else m

module _ {F : Type 0} where
  abbrev pub tool_name : Span F → Str
  tool_name s = attribute (codes "gen_ai.tool.name") s.attributes

  abbrev pub span_earlier : Span F → Span F → Bool
  span_earlier a b = ltb a.start_time_ms b.start_time_ms

  unfoldable pub tool_spans : Sorter → List (Span F) → List (Span F)
  tool_spans sorter all_spans =
      sorter.sort_slice span_earlier (keep (λ s. not (is_empty (tool_name s))) all_spans)

  abbrev pub agg_or_new : Option (ToolAgg F) → ToolAgg F
  agg_or_new none = record { call_count = 0; success_count = 0; spans = [] }
  agg_or_new (some agg) = agg

  abbrev pub count_call : Span F → ToolAgg F → ToolAgg F
  count_call s agg = record {
    call_count = agg.call_count + 1;
    success_count = if is_ok s.status_code then agg.success_count + 1 else agg.success_count;
    spans = agg.spans ++ s ∷ [];
  }

  -- The loop that fills `toolAggs`.
  unfoldable pub tool_aggs : List (Span F) → Dict Str (ToolAgg F) → Dict Str (ToolAgg F)
  tool_aggs [] m = m
  tool_aggs (s ∷ ss) m =
      tool_aggs ss (insert (tool_name s) (count_call s (agg_or_new (lookup (tool_name s) m))) m)

  -- The retry loop over one tool's spans: errors in a row, and the retries so far. A success after
  -- errors counts them.
  unfoldable pub count_retries : List (Span F) → ℕ → ℕ → ℕ
  count_retries [] errors total = total
  count_retries (s ∷ ss) errors total =
      if is_error s.status_code
      then count_retries ss (errors + 1) total
      else if is_ok s.status_code && ltb 0 errors
      then count_retries ss 0 (total + errors)
      else count_retries ss 0 total

  unfoldable pub total_retries : Dict Str (ToolAgg F) → ℕ → ℕ
  total_retries [] total = total
  total_retries ((name, agg) ∷ m) total = total_retries m (count_retries agg.spans 0 total)

  -- The same loop once more, with the retries of each tool under its name.
  unfoldable pub note_retries : Str → List (Span F) → ℕ → Dict Str ℕ → Dict Str ℕ
  note_retries name [] errors counts = counts
  note_retries name (s ∷ ss) errors counts =
      if is_error s.status_code
      then note_retries name ss (errors + 1) counts
      else if is_ok s.status_code && ltb 0 errors
      then note_retries name ss 0 (insert name (number_at name counts + errors) counts)
      else note_retries name ss 0 counts

  unfoldable pub tool_retry_counts : Dict Str (ToolAgg F) → Dict Str ℕ → Dict Str ℕ
  tool_retry_counts [] counts = counts
  tool_retry_counts ((name, agg) ∷ m) counts =
      tool_retry_counts m (note_retries name agg.spans 0 counts)

  -- The loop for `globalMaxLoop`, after the first span: the name at hand, how often it came in a
  -- row, and the most so far.
  unfoldable pub longest_from : Str → ℕ → ℕ → List (Span F) → ℕ
  longest_from name current most [] = larger most current
  longest_from name current most (s ∷ ss) =
      if str_eq (tool_name s) name
      then longest_from name (current + 1) most ss
      else longest_from (tool_name s) 1 (larger most current) ss

  unfoldable pub global_max_loop : List (Span F) → ℕ
  global_max_loop [] = 0
  global_max_loop (s ∷ ss) = longest_from (tool_name s) 1 0 ss

  unfoldable pub max_loops_from : Str → ℕ → Dict Str ℕ → List (Span F) → Dict Str ℕ
  max_loops_from name current m [] = raise_to name current m
  max_loops_from name current m (s ∷ ss) =
      if str_eq (tool_name s) name
      then max_loops_from name (current + 1) m ss
      else max_loops_from (tool_name s) 1 (raise_to name current m) ss

  unfoldable pub tool_max_loops : List (Span F) → Dict Str ℕ
  tool_max_loops [] = []
  tool_max_loops (s ∷ ss) = max_loops_from (tool_name s) 1 [] ss

-- The texts of the insights, which fmt.Sprintf builds.
pub record InsightText (F : Type 0) : Type 0 where
  pub deep_loop : Str → ℕ → Str
  pub low_success : Str → ℕ → Str
  pub failed_traces : ℕ → Str
  pub high_retries : F → Str

module _ (fl : Floats) (text : InsightText fl.Float) where
  open fl use {Float, zero_float, sub, mul, div, of_nat, constant, less, truncate}

  abbrev pub ratio : ℕ → ℕ → Float
  ratio a b = div (of_nat a) (of_nat b)

  abbrev pub ratio_or_zero : ℕ → ℕ → Float
  ratio_or_zero a b = if ltb 0 b then ratio a b else zero_float

  unfoldable pub loop_insights : List (ToolUsageItem Float) → List Str
  loop_insights [] = []
  loop_insights (i ∷ is) =
      if leb 3 i.max_loop
      then text.deep_loop i.tool_name i.max_loop ∷ loop_insights is
      else loop_insights is

  unfoldable pub success_insights : List (ToolUsageItem Float) → List Str
  success_insights [] = []
  success_insights (i ∷ is) =
      if less i.success_rate (constant 8 10) && leb 3 i.call_count
      then text.low_success i.tool_name (truncate (mul i.success_rate (constant 100 1)))
        ∷ success_insights is
      else success_insights is

  -- At most four are kept.
  unfoldable pub generate_insights : AgentStats Float → List Str
  generate_insights st =
      let rate = st.trace_success_rate in
      take 4 (
        loop_insights st.tool_usage
        ++ success_insights st.tool_usage
        ++ (if less rate (constant 7 10) && less zero_float rate
            then text.failed_traces (truncate (mul (sub (constant 1 1) rate) (constant 100 1))) ∷ []
            else [])
        ++ (if less (constant 1 1) st.avg_retries
            then text.high_retries st.avg_retries ∷ []
            else []))

  unfoldable pub usage_items :
      Dict Str ℕ → Dict Str ℕ → Dict Str (ToolAgg Float) → List (ToolUsageItem Float)
  usage_items retry_counts max_loops [] = []
  usage_items retry_counts max_loops ((name, agg) ∷ m) =
      record {
        tool_name = name;
        call_count = agg.call_count;
        success_rate = ratio_or_zero agg.success_count agg.call_count;
        avg_retries = of_nat (number_at name retry_counts);
        max_loop = number_at name max_loops;
      }
      ∷ usage_items retry_counts max_loops m

  abbrev pub more_calls : ToolUsageItem Float → ToolUsageItem Float → Bool
  more_calls a b = ltb b.call_count a.call_count

  unfoldable pub compute_agent_stats :
      Sorter → List (Trace Float) → List (Span Float) → AgentStats Float
  compute_agent_stats sorter session_traces all_spans =
      let tools = tool_spans sorter all_spans in
      let aggs = tool_aggs tools [] in
      let loops = tool_max_loops tools in
      let retry_counts = tool_retry_counts aggs [] in
      let ok_traces = count (λ (t : Trace Float). is_ok t.status_code) session_traces in
      let ok_calls = count (λ (s : Span Float). is_ok s.status_code) tools in
      let stats : AgentStats Float = record {
        trace_success_rate = ratio ok_traces (length session_traces);
        avg_tool_success_rate = ratio_or_zero ok_calls (length tools);
        avg_retries =
            if ltb 0 (length retry_counts)
            then ratio (sum_values retry_counts) (length retry_counts)
            else ratio_or_zero (total_retries aggs 0) (length aggs);
        avg_loop_depth = ratio_or_zero (sum_values loops) (length loops);
        max_loop_depth = global_max_loop tools;
        span_per_trace = ratio_or_zero (length all_spans) (length session_traces);
        total_tool_calls = length tools;
        successful_tool_calls = ok_calls;
        tool_usage = sorter.sort_slice more_calls (usage_items retry_counts loops aggs);
        insights = [];
      } in
      record stats { insights = generate_insights stats }
