-- ===== src/Storage/CostSummary/Adds.antt =====
-- The sums of GetCostSummary (internal/storage/memstore.go).
use labubu.Base.{
  ℕ, ◌+◌, ◌≡◌, refl, sym, ap, ◌∙◌, inl, inr, Bool, true, false, Option, none, some, List, [], ◌∷◌,
  map, arith, Bool-cases,
}
use labubu.Base.Str.{Str, codes, str_eq}
use labubu.Base.Dict.{nat_eq, bytes_eq, Dict, lookup, insert}
use labubu.Base.Sort.{Sorter}
use labubu.Base.Words.{u64}
use labubu.Base.Floats.{Floats}
use labubu.Storage.Types.{Span}
use labubu.Storage.Mem.{MemStore}
use labubu.Storage.CostSummary.{
  CostQuery, CostAgg, TokenTotals, CostGroups, CostlyTraces, costly_traces, CostSummaryResult,
  add_count, cost_group_or_new, note_totals, note_span, counts_span, group_span, group_if,
  group_spans, no_groups, model_of_span, service_of_trace, model_item, service_item,
  summary_by_service, summary_by_model, get_cost_summary,
}
use mathlib.Core.List.{Perm, Permᴰ}
use mathlib.Core.Logic.{∥∥₁_elim}
use native.Mathlib.Nat.{ℕ_set}

-- The sum of what the entries count.
unfoldable pub sum_of : {A : Type 0} → (A → ℕ) → List A → ℕ
sum_of f [] = 0
sum_of f (x ∷ xs) = f x + sum_of f xs

module _ {A : Type 0} (f : A → ℕ) where
  sum_of-permᴰ : {xs ys : List A} → Permᴰ xs ys → sum_of f xs ≡ sum_of f ys
  unfolding sum_of
  sum_of-permᴰ Permᴰ.nil = refl
  sum_of-permᴰ (Permᴰ.cons e h) = omega (arith, sum_of-permᴰ h, ap f e)
  sum_of-permᴰ (Permᴰ.swap e e') = omega (arith, ap f e, ap f e')
  sum_of-permᴰ (Permᴰ.trans h k) = sum_of-permᴰ h ∙ sum_of-permᴰ k

  sum_of-perm : {xs ys : List A} → Perm xs ys → sum_of f xs ≡ sum_of f ys
  sum_of-perm h = ∥∥₁_elim h (ℕ_set _ _) sum_of-permᴰ

sum_of-map :
    {A B : Type 0} (g : A → B) (f : B → ℕ) (xs : List A)
    → sum_of f (map g xs) ≡ sum_of (λ x. f (g x)) xs
unfolding sum_of
sum_of-map g f [] = refl
sum_of-map g f (x ∷ xs) = ap (λ n. f (g x) + n) (sum_of-map g f xs)

sum_of-insert :
    (f : CostAgg → ℕ) (k : Str) (g : CostAgg) (m : Dict Str CostAgg)
    → f (cost_group_or_new none) ≡ 0
    → sum_of (λ (e : Str × CostAgg). f e.1) (insert k g m) + f (cost_group_or_new (lookup k m))
      ≡ sum_of (λ (e : Str × CostAgg). f e.1) m + f g
unfolding sum_of insert lookup
sum_of-insert f k g [] h = omega (arith, h)
sum_of-insert f k g ((j, w) ∷ m) h = elim (Bool-cases (str_eq j k)) [
  | inl same ↦ rw same (omega arith)
  | inr other ↦ rw other (omega (arith, sum_of-insert f k g m h))
]

add_count_lem :
    (old total total' : ℕ) (o : Option ℕ)
    → total' + old ≡ total + add_count old o
    → (rest : ℕ) → u64 total ≡ rest
    → u64 total' ≡ add_count rest o
add_count_lem old total total' none h rest k = omega arith
add_count_lem old total total' (some n) h rest k = omega arith

-- A count of the groups with the count of a span and the total that goes with it: the loop keeps the
-- total equal to the sum over the groups.
module _ (fl : Floats) (f : CostAgg → ℕ) (g : Span fl.Float → Option ℕ) (h : TokenTotals → ℕ)
    (fresh : f (cost_group_or_new none) ≡ 0)
    (step : (s : Span fl.Float) (a : CostAgg) → f (note_span fl s a) ≡ add_count (f a) (g s))
    (step' : (s : Span fl.Float) (t : TokenTotals)
      → h (note_totals s t) ≡ add_count (h t) (g s)) where
  abbrev sum_groups : Dict Str CostAgg → ℕ
  sum_groups m = sum_of (λ (e : Str × CostAgg). f e.1) m

  group_span_lem :
      (key : Span fl.Float → Str) (s : Span fl.Float) (st : CostGroups)
      → u64 (sum_groups st.groups) ≡ h st.totals
      → u64 (sum_groups (group_span fl key s st).groups) ≡ h (group_span fl key s st).totals
  group_span_lem key s st e =
      let old = cost_group_or_new (lookup (key s) st.groups) in
      add_count_lem (f old) (sum_groups st.groups) (sum_groups (group_span fl key s st).groups)
        (g s)
        (sum_of-insert f (key s) (note_span fl s old) st.groups fresh
          ∙ ap (λ n. sum_groups st.groups + n) (step s old))
        (h st.totals) e
      ∙ sym (step' s st.totals)

  group_if_lem :
      (b : Bool) (key : Span fl.Float → Str) (s : Span fl.Float) (st : CostGroups)
      → u64 (sum_groups st.groups) ≡ h st.totals
      → u64 (sum_groups (group_if fl b key s st).groups) ≡ h (group_if fl b key s st).totals
  group_if_lem true key s st e = group_span_lem key s st e
  group_if_lem false key s st e = e

  group_spans_lem :
      (key : Span fl.Float → Str) (ids : Dict ℕ Bool) (ss : List (Span fl.Float)) (st : CostGroups)
      → u64 (sum_groups st.groups) ≡ h st.totals
      → u64 (sum_groups (group_spans fl key ids ss st).groups)
        ≡ h (group_spans fl key ids ss st).totals
  unfolding group_spans
  group_spans_lem key ids [] st e = e
  group_spans_lem key ids (s ∷ ss) st e =
      group_spans_lem key ids ss (group_if fl (counts_span fl ids s) key s st)
        (group_if_lem (counts_span fl ids s) key s st e)

-- The four counts of the groups add up to the totals.
record IsBalanced (st : CostGroups) : Type 0 where
  input : u64 (sum_of (λ (e : Str × CostAgg). e.1.input) st.groups) ≡ st.totals.input
  cc : u64 (sum_of (λ (e : Str × CostAgg). e.1.cc) st.groups) ≡ st.totals.cc
  cr : u64 (sum_of (λ (e : Str × CostAgg). e.1.cr) st.groups) ≡ st.totals.cr
  output : u64 (sum_of (λ (e : Str × CostAgg). e.1.output) st.groups) ≡ st.totals.output

group_spans-IsBalanced :
    (fl : Floats) (key : Span fl.Float → Str) (ids : Dict ℕ Bool) (ss : List (Span fl.Float))
    → IsBalanced (group_spans fl key ids ss no_groups)
unfolding sum_of
group_spans-IsBalanced fl key ids ss = record {
  input =
      group_spans_lem fl (λ g. g.input) (λ s. s.input_tokens) (λ t. t.input) refl (λ s a. refl)
        (λ s t. refl) key ids ss no_groups (omega arith);
  cc =
      group_spans_lem fl (λ g. g.cc) (λ s. s.cache_creation_tokens) (λ t. t.cc) refl (λ s a. refl)
        (λ s t. refl) key ids ss no_groups (omega arith);
  cr =
      group_spans_lem fl (λ g. g.cr) (λ s. s.cache_read_tokens) (λ t. t.cr) refl (λ s a. refl)
        (λ s t. refl) key ids ss no_groups (omega arith);
  output =
      group_spans_lem fl (λ g. g.output) (λ s. s.output_tokens) (λ t. t.output) refl (λ s a. refl)
        (λ s t. refl) key ids ss no_groups (omega arith);
}

tokens_sum :
    (m : Dict Str CostAgg)
    → u64 (sum_of (λ (e : Str × CostAgg). u64 (e.1.input + e.1.cc + e.1.cr + e.1.output)) m)
      ≡ u64 (
          u64 (sum_of (λ (e : Str × CostAgg). e.1.input) m)
          + u64 (sum_of (λ (e : Str × CostAgg). e.1.cc) m)
          + u64 (sum_of (λ (e : Str × CostAgg). e.1.cr) m)
          + u64 (sum_of (λ (e : Str × CostAgg). e.1.output) m))
unfolding sum_of
tokens_sum [] = omega arith
tokens_sum ((k, g) ∷ m) = omega (arith, tokens_sum m)

-- What the overview of a summary totals is what its items add up to, wrapped at 64 bits.
pub record IsAddedUp {F : Type 0} (r : CostSummaryResult F) : Type 0 where
  pub tokens :
      r.overview.total_tokens
      ≡ u64 (sum_of (λ i. i.tokens) r.by_model + sum_of (λ i. i.tokens) r.by_service)
  pub input :
      r.overview.total_input_tokens
      ≡ u64 (sum_of (λ i. i.input_tokens) r.by_model + sum_of (λ i. i.input_tokens) r.by_service)
  pub cache_creation :
      r.overview.total_cache_creation_tokens
      ≡ u64 (
          sum_of (λ i. i.cache_creation_tokens) r.by_model
          + sum_of (λ i. i.cache_creation_tokens) r.by_service)
  pub cache_read :
      r.overview.total_cache_read_tokens
      ≡ u64 (
          sum_of (λ i. i.cache_read_tokens) r.by_model
          + sum_of (λ i. i.cache_read_tokens) r.by_service)
  pub output :
      r.overview.total_output_tokens
      ≡ u64 (sum_of (λ i. i.output_tokens) r.by_model + sum_of (λ i. i.output_tokens) r.by_service)

-- A count of the items, sorted or not, is that of the groups.
sum_of-items :
    {A B : Type 0} (sorter : Sorter) (less : B → B → Bool) (item : A → B) (f : B → ℕ) (xs : List A)
    → sum_of f (sorter.sort_slice less (map item xs)) ≡ sum_of (λ x. f (item x)) xs
sum_of-items sorter less item f xs =
    sum_of-perm f (sorter.sort_slice-perm less (map item xs)) ∙ sum_of-map item f xs

tokens_total :
    (st : CostGroups)
    → IsBalanced st
    → u64 (st.totals.input + st.totals.cc + st.totals.cr + st.totals.output)
      ≡ u64
          (sum_of (λ (e : Str × CostAgg). u64 (e.1.input + e.1.cc + e.1.cr + e.1.output)) st.groups)
tokens_total st b = omega (arith, b.input, b.cc, b.cr, b.output, tokens_sum st.groups)

module _ (fl : Floats) where
  open fl use {Float}

  summary_by_model-IsAddedUp :
      (sorter : Sorter) (m : MemStore Float) (costly : CostlyTraces fl)
      → IsAddedUp (summary_by_model fl sorter m costly)
  unfolding summary_by_model sum_of
  summary_by_model-IsAddedUp sorter m costly =
      let st =
        group_spans fl (λ s. model_of_span s.gen_ai_request_model) costly.ids m.spans no_groups in
      let b =
        group_spans-IsBalanced fl (λ s. model_of_span s.gen_ai_request_model) costly.ids m.spans in
      let items = sum_of-items sorter (λ a c. fl.less c.cost a.cost) (model_item fl) in
      record {
        tokens = omega (arith, tokens_total st b, items (λ i. i.tokens) st.groups);
        input = omega (arith, b.input, items (λ i. i.input_tokens) st.groups);
        cache_creation = omega (arith, b.cc, items (λ i. i.cache_creation_tokens) st.groups);
        cache_read = omega (arith, b.cr, items (λ i. i.cache_read_tokens) st.groups);
        output = omega (arith, b.output, items (λ i. i.output_tokens) st.groups);
      }

  summary_by_service-IsAddedUp :
      (sorter : Sorter) (m : MemStore Float) (costly : CostlyTraces fl)
      → IsAddedUp (summary_by_service fl sorter m costly)
  unfolding summary_by_service sum_of
  summary_by_service-IsAddedUp sorter m costly =
      let key = λ (s : Span Float). service_of_trace (lookup s.trace_id m.traces) in
      let st = group_spans fl key costly.ids m.spans no_groups in
      let b = group_spans-IsBalanced fl key costly.ids m.spans in
      let items = sum_of-items sorter (λ a c. fl.less c.cost a.cost) (service_item fl) in
      record {
        tokens = omega (arith, tokens_total st b, items (λ i. i.tokens) st.groups);
        input = omega (arith, b.input, items (λ i. i.input_tokens) st.groups);
        cache_creation = omega (arith, b.cc, items (λ i. i.cache_creation_tokens) st.groups);
        cache_read = omega (arith, b.cr, items (λ i. i.cache_read_tokens) st.groups);
        output = omega (arith, b.output, items (λ i. i.output_tokens) st.groups);
      }

  -- Whatever a summary is grouped by, each token total of its overview is the sum over its items,
  -- wrapped at 64 bits.
  pub get_cost_summary-IsAddedUp :
      (sorter : Sorter) (m : MemStore Float) (q : CostQuery)
      → IsAddedUp (get_cost_summary fl sorter m q)
  unfolding get_cost_summary
  get_cost_summary-IsAddedUp sorter m q = elim (Bool-cases (str_eq q.group_by (codes "service"))) [
    | inl service ↦ rw service (
        summary_by_service-IsAddedUp sorter m (
          costly_traces fl q m.traces
            (record { ids = []; total_cost = fl.zero_float; currency = [] })))
    | inr model ↦ rw model (
        summary_by_model-IsAddedUp sorter m (
          costly_traces fl q m.traces
            (record { ids = []; total_cost = fl.zero_float; currency = [] })))
  ]
