-- ===== src/Storage/Mem/Costs.antt =====
-- The costs in internal/storage/memstore.go: UpdateTraceCost, and the loop of InsertSpans against
-- CalculateSpanCost of internal/pricing/pricing.go.
use labubu.Base.{
  ℕ, ◌≡◌, refl, sym, ap, ◌∙◌, inl, inr, true, false, Option, none, some, List, [], ◌∷◌, map, ◌==◌,
  if◌then◌else◌, Bool-cases, Option-cases, keep,
}
use labubu.Base.Str.{Str, is_empty}
use labubu.Base.Dict.{nat_eq, bytes_eq, lookup, insert}
use labubu.Base.Floats.{Floats}
use labubu.Storage.Types.{Span, Trace, ModelPricing}
use labubu.Storage.Pricing.{
  no_tokens, named_model, find_pricing, raw_cost, round_cost, currency_at, currency_of_model,
  calculate_span_cost,
}
use mathlib.Core.Option.{some-ne-none}
use labubu.Storage.Mem.{
  inserted_cost, MemStore, CostSum, price_of, priced, summed, price_in, price_spans, entries,
}

named_model-some : (o : Option Str) (model : Str) → named_model o ≡ some model → o ≡ some model
named_model-some none model h = h
named_model-some (some []) model h = absurd (some-ne-none model (sym h))
named_model-some (some (c ∷ s)) model h = h

module _ (fl : Floats) where
  open fl use {Float, zero_float, add, mul, div, of_nat, constant}

  -- An absent count is 0.
  abbrev updated_count : Option ℕ → Float
  updated_count none = of_nat 0
  updated_count (some n) = of_nat n

  -- The formula of UpdateTraceCost, which it does not round.
  unfoldable pub updated_cost : ModelPricing Float → Span Float → Float
  updated_cost p s =
      let input_t = updated_count s.input_tokens in
      let output_t = updated_count s.output_tokens in
      let cache_create_t = updated_count s.cache_creation_tokens in
      let cache_read_t = updated_count s.cache_read_tokens in
      div
        (add
          (add
            (add (mul input_t p.input_price)
              (mul (mul cache_create_t p.input_price) (constant 125 100)))
            (mul (mul cache_read_t p.input_price) (constant 1 10)))
          (mul output_t p.output_price))
        (constant 1000000 1)

  -- The loop of UpdateTraceCost over the trace's spans: the costs are not rounded.
  abbrev pub add_raw : Option (ModelPricing Float) → Span Float → CostSum fl → CostSum fl
  add_raw none s acc = acc
  add_raw (some p) s acc = record {
    total = add acc.total (updated_cost p s);
    currency = if is_empty acc.currency then p.currency else acc.currency;
    has_cost = true;
  }

  unfoldable pub sum_raw : List (ModelPricing Float) → List (Span Float) → CostSum fl → CostSum fl
  sum_raw ps [] acc = acc
  sum_raw ps (s ∷ ss) acc = sum_raw ps ss (add_raw (price_of fl ps s) s acc)

  abbrev spans_of_trace : ℕ → MemStore Float → List (Span Float)
  spans_of_trace id m = keep (λ (s : Span Float). s.trace_id == id) m.spans

  unfoldable pub update_found_cost : ℕ → MemStore Float → Option (Trace Float) → MemStore Float
  update_found_cost id m none = m
  update_found_cost id m (some trace) =
      let acc =
        sum_raw (entries m.pricing) (spans_of_trace id m)
          (record { total = zero_float; currency = []; has_cost = false }) in
      if acc.has_cost
      then record m {
        traces =
            insert id (record trace { cost = some acc.total; cost_currency = acc.currency })
              m.traces;
      }
      else m

  unfoldable pub update_trace_cost : MemStore Float → ℕ → MemStore Float
  update_trace_cost m id = update_found_cost id m (lookup id m.traces)

  inserted_cost-eq :
      (p : ModelPricing Float) (s : Span Float)
      → inserted_cost fl p s ≡ round_cost fl (raw_cost fl p s)
  unfolding inserted_cost round_cost raw_cost
  inserted_cost-eq p s = refl

  -- The span with a cost, and with the currency that CalculateTraceCost looks up for its model.
  abbrev pub entered : List (ModelPricing Float) → Span Float → Option Float → Span Float
  entered ps s none = s
  entered ps s (some c) = record s {
    cost = some c;
    cost_currency = currency_of_model fl ps s.gen_ai_request_model;
  }

  priced-entered :
      (ps : List (ModelPricing Float)) (s : Span Float)
      → priced fl (price_of fl ps s) s ≡ entered ps s (calculate_span_cost fl s ps)
  unfolding price_of calculate_span_cost
  priced-entered ps s = elim (Bool-cases (no_tokens s.total_tokens)) [
    | inl free ↦ simp free refl
    | inr counted ↦ elim (Option-cases (named_model s.gen_ai_request_model)) [
      | inl unnamed ↦ simp (counted, unnamed) refl
      | inr (model, named) ↦ elim (Option-cases (find_pricing fl model ps)) [
        | inl unknown ↦ simp (counted, named, unknown) refl
        | inr (p, found) ↦
            let currency : currency_of_model fl ps s.gen_ai_request_model ≡ p.currency =
              ap (currency_of_model fl ps) (named_model-some s.gen_ai_request_model model named)
              ∙ ap (currency_at fl) found in
            simp (counted, named, found)
              (ap (λ c. record s { cost = some c; cost_currency = p.currency })
                  (inserted_cost-eq p s)
                ∙ ap
                    (λ i. record s {
                      cost = some (round_cost fl (raw_cost fl p s));
                      cost_currency = i;
                    })
                    (sym currency))
      ]
    ]
  ]

  -- What a span is after the loop for one trace.
  abbrev pub span_after : ℕ → List (ModelPricing Float) → Span Float → Span Float
  span_after id ps s = if s.trace_id == id then entered ps s (calculate_span_cost fl s ps) else s

  price_in-after :
      (id : ℕ) (ps : List (ModelPricing Float)) (s : Span Float)
      → priced fl (price_in fl id ps s) s ≡ span_after id ps s
  price_in-after id ps s = elim (Bool-cases (s.trace_id == id)) [
    | inl same ↦ simp same (priced-entered ps s)
    | inr other ↦ simp other refl
  ]

  -- The loop of InsertSpans that prices a trace gives each of its spans the cost that
  -- CalculateSpanCost gives it, with the currency of its model's price, leaves a span without a cost
  -- as it was, and touches no span of another trace.
  pub price_spans-cost :
      (id : ℕ) (ps : List (ModelPricing Float)) (ss : List (Span Float)) (acc : CostSum fl)
      → (price_spans fl id ps ss acc).0 ≡ map (span_after id ps) ss
  unfolding price_spans
  price_spans-cost id ps [] acc = refl
  price_spans-cost id ps (s ∷ ss) acc =
      let acc' = summed fl (price_in fl id ps s) s acc in
      ap (λ x. x ∷ (price_spans fl id ps ss acc').0) (price_in-after id ps s)
      ∙ ap (λ xs. span_after id ps s ∷ xs) (price_spans-cost id ps ss acc')
