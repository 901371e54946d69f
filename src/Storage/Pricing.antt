-- ===== src/Storage/Pricing.antt =====
-- internal/pricing/pricing.go: the cost of a span and of a trace. Floats are an interface.
use labubu.Base.{
  ℕ, ◌+◌, ◌≡◌, ◌↔◌, Bool, true, false, not, ◌&&◌, ◌||◌, Option, none, some, List, [], ◌∷◌, arith,
  ◌==◌, if◌then◌else◌, count, any,
}
use labubu.Base.Str.{Str, str_eq, is_empty}
use labubu.Base.Dict.{nat_eq, bytes_eq}
use labubu.Base.Floats.{Floats}
use labubu.Storage.Types.{Span, ModelPricing}

-- `p == nil || *p == 0`
abbrev pub no_tokens : Option ℕ → Bool
no_tokens none = true
no_tokens (some n) = n == 0

-- The model that a price is looked up for: none where it is absent or empty.
abbrev pub named_model : Option Str → Option Str
named_model none = none
named_model (some []) = none
named_model (some (c ∷ s)) = some (c ∷ s)

module _ (fl : Floats) where
  open fl use {Float, zero_float, add, mul, div, of_nat, constant, round}

  -- The first price of the model.
  unfoldable pub find_pricing : Str → List (ModelPricing Float) → Option (ModelPricing Float)
  find_pricing model [] = none
  find_pricing model (p ∷ ps) = if str_eq p.model_name model then some p else find_pricing model ps

  -- An absent count is 0.
  abbrev float_tokens : Option ℕ → Float
  float_tokens none = of_nat 0
  float_tokens (some n) = of_nat n

  -- The four buckets at their rates, per million tokens, not rounded.
  unfoldable pub raw_cost : ModelPricing Float → Span Float → Float
  raw_cost p s =
      div
        (add
          (add
            (add (mul (float_tokens s.input_tokens) p.input_price)
              (mul (mul (float_tokens s.cache_creation_tokens) p.input_price) (constant 125 100)))
            (mul (mul (float_tokens s.cache_read_tokens) p.input_price) (constant 1 10)))
          (mul (float_tokens s.output_tokens) p.output_price))
        (constant 1000000 1)

  -- To six decimals.
  unfoldable pub round_cost : Float → Float
  round_cost c = div (round (mul c (constant 1000000 1))) (constant 1000000 1)

  abbrev cost_at : Span Float → Option (ModelPricing Float) → Option Float
  cost_at s none = none
  cost_at s (some p) = some (round_cost (raw_cost p s))

  abbrev cost_of_model : Span Float → List (ModelPricing Float) → Option Str → Option Float
  cost_of_model s ps none = none
  cost_of_model s ps (some model) = cost_at s (find_pricing model ps)

  unfoldable pub calculate_span_cost : Span Float → List (ModelPricing Float) → Option Float
  unfolding find_pricing
  calculate_span_cost s ps =
      if no_tokens s.total_tokens
      then none
      else cost_of_model s ps (named_model s.gen_ai_request_model)

  -- The variables of the loop in CalculateTraceCost.
  pub record TraceCost : Type 0 where
    pub total : Float
    pub has_cost : Bool
    pub currency : Str
    pub unpriced : ℕ

  abbrev pub currency_at : Option (ModelPricing Float) → Str
  currency_at none = []
  currency_at (some p) = p.currency

  -- The inner loop that looks for the currency; no model leaves it empty.
  abbrev pub currency_of_model : List (ModelPricing Float) → Option Str → Str
  currency_of_model ps none = []
  currency_of_model ps (some model) = currency_at (find_pricing model ps)

  abbrev add_cost : List (ModelPricing Float) → Span Float → Option Float → TraceCost → TraceCost
  add_cost ps s (some c) acc = record acc {
    total = add acc.total c;
    has_cost = true;
    currency =
        if is_empty acc.currency then currency_of_model ps s.gen_ai_request_model else acc.currency;
  }
  add_cost ps s none acc =
      if no_tokens s.total_tokens then acc else record acc { unpriced = acc.unpriced + 1 }

  unfoldable pub add_span_costs :
      List (ModelPricing Float) → List (Span Float) → TraceCost → TraceCost
  add_span_costs ps [] acc = acc
  add_span_costs ps (s ∷ ss) acc =
      add_span_costs ps ss (add_cost ps s (calculate_span_cost s ps) acc)

  -- The cost, the currency and the number of spans with no price.
  unfoldable pub calculate_trace_cost :
      List (Span Float) → List (ModelPricing Float) → Option Float × Str × ℕ
  calculate_trace_cost ss ps =
      let acc =
        add_span_costs ps ss
          (record { total = zero_float; has_cost = false; currency = []; unpriced = 0 }) in
      if not acc.has_cost
      then (none, [], acc.unpriced)
      else (some (round_cost acc.total), acc.currency, acc.unpriced)

  abbrev pub is_priced : List (ModelPricing Float) → Span Float → Bool
  is_priced ps s = elim (calculate_span_cost s ps) [ none ↦ false | some c ↦ true ]

  add_span_costs-counts :
      (ps : List (ModelPricing Float)) (ss : List (Span Float)) (acc : TraceCost)
      → ((add_span_costs ps ss acc).has_cost ≡ (acc.has_cost || any (is_priced ps) ss))
        × ((add_span_costs ps ss acc).unpriced
            ≡ acc.unpriced + count (λ s. not (no_tokens s.total_tokens) && not (is_priced ps s)) ss)
  unfolding add_span_costs any count
  add_span_costs-counts ps [] acc = (ground arith, omega arith)
  add_span_costs-counts ps (s ∷ ss) acc =
      ground (arith, add_span_costs-counts ps ss (add_cost ps s (calculate_span_cost s ps) acc))

  -- A trace has a cost exactly when one of its spans has one, and the spans that are counted as
  -- unpriced are those with tokens and without a cost; a trace with no cost has no currency.
  pub calculate_trace_cost-counts :
      (ss : List (Span Float)) (ps : List (ModelPricing Float))
      → (((calculate_trace_cost ss ps).0 ≡ none) ↔ (any (is_priced ps) ss ≡ false))
        × ((calculate_trace_cost ss ps).2
            ≡ count (λ s. not (no_tokens s.total_tokens) && not (is_priced ps s)) ss)
        × (any (is_priced ps) ss ≡ false → (calculate_trace_cost ss ps).1 ≡ [])
  unfolding calculate_trace_cost
  calculate_trace_cost-counts ss ps =
      let h =
        add_span_costs-counts ps ss
          (record { total = zero_float; has_cost = false; currency = []; unpriced = 0 }) in
      (ground (arith, h), ground (arith, h), ground (arith, h))
