-- ===== src/Storage/Aggregate/Summary.antt =====
-- The count, the time range and the tokens of an aggregated trace, against independent descriptions
-- of them (aggregateTraces of internal/storage/chdb_query.go).
use labubu.Base.{
  ℕ, ◌+◌, ◌≤◌, ◌<◌, ◌≡◌, refl, ap, ◌∙◌, Option, none, some, List, [], ◌∷◌, arith, length, All,
}
use labubu.Base.Dict.{nat_eq, bytes_eq}
use labubu.Base.Words.{u16, u32}
use labubu.Storage.Types.{Span, ResourceInfo, ScopeInfo, Trace}
use labubu.Storage.Aggregate.{merge_tokens, new_trace, add_span}
use labubu.Storage.Aggregate.PerTrace.{add_spans}
use Prim.Native.Nat.{min, max}

unfoldable pub sum_list : List ℕ → ℕ
sum_list [] = 0
sum_list (n ∷ ns) = n + sum_list ns

-- Counts as one: no count if there is none, and otherwise their sum on `uint32`.
abbrev pub summed_tokens : List ℕ → Option ℕ
summed_tokens [] = none
summed_tokens (n ∷ []) = some n
summed_tokens (n ∷ m ∷ ns) = some (u32 (n + (m + sum_list ns)))

abbrev pub or_skip : Option ℕ → List ℕ → List ℕ
or_skip none ns = ns
or_skip (some n) ns = n ∷ ns

summed_tokens-merge :
    (a b : Option ℕ) (ns : List ℕ)
    → summed_tokens (or_skip (merge_tokens a b) ns) ≡ summed_tokens (or_skip a (or_skip b ns))
unfolding sum_list
summed_tokens-merge none none ns = refl
summed_tokens-merge (some m) none ns = refl
summed_tokens-merge none (some n) ns = refl
summed_tokens-merge (some m) (some n) [] = ap some (omega arith)
summed_tokens-merge (some m) (some n) (k ∷ ns) = ap some (omega arith)

module _ {F : Type 0} where
  unfoldable pub least_start : List (Span F) → ℕ → ℕ
  least_start [] n = n
  least_start (s ∷ ss) n = least_start ss (min n s.start_time_ms)

  unfoldable pub greatest_end : List (Span F) → ℕ → ℕ
  greatest_end [] n = n
  greatest_end (s ∷ ss) n = greatest_end ss (max n s.end_time_ms)

  unfoldable pub token_sum : List (Span F) → Option ℕ → Option ℕ
  token_sum [] n = n
  token_sum (s ∷ ss) n = token_sum ss (merge_tokens n s.total_tokens)

  pub add_span-start :
      (s : Span F) (t : Trace F)
      → (add_span s t).start_time_ms ≡ min t.start_time_ms s.start_time_ms
  unfolding add_span
  add_span-start s t = ground arith

  pub add_span-end :
      (s : Span F) (t : Trace F) → (add_span s t).end_time_ms ≡ max t.end_time_ms s.end_time_ms
  unfolding add_span
  add_span-end s t = ground arith

  pub add_span-count :
      (s : Span F) (t : Trace F) → (add_span s t).span_count ≡ u16 (t.span_count + 1)
  unfolding add_span
  add_span-count s t = ground arith

  pub add_span-tokens :
      (s : Span F) (t : Trace F)
      → (add_span s t).total_tokens ≡ merge_tokens t.total_tokens s.total_tokens
  unfolding add_span
  add_span-tokens s t = ground arith

  -- The summary of a trace: how many spans, from when to when, and how many tokens.
  pub record Sums (t : Trace F) (count_ start end : ℕ) (tokens : Option ℕ) : Type 0 where
    pub span_count : t.span_count ≡ count_
    pub start_time_ms : t.start_time_ms ≡ start
    pub end_time_ms : t.end_time_ms ≡ end
    pub total_tokens : t.total_tokens ≡ tokens

  pub add_spans-Sums :
      (ss : List (Span F)) (t : Trace F)
      → t.span_count < 65536
      → Sums
          (add_spans ss t)
          (u16 (t.span_count + length ss))
          (least_start ss t.start_time_ms)
          (greatest_end ss t.end_time_ms)
          (token_sum ss t.total_tokens)
  unfolding add_spans least_start greatest_end token_sum
  add_spans-Sums [] t h = record {
    span_count = omega arith;
    start_time_ms = refl;
    end_time_ms = refl;
    total_tokens = refl;
  }
  add_spans-Sums (s ∷ ss) t h =
      let ih = add_spans-Sums ss (add_span s t) (omega (arith, add_span-count s t)) in
      record {
        span_count = omega (arith, ih.span_count, add_span-count s t);
        start_time_ms = ih.start_time_ms ∙ ap (least_start ss) (add_span-start s t);
        end_time_ms = ih.end_time_ms ∙ ap (greatest_end ss) (add_span-end s t);
        total_tokens = ih.total_tokens ∙ ap (token_sum ss) (add_span-tokens s t);
      }

  -- The token counts that are there, in order.
  abbrev pub counts_of : List (Span F) → List ℕ
  counts_of [] = []
  counts_of (s ∷ ss) = or_skip s.total_tokens (counts_of ss)

  token_sum-summed :
      (ss : List (Span F)) (o : Option ℕ)
      → token_sum ss o ≡ summed_tokens (or_skip o (counts_of ss))
  unfolding token_sum
  token_sum-summed [] none = refl
  token_sum-summed [] (some n) = refl
  token_sum-summed (s ∷ ss) o =
      token_sum-summed ss (merge_tokens o s.total_tokens)
      ∙ summed_tokens-merge o s.total_tokens (counts_of ss)

  pub new_trace-Sums :
      (resource : ResourceInfo) (scope : ScopeInfo) (s : Span F) (ss : List (Span F))
      → Sums
          (add_spans (s ∷ ss) (new_trace resource scope s))
          (u16 (length (s ∷ ss)))
          (least_start (s ∷ ss) s.start_time_ms)
          (greatest_end (s ∷ ss) s.end_time_ms)
          (token_sum (s ∷ ss) none)
  unfolding new_trace
  new_trace-Sums resource scope s ss =
      let h = add_spans-Sums (s ∷ ss) (new_trace resource scope s) (omega arith) in
      record {
        span_count = omega (arith, h.span_count);
        start_time_ms = h.start_time_ms;
        end_time_ms = h.end_time_ms;
        total_tokens = h.total_tokens;
      }

  -- The trace of the spans `s ∷ ss` counts them all, modulo 2 ^ 16, begins at the least start, ends
  -- at the greatest end, and has the sum of the token counts that are there, modulo 2 ^ 32.
  pub trace_of-Sums :
      (resource : ResourceInfo) (scope : ScopeInfo) (s : Span F) (ss : List (Span F))
      → Sums
          (add_spans (s ∷ ss) (new_trace resource scope s))
          (u16 (length (s ∷ ss)))
          (least_start (s ∷ ss) s.start_time_ms)
          (greatest_end (s ∷ ss) s.end_time_ms)
          (summed_tokens (counts_of (s ∷ ss)))
  trace_of-Sums resource scope s ss =
      let h = new_trace-Sums resource scope s ss in
      record {
        span_count = h.span_count;
        start_time_ms = h.start_time_ms;
        end_time_ms = h.end_time_ms;
        total_tokens = h.total_tokens ∙ token_sum-summed (s ∷ ss) none;
      }

  -- The least start is a lower bound of all starts and the start of one of the spans.
  pub least_start-le :
      (ss : List (Span F)) (n : ℕ)
      → (least_start ss n ≤ n) × All (λ s. least_start ss n ≤ s.start_time_ms) ss
  unfolding least_start
  least_start-le [] n = (omega arith, tt)
  least_start-le (s ∷ ss) n =
      let ih = least_start-le ss (min n s.start_time_ms) in
      (omega (arith, ih.0), (omega (arith, ih.0), ih.1))

  pub le-greatest_end :
      (ss : List (Span F)) (n : ℕ)
      → (n ≤ greatest_end ss n) × All (λ s. s.end_time_ms ≤ greatest_end ss n) ss
  unfolding greatest_end
  le-greatest_end [] n = (omega arith, tt)
  le-greatest_end (s ∷ ss) n =
      let ih = le-greatest_end ss (max n s.end_time_ms) in
      (omega (arith, ih.0), (omega (arith, ih.0), ih.1))
