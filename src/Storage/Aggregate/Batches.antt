-- ===== src/Storage/Aggregate/Batches.antt =====
-- Spans of one trace that arrive in two batches: the merge in InsertSpans of
-- internal/storage/memstore.go against one aggregation of all the spans.
use labubu.Base.{ℕ, ◌+◌, ◌<◌, ◌≡◌, refl, sym, ap, ◌∙◌, Option, none, some, List, [], ◌∷◌, arith}
use labubu.Base.Dict.{nat_eq, bytes_eq}
use labubu.Base.Words.{u16}
use labubu.Storage.Types.{Span, ResourceInfo, ScopeInfo, Trace}
use labubu.Storage.Aggregate.{merge_tokens, new_trace, merge_trace}
use labubu.Storage.Aggregate.PerTrace.{add_spans}
use labubu.Storage.Aggregate.Summary.{
  least_start, greatest_end, token_sum, Sums, add_spans-Sums, new_trace-Sums,
}
use Prim.Native.Nat.{min, max}

merge_tokens_assoc :
    (a b c : Option ℕ) → merge_tokens (merge_tokens a b) c ≡ merge_tokens a (merge_tokens b c)
merge_tokens_assoc a b c = ground arith

merge_tokens-none : (a : Option ℕ) → merge_tokens none a ≡ a
merge_tokens-none none = refl
merge_tokens-none (some n) = refl

module _ {F : Type 0} where
  merge_trace-Sums :
      (u t : Trace F)
      → Sums
          (merge_trace u t)
          (u16 (t.span_count + u.span_count))
          (min t.start_time_ms u.start_time_ms)
          (max t.end_time_ms u.end_time_ms)
          (merge_tokens t.total_tokens u.total_tokens)
  unfolding merge_trace
  merge_trace-Sums u t = record {
    span_count = ground arith;
    start_time_ms = ground arith;
    end_time_ms = ground arith;
    total_tokens = ground arith;
  }

  least_start-min :
      (ss : List (Span F)) (m n : ℕ) → least_start ss (min m n) ≡ min m (least_start ss n)
  unfolding least_start
  least_start-min [] m n = refl
  least_start-min (s ∷ ss) m n =
      ap (least_start ss) (omega arith) ∙ least_start-min ss m (min n s.start_time_ms)

  greatest_end-max :
      (ss : List (Span F)) (m n : ℕ) → greatest_end ss (max m n) ≡ max m (greatest_end ss n)
  unfolding greatest_end
  greatest_end-max [] m n = refl
  greatest_end-max (s ∷ ss) m n =
      ap (greatest_end ss) (omega arith) ∙ greatest_end-max ss m (max n s.end_time_ms)

  token_sum-merge :
      (ss : List (Span F)) (a b : Option ℕ)
      → token_sum ss (merge_tokens a b) ≡ merge_tokens a (token_sum ss b)
  unfolding token_sum
  token_sum-merge [] a b = refl
  token_sum-merge (s ∷ ss) a b =
      ap (token_sum ss) (merge_tokens_assoc a b s.total_tokens)
      ∙ token_sum-merge ss a (merge_tokens b s.total_tokens)

  -- However the spans of a trace are divided into two batches, the stored trace that the second
  -- batch is merged into has the same count, time range and tokens as if all the spans had come in
  -- one batch.
  pub merge_trace-add_spans :
      (resource : ResourceInfo) (scope : ScopeInfo) (s : Span F) (ss : List (Span F)) (t : Trace F)
      → t.span_count < 65536
      → Sums
          (merge_trace (add_spans (s ∷ ss) (new_trace resource scope s)) t)
          (add_spans (s ∷ ss) t).span_count
          (add_spans (s ∷ ss) t).start_time_ms
          (add_spans (s ∷ ss) t).end_time_ms
          (add_spans (s ∷ ss) t).total_tokens
  unfolding least_start greatest_end token_sum
  merge_trace-add_spans resource scope s ss t h =
      let u = add_spans (s ∷ ss) (new_trace resource scope s) in
      let one = new_trace-Sums resource scope s ss in
      let all_ = add_spans-Sums (s ∷ ss) t h in
      let m = merge_trace-Sums u t in
      record {
        span_count = omega (arith, m.span_count, one.span_count, all_.span_count);
        start_time_ms =
            m.start_time_ms
            ∙ ap (min t.start_time_ms) one.start_time_ms
            ∙ ap (min t.start_time_ms) (ap (least_start ss) (omega arith))
            ∙ sym (least_start-min ss t.start_time_ms s.start_time_ms)
            ∙ sym all_.start_time_ms;
        end_time_ms =
            m.end_time_ms
            ∙ ap (max t.end_time_ms) one.end_time_ms
            ∙ ap (max t.end_time_ms) (ap (greatest_end ss) (omega arith))
            ∙ sym (greatest_end-max ss t.end_time_ms s.end_time_ms)
            ∙ sym all_.end_time_ms;
        total_tokens =
            m.total_tokens
            ∙ ap (merge_tokens t.total_tokens) one.total_tokens
            ∙ ap (λ n. merge_tokens t.total_tokens (token_sum ss n))
                (merge_tokens-none s.total_tokens)
            ∙ sym (token_sum-merge ss t.total_tokens s.total_tokens)
            ∙ sym all_.total_tokens;
      }
