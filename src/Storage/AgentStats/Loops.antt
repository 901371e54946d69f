-- ===== src/Storage/AgentStats/Loops.antt =====
-- The two loop counts and the two retry counts of internal/storage/agent_stats.go against each other.
use labubu.Base.{
  ℕ, ◌+◌, ◌≤◌, ◌<◌, ◌≡◌, refl, sym, ap, ◌∙◌, inl, inr, ◌&&◌, List, [], ◌∷◌, arith, ltb, Bool-cases,
}
use labubu.Base.Str.{Str, str_eq}
use labubu.Base.Dict.{nat_eq, bytes_eq, Dict, lookup, insert}
use labubu.Storage.Types.{Span}
use labubu.Storage.AgentStats.{
  is_ok, is_error, number_at, sum_values, larger, raise_to, ToolAgg, tool_name, count_retries,
  total_retries, note_retries, tool_retry_counts, longest_from, global_max_loop, max_loops_from,
  tool_max_loops,
}

-- The largest number of a map, 0 for an empty one.
unfoldable pub greatest : Dict Str ℕ → ℕ
greatest [] = 0
greatest ((k, n) ∷ m) = larger n (greatest m)

number_at-le-greatest : (name : Str) (m : Dict Str ℕ) → number_at name m ≤ greatest m
unfolding lookup greatest
number_at-le-greatest name [] = omega arith
number_at-le-greatest name ((k, w) ∷ m) = ground (arith, number_at-le-greatest name m)

greatest-insert :
    (name : Str) (n : ℕ) (m : Dict Str ℕ)
    → number_at name m < n
    → greatest (insert name n m) ≡ larger (greatest m) n
unfolding lookup insert greatest
greatest-insert name n [] h = ground arith
greatest-insert name n ((k, w) ∷ m) h = ground (arith, greatest-insert name n m)

greatest-raise_to :
    (name : Str) (n : ℕ) (m : Dict Str ℕ) → greatest (raise_to name n m) ≡ larger (greatest m) n
greatest-raise_to name n m = elim (Bool-cases (ltb (number_at name m) n)) [
  | inl higher ↦ rw higher (greatest-insert name n m (ground arith))
  | inr lower ↦ rw lower (ground (arith, number_at-le-greatest name m))
]

sum_values-insert :
    (name : Str) (n : ℕ) (m : Dict Str ℕ)
    → sum_values (insert name n m) + number_at name m ≡ sum_values m + n
unfolding sum_values insert lookup
sum_values-insert name n [] = omega arith
sum_values-insert name n ((k, w) ∷ m) = ground (arith, sum_values-insert name n m)

module _ {F : Type 0} where
  longest_from_lem :
      (name : Str) (current : ℕ) (m : Dict Str ℕ) (ss : List (Span F))
      → longest_from name current (greatest m) ss ≡ greatest (max_loops_from name current m ss)
  unfolding longest_from max_loops_from
  longest_from_lem name current m [] = sym (greatest-raise_to name current m)
  longest_from_lem name current m (s ∷ ss) = elim (Bool-cases (str_eq (tool_name s) name)) [
    | inl same ↦ simp same (longest_from_lem name (current + 1) m ss)
    | inr other ↦ simp other (
        ap (λ n. longest_from (tool_name s) 1 n ss) (sym (greatest-raise_to name current m))
        ∙ longest_from_lem (tool_name s) 1 (raise_to name current m) ss)
  ]

  -- The deepest loop overall is the deepest loop of some tool: the two counts, which run over the
  -- calls separately, agree.
  pub global_max_loop-eq-greatest :
      (ss : List (Span F)) → global_max_loop ss ≡ greatest (tool_max_loops ss)
  unfolding global_max_loop tool_max_loops greatest
  global_max_loop-eq-greatest [] = refl
  global_max_loop-eq-greatest (s ∷ ss) = longest_from_lem (tool_name s) 1 [] ss

  note_retries-sum :
      (name : Str) (ss : List (Span F)) (errors total : ℕ) (counts : Dict Str ℕ)
      → sum_values counts ≡ total
      → sum_values (note_retries name ss errors counts) ≡ count_retries ss errors total
  unfolding note_retries count_retries
  note_retries-sum name [] errors total counts h = h
  note_retries-sum name (s ∷ ss) errors total counts h =
      elim (Bool-cases (is_error s.status_code)) [
        | inl failed ↦ simp failed (note_retries-sum name ss (errors + 1) total counts h)
        | inr not_failed ↦ elim (Bool-cases (is_ok s.status_code && ltb 0 errors)) [
          | inl retried ↦
              simp (not_failed, retried)
                (note_retries-sum name ss 0 (total + errors)
                  (insert name (number_at name counts + errors) counts)
                  (omega
                    (arith, h, sum_values-insert name (number_at name counts + errors) counts)))
          | inr quiet ↦ simp (not_failed, quiet) (note_retries-sum name ss 0 total counts h)
        ]
      ]

  tool_retry_counts-sum :
      (m : Dict Str (ToolAgg F)) (total : ℕ) (counts : Dict Str ℕ)
      → sum_values counts ≡ total
      → sum_values (tool_retry_counts m counts) ≡ total_retries m total
  unfolding tool_retry_counts total_retries
  tool_retry_counts-sum [] total counts h = h
  tool_retry_counts-sum ((name, agg) ∷ m) total counts h =
      tool_retry_counts-sum m (count_retries agg.spans 0 total)
        (note_retries name agg.spans 0 counts) (note_retries-sum name agg.spans 0 total counts h)

  -- The retries noted under the tools' names add up to the retries counted over all tools.
  pub tool_retry_counts-eq-total_retries :
      (m : Dict Str (ToolAgg F)) → sum_values (tool_retry_counts m []) ≡ total_retries m 0
  unfolding sum_values
  tool_retry_counts-eq-total_retries m = tool_retry_counts-sum m 0 [] refl
