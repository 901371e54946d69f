-- ===== src/Storage/AgentStats/Calls.antt =====
-- What internal/storage/agent_stats.go counts for each tool.
use labubu.Base.{
  ◌+◌, ◌≡◌, sym, ap, ◌∙◌, inl, inr, none, List, [], ◌∷◌, ◌++◌, arith, if◌then◌else◌, Bool-cases,
  length, keep, count,
}
use labubu.Base.Str.{Str, str_eq, str_eq_iff}
use labubu.Base.Dict.{nat_eq, bytes_eq, Dict, lookup, insert, lookup-insert}
use mathlib.Core.List.{append_assoc, append-nil}
use labubu.Storage.Types.{Span}
use labubu.Storage.AgentStats.{is_ok, ToolAgg, tool_name, agg_or_new, count_call, tool_aggs}

module _ {F : Type 0} where
  abbrev pub calls_of : Str → List (Span F) → List (Span F)
  calls_of name ss = keep (λ (s : Span F). str_eq (tool_name s) name) ss

  -- What a tool's entry holds after further calls.
  pub record IsExtended (old new : ToolAgg F) (calls : List (Span F)) : Type 0 where
    pub spans : new.spans ≡ old.spans ++ calls
    pub call_count : new.call_count ≡ old.call_count + length calls
    pub success_count :
        new.success_count ≡ old.success_count + count (λ (s : Span F). is_ok s.status_code) calls

  IsExtended-cons :
      (s : Span F) (old new : ToolAgg F) (calls : List (Span F))
      → IsExtended (count_call s old) new calls
      → IsExtended old new (s ∷ calls)
  unfolding count
  IsExtended-cons s old new calls h = record {
    spans = h.spans ∙ append_assoc old.spans (s ∷ []) calls;
    call_count = omega (arith, h.call_count);
    success_count = ground (arith, h.success_count);
  }

  IsExtended-old :
      (old old' new : ToolAgg F) (calls : List (Span F))
      → old ≡ old'
      → IsExtended old new calls
      → IsExtended old' new calls
  IsExtended-old old old' new calls e h = rw (sym e) h

  -- The entry that a tool has once a call is noted.
  agg_after :
      (s : Span F) (m : Dict Str (ToolAgg F)) (name : Str)
      → agg_or_new (
          lookup name (insert (tool_name s) (count_call s (agg_or_new (lookup (tool_name s) m))) m))
        ≡ (if str_eq (tool_name s) name
            then count_call s (agg_or_new (lookup name m))
            else agg_or_new (lookup name m))
  agg_after s m name =
      let agg = count_call s (agg_or_new (lookup (tool_name s) m)) in
      let noted = lookup-insert (tool_name s) name agg m in
      elim (Bool-cases (str_eq (tool_name s) name)) [
        | inl same ↦ simp same (
            ap agg_or_new (rw same at noted)
            ∙ ap (λ n. count_call s (agg_or_new (lookup n m)))
                ((str_eq_iff (tool_name s) name).0 same))
        | inr other ↦ simp other (ap agg_or_new (rw other at noted))
      ]

  lookup-tool_aggs :
      (ss : List (Span F)) (m : Dict Str (ToolAgg F)) (name : Str)
      → IsExtended
          (agg_or_new (lookup name m))
          (agg_or_new (lookup name (tool_aggs ss m)))
          (calls_of name ss)
  unfolding tool_aggs keep count
  lookup-tool_aggs [] m name = record {
    spans = sym (append-nil _);
    call_count = omega arith;
    success_count = omega arith;
  }
  lookup-tool_aggs (s ∷ ss) m name =
      let m' = insert (tool_name s) (count_call s (agg_or_new (lookup (tool_name s) m))) m in
      let old = agg_or_new (lookup name m) in
      let old' = agg_or_new (lookup name m') in
      let new = agg_or_new (lookup name (tool_aggs ss m')) in
      let ih = lookup-tool_aggs ss m' name in
      let noted = agg_after s m name in
      elim (Bool-cases (str_eq (tool_name s) name)) [
        | inl same ↦ simp same (
            IsExtended-cons s old new (calls_of name ss)
              (IsExtended-old old' (count_call s old) new (calls_of name ss) (rw same at noted) ih))
        | inr other ↦
            simp other (IsExtended-old old' old new (calls_of name ss) (rw other at noted) ih)
      ]

  -- The entry of a tool has its calls in order, their number and the number of those that succeeded;
  -- a tool that was not called has an empty entry.
  pub tool_aggs-IsExtended :
      (ss : List (Span F)) (name : Str)
      → IsExtended (agg_or_new none) (agg_or_new (lookup name (tool_aggs ss []))) (calls_of name ss)
  unfolding lookup
  tool_aggs-IsExtended ss name = lookup-tool_aggs ss [] name
