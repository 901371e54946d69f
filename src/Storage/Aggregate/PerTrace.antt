-- ===== src/Storage/Aggregate/PerTrace.antt =====
-- What the aggregate of a trace is, span by span: aggregateTraces of internal/storage/chdb_query.go
-- against sums, least starts and greatest ends.
use labubu.Base.{
  ℕ, ◌≡◌, refl, sym, ap, ◌∙◌, inl, inr, Option, none, some, List, [], ◌∷◌, ◌==◌, ==_iff, Bool-cases,
  keep,
}
use labubu.Base.Dict.{nat_eq, bytes_eq, Dict, lookup, insert, lookup-insert}
use labubu.Storage.Types.{Span, ResourceInfo, ScopeInfo, Trace}
use labubu.Storage.Aggregate.{new_trace, add_span, trace_or_new, aggregate_from, aggregate_traces}

module _ {F : Type 0} where
  -- The spans added to one trace, one after the other.
  unfoldable pub add_spans : List (Span F) → Trace F → Trace F
  add_spans [] t = t
  add_spans (s ∷ ss) t = add_spans ss (add_span s t)

  -- The trace of a list of spans that all belong to it.
  abbrev pub trace_of : ResourceInfo → ScopeInfo → List (Span F) → Option (Trace F)
  trace_of resource scope [] = none
  trace_of resource scope (s ∷ ss) = some (add_spans (s ∷ ss) (new_trace resource scope s))

  abbrev pub spans_of : ℕ → List (Span F) → List (Span F)
  spans_of id ss = keep (λ (s : Span F). s.trace_id == id) ss

  -- Where a trace is already there, further spans are added to it.
  abbrev added : ResourceInfo → ScopeInfo → List (Span F) → Option (Trace F) → Option (Trace F)
  added resource scope ss none = trace_of resource scope ss
  added resource scope ss (some t) = some (add_spans ss t)

  added_next :
      (resource : ResourceInfo) (scope : ScopeInfo) (s : Span F) (ss : List (Span F))
      (o : Option (Trace F))
      → added resource scope (s ∷ ss) o
        ≡ some (add_spans ss (add_span s (trace_or_new resource scope s o)))
  unfolding add_spans
  added_next resource scope s ss none = refl
  added_next resource scope s ss (some t) = refl

  added-nil :
      (resource : ResourceInfo) (scope : ScopeInfo) (o : Option (Trace F))
      → o ≡ added resource scope [] o
  unfolding add_spans
  added-nil resource scope none = refl
  added-nil resource scope (some t) = refl

  lookup-aggregate_from :
      (resource : ResourceInfo) (scope : ScopeInfo) (ss : List (Span F)) (m : Dict ℕ (Trace F))
      (id : ℕ)
      → lookup id (aggregate_from resource scope ss m)
        ≡ added resource scope (spans_of id ss) (lookup id m)
  unfolding aggregate_from keep add_spans
  lookup-aggregate_from resource scope [] m id = added-nil resource scope (lookup id m)
  lookup-aggregate_from resource scope (s ∷ ss) m id =
      let t = add_span s (trace_or_new resource scope s (lookup s.trace_id m)) in
      let ih =
        lookup-aggregate_from resource scope ss (insert s.trace_id t m) id
        ∙ ap (added resource scope (spans_of id ss)) (lookup-insert s.trace_id id t m) in
      elim (Bool-cases (s.trace_id == id)) [
        | inl same ↦ simp same (
            rw same at ih
            ∙ ap
                (λ i. some (
                  add_spans (spans_of id ss)
                    (add_span s (trace_or_new resource scope s (lookup i m)))))
                ((==_iff s.trace_id id).0 same)
            ∙ sym (added_next resource scope s (spans_of id ss) (lookup id m)))
        | inr other ↦ simp other (rw other at ih)
      ]

  -- Among all the traces of a batch, each one is the fold of its own spans, in their order: the
  -- spans of other traces do not touch it, and a trace with no span is not there.
  pub lookup-aggregate_traces :
      (resource : ResourceInfo) (scope : ScopeInfo) (ss : List (Span F)) (id : ℕ)
      → lookup id (aggregate_traces resource scope ss) ≡ trace_of resource scope (spans_of id ss)
  unfolding aggregate_traces
  lookup-aggregate_traces resource scope ss id = lookup-aggregate_from resource scope ss [] id
