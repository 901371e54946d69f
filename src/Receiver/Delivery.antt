-- ===== src/Receiver/Delivery.antt =====
-- What becomes of the batches of a request to the trace services of internal/receiver/otlp.go.
use labubu.Base.{
  ℕ, ◌≡◌, refl, sym, ap, ◌∙◌, Bool, true, false, Option, none, some, List, [], ◌∷◌, ◌++◌, length,
}
use labubu.Base.Str.{Str}
use labubu.Base.Dict.{nat_eq, bytes_eq, Dict}
use labubu.Storage.Types.{Span, ResourceInfo}
use labubu.Pipeline.{Batch}
use labubu.Receiver.Proto.{Formats}
use labubu.Receiver.Spans.{EventTexts}
use labubu.Receiver.Export.{
  Ingester, ScopeSpans, ResourceSpans, after_ingest, batch_of, resource_of, send_batch,
  export_scopes, export_resources, export,
}

module _ {F : Type 0} (fm : Formats) (order : Dict Str (List Str)) (texts : EventTexts)
    (ing : Ingester F) where
  open ing use {State, ingest}

  -- The batches of a request, said without a loop over the pipeline: one for each scope that has a
  -- span, in order.
  abbrev pub unless_empty : Batch F → List (Span F) → List (Batch F)
  unless_empty b [] = []
  unless_empty b (x ∷ xs) = b ∷ []

  unfoldable pub scope_batches : ResourceInfo → List (ScopeSpans fm) → List (Batch F)
  scope_batches resource [] = []
  scope_batches resource (ss ∷ sss) =
      unless_empty (batch_of fm order texts ing resource ss)
        (batch_of fm order texts ing resource ss).spans
      ++ scope_batches resource sss

  unfoldable pub batches_of : List (ResourceSpans fm) → List (Batch F)
  batches_of [] = []
  batches_of (rs ∷ rss) =
      scope_batches (resource_of fm order texts ing rs) rs.scope_spans ++ batches_of rss

  -- The state after a run of batches that are all taken.
  abbrev if_taken : State × Bool → Option State
  if_taken (s, true) = some s
  if_taken (s, false) = none

  abbrev then_take : Option State → (State → Option State) → Option State
  then_take none next = none
  then_take (some s) next = next s

  unfoldable pub takes_all : List (Batch F) → State → Option State
  takes_all [] s = some s
  takes_all (b ∷ bs) s = then_take (if_taken (ingest b s)) (λ s'. takes_all bs s')

  -- How a run over some batches ends: all were taken; or those in front of `refused` were, and
  -- neither it nor any batch after it is in the pipeline.
  pub data Delivers (s : State) (bs : List (Batch F)) (result : State × Option ℕ) : Type 0 where
    complete : (s' : State) → takes_all bs s ≡ some s' → result ≡ (s', none) → Delivers s bs result
    cut_off :
        (taken lost : List (Batch F)) (refused : Batch F) (s' s'' : State)
        → bs ≡ taken ++ refused ∷ lost
        → takes_all taken s ≡ some s'
        → ingest refused s' ≡ (s'', false)
        → result ≡ (s'', some (length refused.spans))
        → Delivers s bs result

  unfoldable feed : List (Batch F) → State → (State → State × Option ℕ) → State × Option ℕ
  feed [] s next = next s
  feed (b ∷ bs) s next =
      after_ingest fm order texts ing (ingest b s) (length b.spans) (λ s'. feed bs s' next)

  send_batch-feed :
      (b : Batch F) (xs : List (Span F)) (bs : List (Batch F)) (s : State)
      (next : State → State × Option ℕ)
      → b.spans ≡ xs
      → send_batch fm order texts ing b xs s (λ s'. feed bs s' next)
        ≡ feed (unless_empty b xs ++ bs) s next
  unfolding feed
  send_batch-feed b [] bs s next h = refl
  send_batch-feed b (x ∷ xs) bs s next h =
      ap (λ ys. after_ingest fm order texts ing (ingest b s) (length ys) (λ s'. feed bs s' next))
        (sym h)

  export_scopes-feed :
      (resource : ResourceInfo) (sss : List (ScopeSpans fm)) (s : State)
      (next : State → State × Option ℕ)
      → export_scopes fm order texts ing resource sss s next
        ≡ feed (scope_batches resource sss) s next
  unfolding export_scopes scope_batches feed
  export_scopes-feed resource [] s next = refl
  export_scopes-feed resource (ss ∷ sss) s next =
      let b = batch_of fm order texts ing resource ss in
      ap (send_batch fm order texts ing b b.spans s)
        (λ i s'. export_scopes-feed resource sss s' next i)
      ∙ send_batch-feed b b.spans (scope_batches resource sss) s next refl

  feed-append :
      (bs cs : List (Batch F)) (s : State) (next : State → State × Option ℕ)
      → feed (bs ++ cs) s next ≡ feed bs s (λ s'. feed cs s' next)
  unfolding feed
  feed-append [] cs s next = refl
  feed-append (b ∷ bs) cs s next =
      ap (after_ingest fm order texts ing (ingest b s) (length b.spans))
        (λ i s'. feed-append bs cs s' next i)

  export_resources-feed :
      (rss : List (ResourceSpans fm)) (s : State)
      → export_resources fm order texts ing rss s ≡ feed (batches_of rss) s (λ s'. (s', none))
  unfolding export_resources batches_of feed
  export_resources-feed [] s = refl
  export_resources-feed (rs ∷ rss) s =
      ap (export_scopes fm order texts ing (resource_of fm order texts ing rs) rs.scope_spans s)
        (λ i s'. export_resources-feed rss s' i)
      ∙ export_scopes-feed (resource_of fm order texts ing rs) rs.scope_spans s
          (λ s'. feed (batches_of rss) s' (λ t. (t, none)))
      ∙ sym (
          feed-append (scope_batches (resource_of fm order texts ing rs) rs.scope_spans)
            (batches_of rss) s (λ t. (t, none)))

  -- One more batch that was taken, in front of a run.
  taken_first :
      (s s' : State) (b : Batch F) (bs : List (Batch F)) (result : State × Option ℕ)
      → ingest b s ≡ (s', true)
      → Delivers s' bs result
      → Delivers s (b ∷ bs) result
  unfolding takes_all
  taken_first s s' b bs result e (complete t all_taken r) =
      complete t (ap (λ o. then_take (if_taken o) (λ u. takes_all bs u)) e ∙ all_taken) r
  taken_first s s' b bs result e (cut_off taken lost refused t u split all_taken refusal r) =
      cut_off (b ∷ taken) lost refused t u (ap (λ cs. b ∷ cs) split)
        (ap (λ o. then_take (if_taken o) (λ u. takes_all taken u)) e ∙ all_taken) refusal r

  first_outcome :
      (s : State) (b : Batch F) (bs : List (Batch F)) (o : State × Bool)
      → ((s' : State) → Delivers s' bs (feed bs s' (λ t. (t, none))))
      → ingest b s ≡ o
      → Delivers s
          (b ∷ bs)
          (after_ingest fm order texts ing o (length b.spans) (λ s'. feed bs s' (λ t. (t, none))))
  unfolding takes_all
  first_outcome s b bs (s', true) rest e = taken_first s s' b bs _ e (rest s')
  first_outcome s b bs (s', false) rest e = cut_off [] bs b s s' refl refl e refl

  feed-Delivers : (bs : List (Batch F)) (s : State) → Delivers s bs (feed bs s (λ s'. (s', none)))
  unfolding feed takes_all
  feed-Delivers [] s = complete s refl refl
  feed-Delivers (b ∷ bs) s = first_outcome s b bs (ingest b s) (λ s'. feed-Delivers bs s') refl

  -- Export hands the pipeline the batches of the request, one for each scope that has a span, in
  -- order, until one is refused. It reports full success only if all were taken; otherwise it reports
  -- as rejected the spans of the refused batch alone, and no batch after that one reaches the
  -- pipeline.
  pub export-Delivers :
      (req : List (ResourceSpans fm)) (s : State)
      → Delivers s (batches_of req) (export fm order texts ing req s)
  unfolding export
  export-Delivers req s = rw (export_resources-feed req s) (feed-Delivers (batches_of req) s)
