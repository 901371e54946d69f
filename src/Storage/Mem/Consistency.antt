-- ===== src/Storage/Mem/Consistency.antt =====
-- The invariant of the in-memory store (internal/storage/memstore.go), kept by InsertSpans, Purge
-- and DeleteTraces.
use labubu.Base.{
  ℕ, ◌≡◌, refl, inl, inr, Bool, true, false, not, Option, none, some, List, [], ◌∷◌, arith, ◌==◌,
  Bool-cases, keep, All, All-append, All-weaken,
}
use labubu.Base.Int.{ℤ}
use labubu.Base.Str.{is_empty}
use labubu.Base.Dict.{
  nat_eq, bytes_eq, Dict, lookup, insert, has, Distinct, has-insert, insert-Distinct,
}
use labubu.Base.Sort.{Sorter}
use labubu.Base.Floats.{Floats}
use labubu.Storage.Types.{Span, ResourceInfo, ScopeInfo, Trace, ModelPricing}
use labubu.Storage.Aggregate.{aggregate_from, add_span, trace_or_new}
use labubu.Storage.Pricing.{no_tokens}
use labubu.Storage.Mem.{
  MemStore, merge_all, merged_with, price_spans, price_stored, price_traces, priced, summed,
  price_in, entries, insert_spans, CostSum,
}
use labubu.Storage.Mem.Retention.{IdSet, id_set, restrict, purge, kept_ids}
use labubu.Storage.Mem.Persist.{
  MemWrite, written, failed, delete_traces, without_traces, saved_as, save_to_disk,
}

module _ {F : Type 0} where
  -- Every stored span belongs to a stored trace, and no trace stands twice.
  pub record IsConsistent (m : MemStore F) : Type 0 where
    pub owned : All (λ (s : Span F). has s.trace_id m.traces ≡ true) m.spans
    pub distinct : Distinct m.traces

  -- A trace that passes the test is still there after a filter on the identifiers.
  has-keep :
      (p : ℕ → Bool) (id : ℕ) (m : Dict ℕ (Trace F))
      → p id ≡ true
      → has id m ≡ true
      → has id (keep (λ e. p e.0) m) ≡ true
  unfolding has keep
  has-keep p id [] h k = k
  has-keep p id ((j, t) ∷ m) h k = ground (arith, has-keep p id m)

  not_has-keep :
      (p : ℕ → Bool) (id : ℕ) (m : Dict ℕ (Trace F))
      → has id m ≡ false
      → has id (keep (λ e. p e.0) m) ≡ false
  unfolding has keep
  not_has-keep p id [] h = refl
  not_has-keep p id ((j, t) ∷ m) h = ground (arith, not_has-keep p id m)

  keep-Distinct :
      (p : ℕ → Bool) (m : Dict ℕ (Trace F)) → Distinct m → Distinct (keep (λ e. p e.0) m)
  unfolding keep
  keep-Distinct p [] d = tt
  keep-Distinct p ((j, t) ∷ m) d = ground (arith, not_has-keep p j m, keep-Distinct p m)

  keep_owned :
      (p : ℕ → Bool) (ss : List (Span F)) (m : Dict ℕ (Trace F))
      → All (λ (s : Span F). has s.trace_id m ≡ true) ss
      → All
          (λ (s : Span F). has s.trace_id (keep (λ e. p e.0) m) ≡ true)
          (keep (λ (s : Span F). p s.trace_id) ss)
  unfolding keep
  keep_owned p [] m h = tt
  keep_owned p (s ∷ ss) m h = elim (Bool-cases (p s.trace_id)) [
    | inl stays ↦ rw stays (has-keep p s.trace_id m stays h.0, keep_owned p ss m h.1)
    | inr goes ↦ rw goes (keep_owned p ss m h.1)
  ]

  restrict-IsConsistent :
      (ids : IdSet) (m : MemStore F) → IsConsistent m → IsConsistent (restrict ids m).0
  unfolding restrict
  restrict-IsConsistent ids m h = record {
    owned = keep_owned (λ id. has id ids) m.spans m.traces h.owned;
    distinct = keep-Distinct (λ id. has id ids) m.traces h.distinct;
  }

  save_to_disk-IsConsistent :
      (w : MemWrite F) (m : MemStore F) → IsConsistent m → IsConsistent (save_to_disk w m).0
  unfolding save_to_disk saved_as
  save_to_disk-IsConsistent (written json) m h = elim (Bool-cases (is_empty m.json_path)) [
    | inl nowhere ↦ simp nowhere h
    | inr there ↦ simp there (record { owned = h.owned; distinct = h.distinct })
  ]
  save_to_disk-IsConsistent (failed f) m h = elim (Bool-cases (is_empty m.json_path)) [
    | inl nowhere ↦ simp nowhere h
    | inr there ↦ simp there (record { owned = h.owned; distinct = h.distinct })
  ]

  without_traces-IsConsistent :
      (ids : IdSet) (m : MemStore F) → IsConsistent m → IsConsistent (without_traces ids m)
  unfolding without_traces
  without_traces-IsConsistent ids m h = record {
    owned = keep_owned (λ id. not (has id ids)) m.spans m.traces h.owned;
    distinct = keep-Distinct (λ id. not (has id ids)) m.traces h.distinct;
  }

  -- Purge leaves no span without its trace.
  pub purge-IsConsistent :
      (sorter : Sorter) (now_ms : ℕ) (max_age max_count : ℤ) (m : MemStore F)
      → IsConsistent m
      → IsConsistent (purge sorter now_ms max_age max_count m).0
  unfolding purge
  purge-IsConsistent sorter now_ms max_age max_count m h =
      restrict-IsConsistent (kept_ids sorter now_ms max_age max_count m) m h

  -- DeleteTraces leaves no span without its trace, also where the file cannot be written.
  pub delete_traces-IsConsistent :
      (w : MemWrite F) (m : MemStore F) (ids : List ℕ)
      → IsConsistent m
      → IsConsistent (delete_traces w m ids).0
  unfolding delete_traces
  delete_traces-IsConsistent w m [] h = h
  delete_traces-IsConsistent w m (id ∷ rest) h =
      save_to_disk-IsConsistent w (without_traces (id_set (id ∷ rest) []) m)
        (without_traces-IsConsistent (id_set (id ∷ rest) []) m h)

  -- A trace that is there stays there when another one is written.
  has-insert_old :
      (id j : ℕ) (t : Trace F) (m : Dict ℕ (Trace F))
      → has id m ≡ true
      → has id (insert j t m) ≡ true
  has-insert_old id j t m h = ground (arith, has-insert j id t m)

  has-aggregate_from :
      (resource : ResourceInfo) (scope : ScopeInfo) (ss : List (Span F)) (m : Dict ℕ (Trace F))
      (id : ℕ)
      → has id m ≡ true
      → has id (aggregate_from resource scope ss m) ≡ true
  unfolding aggregate_from
  has-aggregate_from resource scope [] m id h = h
  has-aggregate_from resource scope (s ∷ ss) m id h =
      has-aggregate_from resource scope ss _ id (has-insert_old id s.trace_id _ m h)

  -- The traces of a batch are those of its spans.
  aggregate_from_owned :
      (resource : ResourceInfo) (scope : ScopeInfo) (ss : List (Span F)) (m : Dict ℕ (Trace F))
      → All (λ (s : Span F). has s.trace_id (aggregate_from resource scope ss m) ≡ true) ss
  unfolding aggregate_from
  aggregate_from_owned resource scope [] m = tt
  aggregate_from_owned resource scope (s ∷ ss) m =
      let t = add_span s (trace_or_new resource scope s (lookup s.trace_id m)) in
      (
        has-aggregate_from resource scope ss (insert s.trace_id t m) s.trace_id
            (ground (arith, has-insert s.trace_id s.trace_id t m)),
        aggregate_from_owned resource scope ss (insert s.trace_id t m),
      )

  has-merge_all_old :
      (batch m : Dict ℕ (Trace F)) (id : ℕ) → has id m ≡ true → has id (merge_all batch m) ≡ true
  unfolding merge_all
  has-merge_all_old [] m id h = h
  has-merge_all_old ((j, t) ∷ batch) m id h =
      has-merge_all_old batch (insert j (merged_with t (lookup j m)) m) id
        (has-insert_old id j _ m h)

  has-merge_all_new :
      (batch m : Dict ℕ (Trace F)) (id : ℕ)
      → has id batch ≡ true
      → has id (merge_all batch m) ≡ true
  unfolding merge_all has
  has-merge_all_new [] m id h = cc
  has-merge_all_new ((j, t) ∷ batch) m id h =
      let m' = insert j (merged_with t (lookup j m)) m in
      elim (Bool-cases (j == id)) [
        | inl same ↦
            has-merge_all_old batch m' id
              (ground (arith, has-insert j id (merged_with t (lookup j m)) m))
        | inr other ↦ has-merge_all_new batch m' id (ground arith)
      ]

  merge_all-Distinct : (batch m : Dict ℕ (Trace F)) → Distinct m → Distinct (merge_all batch m)
  unfolding merge_all
  merge_all-Distinct [] m d = d
  merge_all-Distinct ((j, t) ∷ batch) m d =
      merge_all-Distinct batch _ (insert-Distinct j (merged_with t (lookup j m)) m d)

module _ (fl : Floats) where
  open fl use {Float}

  priced-trace_id :
      (o : Option (ModelPricing Float)) (s : Span Float) → (priced fl o s).trace_id ≡ s.trace_id
  priced-trace_id none s = refl
  priced-trace_id (some p) s = refl

  -- Pricing the stored spans changes no trace identifier.
  price_spans_owned :
      (Q : ℕ → Type 0) (id : ℕ) (ps : List (ModelPricing Float)) (ss : List (Span Float))
      (acc : CostSum fl)
      → All (λ (s : Span Float). Q s.trace_id) ss
      → All (λ (s : Span Float). Q s.trace_id) (price_spans fl id ps ss acc).0
  unfolding price_spans
  price_spans_owned Q id ps [] acc h = tt
  price_spans_owned Q id ps (s ∷ ss) acc h = (
    rw (priced-trace_id (price_in fl id ps s) s) h.0,
    price_spans_owned Q id ps ss (summed fl (price_in fl id ps s) s acc) h.1,
  )

  price_stored-IsConsistent :
      (id : ℕ) (m : MemStore Float) (o : Option (Trace Float))
      → IsConsistent m
      → IsConsistent (price_stored fl id m o)
  price_stored-IsConsistent id m none h = h
  price_stored-IsConsistent id m (some t) h =
      let acc0 : CostSum fl = record { total = fl.zero_float; currency = []; has_cost = false } in
      let r = price_spans fl id (entries m.pricing) m.spans acc0 in
      let owned' =
        price_spans_owned (λ j. has j m.traces ≡ true) id (entries m.pricing) m.spans acc0
          h.owned in
      elim (Bool-cases (no_tokens t.total_tokens)) [
        | inl free ↦ simp free h
        | inr counted ↦ elim (Bool-cases r.1.has_cost) [
          | inl costs ↦
              simp (counted, costs)
                (record {
                  owned = All-weaken r.0 (λ s k. has-insert_old s.trace_id id _ m.traces k) owned';
                  distinct = insert-Distinct id _ m.traces h.distinct;
                })
          | inr none' ↦ simp (counted, none') (record { owned = owned'; distinct = h.distinct })
        ]
      ]

  price_traces-IsConsistent :
      (batch : Dict ℕ (Trace Float)) (m : MemStore Float)
      → IsConsistent m
      → IsConsistent (price_traces fl batch m)
  unfolding price_traces
  price_traces-IsConsistent [] m h = h
  price_traces-IsConsistent ((id, t) ∷ batch) m h =
      price_traces-IsConsistent batch (price_stored fl id m (lookup id m.traces))
        (price_stored-IsConsistent id m (lookup id m.traces) h)

  -- InsertSpans leaves no span without its trace, for every batch of spans.
  pub insert_spans-IsConsistent :
      (m : MemStore Float) (resource : ResourceInfo) (scope : ScopeInfo) (ss : List (Span Float))
      → IsConsistent m
      → IsConsistent (insert_spans fl m resource scope ss)
  unfolding insert_spans
  insert_spans-IsConsistent m resource scope ss h =
      let batch = aggregate_from resource scope ss [] in
      let owned_new =
        All-weaken ss (λ s k. has-merge_all_new batch m.traces s.trace_id k)
          (aggregate_from_owned resource scope ss []) in
      let owned_old =
        All-weaken m.spans (λ s k. has-merge_all_old batch m.traces s.trace_id k) h.owned in
      price_traces-IsConsistent batch _ (record {
        owned =
            All-append (λ (s : Span Float). has s.trace_id (merge_all batch m.traces) ≡ true)
              m.spans ss owned_old owned_new;
        distinct = merge_all-Distinct batch m.traces h.distinct;
      })
