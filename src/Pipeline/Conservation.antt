-- ===== src/Pipeline/Conservation.antt =====
-- What the pipeline does with the batches it accepts (internal/pipeline/pipeline.go): none is lost,
-- doubled or moved before another, and the buffer's size is kept.
use labubu.Base.{
  ℕ, ◌≤◌, ◌≡◌, refl, sym, ap, ◌∙◌, inl, inr, true, false, Option, none, some, List, [], ◌∷◌, ◌++◌,
  arith, ltb, ◌==◌, Bool-cases, length, length-append,
}
use labubu.Base.Dict.{nat_eq, bytes_eq}
use mathlib.Core.List.{append_assoc}
use labubu.Pipeline.{
  SpanStore, Batch, Pipeline, Outcome, ok, blocked, panics, new, begin_ingest, pick, send,
  send_picked, finish_ingest, begin_shutdown, close_buf, insert_all, flush, receive_from, receive,
  tick, Move, begins_ingest, finishes_ingest, begins_shutdown, closes_buf, receives, ticks, step,
  Reaches, stays, moves,
}

module _ {F : Type 0} (st : SpanStore F) where
  open st use {State}

  insert_all-append :
      (xs ys : List (Batch F)) (s : State)
      → insert_all st (xs ++ ys) s ≡ insert_all st ys (insert_all st xs s)
  unfolding insert_all
  insert_all-append [] ys s = refl
  insert_all-append (x ∷ xs) ys s = insert_all-append xs ys _

  -- From the store at the start: what was accepted is what the store was given, then what the
  -- worker holds, then what the buffer holds, in that order; the store is the one that the flushed
  -- batches give; the buffer keeps its size; and a worker that has returned has left nothing.
  pub record Conserves (start : State) (p : Pipeline st) : Type 0 where
    pub order : p.accepted ≡ p.flushed ++ (p.pending ++ p.buf)
    pub stored : p.store ≡ insert_all st p.flushed start
    pub bounded : length p.buf ≤ p.size
    pub drained : p.returned ≡ true → (p.pending ≡ []) × (p.buf ≡ []) × (p.buf_closed ≡ true)

  flush-Conserves :
      (start : State) (p : Pipeline st) → Conserves start p → Conserves start (flush st p)
  unfolding flush
  flush-Conserves start p h = record {
    order = h.order ∙ sym (append_assoc p.flushed p.pending p.buf);
    stored =
        ap (insert_all st p.pending) h.stored ∙ sym (insert_all-append p.flushed p.pending start);
    bounded = h.bounded;
    drained = λ k. (refl, (h.drained k).1, (h.drained k).2);
  }

  -- What holds of the pipeline that a step leads to, where it leads to one.
  abbrev pub Lands : (Pipeline st → Type 0) → Outcome st → Type 0
  Lands P (ok q) = P q
  Lands P blocked = Unit
  Lands P panics = Unit

  send-Conserves :
      (start : State) (b : Batch F) (rest : List (Batch F)) (p : Pipeline st)
      → Conserves start p
      → Lands (Conserves start) (send st b rest p)
  unfolding send
  send-Conserves start b rest p h = elim (Bool-cases p.buf_closed) [
    | inl shut ↦ simp shut tt
    | inr open_ ↦ elim (Bool-cases (ltb (length p.buf) p.size)) [
      | inl fits ↦
          simp (open_, fits)
            (record {
              order =
                  ap (λ bs. bs ++ b ∷ []) h.order
                  ∙ append_assoc p.flushed (p.pending ++ p.buf) (b ∷ [])
                  ∙ ap (λ bs. p.flushed ++ bs) (append_assoc p.pending p.buf (b ∷ []));
              stored = h.stored;
              bounded = ground (arith, length-append p.buf (b ∷ []));
              drained = λ k. absurd (ground (arith, h.drained k));
            })
      | inr full ↦
          simp (open_, full)
            (record {
              order = h.order;
              stored = h.stored;
              bounded = h.bounded;
              drained = λ k. absurd (ground (arith, h.drained k));
            })
    ]
  ]

  send_picked-Conserves :
      (start : State) (o : Option (Batch F × List (Batch F))) (p : Pipeline st)
      → Conserves start p
      → Lands (Conserves start) (send_picked st o p)
  unfolding send_picked
  send_picked-Conserves start none p h = tt
  send_picked-Conserves start (some r) p h = send-Conserves start r.0 r.1 p h

  close_buf-Conserves :
      (start : State) (p : Pipeline st)
      → Conserves start p
      → Lands (Conserves start) (close_buf st p)
  unfolding close_buf
  close_buf-Conserves start p h = elim (Bool-cases (p.closers == 0)) [
    | inl nobody ↦ simp nobody tt
    | inr someone ↦ elim (Bool-cases p.buf_closed) [
      | inl shut ↦ simp (someone, shut) tt
      | inr open_ ↦
          simp (someone, open_)
            (record {
              order = h.order;
              stored = h.stored;
              bounded = h.bounded;
              drained = λ k. ((h.drained k).0, (h.drained k).1, refl);
            })
    ]
  ]

  receive_from-Conserves :
      (start : State) (bs : List (Batch F)) (p : Pipeline st)
      → p.buf ≡ bs
      → p.returned ≡ false
      → Conserves start p
      → Lands (Conserves start) (receive_from st bs p)
  unfolding receive_from flush
  receive_from-Conserves start [] p e working h = elim (Bool-cases p.buf_closed) [
    | inl shut ↦
        let h' = flush-Conserves start p h in
        simp shut (record {
          order = h'.order;
          stored = h'.stored;
          bounded = h'.bounded;
          drained = λ k. (refl, e, refl);
        })
    | inr open_ ↦ simp open_ tt
  ]
  receive_from-Conserves start (b ∷ bs) p e working h = record {
    order =
        h.order
        ∙ ap (λ cs. p.flushed ++ (p.pending ++ cs)) e
        ∙ ap (λ cs. p.flushed ++ cs) (sym (append_assoc p.pending (b ∷ []) bs));
    stored = h.stored;
    bounded = omega (arith, h.bounded, ap length e);
    drained = λ k. absurd (ground arith);
  }

  step-Conserves :
      (start : State) (m : Move st) (p : Pipeline st)
      → Conserves start p
      → Lands (Conserves start) (step st m p)
  unfolding step begin_ingest begin_shutdown finish_ingest receive tick flush
  step-Conserves start (begins_ingest b) p h = elim (Bool-cases p.closed) [
    | inl shut ↦ simp shut h
    | inr open_ ↦
        simp open_
          (record { order = h.order; stored = h.stored; bounded = h.bounded; drained = h.drained })
  ]
  step-Conserves start (finishes_ingest n) p h =
      send_picked-Conserves start (pick st n p.callers) p h
  step-Conserves start begins_shutdown p h = record {
    order = h.order;
    stored = h.stored;
    bounded = h.bounded;
    drained = h.drained;
  }
  step-Conserves start closes_buf p h = close_buf-Conserves start p h
  step-Conserves start receives p h = elim (Bool-cases p.returned) [
    | inl gone ↦ simp gone tt
    | inr working ↦ simp working (receive_from-Conserves start p.buf p refl working h)
  ]
  step-Conserves start ticks p h = elim (Bool-cases p.returned) [
    | inl gone ↦ simp gone tt
    | inr working ↦ elim (Bool-cases (ltb 0 (length p.pending))) [
      | inl some_ ↦
          let h' = flush-Conserves start p h in
          simp (working, some_)
            (record {
              order = h'.order;
              stored = h'.stored;
              bounded = h'.bounded;
              drained = λ k. absurd (ground arith);
            })
      | inr none_ ↦
          simp (working, none_)
            (record {
              order = h.order;
              stored = h.stored;
              bounded = h.bounded;
              drained = λ k. absurd (ground arith);
            })
    ]
  ]

  -- In whatever order callers, shutdowns, the worker and its ticker move, the batches that Ingest
  -- accepted are those the store was given, then the worker's, then the buffer's, in the order in
  -- which they were accepted; the buffer keeps its size; and once the worker has returned nothing
  -- is left outside the store.
  pub Reaches-Conserves :
      (start : State) (size : ℕ) (p : Pipeline st)
      → Reaches st (new st start size) p
      → Conserves start p
  unfolding new insert_all
  Reaches-Conserves start size p stays = record {
    order = refl;
    stored = refl;
    bounded = omega arith;
    drained = λ k. cc;
  }
  Reaches-Conserves start size p (moves q r m reached e) =
      rw e at (step-Conserves start m q (Reaches-Conserves start size q reached))
