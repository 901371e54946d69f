-- ===== src/Pipeline/Drain.antt =====
-- How the pipeline ends (internal/pipeline/pipeline.go): the worker empties a closed buffer, and a
-- call of Ingest that overlaps Shutdown panics.
use labubu.Base.{◌+◌, ◌≡◌, refl, sym, ap, ◌∙◌, true, false, List, [], ◌∷◌, ◌++◌, arith, ◌==◌}
use labubu.Base.Dict.{nat_eq, bytes_eq}
use mathlib.Core.List.{append_assoc, append-nil, foldl}
use labubu.Pipeline.{
  SpanStore, Batch, Pipeline, ok, panics, begin_ingest, pick, send, send_picked, finish_ingest,
  begin_shutdown, close_buf, insert_all, flush, receive_from, receive, Move, begins_ingest,
  finishes_ingest, begins_shutdown, closes_buf, receives, step, run, proceed,
}

module _ {F : Type 0} (st : SpanStore F) where
  open st use {State, insert_spans}

  -- The worker receives as often as there are batches, and once more.
  abbrev pub drain : {A : Type 0} → List A → List (Move st)
  drain [] = receives ∷ []
  drain (b ∷ bs) = receives ∷ drain bs

  -- What a store becomes when it is given batches one after the other, whatever it answers.
  abbrev pub given : State → List (Batch F) → State
  given s bs = foldl (λ t (b : Batch F). (insert_spans t b.resource b.scope b.spans).0) s bs

  insert_all-given : (bs : List (Batch F)) (s : State) → insert_all st bs s ≡ given s bs
  unfolding insert_all
  insert_all-given [] s = refl
  insert_all-given (b ∷ bs) s = insert_all-given bs _

  -- The end of a drain: the worker has returned, and the store was given what the worker and the
  -- buffer held.
  pub record IsDrained (p q : Pipeline st) : Type 0 where
    pub returned : q.returned ≡ true
    pub empty : (q.pending ≡ []) × (q.buf ≡ [])
    pub stored : q.store ≡ given p.store (p.pending ++ p.buf)
    pub flushed : q.flushed ≡ p.flushed ++ (p.pending ++ p.buf)

  step-receives :
      (p : Pipeline st) (bs : List (Batch F))
      → p.returned ≡ false
      → p.buf ≡ bs
      → step st receives p ≡ receive_from st bs p
  unfolding step receive
  step-receives p bs working e = simp working (ap (λ cs. receive_from st cs p) e)

  receive_from-shut :
      (p : Pipeline st)
      → p.buf_closed ≡ true
      → receive_from st [] p ≡ ok (record (flush st p) { returned = true })
  unfolding receive_from
  receive_from-shut p shut = simp shut refl

  receive_from-cons :
      (b : Batch F) (bs : List (Batch F)) (p : Pipeline st)
      → receive_from st (b ∷ bs) p ≡ ok (record p { buf = bs; pending = p.pending ++ b ∷ [] })
  unfolding receive_from
  receive_from-cons b bs p = refl

  drain_from :
      (bs : List (Batch F)) (p : Pipeline st)
      → p.buf ≡ bs
      → p.buf_closed ≡ true
      → p.returned ≡ false
      → (q : Pipeline st) × (run st (drain bs) p ≡ ok q) × IsDrained p q
  unfolding run flush
  drain_from [] p e shut working = (
    record (flush st p) { returned = true },
    ap (λ o. proceed st o (λ q. ok q)) (step-receives p [] working e ∙ receive_from-shut p shut),
    record {
      returned = refl;
      empty = (refl, e);
      stored =
          insert_all-given p.pending p.store
          ∙ ap (given p.store) (sym (append-nil p.pending) ∙ ap (λ bs. p.pending ++ bs) (sym e));
      flushed =
          ap (λ bs. p.flushed ++ bs)
            (sym (append-nil p.pending) ∙ ap (λ bs. p.pending ++ bs) (sym e));
    },
  )
  drain_from (b ∷ bs) p e shut working =
      let p' : Pipeline st = record p { buf = bs; pending = p.pending ++ b ∷ [] } in
      let (q, ran, h) = drain_from bs p' refl shut working in
      (
        q,
        ap (λ o. proceed st o (run st (drain bs)))
              (step-receives p (b ∷ bs) working e ∙ receive_from-cons b bs p)
            ∙ ran,
        record {
          returned = h.returned;
          empty = h.empty;
          stored =
              h.stored
              ∙ ap (given p.store)
                  (append_assoc p.pending (b ∷ []) bs ∙ ap (λ cs. p.pending ++ cs) (sym e));
          flushed =
              h.flushed
              ∙ ap (λ cs. p.flushed ++ cs) (append_assoc p.pending (b ∷ []) bs)
              ∙ ap (λ cs. p.flushed ++ (p.pending ++ cs)) (sym e);
        },
      )

  -- Once the buffer is closed the worker comes to its end, after as many steps of its own as there
  -- are batches in the buffer and one more, and everything it and the buffer held has been given to
  -- the store in order.
  pub run-drain :
      (p : Pipeline st)
      → p.buf_closed ≡ true
      → p.returned ≡ false
      → (q : Pipeline st) × (run st (drain p.buf) p ≡ ok q) × IsDrained p q
  run-drain p shut working = drain_from p.buf p refl shut working

  begin_ingest-open :
      (b : Batch F) (p : Pipeline st)
      → p.closed ≡ false
      → begin_ingest st b p ≡ record p { callers = b ∷ p.callers }
  unfolding begin_ingest
  begin_ingest-open b p open_ = simp open_ refl

  -- A caller waits to send when a Shutdown runs through.
  send_after_close :
      (b : Batch F) (bs : List (Batch F)) (p : Pipeline st)
      → p.callers ≡ b ∷ bs
      → p.buf_closed ≡ false
      → run st (begins_shutdown ∷ closes_buf ∷ finishes_ingest 0 ∷ []) p ≡ panics
  unfolding run step begin_shutdown close_buf finish_ingest send_picked pick send
  send_after_close b bs p waiting unshut =
      let waits : (p.closers + 1 == 0) ≡ false = ground arith in simp (unshut, waiting, waits) refl

  -- A call of Ingest that tests `closed` before Shutdown sets it, and sends after Shutdown has
  -- closed the channel, panics, whatever the state of the buffer.
  pub ingest_during_shutdown :
      (b : Batch F) (p : Pipeline st)
      → p.closed ≡ false
      → p.buf_closed ≡ false
      → run st (begins_ingest b ∷ begins_shutdown ∷ closes_buf ∷ finishes_ingest 0 ∷ []) p ≡ panics
  unfolding run step
  ingest_during_shutdown b p open_ unshut =
      ap (run st (begins_shutdown ∷ closes_buf ∷ finishes_ingest 0 ∷ []))
        (begin_ingest-open b p open_)
      ∙ send_after_close b p.callers (record p { callers = b ∷ p.callers }) refl unshut
