-- ===== src/Pipeline.antt =====
-- internal/pipeline/pipeline.go: the buffer between the receivers and the store, its worker and its
-- shutdown, as steps of the goroutines that take part.
pub mod Conservation
pub mod Drain
use labubu.Base.{
  ℕ, zero, suc, ◌+◌, ◌-◌, ◌*◌, ◌/◌, ◌%◌, ◌^◌, ◌≤◌, ◌<◌, ◌≡◌, refl, sym, ap, ◌∙◌, ◌≢◌, ◌↔◌, ◌⊎◌, inl,
  inr, Bool, true, false, not, ◌&&◌, ◌||◌, Option, none, some, List, [], ◌∷◌, ◌++◌, map, arith, ltb,
  leb, ◌==◌, ==_iff, if◌then◌else◌, Bool-cases, Option-cases, length, take, drop, keep, count, any,
  all, All, length-append, length-take, length-drop, length-keep, count_split, keep-append,
  keep-All, All-append, All-weaken,
}
use labubu.Base.Int.{
  ℤ, pos, negsuc, pos_part, neg_part, ◌+ℤ◌, ◌-ℤ◌, ◌*ℤ◌, ◌≤ℤ◌, ◌<ℤ◌, ltb_ℤ, leb_ℤ, to_int64,
  int_laws,
}
use labubu.Base.Str.{Str, codes, str_eq, str_eq_iff, str_eq_self, is_empty}
use labubu.Base.Dict.{
  Eq, nat_eq, bytes_eq, Dict, lookup, insert, delete, has, lookup-insert, lookup-insert_self,
  lookup-delete, Distinct, has-insert, has_of_delete, insert-Distinct, delete-Distinct,
  insert_fresh, has_of_append, has-eq-lookup, insert-All, keep-All_of_All,
}
use labubu.Base.Sort.{
  Sorter, IsSorted, IsWeakOrder, insertion_sort, insertion, count-perm, length-perm, All-perm,
}
use labubu.Base.Strconv.{parse_uint, parse_uint-lt}
use labubu.Base.Time.{Time, Duration, seconds, sub_time, seconds-eq_of_lt}
use labubu.Base.Words.{u16, u32, u64, sub_u64, u32-add, u16-add, sub_u64-eq}
use labubu.Base.Floats.{Floats, whole}
use labubu.Base.Page.{paginate}
use labubu.Storage.Types.{Span, ResourceInfo, ScopeInfo}

-- The store that a pipeline writes to: what `storage.Store` offers it. InsertSpans returns the new
-- state, and a text where it fails.
pub record SpanStore (F : Type 0) : Type 1 where
  pub State : Type 0
  pub insert_spans : State → ResourceInfo → ScopeInfo → List (Span F) → State × Option Str

pub record Batch (F : Type 0) : Type 0 where
  pub resource : ResourceInfo
  pub scope : ScopeInfo
  pub spans : List (Span F)

module _ {F : Type 0} (st : SpanStore F) where
  open st use {State, insert_spans}

  -- `closed`, `buf` with its size, whether `buf` is closed, and the worker: its `pending` batches
  -- and whether it has returned. `callers` are the calls of Ingest that have passed the test of
  -- `closed` and not yet reached the select, and `closers` the calls of Shutdown that have set
  -- `closed` and not yet closed `buf`. `accepted` and `flushed` record, for the theorems, the
  -- batches of which Ingest returned nil and those that were handed to the store. The buffer's size
  -- is taken to be positive: a channel without a buffer would hand its batches over directly.
  pub record Pipeline : Type 0 where
    pub store : State
    pub buf : List (Batch F)
    pub size : ℕ
    pub closed : Bool
    pub buf_closed : Bool
    pub pending : List (Batch F)
    pub returned : Bool
    pub callers : List (Batch F)
    pub closers : ℕ
    pub accepted : List (Batch F)
    pub flushed : List (Batch F)

  -- What a step comes to: `blocked` where it cannot be taken.
  pub data Outcome : Type 0 where
    ok : Pipeline → Outcome
    blocked panics : Outcome

  unfoldable pub new : State → ℕ → Pipeline
  new s size = record {
    store = s;
    buf = [];
    size = size;
    closed = false;
    buf_closed = false;
    pending = [];
    returned = false;
    callers = [];
    closers = 0;
    accepted = [];
    flushed = [];
  }

  -- Ingest up to the unlocking: "pipeline closed" leaves everything as it is.
  unfoldable pub begin_ingest : Batch F → Pipeline → Pipeline
  begin_ingest b p = if p.closed then p else record p { callers = b ∷ p.callers }

  -- The caller at a position, and the others.
  unfoldable pub pick : ℕ → List (Batch F) → Option (Batch F × List (Batch F))
  pick n [] = none
  pick zero (b ∷ bs) = some (b, bs)
  pick (suc n) (b ∷ bs) =
      let rest = pick n bs in elim rest [ none ↦ none | some r ↦ some (r.0, b ∷ r.1) ]

  -- The select: a send on a closed channel panics, one on a full channel takes the default branch,
  -- ErrBufferFull.
  unfoldable pub send : Batch F → List (Batch F) → Pipeline → Outcome
  send b rest p =
      if p.buf_closed
      then panics
      else if ltb (length p.buf) p.size
      then ok (record p { buf = p.buf ++ b ∷ []; callers = rest; accepted = p.accepted ++ b ∷ [] })
      else ok (record p { callers = rest })

  unfoldable pub send_picked : Option (Batch F × List (Batch F)) → Pipeline → Outcome
  send_picked none p = blocked
  send_picked (some r) p = send r.0 r.1 p

  unfoldable pub finish_ingest : ℕ → Pipeline → Outcome
  finish_ingest n p = send_picked (pick n p.callers) p

  -- Shutdown up to the unlocking.
  unfoldable pub begin_shutdown : Pipeline → Pipeline
  begin_shutdown p = record p { closed = true; closers = p.closers + 1 }

  -- `close(p.buf)`; closing it again panics.
  unfoldable pub close_buf : Pipeline → Outcome
  close_buf p =
      if p.closers == 0
      then blocked
      else if p.buf_closed
      then panics
      else ok (record p { buf_closed = true; closers = p.closers - 1 })

  -- The loop of flush; an error is printed and the loop goes on.
  unfoldable pub insert_all : List (Batch F) → State → State
  insert_all [] s = s
  insert_all (b ∷ bs) s = insert_all bs (insert_spans s b.resource b.scope b.spans).0

  unfoldable pub flush : Pipeline → Pipeline
  flush p = record p {
    store = insert_all p.pending p.store;
    pending = [];
    flushed = p.flushed ++ p.pending;
  }

  -- The worker receives what is in front of `buf`: a batch, or, where `buf` is empty, that it is
  -- closed; otherwise the worker waits.
  unfoldable pub receive_from : List (Batch F) → Pipeline → Outcome
  receive_from [] p = if p.buf_closed then ok (record (flush p) { returned = true }) else blocked
  receive_from (b ∷ bs) p = ok (record p { buf = bs; pending = p.pending ++ b ∷ [] })

  unfoldable pub receive : Pipeline → Outcome
  receive p = if p.returned then blocked else receive_from p.buf p

  -- The ticker of the worker fires.
  unfoldable pub tick : Pipeline → Outcome
  tick p = if p.returned then blocked else if ltb 0 (length p.pending) then ok (flush p) else ok p

  -- Who moves next.
  pub data Move : Type 0 where
    begins_ingest : Batch F → Move
    finishes_ingest : ℕ → Move
    begins_shutdown closes_buf receives ticks : Move

  unfoldable pub step : Move → Pipeline → Outcome
  unfolding begin_ingest finish_ingest begin_shutdown close_buf receive tick
  step (begins_ingest b) p = ok (begin_ingest b p)
  step (finishes_ingest n) p = finish_ingest n p
  step begins_shutdown p = ok (begin_shutdown p)
  step closes_buf p = close_buf p
  step receives p = receive p
  step ticks p = tick p

  -- The pipelines that the goroutines can bring about, in any order of their steps.
  pub data Reaches (p : Pipeline) : Pipeline → Type 0 where
    stays : Reaches p p
    moves : (q r : Pipeline) (m : Move) → Reaches p q → step m q ≡ ok r → Reaches p r

  -- A blocked or panicking step ends a run.
  abbrev pub proceed : Outcome → (Pipeline → Outcome) → Outcome
  proceed (ok q) f = f q
  proceed blocked f = blocked
  proceed panics f = panics

  unfoldable pub run : List Move → Pipeline → Outcome
  run [] p = ok p
  run (m ∷ ms) p = proceed (step m p) (λ q. run ms q)
