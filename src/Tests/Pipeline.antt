-- ===== src/Tests/Pipeline.antt =====
-- The pipeline theorems, with the in-memory store behind it (internal/pipeline, internal/storage).
use labubu.Base.{ℕ, ◌≡◌, refl, true, none, [], ◌∷◌}
use labubu.Base.Int.{pos}
use labubu.Base.Dict.{nat_eq, bytes_eq}
use labubu.Base.Floats.{whole}
use labubu.Pipeline.{
  SpanStore, Batch, Pipeline, ok, panics, new, begin_ingest, pick, send, send_picked, finish_ingest,
  begins_ingest, finishes_ingest, begins_shutdown, closes_buf, step, Reaches, stays, moves, run,
}
use labubu.Pipeline.Conservation.{Conserves, Reaches-Conserves}
use labubu.Pipeline.Drain.{drain, IsDrained, run-drain, ingest_during_shutdown}
use labubu.Storage.Mem.{MemStore, missing, insert_spans}

abbrev start : MemStore ℕ
start = record {
  spans = [];
  traces = [];
  services = [];
  logs = [];
  pricing = [];
  llm_configs = [];
  diagnosis_results = [];
  json_path = [];
  file = missing;
}

abbrev mem : SpanStore ℕ
mem = record { State = MemStore ℕ; insert_spans = λ m r s ss. (insert_spans whole m r s ss, none) }

abbrev batch_of : ℕ → Batch ℕ
batch_of id = record {
  resource = record { attributes = []; schema_url = [] };
  scope = record { name = []; version = []; attributes = []; schema_url = [] };
  spans =
      record {
        trace_id = id;
        span_id = id;
        parent_span_id = 0;
        name = [];
        kind = pos 1;
        start_time_ms = 5;
        end_time_ms = 9;
        duration_ms = 4;
        attributes = [];
        events = [];
        links = [];
        status_code = pos 1;
        status_message = [];
        input_tokens = none;
        output_tokens = none;
        total_tokens = none;
        cache_creation_tokens = none;
        cache_read_tokens = none;
        gen_ai_request_model = none;
        cost = none;
        cost_currency = [];
        trace_state = [];
      }
      ∷ [];
}

abbrev called : Pipeline mem
called = begin_ingest mem (batch_of 1) (new mem start 8)

abbrev queued : Pipeline mem
queued = record called { buf = batch_of 1 ∷ []; callers = []; accepted = batch_of 1 ∷ [] }

queued-Reaches : Reaches mem (new mem start 8) queued
unfolding step begin_ingest new finish_ingest pick send_picked send
queued-Reaches =
    moves called queued (finishes_ingest 0)
      (moves (new mem start 8) called (begins_ingest (batch_of 1)) stays refl) refl

Reaches-Conserves_example : Conserves mem start queued
Reaches-Conserves_example = Reaches-Conserves mem start 8 queued queued-Reaches

abbrev closing : Pipeline mem
closing = record (new mem start 8) {
  closed = true;
  buf_closed = true;
  buf = batch_of 1 ∷ batch_of 2 ∷ [];
}

run-drain_example :
    (q : Pipeline mem) × (run mem (drain mem closing.buf) closing ≡ ok q) × IsDrained mem closing q
unfolding new
run-drain_example = run-drain mem closing refl refl

ingest_during_shutdown_example :
    run mem
      (begins_ingest (batch_of 1) ∷ begins_shutdown ∷ closes_buf ∷ finishes_ingest 0 ∷ [])
      (new mem start 8)
    ≡ panics
unfolding new
ingest_during_shutdown_example = ingest_during_shutdown mem (batch_of 1) (new mem start 8) refl refl
