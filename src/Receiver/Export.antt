-- ===== src/Receiver/Export.antt =====
-- The trace services of internal/receiver/otlp.go: Export, over gRPC, and handleHTTPTraces.
use labubu.Base.{ℕ, Bool, true, false, Option, none, some, List, [], ◌∷◌, if◌then◌else◌, length}
use labubu.Base.Str.{Str, codes, str_eq, is_empty}
use labubu.Base.Dict.{nat_eq, bytes_eq, Dict}
use labubu.Storage.Types.{Span, ResourceInfo, ScopeInfo}
use labubu.Pipeline.{Batch}
use labubu.Receiver.Proto.{Formats, Resource, InstrumentationScope, ProtoSpan}
use labubu.Receiver.Spans.{EventTexts, translate_resource, translate_scope, translate_spans}

-- What the services ask of the pipeline: Ingest takes a batch or refuses it (`false`).
pub record Ingester (F : Type 0) : Type 1 where
  pub State : Type 0
  pub ingest : Batch F → State → State × Bool

module _ (fm : Formats) where
  pub record ScopeSpans : Type 0 where
    pub scope : Option (InstrumentationScope fm)
    pub schema_url : Str
    pub spans : List (Option (ProtoSpan fm))

  pub record ResourceSpans : Type 0 where
    pub resource : Option (Resource fm)
    pub schema_url : Str
    pub scope_spans : List ScopeSpans

-- A schema URL of the request replaces the empty one.
abbrev with_schema : Str → ResourceInfo → ResourceInfo
with_schema url r = if is_empty url then r else record r { schema_url = url }

abbrev with_scope_schema : Str → ScopeInfo → ScopeInfo
with_scope_schema url s = if is_empty url then s else record s { schema_url = url }

pub record HttpRequest : Type 0 where
  pub method : Str
  -- `none` where reading fails
  pub body : Option Str
  pub content_type : Str

module _ {F : Type 0} (fm : Formats) (order : Dict Str (List Str)) (texts : EventTexts)
    (ing : Ingester F) where
  open ing use {State, ingest}

  -- A refused batch ends the request with the number of its spans.
  abbrev pub after_ingest : State × Bool → ℕ → (State → State × Option ℕ) → State × Option ℕ
  after_ingest (s, true) n next = next s
  after_ingest (s, false) n next = (s, some n)

  abbrev pub resource_of : ResourceSpans fm → ResourceInfo
  resource_of rs = with_schema rs.schema_url (translate_resource fm rs.resource)

  abbrev pub batch_of : ResourceInfo → ScopeSpans fm → Batch F
  batch_of resource ss = record {
    resource = resource;
    scope = with_scope_schema ss.schema_url (translate_scope fm ss.scope);
    spans = translate_spans fm order texts ss.spans;
  }

  -- The body of the inner loop; without spans there is nothing to do.
  abbrev pub send_batch :
      Batch F → List (Span F) → State → (State → State × Option ℕ) → State × Option ℕ
  send_batch b [] s next = next s
  send_batch b (x ∷ xs) s next = after_ingest (ingest b s) (length (x ∷ xs)) next

  -- The two loops, followed by what comes after them.
  unfoldable pub export_scopes :
      ResourceInfo → List (ScopeSpans fm) → State → (State → State × Option ℕ) → State × Option ℕ
  export_scopes resource [] s next = next s
  export_scopes resource (ss ∷ sss) s next =
      let b = batch_of resource ss in
      send_batch b b.spans s (λ s'. export_scopes resource sss s' next)

  unfoldable pub export_resources : List (ResourceSpans fm) → State → State × Option ℕ
  export_resources [] s = (s, none)
  export_resources (rs ∷ rss) s =
      export_scopes (resource_of rs) rs.scope_spans s (λ s'. export_resources rss s')

  -- The number in the answer's partial success, if it has one.
  unfoldable pub export : List (ResourceSpans fm) → State → State × Option ℕ
  export req s = export_resources req s

  abbrev pub answer_status : Option ℕ → ℕ
  answer_status none = 200
  answer_status (some n) = 503

  abbrev pub handle_message : Option (List (ResourceSpans fm)) → State → State × ℕ
  handle_message none s = (s, 400)
  handle_message (some req) s = let done = export_resources req s in (done.0, answer_status done.1)

  -- `contains` is `strings.Contains`, the other two are `protojson.Unmarshal` and `proto.Unmarshal`.
  abbrev pub handle_body :
      (Str → Str → Bool)
      → (Str → Option (List (ResourceSpans fm)))
      → (Str → Option (List (ResourceSpans fm)))
      → Str
      → Option Str
      → State
      → State × ℕ
  handle_body contains unmarshal_json unmarshal content_type none s = (s, 400)
  handle_body contains unmarshal_json unmarshal content_type (some body) s =
      handle_message
        (if contains content_type (codes "application/json")
          then unmarshal_json body
          else unmarshal body)
        s

  -- The state and the status code of the answer.
  unfoldable pub handle_http_traces :
      (Str → Str → Bool)
      → (Str → Option (List (ResourceSpans fm)))
      → (Str → Option (List (ResourceSpans fm)))
      → HttpRequest
      → State
      → State × ℕ
  handle_http_traces contains unmarshal_json unmarshal req s =
      if str_eq req.method (codes "POST")
      then handle_body contains unmarshal_json unmarshal req.content_type req.body s
      else (s, 405)
