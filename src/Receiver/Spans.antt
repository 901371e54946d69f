-- ===== src/Receiver/Spans.antt =====
-- The translation of OTLP spans, resources and scopes: internal/receiver/otlp.go.
use labubu.Base.{ℕ, ◌/◌, ◌%◌, Option, none, some, List, [], ◌∷◌, ltb, if◌then◌else◌}
use labubu.Base.Int.{ℤ, pos}
use labubu.Base.Str.{Str, codes, is_empty}
use labubu.Base.Dict.{nat_eq, bytes_eq, Dict, lookup}
use labubu.Base.Words.{sub_u64}
use labubu.Storage.Types.{Span, ResourceInfo, ScopeInfo}
use labubu.Storage.Ids.{hex_char}
use labubu.Storage.Tokens.{derive_token_buckets}
use labubu.Receiver.Proto.{
  Formats, Resource, InstrumentationScope, SpanEvent, SpanLink, Status, ProtoSpan, key_value_to_map,
  copy_bytes, normalize_attributes,
}

pub record EventJson : Type 0 where
  pub time_ms : ℕ
  pub name : Str
  pub attributes : Dict Str Str

pub record LinkJson : Type 0 where
  pub trace_id : Str
  pub span_id : Str
  pub attributes : Dict Str Str

-- `json.Marshal` of the two lists, of which errors are ignored.
pub record EventTexts : Type 0 where
  pub marshal_events : List EventJson → Str
  pub marshal_links : List LinkJson → Str

-- `fmt.Sprintf("%x", bytes)`
unfoldable pub hex_bytes : List ℕ → Str
hex_bytes [] = []
hex_bytes (b ∷ bs) = hex_char (b / 16) ∷ hex_char (b % 16) ∷ hex_bytes bs

abbrev none_if_empty : Option Str → Option Str
none_if_empty none = none
none_if_empty (some v) = if is_empty v then none else some v

unfoldable pub get_string_attr_from_map : Dict Str Str → Str → Option Str
get_string_attr_from_map attrs key = none_if_empty (lookup key attrs)

-- `ps.Status.GetCode()` and `ps.Status.GetMessage()`, which a nil status answers with zero values.
abbrev status_code : Option Status → ℤ
status_code none = pos 0
status_code (some s) = s.code

abbrev status_message : Option Status → Str
status_message none = []
status_message (some s) = s.message

module _ (fm : Formats) where
  unfoldable pub event_list : List (Option (SpanEvent fm)) → List EventJson
  event_list [] = []
  event_list (none ∷ es) = event_list es
  event_list (some e ∷ es) =
      record {
        time_ms = e.time_unix_nano / 1000000;
        name = e.name;
        attributes = key_value_to_map fm e.attributes;
      }
      ∷ event_list es

  unfoldable pub link_list : List (Option (SpanLink fm)) → List LinkJson
  link_list [] = []
  link_list (none ∷ ls) = link_list ls
  link_list (some l ∷ ls) =
      record {
        trace_id = hex_bytes l.trace_id;
        span_id = hex_bytes l.span_id;
        attributes = key_value_to_map fm l.attributes;
      }
      ∷ link_list ls

  unfoldable pub serialize_events : EventTexts → List (Option (SpanEvent fm)) → Str
  serialize_events texts [] = codes "[]"
  serialize_events texts (e ∷ es) = texts.marshal_events (event_list (e ∷ es))

  unfoldable pub serialize_links : EventTexts → List (Option (SpanLink fm)) → Str
  serialize_links texts [] = codes "[]"
  serialize_links texts (l ∷ ls) = texts.marshal_links (link_list (l ∷ ls))

  -- `startMS` and `endMS`
  unfoldable pub start_ms : ProtoSpan fm → ℕ
  start_ms ps = ps.start_time_unix_nano / 1000000

  unfoldable pub end_ms : ProtoSpan fm → ℕ
  end_ms ps =
      let end = ps.end_time_unix_nano / 1000000 in
      if ltb end (start_ms ps) then start_ms ps else end

  -- `order` is the order in which the table of keys is run through.
  unfoldable pub translate_span :
      {F : Type 0} → Dict Str (List Str) → EventTexts → ProtoSpan fm → Span F
  translate_span order texts ps =
      let attrs = normalize_attributes order (key_value_to_map fm ps.attributes) in
      let buckets = derive_token_buckets attrs in
      record {
        trace_id = copy_bytes 16 ps.trace_id 0;
        span_id = copy_bytes 8 ps.span_id 0;
        parent_span_id = copy_bytes 8 ps.parent_span_id 0;
        name = ps.name;
        kind = ps.kind;
        start_time_ms = start_ms ps;
        end_time_ms = end_ms ps;
        duration_ms = sub_u64 (end_ms ps) (start_ms ps);
        attributes = attrs;
        events = serialize_events texts ps.events;
        links = serialize_links texts ps.links;
        status_code = status_code ps.status;
        status_message = status_message ps.status;
        input_tokens = buckets.input;
        output_tokens = buckets.output;
        total_tokens = buckets.total;
        cache_creation_tokens = buckets.cache_creation;
        cache_read_tokens = buckets.cache_read;
        gen_ai_request_model = get_string_attr_from_map attrs (codes "gen_ai.request.model");
        cost = none;
        cost_currency = [];
        trace_state = ps.trace_state;
      }

  unfoldable pub translate_spans :
      {F : Type 0} → Dict Str (List Str) → EventTexts → List (Option (ProtoSpan fm)) → List (Span F)
  translate_spans order texts [] = []
  translate_spans order texts (none ∷ pss) = translate_spans order texts pss
  translate_spans order texts (some ps ∷ pss) =
      translate_span order texts ps ∷ translate_spans order texts pss

  unfoldable pub translate_resource : Option (Resource fm) → ResourceInfo
  translate_resource none = record { attributes = []; schema_url = [] }
  translate_resource (some r) = record {
    attributes = key_value_to_map fm r.attributes;
    schema_url = [];
  }

  unfoldable pub translate_scope : Option (InstrumentationScope fm) → ScopeInfo
  translate_scope none = record { name = []; version = []; attributes = []; schema_url = [] }
  translate_scope (some s) = record {
    name = s.name;
    version = s.version;
    attributes = key_value_to_map fm s.attributes;
    schema_url = [];
  }
