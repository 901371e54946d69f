-- ===== src/Tests/Receiver.antt =====
-- The theorems on the receivers at concrete requests (internal/receiver).
use labubu.Base.{
  ℕ, ◌≡◌, refl, true, false, Option, none, some, List, [], ◌∷◌, arith, ◌==◌, if◌then◌else◌,
}
use labubu.Base.Int.{pos}
use labubu.Base.Str.{Str, codes}
use labubu.Base.Dict.{nat_eq, bytes_eq, lookup}
use labubu.Storage.Types.{ResourceInfo, ScopeInfo}
use labubu.Storage.Tokens.{derive_token_buckets}
use labubu.Storage.Aggregate.{new_trace}
use labubu.Storage.Aggregate.PerTrace.{add_spans}
use labubu.Storage.Aggregate.DurationLaws.{IsTimed}
use labubu.Receiver.Proto.{
  Formats, KeyValue, string_value, ProtoSpan, attr_aliases, key_value_to_map, normalize_attributes,
  or_else,
}
use labubu.Receiver.Aliases.{normal_value, normalize_attributes_lem}
use labubu.Receiver.Buckets.{derive_token_buckets-normalize_attributes}
use labubu.Receiver.Spans.{EventTexts, translate_span, translate_spans}
use labubu.Receiver.Timing.{IsTranslated, translate_span-IsTranslated, translated_trace-IsTimed}
use labubu.Receiver.Logs.{merged_attributes, lookup-merged_attributes}
use labubu.Receiver.Export.{Ingester, ResourceSpans, export, export_resources, export_scopes}
use labubu.Receiver.Delivery.{batches_of, Delivers, export-Delivers}
use mathlib.Core.List.Perm

abbrev plain : Formats
plain = record {
  Double = ℕ;
  Values = ℕ;
  Pairs = ℕ;
  format_int = λ i. codes "12";
  format_float = λ d. codes "0.5";
  marshal_values = λ v. codes "[]";
  marshal_pairs = λ p. codes "{}";
}

abbrev no_texts : EventTexts
no_texts = record { marshal_events = λ es. codes "[]"; marshal_links = λ ls. codes "[]" }

abbrev pair : Str → Str → Option (KeyValue plain)
pair k v = some (record { key = k; value = some (string_value v) })

abbrev claude_attrs : List (Option (KeyValue plain))
claude_attrs =
    pair (codes "input_tokens") (codes "12") ∷ pair (codes "model") (codes "opus") ∷ none ∷ []

abbrev call_at : ℕ → ℕ → ProtoSpan plain
call_at start end = record {
  trace_id = 0 ∷ 1 ∷ [];
  span_id = 2 ∷ [];
  parent_span_id = [];
  name = codes "llm";
  kind = pos 3;
  start_time_unix_nano = start;
  end_time_unix_nano = end;
  attributes = claude_attrs;
  events = [];
  links = [];
  status = none;
  trace_state = [];
}

translate_span-IsTranslated_example :
    IsTranslated plain {F = ℕ}
      (call_at 5000000 4000000)
      (translate_span plain attr_aliases no_texts (call_at 5000000 4000000))
translate_span-IsTranslated_example =
    translate_span-IsTranslated plain attr_aliases no_texts (call_at 5000000 4000000) (record {
      trace_id_bytes = (omega arith, (omega arith, tt));
      span_id_bytes = (omega arith, tt);
      start_fits = omega arith;
      end_fits = omega arith;
    })

abbrev no_resource : ResourceInfo
no_resource = record { attributes = []; schema_url = [] }

abbrev no_scope : ScopeInfo
no_scope = record { name = []; version = []; attributes = []; schema_url = [] }

translated_trace-IsTimed_example : IsTimed {F = ℕ} (
    add_spans
      (translate_spans plain attr_aliases no_texts
        (some (call_at 5000000 9000000) ∷ none ∷ some (call_at 6000000 12000000) ∷ []))
      (new_trace no_resource no_scope
        (translate_span plain attr_aliases no_texts (call_at 5000000 9000000))))
translated_trace-IsTimed_example =
    translated_trace-IsTimed plain ℕ attr_aliases no_texts no_resource no_scope
      (call_at 5000000 9000000) (none ∷ some (call_at 6000000 12000000) ∷ [])
      (tt, (omega arith, tt))

normalize_attributes_lem_example :
    lookup
      (codes "gen_ai.request.model")
      (normalize_attributes attr_aliases (key_value_to_map plain claude_attrs))
    ≡ normal_value attr_aliases (codes "gen_ai.request.model") (key_value_to_map plain claude_attrs)
normalize_attributes_lem_example =
    normalize_attributes_lem attr_aliases (key_value_to_map plain claude_attrs)
      (codes "gen_ai.request.model") (Perm.refl attr_aliases)

derive_token_buckets-normalize_attributes_example :
    derive_token_buckets (normalize_attributes attr_aliases (key_value_to_map plain claude_attrs))
    ≡ derive_token_buckets (key_value_to_map plain claude_attrs)
derive_token_buckets-normalize_attributes_example =
    derive_token_buckets-normalize_attributes attr_aliases (key_value_to_map plain claude_attrs)
      (Perm.refl attr_aliases)

lookup-merged_attributes_example :
    lookup (codes "model") (
      merged_attributes plain
        (λ s. s)
        claude_attrs
        (key_value_to_map plain (pair (codes "model") (codes "none") ∷ []))
        (key_value_to_map plain []))
    ≡ or_else (lookup (codes "model") (key_value_to_map plain claude_attrs)) (
        or_else (lookup (codes "model") (key_value_to_map plain [])) (
          lookup
            (codes "model")
            (key_value_to_map plain (pair (codes "model") (codes "none") ∷ []))))
lookup-merged_attributes_example =
    lookup-merged_attributes plain (λ s. s) claude_attrs []
      (pair (codes "model") (codes "none") ∷ []) (codes "model")

-- A buffer with room for one batch.
abbrev one_place : Ingester ℕ
one_place = record { State = ℕ; ingest = λ b n. if n == 0 then (1, true) else (n, false) }

abbrev request : List (ResourceSpans plain)
request =
    record {
      resource = none;
      schema_url = [];
      scope_spans =
          record { scope = none; schema_url = []; spans = some (call_at 5 9) ∷ [] }
          ∷ record { scope = none; schema_url = []; spans = none ∷ [] }
          ∷ record { scope = none; schema_url = []; spans = some (call_at 6 9) ∷ [] }
          ∷ record { scope = none; schema_url = []; spans = some (call_at 7 9) ∷ [] }
          ∷ [];
    }
    ∷ []

export-Delivers_example :
    Delivers plain attr_aliases no_texts one_place 0
      (batches_of plain attr_aliases no_texts one_place request)
      (export plain attr_aliases no_texts one_place request 0)
export-Delivers_example = export-Delivers plain attr_aliases no_texts one_place request 0

-- Two spans are lost, and the answer counts one.
one_of_two_counted : export plain attr_aliases no_texts one_place request 0 ≡ (1, some 1)
unfolding export export_resources export_scopes translate_spans
one_of_two_counted = refl
