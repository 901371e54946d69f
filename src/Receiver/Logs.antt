-- ===== src/Receiver/Logs.antt =====
-- The translation of OTLP logs: internal/receiver/logs_translator.go.
use labubu.Base.{
  ℕ, ◌-◌, ◌/◌, ◌≡◌, refl, sym, ap, ◌∙◌, inl, inr, Bool, false, not, ◌&&◌, ◌||◌, Option, none, some,
  List, [], ◌∷◌, ◌++◌, ltb, ◌==◌, if◌then◌else◌, Bool-cases,
}
use labubu.Base.Int.{ℤ, pos, negsuc}
use labubu.Base.Str.{Str, codes, str_eq, str_eq_iff, is_empty}
use labubu.Base.Dict.{
  nat_eq, bytes_eq, Dict, lookup, insert, has, lookup-insert, Distinct, insert-Distinct,
  has-eq-lookup,
}
use labubu.Storage.Types.{LogRecord, attribute}
use labubu.Storage.Context.{starts_with}
use labubu.Receiver.Aliases.{or_else-none}
use labubu.Receiver.Proto.{
  Formats, KeyValue, AnyValue, Resource, InstrumentationScope, any_value_to_string,
  key_value_to_map, key_values_from, add_pair, copy_bytes, or_else,
}

module _ (fm : Formats) where
  pub record ProtoLog : Type 0 where
    pub trace_id : List ℕ
    pub span_id : List ℕ
    pub time_unix_nano : ℕ
    pub observed_time_unix_nano : ℕ
    pub severity_number : ℤ
    pub severity_text : Str
    pub body : Option (AnyValue fm)
    pub attributes : List (Option (KeyValue fm))

  pub record ScopeLogs : Type 0 where
    pub scope : Option (InstrumentationScope fm)
    pub log_records : List (Option ProtoLog)

  pub record ResourceLogs : Type 0 where
    pub resource : Option (Resource fm)
    pub scope_logs : List (Option ScopeLogs)

-- The numbers 1 to 24, four for each label.
abbrev label_of : ℕ → Str
label_of group =
    if group == 0
    then codes "TRACE"
    else if group == 1
    then codes "DEBUG"
    else if group == 2
    then codes "INFO"
    else if group == 3
    then codes "WARN"
    else if group == 4
    then codes "ERROR"
    else codes "FATAL"

-- `format_int` is `fmt.Sprintf("%d", …)`.
unfoldable pub severity_number_to_string : (ℤ → Str) → ℤ → Str
severity_number_to_string format_int (pos n) =
    if ltb 0 n && ltb n 25
    then label_of ((n - 1) / 4)
    else codes "SEVERITY_NUMBER_" ++ format_int (pos n)
severity_number_to_string format_int (negsuc n) = codes "SEVERITY_NUMBER_" ++ format_int (negsuc n)

-- `to_upper` is `strings.ToUpper`.
unfoldable pub severity_text_to_label : (Str → Str) → Str → Str
severity_text_to_label to_upper text =
    let upper = to_upper text in
    if starts_with (codes "TRACE") upper
    then codes "TRACE"
    else if starts_with (codes "DEBUG") upper
    then codes "DEBUG"
    else if starts_with (codes "INFO") upper
    then codes "INFO"
    else if starts_with (codes "WARN") upper
    then codes "WARN"
    else if starts_with (codes "ERR") upper
    then codes "ERROR"
    else if starts_with (codes "FATAL") upper || starts_with (codes "CRIT") upper
    then codes "FATAL"
    else upper

abbrev is_unspecified : ℤ → Bool
is_unspecified (pos n) = n == 0
is_unspecified (negsuc n) = false

-- `for k, v := range from { attrs[k] = v }`
unfoldable pub copy_into : Dict Str Str → Dict Str Str → Dict Str Str
copy_into [] attrs = attrs
copy_into ((k, v) ∷ from) attrs = copy_into from (insert k v attrs)

module _ (fm : Formats) (to_upper : Str → Str) where
  unfoldable pub severity_of : ProtoLog fm → Str
  severity_of lr =
      if is_unspecified lr.severity_number && not (is_empty lr.severity_text)
      then severity_text_to_label to_upper lr.severity_text
      else severity_number_to_string fm.format_int lr.severity_number

  -- The resource's attributes, then the scope's, then the record's own.
  unfoldable pub merged_attributes :
      List (Option (KeyValue fm)) → Dict Str Str → Dict Str Str → Dict Str Str
  merged_attributes own resource_attrs scope_attrs =
      copy_into (key_value_to_map fm own) (copy_into scope_attrs (copy_into resource_attrs []))

  unfoldable pub translate_log_record : ProtoLog fm → Dict Str Str → Dict Str Str → LogRecord
  translate_log_record lr resource_attrs scope_attrs =
      let attrs = merged_attributes lr.attributes resource_attrs scope_attrs in
      record {
        trace_id = copy_bytes 16 lr.trace_id 0;
        span_id = copy_bytes 8 lr.span_id 0;
        timestamp =
            (if lr.time_unix_nano == 0 then lr.observed_time_unix_nano else lr.time_unix_nano)
            / 1000000;
        severity = severity_of lr;
        event_name = attribute (codes "event.name") attrs;
        body = any_value_to_string fm lr.body;
        attributes = attrs;
      }

  -- `rl.Resource.GetAttributes()` and `scopeLog.Scope.GetAttributes()`
  abbrev resource_map : Option (Resource fm) → Dict Str Str
  resource_map none = []
  resource_map (some r) = key_value_to_map fm r.attributes

  abbrev scope_map : Option (InstrumentationScope fm) → Dict Str Str
  scope_map none = []
  scope_map (some s) = key_value_to_map fm s.attributes

  unfoldable pub translate_records :
      List (Option (ProtoLog fm)) → Dict Str Str → Dict Str Str → List LogRecord
  translate_records [] resource_attrs scope_attrs = []
  translate_records (none ∷ lrs) resource_attrs scope_attrs =
      translate_records lrs resource_attrs scope_attrs
  translate_records (some lr ∷ lrs) resource_attrs scope_attrs =
      translate_log_record lr resource_attrs scope_attrs
      ∷ translate_records lrs resource_attrs scope_attrs

  unfoldable pub translate_scopes : List (Option (ScopeLogs fm)) → Dict Str Str → List LogRecord
  translate_scopes [] resource_attrs = []
  translate_scopes (none ∷ sls) resource_attrs = translate_scopes sls resource_attrs
  translate_scopes (some sl ∷ sls) resource_attrs =
      translate_records sl.log_records resource_attrs (scope_map sl.scope)
      ++ translate_scopes sls resource_attrs

  unfoldable pub translate_logs : List (Option (ResourceLogs fm)) → List LogRecord
  translate_logs [] = []
  translate_logs (none ∷ rls) = translate_logs rls
  translate_logs (some rl ∷ rls) =
      translate_scopes rl.scope_logs (resource_map rl.resource) ++ translate_logs rls

lookup_empty : (k : Str) → lookup {V = Str} k [] ≡ none
unfolding lookup
lookup_empty k = refl

lookup-copy_into :
    (k : Str) (from attrs : Dict Str Str)
    → Distinct from
    → lookup k (copy_into from attrs) ≡ or_else (lookup k from) (lookup k attrs)
unfolding copy_into lookup
lookup-copy_into k [] attrs d = refl
lookup-copy_into k ((j, v) ∷ from) attrs d =
    lookup-copy_into k from (insert j v attrs) d.1
    ∙ ap (or_else (lookup k from)) (lookup-insert j k v attrs)
    ∙ elim (Bool-cases (str_eq j k)) [
      | inl same ↦
          let e = (str_eq_iff j k).0 same in
          let gone : lookup k from ≡ none =
            (has-eq-lookup k from).0 (ap (λ i. has i from) (sym e) ∙ d.0) in
          rw (same, gone) refl
      | inr other ↦ rw other refl
    ]

module _ (fm : Formats) where
  add_pair-Distinct :
      (kv : Option (KeyValue fm)) (m : Dict Str Str) → Distinct m → Distinct (add_pair fm kv m)
  add_pair-Distinct none m d = d
  add_pair-Distinct (some kv) m d = elim (Bool-cases (is_empty kv.key)) [
    | inl unnamed ↦ rw unnamed d
    | inr named ↦ rw named (insert-Distinct kv.key (any_value_to_string fm kv.value) m d)
  ]

  key_values_from-Distinct :
      (kvs : List (Option (KeyValue fm))) (m : Dict Str Str)
      → Distinct m
      → Distinct (key_values_from fm kvs m)
  unfolding key_values_from
  key_values_from-Distinct [] m d = d
  key_values_from-Distinct (kv ∷ kvs) m d =
      key_values_from-Distinct kvs (add_pair fm kv m) (add_pair-Distinct kv m d)

  key_value_to_map-Distinct :
      (kvs : List (Option (KeyValue fm))) → Distinct (key_value_to_map fm kvs)
  unfolding key_value_to_map
  key_value_to_map-Distinct kvs = key_values_from-Distinct kvs [] tt

  -- A key of a translated record reads what the record's own attributes say; else what the scope's
  -- say; else what the resource's say.
  pub lookup-merged_attributes :
      (to_upper : Str → Str) (own scope_attrs resource_attrs : List (Option (KeyValue fm)))
      (k : Str)
      → lookup k (
          merged_attributes fm to_upper own
            (key_value_to_map fm resource_attrs)
            (key_value_to_map fm scope_attrs))
        ≡ or_else (lookup k (key_value_to_map fm own)) (
            or_else
              (lookup k (key_value_to_map fm scope_attrs))
              (lookup k (key_value_to_map fm resource_attrs)))
  unfolding merged_attributes
  lookup-merged_attributes to_upper own scope_attrs resource_attrs k =
      let r = key_value_to_map fm resource_attrs in
      let s = key_value_to_map fm scope_attrs in
      let missing : lookup {V = Str} k [] ≡ none = lookup_empty k in
      lookup-copy_into k (key_value_to_map fm own) (copy_into s (copy_into r []))
        (key_value_to_map-Distinct own)
      ∙ ap (or_else (lookup k (key_value_to_map fm own))) (
          lookup-copy_into k s (copy_into r []) (key_value_to_map-Distinct scope_attrs)
          ∙ ap (or_else (lookup k s)) (
              lookup-copy_into k r [] (key_value_to_map-Distinct resource_attrs)
              ∙ ap (or_else (lookup k r)) missing
              ∙ or_else-none (lookup k r)))
