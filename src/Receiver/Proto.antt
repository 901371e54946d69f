-- ===== src/Receiver/Proto.antt =====
-- The OTLP messages that internal/receiver reads, with the fields that it reads, and its attribute
-- maps. A pointer that may be nil is an `Option`.
use labubu.Base.{
  ℕ, zero, suc, ◌+◌, ◌*◌, Bool, true, false, Option, none, some, List, [], ◌∷◌, if◌then◌else◌,
}
use labubu.Base.Int.{ℤ}
use labubu.Base.Str.{Str, codes, is_empty}
use labubu.Base.Dict.{nat_eq, bytes_eq, Dict, lookup, insert, has}

-- What of an attribute's value the receiver hands to the standard library, with the text that comes
-- back: `fmt.Sprintf` with `%d` and `%f`, and `json.Marshal`, of which errors are ignored.
pub record Formats : Type 1 where
  pub Double : Type 0
  pub Values : Type 0
  pub Pairs : Type 0
  pub format_int : ℤ → Str
  pub format_float : Double → Str
  pub marshal_values : Values → Str
  pub marshal_pairs : Pairs → Str

pub record Status : Type 0 where
  pub code : ℤ
  pub message : Str

module _ (fm : Formats) where
  open fm use {Double, Values, Pairs, format_int, format_float, marshal_values, marshal_pairs}

  pub data AnyValue : Type 0 where
    string_value : Str → AnyValue
    int_value : ℤ → AnyValue
    double_value : Double → AnyValue
    bool_value : Bool → AnyValue
    array_value : Values → AnyValue
    kvlist_value : Pairs → AnyValue
    other_value : AnyValue

  pub record KeyValue : Type 0 where
    pub key : Str
    pub value : Option AnyValue

  pub record Resource : Type 0 where
    pub attributes : List (Option KeyValue)

  pub record InstrumentationScope : Type 0 where
    pub name : Str
    pub version : Str
    pub attributes : List (Option KeyValue)

  pub record SpanEvent : Type 0 where
    pub time_unix_nano : ℕ
    pub name : Str
    pub attributes : List (Option KeyValue)

  pub record SpanLink : Type 0 where
    pub trace_id : List ℕ
    pub span_id : List ℕ
    pub attributes : List (Option KeyValue)

  pub record ProtoSpan : Type 0 where
    pub trace_id : List ℕ
    pub span_id : List ℕ
    pub parent_span_id : List ℕ
    pub name : Str
    pub kind : ℤ
    pub start_time_unix_nano : ℕ
    pub end_time_unix_nano : ℕ
    pub attributes : List (Option KeyValue)
    pub events : List (Option SpanEvent)
    pub links : List (Option SpanLink)
    pub status : Option Status
    pub trace_state : Str

  unfoldable pub any_value_to_string : Option AnyValue → Str
  any_value_to_string none = []
  any_value_to_string (some (string_value s)) = s
  any_value_to_string (some (int_value n)) = format_int n
  any_value_to_string (some (double_value d)) = format_float d
  any_value_to_string (some (bool_value true)) = codes "true"
  any_value_to_string (some (bool_value false)) = codes "false"
  any_value_to_string (some (array_value vs)) = marshal_values vs
  any_value_to_string (some (kvlist_value ps)) = marshal_pairs ps
  any_value_to_string (some other_value) = []

  -- One round of the loop: an entry that is nil or has no key is passed over.
  abbrev pub add_pair : Option KeyValue → Dict Str Str → Dict Str Str
  add_pair none m = m
  add_pair (some kv) m =
      if is_empty kv.key then m else insert kv.key (any_value_to_string kv.value) m

  unfoldable pub key_values_from : List (Option KeyValue) → Dict Str Str → Dict Str Str
  key_values_from [] m = m
  key_values_from (kv ∷ kvs) m = key_values_from kvs (add_pair kv m)

  unfoldable pub key_value_to_map : List (Option KeyValue) → Dict Str Str
  key_value_to_map kvs = key_values_from kvs []

-- `copy(id[:], bytes)` into an array of the given width, the array read as one number with the
-- first byte in front: bytes that are missing are zero, bytes too many are left out.
unfoldable pub copy_bytes : ℕ → List ℕ → ℕ → ℕ
copy_bytes zero bs n = n
copy_bytes (suc width) [] n = copy_bytes width [] (n * 256)
copy_bytes (suc width) (b ∷ bs) n = copy_bytes width bs (n * 256 + b)

-- The keys that stand for each other: a standard key with the keys that some agents use instead.
abbrev pub attr_aliases : Dict Str (List Str)
attr_aliases =
    (codes "gen_ai.usage.input_tokens", codes "input_tokens" ∷ codes "llm.usage.input_tokens" ∷ [])
    ∷ (
      codes "gen_ai.usage.output_tokens",
      codes "output_tokens" ∷ codes "llm.usage.output_tokens" ∷ [],
    )
    ∷ (
      codes "gen_ai.usage.total_tokens",
      codes "total_tokens" ∷ codes "llm.usage.total_tokens" ∷ [],
    )
    ∷ (
      codes "gen_ai.usage.cache_creation_input_tokens",
      codes "cache_creation_tokens" ∷ codes "cache_creation_input_tokens" ∷ [],
    )
    ∷ (
      codes "gen_ai.usage.cache_read_input_tokens",
      codes "cache_read_tokens" ∷ codes "cache_read_input_tokens" ∷ [],
    )
    ∷ (codes "gen_ai.request.model", codes "model" ∷ codes "llm.request.model" ∷ [])
    ∷ (codes "jiuwenclaw.session.id", codes "session.id" ∷ codes "codex.session.id" ∷ [])
    ∷ []

abbrev pub or_else : Option Str → Option Str → Option Str
or_else none o = o
or_else (some v) o = some v

-- The value of the first of the keys that is there.
unfoldable pub first_of : List Str → Dict Str Str → Option Str
first_of [] attrs = none
first_of (k ∷ ks) attrs = or_else (lookup k attrs) (first_of ks attrs)

abbrev pub set_found : Str → Option Str → Dict Str Str → Dict Str Str
set_found k none attrs = attrs
set_found k (some v) attrs = insert k v attrs

-- The loop of normalizeAttributes over the table in some order: Go's maps promise none.
unfoldable pub normalize_attributes : Dict Str (List Str) → Dict Str Str → Dict Str Str
normalize_attributes [] attrs = attrs
normalize_attributes ((std_key, fallbacks) ∷ aliases) attrs =
    normalize_attributes aliases
      (if has std_key attrs then attrs else set_found std_key (first_of fallbacks attrs) attrs)
