-- ===== src/Storage/Types.antt =====
-- The data types of internal/storage/storage.go. An identifier is the number that its bytes spell,
-- the first byte the highest; the zero identifier is 0. A pointer is an option. A float is a value
-- of the type `F`.
use labubu.Base.{ℕ, Bool, Option, none, some, []}
use labubu.Base.Int.{ℤ}
use labubu.Base.Str.{Str}
use labubu.Base.Dict.{nat_eq, bytes_eq, Dict, lookup}

pub record Span (F : Type 0) : Type 0 where
  pub trace_id : ℕ
  pub span_id : ℕ
  pub parent_span_id : ℕ
  pub name : Str
  pub kind : ℤ
  pub start_time_ms : ℕ
  pub end_time_ms : ℕ
  pub duration_ms : ℕ
  pub attributes : Dict Str Str
  pub events : Str
  pub links : Str
  pub status_code : ℤ
  pub status_message : Str
  pub input_tokens : Option ℕ
  pub output_tokens : Option ℕ
  pub total_tokens : Option ℕ
  pub cache_creation_tokens : Option ℕ
  pub cache_read_tokens : Option ℕ
  pub gen_ai_request_model : Option Str
  pub cost : Option F
  pub cost_currency : Str
  pub trace_state : Str

pub record ResourceInfo : Type 0 where
  pub attributes : Dict Str Str
  pub schema_url : Str

pub record ScopeInfo : Type 0 where
  pub name : Str
  pub version : Str
  pub attributes : Dict Str Str
  pub schema_url : Str

pub record Trace (F : Type 0) : Type 0 where
  pub trace_id : ℕ
  pub trace_id_hex : Str
  pub root_span_id : ℕ
  pub root_name : Str
  pub span_count : ℕ
  pub start_time_ms : ℕ
  pub end_time_ms : ℕ
  pub duration_ms : ℕ
  pub resource_attrs : Dict Str Str
  pub resource_schema_url : Str
  pub scope_name : Str
  pub scope_version : Str
  pub scope_attrs : Dict Str Str
  pub scope_schema_url : Str
  pub status_code : ℤ
  pub status_message : Str
  pub total_tokens : Option ℕ
  pub cost : Option F
  pub cost_currency : Str
  pub session_id : Str

pub record LogRecord : Type 0 where
  pub trace_id : ℕ
  pub span_id : ℕ
  pub timestamp : ℕ
  pub severity : Str
  pub event_name : Str
  pub body : Str
  pub attributes : Dict Str Str

pub record ModelPricing (F : Type 0) : Type 0 where
  pub model_name : Str
  pub input_price : F
  pub output_price : F
  pub currency : Str
  pub context_window : ℤ

pub record LlmConfig (F : Type 0) : Type 0 where
  pub id : Str
  pub model_name : Str
  pub provider_type : Str
  pub provider_url : Str
  pub api_key : Str
  pub is_default : Bool
  pub temperature : F
  pub max_tokens : ℤ

pub record Pagination : Type 0 where
  pub page : ℤ
  pub page_size : ℤ
  pub total : ℕ

-- `m[key]` on a map of strings: a key that is missing reads as the empty string.
unfoldable pub attribute : Str → Dict Str Str → Str
unfolding lookup
attribute key m = elim (lookup key m) [ none ↦ [] | some v ↦ v ]
