-- ===== src/Storage/Context.antt =====
-- internal/storage/session_context.go: the model calls of a session's main agent.
pub mod Owner
use labubu.Base.{
  ℕ, zero, suc, ◌+◌, ◌-◌, ◌*◌, ◌/◌, ◌%◌, ◌^◌, ◌≤◌, ◌<◌, ◌≡◌, refl, sym, ap, ◌∙◌, ◌≢◌, ◌↔◌, ◌⊎◌, inl,
  inr, Bool, true, false, not, ◌&&◌, ◌||◌, Option, none, some, List, [], ◌∷◌, ◌++◌, map, arith, ltb,
  leb, ◌==◌, ==_iff, if◌then◌else◌, Bool-cases, Option-cases, length, take, drop, keep, count, any,
  all, All, length-append, length-take, length-drop, length-keep, count_split, keep-append,
  keep-All, All-append, All-weaken,
}
use labubu.Base.Int.{
  ℤ, pos, negsuc, pos_part, neg_part, ◌+ℤ◌, ◌-ℤ◌, ◌*ℤ◌, ◌≤ℤ◌, ◌<ℤ◌, ltb_ℤ, leb_ℤ, to_int64,
  int_laws,
}
use labubu.Base.Str.{Str, codes, str_eq, str_eq_iff, str_eq_self, is_empty}
use labubu.Base.Dict.{
  Eq, nat_eq, bytes_eq, Dict, lookup, insert, delete, has, lookup-insert, lookup-insert_self,
  lookup-delete, Distinct, has-insert, has_of_delete, insert-Distinct, delete-Distinct,
  insert_fresh, has_of_append, has-eq-lookup, insert-All, keep-All_of_All,
}
use labubu.Base.Sort.{
  Sorter, IsSorted, IsWeakOrder, insertion_sort, insertion, count-perm, length-perm, All-perm,
}
use labubu.Base.Strconv.{parse_uint, parse_uint-lt}
use labubu.Base.Time.{Time, Duration, seconds, sub_time, seconds-eq_of_lt}
use labubu.Base.Words.{u16, u32, u64, sub_u64, u32-add, u16-add, sub_u64-eq}
use labubu.Base.Floats.{Floats, whole}
use labubu.Base.Page.{paginate}

pub record SpanInput : Type 0 where
  pub trace_id_hex : Str
  pub span_id_hex : Str
  pub parent_span_id_hex : Str
  pub name : Str
  pub start_time_ms : ℕ
  pub input_tokens : Option ℕ
  pub output_tokens : Option ℕ
  pub total_tokens : Option ℕ
  pub cache_read_tokens : Option ℕ
  pub cache_creation_tokens : Option ℕ
  pub gen_ai_request_model : Option Str

pub record SessionContextSpan : Type 0 where
  pub trace_id_hex : Str
  pub span_id_hex : Str
  pub name : Str
  pub start_time_ms : ℕ
  pub input_tokens : Option ℕ
  pub output_tokens : Option ℕ
  pub total_tokens : Option ℕ
  pub cache_read_tokens : Option ℕ
  pub cache_creation_tokens : Option ℕ
  pub gen_ai_request_model : Option Str

abbrev pub starts_with : Str → Str → Bool
starts_with [] s = true
starts_with (p ∷ ps) [] = false
starts_with (p ∷ ps) (c ∷ s) = p == c && starts_with ps s

-- `isInvoke`: does ".invoke" stand somewhere in the name?
unfoldable pub is_invoke : Str → Bool
is_invoke [] = false
is_invoke (c ∷ s) = starts_with (codes ".invoke") (c ∷ s) || is_invoke s

-- `byID`: a later span replaces an earlier one of the same identifier.
unfoldable pub by_id : List SpanInput → Dict Str SpanInput → Dict Str SpanInput
by_id [] m = m
by_id (s ∷ ss) m = by_id ss (insert s.span_id_hex s m)

-- `ownerInvoke`: the loop over `guard`, with the rounds that are left.
unfoldable pub owner_invoke : ℕ → Dict Str SpanInput → Option SpanInput → Option SpanInput
owner_invoke zero m cur = none
owner_invoke (suc guard) m none = none
owner_invoke (suc guard) m (some cur) =
    let further = owner_invoke guard m (lookup cur.parent_span_id_hex m) in
    if is_invoke cur.name
    then some cur
    else if is_empty cur.parent_span_id_hex
    then none
    else further

abbrev no_tokens : Option ℕ → Bool
no_tokens none = true
no_tokens (some n) = n == 0

-- `owner != nil && owner.SpanIDHex == rootID`
abbrev owned_by : Str → Option SpanInput → Bool
owned_by root_id none = false
owned_by root_id (some owner) = str_eq owner.span_id_hex root_id

-- The tests after which the span is appended.
abbrev owned_by_root : Option Str → Option SpanInput → Bool
owned_by_root none owner = false
owned_by_root (some root_id) owner = owned_by root_id owner

unfoldable pub is_main_agent : Dict Str Str → Dict Str SpanInput → SpanInput → Bool
is_main_agent root_by_trace ids s =
    if no_tokens s.total_tokens
    then false
    else owned_by_root (lookup s.trace_id_hex root_by_trace) (owner_invoke 500 ids (some s))

unfoldable pub context_span : SpanInput → SessionContextSpan
context_span s = record {
  trace_id_hex = s.trace_id_hex;
  span_id_hex = s.span_id_hex;
  name = s.name;
  start_time_ms = s.start_time_ms;
  input_tokens = s.input_tokens;
  output_tokens = s.output_tokens;
  total_tokens = s.total_tokens;
  cache_read_tokens = s.cache_read_tokens;
  cache_creation_tokens = s.cache_creation_tokens;
  gen_ai_request_model = s.gen_ai_request_model;
}

abbrev pub earlier : SessionContextSpan → SessionContextSpan → Bool
earlier a b = ltb a.start_time_ms b.start_time_ms

unfoldable pub compute_session_context_spans :
    Sorter → Dict Str Str → List SpanInput → List SessionContextSpan
compute_session_context_spans sorter root_by_trace spans =
    sorter.sort_slice earlier
      (map context_span (keep (is_main_agent root_by_trace (by_id spans [])) spans))
