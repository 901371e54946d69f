-- ===== src/Storage/Traces/Detail.antt =====
-- GetTrace of internal/storage/memstore.go.
use labubu.Base.{
  ℕ, zero, suc, ◌+◌, ◌≡◌, refl, ap, ◌∙◌, Bool, true, false, Option, none, some, List, [], ◌∷◌, map,
  arith, ltb, ◌==◌, if◌then◌else◌, length, get_elem?, keep, All, keep-All,
}
use labubu.Base.Str.{Str, codes}
use labubu.Base.Dict.{nat_eq, bytes_eq, Dict, lookup}
use labubu.Base.Sort.{Sorter, IsSorted, IsWeakOrder, All-perm}
use labubu.Storage.Types.{Span, Trace}
use labubu.Storage.Ids.{trace_id_to_hex, span_id_to_hex}
use labubu.Storage.Text.{status_code_to_string, kind_to_string}
use labubu.Storage.Aggregate.{is_root_span}
use labubu.Storage.Mem.{MemStore}
use mathlib.Core.List.{Perm}

pub record ScopeDetail : Type 0 where
  pub name : Str
  pub version : Str
  pub attributes : Dict Str Str

-- `J` is a value of parsed JSON.
pub record SpanDetail (J : Type 0) : Type 0 where
  pub span_id : Str
  pub parent_span_id : Str
  pub name : Str
  pub kind : Str
  pub start_time_ms : ℕ
  pub duration_ms : ℕ
  pub attributes : Dict Str Str
  pub events : List J
  pub links : List J
  pub status : Str
  pub status_message : Str
  pub input_tokens : Option ℕ
  pub output_tokens : Option ℕ
  pub total_tokens : Option ℕ
  pub cache_creation_tokens : Option ℕ
  pub cache_read_tokens : Option ℕ
  pub gen_ai_request_model : Option Str
  pub gen_ai_system : Option Str
  pub tool_name : Option Str
  pub is_tool_call : Bool

pub record TraceDetail (F J : Type 0) : Type 0 where
  pub trace_id_hex : Str
  pub root_span_id : Str
  pub span_count : ℕ
  pub start_time_ms : ℕ
  pub duration_ms : ℕ
  pub resource_attrs : Dict Str Str
  pub resource_schema_url : Str
  pub scope : ScopeDetail
  pub cost : Option F
  pub cost_currency : Str
  pub unpriced_spans : ℕ
  pub session_id : Str
  pub spans : List (SpanDetail J)

-- `rootSpanID` and `rootIdx`
pub record RootMark : Type 0 where
  pub root_span_id : ℕ
  pub root_idx : ℕ

abbrev pub of_trace : {F : Type 0} → ℕ → Span F → Bool
of_trace trace_id s = s.trace_id == trace_id

abbrev pub span_earlier : {F : Type 0} → Span F → Span F → Bool
span_earlier a b = ltb a.start_time_ms b.start_time_ms

abbrev marked : {F : Type 0} → ℕ → Span F → RootMark → Bool → RootMark
marked i s mark true = record { root_span_id = s.span_id; root_idx = i }
marked i s mark false = mark

unfoldable pub mark_root : {F : Type 0} → ℕ → List (Span F) → RootMark → RootMark
mark_root i [] mark = mark
mark_root i (s ∷ ss) mark = mark_root (i + 1) ss (marked i s mark (is_root_span s.parent_span_id))

abbrev pub resource_of : {F : Type 0} → Option (Trace F) → Dict Str Str
resource_of none = []
resource_of (some t) = t.resource_attrs

abbrev pub session_of : {F : Type 0} → Option (Trace F) → Str
session_of none = []
session_of (some t) = t.session_id

abbrev pub is_there : {A : Type 0} → Option A → Bool
is_there none = false
is_there (some a) = true

module _ {F J : Type 0} (parse_json_array : Str → List J) where
  unfoldable pub span_detail : Span F → SpanDetail J
  span_detail s = record {
    span_id = span_id_to_hex s.span_id;
    parent_span_id = span_id_to_hex s.parent_span_id;
    name = s.name;
    kind = kind_to_string s.kind;
    start_time_ms = s.start_time_ms;
    duration_ms = s.duration_ms;
    attributes = s.attributes;
    events = parse_json_array s.events;
    links = parse_json_array s.links;
    status = status_code_to_string s.status_code;
    status_message = s.status_message;
    input_tokens = s.input_tokens;
    output_tokens = s.output_tokens;
    total_tokens = s.total_tokens;
    cache_creation_tokens = s.cache_creation_tokens;
    cache_read_tokens = s.cache_read_tokens;
    gen_ai_request_model = s.gen_ai_request_model;
    gen_ai_system = lookup (codes "gen_ai.system") s.attributes;
    tool_name = lookup (codes "gen_ai.tool.name") s.attributes;
    is_tool_call = is_there (lookup (codes "gen_ai.tool.name") s.attributes);
  }

  -- The answer, from the detail at `rootIdx`.
  abbrev pub detail_with :
      ℕ
      → Option (Trace F)
      → RootMark
      → List (Span F)
      → List (SpanDetail J)
      → SpanDetail J
      → TraceDetail F J
  detail_with trace_id stored mark trace_spans spans root = record {
    trace_id_hex = trace_id_to_hex trace_id;
    root_span_id = span_id_to_hex mark.root_span_id;
    span_count = length trace_spans;
    start_time_ms = root.start_time_ms;
    duration_ms = root.duration_ms;
    resource_attrs = resource_of stored;
    resource_schema_url = [];
    scope = record { name = []; version = []; attributes = [] };
    cost = none;
    cost_currency = [];
    unpriced_spans = 0;
    session_id = session_of stored;
    spans = spans;
  }

  -- `detailSpans[rootIdx]`: an index that lies outside panics, which is `none`.
  abbrev pub detail_at :
      ℕ
      → Option (Trace F)
      → RootMark
      → List (Span F)
      → List (SpanDetail J)
      → Option (SpanDetail J)
      → Option (Option (TraceDetail F J))
  detail_at trace_id stored mark trace_spans spans none = none
  detail_at trace_id stored mark trace_spans spans (some root) =
      some (some (detail_with trace_id stored mark trace_spans spans root))

  abbrev pub trace_details :
      ℕ → Option (Trace F) → List (Span F) → Option (Option (TraceDetail F J))
  trace_details trace_id stored [] = some none
  trace_details trace_id stored (s ∷ ss) =
      let mark = mark_root 0 (s ∷ ss) (record { root_span_id = 0; root_idx = 0 }) in
      let spans = map span_detail (s ∷ ss) in
      detail_at trace_id stored mark (s ∷ ss) spans (get_elem? spans mark.root_idx)

  -- The outer `none` is a panic, the inner one the `nil` of a trace that has no span.
  unfoldable pub get_trace : Sorter → MemStore F → ℕ → Option (Option (TraceDetail F J))
  get_trace sorter m trace_id =
      trace_details trace_id (lookup trace_id m.traces)
        (sorter.sort_slice span_earlier (keep (of_trace trace_id) m.spans))

span_earlier-IsWeakOrder : {F : Type 0} → IsWeakOrder (span_earlier {F = F})
span_earlier-IsWeakOrder = record {
  asym = λ x y h. ground arith;
  trans = λ x y z h k. ground arith;
}

module _ {F : Type 0} where
  -- The spans of one trace, the earliest first, and each as often as it is stored.
  pub record IsTraceSpans (trace_id : ℕ) (stored found : List (Span F)) : Type 0 where
    pub sorted : IsSorted span_earlier found
    pub same : Perm found (keep (of_trace trace_id) stored)
    pub own : All (λ s. of_trace trace_id s ≡ true) found

  earliest_first :
      (sorter : Sorter) (m : MemStore F) (trace_id : ℕ)
      → IsTraceSpans trace_id m.spans
          (sorter.sort_slice span_earlier (keep (of_trace trace_id) m.spans))
  earliest_first sorter m trace_id =
      let kept = keep (of_trace trace_id) m.spans in
      let same = sorter.sort_slice-perm span_earlier kept in
      record {
        sorted = sorter.sort_slice-IsSorted span_earlier kept span_earlier-IsWeakOrder;
        same = same;
        own = All-perm (of_trace trace_id) same (keep-All (of_trace trace_id) m.spans);
      }

  -- The last root span, or the span at hand.
  unfoldable pub last_root : Span F → List (Span F) → Span F
  last_root s [] = s
  last_root s (t ∷ ss) = last_root (if is_root_span t.parent_span_id then t else s) ss

  -- The identifier of the last root span, or the one at hand.
  unfoldable pub last_root_id : ℕ → List (Span F) → ℕ
  last_root_id id [] = id
  last_root_id id (s ∷ ss) =
      last_root_id (if is_root_span s.parent_span_id then s.span_id else id) ss

  marked-root_span_id :
      (i : ℕ) (s : Span F) (mark : RootMark) (b : Bool)
      → (marked i s mark b).root_span_id ≡ (if b then s.span_id else mark.root_span_id)
  marked-root_span_id i s mark true = refl
  marked-root_span_id i s mark false = refl

  mark_root-root_span_id :
      (i : ℕ) (ss : List (Span F)) (mark : RootMark)
      → (mark_root i ss mark).root_span_id ≡ last_root_id mark.root_span_id ss
  unfolding mark_root last_root_id
  mark_root-root_span_id i [] mark = refl
  mark_root-root_span_id i (s ∷ ss) mark =
      let root = is_root_span s.parent_span_id in
      mark_root-root_span_id (i + 1) ss (marked i s mark root)
      ∙ ap (λ id. last_root_id id ss) (marked-root_span_id i s mark root)

  marked-root_idx :
      (spans : List (Span F)) (i : ℕ) (t : Span F) (mark : RootMark) (s : Span F) (b : Bool)
      → get_elem? spans i ≡ some t
      → get_elem? spans mark.root_idx ≡ some s
      → get_elem? spans (marked i t mark b).root_idx ≡ some (if b then t else s)
  marked-root_idx spans i t mark s true here h = here
  marked-root_idx spans i t mark s false here h = h

  -- The index always points at the root that was seen last: `spans` is the whole list, `ss` what of
  -- it is left from the position `i` on.
  mark_root-root_idx :
      (spans : List (Span F)) (i : ℕ) (ss : List (Span F)) (mark : RootMark) (s : Span F)
      → ((j : ℕ) → get_elem? spans (i + j) ≡ get_elem? ss j)
      → get_elem? spans mark.root_idx ≡ some s
      → get_elem? spans (mark_root i ss mark).root_idx ≡ some (last_root s ss)
  unfolding mark_root last_root
  mark_root-root_idx spans i [] mark s left h = h
  mark_root-root_idx spans i (t ∷ ss) mark s left h =
      let left' : (j : ℕ) → get_elem? spans (i + 1 + j) ≡ get_elem? ss j = λ j.
        ap (get_elem? spans) (let e : i + 1 + j ≡ i + suc j = omega arith in e) ∙ left (suc j) in
      let here : get_elem? spans i ≡ some t =
        ap (get_elem? spans) (let e : i ≡ i + 0 = omega arith in e) ∙ left 0 in
      let root = is_root_span t.parent_span_id in
      mark_root-root_idx spans (i + 1) ss (marked i t mark root) (if root then t else s) left'
        (marked-root_idx spans i t mark s root here h)

abbrev lift : {A B : Type 0} → (A → B) → Option A → Option B
lift f none = none
lift f (some a) = some (f a)

get_elem?-map :
    {A B : Type 0} (f : A → B) (xs : List A) (i : ℕ)
    → get_elem? (map f xs) i ≡ lift f (get_elem? xs i)
get_elem?-map f [] i = refl
get_elem?-map f (y ∷ xs) zero = refl
get_elem?-map f (y ∷ xs) (suc i) = get_elem?-map f xs i

module _ {F J : Type 0} (parse_json_array : Str → List J) where
  -- What the answer holds, from the sorted spans of the trace: the start and the duration are those
  -- of the last root span, or of the earliest span where there is no root.
  abbrev pub described_trace : ℕ → Option (Trace F) → List (Span F) → Option (TraceDetail F J)
  described_trace trace_id stored [] = none
  described_trace trace_id stored (s ∷ ss) =
      let root = last_root s (s ∷ ss) in
      some (record {
        trace_id_hex = trace_id_to_hex trace_id;
        root_span_id = span_id_to_hex (last_root_id 0 (s ∷ ss));
        span_count = length (s ∷ ss);
        start_time_ms = root.start_time_ms;
        duration_ms = root.duration_ms;
        resource_attrs = resource_of stored;
        resource_schema_url = [];
        scope = record { name = []; version = []; attributes = [] };
        cost = none;
        cost_currency = [];
        unpriced_spans = 0;
        session_id = session_of stored;
        spans = map (span_detail parse_json_array) (s ∷ ss);
      })

  trace_details-eq :
      (trace_id : ℕ) (stored : Option (Trace F)) (found : List (Span F))
      → trace_details parse_json_array trace_id stored found
        ≡ some (described_trace trace_id stored found)
  unfolding span_detail
  trace_details-eq trace_id stored [] = refl
  trace_details-eq trace_id stored (s ∷ ss) =
      let mark = mark_root 0 (s ∷ ss) (record { root_span_id = 0; root_idx = 0 }) in
      let details = map (span_detail parse_json_array) (s ∷ ss) in
      let same : (j : ℕ) → get_elem? (s ∷ ss) (0 + j) ≡ get_elem? (s ∷ ss) j =
        λ j. ap (get_elem? (s ∷ ss)) (let e : 0 + j ≡ j = omega arith in e) in
      let at_root =
        get_elem?-map (span_detail parse_json_array) (s ∷ ss) mark.root_idx
        ∙ ap (lift (span_detail parse_json_array)) (
            mark_root-root_idx (s ∷ ss) 0 (s ∷ ss) (record { root_span_id = 0; root_idx = 0 }) s
              same refl) in
      ap (detail_at parse_json_array trace_id stored mark (s ∷ ss) details) at_root
      ∙ ap
          (λ id. some (
            some (
              detail_with parse_json_array trace_id stored
                (record { root_span_id = id; root_idx = mark.root_idx }) (s ∷ ss) details
                (span_detail parse_json_array (last_root s (s ∷ ss))))))
          (mark_root-root_span_id 0 (s ∷ ss) (record { root_span_id = 0; root_idx = 0 }))

  -- GetTrace never panics: it answers with the description of the trace's spans.
  pub get_trace_lem :
      (sorter : Sorter) (m : MemStore F) (trace_id : ℕ)
      → (found : List (Span F)) × IsTraceSpans trace_id m.spans found
        × (get_trace parse_json_array sorter m trace_id
            ≡ some (described_trace trace_id (lookup trace_id m.traces) found))
  unfolding get_trace
  get_trace_lem sorter m trace_id =
      let found = sorter.sort_slice span_earlier (keep (of_trace trace_id) m.spans) in
      (
        found,
        earliest_first sorter m trace_id,
        trace_details-eq trace_id (lookup trace_id m.traces) found,
      )
