-- ===== src/Storage/Sql.antt =====
-- The SQL text that internal/storage/chdb_query.go builds: literals, and the filters of the queries.
pub mod Reading
pub mod Clauses
pub mod Filters
use labubu.Base.{
  ℕ, zero, suc, ◌+◌, ◌-◌, ◌*◌, ◌/◌, ◌%◌, ◌^◌, ◌≤◌, ◌<◌, ◌≡◌, refl, sym, ap, ◌∙◌, ◌≢◌, ◌↔◌, ◌⊎◌, inl,
  inr, Bool, true, false, not, ◌&&◌, ◌||◌, Option, none, some, List, [], ◌∷◌, ◌++◌, map, arith, ltb,
  leb, ◌==◌, ==_iff, if◌then◌else◌, Bool-cases, Option-cases, length, take, get_elem?, drop, keep,
  count, any, all, All, length-append, length-take, length-drop, length-keep, count_split,
  keep-append, keep-All, All-append, All-weaken,
}
use labubu.Base.Int.{
  ℤ, pos, negsuc, pos_part, neg_part, ◌+ℤ◌, ◌-ℤ◌, ◌*ℤ◌, ◌≤ℤ◌, ◌<ℤ◌, ltb_ℤ, leb_ℤ, to_int64,
  int64_half, int_laws,
}
use labubu.Base.Str.{Str, codes, str_eq, str_eq_iff, str_eq_self, is_empty}
use labubu.Base.Dict.{
  Eq, nat_eq, bytes_eq, Dict, lookup, insert, delete, has, lookup-insert, lookup-insert_self,
  lookup-delete, Distinct, has-insert, has_of_delete, insert-Distinct, delete-Distinct,
  insert_fresh, has_of_append, has-eq-lookup, insert-All, keep-All_of_All,
}
use labubu.Base.Sort.{
  Sorter, IsSorted, IsWeakOrder, insertion_sort, insertion, count-perm, length-perm, All-perm,
}
use labubu.Base.Strconv.{parse_uint, parse_uint-lt}
use labubu.Base.Time.{Time, Duration, seconds, sub_time, seconds-eq_of_lt}
use labubu.Base.Words.{u16, u32, u64, sub_u64, u32-add, u16-add, sub_u64-eq}
use labubu.Base.Floats.{Floats, whole}
use labubu.Base.Page.{paginate, paginate_lem}
use labubu.Storage.Ids.{trace_id_to_hex, span_id_to_hex}
use labubu.Storage.Traces.{TraceQuery}
use labubu.Storage.Sessions.{SessionQuery}
use labubu.Storage.Logs.{LogQuery}

-- `strings.ReplaceAll` of a text of one byte.
unfoldable pub replace_byte : ℕ → Str → Str → Str
replace_byte old new [] = []
replace_byte old new (c ∷ s) = (if c == old then new else c ∷ []) ++ replace_byte old new s

-- A backslash, 92, is doubled, and a single quote, 39, gets a backslash in front.
unfoldable pub escape_sql : Str → Str
escape_sql s = replace_byte 39 (92 ∷ 39 ∷ []) (replace_byte 92 (92 ∷ 92 ∷ []) s)

-- `'%s'` with an escaped text
abbrev pub quote_sql : Str → Str
quote_sql s = 39 ∷ (escape_sql s ++ 39 ∷ [])

abbrev pub null_string : Option Str → Str
null_string none = codes "NULL"
null_string (some v) = quote_sql v

-- `strings.Join`
unfoldable pub join : Str → List Str → Str
join sep [] = []
join sep (s ∷ []) = s
join sep (s ∷ t ∷ ss) = s ++ (sep ++ join sep (t ∷ ss))

abbrev pub pair_to_sql : Str × Str → Str
pair_to_sql (k, v) = quote_sql k ++ codes ": " ++ quote_sql v

unfoldable pub map_to_sql : Dict Str Str → Str
map_to_sql [] = codes "map()"
map_to_sql (e ∷ m) = codes "map(" ++ join (codes ", ") (map pair_to_sql (e ∷ m)) ++ codes ")"

-- `if … { clauses = append(clauses, …) }`
abbrev pub clause_if : Bool → Str → List Str → List Str
clause_if true c cs = c ∷ cs
clause_if false c cs = cs

abbrev pub where_clause : List Str → Str
where_clause [] = []
where_clause (c ∷ cs) = codes " WHERE " ++ join (codes " AND ") (c ∷ cs)

abbrev pub service_clause : Str → Str
service_clause service =
    codes "resource_attributes["
    ++ quote_sql (codes "service.name")
    ++ codes "] = "
    ++ quote_sql service

-- `'%%%s%%'`: the text between two percent signs, 37.
abbrev pub like_text : Str → Str
like_text s = 39 ∷ 37 ∷ (escape_sql s ++ 37 ∷ 39 ∷ [])

-- `unhex('%x')`, whose digits need no escaping.
abbrev pub unhex_sql : Str → Str
unhex_sql digits = codes "unhex(" ++ 39 ∷ (digits ++ 39 ∷ codes ")")

-- `%d` of fmt.Sprintf, and strconv.FormatFloat: what they print has no quotation mark.
pub record NumberTexts (F : Type 0) : Type 0 where
  pub format_uint : ℕ → Str
  pub format_float : F → Str
  pub format_uint-All : (n : ℕ) → All (λ c. (c == 39) ≡ false) (format_uint n)
  pub format_float-All : (x : F) → All (λ c. (c == 39) ≡ false) (format_float x)

module _ (fl : Floats) (texts : NumberTexts fl.Float) where
  open fl use {Float, zero_float, less}
  open texts use {format_uint, format_float}

  unfoldable pub trace_clauses : TraceQuery Float → List Str
  trace_clauses q = clause_if (not (is_empty q.service)) (service_clause q.service) (
      clause_if (not (is_empty q.status)) (codes "status_code = " ++ quote_sql q.status) (
        clause_if (not (is_empty q.query)) (codes "root_name LIKE " ++ like_text q.query) (
          clause_if (ltb 0 q.start_time_ms)
            (codes "start_time_ms >= " ++ format_uint q.start_time_ms)
            (clause_if (ltb 0 q.end_time_ms)
              (codes "start_time_ms <= " ++ format_uint q.end_time_ms)
              (clause_if (ltb 0 q.min_duration)
                (codes "duration_ms >= " ++ format_uint q.min_duration)
                (clause_if (ltb 0 q.max_duration)
                  (codes "duration_ms <= " ++ format_uint q.max_duration)
                  (clause_if (ltb 0 q.min_span_count)
                    (codes "span_count >= " ++ format_uint q.min_span_count)
                    (clause_if (ltb 0 q.max_span_count)
                      (codes "span_count <= " ++ format_uint q.max_span_count)
                      (clause_if (less zero_float q.min_cost)
                        (codes "cost >= " ++ format_float q.min_cost)
                        (clause_if (less zero_float q.max_cost)
                          (codes "cost <= " ++ format_float q.max_cost) []))))))))))

  unfoldable pub build_trace_where_clause : TraceQuery Float → Str
  build_trace_where_clause q = where_clause (trace_clauses q)

  unfoldable pub build_trace_count_sql : TraceQuery Float → Str
  build_trace_count_sql q =
      codes "SELECT count(DISTINCT trace_id_hex) AS count FROM traces" ++ build_trace_where_clause q

-- The first clause has the literal of two quotation marks.
unfoldable pub session_clauses : (ℕ → Str) → SessionQuery → List Str
session_clauses format_uint q =
    (codes "session_id != " ++ 39 ∷ 39 ∷ [])
    ∷ clause_if (not (is_empty q.service)) (service_clause q.service) (
        clause_if (not (is_empty q.query)) (codes "session_id LIKE " ++ like_text q.query) (
          clause_if (ltb 0 q.start_time_ms)
            (codes "start_time_ms >= " ++ format_uint q.start_time_ms)
            (clause_if (ltb 0 q.end_time_ms)
              (codes "start_time_ms <= " ++ format_uint q.end_time_ms) [])))

unfoldable pub build_session_list_where_clause : (ℕ → Str) → SessionQuery → Str
build_session_list_where_clause format_uint q =
    codes " WHERE " ++ join (codes " AND ") (session_clauses format_uint q)

unfoldable pub build_session_count_sql : (ℕ → Str) → SessionQuery → Str
build_session_count_sql format_uint q =
    codes "SELECT count() AS count FROM (SELECT DISTINCT session_id FROM traces"
    ++ build_session_list_where_clause format_uint q
    ++ codes ")"

unfoldable pub build_session_trace_count_sql : Str → Str
build_session_trace_count_sql session_id =
    codes "SELECT count() AS count FROM traces WHERE session_id = " ++ quote_sql session_id

unfoldable pub build_model_pricing_delete_sql : Str → Str
build_model_pricing_delete_sql model_name =
    codes "DELETE FROM model_pricing WHERE model_name = " ++ quote_sql model_name

unfoldable pub log_clauses : (ℕ → Str) → LogQuery → List Str
log_clauses format_uint q =
    clause_if (not (is_empty q.severity)) (codes "severity = " ++ quote_sql q.severity) (
      clause_if (not (is_empty q.event_name)) (codes "event_name = " ++ quote_sql q.event_name) (
        clause_if (not (is_empty q.query)) (codes "body LIKE " ++ like_text q.query) (
          clause_if (not (q.trace_id == 0))
            (codes "trace_id = " ++ unhex_sql (trace_id_to_hex q.trace_id))
            (clause_if (not (q.span_id == 0))
              (codes "span_id = " ++ unhex_sql (span_id_to_hex q.span_id))
              (clause_if (ltb 0 q.start_time) (codes "timestamp >= " ++ format_uint q.start_time) (
                clause_if (ltb 0 q.end_time) (codes "timestamp <= " ++ format_uint q.end_time)
                  []))))))

unfoldable pub build_log_where_clause : (ℕ → Str) → LogQuery → Str
build_log_where_clause format_uint q = where_clause (log_clauses format_uint q)

unfoldable pub build_log_count_sql : (ℕ → Str) → LogQuery → Str
build_log_count_sql format_uint q =
    codes "SELECT count(*) AS count FROM logs" ++ build_log_where_clause format_uint q
