-- ===== src/Storage/Logs.antt =====
-- The log records of internal/storage/memstore.go: InsertLogs, ListLogs, GetLogsByTrace,
-- GetLogCountsByTrace and GetLogEventNames.
pub mod Listing
pub mod Counts
use labubu.Base.{
  ℕ, zero, suc, ◌+◌, ◌-◌, ◌*◌, ◌/◌, ◌%◌, ◌^◌, ◌≤◌, ◌<◌, ◌≡◌, refl, sym, ap, ◌∙◌, ◌≢◌, ◌↔◌, ◌⊎◌, inl,
  inr, Bool, true, false, not, ◌&&◌, ◌||◌, Option, none, some, List, [], ◌∷◌, ◌++◌, map, arith, ltb,
  leb, ◌==◌, ==_iff, if◌then◌else◌, Bool-cases, Option-cases, length, take, drop, keep, count, any,
  all, All, length-append, length-take, length-drop, length-keep, count_split, keep-append,
  keep-All, All-append, All-weaken,
}
use labubu.Base.Int.{
  ℤ, pos, negsuc, pos_part, neg_part, ◌+ℤ◌, ◌-ℤ◌, ◌*ℤ◌, ◌≤ℤ◌, ◌<ℤ◌, ltb_ℤ, leb_ℤ, to_int64,
  int_laws,
}
use labubu.Base.Str.{Str, codes, str_eq, str_eq_iff, str_eq_self, is_empty}
use labubu.Base.Dict.{
  Eq, nat_eq, bytes_eq, Dict, lookup, insert, delete, has, lookup-insert, lookup-insert_self,
  lookup-delete, Distinct, has-insert, has_of_delete, insert-Distinct, delete-Distinct,
  insert_fresh, has_of_append, has-eq-lookup, insert-All, keep-All_of_All,
}
use labubu.Base.Sort.{
  Sorter, IsSorted, IsWeakOrder, insertion_sort, insertion, count-perm, length-perm, All-perm,
}
use labubu.Base.Strconv.{parse_uint, parse_uint-lt}
use labubu.Base.Time.{Time, Duration, seconds, sub_time, seconds-eq_of_lt}
use labubu.Base.Words.{u16, u32, u64, sub_u64, u32-add, u16-add, sub_u64-eq}
use labubu.Base.Floats.{Floats, whole}
use labubu.Base.Page.{paginate}
use labubu.Storage.Types.{LogRecord, Pagination}
use labubu.Storage.Ids.{trace_id_to_hex, span_id_to_hex}
use labubu.Storage.Text.{contains_substring}
use labubu.Storage.Mem.{MemStore}

pub record LogQuery : Type 0 where
  pub page : ℤ
  pub page_size : ℤ
  pub severity : Str
  pub event_name : Str
  pub query : Str
  pub trace_id : ℕ
  pub span_id : ℕ
  pub start_time : ℕ
  pub end_time : ℕ
  pub asc : Bool

pub record LogListItem : Type 0 where
  pub trace_id_hex : Str
  pub span_id_hex : Str
  pub timestamp : ℕ
  pub severity : Str
  pub event_name : Str
  pub body : Str
  pub attributes : Dict Str Str

pub record LogListResult : Type 0 where
  pub logs : List LogListItem
  pub pagination : Pagination

unfoldable pub log_item : LogRecord → LogListItem
log_item l = record {
  trace_id_hex = trace_id_to_hex l.trace_id;
  span_id_hex = span_id_to_hex l.span_id;
  timestamp = l.timestamp;
  severity = l.severity;
  event_name = l.event_name;
  body = l.body;
  attributes = l.attributes;
}

-- The tests of the filter loop, each of which skips the record; `equal_fold` is `strings.EqualFold`.
unfoldable pub log_matches : (Str → Str → Bool) → LogQuery → LogRecord → Bool
log_matches equal_fold q l =
    not (not (is_empty q.severity) && not (equal_fold l.severity q.severity))
    && not (not (is_empty q.event_name) && not (str_eq l.event_name q.event_name))
    && not (not (is_empty q.query) && not (contains_substring l.body q.query))
    && not (not (q.trace_id == 0) && not (l.trace_id == q.trace_id))
    && not (not (q.span_id == 0) && not (l.span_id == q.span_id))
    && not (ltb 0 q.start_time && ltb l.timestamp q.start_time)
    && not (ltb 0 q.end_time && ltb q.end_time l.timestamp)

unfoldable pub log_before : Bool → LogRecord → LogRecord → Bool
log_before asc a b = if asc then ltb a.timestamp b.timestamp else ltb b.timestamp a.timestamp

-- The records that pass, in the order asked for.
unfoldable pub matching_logs :
    (Str → Str → Bool) → Sorter → LogQuery → List LogRecord → List LogRecord
matching_logs equal_fold sorter q logs =
    sorter.sort_slice (log_before q.asc) (keep (log_matches equal_fold q) logs)

abbrev pub list_page : LogQuery → ℕ → Option (List LogRecord) → Option LogListResult
list_page q total none = none
list_page q total (some page) = some (record {
  logs = map log_item page;
  pagination = record { page = q.page; page_size = q.page_size; total = total };
})

abbrev pub log_earlier : LogListItem → LogListItem → Bool
log_earlier a b = ltb a.timestamp b.timestamp

-- `counts[key]++`
abbrev pub count_one_more : Str → Dict Str ℕ → Dict Str ℕ
count_one_more key counts =
    insert key (elim (lookup key counts) [ none ↦ 1 | some n ↦ suc n ]) counts

-- The loop of GetLogCountsByTrace.
unfoldable pub count_spans : ℕ → List LogRecord → Dict Str ℕ → Dict Str ℕ
count_spans trace_id [] counts = counts
count_spans trace_id (l ∷ ls) counts =
    count_spans trace_id ls
      (if l.trace_id == trace_id then count_one_more (span_id_to_hex l.span_id) counts else counts)

-- The loop of GetLogEventNames.
unfoldable pub seen_names : List LogRecord → Dict Str Bool → Dict Str Bool
seen_names [] seen = seen
seen_names (l ∷ ls) seen = seen_names ls (
    if not (is_empty l.event_name) && not (has l.event_name seen)
    then insert l.event_name true seen
    else seen)

-- The order of strings, byte by byte.
unfoldable pub str_less : Str → Str → Bool
str_less s [] = false
str_less [] (d ∷ t) = true
str_less (c ∷ s) (d ∷ t) = if c == d then str_less s t else ltb c d

module _ {F : Type 0} where
  unfoldable pub insert_logs : MemStore F → List LogRecord → MemStore F
  insert_logs m ls = record m { logs = m.logs ++ ls }

  -- A page that lies outside (a page number that is not positive, say) panics, which is `none`.
  unfoldable pub list_logs :
      (Str → Str → Bool) → Sorter → MemStore F → LogQuery → Option LogListResult
  list_logs equal_fold sorter m q =
      let found = matching_logs equal_fold sorter q m.logs in
      list_page q (length found) (paginate q.page q.page_size found)

  unfoldable pub get_logs_by_trace : Sorter → MemStore F → ℕ → List LogListItem
  get_logs_by_trace sorter m trace_id =
      sorter.sort_slice log_earlier
        (map log_item (keep (λ (l : LogRecord). l.trace_id == trace_id) m.logs))

  unfoldable pub get_log_counts_by_trace : MemStore F → ℕ → Dict Str ℕ
  get_log_counts_by_trace m trace_id = count_spans trace_id m.logs []

  unfoldable pub get_log_event_names : Sorter → MemStore F → List Str
  get_log_event_names sorter m = sorter.sort_slice str_less (map (λ e. e.0) (seen_names m.logs []))
