-- ===== src/Storage/Logs/Counts.antt =====
-- What the counts of GetLogCountsByTrace in internal/storage/memstore.go are.
use labubu.Base.{
  ℕ, suc, ◌+◌, ◌≡◌, ◌∙◌, Bool, true, not, ◌&&◌, ◌||◌, Option, none, some, List, [], ◌∷◌, arith,
  ◌==◌, if◌then◌else◌, count, any,
}
use labubu.Base.Str.{Str, str_eq, str_eq_iff, is_empty}
use labubu.Base.Dict.{nat_eq, bytes_eq, Dict, lookup, insert, has, lookup-insert, has-insert}
use labubu.Storage.Types.{LogRecord}
use labubu.Storage.Ids.{span_id_to_hex}
use labubu.Storage.Mem.{MemStore}
use labubu.Storage.Logs.{count_one_more, count_spans, get_log_counts_by_trace, seen_names}

abbrev pub count_or_zero : Option ℕ → ℕ
count_or_zero none = 0
count_or_zero (some n) = n

-- The records of a span of the trace.
abbrev pub of_span : ℕ → Str → LogRecord → Bool
of_span trace_id key l = (l.trace_id == trace_id) && str_eq (span_id_to_hex l.span_id) key

lookup-count_one_more :
    (key k : Str) (m : Dict Str ℕ)
    → count_or_zero (lookup k (count_one_more key m))
      ≡ (if str_eq key k then suc (count_or_zero (lookup k m)) else count_or_zero (lookup k m))
lookup-count_one_more key k m = ground (
  arith,
  lookup-insert key k (elim (lookup key m) [ none ↦ 1 | some n ↦ suc n ]) m,
  str_eq_iff key k,
)

count_spans_from :
    (trace_id : ℕ) (ls : List LogRecord) (m : Dict Str ℕ) (k : Str)
    → count_or_zero (lookup k (count_spans trace_id ls m))
      ≡ count_or_zero (lookup k m) + count (of_span trace_id k) ls
unfolding count_spans count
count_spans_from trace_id [] m k = omega arith
count_spans_from trace_id (l ∷ ls) m k =
    let key = span_id_to_hex l.span_id in
    ground (
      arith,
      count_spans_from trace_id ls (count_one_more key m) k,
      count_spans_from trace_id ls m k,
      lookup-count_one_more key k m,
    )

module _ {F : Type 0} where
  -- The count of a span is the number of the trace's records with that span's identifier; a span
  -- that is not counted has none.
  pub lookup-get_log_counts_by_trace :
      (m : MemStore F) (trace_id : ℕ) (k : Str)
      → count_or_zero (lookup k (get_log_counts_by_trace m trace_id))
        ≡ count (of_span trace_id k) m.logs
  unfolding get_log_counts_by_trace lookup
  lookup-get_log_counts_by_trace m trace_id k = count_spans_from trace_id m.logs [] k ∙ omega arith

has-seen_names :
    (ls : List LogRecord) (seen : Dict Str Bool) (name : Str)
    → has name (seen_names ls seen) ≡ (
        has name seen
        || (not (is_empty name) && any (λ (l : LogRecord). str_eq l.event_name name) ls))
unfolding seen_names any
has-seen_names [] seen name = ground arith
has-seen_names (l ∷ ls) seen name = ground (
  arith,
  has-seen_names ls (insert l.event_name true seen) name,
  has-seen_names ls seen name,
  has-insert l.event_name name true seen,
  str_eq_iff l.event_name name,
)
