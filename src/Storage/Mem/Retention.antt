-- ===== src/Storage/Mem/Retention.antt =====
-- Purge, PurgeLogs and DeleteTraces of internal/storage/memstore.go.
use labubu.Base.{
  ℕ, zero, suc, ◌/◌, Bool, true, not, ◌&&◌, List, [], ◌∷◌, map, ltb, if◌then◌else◌, length, take,
  keep, count,
}
use labubu.Base.Int.{ℤ, pos, negsuc}
use labubu.Base.Dict.{nat_eq, bytes_eq, Dict, insert, has}
use labubu.Base.Sort.{Sorter}
use labubu.Base.Words.{sub_u64}
use labubu.Storage.Types.{Trace, LogRecord}
use labubu.Storage.Mem.{MemStore}

-- A `map[K]bool` that holds nothing but `true`: a set of identifiers.
abbrev pub IdSet : Type 0
IdSet = Dict ℕ Bool

unfoldable pub id_set : List ℕ → IdSet → IdSet
unfolding insert
id_set [] ids = ids
id_set (id ∷ rest) ids = id_set rest (insert id true ids)

-- `cutoffMS`, from the time in milliseconds and the age limit in nanoseconds: 0 without a limit.
abbrev pub cutoff_of : ℕ → ℤ → ℕ
cutoff_of now_ms (pos zero) = 0
cutoff_of now_ms (pos (suc n)) = sub_u64 now_ms (suc n / 1000000)
cutoff_of now_ms (negsuc n) = 0

abbrev pub newer : ℕ × ℕ → ℕ × ℕ → Bool
newer a b = ltb b.1 a.1

-- Phase 2: the newest `maxCount` of them, if there are more.
unfoldable pub newest : Sorter → ℤ → List (ℕ × ℕ) → List (ℕ × ℕ)
newest sorter (pos zero) ids = ids
newest sorter (pos (suc n)) ids =
    if ltb (suc n) (length ids) then take (suc n) (sorter.sort_slice newer ids) else ids
newest sorter (negsuc n) ids = ids

abbrev pub ids_of : List (ℕ × ℕ) → List ℕ
ids_of xs = map (λ x. x.0) xs

module _ {F : Type 0} where
  -- `cutoffMS > 0 && trace.StartTimeMS < cutoffMS`
  abbrev pub too_old : ℕ → Trace F → Bool
  too_old cutoff_ms t = ltb 0 cutoff_ms && ltb t.start_time_ms cutoff_ms

  -- Phase 1: the identifiers, with the start times that phase 2 sorts by.
  unfoldable pub young : ℕ → Dict ℕ (Trace F) → List (ℕ × ℕ)
  young cutoff_ms [] = []
  young cutoff_ms ((id, t) ∷ m) =
      if too_old cutoff_ms t then young cutoff_ms m else (id, t.start_time_ms) ∷ young cutoff_ms m

  abbrev pub kept_ids : Sorter → ℕ → ℤ → ℤ → MemStore F → IdSet
  kept_ids sorter now_ms max_age max_count m =
      id_set (ids_of (newest sorter max_count (young (cutoff_of now_ms max_age) m.traces))) []

  -- The two deletions of Purge, by the set of what is kept, and the two counts.
  unfoldable pub restrict : IdSet → MemStore F → MemStore F × ℕ × ℕ
  unfolding has keep count
  restrict ids m = (
    record m {
      traces = keep (λ e. has e.0 ids) m.traces;
      spans = keep (λ s. has s.trace_id ids) m.spans;
    },
    count (λ e. not (has e.0 ids)) m.traces,
    count (λ s. not (has s.trace_id ids)) m.spans,
  )

  -- Traces, then spans, are counted as deleted.
  unfoldable pub purge : Sorter → ℕ → ℤ → ℤ → MemStore F → MemStore F × ℕ × ℕ
  unfolding young newest id_set restrict
  purge sorter now_ms max_age max_count m = restrict (kept_ids sorter now_ms max_age max_count m) m

  -- An age limit that is not positive deletes nothing.
  unfoldable pub purge_logs : ℕ → ℤ → MemStore F → MemStore F × ℕ
  unfolding keep count
  purge_logs now_ms (pos zero) m = (m, 0)
  purge_logs now_ms (negsuc n) m = (m, 0)
  purge_logs now_ms (pos (suc n)) m =
      let cutoff = sub_u64 now_ms (suc n / 1000000) in
      (
        record m { logs = keep (λ (l : LogRecord). not (ltb l.timestamp cutoff)) m.logs },
        count (λ (l : LogRecord). ltb l.timestamp cutoff) m.logs,
      )
