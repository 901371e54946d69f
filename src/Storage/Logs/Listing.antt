-- ===== src/Storage/Logs/Listing.antt =====
-- What ListLogs of internal/storage/memstore.go shows.
use labubu.Base.{
  ℕ, suc, ◌+◌, ◌*◌, ◌<◌, ◌≡◌, ap, ◌∙◌, Bool, true, false, some, List, map, arith, length, take,
  drop, keep, All, keep-All,
}
use labubu.Base.Int.{pos}
use labubu.Base.Str.{Str}
use labubu.Base.Dict.{nat_eq, bytes_eq}
use labubu.Base.Sort.{Sorter, IsSorted, IsWeakOrder, All-perm}
use labubu.Base.Page.{paginate}
use labubu.Base.Int.{int64_half}
use labubu.Base.Page.{paginate_lem}
use labubu.Storage.Types.{LogRecord}
use labubu.Storage.Mem.{MemStore}
use labubu.Storage.Logs.{
  LogQuery, log_item, log_matches, log_before, matching_logs, list_page, list_logs,
}
use mathlib.Core.List.{Perm}

log_before-IsWeakOrder : (asc : Bool) → IsWeakOrder (log_before asc)
unfolding log_before
log_before-IsWeakOrder true = record {
  asym = λ x y h. ground arith;
  trans = λ x y z h k. ground arith;
}
log_before-IsWeakOrder false = record {
  asym = λ x y h. ground arith;
  trans = λ x y z h k. ground arith;
}

-- The records that a query matches, in the order it asks for, and each as often as it is stored.
pub record IsListing (equal_fold : Str → Str → Bool) (q : LogQuery) (stored found : List LogRecord)
    : Type 0 where
  pub sorted : IsSorted (log_before q.asc) found
  pub same : Perm found (keep (log_matches equal_fold q) stored)
  pub matching : All (λ l. log_matches equal_fold q l ≡ true) found

matching_logs-IsListing :
    (equal_fold : Str → Str → Bool) (sorter : Sorter) (q : LogQuery) (logs : List LogRecord)
    → IsListing equal_fold q logs (matching_logs equal_fold sorter q logs)
unfolding matching_logs
matching_logs-IsListing equal_fold sorter q logs =
    let kept = keep (log_matches equal_fold q) logs in
    let same = sorter.sort_slice-perm (log_before q.asc) kept in
    record {
      sorted = sorter.sort_slice-IsSorted (log_before q.asc) kept (log_before-IsWeakOrder q.asc);
      same = same;
      matching =
          All-perm (log_matches equal_fold q) same (keep-All (log_matches equal_fold q) logs);
    }

module _ {F : Type 0} where
  -- A query for a page that the numbers allow is answered with that page of the sorted list of all
  -- matching records, and with their number.
  pub list_logs_lem :
      (equal_fold : Str → Str → Bool) (sorter : Sorter) (m : MemStore F) (q : LogQuery) (p k : ℕ)
      → q.page ≡ pos (suc p)
      → q.page_size ≡ pos k
      → suc p < int64_half
      → p * k < int64_half
      → length (matching_logs equal_fold sorter q m.logs) + k < int64_half
      → (found : List LogRecord) × IsListing equal_fold q m.logs found
        × (list_logs equal_fold sorter m q
            ≡ some (record {
              logs = map log_item (take k (drop (p * k) found));
              pagination = record { page = q.page; page_size = q.page_size; total = length found };
            }))
  unfolding list_logs
  list_logs_lem equal_fold sorter m q p k hp hk bound_p bound_pk bound =
      let found = matching_logs equal_fold sorter q m.logs in
      (
        found,
        matching_logs-IsListing equal_fold sorter q m.logs,
        ap (list_page q (length found)) (
            ap (λ i. paginate i q.page_size found) hp
            ∙ ap (λ i. paginate (pos (suc p)) i found) hk
            ∙ paginate_lem p k found bound_p bound_pk bound),
      )
