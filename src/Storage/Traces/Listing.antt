-- ===== src/Storage/Traces/Listing.antt =====
-- What ListTraces of internal/storage/memstore.go shows.
use labubu.Base.{
  ℕ, suc, ◌+◌, ◌*◌, ◌<◌, ◌≡◌, ap, ◌∙◌, true, some, List, map, arith, length, take, drop, keep, All,
  keep-All,
}
use labubu.Base.Int.{pos, int64_half}
use labubu.Base.Dict.{nat_eq, bytes_eq}
use labubu.Base.Sort.{Sorter, IsSorted, IsWeakOrder, All-perm}
use labubu.Base.Floats.{Floats}
use labubu.Base.Page.{paginate, paginate_lem}
use labubu.Storage.Types.{Trace}
use labubu.Storage.Mem.{MemStore, entries}
use labubu.Storage.Traces.{
  TraceQuery, trace_matches, trace_later, trace_item, attach_messages, matching_traces, trace_page,
  list_traces,
}
use mathlib.Core.List.{Perm}

trace_later-IsWeakOrder : {F : Type 0} → IsWeakOrder (trace_later {F = F})
trace_later-IsWeakOrder = record { asym = λ x y h. ground arith; trans = λ x y z h k. ground arith }

module _ (fl : Floats) where
  open fl use {Float}

  -- The traces that a query matches, the latest first, and each as often as it is stored.
  pub record IsTraceListing (q : TraceQuery Float) (stored found : List (Trace Float))
      : Type 0 where
    pub sorted : IsSorted trace_later found
    pub same : Perm found (keep (trace_matches fl q) stored)
    pub matching : All (λ t. trace_matches fl q t ≡ true) found

  matching_traces-IsTraceListing :
      (sorter : Sorter) (q : TraceQuery Float) (m : MemStore Float)
      → IsTraceListing q (entries m.traces) (matching_traces fl sorter q m)
  unfolding matching_traces
  matching_traces-IsTraceListing sorter q m =
      let kept = keep (trace_matches fl q) (entries m.traces) in
      let same = sorter.sort_slice-perm trace_later kept in
      record {
        sorted = sorter.sort_slice-IsSorted trace_later kept trace_later-IsWeakOrder;
        same = same;
        matching =
            All-perm (trace_matches fl q) same (keep-All (trace_matches fl q) (entries m.traces));
      }

  -- A query for a page that the numbers allow is answered with that page of the list of all matching
  -- traces, the latest first, with their messages, and with the number of all that match.
  pub list_traces_lem :
      (sorter : Sorter) (m : MemStore Float) (q : TraceQuery Float) (p k : ℕ)
      → q.page ≡ pos (suc p)
      → q.page_size ≡ pos k
      → suc p < int64_half
      → p * k < int64_half
      → length (matching_traces fl sorter q m) + k < int64_half
      → (found : List (Trace Float)) × IsTraceListing q (entries m.traces) found
        × (list_traces fl sorter m q
            ≡ some (record {
              traces = attach_messages m.spans (map trace_item (take k (drop (p * k) found)));
              pagination = record { page = q.page; page_size = q.page_size; total = length found };
            }))
  unfolding list_traces
  list_traces_lem sorter m q p k hp hk bound_p bound_pk bound =
      let found = matching_traces fl sorter q m in
      (
        found,
        matching_traces-IsTraceListing sorter q m,
        ap (trace_page fl m q (length found)) (
            ap (λ i. paginate i q.page_size found) hp
            ∙ ap (λ i. paginate (pos (suc p)) i found) hk
            ∙ paginate_lem p k found bound_p bound_pk bound),
      )
