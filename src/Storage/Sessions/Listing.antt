-- ===== src/Storage/Sessions/Listing.antt =====
-- What ListSessions and GetSession of internal/storage/memstore.go show.
use labubu.Base.{
  ℕ, suc, ◌+◌, ◌*◌, ◌<◌, ◌≡◌, refl, sym, ap, ◌∙◌, Bool, true, false, ◌&&◌, Option, none, some, List,
  [], ◌∷◌, map, arith, if◌then◌else◌, length, take, drop, keep, any, All,
}
use labubu.Base.Int.{pos, ltb_ℤ, int64_half}
use labubu.Base.Str.{Str}
use labubu.Base.Dict.{nat_eq, bytes_eq, has, Distinct}
use labubu.Base.Sort.{Sorter, IsSorted, IsWeakOrder}
use labubu.Base.Floats.{Floats}
use labubu.Base.Page.{paginate, paginate_lem}
use labubu.Base.Dict.{All-lookup}
use labubu.Storage.Types.{Trace}
use labubu.Storage.Mem.{MemStore, entries}
use labubu.Storage.Traces.{trace_item}
use labubu.Storage.Sessions.{
  SessionQuery, SessionAgg, SessionListItem, SessionDetail, session_detail, session_matches,
  matched_sessions, session_groups, of_session, starts_earlier, active_later, session_item,
  session_items, session_page, list_sessions, attach_to_page, detail_page, session_summary,
  session_traces, get_session,
}
use labubu.Storage.Sessions.Summary.{agg_of, agg_of-perm}
use labubu.Storage.Sessions.Totals.{described_summary, session_summary-described}
use labubu.Storage.Sessions.Groups.{
  session_groups-Distinct, lookup-session_groups, has-session_groups,
}
use mathlib.Core.List.{Perm}
use mathlib.Core.Option.{some-ne-none}

active_later-IsWeakOrder : IsWeakOrder active_later
active_later-IsWeakOrder = record {
  asym = λ x y h. ground arith;
  trans = λ x y z h k. ground arith;
}

starts_earlier-IsWeakOrder : {F : Type 0} → IsWeakOrder (starts_earlier {F = F})
starts_earlier-IsWeakOrder = record {
  asym = λ x y h. ground arith;
  trans = λ x y z h k. ground arith;
}

from_test :
    {A : Type 0} (b : Bool) (o : Option A) (a : A) → (if b then o else none) ≡ some a → o ≡ some a
from_test true o a h = h
from_test false o a h = absurd (some-ne-none a (sym h))

module _ (fl : Floats) where
  open fl use {Float}

  -- The summary that GetSession shows for sorted traces, if there are any.
  abbrev pub summary_of : Str → List (Trace Float) → Option (SessionListItem Float)
  summary_of id [] = none
  summary_of id (t ∷ ts) = some (session_summary fl id t ts)

  abbrev item_of : Str → Option SessionAgg → Option (SessionListItem Float)
  item_of id none = none
  item_of id (some g) = some (session_item fl id g.trace_count g.sums)

  summary_of-eq : (id : Str) (ts : List (Trace Float)) → summary_of id ts ≡ item_of id (agg_of ts)
  unfolding session_summary
  summary_of-eq id [] = refl
  summary_of-eq id (t ∷ ts) = refl

  -- The summaries of the listing are those of GetSession.
  groups_lem :
      (sorter : Sorter) (m : MemStore Float) (q : SessionQuery)
      → All
          (λ (e : Str × SessionAgg).
            summary_of e.0 (session_traces fl sorter m e.0)
            ≡ some (session_item fl e.0 e.1.trace_count e.1.sums))
          (session_groups q m)
  unfolding session_traces
  groups_lem sorter m q =
      All-lookup _ (session_groups q m) (session_groups-Distinct q m) (λ id g found.
        let kept = keep (of_session id) (entries m.traces) in
        let same : agg_of kept ≡ some g =
          from_test (has id (matched_sessions q (entries m.traces) [])) (agg_of kept) g
            (sym (lookup-session_groups q m id) ∙ found) in
        summary_of-eq id (sorter.sort_slice starts_earlier kept)
        ∙ ap (item_of id) (agg_of-perm (sorter.sort_slice-perm starts_earlier kept) ∙ same))

  -- The sessions that a query lists, with what their traces add up to: the one that was active last
  -- first, each with the summary that GetSession shows, and each that has a matching trace.
  pub record IsSessionListing (sorter : Sorter) (q : SessionQuery) (m : MemStore Float)
      (found : List (Str × SessionAgg)) : Type 0 where
    pub sorted : IsSorted active_later found
    pub same : Perm found (session_groups q m)
    pub summaries :
        All
          (λ (e : Str × SessionAgg).
            summary_of e.0 (session_traces fl sorter m e.0)
            ≡ some (session_item fl e.0 e.1.trace_count e.1.sums))
          (session_groups q m)
    pub distinct : Distinct (session_groups q m)
    pub listed :
        (id : Str)
        → has id (session_groups q m)
          ≡ any (λ t. session_matches q t && of_session id t) (entries m.traces)

  -- A query for a page that the numbers allow is answered with that page of the sessions that have a
  -- matching trace, the last active first. The summary of each is the one that GetSession gives.
  pub list_sessions_lem :
      (sorter : Sorter) (m : MemStore Float) (q : SessionQuery) (p k : ℕ)
      → q.page ≡ pos (suc p)
      → q.page_size ≡ pos k
      → suc p < int64_half
      → p * k < int64_half
      → length (sorter.sort_slice active_later (session_groups q m)) + k < int64_half
      → (found : List (Str × SessionAgg)) × IsSessionListing sorter q m found
        × (list_sessions fl sorter m q
            ≡ some (record {
              sessions = session_items fl (take k (drop (p * k) found));
              pagination = record { page = q.page; page_size = q.page_size; total = length found };
            }))
  unfolding list_sessions
  list_sessions_lem sorter m q p k hp hk bound_p bound_pk bound =
      let found = sorter.sort_slice active_later (session_groups q m) in
      (
        found,
        record {
          sorted =
              sorter.sort_slice-IsSorted active_later (session_groups q m) active_later-IsWeakOrder;
          same = sorter.sort_slice-perm active_later (session_groups q m);
          summaries = groups_lem sorter m q;
          distinct = session_groups-Distinct q m;
          listed = has-session_groups q m;
        },
        ap (session_page fl q (length found)) (
            ap (λ i. paginate i q.page_size found) hp
            ∙ ap (λ i. paginate (pos (suc p)) i found) hk
            ∙ paginate_lem p k found bound_p bound_pk bound),
      )

  abbrev pub described_session :
      MemStore Float → Str → ℕ → ℕ → List (Trace Float) → Option (SessionDetail Float)
  described_session m id p k [] = none
  described_session m id p k (t ∷ ts) = some (record {
    session = described_summary fl id t ts;
    traces = attach_to_page fl m.spans (take k (drop (p * k) (map trace_item (t ∷ ts))));
    pagination = record {
      page = pos (suc p);
      page_size = pos k;
      total = length (map trace_item (t ∷ ts));
    };
  })

  session_detail_lem :
      (m : MemStore Float) (id : Str) (p k : ℕ) (ts : List (Trace Float))
      → suc p < int64_half
      → p * k < int64_half
      → length (map trace_item ts) + k < int64_half
      → session_detail fl m id (pos (suc p)) (pos k) ts ≡ some (described_session m id p k ts)
  session_detail_lem m id p k [] bound_p bound_pk bound = refl
  session_detail_lem m id p k (t ∷ ts) bound_p bound_pk bound =
      ap
        (λ summary.
          detail_page fl m summary (pos (suc p)) (pos k) (length (map trace_item (t ∷ ts)))
            (paginate (pos (suc p)) (pos k) (map trace_item (t ∷ ts))))
        (session_summary-described fl id t ts)
      ∙ ap
          (detail_page fl m (described_summary fl id t ts) (pos (suc p)) (pos k)
            (length (map trace_item (t ∷ ts))))
          (paginate_lem p k (map trace_item (t ∷ ts)) bound_p bound_pk bound)

  -- The traces of one session, the earliest first, and each as often as it is stored.
  pub record IsSessionTraces (id : Str) (stored found : List (Trace Float)) : Type 0 where
    pub sorted : IsSorted starts_earlier found
    pub same : Perm found (keep (of_session id) stored)

  -- GetSession answers with the page asked for of all traces of the session, the earliest first, and
  -- with their summary: how many there are, their tokens, durations, failures and times together.
  pub get_session_lem :
      (sorter : Sorter) (m : MemStore Float) (id : Str) (p k : ℕ)
      → suc p < int64_half
      → p * suc k < int64_half
      → length (map trace_item (session_traces fl sorter m id)) + suc k < int64_half
      → (found : List (Trace Float)) × IsSessionTraces id (entries m.traces) found
        × (get_session fl sorter m id (pos (suc p)) (pos (suc k))
            ≡ some (described_session m id p (suc k) found))
  unfolding get_session session_traces
  get_session_lem sorter m id p k bound_p bound_pk bound =
      let kept = keep (of_session id) (entries m.traces) in
      let first_page : ltb_ℤ (pos (suc p)) (pos 1) ≡ false = ground arith in
      let size : ltb_ℤ (pos (suc k)) (pos 1) ≡ false = ground arith in
      (
        sorter.sort_slice starts_earlier kept,
        record {
          sorted = sorter.sort_slice-IsSorted starts_earlier kept starts_earlier-IsWeakOrder;
          same = sorter.sort_slice-perm starts_earlier kept;
        },
        rw (first_page, size)
            (session_detail_lem m id p (suc k) (sorter.sort_slice starts_earlier kept) bound_p
              bound_pk bound),
      )
