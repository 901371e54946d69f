-- ===== src/Storage/Sessions/Groups.antt =====
-- The groups of ListSessions (internal/storage/memstore.go), one for each session that matches.
use labubu.Base.{
  suc, ◌+◌, ◌≡◌, refl, sym, ap, ◌∙◌, inl, inr, Bool, true, false, ◌&&◌, ◌||◌, Option, none, some,
  List, [], ◌∷◌, arith, if◌then◌else◌, Bool-cases, length, keep, any,
}
use labubu.Base.Str.{Str, str_eq, str_eq_iff}
use labubu.Base.Dict.{
  nat_eq, bytes_eq, Dict, lookup, insert, has, lookup-insert, Distinct, has-insert, insert-Distinct,
}
use labubu.Storage.Types.{Trace}
use labubu.Storage.Mem.{MemStore, entries}
use labubu.Storage.Sessions.{
  SessionQuery, SessionAgg, new_sums, add_trace, sum_traces, of_session, count_trace, agg_or_new,
  session_matches, matched_sessions, group_sessions, session_groups,
}
use labubu.Storage.Sessions.Summary.{agg_of}

module _ {F : Type 0} where
  abbrev fold_group : List (Trace F) → Option SessionAgg → Option SessionAgg
  fold_group [] o = o
  fold_group (t ∷ ts) o = fold_group ts (some (count_trace t (agg_or_new t o)))

  fold_group-some :
      (ts : List (Trace F)) (g : SessionAgg)
      → fold_group ts (some g)
        ≡ some (record { trace_count = g.trace_count + length ts; sums = sum_traces ts g.sums })
  unfolding sum_traces
  fold_group-some [] g =
      let e : g.trace_count ≡ g.trace_count + 0 = omega arith in
      ap (λ n. some (record { trace_count = n; sums = g.sums })) e
  fold_group-some (t ∷ ts) g =
      let e : g.trace_count + 1 + length ts ≡ g.trace_count + suc (length ts) = omega arith in
      fold_group-some ts (count_trace t g)
      ∙ ap (λ n. some (record { trace_count = n; sums = sum_traces ts (add_trace t g.sums) })) e

  fold_group-none : (ts : List (Trace F)) → fold_group ts none ≡ agg_of ts
  unfolding sum_traces
  fold_group-none [] = refl
  fold_group-none (t ∷ ts) =
      let e : 0 + 1 + length ts ≡ suc (length ts) = omega arith in
      fold_group-some ts (count_trace t (record { trace_count = 0; sums = new_sums t }))
      ∙ ap (λ n. some (record { trace_count = n; sums = sum_traces ts (add_trace t (new_sums t)) }))
          e

  lookup-group_sessions :
      (matched : Dict Str Bool) (ts : List (Trace F)) (groups : Dict Str SessionAgg) (id : Str)
      → has id matched ≡ true
      → lookup id (group_sessions matched ts groups)
        ≡ fold_group (keep (of_session id) ts) (lookup id groups)
  unfolding group_sessions keep
  lookup-group_sessions matched [] groups id h = refl
  lookup-group_sessions matched (t ∷ ts) groups id h = elim (Bool-cases (str_eq t.session_id id)) [
    | inl same ↦
        let e = (str_eq_iff t.session_id id).0 same in
        let there : has t.session_id matched ≡ true = ap (λ j. has j matched) e ∙ h in
        rw (same, there)
          (lookup-group_sessions matched ts
              (insert t.session_id (count_trace t (agg_or_new t (lookup t.session_id groups)))
                groups)
              id h
            ∙ ap (fold_group (keep (of_session id) ts)) (
                lookup-insert t.session_id id
                  (count_trace t (agg_or_new t (lookup t.session_id groups))) groups
                ∙ rw (same, e) refl))
    | inr other ↦ elim (Bool-cases (has t.session_id matched)) [
      | inl there ↦
          rw (other, there)
            (lookup-group_sessions matched ts
                (insert t.session_id (count_trace t (agg_or_new t (lookup t.session_id groups)))
                  groups)
                id h
              ∙ ap (fold_group (keep (of_session id) ts)) (
                  lookup-insert t.session_id id
                    (count_trace t (agg_or_new t (lookup t.session_id groups))) groups
                  ∙ rw other refl))
      | inr gone ↦ rw (other, gone) (lookup-group_sessions matched ts groups id h)
    ]
  ]

  -- A session that did not match has no group.
  unmatched_lem :
      (matched : Dict Str Bool) (ts : List (Trace F)) (groups : Dict Str SessionAgg) (id : Str)
      → has id matched ≡ false
      → lookup id groups ≡ none
      → lookup id (group_sessions matched ts groups) ≡ none
  unfolding group_sessions
  unmatched_lem matched [] groups id h k = k
  unmatched_lem matched (t ∷ ts) groups id h k = elim (Bool-cases (has t.session_id matched)) [
    | inl there ↦
        let other : str_eq t.session_id id ≡ false = elim (Bool-cases (str_eq t.session_id id)) [
          | inl same ↦
              same ∙ sym there ∙ ap (λ j. has j matched) ((str_eq_iff t.session_id id).0 same) ∙ h
          | inr other ↦ other
        ] in
        rw there (
          unmatched_lem matched ts
            (insert t.session_id (count_trace t (agg_or_new t (lookup t.session_id groups))) groups)
            id h
            (lookup-insert t.session_id id
                (count_trace t (agg_or_new t (lookup t.session_id groups))) groups
              ∙ rw other k))
    | inr gone ↦ rw gone (unmatched_lem matched ts groups id h k)
  ]

  group_sessions-Distinct :
      (matched : Dict Str Bool) (ts : List (Trace F)) (groups : Dict Str SessionAgg)
      → Distinct groups
      → Distinct (group_sessions matched ts groups)
  unfolding group_sessions
  group_sessions-Distinct matched [] groups d = d
  group_sessions-Distinct matched (t ∷ ts) groups d =
      let agg = count_trace t (agg_or_new t (lookup t.session_id groups)) in
      elim (Bool-cases (has t.session_id matched)) [
        | inl there ↦ rw there (
            group_sessions-Distinct matched ts (insert t.session_id agg groups)
              (insert-Distinct t.session_id agg groups d))
        | inr gone ↦ rw gone (group_sessions-Distinct matched ts groups d)
      ]

  -- What the groups hold under a name.
  pub lookup-session_groups :
      (q : SessionQuery) (m : MemStore F) (id : Str)
      → lookup id (session_groups q m) ≡ (
          if has id (matched_sessions q (entries m.traces) [])
          then agg_of (keep (of_session id) (entries m.traces))
          else none)
  unfolding session_groups lookup
  lookup-session_groups q m id =
      let matched = matched_sessions q (entries m.traces) [] in
      elim (Bool-cases (has id matched)) [
        | inl there ↦ rw there (
            lookup-group_sessions matched (entries m.traces) [] id there
            ∙ fold_group-none (keep (of_session id) (entries m.traces)))
        | inr gone ↦ rw gone (unmatched_lem matched (entries m.traces) [] id gone refl)
      ]

  -- A session matches as soon as one of its traces does.
  pub has-matched_sessions :
      (q : SessionQuery) (ts : List (Trace F)) (matched : Dict Str Bool) (id : Str)
      → has id (matched_sessions q ts matched)
        ≡ (any (λ t. session_matches q t && of_session id t) ts || has id matched)
  unfolding matched_sessions any
  has-matched_sessions q [] matched id = refl
  has-matched_sessions q (t ∷ ts) matched id = elim (Bool-cases (session_matches q t)) [
    | inl yes' ↦ rw yes' (
        has-matched_sessions q ts (insert t.session_id true matched) id
        ∙ rw (has-insert t.session_id id true matched) (ground arith))
    | inr no' ↦ rw no' (has-matched_sessions q ts matched id)
  ]

  pub session_groups-Distinct : (q : SessionQuery) (m : MemStore F) → Distinct (session_groups q m)
  unfolding session_groups
  session_groups-Distinct q m =
      group_sessions-Distinct (matched_sessions q (entries m.traces) []) (entries m.traces) [] tt

  has-group_sessions :
      (matched : Dict Str Bool) (ts : List (Trace F)) (groups : Dict Str SessionAgg) (id : Str)
      → has id (group_sessions matched ts groups)
        ≡ ((has id matched && any (of_session id) ts) || has id groups)
  unfolding group_sessions any
  has-group_sessions matched [] groups id = ground arith
  has-group_sessions matched (t ∷ ts) groups id =
      let agg = count_trace t (agg_or_new t (lookup t.session_id groups)) in
      elim (Bool-cases (str_eq t.session_id id)) [
        | inl same ↦
            let e = ap (λ j. has j matched) ((str_eq_iff t.session_id id).0 same) in
            elim (Bool-cases (has id matched)) [
              | inl there ↦
                  rw (e, there, same)
                    (has-group_sessions matched ts (insert t.session_id agg groups) id
                      ∙ rw (there, has-insert t.session_id id agg groups, same) (ground arith))
              | inr gone ↦ rw (e, gone) (has-group_sessions matched ts groups id ∙ rw gone refl)
            ]
        | inr other ↦ elim (Bool-cases (has t.session_id matched)) [
          | inl there ↦
              rw (there, other)
                (has-group_sessions matched ts (insert t.session_id agg groups) id
                  ∙ rw (has-insert t.session_id id agg groups, other) refl)
          | inr gone ↦ rw (gone, other) (has-group_sessions matched ts groups id)
        ]
      ]

  any_both :
      (p r : Trace F → Bool) (ts : List (Trace F))
      → ((any (λ t. p t && r t) ts || false) && any r ts || false) ≡ any (λ t. p t && r t) ts
  unfolding any
  any_both p r [] = refl
  any_both p r (t ∷ ts) = ground (arith, any_both p r ts)

  -- A session is listed if, and only if, one of its traces matches.
  pub has-session_groups :
      (q : SessionQuery) (m : MemStore F) (id : Str)
      → has id (session_groups q m)
        ≡ any (λ t. session_matches q t && of_session id t) (entries m.traces)
  unfolding session_groups has
  has-session_groups q m id =
      has-group_sessions (matched_sessions q (entries m.traces) []) (entries m.traces) [] id
      ∙ ap (λ b. (b && any (of_session id) (entries m.traces)) || false)
          (has-matched_sessions q (entries m.traces) [] id)
      ∙ any_both (session_matches q) (of_session id) (entries m.traces)
