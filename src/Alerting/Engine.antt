-- ===== src/Alerting/Engine.antt =====
-- Evaluate of internal/alerting/engine.go: one cycle over the rules that are due.
pub mod Alert
pub mod Cycle
pub mod Story
use labubu.Base.{
  ℕ, zero, suc, ◌+◌, ◌-◌, ◌*◌, ◌≤◌, ◌<◌, ◌≡◌, refl, sym, ap, ◌∙◌, ◌≢◌, ◌↔◌, ◌⊎◌, inl, inr, Bool,
  true, false, not, ◌&&◌, ◌||◌, Option, none, some, List, [], ◌∷◌, ◌++◌, map, arith, ltb, leb, ◌==◌,
  ==_iff, if◌then◌else◌, Bool-cases, Option-cases, length, take, drop, keep, count, any, all, All,
  length-append, length-keep, count_split, keep-append, keep-All,
}
use labubu.Base.Int.{
  ℤ, pos, negsuc, pos_part, neg_part, ◌+ℤ◌, ◌-ℤ◌, ◌≤ℤ◌, ◌<ℤ◌, ltb_ℤ, leb_ℤ, to_int64, int_laws,
}
use labubu.Base.Str.{Str, codes, str_eq, str_eq_iff, str_eq_self, is_empty}
use labubu.Base.Dict.{
  Eq, nat_eq, bytes_eq, Dict, lookup, insert, delete, has, lookup-insert, lookup-insert_self,
  lookup-delete,
}
use labubu.Base.Sort.{
  Sorter, IsSorted, IsWeakOrder, insertion_sort, insertion, count-perm, length-perm, All-perm,
}
use labubu.Base.Strconv.{parse_uint, parse_uint-lt}
use labubu.Base.Time.{Time, Duration, seconds, sub_time, seconds-eq_of_lt}
use labubu.Alerting.Types.{
  Rule, AlertStatus, ok, pending, firing, resolved, other, AlertState, NotifierConfig, TraceData,
  is_firing, is_resolved,
}
use labubu.Alerting.Conditions.{evaluate_conditions}
use labubu.Alerting.Machine.{drive_state_machine}
use labubu.Alerting.Store.{Write, Error, RuleStore, upsert_alert_state, get_alert_state, list_rules}

pub data Action : Type 0 where
  fire_action resolve_action : Action

-- The fields `State` and `Alert` hold the same value.
pub record AlertEvent (Notifier : Type 0) : Type 0 where
  pub rule : Rule
  pub state : AlertState
  pub alert : AlertState
  pub trace : TraceData
  pub notifier : Notifier
  pub action : Action

abbrev pub first_seen : Str → Rule → TraceData → Time → AlertState
first_seen id rule trace now = record {
  id = id;
  rule_id = rule.id;
  trace_id_hex = trace.id;
  status = other [];
  triggered_at = now;
  last_fired_at = none;
  resolved_at = none;
}

abbrev pub base_state : Str → Rule → TraceData → Time → Option AlertState → AlertState
base_state id rule trace now none = first_seen id rule trace now
base_state id rule trace now (some s) = s

-- The new status, and the two times that go with it.
abbrev pub stamp : AlertState → AlertStatus → Time → AlertState
stamp s new_status now = record s {
  status = new_status;
  last_fired_at =
      if is_firing new_status && not (is_firing s.status) then some now else s.last_fired_at;
  resolved_at = if is_resolved new_status then some now else s.resolved_at;
}

-- The state that is stored for one trace, and whether to notify.
unfoldable pub next_state : Str → Rule → TraceData → Time → Option AlertState → AlertState × Bool
next_state id rule trace now existing =
    let (new_status, should_notify) =
      drive_state_machine existing (evaluate_conditions rule.conditions trace) rule.for_duration
        now in
    (stamp (base_state id rule trace now existing) new_status now, should_notify)

abbrev pub action_of : AlertStatus → Action
action_of new_status = if is_resolved new_status then resolve_action else fire_action

abbrev pub Factory : Type 0 → Type 0
Factory Notifier = NotifierConfig → Option Notifier

abbrev pub built : {N : Type 0} → Option (Factory N) → NotifierConfig → Option N
built none cfg = none
built (some factory) cfg = factory cfg

-- The store of the engine, and when each rule was last evaluated.
pub record Engine : Type 0 where
  pub store : RuleStore
  pub last_eval : Dict Str Time

-- Seconds of the rule, or a minute where these are not positive.
unfoldable pub interval_of : Rule → Duration
interval_of rule =
    if leb_ℤ (seconds rule.interval) (pos 0) then pos 60000000000 else seconds rule.interval

-- Whether the rule's interval has gone by since `last`.
abbrev pub is_due : Time → Rule → Option Time → Bool
is_due now rule none = true
is_due now rule (some last) = not (ltb_ℤ (sub_time now last) (interval_of rule))

unfoldable pub since_of : Time → Rule → Time
unfolding ◌+ℤ◌ ◌-ℤ◌ interval_of
since_of now rule =
    now +ℤ to_int64 (to_int64 (pos 0 -ℤ interval_of rule) -ℤ seconds rule.for_duration)

-- `disk n` is what becomes of the write number `n`, `uuid n` the identifier drawn before it, and
-- `fetch` the trace fetcher; a factory or a fetcher that fails returns `none`.
module _ {N : Type 0} (disk : ℕ → Write) (uuid : ℕ → Str) (registry : Dict Str (Factory N))
    (fetch : Time → Option (List TraceData)) (now : Time) where
  -- The event of one trace, if its state was stored, a notification is due and a notifier is built.
  unfoldable pub announce :
      Option Error → Bool → Rule → TraceData → AlertState → List (AlertEvent N)
  announce (some e) should_notify rule trace state = []
  announce none false rule trace state = []
  announce none true rule trace state =
      elim (built (lookup rule.notifier.type registry) rule.notifier) [
        | none ↦ []
        | some n ↦
            record {
              rule = rule;
              state = state;
              alert = state;
              trace = trace;
              notifier = n;
              action = action_of state.status;
            }
            ∷ []
      ]

  -- The body of the loop over the traces.
  unfoldable pub evaluate_trace :
      Rule → TraceData → RuleStore × List (AlertEvent N) → RuleStore × List (AlertEvent N)
  unfolding announce
  evaluate_trace rule trace (store, events) =
      let existing = get_alert_state store rule.id trace.id in
      let (state, should_notify) = next_state (uuid store.saves) rule trace now existing in
      let (store', err) = upsert_alert_state disk store state in
      (store', events ++ announce err should_notify rule trace state)

  unfoldable pub evaluate_traces :
      Rule → List TraceData → RuleStore × List (AlertEvent N) → RuleStore × List (AlertEvent N)
  evaluate_traces rule [] acc = acc
  evaluate_traces rule (t ∷ ts) acc = evaluate_traces rule ts (evaluate_trace rule t acc)

  -- What follows the fetch; a rule whose fetcher fails is skipped.
  unfoldable pub evaluate_fetched :
      Rule → Option (List TraceData) → Engine × List (AlertEvent N) → Engine × List (AlertEvent N)
  unfolding evaluate_traces
  evaluate_fetched rule none acc = acc
  evaluate_fetched rule (some traces) (engine, events) =
      let (store', events') = evaluate_traces rule traces (engine.store, events) in
      (record engine { store = store' }, events')

  -- The body of the loop over the rules.
  unfoldable pub evaluate_rule : Rule → Engine × List (AlertEvent N) → Engine × List (AlertEvent N)
  unfolding evaluate_fetched
  evaluate_rule rule (engine, events) =
      if not rule.enabled
      then (engine, events)
      else if not (is_due now rule (lookup rule.id engine.last_eval))
      then (engine, events)
      else evaluate_fetched rule (fetch (since_of now rule))
          (record engine { last_eval = insert rule.id now engine.last_eval }, events)

  unfoldable pub evaluate_rules :
      List Rule → Engine × List (AlertEvent N) → Engine × List (AlertEvent N)
  evaluate_rules [] acc = acc
  evaluate_rules (r ∷ rs) acc = evaluate_rules rs (evaluate_rule r acc)

  unfoldable pub evaluate : Sorter → Engine → Engine × List (AlertEvent N)
  unfolding evaluate_rules
  evaluate sorter engine = evaluate_rules (list_rules sorter engine.store) (engine, [])
