-- ===== src/Alerting/Engine/Cycle.antt =====
-- What one evaluation cycle (Evaluate of internal/alerting/engine.go) does to the store, and the
-- events that it returns.
use labubu.Base.{
  All-append, ℕ, ◌≡◌, refl, ◌∙◌, ◌⊎◌, inl, inr, Bool, true, false, ◌&&◌, Option, none, some, List,
  [], ◌∷◌, ◌++◌, arith, Bool-cases, Option-cases, All,
}
use labubu.Base.Str.{Str}
use labubu.Base.Dict.{nat_eq, bytes_eq, Dict, lookup, insert, lookup-insert_self}
use labubu.Base.Sort.{Sorter}
use labubu.Base.Time.{Time}
use labubu.Alerting.Types.{Rule, firing, resolved, AlertState, TraceData}
use labubu.Alerting.Conditions.{evaluate_conditions}
use labubu.Alerting.Machine.{drive_state_machine, switch_status}
use labubu.Alerting.Store.{Write, Error, RuleStore, upsert_alert_state, get_alert_state, list_rules}
use labubu.Alerting.Store.Laws.{IsKeyed, upsert_alert_state-IsKeyed, save_locked-rules}
use mathlib.Core.List.{append-nil}
use labubu.Alerting.Engine.{
  AlertEvent, fire_action, resolve_action, Factory, Engine, next_state, announce, evaluate_trace,
  evaluate_traces, evaluate_fetched, evaluate_rule, evaluate_rules, evaluate, is_due, built,
  since_of,
}

-- A notification goes with the status "firing" while the conditions are met, or with the status
-- "resolved" while they are not.
next_state-notify :
    (id : Str) (rule : Rule) (trace : TraceData) (now : Time) (existing : Option AlertState)
    → (next_state id rule trace now existing).1 ≡ true
    → ((next_state id rule trace now existing).0.status ≡ firing)
        × (evaluate_conditions rule.conditions trace ≡ true)
      ⊎ ((next_state id rule trace now existing).0.status ≡ resolved)
        × (evaluate_conditions rule.conditions trace ≡ false)
unfolding next_state drive_state_machine switch_status
next_state-notify id rule trace now none h = ground arith
next_state-notify id rule trace now (some s) h = ground arith

upsert_alert_state-rules :
    (disk : ℕ → Write) (s : RuleStore) (st : AlertState)
    → (upsert_alert_state disk s st).0.rules ≡ s.rules
unfolding upsert_alert_state
upsert_alert_state-rules disk s st = save_locked-rules disk _

module _ {N : Type 0} where
  -- An event names an enabled rule, and either it announces that the alert fires, with the rule's
  -- conditions met by the trace and the state firing, or that it is resolved, with the conditions
  -- no longer met and the state resolved.
  pub record IsJustified (ev : AlertEvent N) : Type 0 where
    pub enabled : ev.rule.enabled ≡ true
    pub reason :
        (ev.action ≡ fire_action)
          × (ev.state.status ≡ firing)
          × (evaluate_conditions ev.rule.conditions ev.trace ≡ true)
        ⊎ (ev.action ≡ resolve_action)
          × (ev.state.status ≡ resolved)
          × (evaluate_conditions ev.rule.conditions ev.trace ≡ false)
    pub same : ev.alert ≡ ev.state

  -- How a store comes to be from another one with these events: alert states are written one after
  -- the other, and an event goes with the writing of its own state, which did not fail.
  pub data History (disk : ℕ → Write) (s : RuleStore)
      : RuleStore → List (AlertEvent N) → Type 0 where
    starts : History disk s s []
    writes :
        {t : RuleStore} {events : List (AlertEvent N)} (st : AlertState)
        → History disk s t events
        → History disk s (upsert_alert_state disk t st).0 events
    tells :
        {t : RuleStore} {events : List (AlertEvent N)} (ev : AlertEvent N)
        → History disk s t events
        → (upsert_alert_state disk t ev.state).1 ≡ none
        → History disk s (upsert_alert_state disk t ev.state).0 (events ++ ev ∷ [])

  -- What a cycle keeps: the invariant of the store, its rules, and events that are justified, each
  -- with the state that was written for it.
  pub record Keeps (disk : ℕ → Write) (s : RuleStore) (t : RuleStore) (events : List (AlertEvent N))
      : Type 0 where
    pub keyed : IsKeyed t
    pub rules : t.rules ≡ s.rules
    pub justified : All IsJustified events
    pub history : History disk s t events

module _ {N : Type 0} (disk : ℕ → Write) (uuid : ℕ → Str) (registry : Dict Str (Factory N))
    (fetch : Time → Option (List TraceData)) (now : Time) where
  announce-IsJustified :
      (err : Option Error) (due : Bool) (rule : Rule) (trace : TraceData) (state : AlertState)
      → rule.enabled ≡ true
      → (due ≡ true
          → (state.status ≡ firing) × (evaluate_conditions rule.conditions trace ≡ true)
            ⊎ (state.status ≡ resolved) × (evaluate_conditions rule.conditions trace ≡ false))
      → All IsJustified (announce disk uuid registry fetch now err due rule trace state)
  unfolding announce
  announce-IsJustified (some e) due rule trace state on reason = tt
  announce-IsJustified none false rule trace state on reason = tt
  announce-IsJustified none true rule trace state on reason =
      elim (Option-cases (built (lookup rule.notifier.type registry) rule.notifier)) [
        | inl e ↦ rw (e, announce) tt
        | inr (n, e) ↦
            rw (e, announce)
              (record { enabled = on; reason = ground (arith, reason refl); same = refl }, tt)
      ]

  announce-History :
      (s t : RuleStore) (events : List (AlertEvent N)) (err : Option Error) (due : Bool)
      (rule : Rule) (trace : TraceData) (state : AlertState)
      → (upsert_alert_state disk t state).1 ≡ err
      → History disk s t events
      → History disk s
          (upsert_alert_state disk t state).0
          (events ++ announce disk uuid registry fetch now err due rule trace state)
  unfolding announce
  announce-History s t events (some e) due rule trace state failed h =
      rw append-nil (History.writes state h)
  announce-History s t events none false rule trace state stored h =
      rw append-nil (History.writes state h)
  announce-History s t events none true rule trace state stored h =
      elim (Option-cases (built (lookup rule.notifier.type registry) rule.notifier)) [
        | inl e ↦ rw (e, announce, append-nil) (History.writes state h)
        | inr (n, e) ↦ rw (e, announce) (History.tells _ h stored)
      ]

  evaluate_trace-Keeps :
      (s : RuleStore) (rule : Rule) (trace : TraceData) (t : RuleStore)
      (events : List (AlertEvent N))
      → rule.enabled ≡ true
      → Keeps disk s t events
      → Keeps disk s
          (evaluate_trace disk uuid registry fetch now rule trace (t, events)).0
          (evaluate_trace disk uuid registry fetch now rule trace (t, events)).1
  unfolding evaluate_trace
  evaluate_trace-Keeps s rule trace t events on k =
      let existing = get_alert_state t rule.id trace.id in
      let next = next_state (uuid t.saves) rule trace now existing in
      record {
        keyed = upsert_alert_state-IsKeyed disk t next.0 k.keyed;
        rules = upsert_alert_state-rules disk t next.0 ∙ k.rules;
        justified = All-append IsJustified events _ k.justified (
            announce-IsJustified (upsert_alert_state disk t next.0).1 next.1 rule trace next.0 on
              (next_state-notify (uuid t.saves) rule trace now existing));
        history =
            announce-History s t events (upsert_alert_state disk t next.0).1 next.1 rule trace
              next.0 refl k.history;
      }

  evaluate_traces-Keeps :
      (s : RuleStore) (rule : Rule) (traces : List TraceData) (t : RuleStore)
      (events : List (AlertEvent N))
      → rule.enabled ≡ true
      → Keeps disk s t events
      → Keeps disk s
          (evaluate_traces disk uuid registry fetch now rule traces (t, events)).0
          (evaluate_traces disk uuid registry fetch now rule traces (t, events)).1
  unfolding evaluate_traces
  evaluate_traces-Keeps s rule [] t events on k = k
  evaluate_traces-Keeps s rule (trace ∷ traces) t events on k =
      let r = evaluate_trace disk uuid registry fetch now rule trace (t, events) in
      evaluate_traces-Keeps s rule traces r.0 r.1 on
        (evaluate_trace-Keeps s rule trace t events on k)

  evaluate_fetched-Keeps :
      (s : RuleStore) (rule : Rule) (found : Option (List TraceData)) (e : Engine)
      (events : List (AlertEvent N))
      → rule.enabled ≡ true
      → Keeps disk s e.store events
      → Keeps disk s
          (evaluate_fetched disk uuid registry fetch now rule found (e, events)).0.store
          (evaluate_fetched disk uuid registry fetch now rule found (e, events)).1
  unfolding evaluate_fetched
  evaluate_fetched-Keeps s rule none e events on k = k
  evaluate_fetched-Keeps s rule (some traces) e events on k =
      evaluate_traces-Keeps s rule traces e.store events on k

  evaluate_rule-Keeps :
      (s : RuleStore) (rule : Rule) (e : Engine) (events : List (AlertEvent N))
      → Keeps disk s e.store events
      → Keeps disk s
          (evaluate_rule disk uuid registry fetch now rule (e, events)).0.store
          (evaluate_rule disk uuid registry fetch now rule (e, events)).1
  unfolding evaluate_rule
  evaluate_rule-Keeps s rule e events k = elim (Bool-cases rule.enabled) [
    | inr off ↦ simp off k
    | inl on ↦ elim (Bool-cases (is_due now rule (lookup rule.id e.last_eval))) [
      | inr early ↦ simp (on, early) k
      | inl due ↦
          simp (on, due)
            (evaluate_fetched-Keeps s rule (fetch (since_of now rule))
              (record e { last_eval = insert rule.id now e.last_eval }) events on k)
    ]
  ]

  evaluate_rules-Keeps :
      (s : RuleStore) (rules : List Rule) (e : Engine) (events : List (AlertEvent N))
      → Keeps disk s e.store events
      → Keeps disk s
          (evaluate_rules disk uuid registry fetch now rules (e, events)).0.store
          (evaluate_rules disk uuid registry fetch now rules (e, events)).1
  unfolding evaluate_rules
  evaluate_rules-Keeps s [] e events k = k
  evaluate_rules-Keeps s (rule ∷ rules) e events k =
      let r = evaluate_rule disk uuid registry fetch now rule (e, events) in
      evaluate_rules-Keeps s rules r.0 r.1 (evaluate_rule-Keeps s rule e events k)

  -- A cycle keeps the invariant of the store and all of its rules, whatever the file system, the
  -- fetcher and the notifier factories do, and every event that it returns is justified: it names an
  -- enabled rule, and goes with a state firing while the trace meets the conditions, or resolved
  -- while it does not; the store comes from writing states one after the other, the state of each
  -- event among them, which did not fail.
  pub evaluate-Keeps :
      (sorter : Sorter) (e : Engine)
      → IsKeyed e.store
      → Keeps disk e.store
          (evaluate disk uuid registry fetch now sorter e).0.store
          (evaluate disk uuid registry fetch now sorter e).1
  unfolding evaluate
  evaluate-Keeps sorter e h =
      evaluate_rules-Keeps e.store (list_rules sorter e.store) e []
        (record { keyed = h; rules = refl; justified = tt; history = History.starts })

  evaluate_fetched-last_eval :
      (rule : Rule) (found : Option (List TraceData)) (e : Engine) (events : List (AlertEvent N))
      → (evaluate_fetched disk uuid registry fetch now rule found (e, events)).0.last_eval
        ≡ e.last_eval
  unfolding evaluate_fetched
  evaluate_fetched-last_eval rule none e events = refl
  evaluate_fetched-last_eval rule (some traces) e events = refl

  -- A rule that is disabled, or whose interval has not gone by since its last evaluation, changes
  -- nothing and announces nothing; one that is evaluated is noted with the present time, also where
  -- the fetcher fails.
  pub evaluate_rule_gate :
      (rule : Rule) (e : Engine) (events : List (AlertEvent N))
      → ((rule.enabled && is_due now rule (lookup rule.id e.last_eval)) ≡ false
          → evaluate_rule disk uuid registry fetch now rule (e, events) ≡ (e, events))
        × ((rule.enabled && is_due now rule (lookup rule.id e.last_eval)) ≡ true
            → lookup rule.id
                (evaluate_rule disk uuid registry fetch now rule (e, events)).0.last_eval
              ≡ some now)
  unfolding evaluate_rule
  evaluate_rule_gate rule e events = elim (Bool-cases rule.enabled) [
    | inr off ↦ simp off (λ h. refl, λ h. cc)
    | inl on ↦ elim (Bool-cases (is_due now rule (lookup rule.id e.last_eval))) [
      | inr early ↦ simp (on, early) (λ h. refl, λ h. cc)
      | inl due ↦
          simp (on, due)
            (
              λ h. cc,
              λ h.
                  rw
                    (evaluate_fetched-last_eval rule (fetch (since_of now rule))
                      (record e { last_eval = insert rule.id now e.last_eval }) events)
                    (lookup-insert_self rule.id now e.last_eval),
            )
    ]
  ]
