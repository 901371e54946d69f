-- ===== src/Alerting/Engine/Story/Runs.antt =====
-- The events of successive calls of Evaluate (internal/alerting/engine.go), step by step.
use labubu.Base.{
  ℕ, ◌≡◌, refl, sym, ap, ◌∙◌, inl, inr, Bool, true, false, Option, none, some, List, [], ◌∷◌, ◌++◌,
  arith, if◌then◌else◌, Bool-cases, Option-cases, All,
}
use labubu.Base.Str.{Str, str_eq, str_eq_iff}
use labubu.Base.Dict.{nat_eq, bytes_eq, Dict, lookup, insert, lookup-insert}
use labubu.Base.Sort.{Sorter, All-perm}
use labubu.Base.Time.{Time}
use labubu.Alerting.Types.{Rule, AlertState, TraceData}
use labubu.Alerting.Store.{
  Write, written, PersistedData, RuleStore, state_key, values, saved_as, save_locked,
  upsert_alert_state, get_alert_state, list_rules, newer_rule,
}
use labubu.Alerting.Store.Laws.{IsKeyed, upsert_alert_state-IsKeyed}
use labubu.Alerting.Engine.{
  AlertEvent, Factory, Engine, next_state, announce, evaluate_trace, evaluate_traces,
  evaluate_fetched, evaluate_rule, evaluate_rules, evaluate, is_due, built, since_of,
}
use labubu.Alerting.Engine.Alert.{is_on}
use labubu.Alerting.Engine.Cycle.{evaluate-Keeps}
use labubu.Alerting.Engine.Story.{
  announced, ends_on, Outcome-announced, next_state_key, next_state-Outcome, actions_at, Tells,
  Tells-trans, can_notify,
}

module _ {N : Type 0} (json : ℕ → PersistedData → PersistedData) (uuid : ℕ → Str)
    (registry : Dict Str (Factory N)) (fetch : Time → Option (List TraceData)) (now : Time) where
  -- Every write succeeds.
  abbrev sound : ℕ → Write
  sound n = written (json n)

  stored_states :
      (t : RuleStore) (st : AlertState)
      → (upsert_alert_state sound t st).0.states
        ≡ insert (state_key st.rule_id st.trace_id_hex) st t.states
  unfolding upsert_alert_state save_locked saved_as
  stored_states t st = refl

  stored_error : (t : RuleStore) (st : AlertState) → (upsert_alert_state sound t st).1 ≡ none
  unfolding upsert_alert_state save_locked saved_as
  stored_error t st = refl

  actions_at-announce :
      (k : Str) (n : Bool) (rule : Rule) (trace : TraceData) (st : AlertState)
      → can_notify registry rule ≡ true
      → actions_at k (announce sound uuid registry fetch now none n rule trace st)
        ≡ (if str_eq (state_key st.rule_id st.trace_id_hex) k then announced st.status n else [])
  unfolding announce
  actions_at-announce k false rule trace st can =
      elim (Bool-cases (str_eq (state_key st.rule_id st.trace_id_hex) k)) [
        | inl here ↦ rw here refl
        | inr away ↦ rw away refl
      ]
  actions_at-announce k true rule trace st can =
      elim (Option-cases (built (lookup rule.notifier.type registry) rule.notifier)) [
        | inl gone ↦ let clash : false ≡ true = rw gone at can in absurd (ground (arith, clash))
        | inr (notifier, there) ↦ rw (there, announce) refl
      ]

  evaluate_trace-Tells :
      (k : Str) (rule : Rule) (trace : TraceData) (t : RuleStore)
      → can_notify registry rule ≡ true
      → IsKeyed t
      → Tells k t
          (upsert_alert_state sound t
            (next_state
              (uuid t.saves)
              rule
              trace
              now
              (lookup (state_key rule.id trace.id) t.states)).0).0
          (announce sound uuid registry fetch now none
            (next_state
              (uuid t.saves)
              rule
              trace
              now
              (lookup (state_key rule.id trace.id) t.states)).1
            rule
            trace
            (next_state
              (uuid t.saves)
              rule
              trace
              now
              (lookup (state_key rule.id trace.id) t.states)).0)
  evaluate_trace-Tells k rule trace t can h =
      let key = state_key rule.id trace.id in
      let existing = lookup key t.states in
      let next = next_state (uuid t.saves) rule trace now existing in
      let own : state_key next.0.rule_id next.0.trace_id_hex ≡ key =
        next_state_key (uuid t.saves) rule trace now t.states h.states_keyed in
      let said = actions_at-announce k next.1 rule trace next.0 can in
      let stored =
        ap (lookup k) (stored_states t next.0)
        ∙ lookup-insert (state_key next.0.rule_id next.0.trace_id_hex) k next.0 t.states in
      elim (Bool-cases (str_eq (state_key next.0.rule_id next.0.trace_id_hex) k)) [
        | inl here ↦
            let same : key ≡ k = sym own ∙ (str_eq_iff _ k).0 here in
            let (turn, end) =
              Outcome-announced (is_on existing) next.0.status next.1
                (next_state-Outcome (uuid t.saves) rule trace now existing) in
            let was : is_on existing ≡ is_on (lookup k t.states) =
              ap (λ j. is_on (lookup j t.states)) same in
            let heard = said ∙ ap (λ b. if b then announced next.0.status next.1 else []) here in
            let kept = stored ∙ ap (λ b. if b then some next.0 else lookup k t.states) here in
            record {
              alternates = rw (heard, ← was) turn;
              ends =
                  ap (ends_on (is_on (lookup k t.states))) heard
                  ∙ ap (λ b. ends_on b (announced next.0.status next.1)) (sym was)
                  ∙ end
                  ∙ sym (ap is_on kept);
            }
        | inr away ↦
            let heard = said ∙ ap (λ b. if b then announced next.0.status next.1 else []) away in
            let kept = stored ∙ ap (λ b. if b then some next.0 else lookup k t.states) away in
            record {
              alternates = rw heard tt;
              ends = ap (ends_on (is_on (lookup k t.states))) heard ∙ sym (ap is_on kept);
            }
      ]

  -- What the loops keep: the invariant of the store, and the story of the alert so far.
  record Lives (k : Str) (s t : RuleStore) (events : List (AlertEvent N)) : Type 0 where
    keyed : IsKeyed t
    tells : Tells k s t events

  evaluate_trace-Lives :
      (k : Str) (s : RuleStore) (rule : Rule) (trace : TraceData) (t : RuleStore)
      (events : List (AlertEvent N))
      → can_notify registry rule ≡ true
      → Lives k s t events
      → Lives k s
          (evaluate_trace sound uuid registry fetch now rule trace (t, events)).0
          (evaluate_trace sound uuid registry fetch now rule trace (t, events)).1
  unfolding evaluate_trace get_alert_state
  evaluate_trace-Lives k s rule trace t events can h =
      let next =
        next_state (uuid t.saves) rule trace now (lookup (state_key rule.id trace.id) t.states) in
      record {
        keyed = upsert_alert_state-IsKeyed sound t next.0 h.keyed;
        tells = rw (stored_error t next.0) (
            Tells-trans k s t (upsert_alert_state sound t next.0).0 events
              (announce sound uuid registry fetch now none next.1 rule trace next.0) h.tells
              (evaluate_trace-Tells k rule trace t can h.keyed));
      }

  evaluate_traces-Lives :
      (k : Str) (s : RuleStore) (rule : Rule) (traces : List TraceData) (t : RuleStore)
      (events : List (AlertEvent N))
      → can_notify registry rule ≡ true
      → Lives k s t events
      → Lives k s
          (evaluate_traces sound uuid registry fetch now rule traces (t, events)).0
          (evaluate_traces sound uuid registry fetch now rule traces (t, events)).1
  unfolding evaluate_traces
  evaluate_traces-Lives k s rule [] t events can h = h
  evaluate_traces-Lives k s rule (trace ∷ traces) t events can h =
      let r = evaluate_trace sound uuid registry fetch now rule trace (t, events) in
      evaluate_traces-Lives k s rule traces r.0 r.1 can
        (evaluate_trace-Lives k s rule trace t events can h)

  evaluate_fetched-Lives :
      (k : Str) (s : RuleStore) (rule : Rule) (found : Option (List TraceData)) (e : Engine)
      (events : List (AlertEvent N))
      → can_notify registry rule ≡ true
      → Lives k s e.store events
      → Lives k s
          (evaluate_fetched sound uuid registry fetch now rule found (e, events)).0.store
          (evaluate_fetched sound uuid registry fetch now rule found (e, events)).1
  unfolding evaluate_fetched
  evaluate_fetched-Lives k s rule none e events can h = h
  evaluate_fetched-Lives k s rule (some traces) e events can h =
      evaluate_traces-Lives k s rule traces e.store events can h

  evaluate_rule-Lives :
      (k : Str) (s : RuleStore) (rule : Rule) (e : Engine) (events : List (AlertEvent N))
      → can_notify registry rule ≡ true
      → Lives k s e.store events
      → Lives k s
          (evaluate_rule sound uuid registry fetch now rule (e, events)).0.store
          (evaluate_rule sound uuid registry fetch now rule (e, events)).1
  unfolding evaluate_rule
  evaluate_rule-Lives k s rule e events can h = elim (Bool-cases rule.enabled) [
    | inr off ↦ simp off h
    | inl on ↦ elim (Bool-cases (is_due now rule (lookup rule.id e.last_eval))) [
      | inr early ↦ simp (on, early) h
      | inl due ↦
          simp (on, due)
            (evaluate_fetched-Lives k s rule (fetch (since_of now rule))
              (record e { last_eval = insert rule.id now e.last_eval }) events can h)
    ]
  ]

  evaluate_rules-Lives :
      (k : Str) (s : RuleStore) (rules : List Rule) (e : Engine) (events : List (AlertEvent N))
      → All (λ rule. can_notify registry rule ≡ true) rules
      → Lives k s e.store events
      → Lives k s
          (evaluate_rules sound uuid registry fetch now rules (e, events)).0.store
          (evaluate_rules sound uuid registry fetch now rules (e, events)).1
  unfolding evaluate_rules
  evaluate_rules-Lives k s [] e events can h = h
  evaluate_rules-Lives k s (rule ∷ rules) e events can h =
      let r = evaluate_rule sound uuid registry fetch now rule (e, events) in
      evaluate_rules-Lives k s rules r.0 r.1 can.1 (evaluate_rule-Lives k s rule e events can.0 h)

  evaluate-Tells :
      (k : Str) (sorter : Sorter) (e : Engine)
      → IsKeyed e.store
      → All (λ rule. can_notify registry rule ≡ true) (values e.store.rules)
      → Tells k e.store
          (evaluate sound uuid registry fetch now sorter e).0.store
          (evaluate sound uuid registry fetch now sorter e).1
  unfolding evaluate list_rules
  evaluate-Tells k sorter e h can =
      let lives =
        evaluate_rules-Lives k e.store (list_rules sorter e.store) e []
          (All-perm (can_notify registry)
            (sorter.sort_slice-perm (newer_rule sorter) (values e.store.rules)) can)
          (record { keyed = h; tells = record { alternates = tt; ends = refl } }) in
      lives.tells

-- One call of Evaluate: what it draws and reads from outside, and when it runs.
pub record Cycle : Type 0 where
  pub json : ℕ → PersistedData → PersistedData
  pub uuid : ℕ → Str
  pub fetch : Time → Option (List TraceData)
  pub now : Time

module _ {N : Type 0} (registry : Dict Str (Factory N)) (sorter : Sorter) where
  abbrev pub evaluate_in : Cycle → Engine → Engine × List (AlertEvent N)
  evaluate_in c e = evaluate (λ n. written (c.json n)) c.uuid registry c.fetch c.now sorter e

  -- Successive calls, and all their events in order.
  unfoldable pub run_cycles : List Cycle → Engine → Engine × List (AlertEvent N)
  run_cycles [] e = (e, [])
  run_cycles (c ∷ cs) e =
      let r = evaluate_in c e in let later = run_cycles cs r.0 in (later.0, r.1 ++ later.1)

  -- While the writes succeed and the notifiers of the rules can be built, the events that successive
  -- calls of Evaluate return for one alert announce it as firing and as resolved in turn, the first
  -- time as firing if it was not stored as firing, whatever traces are fetched and at what times;
  -- and the alert is stored as firing in the end exactly if it was last announced so, or was stored
  -- so and not announced.
  pub run_cycles-Tells :
      (k : Str) (cs : List Cycle) (e : Engine)
      → IsKeyed e.store
      → All (λ rule. can_notify registry rule ≡ true) (values e.store.rules)
      → Tells k e.store (run_cycles cs e).0.store (run_cycles cs e).1
  unfolding run_cycles
  run_cycles-Tells k [] e h can = record { alternates = tt; ends = refl }
  run_cycles-Tells k (c ∷ cs) e h can =
      let r = evaluate_in c e in
      let keeps =
        evaluate-Keeps (λ n. written (c.json n)) c.uuid registry c.fetch c.now sorter e h in
      Tells-trans k e.store r.0.store (run_cycles cs r.0).0.store r.1 (run_cycles cs r.0).1
        (evaluate-Tells c.json c.uuid registry c.fetch c.now k sorter e h can)
        (run_cycles-Tells k cs r.0 keeps.keyed (rw keeps.rules can))
