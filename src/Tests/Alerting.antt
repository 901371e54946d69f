-- ===== src/Tests/Alerting.antt =====
-- The alerting theorems at concrete rules, states and stores (internal/alerting).
use labubu.Base.{
  ℕ, ◌*◌, ◌≡◌, refl, ◌↔◌, inl, inr, true, false, Option, none, some, List, [], ◌∷◌, arith, length,
  ◌==◌, if◌then◌else◌,
}
use labubu.Base.Int.{pos}
use labubu.Base.Str.{Str, codes, str_eq}
use labubu.Base.Dict.{nat_eq, bytes_eq, Dict, lookup, insert, has}
use labubu.Base.Sort.{insertion_sort, insertion}
use labubu.Base.Strconv.{parse_uint}
use labubu.Base.Time.{Time, seconds, sub_time}
use labubu.Alerting.Types.{
  gt, Condition, NotifierConfig, Rule, pending, firing, resolved, AlertState, TraceData,
}
use labubu.Alerting.Conditions.{evaluate_condition, evaluate_conditions}
use labubu.Alerting.Machine.{drive_state_machine}
use labubu.Alerting.Machine.Relation.{Transition, drive_state_machine-iff_Transition}
use labubu.Alerting.Store.{
  Write, written, failed, values, saved_as, missing, RuleStore, new_rule_store, save_locked,
  create_rule, upsert_alert_state, get_rule, get_alert_state, list_rules,
}
use labubu.Alerting.Store.Laws.{IsKeyed, creates, apply_change, apply_change-IsKeyed}
use labubu.Alerting.Store.Persistence.{new_rule_store-save_locked}
use labubu.Alerting.Engine.{
  fire_action, resolve_action, Factory, Engine, next_state, interval_of, evaluate, evaluate_rule,
  evaluate_trace,
}
use labubu.Alerting.Engine.Alert.{
  Look, state_after, last_from, Fires, Waited, Fires-Waited, refires_without_waiting,
}
use labubu.Alerting.Engine.Story.{actions_at, Tells}
use labubu.Alerting.Engine.Story.Runs.{Cycle, run_cycles, run_cycles-Tells}
use labubu.Alerting.Engine.Cycle.{Keeps, evaluate-Keeps}

abbrev mail : NotifierConfig
mail = record {
  type = codes "email";
  smtp_host = [];
  smtp_port = pos 25;
  username = [];
  password = [];
  recipients = [];
}

abbrev over_1000 : Condition
over_1000 = record { field = codes "total_tokens"; op = gt; value = codes "1000" }

abbrev rule : Rule
rule = record {
  id = codes "r1";
  name = codes "tokens";
  enabled = true;
  metric = codes "total_tokens";
  conditions = over_1000 ∷ [];
  for_duration = pos 300;
  interval = pos 60;
  notifier = mail;
  created_at = pos 0;
  updated_at = pos 0;
}

abbrev big : TraceData
big = record { id = codes "t1"; total_tokens = 5000; model = [] }

abbrev small : TraceData
small = record { id = codes "t1"; total_tokens = 10; model = [] }

abbrev second : ℕ → Time
second n = pos (1000000000 * n)

abbrev look : TraceData → ℕ → Look
look t n = record { trace = t; now = second n; id = codes "a1" }

-- First seen at second 1, waiting since then.
abbrev waiting : AlertState
waiting = record {
  id = codes "a1";
  rule_id = codes "r1";
  trace_id_hex = codes "t1";
  status = pending;
  triggered_at = second 1;
  last_fired_at = none;
  resolved_at = none;
}

abbrev over : AlertState
over = record waiting { status = resolved }

program : Unit {0}
unfolding evaluate_conditions parse_uint seconds sub_time str_eq drive_state_machine state_after
    next_state evaluate_condition evaluate_rule saved_as save_locked create_rule has insert lookup
    get_rule get_alert_state
program = tt

drive_state_machine-iff_Transition_example :
    (drive_state_machine (some waiting) true (pos 300) (second 400) ≡ (firing, true))
    ↔ Transition (pos 300) (second 400) (some waiting) true firing true
drive_state_machine-iff_Transition_example =
    drive_state_machine-iff_Transition (some waiting) true (pos 300) (second 400) firing true

Fires-Waited_example :
    (first : Look) × (rest : List Look) × (look big 1 ∷ look big 60 ∷ [] ≡ first ∷ rest)
    × Waited rule first.now (last_from first rest) (look big 400)
unfolding program
Fires-Waited_example =
    Fires-Waited rule (look big 1 ∷ look big 60 ∷ []) (look big 400) (omega arith) (refl, refl)

refires_without_waiting_example :
    ((next_state (codes "a1") rule big (second 5000) (some over)).1 ≡ false)
    × Fires rule (state_after rule (some over) (look big 5000 ∷ [])) (look big 5060)
unfolding program
refires_without_waiting_example =
    refires_without_waiting rule over (look big 5000) (look big 5060) (omega arith) (inr refl) refl
      refl (omega arith)

abbrev good_disk : ℕ → Write
good_disk n = written (λ d. d)

abbrev store : RuleStore
store = record {
  rules = (codes "r1", rule) ∷ [];
  states = (codes "r1:t1", waiting) ∷ [];
  notifications = [];
  file = missing;
  saves = 0;
}

store-IsKeyed : IsKeyed store
unfolding has
store-IsKeyed = record {
  rules_keyed = (refl, tt);
  rules_distinct = (refl, tt);
  states_keyed = (refl, tt);
  states_distinct = (refl, tt);
}

abbrev other_rule : Rule
other_rule = record rule { id = codes "r2" }

apply_change-IsKeyed_example : IsKeyed (apply_change good_disk (creates other_rule) store).0
apply_change-IsKeyed_example =
    apply_change-IsKeyed good_disk (creates other_rule) store store-IsKeyed

new_rule_store-save_locked_example :
    ((save_locked good_disk store).1 ≡ none)
    × (t : RuleStore) × (new_rule_store (save_locked good_disk store).0.file ≡ inl t)
    × (t.rules ≡ store.rules)
    × (t.states ≡ store.states)
    × (t.notifications ≡ store.notifications)
new_rule_store-save_locked_example =
    new_rule_store-save_locked good_disk (λ d. d) store store-IsKeyed refl refl

abbrev email_registry : Dict Str (Factory ℕ)
email_registry = (codes "email", λ cfg. some 7) ∷ []

abbrev engine : Engine
engine = record { store = store; last_eval = [] }

abbrev fetch_big : Time → Option (List TraceData)
fetch_big since = some (big ∷ [])

evaluate-Keeps_example :
    Keeps good_disk store
      (evaluate good_disk (λ n. []) email_registry fetch_big (second 400) insertion engine).0.store
      (evaluate good_disk (λ n. []) email_registry fetch_big (second 400) insertion engine).1
evaluate-Keeps_example =
    evaluate-Keeps good_disk (λ n. []) email_registry fetch_big (second 400) insertion engine
      store-IsKeyed

-- The evaluation at second 400 announces the alert that waits since second 1.
fires_at_400 :
    length (evaluate good_disk (λ n. []) email_registry fetch_big (second 400) insertion engine).1
    ≡ 1
unfolding program evaluate insertion_sort list_rules evaluate_trace upsert_alert_state
fires_at_400 = refl

abbrev fetch_small : Time → Option (List TraceData)
fetch_small since = some (small ∷ [])

abbrev cycle : (Time → Option (List TraceData)) → ℕ → Cycle
cycle fetch n = record { json = λ k d. d; uuid = λ k. []; fetch = fetch; now = second n }

abbrev three_cycles : List Cycle
three_cycles = cycle fetch_big 400 ∷ cycle fetch_big 500 ∷ cycle fetch_small 600 ∷ []

run_cycles-Tells_example :
    Tells
      (codes "r1:t1")
      store
      (run_cycles email_registry insertion three_cycles engine).0.store
      (run_cycles email_registry insertion three_cycles engine).1
unfolding program values
run_cycles-Tells_example =
    run_cycles-Tells email_registry insertion (codes "r1:t1") three_cycles engine store-IsKeyed
      (refl, tt)

fires_and_resolves :
    actions_at (codes "r1:t1") (run_cycles email_registry insertion three_cycles engine).1
    ≡ fire_action ∷ resolve_action ∷ []
unfolding program run_cycles evaluate insertion_sort list_rules evaluate_trace upsert_alert_state
    interval_of
fires_and_resolves = refl

-- The write fails at the cycle that would announce the alert as firing; the next event resolves it.
abbrev first_fails : ℕ → Write
first_fails n = if n == 0 then failed missing else written (λ d. d)

resolved_unannounced :
    actions_at
      (codes "r1:t1")
      (evaluate first_fails
        (λ n. [])
        email_registry
        fetch_small
        (second 600)
        insertion
        (evaluate first_fails (λ n. []) email_registry fetch_big (second 400) insertion engine).0).1
    ≡ resolve_action ∷ []
unfolding program run_cycles evaluate insertion_sort list_rules evaluate_trace upsert_alert_state
    interval_of
resolved_unannounced = refl
