-- ===== src/Alerting/Engine/Story.antt =====
-- The events that successive calls of Evaluate (internal/alerting/engine.go) return, alert by alert.
pub mod Runs
use labubu.Base.{
  ℕ, ◌≡◌, refl, sym, ap, ◌∙◌, inl, inr, Bool, true, false, Option, none, some, List, [], ◌∷◌, ◌++◌,
  arith, if◌then◌else◌, Bool-cases, Option-cases, All,
}
use labubu.Base.Str.{Str, str_eq, str_eq_iff}
use labubu.Base.Dict.{nat_eq, bytes_eq, Dict, lookup, insert, lookup-insert}
use labubu.Base.Sort.{Sorter, All-perm}
use labubu.Base.Time.{Time}
use labubu.Alerting.Types.{Rule, AlertStatus, firing, resolved, AlertState, TraceData, is_firing}
use labubu.Alerting.Conditions.{evaluate_conditions}
use labubu.Alerting.Store.{
  Write, written, PersistedData, Error, RuleStore, state_key, values, saved_as, save_locked,
  upsert_alert_state, get_alert_state, list_rules, newer_rule,
}
use labubu.Alerting.Store.Laws.{IsKeyed, upsert_alert_state-IsKeyed}
use labubu.Alerting.Engine.{
  Action, fire_action, resolve_action, AlertEvent, action_of, Factory, Engine, next_state, announce,
  evaluate_trace, evaluate_traces, evaluate_fetched, evaluate_rule, evaluate_rules, evaluate,
  is_due, built, since_of,
}
use labubu.Alerting.Engine.Alert.{is_on, Outcome, drive_state_machine-Outcome}
use labubu.Alerting.Engine.Cycle.{Keeps, evaluate-Keeps}
use mathlib.Core.Option.{some-ne-none}

-- Fired and resolved in turn, the first one fired if the alert is not firing.
abbrev pub Alternates : Bool → List Action → Type 0
Alternates is_on [] = Unit
Alternates false (fire_action ∷ rest) = Alternates true rest
Alternates true (resolve_action ∷ rest) = Alternates false rest
Alternates false (resolve_action ∷ rest) = ⊥
Alternates true (fire_action ∷ rest) = ⊥

-- Whether the alert is on after the announcements.
abbrev pub ends_on : Bool → List Action → Bool
ends_on b [] = b
ends_on b (fire_action ∷ rest) = ends_on true rest
ends_on b (resolve_action ∷ rest) = ends_on false rest

Alternates-append :
    (b : Bool) (xs ys : List Action)
    → Alternates b xs
    → Alternates (ends_on b xs) ys
    → Alternates b (xs ++ ys)
Alternates-append b [] ys h k = k
Alternates-append false (fire_action ∷ xs) ys h k = Alternates-append true xs ys h k
Alternates-append true (resolve_action ∷ xs) ys h k = Alternates-append false xs ys h k
Alternates-append false (resolve_action ∷ xs) ys h k = absurd h
Alternates-append true (fire_action ∷ xs) ys h k = absurd h

ends_on-append : (b : Bool) (xs ys : List Action) → ends_on b (xs ++ ys) ≡ ends_on (ends_on b xs) ys
ends_on-append b [] ys = refl
ends_on-append b (fire_action ∷ xs) ys = ends_on-append true xs ys
ends_on-append b (resolve_action ∷ xs) ys = ends_on-append false xs ys

abbrev pub announced : AlertStatus → Bool → List Action
announced t false = []
announced t true = action_of t ∷ []

pub Outcome-announced :
    (was_on : Bool) (t : AlertStatus) (n : Bool)
    → Outcome was_on (t, n)
    → Alternates was_on (announced t n) × (ends_on was_on (announced t n) ≡ is_firing t)
Outcome-announced was_on t n (inl (quiet, same)) = rw quiet (tt, sym same)
Outcome-announced was_on t n (inr (inl (went_on, was_off))) =
    let fired : t ≡ firing = ap (λ r. r.0) went_on in
    rw (was_off, ap (λ r. r.1) went_on, fired) (tt, refl)
Outcome-announced was_on t n (inr (inr (went_off, was_on'))) =
    let over : t ≡ resolved = ap (λ r. r.0) went_off in
    rw (was_on', ap (λ r. r.1) went_off, over) (tt, refl)

lookup_keyed :
    (k : Str) (m : Dict Str AlertState) (s : AlertState)
    → All (λ e. e.0 ≡ state_key e.1.rule_id e.1.trace_id_hex) m
    → lookup k m ≡ some s
    → state_key s.rule_id s.trace_id_hex ≡ k
unfolding lookup
lookup_keyed k [] s h l = absurd (some-ne-none s (sym l))
lookup_keyed k ((j, v) ∷ m) s h l = ground (arith, str_eq_iff j k, lookup_keyed k m s)

-- The state that is stored stands under the key that it was looked up by.
pub next_state_key :
    (id : Str) (rule : Rule) (trace : TraceData) (now : Time) (m : Dict Str AlertState)
    → All (λ e. e.0 ≡ state_key e.1.rule_id e.1.trace_id_hex) m
    → state_key
        (next_state id rule trace now (lookup (state_key rule.id trace.id) m)).0.rule_id
        (next_state id rule trace now (lookup (state_key rule.id trace.id) m)).0.trace_id_hex
      ≡ state_key rule.id trace.id
unfolding next_state
next_state_key id rule trace now m h =
    let key = state_key rule.id trace.id in
    elim (Option-cases (lookup key m)) [
      | inl new ↦ rw new refl
      | inr (s, old) ↦ rw old (lookup_keyed key m s h old)
    ]

pub next_state-Outcome :
    (id : Str) (rule : Rule) (trace : TraceData) (now : Time) (e : Option AlertState)
    → Outcome
        (is_on e)
        ((next_state id rule trace now e).0.status, (next_state id rule trace now e).1)
unfolding next_state
next_state-Outcome id rule trace now e =
    drive_state_machine-Outcome e (evaluate_conditions rule.conditions trace) rule.for_duration now

module _ {N : Type 0} where
  abbrev pub event_key : AlertEvent N → Str
  event_key ev = state_key ev.state.rule_id ev.state.trace_id_hex

  -- What the events announce of the alert with a key, in order.
  abbrev pub actions_at : Str → List (AlertEvent N) → List Action
  actions_at k [] = []
  actions_at k (ev ∷ evs) =
      if str_eq (event_key ev) k then ev.action ∷ actions_at k evs else actions_at k evs

  actions_at-append :
      (k : Str) (xs ys : List (AlertEvent N))
      → actions_at k (xs ++ ys) ≡ actions_at k xs ++ actions_at k ys
  actions_at-append k [] ys = refl
  actions_at-append k (ev ∷ xs) ys = elim (Bool-cases (str_eq (event_key ev) k)) [
    | inl here ↦ rw here (ap (λ rest. ev.action ∷ rest) (actions_at-append k xs ys))
    | inr away ↦ rw away (actions_at-append k xs ys)
  ]

  -- From one store to another, the events tell of the alert with the key: they announce it as firing
  -- and as resolved in turn, the first time as firing if it was not stored as firing, and it is
  -- stored as firing in the end exactly if they announced it so last.
  pub record Tells (k : Str) (s t : RuleStore) (events : List (AlertEvent N)) : Type 0 where
    pub alternates : Alternates (is_on (lookup k s.states)) (actions_at k events)
    pub ends : ends_on (is_on (lookup k s.states)) (actions_at k events) ≡ is_on (lookup k t.states)

  pub Tells-trans :
      (k : Str) (s t u : RuleStore) (xs ys : List (AlertEvent N))
      → Tells k s t xs
      → Tells k t u ys
      → Tells k s u (xs ++ ys)
  Tells-trans k s t u xs ys h g =
      let b = is_on (lookup k s.states) in
      record {
        alternates = rw (actions_at-append k xs ys) (
            Alternates-append b (actions_at k xs) (actions_at k ys) h.alternates
              (rw h.ends g.alternates));
        ends =
            ap (ends_on b) (actions_at-append k xs ys)
            ∙ ends_on-append b (actions_at k xs) (actions_at k ys)
            ∙ ap (λ c. ends_on c (actions_at k ys)) h.ends
            ∙ g.ends;
      }

  abbrev is_built : Option N → Bool
  is_built none = false
  is_built (some n) = true

  -- A notifier of the rule can be built.
  abbrev pub can_notify : Dict Str (Factory N) → Rule → Bool
  can_notify registry rule = is_built (built (lookup rule.notifier.type registry) rule.notifier)
