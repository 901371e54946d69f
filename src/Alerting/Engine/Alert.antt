-- ===== src/Alerting/Engine/Alert.antt =====
-- The life of one alert: what successive evaluations of one trace under one rule store, and the notifications that
-- fall due.
use labubu.Base.{◌≡◌, refl, ◌∙◌, ◌⊎◌, Bool, true, false, Option, none, some, List, [], ◌∷◌, arith}
use labubu.Base.Int.{ℤ, pos, ◌≤ℤ◌, ◌<ℤ◌}
use labubu.Base.Str.{Str}
use labubu.Base.Dict.{nat_eq, bytes_eq}
use labubu.Base.Time.{Time, seconds, sub_time}
use labubu.Alerting.Types.{
  Rule, AlertStatus, ok, pending, firing, resolved, other, AlertState, TraceData, is_firing,
}
use labubu.Alerting.Conditions.{evaluate_conditions}
use mathlib.Core.Path.{subst}
use labubu.Alerting.Machine.{drive_state_machine, switch_status}
use labubu.Alerting.Engine.{next_state}

-- One look at the trace: its data then, the time, and the identifier that a new state would get.
pub record Look : Type 0 where
  pub trace : TraceData
  pub now : Time
  pub id : Str

abbrev pub is_on : Option AlertState → Bool
is_on none = false
is_on (some s) = is_firing s.status

-- The three kinds of outcome: nothing is announced and the alert is on as before, or it goes on,
-- or it goes off.
abbrev pub Outcome : Bool → AlertStatus × Bool → Type 0
Outcome was_on r =
    ((r.1 ≡ false) × (is_firing r.0 ≡ was_on))
    ⊎ ((r ≡ (firing, true)) × (was_on ≡ false))
    ⊎ ((r ≡ (resolved, true)) × (was_on ≡ true))

switch_status-Outcome :
    (s : AlertStatus) (triggered_at : Time) (c : Bool) (d : ℤ) (now : Time)
    → Outcome (is_firing s) (switch_status s triggered_at c d now)
unfolding switch_status
switch_status-Outcome ok triggered_at c d now = ground arith
switch_status-Outcome resolved triggered_at c d now = ground arith
switch_status-Outcome pending triggered_at c d now = ground arith
switch_status-Outcome firing triggered_at c d now = ground arith
switch_status-Outcome (other s) triggered_at c d now = ground arith

pub drive_state_machine-Outcome :
    (e : Option AlertState) (c : Bool) (d : ℤ) (now : Time)
    → Outcome (is_on e) (drive_state_machine e c d now)
unfolding drive_state_machine
drive_state_machine-Outcome none c d now = switch_status-Outcome ok (pos 0) c d now
drive_state_machine-Outcome (some s) c d now = switch_status-Outcome s.status s.triggered_at c d now

-- What is stored for the trace after successive looks.
unfoldable pub state_after : Rule → Option AlertState → List Look → Option AlertState
state_after rule existing [] = existing
state_after rule existing (l ∷ ls) =
    state_after rule (some (next_state l.id rule l.trace l.now existing).0) ls

abbrev pub last_from : Look → List Look → Look
last_from l [] = l
last_from l (l' ∷ ls) = last_from l' ls

-- At a look it falls due to announce the alert as firing.
abbrev pub Fires : Rule → Option AlertState → Look → Type 0
Fires rule existing l =
    ((next_state l.id rule l.trace l.now existing).1 ≡ true)
    × ((next_state l.id rule l.trace l.now existing).0.status ≡ firing)

waits_first : (rule : Rule) (l : Look) → pos 0 <ℤ rule.for_duration → (Fires rule none l → ⊥)
unfolding next_state drive_state_machine switch_status
waits_first rule l wait (due, on) = ground arith

Fires-pending :
    (rule : Rule) (s : AlertState) (l : Look)
    → pos 0 <ℤ rule.for_duration
    → Fires rule (some s) l
    → (s.status ≡ pending)
      × (evaluate_conditions rule.conditions l.trace ≡ true)
      × (seconds rule.for_duration ≤ℤ sub_time l.now s.triggered_at)
unfolding next_state drive_state_machine switch_status
Fires-pending rule s l wait (due, on) = ground arith

next_state-pending :
    (rule : Rule) (existing : Option AlertState) (l : Look)
    → (next_state l.id rule l.trace l.now existing).0.status ≡ pending
    → evaluate_conditions rule.conditions l.trace ≡ true
unfolding next_state drive_state_machine switch_status
next_state-pending rule none l h = ground arith
next_state-pending rule (some s) l h = ground arith

next_state-triggered_at :
    (rule : Rule) (s : AlertState) (l : Look)
    → (next_state l.id rule l.trace l.now (some s)).0.triggered_at ≡ s.triggered_at
unfolding next_state
next_state-triggered_at rule s l = refl

next_state-triggered_first :
    (rule : Rule) (l : Look) → (next_state l.id rule l.trace l.now none).0.triggered_at ≡ l.now
unfolding next_state
next_state-triggered_first rule l = refl

-- Before the look: its wait, measured from a first time, and the conditions met at the look before.
abbrev pub Waited : Rule → Time → Look → Look → Type 0
Waited rule since previous l =
    (seconds rule.for_duration ≤ℤ sub_time l.now since)
    × (evaluate_conditions rule.conditions previous.trace ≡ true)
    × (evaluate_conditions rule.conditions l.trace ≡ true)

Fires-state_after :
    (rule : Rule) (since : Time) (s : AlertState) (previous : Look) (ls : List Look) (l : Look)
    → pos 0 <ℤ rule.for_duration
    → s.triggered_at ≡ since
    → (s.status ≡ pending → evaluate_conditions rule.conditions previous.trace ≡ true)
    → Fires rule (state_after rule (some s) ls) l
    → Waited rule since (last_from previous ls) l
unfolding state_after
Fires-state_after rule since s previous [] l wait e met fires =
    let (waiting, on, long) = Fires-pending rule s l wait fires in
    (subst (λ t. seconds rule.for_duration ≤ℤ sub_time l.now t) e long, met waiting, on)
Fires-state_after rule since s previous (l' ∷ ls) l wait e met fires =
    Fires-state_after rule since (next_state l'.id rule l'.trace l'.now (some s)).0 l' ls l wait
      (next_state-triggered_at rule s l' ∙ e) (next_state-pending rule (some s) l') fires

-- With a time to wait, it never falls due to announce an alert without a state as firing at its first
-- look, and later only if the rule's duration has passed since that first look and the conditions are met at
-- this look and were met at the one before.
pub Fires-Waited :
    (rule : Rule) (ls : List Look) (l : Look)
    → pos 0 <ℤ rule.for_duration
    → Fires rule (state_after rule none ls) l
    → (first : Look) × (rest : List Look) × (ls ≡ first ∷ rest)
      × Waited rule first.now (last_from first rest) l
unfolding state_after
Fires-Waited rule [] l wait fires = absurd (waits_first rule l wait fires)
Fires-Waited rule (first ∷ rest) l wait fires = (
  first,
  rest,
  refl,
  Fires-state_after rule first.now (next_state first.id rule first.trace first.now none).0 first
      rest l wait (next_state-triggered_first rule first) (next_state-pending rule none first)
      fires,
)

-- The recorded trigger is the first look at the trace, and no later evaluation sets it anew. So for
-- an alert that is idle again it falls due to announce it as firing at the second look that meets its
-- conditions and not at the first, at whatever time the first one was, once the rule's duration has
-- passed since that recorded trigger.
pub refires_without_waiting :
    (rule : Rule) (s : AlertState) (first second : Look)
    → pos 0 <ℤ rule.for_duration
    → (s.status ≡ ok) ⊎ (s.status ≡ resolved)
    → evaluate_conditions rule.conditions first.trace ≡ true
    → evaluate_conditions rule.conditions second.trace ≡ true
    → seconds rule.for_duration ≤ℤ sub_time second.now s.triggered_at
    → ((next_state first.id rule first.trace first.now (some s)).1 ≡ false)
      × Fires rule (state_after rule (some s) (first ∷ [])) second
unfolding state_after next_state drive_state_machine switch_status
refires_without_waiting rule s first second wait idle c c' old = ground arith

-- While a resolved alert stays quiet, every evaluation moves its time of resolution to the present.
pub resolved_at_moves :
    (id : Str) (rule : Rule) (trace : TraceData) (now : Time) (s : AlertState)
    → s.status ≡ resolved
    → evaluate_conditions rule.conditions trace ≡ false
    → (next_state id rule trace now (some s)).0 ≡ record s { resolved_at = some now }
unfolding next_state drive_state_machine switch_status
resolved_at_moves id rule trace now s e c = ground arith
