-- ===== src/Alerting/Machine/Relation.antt =====
-- The state machine of one alert as a relation, and when a notification is due.
use labubu.Base.{
  ◌≡◌, refl, ◌↔◌, ◌⊎◌, inl, inr, Bool, true, false, not, ◌&&◌, ◌||◌, Option, none, some, arith,
  Bool-cases,
}
use labubu.Base.Int.{ℤ, pos, ◌≤ℤ◌, ◌<ℤ◌, leb_ℤ}
use labubu.Base.Str.{Str}
use labubu.Base.Dict.{nat_eq, bytes_eq}
use labubu.Base.Time.{Time, seconds, sub_time}
use labubu.Alerting.Types.{
  AlertStatus, ok, pending, firing, resolved, other, AlertState, is_firing, is_resolved,
}
use labubu.Alerting.Machine.{drive_state_machine, switch_status, idle_step, status_of, triggered_of}

abbrev pub Idle : AlertStatus → Type 0
Idle t = (t ≡ ok) ⊎ (t ≡ resolved)

-- The transitions of an alert, from no state yet or from the stored one, each with its guard and
-- whether it notifies.
pub data Transition (for_duration : ℤ) (now : Time)
    : Option AlertState → Bool → AlertStatus → Bool → Type 0 where
  -- the condition is met at the first look, with or without a time to wait
  fire_new : for_duration ≤ℤ pos 0 → Transition for_duration now none true firing true
  wait_new : pos 0 <ℤ for_duration → Transition for_duration now none true pending false
  ignore_new : Transition for_duration now none false ok false
  -- the condition is met again
  fire_again :
      {s : AlertState}
      → Idle s.status
      → for_duration ≤ℤ pos 0
      → Transition for_duration now (some s) true firing true
  wait_again :
      {s : AlertState}
      → Idle s.status
      → pos 0 <ℤ for_duration
      → Transition for_duration now (some s) true pending false
  stay_idle :
      {s : AlertState} {t : AlertStatus}
      → Idle s.status
      → s.status ≡ t
      → Transition for_duration now (some s) false t false
  -- from the state "pending", the time measured from the recorded trigger
  give_up :
      {s : AlertState} → s.status ≡ pending → Transition for_duration now (some s) false ok false
  fire_after_waiting :
      {s : AlertState}
      → s.status ≡ pending
      → seconds for_duration ≤ℤ sub_time now s.triggered_at
      → Transition for_duration now (some s) true firing true
  keep_waiting :
      {s : AlertState}
      → s.status ≡ pending
      → sub_time now s.triggered_at <ℤ seconds for_duration
      → Transition for_duration now (some s) true pending false
  -- from the state "firing"
  resolve :
      {s : AlertState}
      → s.status ≡ firing
      → Transition for_duration now (some s) false resolved true
  keep_firing :
      {s : AlertState} → s.status ≡ firing → Transition for_duration now (some s) true firing false
  -- from a status that no evaluation writes
  reset :
      {s : AlertState} {text : Str} {c : Bool}
      → s.status ≡ other text
      → Transition for_duration now (some s) c ok false

module _ (for_duration : ℤ) (now : Time) where
  abbrev Guarded : Option AlertState → Bool → AlertStatus × Bool → Type 0
  Guarded e c r = Transition for_duration now e c r.0 r.1

  none-Guarded : (c : Bool) → Guarded none c (drive_state_machine none c for_duration now)
  unfolding drive_state_machine switch_status
  none-Guarded false = ignore_new
  none-Guarded true = elim (Bool-cases (leb_ℤ for_duration (pos 0))) [
    | inl now_due ↦ rw now_due (fire_new (ground arith))
    | inr later ↦ rw later (wait_new (ground arith))
  ]

  Idle-Guarded :
      (s : AlertState) (t : AlertStatus) (c : Bool)
      → s.status ≡ t
      → Idle t
      → Guarded (some s) c (idle_step t c for_duration)
  Idle-Guarded s t false e h = stay_idle (rw e h) e
  Idle-Guarded s t true e h = elim (Bool-cases (leb_ℤ for_duration (pos 0))) [
    | inl now_due ↦ rw now_due (fire_again (rw e h) (ground arith))
    | inr later ↦ rw later (wait_again (rw e h) (ground arith))
  ]

  switch_status-Guarded :
      (s : AlertState) (t : AlertStatus) (c : Bool)
      → s.status ≡ t
      → Guarded (some s) c (switch_status t s.triggered_at c for_duration now)
  unfolding switch_status
  switch_status-Guarded s ok c e = Idle-Guarded s ok c e (inl refl)
  switch_status-Guarded s resolved c e = Idle-Guarded s resolved c e (inr refl)
  switch_status-Guarded s pending false e = give_up e
  switch_status-Guarded s pending true e =
      elim (Bool-cases (leb_ℤ (seconds for_duration) (sub_time now s.triggered_at))) [
        | inl due ↦ rw due (fire_after_waiting e (ground arith))
        | inr early ↦ rw early (keep_waiting e (ground arith))
      ]
  switch_status-Guarded s firing false e = resolve e
  switch_status-Guarded s firing true e = keep_firing e
  switch_status-Guarded s (other text) c e = reset e

  drive_state_machine-Guarded :
      (e : Option AlertState) (c : Bool) → Guarded e c (drive_state_machine e c for_duration now)
  drive_state_machine-Guarded none c = none-Guarded c
  drive_state_machine-Guarded (some s) c =
      unfold drive_state_machine in switch_status-Guarded s s.status c refl

  Transition-drive_state_machine :
      {e : Option AlertState} {c : Bool} {t : AlertStatus} {n : Bool}
      → Transition for_duration now e c t n
      → drive_state_machine e c for_duration now ≡ (t, n)
  unfolding drive_state_machine switch_status
  Transition-drive_state_machine (fire_new k) = ground arith
  Transition-drive_state_machine (wait_new k) = ground arith
  Transition-drive_state_machine ignore_new = refl
  Transition-drive_state_machine (fire_again h k) = ground arith
  Transition-drive_state_machine (wait_again h k) = ground arith
  Transition-drive_state_machine (stay_idle h e) = ground arith
  Transition-drive_state_machine (give_up e) = ground arith
  Transition-drive_state_machine (fire_after_waiting e h) = ground arith
  Transition-drive_state_machine (keep_waiting e h) = ground arith
  Transition-drive_state_machine (resolve e) = ground arith
  Transition-drive_state_machine (keep_firing e) = ground arith
  Transition-drive_state_machine (reset e) = ground arith

-- The code takes a transition exactly when the relation allows it: every result is a transition
-- with its guard satisfied, and every transition whose guard holds is the result.
pub drive_state_machine-iff_Transition :
    (e : Option AlertState) (c : Bool) (for_duration : ℤ) (now : Time) (t : AlertStatus) (n : Bool)
    → (drive_state_machine e c for_duration now ≡ (t, n)) ↔ Transition for_duration now e c t n
drive_state_machine-iff_Transition e c for_duration now t n = (
  λ h. rw h at (drive_state_machine-Guarded for_duration now e c),
  Transition-drive_state_machine for_duration now,
)

switch_status-notify :
    (s : AlertStatus) (triggered_at : Time) (c : Bool) (for_duration : ℤ) (now : Time)
    → (switch_status s triggered_at c for_duration now).1 ≡ (
        is_firing (switch_status s triggered_at c for_duration now).0 && not (is_firing s)
        || is_resolved (switch_status s triggered_at c for_duration now).0 && is_firing s)
unfolding switch_status
switch_status-notify ok triggered_at c for_duration now = ground arith
switch_status-notify resolved triggered_at c for_duration now = ground arith
switch_status-notify pending triggered_at c for_duration now = ground arith
switch_status-notify firing triggered_at c for_duration now = ground arith
switch_status-notify (other s) triggered_at c for_duration now = ground arith

-- A notification is due exactly when the alert starts to fire or is resolved: the new status is
-- firing and the old one was not, or the new status is resolved and the old one was firing.
pub drive_state_machine-notify :
    (e : Option AlertState) (c : Bool) (for_duration : ℤ) (now : Time)
    → (drive_state_machine e c for_duration now).1 ≡ (
        is_firing (drive_state_machine e c for_duration now).0 && not (is_firing (status_of e))
        || is_resolved (drive_state_machine e c for_duration now).0 && is_firing (status_of e))
unfolding drive_state_machine
drive_state_machine-notify e c for_duration now =
    switch_status-notify (status_of e) (triggered_of e) c for_duration now
