-- ===== src/Alerting/Machine.antt =====
-- The state machine of one alert: driveStateMachine of internal/alerting/engine.go.
pub mod Relation
use labubu.Base.{
  ℕ, zero, suc, ◌+◌, ◌-◌, ◌*◌, ◌≤◌, ◌<◌, ◌≡◌, refl, sym, ap, ◌∙◌, ◌≢◌, ◌↔◌, ◌⊎◌, inl, inr, Bool,
  true, false, not, ◌&&◌, ◌||◌, Option, none, some, List, [], ◌∷◌, ◌++◌, map, arith, ltb, leb, ◌==◌,
  ==_iff, if◌then◌else◌, Bool-cases, Option-cases, length, take, drop, keep, count, any, all, All,
  length-append, length-keep, count_split, keep-append, keep-All,
}
use labubu.Base.Int.{
  ℤ, pos, negsuc, pos_part, neg_part, ◌+ℤ◌, ◌-ℤ◌, ◌≤ℤ◌, ◌<ℤ◌, ltb_ℤ, leb_ℤ, to_int64, int_laws,
}
use labubu.Base.Str.{Str, codes, str_eq, str_eq_iff, str_eq_self, is_empty}
use labubu.Base.Dict.{
  Eq, nat_eq, bytes_eq, Dict, lookup, insert, delete, has, lookup-insert, lookup-insert_self,
  lookup-delete,
}
use labubu.Base.Sort.{
  Sorter, IsSorted, IsWeakOrder, insertion_sort, insertion, count-perm, length-perm, All-perm,
}
use labubu.Base.Strconv.{parse_uint, parse_uint-lt}
use labubu.Base.Time.{Time, Duration, seconds, sub_time, seconds-eq_of_lt}
use labubu.Alerting.Types.{AlertStatus, ok, pending, firing, resolved, other, AlertState}

-- The `case AlertOK, AlertResolved` of the switch.
abbrev pub idle_step : AlertStatus → Bool → ℤ → AlertStatus × Bool
idle_step current cond_met for_duration =
    if cond_met
    then if leb_ℤ for_duration (pos 0) then (firing, true) else (pending, false)
    else (current, false)

-- The `switch currentStatus`. `triggered_at` is the zero time where there is no state.
unfoldable pub switch_status : AlertStatus → Time → Bool → ℤ → Time → AlertStatus × Bool
switch_status ok triggered_at cond_met for_duration now = idle_step ok cond_met for_duration
switch_status resolved triggered_at cond_met for_duration now =
    idle_step resolved cond_met for_duration
switch_status pending triggered_at cond_met for_duration now =
    if not cond_met
    then (ok, false)
    else if leb_ℤ (seconds for_duration) (sub_time now triggered_at)
    then (firing, true)
    else (pending, false)
switch_status firing triggered_at cond_met for_duration now =
    if not cond_met then (resolved, true) else (firing, false)
switch_status (other s) triggered_at cond_met for_duration now = (ok, false)

abbrev pub status_of : Option AlertState → AlertStatus
status_of none = ok
status_of (some s) = s.status

abbrev pub triggered_of : Option AlertState → Time
triggered_of none = pos 0
triggered_of (some s) = s.triggered_at

unfoldable pub drive_state_machine : Option AlertState → Bool → ℤ → Time → AlertStatus × Bool
unfolding switch_status
drive_state_machine existing cond_met for_duration now =
    switch_status (status_of existing) (triggered_of existing) cond_met for_duration now
