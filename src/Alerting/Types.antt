-- ===== src/Alerting/Types.antt =====
-- internal/alerting/types.go, and the trace data and notifiers of engine.go. `other s` stands for
-- a string that is none of the named constants; the zero value of such a type is `other []`.
use labubu.Base.{ℕ, Bool, true, false, Option, List}
use labubu.Base.Int.{ℤ}
use labubu.Base.Str.{Str, codes}
use labubu.Base.Dict.{nat_eq, bytes_eq}
use labubu.Base.Time.{Time}

pub data ConditionOperator : Type 0 where
  gt gte lt lte eq neq : ConditionOperator
  other_op : Str → ConditionOperator

pub record Condition : Type 0 where
  pub field : Str
  pub op : ConditionOperator
  pub value : Str

pub record NotifierConfig : Type 0 where
  pub type : Str
  pub smtp_host : Str
  pub smtp_port : ℤ
  pub username : Str
  pub password : Str
  pub recipients : List Str

pub record Rule : Type 0 where
  pub id : Str
  pub name : Str
  pub enabled : Bool
  pub metric : Str
  pub conditions : List Condition
  pub for_duration : ℤ
  pub interval : ℤ
  pub notifier : NotifierConfig
  pub created_at : Time
  pub updated_at : Time

pub data AlertStatus : Type 0 where
  ok pending firing resolved : AlertStatus
  other : Str → AlertStatus

pub record AlertState : Type 0 where
  pub id : Str
  pub rule_id : Str
  pub trace_id_hex : Str
  pub status : AlertStatus
  pub triggered_at : Time
  pub last_fired_at : Option Time
  pub resolved_at : Option Time

pub record AlertNotification : Type 0 where
  pub id : Str
  pub rule_id : Str
  pub trace_id_hex : Str
  pub action : Str
  pub channel : Str
  pub recipient : Str
  pub sent_at : Time
  pub success : Bool
  pub error_msg : Str

-- TraceData of engine.go; the token count is a `uint32`.
pub record TraceData : Type 0 where
  pub id : Str
  pub total_tokens : ℕ
  pub model : Str

-- `status == AlertFiring`
abbrev pub is_firing : AlertStatus → Bool
is_firing firing = true
is_firing _ = false

-- `status == AlertResolved`
abbrev pub is_resolved : AlertStatus → Bool
is_resolved resolved = true
is_resolved _ = false

-- `string(status)`
unfoldable pub status_string : AlertStatus → Str
status_string ok = codes "ok"
status_string pending = codes "pending"
status_string firing = codes "firing"
status_string resolved = codes "resolved"
status_string (other s) = s
