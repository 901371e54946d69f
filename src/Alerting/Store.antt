-- ===== src/Alerting/Store.antt =====
-- internal/alerting/store.go: the rule store, which keeps rules, alert states and notifications in
-- memory and writes all of them to one JSON file after each change. A method returns the new store
-- beside its error. The file's content is the persisted data itself: encoding/json is not modelled.
pub mod Laws
pub mod Persistence
use labubu.Base.{
  ℕ, zero, suc, ◌+◌, ◌-◌, ◌*◌, ◌≤◌, ◌<◌, ◌≡◌, refl, sym, ap, ◌∙◌, ◌≢◌, ◌↔◌, ◌⊎◌, inl, inr, Bool,
  true, false, not, ◌&&◌, ◌||◌, Option, none, some, List, [], ◌∷◌, ◌++◌, map, arith, ltb, leb, ◌==◌,
  ==_iff, if◌then◌else◌, Bool-cases, Option-cases, length, take, drop, keep, count, any, all, All,
  length-append, length-keep, count_split, keep-append, keep-All,
}
use labubu.Base.Int.{
  ℤ, pos, negsuc, pos_part, neg_part, ◌+ℤ◌, ◌-ℤ◌, ◌≤ℤ◌, ◌<ℤ◌, ltb_ℤ, leb_ℤ, to_int64, int_laws,
}
use labubu.Base.Str.{Str, codes, str_eq, str_eq_iff, str_eq_self, is_empty}
use labubu.Base.Dict.{
  Eq, nat_eq, bytes_eq, Dict, lookup, insert, delete, has, lookup-insert, lookup-insert_self,
  lookup-delete,
}
use labubu.Base.Sort.{
  Sorter, IsSorted, IsWeakOrder, insertion_sort, insertion, count-perm, length-perm, All-perm,
}
use labubu.Base.Strconv.{parse_uint, parse_uint-lt}
use labubu.Base.Time.{Time, Duration, seconds, sub_time, seconds-eq_of_lt}
use labubu.Alerting.Types.{
  Rule, AlertStatus, ok, pending, firing, resolved, other, AlertState, AlertNotification,
  status_string,
}

pub record PersistedData : Type 0 where
  pub rules : List Rule
  pub states : List AlertState
  pub notifications : List AlertNotification

-- What `os.ReadFile` finds: no file, a read error, an empty file, text that is no JSON of this
-- shape, or a saved store.
pub data File : Type 0 where
  missing unreadable empty_file broken : File
  holds : PersistedData → File

-- What becomes of a write: it succeeds, or fails and leaves some file behind. `written` has the data
-- as encoding/json gives it back: not always what went in, as text that is not valid UTF-8 comes
-- back changed.
pub data Write : Type 0 where
  written : (PersistedData → PersistedData) → Write
  failed : File → Write

pub data Error : Type 0 where
  rule_exists rule_not_found : Str → Error
  write_failed load_failed : Error

-- `saves` counts the writes so far, which tells them apart.
pub record RuleStore : Type 0 where
  pub rules : Dict Str Rule
  pub states : Dict Str AlertState
  pub notifications : List AlertNotification
  pub file : File
  pub saves : ℕ

abbrev pub state_key : Str → Str → Str
state_key rule_id trace_id_hex = rule_id ++ (codes ":" ++ trace_id_hex)

unfoldable pub values {ℓ κ} : {K : Type ℓ} {V : Type κ} → Dict K V → List V
values [] = []
values ((k, v) ∷ m) = v ∷ values m

unfoldable pub index_rules : List Rule → Dict Str Rule → Dict Str Rule
index_rules [] m = m
index_rules (r ∷ rs) m = index_rules rs (insert r.id r m)

unfoldable pub index_states : List AlertState → Dict Str AlertState → Dict Str AlertState
index_states [] m = m
index_states (s ∷ ss) m = index_states ss (insert (state_key s.rule_id s.trace_id_hex) s m)

abbrev empty_store : File → RuleStore
empty_store f = record { rules = []; states = []; notifications = []; file = f; saves = 0 }

-- `load` into a fresh store, and the test of its error in NewRuleStore: a missing file is none.
unfoldable pub new_rule_store : File → RuleStore ⊎ Error
unfolding index_rules index_states
new_rule_store missing = inl (empty_store missing)
new_rule_store unreadable = inr load_failed
new_rule_store empty_file = inl (empty_store empty_file)
new_rule_store broken = inr load_failed
new_rule_store (holds pd) = inl (record {
  rules = index_rules pd.rules [];
  states = index_states pd.states [];
  notifications = pd.notifications;
  file = holds pd;
  saves = 0;
})

unfoldable pub snapshot : RuleStore → PersistedData
unfolding values
snapshot s = record {
  rules = values s.rules;
  states = values s.states;
  notifications = s.notifications;
}

-- The store after a write, and the error that is returned.
unfoldable pub saved_as : RuleStore → Write → RuleStore × Option Error
unfolding snapshot
saved_as s (written json) =
    (record s { file = holds (json (snapshot s)); saves = suc s.saves }, none)
saved_as s (failed f) = (record s { file = f; saves = suc s.saves }, some write_failed)

-- `disk n` is what becomes of the write number `n`.
module _ (disk : ℕ → Write) where
  -- `save` and `saveLocked`, which differ in the lock alone.
  unfoldable pub save_locked : RuleStore → RuleStore × Option Error
  unfolding saved_as
  save_locked s = saved_as s (disk s.saves)

  unfoldable pub create_rule : RuleStore → Rule → RuleStore × Option Error
  unfolding has
  create_rule s r =
      if has r.id s.rules
      then (s, some (rule_exists r.id))
      else save_locked (record s { rules = insert r.id r s.rules })

  unfoldable pub update_rule : RuleStore → Rule → RuleStore × Option Error
  unfolding has
  update_rule s r =
      if not (has r.id s.rules)
      then (s, some (rule_not_found r.id))
      else save_locked (record s { rules = insert r.id r s.rules })

  unfoldable pub delete_rule : RuleStore → Str → RuleStore × Option Error
  delete_rule s id = save_locked (record s { rules = delete id s.rules })

  unfoldable pub upsert_alert_state : RuleStore → AlertState → RuleStore × Option Error
  upsert_alert_state s state =
      save_locked
        (record s { states = insert (state_key state.rule_id state.trace_id_hex) state s.states })

  unfoldable pub insert_notification : RuleStore → AlertNotification → RuleStore × Option Error
  insert_notification s n = save_locked (record s { notifications = s.notifications ++ n ∷ [] })

unfoldable pub get_rule : RuleStore → Str → Option Rule
get_rule s id = lookup id s.rules

unfoldable pub get_alert_state : RuleStore → Str → Str → Option AlertState
get_alert_state s rule_id trace_id_hex = lookup (state_key rule_id trace_id_hex) s.states

-- The three listings, newest first.
module _ (sorter : Sorter) where
  open sorter use {sort_slice}

  abbrev pub newer_rule : Rule → Rule → Bool
  newer_rule a b = ltb_ℤ b.created_at a.created_at

  unfoldable pub list_rules : RuleStore → List Rule
  unfolding values
  list_rules s = sort_slice newer_rule (values s.rules)

  abbrev pub has_status : Str → AlertState → Bool
  has_status filter st =
      not (not (is_empty filter) && not (str_eq (status_string st.status) filter))

  unfoldable pub list_alert_states : RuleStore → Str → List AlertState
  unfolding values
  list_alert_states s filter =
      sort_slice (λ a b. ltb_ℤ b.triggered_at a.triggered_at)
        (keep (has_status filter) (values s.states))

  abbrev pub of_rule : Str → AlertNotification → Bool
  of_rule filter n = not (not (is_empty filter) && not (str_eq n.rule_id filter))

  unfoldable pub list_notifications : RuleStore → Str → List AlertNotification
  list_notifications s filter =
      sort_slice (λ a b. ltb_ℤ b.sent_at a.sent_at) (keep (of_rule filter) s.notifications)
