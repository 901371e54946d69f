-- ===== src/Alerting/Store/Laws.antt =====
-- The invariant of the rule store (internal/alerting/store.go) and what can be read after a change.
use labubu.Base.{
  ℕ, ◌≡◌, refl, ◌≢◌, inl, inr, Option, none, some, [], ◌∷◌, ◌++◌, arith, if◌then◌else◌, Bool-cases,
  All,
}
use labubu.Base.Str.{Str, str_eq}
use labubu.Base.Dict.{
  nat_eq, bytes_eq, insert, delete, has, lookup-insert, lookup-delete, Distinct, insert-Distinct,
  delete-Distinct, has-eq-lookup, insert-All, keep-All_of_All,
}
use labubu.Alerting.Types.{Rule, AlertState, AlertNotification}
use labubu.Alerting.Store.{
  Write, Error, rule_exists, rule_not_found, RuleStore, state_key, saved_as, save_locked,
  create_rule, update_rule, delete_rule, upsert_alert_state, insert_notification, get_rule,
  get_alert_state,
}

-- Every entry stands under its own key, and no key stands twice.
pub record IsKeyed (s : RuleStore) : Type 0 where
  pub rules_keyed : All (λ e. e.0 ≡ e.1.id) s.rules
  pub rules_distinct : Distinct s.rules
  pub states_keyed : All (λ e. e.0 ≡ state_key e.1.rule_id e.1.trace_id_hex) s.states
  pub states_distinct : Distinct s.states

-- The calls that change the store.
pub data Change : Type 0 where
  creates updates : Rule → Change
  deletes : Str → Change
  upserts : AlertState → Change
  notifies : AlertNotification → Change

module _ (disk : ℕ → Write) where
  unfoldable pub apply_change : Change → RuleStore → RuleStore × Option Error
  apply_change (creates r) s = create_rule disk s r
  apply_change (updates r) s = update_rule disk s r
  apply_change (deletes id) s = delete_rule disk s id
  apply_change (upserts st) s = upsert_alert_state disk s st
  apply_change (notifies n) s = insert_notification disk s n

  pub save_locked-IsKeyed : (s : RuleStore) → IsKeyed s → IsKeyed (save_locked disk s).0
  unfolding save_locked saved_as
  save_locked-IsKeyed s h = ground arith

  insert_rule-IsKeyed :
      (s : RuleStore) (r : Rule) → IsKeyed s → IsKeyed (record s { rules = insert r.id r s.rules })
  insert_rule-IsKeyed s r h = record {
    rules_keyed = insert-All (λ e. e.0 ≡ e.1.id) r.id r s.rules refl h.rules_keyed;
    rules_distinct = insert-Distinct r.id r s.rules h.rules_distinct;
    states_keyed = h.states_keyed;
    states_distinct = h.states_distinct;
  }

  pub upsert_alert_state-IsKeyed :
      (s : RuleStore) (st : AlertState) → IsKeyed s → IsKeyed (upsert_alert_state disk s st).0
  unfolding upsert_alert_state
  upsert_alert_state-IsKeyed s st h =
      let key = state_key st.rule_id st.trace_id_hex in
      save_locked-IsKeyed (record s { states = insert key st s.states })
        (record {
          rules_keyed = h.rules_keyed;
          rules_distinct = h.rules_distinct;
          states_keyed =
              insert-All (λ e. e.0 ≡ state_key e.1.rule_id e.1.trace_id_hex) key st s.states refl
                h.states_keyed;
          states_distinct = insert-Distinct key st s.states h.states_distinct;
        })

  -- Every change keeps the invariant, whether it is refused, saved, or fails to be saved.
  pub apply_change-IsKeyed : (c : Change) (s : RuleStore) → IsKeyed s → IsKeyed (apply_change c s).0
  unfolding apply_change create_rule update_rule delete_rule insert_notification delete
  apply_change-IsKeyed (creates r) s h = elim (Bool-cases (has r.id s.rules)) [
    | inl old ↦ rw old h
    | inr new ↦ rw new (save_locked-IsKeyed _ (insert_rule-IsKeyed s r h))
  ]
  apply_change-IsKeyed (updates r) s h = elim (Bool-cases (has r.id s.rules)) [
    | inl old ↦ rw old (save_locked-IsKeyed _ (insert_rule-IsKeyed s r h))
    | inr new ↦ rw new h
  ]
  apply_change-IsKeyed (deletes id) s h = save_locked-IsKeyed _ (record {
    rules_keyed = keep-All_of_All (λ e. e.0 ≡ e.1.id) _ s.rules h.rules_keyed;
    rules_distinct = delete-Distinct id s.rules h.rules_distinct;
    states_keyed = h.states_keyed;
    states_distinct = h.states_distinct;
  })
  apply_change-IsKeyed (upserts st) s h = upsert_alert_state-IsKeyed s st h
  apply_change-IsKeyed (notifies n) s h =
      save_locked-IsKeyed (record s { notifications = s.notifications ++ n ∷ [] })
        (record {
          rules_keyed = h.rules_keyed;
          rules_distinct = h.rules_distinct;
          states_keyed = h.states_keyed;
          states_distinct = h.states_distinct;
        })

  pub save_locked-rules : (s : RuleStore) → (save_locked disk s).0.rules ≡ s.rules
  unfolding save_locked saved_as
  save_locked-rules s = ground arith

  pub save_locked-states : (s : RuleStore) → (save_locked disk s).0.states ≡ s.states
  unfolding save_locked saved_as
  save_locked-states s = ground arith

  -- What a read of any rule returns after a call of `CreateRule`: the call is refused and nothing
  -- changes if the identifier is taken, and otherwise the new rule is found under its identifier
  -- and every other rule is found as before, also where the file could not be written.
  pub get_rule-create_rule :
      (s : RuleStore) (r : Rule) (id : Str)
      → (get_rule s r.id ≡ none
          → get_rule (create_rule disk s r).0 id
            ≡ (if str_eq r.id id then some r else get_rule s id))
        × (get_rule s r.id ≢ none → create_rule disk s r ≡ (s, some (rule_exists r.id)))
  unfolding create_rule get_rule
  get_rule-create_rule s r id = (
    λ fresh.
        rw ((has-eq-lookup r.id s.rules).1 fresh, save_locked-rules _)
          (lookup-insert r.id id r s.rules),
    λ taken. elim (Bool-cases (has r.id s.rules)) [
      | inl old ↦ rw old
      | inr new ↦ absurd (taken ((has-eq-lookup r.id s.rules).0 new))
    ],
  )

  -- What a read of any rule returns after `UpdateRule`: the call is refused and nothing changes if
  -- there is no such rule, and otherwise the rule is replaced and every other one is as before.
  pub get_rule-update_rule :
      (s : RuleStore) (r : Rule) (id : Str)
      → (get_rule s r.id ≢ none
          → get_rule (update_rule disk s r).0 id
            ≡ (if str_eq r.id id then some r else get_rule s id))
        × (get_rule s r.id ≡ none → update_rule disk s r ≡ (s, some (rule_not_found r.id)))
  unfolding update_rule get_rule
  get_rule-update_rule s r id = (
    λ there. elim (Bool-cases (has r.id s.rules)) [
      | inl old ↦ rw (old, save_locked-rules _) (lookup-insert r.id id r s.rules)
      | inr new ↦ absurd (there ((has-eq-lookup r.id s.rules).0 new))
    ],
    λ missing'. rw ((has-eq-lookup r.id s.rules).1 missing'),
  )

  -- After `DeleteRule` the rule is gone and every other one is as before.
  pub get_rule-delete_rule :
      (s : RuleStore) (gone id : Str)
      → get_rule (delete_rule disk s gone).0 id ≡ (if str_eq gone id then none else get_rule s id)
  unfolding delete_rule get_rule
  get_rule-delete_rule s gone id = rw (save_locked-rules _) (lookup-delete gone id s.rules)

  -- After `UpsertAlertState` the state is found under its rule and trace, and what is found under
  -- any other key is as before.
  pub get_alert_state-upsert_alert_state :
      (s : RuleStore) (st : AlertState) (rule_id trace_id_hex : Str)
      → get_alert_state (upsert_alert_state disk s st).0 rule_id trace_id_hex ≡ (
          if str_eq (state_key st.rule_id st.trace_id_hex) (state_key rule_id trace_id_hex)
          then some st
          else get_alert_state s rule_id trace_id_hex)
  unfolding upsert_alert_state get_alert_state
  get_alert_state-upsert_alert_state s st rule_id trace_id_hex = rw (save_locked-states _) (
      lookup-insert (state_key st.rule_id st.trace_id_hex) (state_key rule_id trace_id_hex) st
        s.states)
