-- ===== src/Alerting/Store/Persistence.antt =====
-- Saving and loading the rule store (internal/alerting/store.go), and its keys.
use labubu.Base.{ℕ, ◌≡◌, refl, sym, ap, ◌∙◌, inl, false, none, [], ◌∷◌, ◌++◌, arith, ◌==◌, any, All}
use labubu.Base.Str.{Str, str_eq_iff}
use labubu.Base.Dict.{nat_eq, bytes_eq, Dict, insert, has, Distinct, insert_fresh, has_of_append}
use labubu.Alerting.Types.{Rule, AlertState}
use labubu.Alerting.Store.{
  Write, written, PersistedData, RuleStore, state_key, saved_as, save_locked, holds, snapshot,
  values, index_rules, index_states, new_rule_store,
}
use labubu.Alerting.Store.Laws.{IsKeyed}
use mathlib.Core.Path.{subst}
use mathlib.Core.List.{append_assoc, append-nil}

module _ {V : Type 0} where
  -- A map whose first entries are known: the next key is new.
  fresh_of_Distinct :
      (acc : Dict Str V) (k : Str) (v : V) (m : Dict Str V)
      → Distinct (acc ++ (k, v) ∷ m)
      → has k acc ≡ false
  unfolding has
  fresh_of_Distinct [] k v m d = refl
  fresh_of_Distinct ((i, w) ∷ acc) k v m d = ground (
    arith,
    has_of_append i acc ((k, v) ∷ m),
    str_eq_iff i k,
    str_eq_iff k i,
    fresh_of_Distinct acc k v m,
  )

index_rules-values :
    (m acc : Dict Str Rule)
    → All (λ e. e.0 ≡ e.1.id) m
    → Distinct (acc ++ m)
    → index_rules (values m) acc ≡ acc ++ m
unfolding index_rules values
index_rules-values [] acc h d = sym (append-nil acc)
index_rules-values ((k, r) ∷ m) acc h d =
    let step =
      subst (λ (j : Str). insert j r acc ≡ acc ++ (k, r) ∷ []) h.0
        (insert_fresh k r acc (fresh_of_Distinct acc k r m d)) in
    ap (index_rules (values m)) step
    ∙ index_rules-values m (acc ++ (k, r) ∷ []) h.1 (rw append_assoc d)
    ∙ append_assoc acc ((k, r) ∷ []) m

index_states-values :
    (m acc : Dict Str AlertState)
    → All (λ e. e.0 ≡ state_key e.1.rule_id e.1.trace_id_hex) m
    → Distinct (acc ++ m)
    → index_states (values m) acc ≡ acc ++ m
unfolding index_states values
index_states-values [] acc h d = sym (append-nil acc)
index_states-values ((k, st) ∷ m) acc h d =
    let step =
      subst (λ (j : Str). insert j st acc ≡ acc ++ (k, st) ∷ []) h.0
        (insert_fresh k st acc (fresh_of_Distinct acc k st m d)) in
    ap (index_states (values m)) step
    ∙ index_states-values m (acc ++ (k, st) ∷ []) h.1 (rw append_assoc d)
    ∙ append_assoc acc ((k, st) ∷ []) m

-- A store that keeps its invariant and is saved is found again when the process starts anew: the
-- rules, the states and the notifications are those that were in memory. The data has to be such
-- that encoding/json gives it back as it was, as it does where all text is valid UTF-8.
pub new_rule_store-save_locked :
    (disk : ℕ → Write) (json : PersistedData → PersistedData) (s : RuleStore)
    → IsKeyed s
    → disk s.saves ≡ written json
    → json (snapshot s) ≡ snapshot s
    → ((save_locked disk s).1 ≡ none)
      × (t : RuleStore) × (new_rule_store (save_locked disk s).0.file ≡ inl t)
      × (t.rules ≡ s.rules)
      × (t.states ≡ s.states)
      × (t.notifications ≡ s.notifications)
unfolding save_locked saved_as new_rule_store
new_rule_store-save_locked disk json s h saved same = (
  ap (λ w. (saved_as s w).1) saved,
  record s { file = holds (snapshot s); saves = 0 },
  ap (λ w. new_rule_store (saved_as s w).0.file) saved
      ∙ ap (λ d. new_rule_store (holds d)) same
      ∙ ground (
        arith,
        index_rules-values s.rules [] h.rules_keyed h.rules_distinct,
        index_states-values s.states [] h.states_keyed h.states_distinct,
      ),
  refl,
  refl,
  refl,
)

-- Two pairs of a rule and a trace share a key only if they are the same pair, as long as no rule
-- identifier holds a colon.
pub state_key-injective :
    (r r' t t' : Str)
    → any (λ c. c == b':') r ≡ false
    → any (λ c. c == b':') r' ≡ false
    → state_key r t ≡ state_key r' t'
    → (r ≡ r') × (t ≡ t')
unfolding any
state_key-injective [] [] t t' h h' e = (refl, ground arith)
state_key-injective [] (c ∷ r') t t' h h' e = absurd (ground arith)
state_key-injective (c ∷ r) [] t t' h h' e = absurd (ground arith)
state_key-injective (c ∷ r) (c' ∷ r') t t' h h' e = ground (arith, state_key-injective r r' t t')
