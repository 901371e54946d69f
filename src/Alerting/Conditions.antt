-- ===== src/Alerting/Conditions.antt =====
-- The conditions of a rule against the data of one trace: evaluateConditions, evaluateCondition,
-- compareUint64 and compareString of internal/alerting/engine.go.
use labubu.Base.{
  ℕ, ◌≡◌, refl, ◌↔◌, Bool, true, false, not, Option, none, some, List, [], ◌∷◌, arith, ltb, leb,
  ◌==◌, if◌then◌else◌, All,
}
use labubu.Base.Str.{Str, codes, str_eq}
use labubu.Base.Dict.{nat_eq, bytes_eq}
use labubu.Base.Strconv.{parse_uint}
use labubu.Alerting.Types.{
  ConditionOperator, gt, gte, lt, lte, eq, neq, other_op, Condition, TraceData,
}

-- The cases are `default: return false` where none is named.
unfoldable pub compare_uint64 : ℕ → ConditionOperator → ℕ → Bool
compare_uint64 a gt b = ltb b a
compare_uint64 a gte b = leb b a
compare_uint64 a lt b = ltb a b
compare_uint64 a lte b = leb a b
compare_uint64 a eq b = a == b
compare_uint64 a neq b = not (a == b)
compare_uint64 a (other_op s) b = false

unfoldable pub compare_string : Str → ConditionOperator → Str → Bool
compare_string a eq b = str_eq a b
compare_string a neq b = not (str_eq a b)
compare_string a gt b = false
compare_string a gte b = false
compare_string a lt b = false
compare_string a lte b = false
compare_string a (other_op s) b = false

-- The value of the field that a condition names: `interface{}` with its two dynamic types, or the
-- early return of the `default` case.
pub data FieldValue : Type 0 where
  uint64 : ℕ → FieldValue
  string : Str → FieldValue
  unknown : FieldValue

unfoldable pub field_value : Str → TraceData → FieldValue
field_value f t =
    if str_eq f (codes "total_tokens")
    then uint64 t.total_tokens
    else if str_eq f (codes "input_tokens")
    then uint64 t.total_tokens
    else if str_eq f (codes "output_tokens")
    then uint64 t.total_tokens
    else if str_eq f (codes "model")
    then string t.model
    else unknown

-- The result of `strconv.ParseUint`, compared; an error is `false`.
abbrev compare_parsed : ℕ → ConditionOperator → Option ℕ → Bool
compare_parsed v op none = false
compare_parsed v op (some threshold) = compare_uint64 v op threshold

abbrev compare_field : FieldValue → ConditionOperator → Str → Bool
compare_field (uint64 v) op value = compare_parsed v op (parse_uint 18446744073709551616 value)
compare_field (string v) op value = compare_string v op value
compare_field unknown op value = false

unfoldable pub evaluate_condition : Condition → TraceData → Bool
unfolding field_value compare_uint64 compare_string
evaluate_condition c t = compare_field (field_value c.field t) c.op c.value

-- The early return on an empty list agrees with the loop, and is kept as the first clause.
unfoldable pub evaluate_conditions : List Condition → TraceData → Bool
evaluate_conditions [] t = true
evaluate_conditions (c ∷ cs) t =
    if not (evaluate_condition c t) then false else evaluate_conditions cs t

-- A list of conditions is met exactly when each of them is: the conditions are joined by "and",
-- and a rule with no condition matches every trace.
pub evaluate_conditions-iff_All :
    (cs : List Condition) (t : TraceData)
    → (evaluate_conditions cs t ≡ true) ↔ All (λ c. evaluate_condition c t ≡ true) cs
unfolding evaluate_conditions
evaluate_conditions-iff_All [] t = (λ _. tt, λ _. refl)
evaluate_conditions-iff_All (c ∷ cs) t = (
  λ h. ground (arith, (evaluate_conditions-iff_All cs t).0),
  λ h. ground (arith, (evaluate_conditions-iff_All cs t).1),
)

-- `gt` and `lte`, `lt` and `gte`, `eq` and `neq` are each other's negation on every pair of
-- numbers, and an operator that is none of the six never holds.
pub compare_uint64_complement :
    (a b : ℕ)
    → (compare_uint64 a gt b ≡ not (compare_uint64 a lte b))
      × (compare_uint64 a lt b ≡ not (compare_uint64 a gte b))
      × (compare_uint64 a eq b ≡ not (compare_uint64 a neq b))
      × ((s : Str) → compare_uint64 a (other_op s) b ≡ false)
unfolding compare_uint64
compare_uint64_complement a b = (ground arith, ground arith, ground arith, λ s. refl)
