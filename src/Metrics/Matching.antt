-- ===== src/Metrics/Matching.antt =====
-- The labels that match: labelsMatchForRatio of internal/api/metrics_handler.go.
use labubu.Base.{
  ◌≡◌, refl, sym, ap, ◌∙◌, ◌↔◌, inl, inr, Bool, true, false, ◌&&◌, Option, none, some, [], ◌∷◌,
  arith, ◌==◌, if◌then◌else◌, Bool-cases, Option-cases, length, All,
}
use labubu.Base.Str.{Str, str_eq, str_eq_iff, str_eq_self}
use labubu.Base.Dict.{nat_eq, bytes_eq, Dict, lookup, has, Distinct, has-eq-lookup}
use labubu.Base.Dict.{All-lookup}
use labubu.Metrics.{has_value, values_match, keys_match, labels_match_for_ratio}
use mathlib.Core.Option.{some-ne-none}

both_true : (a b : Bool) → a && b ≡ true → (a ≡ true) × (b ≡ true)
both_true true b h = (refl, h)
both_true false b h = absurd (ground (arith, h))

labels_match-eq :
    (a b : Dict Str Str) → labels_match_for_ratio a b ≡ (values_match a b && keys_match b a)
unfolding labels_match_for_ratio values_match keys_match
labels_match-eq [] [] = refl
labels_match-eq [] (e ∷ b) =
    let occupied : (length (e ∷ b) == 0) ≡ false = ground arith in rw (occupied) refl
labels_match-eq (e ∷ a) b =
    let occupied : (length (e ∷ a) == 0) ≡ false = ground arith in rw (occupied) refl

has_value-eq : (o : Option Str) (v : Str) → has_value o v ≡ true → o ≡ some v
has_value-eq none v h = absurd (ground (arith, h))
has_value-eq (some w) v h = ap some ((str_eq_iff w v).0 h)

values_match-lookup :
    (a b : Dict Str Str) (k v : Str)
    → values_match a b ≡ true
    → lookup k a ≡ some v
    → lookup k b ≡ some v
unfolding values_match lookup
values_match-lookup [] b k v h l = absurd (some-ne-none v (sym l))
values_match-lookup ((j, w) ∷ a) b k v h l =
    let (front, back) = both_true (has_value (lookup j b) w) (values_match a b) h in
    elim (Bool-cases (str_eq j k)) [
      | inl same ↦
          let value : some w ≡ some v = ap (λ c. if c then some w else lookup k a) (sym same) ∙ l in
          ap (λ i. lookup i b) (sym ((str_eq_iff j k).0 same))
          ∙ has_value-eq (lookup j b) w front
          ∙ value
      | inr other ↦
          values_match-lookup a b k v back
            (ap (λ c. if c then some w else lookup k a) (sym other) ∙ l)
    ]

keys_match-lookup :
    (b a : Dict Str Str) (k v : Str) → keys_match b a ≡ true → lookup k b ≡ some v → has k a ≡ true
unfolding keys_match lookup
keys_match-lookup [] a k v h l = absurd (some-ne-none v (sym l))
keys_match-lookup ((j, w) ∷ b) a k v h l =
    let (front, back) = both_true (has j a) (keys_match b a) h in
    elim (Bool-cases (str_eq j k)) [
      | inl same ↦ ap (λ i. has i a) (sym ((str_eq_iff j k).0 same)) ∙ front
      | inr other ↦
          keys_match-lookup b a k v back
            (ap (λ c. if c then some w else lookup k b) (sym other) ∙ l)
    ]

values_match_lem :
    (a b : Dict Str Str)
    → All (λ (e : Str × Str). lookup e.0 b ≡ some e.1) a
    → values_match a b ≡ true
unfolding values_match
values_match_lem [] b h = refl
values_match_lem ((k, v) ∷ a) b h = rw (h.0, str_eq_self v, values_match_lem a b h.1) refl

keys_match_lem :
    (b a : Dict Str Str) → All (λ (e : Str × Str). has e.0 a ≡ true) b → keys_match b a ≡ true
unfolding keys_match
keys_match_lem [] a h = refl
keys_match_lem ((k, v) ∷ b) a h = rw (h.0, keys_match_lem b a h.1) refl

has_of_found : (k v : Str) (a : Dict Str Str) → lookup k a ≡ some v → has k a ≡ true
has_of_found k v a l = elim (Bool-cases (has k a)) [
  | inl there ↦ there
  | inr gone ↦ absurd (some-ne-none v (sym l ∙ (has-eq-lookup k a).0 gone))
]

same_lookup :
    (a b : Dict Str Str) (k : Str)
    → values_match a b ≡ true
    → keys_match b a ≡ true
    → lookup k a ≡ lookup k b
same_lookup a b k values keys = elim (Option-cases (lookup k a)) [
  | inr (v, found) ↦ found ∙ sym (values_match-lookup a b k v values found)
  | inl missing ↦ elim (Option-cases (lookup k b)) [
    | inl missing' ↦ missing ∙ sym missing'
    | inr (w, found) ↦
        let clash : true ≡ false =
          sym (keys_match-lookup b a k w keys found) ∙ (has-eq-lookup k a).1 missing in
        absurd (ground (arith, clash))
  ]
]

-- Two sets of labels, each without a repeated key, match if, and only if, they say the same of every
-- key.
pub labels_match_for_ratio_iff :
    (a b : Dict Str Str)
    → Distinct a
    → Distinct b
    → (labels_match_for_ratio a b ≡ true) ↔ ((k : Str) → lookup k a ≡ lookup k b)
labels_match_for_ratio_iff a b da db = (
  λ h k.
      let (values, keys) =
        both_true (values_match a b) (keys_match b a) (sym (labels_match-eq a b) ∙ h) in
      same_lookup a b k values keys,
  λ same.
      labels_match-eq a b
      ∙ rw
          (
            values_match_lem a b (All-lookup _ a da (λ k v l. sym (same k) ∙ l)),
            keys_match_lem b a (All-lookup _ b db (λ k v l. has_of_found k v a (same k ∙ l))),
          )
          refl,
)
