-- ===== src/Tests/Metrics.antt =====
-- The theorems on metrics at concrete points and labels (internal/api/metrics_handler.go).
use labubu.Base.{ℕ, ◌≡◌, refl, ◌↔◌, ◌⊎◌, true, none, some, List, [], ◌∷◌, arith, All}
use labubu.Base.Int.{ℤ, pos, negsuc, ◌-ℤ◌, to_int64}
use labubu.Base.Str.{Str, codes, str_eq}
use labubu.Base.Dict.{bytes_eq, Dict, lookup, has, Distinct}
use labubu.Metrics.{
  MetricPoint, pick_closest_point, closest_from, distance, abs64, labels_match_for_ratio,
}
use labubu.Metrics.Nearest.{InRange, IsNearest, pick_closest_point-IsNearest}
use labubu.Metrics.Matching.{labels_match_for_ratio_iff}

abbrev point_at : ℕ → ℤ → MetricPoint ℕ
point_at value at = record { name = codes "tokens"; labels = []; value = value; timestamp = at }

-- The first and the last are as near to 100.
abbrev three_points : List (MetricPoint ℕ)
three_points = point_at 1 (pos 90) ∷ point_at 2 (negsuc 4) ∷ point_at 3 (pos 110) ∷ []

hundred_InRange : InRange (pos 100)
hundred_InRange = (omega arith, omega arith)

three_points-InRange : All (λ (p : MetricPoint ℕ). InRange p.timestamp) three_points
three_points-InRange =
    ((omega arith, omega arith), ((omega arith, omega arith), ((omega arith, omega arith), tt)))

pick_closest_point-IsNearest_example :
    ((pick_closest_point three_points (pos 100) ≡ none) × (three_points ≡ []))
    ⊎ ((best : MetricPoint ℕ) × (pick_closest_point three_points (pos 100) ≡ some best)
        × IsNearest (pos 100) three_points best)
pick_closest_point-IsNearest_example =
    pick_closest_point-IsNearest three_points (pos 100) hundred_InRange three_points-InRange

first_of_equals : pick_closest_point three_points (pos 100) ≡ some (point_at 1 (pos 90))
unfolding pick_closest_point closest_from distance abs64 to_int64 ◌-ℤ◌
first_of_equals = refl

abbrev model_first : Dict Str Str
model_first = (codes "model", codes "opus") ∷ (codes "host", codes "a") ∷ []

abbrev host_first : Dict Str Str
host_first = (codes "host", codes "a") ∷ (codes "model", codes "opus") ∷ []

model_first-Distinct : Distinct model_first
unfolding has str_eq
model_first-Distinct = (refl, (refl, tt))

host_first-Distinct : Distinct host_first
unfolding has str_eq
host_first-Distinct = (refl, (refl, tt))

labels_match_for_ratio_iff_example :
    (labels_match_for_ratio model_first host_first ≡ true)
    ↔ ((k : Str) → lookup k model_first ≡ lookup k host_first)
labels_match_for_ratio_iff_example =
    labels_match_for_ratio_iff model_first host_first model_first-Distinct host_first-Distinct
