-- ===== src/Metrics.antt =====
-- The computations on metric points in internal/api/metrics_handler.go.
pub mod Matching
pub mod Nearest
use labubu.Base.{
  ℕ, zero, suc, ◌+◌, ◌-◌, ◌*◌, ◌/◌, ◌%◌, ◌^◌, ◌≤◌, ◌<◌, ◌≡◌, refl, sym, ap, ◌∙◌, ◌≢◌, ◌↔◌, ◌⊎◌, inl,
  inr, Bool, true, false, not, ◌&&◌, ◌||◌, Option, none, some, List, [], ◌∷◌, ◌++◌, map, arith, ltb,
  leb, ◌==◌, ==_iff, if◌then◌else◌, Bool-cases, Option-cases, length, take, get_elem?, drop, keep,
  count, any, all, All, length-append, length-take, length-drop, length-keep, count_split,
  keep-append, keep-All, All-append, All-weaken,
}
use labubu.Base.Int.{
  ℤ, pos, negsuc, pos_part, neg_part, ◌+ℤ◌, ◌-ℤ◌, ◌*ℤ◌, ◌≤ℤ◌, ◌<ℤ◌, ltb_ℤ, leb_ℤ, to_int64,
  int64_half, int_laws,
}
use labubu.Base.Str.{Str, codes, str_eq, str_eq_iff, str_eq_self, is_empty}
use labubu.Base.Dict.{
  Eq, nat_eq, bytes_eq, Dict, lookup, insert, delete, has, lookup-insert, lookup-insert_self,
  lookup-delete, Distinct, has-insert, has_of_delete, insert-Distinct, delete-Distinct,
  insert_fresh, has_of_append, has-eq-lookup, insert-All, keep-All_of_All,
}
use labubu.Base.Sort.{
  Sorter, IsSorted, IsWeakOrder, insertion_sort, insertion, count-perm, length-perm, All-perm,
}
use labubu.Base.Strconv.{parse_uint, parse_uint-lt}
use labubu.Base.Time.{Time, Duration, seconds, sub_time, seconds-eq_of_lt}
use labubu.Base.Words.{u16, u32, u64, sub_u64, u32-add, u16-add, sub_u64-eq}
use labubu.Base.Floats.{Floats, whole}
use labubu.Base.Page.{paginate, paginate_lem}

pub record MetricPoint (F : Type 0) : Type 0 where
  pub name : Str
  pub labels : Dict Str Str
  pub value : F
  pub timestamp : ℤ

pub record MetricSeries (F : Type 0) : Type 0 where
  pub name : Str
  pub labels : Dict Str Str
  pub points : List (MetricPoint F)

-- On `int64`: the least number is its own negative.
unfoldable pub abs64 : ℤ → ℤ
abs64 x = if ltb_ℤ x (pos 0) then to_int64 (pos 0 -ℤ x) else x

module _ {F : Type 0} where
  -- `abs64(p.Timestamp - target)`
  unfoldable pub distance : ℤ → MetricPoint F → ℤ
  distance target p = abs64 (to_int64 (p.timestamp -ℤ target))

  -- `if diff < bestDiff { best = … }`
  abbrev pub closer_of : Bool → MetricPoint F → MetricPoint F → MetricPoint F
  closer_of true p best = p
  closer_of false p best = best

  -- The loop over the other points, with `best`.
  unfoldable pub closest_from : ℤ → MetricPoint F → List (MetricPoint F) → MetricPoint F
  closest_from target best [] = best
  closest_from target best (p ∷ ps) =
      closest_from target (closer_of (ltb_ℤ (distance target p) (distance target best)) p best) ps

  unfoldable pub pick_closest_point : List (MetricPoint F) → ℤ → Option (MetricPoint F)
  pick_closest_point [] target = none
  pick_closest_point (p ∷ ps) target = some (closest_from target p ps)

-- `if bv, ok := b[k]; !ok || bv != v`
abbrev pub has_value : Option Str → Str → Bool
has_value none v = false
has_value (some w) v = str_eq w v

unfoldable pub values_match : Dict Str Str → Dict Str Str → Bool
values_match [] b = true
values_match ((k, v) ∷ a) b = has_value (lookup k b) v && values_match a b

unfoldable pub keys_match : Dict Str Str → Dict Str Str → Bool
keys_match [] a = true
keys_match ((k, v) ∷ b) a = has k a && keys_match b a

unfoldable pub labels_match_for_ratio : Dict Str Str → Dict Str Str → Bool
labels_match_for_ratio a b =
    if (length a == 0) && (length b == 0) then true else values_match a b && keys_match b a

module _ (fl : Floats) where
  open fl use {Float, zero_float, div, sub, less, equal, of_nat}

  -- `bestIdx` and `bestDiff`, the point itself in place of its index.
  unfoldable pub baseline_from :
      ℤ → Option (MetricPoint Float) → ℤ → List (MetricPoint Float) → Option (MetricPoint Float)
  baseline_from target best diff [] = best
  baseline_from target best diff (p ∷ ps) =
      if ltb_ℤ (distance target p) diff
      then baseline_from target (some p) (distance target p) ps
      else baseline_from target best diff ps

  -- The value of one point, from its baseline; a fall is taken for a reset of the counter.
  abbrev pub delta_value : Float → Bool → Float → Float → Float
  delta_value lookback_sec per_second new old =
      let delta = if less (sub new old) zero_float then zero_float else sub new old in
      if per_second then div delta lookback_sec else delta

  abbrev pub delta_point :
      Float
      → Bool
      → MetricPoint Float
      → Option (MetricPoint Float)
      → List (MetricPoint Float)
      → List (MetricPoint Float)
  delta_point lookback_sec per_second p none rest = rest
  delta_point lookback_sec per_second p (some old) rest =
      record p { value = delta_value lookback_sec per_second p.value old.value } ∷ rest

  unfoldable pub delta_points :
      Float
      → ℤ
      → Bool
      → List (MetricPoint Float)
      → List (MetricPoint Float)
      → List (MetricPoint Float)
  delta_points lookback_sec lookback_ms per_second all_points [] = []
  delta_points lookback_sec lookback_ms per_second all_points (p ∷ ps) =
      delta_point lookback_sec per_second p
        (baseline_from (to_int64 (p.timestamp -ℤ lookback_ms)) none (pos 60000) all_points)
        (delta_points lookback_sec lookback_ms per_second all_points ps)

  -- `of_int` is the conversion of an `int64`.
  unfoldable pub apply_delta :
      (ℤ → Float) → List (MetricPoint Float) → ℤ → Bool → List (MetricPoint Float)
  apply_delta of_int points lookback_ms per_second =
      delta_points (div (of_int lookback_ms) (of_nat 1000)) lookback_ms per_second points points

  unfoldable pub apply_rate : (ℤ → Float) → List (MetricPoint Float) → ℤ → List (MetricPoint Float)
  apply_rate of_int points lookback_ms = apply_delta of_int points lookback_ms true

  unfoldable pub apply_increase :
      (ℤ → Float) → List (MetricPoint Float) → ℤ → List (MetricPoint Float)
  apply_increase of_int points lookback_ms = apply_delta of_int points lookback_ms false
