-- ===== src/Base/Time.antt =====
-- Times and durations of package `time`: nanoseconds, the durations as `int64`.
use labubu.Base.Int.{ℤ, pos, negsuc, ◌-ℤ◌, scale, ltb_ℤ, to_int64, int64_half}
use labubu.Base.Booleans.{if◌then◌else◌}
use Prim.Native.Nat.{ℕ, ◌*◌, ◌-◌, ◌<◌}
use mathlib.Core.Path.{◌≡◌}
use native.Mathlib.Omega.{arith}

-- Nanoseconds since some fixed instant.
abbrev pub Time : Type 0
Time = ℤ

-- Nanoseconds, in the range of `int64`.
abbrev pub Duration : Type 0
Duration = ℤ

-- `time.Duration(n) * time.Second`: the product wraps.
unfoldable pub seconds : ℤ → Duration
unfolding scale to_int64
seconds n = to_int64 (scale 1000000000 n)

-- A difference beyond the range of `Duration` becomes the nearest value of that range.
saturate : ℤ → Duration
saturate d =
    if ltb_ℤ d (negsuc (int64_half - 1))
    then negsuc (int64_half - 1)
    else if ltb_ℤ (pos (int64_half - 1)) d
    then pos (int64_half - 1)
    else d

-- `t.Sub(u)`
unfoldable pub sub_time : Time → Time → Duration
unfolding saturate ◌-ℤ◌
sub_time t u = saturate (t -ℤ u)

-- Seconds up to some 292 years do not wrap.
pub seconds-eq_of_lt : (n : ℕ) → n < 9223372036 → seconds (pos n) ≡ pos (1000000000 * n)
unfolding seconds
seconds-eq_of_lt n h = ground arith
