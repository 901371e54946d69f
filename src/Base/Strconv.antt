-- ===== src/Base/Strconv.antt =====
-- The standard library's `strconv.ParseUint` at base 10: digits only, at least one, and a value
-- below the limit 2 ^ bits.
use labubu.Base.Str.{Str, codes}
use labubu.Base.Booleans.{ltb, leb, if◌then◌else◌}
use Prim.Native.Nat.{ℕ, ◌+◌, ◌-◌, ◌*◌, ◌<◌}
use mathlib.Core.Path.{◌≡◌, refl}
use mathlib.Core.Bool.{Bool, ◌&&◌}
use mathlib.Core.List.{[], ◌∷◌}
use mathlib.Core.Option.{Option, none, some}
use native.Mathlib.Omega.{arith}

abbrev is_digit : ℕ → Bool
is_digit c = leb b'0' c && leb c b'9'

parse_digits : ℕ → Str → Option ℕ
parse_digits acc [] = some acc
parse_digits acc (c ∷ s) =
    let rest = parse_digits (acc * 10 + (c - b'0')) s in if is_digit c then rest else none

abbrev below : ℕ → Option ℕ → Option ℕ
below limit none = none
below limit (some n) = if ltb n limit then some n else none

unfoldable pub parse_uint : ℕ → Str → Option ℕ
unfolding parse_digits
parse_uint limit [] = none
parse_uint limit (c ∷ s) = below limit (parse_digits 0 (c ∷ s))

below-lt : (limit : ℕ) (o : Option ℕ) {n : ℕ} → below limit o ≡ some n → n < limit
below-lt limit o h = ground arith

-- What is parsed fits the width.
pub parse_uint-lt : (limit : ℕ) (s : Str) {n : ℕ} → parse_uint limit s ≡ some n → n < limit
unfolding parse_uint
parse_uint-lt limit [] h = ground arith
parse_uint-lt limit (c ∷ s) h = below-lt limit (parse_digits 0 (c ∷ s)) h

parse_uint_example : parse_uint 4294967296 (codes "1024") ≡ some 1024
unfolding parse_uint
parse_uint_example = refl

parse_uint_range : parse_uint 4294967296 (codes "4294967296") ≡ none
unfolding parse_uint
parse_uint_range = refl
