-- ===== src/Base/Floats.antt =====
-- `float64`, as an interface: the values and the operations that the program uses. Nothing is
-- assumed of rounding; a law that a theorem needs is a hypothesis of that theorem.
use Prim.Native.Nat.{ℕ, ◌+◌, ◌*◌, ◌/◌}
use mathlib.Core.Bool.{Bool}
use labubu.Base.Booleans.{ltb, ◌==◌}

pub record Floats : Type 1 where
  pub Float : Type 0
  pub zero_float : Float
  pub add : Float → Float → Float
  pub sub : Float → Float → Float
  pub mul : Float → Float → Float
  pub div : Float → Float → Float
  -- the conversion of an unsigned integer
  pub of_nat : ℕ → Float
  -- the decimal constant with the given numerator and denominator
  pub constant : ℕ → ℕ → Float
  -- `math.Round`
  pub round : Float → Float
  pub less : Float → Float → Bool
  pub equal : Float → Float → Bool
  -- the conversion to `uint64` and to `int` of a value that is not negative
  pub truncate : Float → ℕ

-- Whole numbers in place of floats, to run examples.
abbrev pub whole : Floats
whole = record {
  Float = ℕ;
  zero_float = 0;
  add = λ a b. a + b;
  sub = λ a b. a;
  mul = λ a b. a * b;
  div = λ a b. a / b;
  of_nat = λ n. n;
  constant = λ n d. n / d;
  round = λ a. a;
  less = ltb;
  equal = λ a b. a == b;
  truncate = λ a. a;
}
