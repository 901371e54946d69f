-- ===== src/Base/Words.antt =====
-- Go's unsigned integers: every sum and difference is brought back into its width.
use Prim.Native.Nat.{ℕ, ◌+◌, ◌-◌, ◌%◌, ◌≤◌, ◌<◌}
use mathlib.Core.Path.{◌≡◌}
use native.Mathlib.Omega.{arith}

abbrev pub u16 : ℕ → ℕ
u16 n = n % 65536

abbrev pub u32 : ℕ → ℕ
u32 n = n % 4294967296

abbrev pub u64 : ℕ → ℕ
u64 n = n % 18446744073709551616

-- `a - b` on `uint64`.
abbrev pub sub_u64 : ℕ → ℕ → ℕ
sub_u64 a b = (a + 18446744073709551616 - b) % 18446744073709551616

-- Adding up in wrapped steps is wrapping once.
pub u32-add : (a b : ℕ) → u32 (u32 a + b) ≡ u32 (a + b)
u32-add a b = omega arith

pub u16-add : (a b : ℕ) → u16 (u16 a + b) ≡ u16 (a + b)
u16-add a b = omega arith

pub sub_u64-eq : (a b : ℕ) → b ≤ a → a < 18446744073709551616 → sub_u64 a b ≡ a - b
sub_u64-eq a b h k = omega arith
