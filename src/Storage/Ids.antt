-- ===== src/Storage/Ids.antt =====
-- The hexadecimal form of identifiers: SpanIDToHex and TraceIDToHex of internal/storage/storage.go.
use labubu.Base.{
  ℕ, zero, suc, ◌+◌, ◌/◌, ◌%◌, ◌^◌, ◌<◌, ◌≡◌, refl, ◌≢◌, [], ◌∷◌, ◌++◌, arith, ltb, ◌==◌,
  if◌then◌else◌,
}
use native.Mathlib.Nat.{pow-suc}
use labubu.Base.Str.{Str}
use labubu.Base.Dict.{nat_eq, bytes_eq}

-- `0` to `9`, then `a` to `f`.
abbrev pub hex_char : ℕ → ℕ
hex_char d = if ltb d 10 then b'0' + d else 87 + d

-- The lowest `width` digits of `n`, the highest first.
unfoldable pub hex_digits : ℕ → ℕ → Str
hex_digits zero n = []
hex_digits (suc width) n = hex_digits width (n / 16) ++ hex_char (n % 16) ∷ []

unfoldable pub span_id_to_hex : ℕ → Str
unfolding hex_digits
span_id_to_hex id = if id == 0 then [] else hex_digits 16 id

unfoldable pub trace_id_to_hex : ℕ → Str
unfolding hex_digits
trace_id_to_hex id = hex_digits 32 id

hex_char-injective : (d e : ℕ) → d < 16 → e < 16 → hex_char d ≡ hex_char e → d ≡ e
hex_char-injective d e h k p = ground arith

-- The last entries of two lists that are equal.
last_eq : (xs ys : Str) (a b : ℕ) → xs ++ a ∷ [] ≡ ys ++ b ∷ [] → (xs ≡ ys) × (a ≡ b)
last_eq [] [] a b e = (refl, ground arith)
last_eq [] (y ∷ []) a b e = absurd (ground arith)
last_eq [] (y ∷ z ∷ ys) a b e = absurd (ground arith)
last_eq (x ∷ []) [] a b e = absurd (ground arith)
last_eq (x ∷ z ∷ xs) [] a b e = absurd (ground arith)
last_eq (x ∷ xs) (y ∷ ys) a b e = ground (arith, last_eq xs ys a b)

-- Digits written in front of `n`'s own digits do not change them.
hex_digits-injective :
    (width m n : ℕ)
    → m < 16 ^ width
    → n < 16 ^ width
    → hex_digits width m ≡ hex_digits width n
    → m ≡ n
unfolding hex_digits
hex_digits-injective zero m n h k e = omega arith
hex_digits-injective (suc width) m n h k e =
    let (high, low) = last_eq (hex_digits width (m / 16)) (hex_digits width (n / 16)) _ _ e in
    let high' =
      hex_digits-injective width (m / 16) (n / 16) (omega (arith, pow-suc 16 width))
        (omega (arith, pow-suc 16 width)) high in
    let low' = hex_char-injective (m % 16) (n % 16) (omega arith) (omega arith) low in omega arith

-- Two trace identifiers, sixteen bytes each, have the same text only if they are the same.
pub trace_id_to_hex-injective :
    (m n : ℕ) → m < 16 ^ 32 → n < 16 ^ 32 → trace_id_to_hex m ≡ trace_id_to_hex n → m ≡ n
unfolding trace_id_to_hex
trace_id_to_hex-injective m n h k e = hex_digits-injective 32 m n h k e

hex_digits-ne_nil : (width n : ℕ) → hex_digits (suc width) n ≢ []
unfolding hex_digits
hex_digits-ne_nil width n = not_snoc (hex_digits width (n / 16)) (hex_char (n % 16))
  where
    not_snoc : (xs : Str) (a : ℕ) → xs ++ a ∷ [] ≢ []
    not_snoc [] a = λ e. cc
    not_snoc (x ∷ xs) a = λ e. cc

-- Two span identifiers, eight bytes each, have the same text only if they are the same: the empty
-- text stands for the zero identifier alone.
pub span_id_to_hex-injective :
    (m n : ℕ) → m < 16 ^ 16 → n < 16 ^ 16 → span_id_to_hex m ≡ span_id_to_hex n → m ≡ n
unfolding span_id_to_hex
span_id_to_hex-injective m n h k e =
    ground (arith, hex_digits-ne_nil 15 m, hex_digits-ne_nil 15 n, hex_digits-injective 16 m n h k)
