-- ===== src/Storage/Tokens.antt =====
-- The token counts of a span: DeriveTokenBuckets and readUint32 of internal/storage/tokens.go.
use labubu.Base.{
  ℕ, ◌+◌, ◌<◌, ◌≡◌, ◌↔◌, inl, inr, Bool, true, false, ◌&&◌, Option, none, some, List, [], ◌∷◌, ◌++◌,
  arith, if◌then◌else◌, Option-cases, All,
}
use labubu.Base.Str.{Str, codes}
use labubu.Base.Dict.{nat_eq, bytes_eq, Dict, lookup}
use labubu.Base.Strconv.{parse_uint, parse_uint-lt}
use labubu.Base.Words.{u32}

-- The loop over the keys: the first one that is present and parses.
unfoldable pub read_uint32 : Dict Str Str → List Str → Option ℕ
unfolding lookup parse_uint
read_uint32 attrs [] = none
read_uint32 attrs (k ∷ ks) =
    let rest = read_uint32 attrs ks in
    elim (lookup k attrs) [
      | none ↦ rest
      | some v ↦ elim (parse_uint 4294967296 v) [ none ↦ rest | some n ↦ some n ]
    ]

pub record Buckets : Type 0 where
  pub input : Option ℕ
  pub output : Option ℕ
  pub cache_creation : Option ℕ
  pub cache_read : Option ℕ
  pub total : Option ℕ

abbrev pub input_keys : List Str
input_keys =
    codes "gen_ai.usage.input_tokens" ∷ codes "input_tokens" ∷ codes "llm.usage.input_tokens" ∷ []

abbrev pub output_keys : List Str
output_keys =
    codes "gen_ai.usage.output_tokens"
    ∷ codes "output_tokens"
    ∷ codes "llm.usage.output_tokens"
    ∷ []

abbrev pub cache_creation_keys : List Str
cache_creation_keys =
    codes "gen_ai.usage.cache_creation_input_tokens"
    ∷ codes "cache_creation_tokens"
    ∷ codes "cache_creation_input_tokens"
    ∷ []

abbrev pub cache_read_keys : List Str
cache_read_keys =
    codes "gen_ai.usage.cache_read_input_tokens"
    ∷ codes "cache_read_tokens"
    ∷ codes "cache_read_input_tokens"
    ∷ []

-- `if p != nil { sum += *p }`
abbrev pub add_tokens : ℕ → Option ℕ → ℕ
add_tokens sum none = sum
add_tokens sum (some n) = u32 (sum + n)

abbrev is_none : Option ℕ → Bool
is_none none = true
is_none (some n) = false

-- The sum of the buckets that are there, none if none is.
unfoldable pub total_of : Option ℕ → Option ℕ → Option ℕ → Option ℕ → Option ℕ
total_of i o c r =
    if is_none i && is_none o && is_none c && is_none r
    then none
    else some (add_tokens (add_tokens (add_tokens (add_tokens 0 i) o) c) r)

unfoldable pub derive_token_buckets : Dict Str Str → Buckets
unfolding read_uint32 total_of
derive_token_buckets attrs =
    let i = read_uint32 attrs input_keys in
    let o = read_uint32 attrs output_keys in
    let c = read_uint32 attrs cache_creation_keys in
    let r = read_uint32 attrs cache_read_keys in
    record { input = i; output = o; cache_creation = c; cache_read = r; total = total_of i o c r }

-- A bucket that is absent counts nothing.
abbrev pub tokens_or_zero : Option ℕ → ℕ
tokens_or_zero none = 0
tokens_or_zero (some n) = n

read_uint32-lt :
    (attrs : Dict Str Str) (keys : List Str) → tokens_or_zero (read_uint32 attrs keys) < 4294967296
unfolding read_uint32
read_uint32-lt attrs [] = omega arith
read_uint32-lt attrs (k ∷ ks) = elim (Option-cases (lookup k attrs)) [
  | inl missing ↦ rw (missing, read_uint32) (read_uint32-lt attrs ks)
  | inr (v, found) ↦ elim (Option-cases (parse_uint 4294967296 v)) [
    | inl bad ↦ rw (found, read_uint32, bad) (read_uint32-lt attrs ks)
    | inr (n, good) ↦ rw (found, read_uint32, good) (parse_uint-lt 4294967296 v good)
  ]
]

total_of_lem :
    (i o c r : Option ℕ)
    → tokens_or_zero (total_of i o c r)
      ≡ u32 (tokens_or_zero i + tokens_or_zero o + tokens_or_zero c + tokens_or_zero r)
unfolding total_of
total_of_lem i o c r = ground arith

total_of-eq_none :
    (i o c r : Option ℕ)
    → (total_of i o c r ≡ none) ↔ ((i ≡ none) × (o ≡ none) × (c ≡ none) × (r ≡ none))
unfolding total_of
total_of-eq_none i o c r = (λ h. ground arith, λ h. ground arith)

-- The total is the sum of the four buckets, wrapped at 32 bits, and is absent exactly when all four
-- are; each bucket fits 32 bits.
pub record IsTotalled (b : Buckets) : Type 0 where
  pub sum :
      tokens_or_zero b.total
      ≡ u32 (
          tokens_or_zero b.input
          + tokens_or_zero b.output
          + tokens_or_zero b.cache_creation
          + tokens_or_zero b.cache_read)
  pub absent :
      (b.total ≡ none)
      ↔ ((b.input ≡ none) × (b.output ≡ none) × (b.cache_creation ≡ none) × (b.cache_read ≡ none))
  pub input_fits : tokens_or_zero b.input < 4294967296
  pub output_fits : tokens_or_zero b.output < 4294967296
  pub cache_creation_fits : tokens_or_zero b.cache_creation < 4294967296
  pub cache_read_fits : tokens_or_zero b.cache_read < 4294967296

-- For every attribute map the derived total is the sum of the four buckets, wrapped at 32 bits, and
-- is absent exactly when all four are absent; each bucket fits 32 bits.
pub derive_token_buckets-IsTotalled :
    (attrs : Dict Str Str) → IsTotalled (derive_token_buckets attrs)
unfolding derive_token_buckets
derive_token_buckets-IsTotalled attrs = record {
  sum =
      total_of_lem (read_uint32 attrs input_keys) (read_uint32 attrs output_keys)
        (read_uint32 attrs cache_creation_keys) (read_uint32 attrs cache_read_keys);
  absent =
      total_of-eq_none (read_uint32 attrs input_keys) (read_uint32 attrs output_keys)
        (read_uint32 attrs cache_creation_keys) (read_uint32 attrs cache_read_keys);
  input_fits = read_uint32-lt attrs input_keys;
  output_fits = read_uint32-lt attrs output_keys;
  cache_creation_fits = read_uint32-lt attrs cache_creation_keys;
  cache_read_fits = read_uint32-lt attrs cache_read_keys;
}

-- The first key of the list that is there and holds a number decides, whatever the later keys hold.
pub read_uint32-first :
    (attrs : Dict Str Str) (before after : List Str) (k v : Str) (n : ℕ)
    → All (λ j. read_uint32 attrs (j ∷ []) ≡ none) before
    → lookup k attrs ≡ some v
    → parse_uint 4294967296 v ≡ some n
    → read_uint32 attrs (before ++ k ∷ after) ≡ some n
unfolding read_uint32
read_uint32-first attrs [] after k v n h found good = rw (found, read_uint32, good)
read_uint32-first attrs (j ∷ before) after k v n h found good =
    ground (arith, read_uint32-first attrs before after k v n h.1 found good)
