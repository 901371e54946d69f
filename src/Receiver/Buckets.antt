-- ===== src/Receiver/Buckets.antt =====
-- The token counts of a span (internal/storage/tokens.go) after its attributes were normalized
-- (internal/receiver/otlp.go).
use labubu.Base.{
  ℕ, ◌≡◌, refl, sym, ap, ◌∙◌, inl, inr, Option, none, some, List, [], ◌∷◌, Option-cases,
}
use labubu.Base.Str.{Str, str_eq}
use labubu.Base.Dict.{nat_eq, bytes_eq, Dict, lookup}
use labubu.Base.Strconv.{parse_uint}
use labubu.Storage.Tokens.{
  read_uint32, derive_token_buckets, input_keys, output_keys, cache_creation_keys, cache_read_keys,
}
use labubu.Receiver.Proto.{attr_aliases, or_else, first_of, normalize_attributes}
use labubu.Receiver.Aliases.{from_fallbacks, or_else-none, normalize_attributes_lem}
use mathlib.Core.List.{Perm}

abbrev parsed : Option ℕ → Option ℕ → Option ℕ
parsed none rest = rest
parsed (some n) rest = some n

abbrev read_one : Option Str → Option ℕ → Option ℕ
read_one none rest = rest
read_one (some v) rest = parsed (parse_uint 4294967296 v) rest

read_uint32-cons :
    (attrs : Dict Str Str) (k : Str) (ks : List Str)
    → read_uint32 attrs (k ∷ ks) ≡ read_one (lookup k attrs) (read_uint32 attrs ks)
unfolding read_uint32
read_uint32-cons attrs k ks = elim (Option-cases (lookup k attrs)) [
  | inl missing ↦ rw (missing, read_uint32) refl
  | inr (v, found) ↦ elim (Option-cases (parse_uint 4294967296 v)) [
    | inl bad ↦ rw (found, read_uint32, bad) refl
    | inr (n, good) ↦ rw (found, read_uint32, good) refl
  ]
]

parsed_twice : (p r : Option ℕ) → parsed p (parsed p r) ≡ parsed p r
parsed_twice none r = refl
parsed_twice (some n) r = refl

read_one_filled :
    (s f g : Option Str)
    → read_one (or_else s (or_else f (or_else g none))) (read_one f (read_one g none))
      ≡ read_one s (read_one f (read_one g none))
read_one_filled (some v) f g = refl
read_one_filled none (some v) g = parsed_twice (parse_uint 4294967296 v) (read_one g none)
read_one_filled none none (some v) = parsed_twice (parse_uint 4294967296 v) none
read_one_filled none none none = refl

-- A standard key that was filled in from its two other keys reads what the three of them read.
read_filled :
    (attrs filled : Dict Str Str) (s f g : Str)
    → lookup s filled
      ≡ or_else (lookup s attrs) (or_else (lookup f attrs) (or_else (lookup g attrs) none))
    → lookup f filled ≡ lookup f attrs
    → lookup g filled ≡ lookup g attrs
    → read_uint32 filled (s ∷ f ∷ g ∷ []) ≡ read_uint32 attrs (s ∷ f ∷ g ∷ [])
unfolding read_uint32
read_filled attrs filled s f g hs hf hg =
    let three : (m : Dict Str Str)
        → read_uint32 m (s ∷ f ∷ g ∷ [])
          ≡ read_one (lookup s m) (read_one (lookup f m) (read_one (lookup g m) none)) =
      λ m.
        read_uint32-cons m s (f ∷ g ∷ [])
        ∙ ap (read_one (lookup s m)) (
            read_uint32-cons m f (g ∷ []) ∙ ap (read_one (lookup f m)) (read_uint32-cons m g [])) in
    let whole_ =
      or_else (lookup s attrs) (or_else (lookup f attrs) (or_else (lookup g attrs) none)) in
    three filled
    ∙ ap (λ o. read_one o (read_one (lookup f filled) (read_one (lookup g filled) none))) hs
    ∙ ap (λ o. read_one whole_ (read_one o (read_one (lookup g filled) none))) hf
    ∙ ap (λ o. read_one whole_ (read_one (lookup f attrs) (read_one o none))) hg
    ∙ read_one_filled (lookup s attrs) (lookup f attrs) (lookup g attrs)
    ∙ sym (three attrs)

-- The three keys of one bucket, as the table has them.
read_normalized :
    (order : Dict Str (List Str)) (attrs : Dict Str Str) (s f g : Str)
    → Perm order attr_aliases
    → lookup s attr_aliases ≡ some (f ∷ g ∷ [])
    → lookup f attr_aliases ≡ none
    → lookup g attr_aliases ≡ none
    → read_uint32 (normalize_attributes order attrs) (s ∷ f ∷ g ∷ [])
      ≡ read_uint32 attrs (s ∷ f ∷ g ∷ [])
unfolding first_of
read_normalized order attrs s f g p hs hf hg =
    let plain : (k : Str)
        → lookup k attr_aliases ≡ none
        → lookup k (normalize_attributes order attrs) ≡ lookup k attrs =
      λ k h.
        normalize_attributes_lem order attrs k p
        ∙ ap (λ o. or_else (lookup k attrs) (from_fallbacks o attrs)) h
        ∙ or_else-none (lookup k attrs) in
    read_filled attrs (normalize_attributes order attrs) s f g
      (normalize_attributes_lem order attrs s p
        ∙ ap (λ o. or_else (lookup s attrs) (from_fallbacks o attrs)) hs)
      (plain f hf) (plain g hg)

-- The entries of the table for the keys of the four counts.
abbrev InTable : List Str → Type 0
InTable [] = Unit
InTable (s ∷ []) = Unit
InTable (s ∷ f ∷ []) = Unit
InTable (s ∷ f ∷ g ∷ rest) =
    (lookup s attr_aliases ≡ some (f ∷ g ∷ rest))
    × (lookup f attr_aliases ≡ none)
    × (lookup g attr_aliases ≡ none)

keys-InTable :
    InTable input_keys × InTable output_keys × InTable cache_creation_keys × InTable cache_read_keys
unfolding lookup str_eq
keys-InTable = ((refl, refl, refl), (refl, refl, refl), (refl, refl, refl), (refl, refl, refl))

-- Normalizing a span's attributes leaves its token counts as they are, in whatever order the table
-- of keys is run through: they are derived from the same keys in the same order of preference.
pub derive_token_buckets-normalize_attributes :
    (order : Dict Str (List Str)) (attrs : Dict Str Str)
    → Perm order attr_aliases
    → derive_token_buckets (normalize_attributes order attrs) ≡ derive_token_buckets attrs
unfolding derive_token_buckets
derive_token_buckets-normalize_attributes order attrs p =
    let (i, o, c, r) = keys-InTable in
    let of_keys : (s f g : Str)
        → InTable (s ∷ f ∷ g ∷ [])
        → read_uint32 (normalize_attributes order attrs) (s ∷ f ∷ g ∷ [])
          ≡ read_uint32 attrs (s ∷ f ∷ g ∷ []) =
      λ s f g h. read_normalized order attrs s f g p h.0 h.1 h.2 in
    rw (of_keys _ _ _ i, of_keys _ _ _ o, of_keys _ _ _ c, of_keys _ _ _ r) refl
