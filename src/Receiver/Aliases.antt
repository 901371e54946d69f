-- ===== src/Receiver/Aliases.antt =====
-- What normalizeAttributes of internal/receiver/otlp.go makes of a span's attributes, in whatever
-- order the table of keys is run through.
use labubu.Base.{
  ◌≡◌, refl, sym, ap, ◌∙◌, inl, inr, Bool, true, false, not, ◌&&◌, Option, none, some, List, [],
  ◌∷◌, arith, if◌then◌else◌, Bool-cases, Option-cases, all, All,
}
use labubu.Base.Str.{Str, str_eq, str_eq_iff}
use labubu.Base.Dict.{nat_eq, bytes_eq, Dict, lookup, has, lookup-insert, Distinct, has-eq-lookup}
use labubu.Base.Sort.{All-perm}
use labubu.Base.Dict.Rearranged.{Distinct-permᴰ, lookup-permᴰ}
use labubu.Receiver.Proto.{attr_aliases, or_else, first_of, set_found, normalize_attributes}
use mathlib.Core.List.{Perm}
use mathlib.Core.List.Permᴰ
use mathlib.Core.Logic.{∥∥₁_elim}
use mathlib.Core.Option.{some-ne-none}

abbrev pub from_fallbacks : Option (List Str) → Dict Str Str → Option Str
from_fallbacks none attrs = none
from_fallbacks (some keys) attrs = first_of keys attrs

-- What a key is to read, said without a loop: what it read before; else, for a standard key, what
-- its first other key read that was there.
abbrev pub normal_value : Dict Str (List Str) → Str → Dict Str Str → Option Str
normal_value aliases k attrs = or_else (lookup k attrs) (from_fallbacks (lookup k aliases) attrs)

-- The other keys of an entry do not mention `s`.
abbrev Avoids : Str → Str × List Str → Type 0
Avoids s a = All (λ f. str_eq s f ≡ false) a.1

abbrev Separate : Dict Str (List Str) → Type 0
Separate [] = Unit
Separate ((s, fs) ∷ rest) = (has s rest ≡ false) × All (Avoids s) rest × Separate rest

pub or_else-none : (o : Option Str) → or_else o none ≡ o
or_else-none none = refl
or_else-none (some v) = refl

lookup-set_found :
    (s k : Str) (o : Option Str) (attrs : Dict Str Str)
    → lookup s attrs ≡ none
    → lookup k (set_found s o attrs) ≡ (if str_eq s k then o else lookup k attrs)
lookup-set_found s k none attrs h = elim (Bool-cases (str_eq s k)) [
  | inl same ↦ rw same (ap (λ j. lookup j attrs) (sym ((str_eq_iff s k).0 same)) ∙ h)
  | inr other ↦ rw other refl
]
lookup-set_found s k (some v) attrs h = lookup-insert s k v attrs

-- One round of the loop.
abbrev filled : Str → Option Str → Dict Str Str → Dict Str Str
filled s o attrs = if has s attrs then attrs else set_found s o attrs

lookup-filled :
    (s k : Str) (o : Option Str) (attrs : Dict Str Str)
    → lookup k (filled s o attrs)
      ≡ (if str_eq s k then or_else (lookup s attrs) o else lookup k attrs)
lookup-filled s k o attrs = elim (Option-cases (lookup s attrs)) [
  | inl missing ↦
      let gone = (has-eq-lookup s attrs).1 missing in
      rw (gone, missing) (lookup-set_found s k o attrs missing)
  | inr (v, found) ↦ elim (Bool-cases (has s attrs)) [
    | inl there ↦ elim (Bool-cases (str_eq s k)) [
      | inl same ↦
          rw (there, found, same) (ap (λ j. lookup j attrs) (sym ((str_eq_iff s k).0 same)) ∙ found)
      | inr other ↦ rw (there, other) refl
    ]
    | inr gone ↦ absurd (some-ne-none v (sym found ∙ (has-eq-lookup s attrs).0 gone))
  ]
]

first_of-filled :
    (s : Str) (o : Option Str) (fs : List Str) (attrs : Dict Str Str)
    → All (λ f. str_eq s f ≡ false) fs
    → first_of fs (filled s o attrs) ≡ first_of fs attrs
unfolding first_of
first_of-filled s o [] attrs h = refl
first_of-filled s o (f ∷ fs) attrs h =
    let same : lookup f (filled s o attrs) ≡ lookup f attrs =
      lookup-filled s f o attrs ∙ rw h.0 refl in
    rw (same, first_of-filled s o fs attrs h.1) refl

from_fallbacks-filled :
    (s k : Str) (o : Option Str) (rest : Dict Str (List Str)) (attrs : Dict Str Str)
    → All (Avoids s) rest
    → from_fallbacks (lookup k rest) (filled s o attrs) ≡ from_fallbacks (lookup k rest) attrs
unfolding lookup
from_fallbacks-filled s k o [] attrs h = refl
from_fallbacks-filled s k o ((t, fs) ∷ rest) attrs h = elim (Bool-cases (str_eq t k)) [
  | inl same ↦ rw same (first_of-filled s o fs attrs h.0)
  | inr other ↦ rw other (from_fallbacks-filled s k o rest attrs h.1)
]

normal_value-filled :
    (s k : Str) (fs : List Str) (rest : Dict Str (List Str)) (attrs : Dict Str Str)
    → Separate ((s, fs) ∷ rest)
    → normal_value rest k (filled s (first_of fs attrs) attrs)
      ≡ normal_value ((s, fs) ∷ rest) k attrs
unfolding lookup
normal_value-filled s k fs rest attrs sep =
    rw
      (
        lookup-filled s k (first_of fs attrs) attrs,
        from_fallbacks-filled s k (first_of fs attrs) rest attrs sep.1,
      )
      (elim (Bool-cases (str_eq s k)) [
        | inl same ↦
            let e = (str_eq_iff s k).0 same in
            let only : lookup k rest ≡ none =
              (has-eq-lookup k rest).0 (ap (λ j. has j rest) (sym e) ∙ sep.0) in
            rw (same, only)
              (or_else-none (or_else (lookup s attrs) (first_of fs attrs))
                ∙ ap (λ j. or_else (lookup j attrs) (first_of fs attrs)) e)
        | inr other ↦ rw other refl
      ])

normalize_attributes-lookup :
    (aliases : Dict Str (List Str)) (attrs : Dict Str Str) (k : Str)
    → Separate aliases
    → lookup k (normalize_attributes aliases attrs) ≡ normal_value aliases k attrs
unfolding normalize_attributes lookup
normalize_attributes-lookup [] attrs k sep = sym (or_else-none (lookup k attrs))
normalize_attributes-lookup ((s, fs) ∷ rest) attrs k sep =
    normalize_attributes-lookup rest (filled s (first_of fs attrs) attrs) k sep.2
    ∙ normal_value-filled s k fs rest attrs sep

-- The other keys of an entry of the table are no standard keys.
abbrev plain : Str × List Str → Bool
plain a = all (λ f. not (has f attr_aliases)) a.1

abbrev standard : Str × List Str → Bool
standard a = has a.0 attr_aliases

both_true : (a b : Bool) → a && b ≡ true → (a ≡ true) × (b ≡ true)
both_true true b h = (refl, h)
both_true false b h = absurd (ground (arith, h))

negated : (a : Bool) → not a ≡ true → a ≡ false
negated true h = sym h
negated false h = refl

avoids_lem :
    (s : Str) (fs : List Str)
    → has s attr_aliases ≡ true
    → all (λ f. not (has f attr_aliases)) fs ≡ true
    → All (λ f. str_eq s f ≡ false) fs
unfolding all
avoids_lem s [] h p = tt
avoids_lem s (f ∷ fs) h p =
    let (front, back) =
      both_true (not (has f attr_aliases)) (all (λ g. not (has g attr_aliases)) fs) p in
    elim (Bool-cases (str_eq s f)) [
      | inl same ↦
          let clash : true ≡ false =
            sym h
            ∙ ap (λ k. has k attr_aliases) ((str_eq_iff s f).0 same)
            ∙ negated (has f attr_aliases) front in
          (same ∙ clash, avoids_lem s fs h back)
      | inr other ↦ (other, avoids_lem s fs h back)
    ]

no_clash :
    (s : Str) (rest : Dict Str (List Str))
    → has s attr_aliases ≡ true
    → All (λ a. plain a ≡ true) rest
    → All (Avoids s) rest
no_clash s [] h p = tt
no_clash s ((t, fs) ∷ rest) h p = (avoids_lem s fs h p.0, no_clash s rest h p.1)

separate_lem :
    (order : Dict Str (List Str))
    → Distinct order
    → All (λ a. plain a ≡ true) order
    → All (λ a. standard a ≡ true) order
    → Separate order
separate_lem [] d p s = tt
separate_lem ((t, fs) ∷ rest) d p s = (d.0, no_clash t rest s.0 p.1, separate_lem rest d.1 p.1 s.1)

aliases-Distinct : Distinct attr_aliases
unfolding has str_eq
aliases-Distinct = (refl, (refl, (refl, (refl, (refl, (refl, (refl, tt)))))))

aliases_plain : All (λ a. plain a ≡ true) attr_aliases
unfolding has all str_eq
aliases_plain = (refl, (refl, (refl, (refl, (refl, (refl, (refl, tt)))))))

aliases_standard : All (λ a. standard a ≡ true) attr_aliases
unfolding has str_eq
aliases_standard = (refl, (refl, (refl, (refl, (refl, (refl, (refl, tt)))))))

StrOption_set : IsSet (Option Str)
StrOption_set = hlevel

-- In whatever order the table is run through, a key reads what it read before; a standard key that
-- was not there reads what the first of its other keys read that was there.
pub normalize_attributes_lem :
    (order : Dict Str (List Str)) (attrs : Dict Str Str) (k : Str)
    → Perm order attr_aliases
    → lookup k (normalize_attributes order attrs) ≡ normal_value attr_aliases k attrs
normalize_attributes_lem order attrs k p = ∥∥₁_elim p (StrOption_set _ _) (λ h.
    let d = Distinct-permᴰ (Permᴰ.symm h) aliases-Distinct in
    let sep =
      separate_lem order d (All-perm plain p aliases_plain)
        (All-perm standard p aliases_standard) in
    normalize_attributes-lookup order attrs k sep
    ∙ ap (λ o. or_else (lookup k attrs) (from_fallbacks o attrs)) (lookup-permᴰ h d k))
