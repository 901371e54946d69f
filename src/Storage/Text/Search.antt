-- ===== src/Storage/Text/Search.antt =====
-- What containsSubstring of internal/storage/memstore.go decides.
use labubu.Base.{
  ℕ, zero, suc, ◌+◌, ◌-◌, ◌≤◌, ◌≡◌, refl, ap, ◌∙◌, ◌↔◌, inl, inr, true, false, [], ◌∷◌, ◌++◌, map,
  arith, ltb, ◌==◌, Bool-cases, length, drop, length-append,
}
use labubu.Base.Str.{Str}
use labubu.Base.Dict.{nat_eq, bytes_eq}
use labubu.Storage.Text.{fold_case, matches_here, search_from, contains_substring}

-- The same text, but for the case of its ASCII letters.
abbrev pub IsFolded : Str → Str → Type 0
IsFolded s t = map fold_case s ≡ map fold_case t

-- Somewhere in `s` stands `q`, but for case.
pub record Occurs (s q : Str) : Type 0 where
  pub before : Str
  pub found : Str
  pub after : Str
  pub parts : s ≡ before ++ (found ++ after)
  pub folded : IsFolded found q

length-IsFolded : (m q : Str) → IsFolded m q → length m ≡ length q
length-IsFolded [] [] e = refl
length-IsFolded [] (d ∷ q) e = absurd (ground arith)
length-IsFolded (c ∷ m) [] e = absurd (ground arith)
length-IsFolded (c ∷ m) (d ∷ q) e = ground (arith, length-IsFolded m q)

matches_here-parts :
    (s q : Str) → matches_here s q ≡ true → (m : Str) × (b : Str) × (s ≡ m ++ b) × IsFolded m q
unfolding matches_here
matches_here-parts s [] h = ([], s, refl, refl)
matches_here-parts [] (d ∷ q) h = absurd (ground arith)
matches_here-parts (c ∷ s) (d ∷ q) h = elim (Bool-cases (fold_case c == fold_case d)) [
  | inl same ↦
      let (m, b, e, k) = matches_here-parts s q (ground arith) in
      let head : fold_case c ≡ fold_case d = ground arith in
      (
        c ∷ m,
        b,
        ap (λ t. c ∷ t) e,
        ap (λ d'. d' ∷ map fold_case m) head ∙ ap (λ t. fold_case d ∷ t) k,
      )
  | inr other ↦ absurd (ground arith)
]

matches_here-append : (m b q : Str) → IsFolded m q → matches_here (m ++ b) q ≡ true
unfolding matches_here
matches_here-append m b [] e = refl
matches_here-append [] b (d ∷ q) e = absurd (ground arith)
matches_here-append (c ∷ m) b (d ∷ q) e = ground (arith, matches_here-append m b q)

Occurs-drop : (s q : Str) → Occurs (drop 1 s) q → Occurs s q
Occurs-drop [] q o = o
Occurs-drop (c ∷ s) q o = record {
  before = c ∷ o.before;
  found = o.found;
  after = o.after;
  parts = ap (λ t. c ∷ t) o.parts;
  folded = o.folded;
}

Occurs-nil : (s q : Str) → length q ≡ 0 → Occurs s q
Occurs-nil s [] h = record { before = []; found = []; after = s; parts = refl; folded = refl }
Occurs-nil s (d ∷ q) h = absurd (omega arith)

search_from-Occurs : (rounds : ℕ) (s q : Str) → search_from rounds s q ≡ true → Occurs s q
unfolding search_from
search_from-Occurs zero s q h =
    let (m, b, e, k) = matches_here-parts s q h in
    record { before = []; found = m; after = b; parts = e; folded = k }
search_from-Occurs (suc rounds) s q h = elim (Bool-cases (matches_here s q)) [
  | inl here ↦
      let (m, b, e, k) = matches_here-parts s q here in
      record { before = []; found = m; after = b; parts = e; folded = k }
  | inr later ↦ Occurs-drop s q (search_from-Occurs rounds (drop 1 s) q (rw later at h))
]

search_from-append :
    (rounds : ℕ) (a m b q : Str)
    → length a ≤ rounds
    → IsFolded m q
    → search_from rounds (a ++ (m ++ b)) q ≡ true
unfolding search_from
search_from-append zero [] m b q h e = matches_here-append m b q e
search_from-append zero (c ∷ a) m b q h e = absurd (omega arith)
search_from-append (suc rounds) [] m b q h e = rw (matches_here-append m b q e) refl
search_from-append (suc rounds) (c ∷ a) m b q h e =
    ground (arith, search_from-append rounds a m b q (omega arith) e)

contains-Occurs : (s q : Str) → contains_substring s q ≡ true → Occurs s q
unfolding contains_substring
contains-Occurs s q h = elim (Bool-cases (length q == 0)) [
  | inl nothing ↦ Occurs-nil s q (ground arith)
  | inr something ↦ elim (Bool-cases (ltb (length s) (length q))) [
    | inl short ↦ absurd (ground arith)
    | inr long ↦ search_from-Occurs (length s - length q) s q (ground arith)
  ]
]

Occurs-contains : (s q : Str) → Occurs s q → contains_substring s q ≡ true
unfolding contains_substring
Occurs-contains s q o =
    let as_long = length-IsFolded o.found q o.folded in
    let total : length s ≡ length o.before + (length o.found + length o.after) =
      ap length o.parts
      ∙ length-append o.before (o.found ++ o.after)
      ∙ ap (λ n. length o.before + n) (length-append o.found o.after) in
    let hit : search_from (length s - length q) s q ≡ true =
      ap (λ t. search_from (length s - length q) t q) o.parts
      ∙ search_from-append (length s - length q) o.before o.found o.after q
          (omega (arith, as_long, total)) o.folded in
    let fits : ltb (length s) (length q) ≡ false = ground (arith, as_long, total) in
    elim (Bool-cases (length q == 0)) [
      | inl nothing ↦ simp nothing refl
      | inr something ↦ simp (something, fits) hit
    ]

-- The search says yes exactly when the text, but for the case of ASCII letters, stands somewhere in
-- the other one.
pub contains_substring-iff_Occurs : (s q : Str) → (contains_substring s q ≡ true) ↔ Occurs s q
contains_substring-iff_Occurs s q = (contains-Occurs s q, Occurs-contains s q)
