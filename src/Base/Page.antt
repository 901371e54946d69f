-- ===== src/Base/Page.antt =====
-- The slice of one page that every listing takes, `xs[start:end]` with both ends brought down to
-- the length. A slice whose ends are out of order or negative panics, which is `none`.
use labubu.Base.Int.{
  ℤ, pos, negsuc, ◌+ℤ◌, ◌-ℤ◌, ◌*ℤ◌, ltb_ℤ, to_int64, to_int64-eq_of_range, int64_half,
}
use labubu.Base.Booleans.{ltb, if◌then◌else◌}
use labubu.Base.Lists.{length, take, drop, length-drop}
use Prim.Native.Nat.{ℕ, zero, suc, ◌+◌, ◌-◌, ◌*◌, ◌≤◌, ◌<◌, min}
use mathlib.Core.Path.{◌≡◌, refl, sym, ap, ◌∙◌}
use mathlib.Core.Bool.{false}
use mathlib.Core.List.{List, [], ◌∷◌, ◌++◌}
use mathlib.Core.Option.{Option, none, some}
use native.Mathlib.Omega.{arith}

-- `if n > total { n = total }`
abbrev cap_at : ℕ → ℤ → ℤ
cap_at total n = if ltb_ℤ (pos total) n then pos total else n

abbrev slice {ℓ} : {A : Type ℓ} → ℤ → ℤ → List A → Option (List A)
slice (pos i) (pos j) xs = if ltb j i then none else some (take (j - i) (drop i xs))
slice (pos i) (negsuc j) xs = none
slice (negsuc i) (pos j) xs = none
slice (negsuc i) (negsuc j) xs = none

unfoldable pub paginate {ℓ} : {A : Type ℓ} → ℤ → ℤ → List A → Option (List A)
paginate page page_size xs =
    let total = length xs in
    let start = cap_at total (to_int64 (to_int64 (page -ℤ pos 1) *ℤ page_size)) in
    let end = cap_at total (to_int64 (start +ℤ page_size)) in slice start end xs

module _ {ℓ} {A : Type ℓ} where
  drop-min : (s : ℕ) (xs : List A) → drop (min (length xs) s) xs ≡ drop s xs
  drop-min zero xs = let e : min (length xs) 0 ≡ 0 = omega arith in ap (λ n. drop n xs) e
  drop-min (suc s) [] = let e : min 0 (suc s) ≡ 0 = omega arith in ap (λ n. drop n []) e
  drop-min (suc s) (x ∷ xs) =
      let e : min (suc (length xs)) (suc s) ≡ suc (min (length xs) s) = omega arith in
      ap (λ n. drop n (x ∷ xs)) e ∙ drop-min s xs

  take-min : (n : ℕ) (xs : List A) → take (min n (length xs)) xs ≡ take n xs
  take-min zero xs = let e : min 0 (length xs) ≡ 0 = omega arith in ap (λ n. take n xs) e
  take-min (suc n) [] = let e : min (suc n) 0 ≡ 0 = omega arith in ap (λ n. take n []) e
  take-min (suc n) (x ∷ xs) =
      let e : min (suc n) (suc (length xs)) ≡ suc (min n (length xs)) = omega arith in
      ap (λ n. take n (x ∷ xs)) e ∙ ap (λ ys. x ∷ ys) (take-min n xs)

  take-nil : (n : ℕ) → take {A = A} n [] ≡ []
  take-nil zero = refl
  take-nil (suc n) = refl

  take-add : (a b : ℕ) (xs : List A) → take (a + b) xs ≡ take a xs ++ take b (drop a xs)
  take-add zero b xs = ap (λ n. take n xs) (omega arith)
  take-add (suc a) b [] = take-nil (suc a + b) ∙ sym (take-nil b)
  take-add (suc a) b (x ∷ xs) =
      let e : suc a + b ≡ suc (a + b) = omega arith in
      ap (λ n. take n (x ∷ xs)) e ∙ ap (λ ys. x ∷ ys) (take-add a b xs)

  take_all : (n : ℕ) (xs : List A) → length xs ≤ n → take n xs ≡ xs
  take_all zero [] h = refl
  take_all zero (x ∷ xs) h = absurd (omega arith)
  take_all (suc n) [] h = refl
  take_all (suc n) (x ∷ xs) h = ap (λ ys. x ∷ ys) (take_all n xs (omega arith))

  -- The entries between two ends that are brought down to the length.
  capped_slice :
      (s k : ℕ) (xs : List A)
      → take
          (min (length xs) (min (length xs) s + k) - min (length xs) s)
          (drop (min (length xs) s) xs)
        ≡ take k (drop s xs)
  capped_slice s k xs =
      ap (λ n. take n (drop (min (length xs) s) xs)) (omega (arith, length-drop s xs))
      ∙ ap (take (min k (length (drop s xs)))) (drop-min s xs)
      ∙ take-min k (drop s xs)

cap_at_lem : (total n : ℕ) → cap_at total (pos n) ≡ pos (min total n)
cap_at_lem total n = ground arith

previous : (p : ℕ) → suc p < int64_half → to_int64 (pos (suc p) -ℤ pos 1) ≡ pos p
unfolding ◌-ℤ◌
previous p h =
    let e : pos (suc p) -ℤ pos 1 ≡ pos p = ground arith in
    ap to_int64 e ∙ to_int64-eq_of_range (pos p) (omega arith) (omega arith)

times : (p k : ℕ) → p * k < int64_half → to_int64 (pos p *ℤ pos k) ≡ pos (p * k)
unfolding ◌*ℤ◌
times p k h =
    let e : pos p *ℤ pos k ≡ pos (p * k) = ground arith in
    ap to_int64 e ∙ to_int64-eq_of_range (pos (p * k)) h (omega arith)

plus : (a b : ℕ) → a + b < int64_half → to_int64 (pos a +ℤ pos b) ≡ pos (a + b)
unfolding ◌+ℤ◌
plus a b h =
    let e : pos a +ℤ pos b ≡ pos (a + b) = ground arith in
    ap to_int64 e ∙ to_int64-eq_of_range (pos (a + b)) h (omega arith)

-- Page `p + 1` of `k` entries each: those after the first `p * k`, at most `k` of them, and none
-- beyond the end. Nothing overflows while the numbers fit 63 bits.
pub paginate_lem {ℓ} :
    {A : Type ℓ} (p k : ℕ) (xs : List A)
    → suc p < int64_half
    → p * k < int64_half
    → length xs + k < int64_half
    → paginate (pos (suc p)) (pos k) xs ≡ some (take k (drop (p * k) xs))
unfolding paginate
paginate_lem p k xs hp hpk hk =
    let total = length xs in
    let start : cap_at total (to_int64 (to_int64 (pos (suc p) -ℤ pos 1) *ℤ pos k))
        ≡ pos (min total (p * k)) =
      ap (λ i. cap_at total (to_int64 (i *ℤ pos k))) (previous p hp)
      ∙ ap (cap_at total) (times p k hpk)
      ∙ cap_at_lem total (p * k) in
    let end : cap_at total (to_int64 (pos (min total (p * k)) +ℤ pos k))
        ≡ pos (min total (min total (p * k) + k)) =
      ap (cap_at total) (plus (min total (p * k)) k (omega arith))
      ∙ cap_at_lem total (min total (p * k) + k) in
    let ordered : ltb (min total (min total (p * k) + k)) (min total (p * k)) ≡ false =
      ground arith in
    ap (λ i. slice i (cap_at total (to_int64 (i +ℤ pos k))) xs) start
    ∙ ap (λ j. slice (pos (min total (p * k))) j xs) end
    ∙ rw ordered (ap some (capped_slice (p * k) k xs))

abbrev shown {ℓ} : {A : Type ℓ} → Option (List A) → List A
shown none = []
shown (some xs) = xs

-- The first `n` pages, one after the other.
unfoldable pages {ℓ} : {A : Type ℓ} → ℕ → ℕ → List A → List A
pages zero k xs = []
pages (suc n) k xs = pages n k xs ++ shown (paginate (pos (suc n)) (pos k) xs)

pages_lem {ℓ} :
    {A : Type ℓ} (n k : ℕ) (xs : List A)
    → n < int64_half
    → n * k < int64_half
    → length xs + k < int64_half
    → pages n k xs ≡ take (n * k) xs
unfolding pages
pages_lem zero k xs hn hnk hk = let none_ : 0 ≡ 0 * k = omega arith in ap (λ n. take n xs) none_
pages_lem (suc n) k xs hn hnk hk =
    let next : n * k + k ≡ suc n * k = omega arith in
    let before : n * k < int64_half = omega (arith, next) in
    ap (λ ys. ys ++ shown (paginate (pos (suc n)) (pos k) xs))
      (pages_lem n k xs (omega arith) before hk)
    ∙ ap (λ o. take (n * k) xs ++ shown o) (paginate_lem n k xs hn before hk)
    ∙ sym (take-add (n * k) k xs)
    ∙ ap (λ i. take i xs) next

-- As many pages as the list fills are together the whole list: no entry is left out or shown
-- twice. The numbers have to fit 63 bits.
pages_cover {ℓ} :
    {A : Type ℓ} (n k : ℕ) (xs : List A)
    → n < int64_half
    → n * k < int64_half
    → length xs + k < int64_half
    → length xs ≤ n * k
    → pages n k xs ≡ xs
pages_cover n k xs hn hnk hk full = pages_lem n k xs hn hnk hk ∙ take_all (n * k) xs full
