-- ===== src/Base/Sort.antt =====
-- The standard library's `sort.Slice`: what its documentation promises, as an interface, and an
-- insertion sort that keeps the promise. `sort.Slice` is not stable, so where two entries are
-- equal under the order nothing is assumed of which one comes first.
use Prim.Native.Nat.{suc}
use mathlib.Core.Path.{◌≡◌, refl, sym, ap, ◌∙◌}
use mathlib.Core.Logic.{∥∥₁_elim, inl, inr}
use mathlib.Core.Bool.{Bool, true, false, not}
use mathlib.Core.List.{List, [], ◌∷◌, Perm, Permᴰ}
use mathlib.Core.List.Perm
use native.Mathlib.Nat.{ℕ_set}
use native.Mathlib.Omega.{arith}
use labubu.Base.Booleans.{if◌then◌else◌, Bool-cases}
use labubu.Base.Lists.{All, count, length}

module _ {A : Type 0} (less : A → A → Bool) where
  -- No entry is below one that stands in front of it.
  abbrev pub IsSorted : List A → Type 0
  IsSorted [] = Unit
  IsSorted (x ∷ xs) = All (λ y. less y x ≡ false) xs × IsSorted xs

  -- A strict weak order, as a test.
  pub record IsWeakOrder : Type 0 where
    pub asym : (x y : A) → less x y ≡ true → less y x ≡ false
    pub trans : (x y z : A) → less y x ≡ false → less z y ≡ false → less z x ≡ false

  insert_sorted : A → List A → List A
  insert_sorted x [] = x ∷ []
  insert_sorted x (y ∷ ys) = if less x y then x ∷ y ∷ ys else y ∷ insert_sorted x ys

  unfoldable pub insertion_sort : List A → List A
  unfolding insert_sorted
  insertion_sort [] = []
  insertion_sort (x ∷ xs) = insert_sorted x (insertion_sort xs)

pub record Sorter : Type 1 where
  pub sort_slice : {A : Type 0} → (A → A → Bool) → List A → List A
  pub sort_slice-perm :
      {A : Type 0} (less : A → A → Bool) (xs : List A) → Perm (sort_slice less xs) xs
  pub sort_slice-IsSorted :
      {A : Type 0} (less : A → A → Bool) (xs : List A)
      → IsWeakOrder less
      → IsSorted less (sort_slice less xs)

module _ {A : Type 0} (less : A → A → Bool) where
  insert_sorted-perm : (x : A) (xs : List A) → Perm (insert_sorted less x xs) (x ∷ xs)
  unfolding insert_sorted
  insert_sorted-perm x [] = Perm.refl (x ∷ [])
  insert_sorted-perm x (y ∷ ys) = elim (Bool-cases (less x y)) [
    | inl below ↦ rw below (Perm.refl (x ∷ y ∷ ys))
    | inr above ↦ rw above (Perm.trans (Perm.cons y (insert_sorted-perm x ys)) (Perm.swap x y ys))
  ]

  pub insertion_sort-perm : (xs : List A) → Perm (insertion_sort less xs) xs
  unfolding insertion_sort
  insertion_sort-perm [] = Perm.refl []
  insertion_sort-perm (x ∷ xs) =
      Perm.trans (insert_sorted-perm x (insertion_sort less xs))
        (Perm.cons x (insertion_sort-perm xs))

  -- What holds of the new entry and of the others holds of all of them.
  insert_sorted-All :
      (P : A → Type 0) (x : A) (xs : List A) → P x → All P xs → All P (insert_sorted less x xs)
  unfolding insert_sorted
  insert_sorted-All P x [] px h = (px, tt)
  insert_sorted-All P x (y ∷ ys) px h = elim (Bool-cases (less x y)) [
    | inl below ↦ rw below (px, h)
    | inr above ↦ rw above (h.0, insert_sorted-All P x ys px h.1)
  ]

  All-trans :
      (w : IsWeakOrder less) (x y : A) (xs : List A)
      → less y x ≡ false
      → All (λ z. less z y ≡ false) xs
      → All (λ z. less z x ≡ false) xs
  All-trans w x y [] h k = tt
  All-trans w x y (z ∷ zs) h k = (w.trans x y z h k.0, All-trans w x y zs h k.1)

  insert_sorted-IsSorted :
      (w : IsWeakOrder less) (x : A) (xs : List A)
      → IsSorted less xs
      → IsSorted less (insert_sorted less x xs)
  unfolding insert_sorted
  insert_sorted-IsSorted w x [] h = (tt, tt)
  insert_sorted-IsSorted w x (y ∷ ys) h = elim (Bool-cases (less x y)) [
    | inl below ↦ rw below ((w.asym x y below, All-trans w x y ys (w.asym x y below) h.0), h)
    | inr above ↦ rw above (
      insert_sorted-All (λ z. less z y ≡ false) x ys above h.0,
      insert_sorted-IsSorted w x ys h.1,
    )
  ]

  pub insertion_sort-IsSorted :
      (xs : List A) → IsWeakOrder less → IsSorted less (insertion_sort less xs)
  unfolding insertion_sort
  insertion_sort-IsSorted [] w = tt
  insertion_sort-IsSorted (x ∷ xs) w =
      insert_sorted-IsSorted w x (insertion_sort less xs) (insertion_sort-IsSorted xs w)

-- The interface can be met.
abbrev pub insertion : Sorter
insertion = record {
  sort_slice = insertion_sort;
  sort_slice-perm = insertion_sort-perm;
  sort_slice-IsSorted = insertion_sort-IsSorted;
}

module _ {A : Type 0} where
  count-permᴰ : (p : A → Bool) {xs ys : List A} → Permᴰ xs ys → count p xs ≡ count p ys
  unfolding count
  count-permᴰ p Permᴰ.nil = refl
  count-permᴰ p (Permᴰ.cons e h) = ground (arith, count-permᴰ p h)
  count-permᴰ p (Permᴰ.swap e e') = ground arith
  count-permᴰ p (Permᴰ.trans h k) = count-permᴰ p h ∙ count-permᴰ p k

  -- A rearrangement has as many entries that pass a test.
  pub count-perm : (p : A → Bool) {xs ys : List A} → Perm xs ys → count p xs ≡ count p ys
  count-perm p h = ∥∥₁_elim h (ℕ_set _ _) (count-permᴰ p)

  count-true : (xs : List A) → count (λ x. true) xs ≡ length xs
  unfolding count
  count-true [] = refl
  count-true (x ∷ xs) = ap suc (count-true xs)

  pub length-perm : {xs ys : List A} → Perm xs ys → length xs ≡ length ys
  length-perm {xs} {ys} h = sym (count-true xs) ∙ count-perm (λ x. true) h ∙ count-true ys

  count-All :
      (p : A → Bool) (xs : List A) → count (λ x. not (p x)) xs ≡ 0 → All (λ x. p x ≡ true) xs
  unfolding count
  count-All p [] h = tt
  count-All p (x ∷ xs) h = ground (arith, count-All p xs)

  All-count :
      (p : A → Bool) (xs : List A) → All (λ x. p x ≡ true) xs → count (λ x. not (p x)) xs ≡ 0
  unfolding count
  All-count p [] h = refl
  All-count p (x ∷ xs) h = ground (arith, All-count p xs)

  -- A test that every entry passes is passed by every entry of a rearrangement.
  pub All-perm :
      (p : A → Bool) {xs ys : List A}
      → Perm xs ys
      → All (λ x. p x ≡ true) ys
      → All (λ x. p x ≡ true) xs
  All-perm p {xs} {ys} h all = count-All p xs (count-perm (λ x. not (p x)) h ∙ All-count p ys all)
