-- ===== src/Base/Dict.antt =====
-- Go maps as association lists. The order of the entries stands for the order in which `range`
-- meets them, which Go leaves open: a statement about every association list covers every order.
pub mod Rearranged
use Prim.Native.Nat.{ℕ}
use mathlib.Core.Path.{◌≡◌, refl, sym, ap, ◌∙◌}
use mathlib.Core.Logic.{◌↔◌, inl, inr}
use mathlib.Core.Bool.{Bool, true, false, not, ◌||◌}
use mathlib.Core.List.{List, [], ◌∷◌, ◌++◌}
use mathlib.Core.Option.{Option, none, some, some-ne-none}
use native.Mathlib.Omega.{arith}
use labubu.Base.Booleans.{◌==◌, ==_iff, if◌then◌else◌, Bool-cases}
use labubu.Base.Lists.{keep, All}
use labubu.Base.Str.{Str, str_eq, str_eq_iff}

pub record Eq {ℓ} (A : Type ℓ) : Type ℓ where
  pub beq : A → A → Bool
  pub beq_iff : (a b : A) → (beq a b ≡ true) ↔ (a ≡ b)

instance abbrev pub nat_eq : Eq ℕ
nat_eq = record { beq = λ a b. a == b; beq_iff = ==_iff }

instance abbrev pub bytes_eq : Eq Str
bytes_eq = record { beq = str_eq; beq_iff = str_eq_iff }

abbrev pub Dict {ℓ κ} : Type ℓ → Type κ → Type (ℓ ⊔ κ)
Dict K V = List (K × V)

module _ {ℓ κ} {K : Type ℓ} {V : Type κ} ⦃e : Eq K⦄ where
  unfoldable pub lookup : K → Dict K V → Option V
  lookup k [] = none
  lookup k ((j, v) ∷ m) = if e.beq j k then some v else lookup k m

  unfoldable pub insert : K → V → Dict K V → Dict K V
  insert k v [] = (k, v) ∷ []
  insert k v ((j, w) ∷ m) = if e.beq j k then (k, v) ∷ m else (j, w) ∷ insert k v m

  unfoldable pub delete : K → Dict K V → Dict K V
  delete k m = keep (λ x. not (e.beq x.0 k)) m

  -- Whether the map has the key.
  unfoldable pub has : K → Dict K V → Bool
  has k [] = false
  has k ((j, v) ∷ m) = if e.beq j k then true else has k m

module _ {ℓ κ} {K : Type ℓ} {V : Type κ} ⦃e : Eq K⦄ where
  pub lookup-insert :
      (k j : K) (v : V) (m : Dict K V)
      → lookup j (insert k v m) ≡ (if e.beq k j then some v else lookup j m)
  unfolding lookup insert
  lookup-insert k j v [] = refl
  lookup-insert k j v ((i, w) ∷ m) =
      ground (arith, e.beq_iff k j, e.beq_iff i k, e.beq_iff i j, lookup-insert k j v m)

  pub lookup-insert_self : (k : K) (v : V) (m : Dict K V) → lookup k (insert k v m) ≡ some v
  lookup-insert_self k v m = rw (lookup-insert k k v m, (e.beq_iff k k).1 refl)

  pub lookup-delete :
      (k j : K) (m : Dict K V) → lookup j (delete k m) ≡ (if e.beq k j then none else lookup j m)
  unfolding lookup delete keep
  lookup-delete k j [] = ground arith
  lookup-delete k j ((i, w) ∷ m) =
      ground (arith, e.beq_iff k j, e.beq_iff i k, e.beq_iff i j, lookup-delete k j m)

module _ {ℓ κ} {K : Type ℓ} {V : Type κ} ⦃e : Eq K⦄ where
  -- No key stands twice.
  abbrev pub Distinct : Dict K V → Type 0
  Distinct [] = Unit
  Distinct ((k, v) ∷ m) = (has k m ≡ false) × Distinct m

  pub has-insert :
      (k j : K) (v : V) (m : Dict K V)
      → has j (insert k v m) ≡ (if e.beq k j then true else has j m)
  unfolding has insert
  has-insert k j v [] = refl
  has-insert k j v ((i, w) ∷ m) =
      ground (arith, e.beq_iff k j, e.beq_iff i k, e.beq_iff i j, has-insert k j v m)

  pub has_of_delete : (k j : K) (m : Dict K V) → has j m ≡ false → has j (delete k m) ≡ false
  unfolding has delete keep
  has_of_delete k j [] h = refl
  has_of_delete k j ((i, w) ∷ m) h = ground (arith, has_of_delete k j m)

  pub insert-Distinct : (k : K) (v : V) (m : Dict K V) → Distinct m → Distinct (insert k v m)
  unfolding insert
  insert-Distinct k v [] d = (unfold has in refl, tt)
  insert-Distinct k v ((i, w) ∷ m) d =
      ground (arith, has-insert k i v m, insert-Distinct k v m, e.beq_iff i k, e.beq_iff k i)

  pub delete-Distinct : (k : K) (m : Dict K V) → Distinct m → Distinct (delete k m)
  unfolding delete keep
  delete-Distinct k [] d = tt
  delete-Distinct k ((i, w) ∷ m) d = ground (arith, has_of_delete k i m, delete-Distinct k m)

  -- A new key goes to the end.
  pub insert_fresh :
      (k : K) (v : V) (m : Dict K V) → has k m ≡ false → insert k v m ≡ m ++ (k, v) ∷ []
  unfolding insert has
  insert_fresh k v [] h = refl
  insert_fresh k v ((i, w) ∷ m) h = ground (arith, insert_fresh k v m)

  pub has_of_append : (k : K) (m n : Dict K V) → has k (m ++ n) ≡ (has k m || has k n)
  unfolding has
  has_of_append k [] n = refl
  has_of_append k ((i, w) ∷ m) n = ground (arith, has_of_append k m n)

  pub has-eq-lookup : (k : K) (m : Dict K V) → (has k m ≡ false) ↔ (lookup k m ≡ none)
  unfolding has lookup
  has-eq-lookup k [] = (λ h. refl, λ h. refl)
  has-eq-lookup k ((i, w) ∷ m) = ground (arith, has-eq-lookup k m)

  -- What holds of every entry and of a new one holds after `insert`, and so after `delete`.
  pub insert-All :
      (P : K × V → Type 0) (k : K) (v : V) (m : Dict K V)
      → P (k, v)
      → All P m
      → All P (insert k v m)
  unfolding insert
  insert-All P k v [] p h = (p, tt)
  insert-All P k v ((i, w) ∷ m) p h = elim (Bool-cases (e.beq i k)) [
    | inl same ↦ rw same (p, h.1)
    | inr new ↦ rw new (h.0, insert-All P k v m p h.1)
  ]

module _ {ℓ κ} {K : Type ℓ} {V : Type κ} ⦃e : Eq K⦄ where
  lookup-skip :
      (j k : K) (w v : V) (m : Dict K V)
      → has j m ≡ false
      → lookup k m ≡ some v
      → lookup k ((j, w) ∷ m) ≡ some v
  unfolding lookup
  lookup-skip j k w v m h l = elim (Bool-cases (e.beq j k)) [
    | inl same ↦ absurd (
        some-ne-none v
          (sym l ∙ ap (λ i. lookup i m) (sym ((e.beq_iff j k).0 same)) ∙ (has-eq-lookup j m).0 h))
    | inr other ↦ rw other l
  ]

  -- What holds of every key and the value that it finds holds of every entry.
  pub All-lookup {κ'} :
      (P : K × V → Type κ') (m : Dict K V)
      → Distinct m
      → ((k : K) (v : V) → lookup k m ≡ some v → P (k, v))
      → All P m
  unfolding lookup
  All-lookup P [] d f = tt
  All-lookup P ((j, w) ∷ m) d f = (
    f j w (rw ((e.beq_iff j j).1 refl) refl),
    All-lookup P m d.1 (λ k v l. f k v (lookup-skip j k w v m d.0 l)),
  )

pub keep-All_of_All {ℓ κ} :
    {A : Type ℓ} (P : A → Type κ) (p : A → Bool) (xs : List A) → All P xs → All P (keep p xs)
unfolding keep
keep-All_of_All P p [] h = tt
keep-All_of_All P p (x ∷ xs) h = elim (Bool-cases (p x)) [
  | inl yes' ↦ rw yes' (h.0, keep-All_of_All P p xs h.1)
  | inr no' ↦ rw no' (keep-All_of_All P p xs h.1)
]
