-- ===== src/Base/Dict/Rearranged.antt =====
-- Maps whose entries are written down in another order: Go's maps have none of their own.

use labubu.Base.Dict.{Eq, Dict, lookup, has, Distinct}
use mathlib.Core.Path.{◌≡◌, refl, sym, ap, ◌∙◌}
use mathlib.Core.Bool.{false}
use mathlib.Core.List.{Permᴰ}
use native.Mathlib.Omega.{arith}

module _ {ℓ κ} {K : Type ℓ} {V : Type κ} ⦃e : Eq K⦄ where
  pub has-permᴰ : {xs ys : Dict K V} → Permᴰ xs ys → (k : K) → has k xs ≡ has k ys
  unfolding has
  has-permᴰ Permᴰ.nil k = refl
  has-permᴰ (Permᴰ.cons {a = (i, v)} {b = (j, w)} p h) k =
      let same : i ≡ j = ap (λ (x : K × V). x.0) p in rw same (ground (arith, has-permᴰ h k))
  has-permᴰ (Permᴰ.swap {a = (i, v)} {b = (j, w)} {a' = (i', v')} {b' = (j', w')} p r) k =
      let first : i ≡ j' = ap (λ (x : K × V). x.0) p in
      let second : j ≡ i' = ap (λ (x : K × V). x.0) r in rw (first, second) (ground arith)
  has-permᴰ (Permᴰ.trans h g) k = has-permᴰ h k ∙ has-permᴰ g k

  pub Distinct-permᴰ : {xs ys : Dict K V} → Permᴰ xs ys → Distinct xs → Distinct ys
  unfolding has
  Distinct-permᴰ Permᴰ.nil d = tt
  Distinct-permᴰ (Permᴰ.cons {a = (i, v)} {b = (j, w)} {l₁ = xs} {l₂ = ys} p h) d =
      let same : i ≡ j = ap (λ (x : K × V). x.0) p in
      (ap (λ k. has k ys) (sym same) ∙ sym (has-permᴰ h i) ∙ d.0, Distinct-permᴰ h d.1)
  Distinct-permᴰ (Permᴰ.swap {a = (i, v)} {b = (j, w)} {a' = (i', v')} {b' = (j', w')} {l = xs} p r)
        d =
      let first : i ≡ j' = ap (λ (x : K × V). x.0) p in
      let second : j ≡ i' = ap (λ (x : K × V). x.0) r in
      let apart : e.beq i j ≡ false = ground (arith, d.0, e.beq_iff i j, e.beq_iff j i) in
      let absent : has i xs ≡ false = ground (arith, d.0) in
      let absent' : has i' xs ≡ false = ap (λ q. has q xs) (sym second) ∙ d.1.0 in
      let apart' : e.beq j' i' ≡ false =
        ap (λ q. e.beq j' q) (sym second) ∙ ap (λ q. e.beq q j) (sym first) ∙ apart in
      (ground (arith, absent', apart'), (ap (λ q. has q xs) (sym first) ∙ absent, d.1.1))
  Distinct-permᴰ (Permᴰ.trans h g) d = Distinct-permᴰ g (Distinct-permᴰ h d)

  -- A map without repeated keys answers the same in every order.
  pub lookup-permᴰ :
      {xs ys : Dict K V} → Permᴰ xs ys → Distinct xs → (k : K) → lookup k xs ≡ lookup k ys
  unfolding lookup has
  lookup-permᴰ Permᴰ.nil d k = refl
  lookup-permᴰ (Permᴰ.cons {a = (i, v)} {b = (j, w)} p h) d k =
      let same : i ≡ j = ap (λ (x : K × V). x.0) p in
      let value : v ≡ w = ap (λ (x : K × V). x.1) p in
      rw (same, value) (ground (arith, lookup-permᴰ h d.1 k))
  lookup-permᴰ (Permᴰ.swap {a = (i, v)} {b = (j, w)} {a' = (i', v')} {b' = (j', w')} p r) d k =
      let first : i ≡ j' = ap (λ (x : K × V). x.0) p in
      let second : j ≡ i' = ap (λ (x : K × V). x.0) r in
      let value : v ≡ w' = ap (λ (x : K × V). x.1) p in
      let value' : w ≡ v' = ap (λ (x : K × V). x.1) r in
      rw (sym first, sym second, sym value, sym value')
        (ground (arith, d.0, e.beq_iff i j, e.beq_iff j i, e.beq_iff i k, e.beq_iff j k))
  lookup-permᴰ (Permᴰ.trans h g) d k = lookup-permᴰ h d k ∙ lookup-permᴰ g (Distinct-permᴰ h d) k
