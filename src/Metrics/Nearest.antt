-- ===== src/Metrics/Nearest.antt =====
-- The closest point: pickClosestPoint of internal/api/metrics_handler.go.
use labubu.Base.{
  ℕ, ◌+◌, ◌-◌, ◌≤◌, ◌≡◌, refl, sym, ap, ◌∙◌, ◌⊎◌, inl, inr, Bool, true, false, none, some, List, [],
  ◌∷◌, arith, if◌then◌else◌, Bool-cases, All,
}
use labubu.Base.Int.{
  to_int64, to_int64-eq_of_range, eq_of_parts, ◌-ℤ◌, pos_part, neg_part, pos, negsuc, ℤ, ltb_ℤ,
}
use labubu.Base.Dict.{nat_eq, bytes_eq}
use labubu.Metrics.{abs64, MetricPoint, distance, closer_of, closest_from, pick_closest_point}
use mathlib.Core.List.{Memᴰ}
use mathlib.Core.Path.{subst}

ltb_ℤ_asym : (i j : ℤ) → ltb_ℤ i j ≡ true → ltb_ℤ j i ≡ false
ltb_ℤ_asym i j h = ground arith

ltb_ℤ_trans : (i j k : ℤ) → ltb_ℤ j i ≡ false → ltb_ℤ k j ≡ false → ltb_ℤ k i ≡ false
ltb_ℤ_trans i j k h g = ground arith

-- The distance of two integers.
abbrev pub gap : ℤ → ℤ → ℕ
gap a b = let x = pos_part a + neg_part b in let y = pos_part b + neg_part a in x - y + (y - x)

abbrev pub InRange : ℤ → Type 0
InRange z = (pos_part z ≤ 4611686018427387903) × (neg_part z ≤ 4611686018427387903)

sub_parts :
    (a b : ℤ)
    → (pos_part (a -ℤ b) ≡ pos_part a + neg_part b - (pos_part b + neg_part a))
      × (neg_part (a -ℤ b) ≡ pos_part b + neg_part a - (pos_part a + neg_part b))
unfolding ◌-ℤ◌
sub_parts (pos m) (pos n) = ground arith
sub_parts (pos m) (negsuc n) = ground arith
sub_parts (negsuc m) (pos n) = ground arith
sub_parts (negsuc m) (negsuc n) = ground arith

-- In range nothing wraps around.
int64_gap :
    (a b : ℤ)
    → InRange a
    → InRange b
    → (to_int64 (a -ℤ b) ≡ a -ℤ b)
      × ((if ltb_ℤ (a -ℤ b) (pos 0) then to_int64 (pos 0 -ℤ (a -ℤ b)) else a -ℤ b) ≡ pos (gap a b))
int64_gap a b h k =
    let (over, under) = sub_parts a b in
    let d = a -ℤ b in
    let (over', under') = sub_parts (pos 0) d in
    let plain = to_int64-eq_of_range d (omega (arith, over, h, k)) (omega (arith, under, h, k)) in
    let back =
      to_int64-eq_of_range (pos 0 -ℤ d) (omega (arith, over', over, under, h, k))
        (omega (arith, under', over, under, h, k)) in
    (
      plain,
      elim (Bool-cases (ltb_ℤ d (pos 0))) [
        | inl below ↦
            rw below (back ∙ eq_of_parts _ _ (ground (arith, over', under', over, under, below)))
        | inr above ↦ rw above (eq_of_parts _ _ (ground (arith, over, under, above)))
      ],
    )

pos_gap_le : (m n : ℕ) → ltb_ℤ (pos n) (pos m) ≡ false → m ≤ n
pos_gap_le m n h = ground arith

module _ {F : Type 0} where
  -- The point is one of the list, and none is closer to the target.
  record IsClosest (target : ℤ) (ps : List (MetricPoint F)) (best : MetricPoint F) : Type 0 where
    least : All (λ p. ltb_ℤ (distance target p) (distance target best) ≡ false) ps
    there : Memᴰ best ps

  closer_of-IsClosest :
      (target : ℤ) (b : Bool) (p best : MetricPoint F) (ps : List (MetricPoint F))
      (r : MetricPoint F)
      → ltb_ℤ (distance target p) (distance target best) ≡ b
      → IsClosest target (closer_of b p best ∷ ps) r
      → IsClosest target (best ∷ p ∷ ps) r
  closer_of-IsClosest target true p best ps r h c = record {
    least = (
      ltb_ℤ_trans (distance target r) (distance target p) (distance target best) c.least.0
          (ltb_ℤ_asym (distance target p) (distance target best) h),
      c.least,
    );
    there = Memᴰ.tail c.there;
  }
  closer_of-IsClosest target false p best ps r h c = record {
    least = (
      c.least.0,
      (
        ltb_ℤ_trans (distance target r) (distance target best) (distance target p) c.least.0 h,
        c.least.1,
      ),
    );
    there = behind c.there;
  }
    where
      behind : Memᴰ r (best ∷ ps) → Memᴰ r (best ∷ p ∷ ps)
      behind (Memᴰ.head e) = Memᴰ.head e
      behind (Memᴰ.tail m) = Memᴰ.tail (Memᴰ.tail m)

  closest_from-IsClosest :
      (target : ℤ) (best : MetricPoint F) (ps : List (MetricPoint F))
      → IsClosest target (best ∷ ps) (closest_from target best ps)
  unfolding closest_from
  closest_from-IsClosest target best [] = record {
    least = (ground arith, tt);
    there = Memᴰ.head refl;
  }
  closest_from-IsClosest target best (p ∷ ps) =
      let b = ltb_ℤ (distance target p) (distance target best) in
      closer_of-IsClosest target b p best ps (closest_from target (closer_of b p best) ps) refl
        (closest_from-IsClosest target (closer_of b p best) ps)

  distance-gap :
      (target : ℤ) (p : MetricPoint F)
      → InRange target
      → InRange p.timestamp
      → distance target p ≡ pos (gap p.timestamp target)
  unfolding distance abs64
  distance-gap target p h k = let (plain, back) = int64_gap p.timestamp target k h in rw plain back

  InRange-of_Memᴰ :
      (r : MetricPoint F) (ps : List (MetricPoint F))
      → Memᴰ r ps
      → All (λ (p : MetricPoint F). InRange p.timestamp) ps
      → InRange r.timestamp
  InRange-of_Memᴰ r [] m h = elim m [ ]
  InRange-of_Memᴰ r (p ∷ ps) (Memᴰ.head e) h =
      subst (λ (x : MetricPoint F). InRange x.timestamp) (sym e) h.0
  InRange-of_Memᴰ r (p ∷ ps) (Memᴰ.tail m) h = InRange-of_Memᴰ r ps m h.1

  -- The point is one of the list, and no other is nearer to the target in time.
  pub record IsNearest (target : ℤ) (ps : List (MetricPoint F)) (best : MetricPoint F)
      : Type 0 where
    pub nearest : All (λ (p : MetricPoint F). gap best.timestamp target ≤ gap p.timestamp target) ps
    pub there : Memᴰ best ps

  all_nearer :
      (target : ℤ) (best : MetricPoint F) (ps : List (MetricPoint F))
      → InRange target
      → InRange best.timestamp
      → All (λ (p : MetricPoint F). InRange p.timestamp) ps
      → All (λ p. ltb_ℤ (distance target p) (distance target best) ≡ false) ps
      → All (λ (p : MetricPoint F). gap best.timestamp target ≤ gap p.timestamp target) ps
  all_nearer target best [] ht hb hs h = tt
  all_nearer target best (p ∷ ps) ht hb hs h = (
    pos_gap_le _ _ (
        ap (λ d. ltb_ℤ (pos (gap p.timestamp target)) d) (sym (distance-gap target best ht hb))
        ∙ ap (λ d. ltb_ℤ d (distance target best)) (sym (distance-gap target p ht hs.0))
        ∙ h.0),
    all_nearer target best ps ht hb hs.1 h.1,
  )

  -- Of points there are, one is picked, and no other is nearer to the target in time; without points
  -- there is none. The times have to be within 2 ^ 62 milliseconds of the epoch.
  pub pick_closest_point-IsNearest :
      (ps : List (MetricPoint F)) (target : ℤ)
      → InRange target
      → All (λ (p : MetricPoint F). InRange p.timestamp) ps
      → ((pick_closest_point ps target ≡ none) × (ps ≡ []))
        ⊎ ((best : MetricPoint F) × (pick_closest_point ps target ≡ some best)
            × IsNearest target ps best)
  unfolding pick_closest_point
  pick_closest_point-IsNearest [] target ht hs = inl (refl, refl)
  pick_closest_point-IsNearest (p ∷ ps) target ht hs =
      let best = closest_from target p ps in
      let c = closest_from-IsClosest target p ps in
      inr (
        best,
        refl,
        record {
          nearest =
              all_nearer target best (p ∷ ps) ht (InRange-of_Memᴰ best (p ∷ ps) c.there hs) hs
                c.least;
          there = c.there;
        },
      )
