-- ===== src/Storage/Mem/PurgeLaws.antt =====
-- What Purge of internal/storage/memstore.go keeps and what it deletes.
use labubu.Base.{
  ℕ, zero, suc, ◌+◌, ◌≤◌, ◌≡◌, refl, ap, ◌∙◌, inl, inr, Bool, true, false, ◌||◌, List, [], ◌∷◌,
  ◌++◌, arith, ltb, ◌==◌, Bool-cases, length, count, any, All, length-take, length-keep,
  count_split,
}
use labubu.Base.Int.{ℤ, pos, negsuc}
use labubu.Base.Dict.{nat_eq, bytes_eq, Dict, insert, has, Distinct, has-insert}
use labubu.Base.Sort.{Sorter}
use labubu.Storage.Types.{Span, Trace}
use labubu.Storage.Mem.{MemStore}
use labubu.Storage.Mem.Retention.{
  IdSet, id_set, young, cutoff_of, newer, newest, ids_of, kept_ids, purge,
}
use mathlib.Core.List.{Perm}
use mathlib.Core.List.Perm
use mathlib.Core.Path.{fun_ext}
use Prim.Native.Nat.{min}

-- Membership, as a test.
abbrev pub is_in : ℕ → List ℕ → Bool
is_in id ids = any (λ j. j == id) ids

or-false : (b : Bool) → (b || false) ≡ b
or-false true = refl
or-false false = refl

has-id_set :
    (ids : List ℕ) (m : IdSet) (id : ℕ) → has id (id_set ids m) ≡ (is_in id ids || has id m)
unfolding id_set any
has-id_set [] m id = refl
has-id_set (j ∷ ids) m id =
    ground (arith, has-id_set ids (insert j true m) id, has-insert j id true m)

module _ {F : Type 0} where
  -- Deleted and kept traces make up the traces that were there, and so do the spans.
  pub purge_counts :
      (sorter : Sorter) (now_ms : ℕ) (max_age max_count : ℤ) (m : MemStore F)
      → ((purge sorter now_ms max_age max_count m).1
            + length (purge sorter now_ms max_age max_count m).0.traces
          ≡ length m.traces)
        × ((purge sorter now_ms max_age max_count m).2
              + length (purge sorter now_ms max_age max_count m).0.spans
            ≡ length m.spans)
  unfolding purge
  purge_counts sorter now_ms max_age max_count m =
      let ids = kept_ids sorter now_ms max_age max_count m in
      (
        omega (
          arith,
          count_split (λ e. has e.0 ids) m.traces,
          length-keep (λ e. has e.0 ids) m.traces,
        ),
        omega (
          arith,
          count_split (λ (s : Span F). has s.trace_id ids) m.spans,
          length-keep (λ (s : Span F). has s.trace_id ids) m.spans,
        ),
      )

  count_or :
      (p q : ℕ × Trace F → Bool) (m : Dict ℕ (Trace F))
      → count (λ e. p e || q e) m ≤ count p m + count q m
  unfolding count
  count_or p q [] = omega arith
  count_or p q (e ∷ m) = ground (arith, count_or p q m)

  count_absent : (j : ℕ) (m : Dict ℕ (Trace F)) → has j m ≡ false → count (λ e. j == e.0) m ≡ 0
  unfolding count has
  count_absent j [] h = refl
  count_absent j ((k, t) ∷ m) h = ground (arith, count_absent j m)

  count_one : (j : ℕ) (m : Dict ℕ (Trace F)) → Distinct m → count (λ e. j == e.0) m ≤ 1
  unfolding count
  count_one j [] d = omega arith
  count_one j ((k, t) ∷ m) d =
      ground (arith, count_one j m, λ (e : k ≡ j). count_absent j m (rw e at d.0))

  count_none : (m : Dict ℕ (Trace F)) → count (λ e. false) m ≡ 0
  unfolding count
  count_none [] = refl
  count_none (e ∷ m) = count_none m

  -- At most as many traces have an identifier of a list as the list is long.
  count_in_ids :
      (ids : List ℕ) (m : Dict ℕ (Trace F)) → Distinct m → count (λ e. is_in e.0 ids) m ≤ length ids
  unfolding any
  count_in_ids [] m d = omega (arith, count_none m)
  count_in_ids (j ∷ ids) m d = omega (
    arith,
    count_or (λ e. j == e.0) (λ e. is_in e.0 ids) m,
    count_one j m d,
    count_in_ids ids m d,
  )

length-ids_of : (xs : List (ℕ × ℕ)) → length (ids_of xs) ≡ length xs
length-ids_of [] = refl
length-ids_of (x ∷ xs) = ap suc (length-ids_of xs)

length-newest :
    (sorter : Sorter) (n : ℕ) (ids : List (ℕ × ℕ))
    → length (newest sorter (pos (suc n)) ids) ≤ suc n
unfolding newest
length-newest sorter n ids = elim (Bool-cases (ltb (suc n) (length ids))) [
  | inl more ↦ rw more (omega (arith, length-take (suc n) (sorter.sort_slice newer ids)))
  | inr fits ↦ rw fits (ground arith)
]

-- With a limit on their number, at most so many traces are left.
pub length-purge-le :
    {F : Type 0} (sorter : Sorter) (now_ms : ℕ) (max_age : ℤ) (n : ℕ) (m : MemStore F)
    → Distinct m.traces
    → length (purge sorter now_ms max_age (pos (suc n)) m).0.traces ≤ suc n
unfolding purge
length-purge-le sorter now_ms max_age n m d =
    let kept = newest sorter (pos (suc n)) (young (cutoff_of now_ms max_age) m.traces) in
    let ids = id_set (ids_of kept) [] in
    omega (
      arith,
      length-keep (λ e. has e.0 ids) m.traces,
      ap (λ p. count p m.traces)
          (fun_ext (λ e. has-id_set (ids_of kept) [] e.0 ∙ or-false (is_in e.0 (ids_of kept)))),
      count_in_ids (ids_of kept) m.traces d,
      length-ids_of kept,
      length-newest sorter n (young (cutoff_of now_ms max_age) m.traces),
    )

-- What is kept, and the rest, which is no newer.
pub record Newest (ids kept : List (ℕ × ℕ)) (rest : List (ℕ × ℕ)) : Type 0 where
  pub same : Perm (kept ++ rest) ids
  pub older : All (λ x. All (λ (y : ℕ × ℕ). y.1 ≤ x.1) rest) kept

-- How many of a number of traces a limit leaves: all of them without a limit.
abbrev pub quota : ℤ → ℕ → ℕ
quota (pos zero) k = k
quota (pos (suc n)) k = min (suc n) k
quota (negsuc n) k = k
