-- ===== src/Storage/Context/Owner.antt =====
-- The owner that the walk up the parents finds (internal/storage/session_context.go), against a
-- relation: the nearest span above, or the span itself, whose name has ".invoke" in it.
use labubu.Base.{
  ℕ, zero, suc, ◌<◌, ◌≡◌, refl, sym, ap, ◌∙◌, ◌↔◌, inl, inr, true, false, none, some, List, [], map,
  arith, Bool-cases, Option-cases, keep, All, keep-All, All-weaken,
}
use labubu.Base.Str.{Str, str_eq_iff, str_eq_self, is_empty}
use labubu.Base.Dict.{nat_eq, bytes_eq, Dict, lookup}
use labubu.Base.Sort.{Sorter, IsSorted, IsWeakOrder}
use labubu.Storage.Context.{
  SpanInput, is_invoke, by_id, owner_invoke, no_tokens, is_main_agent, context_span, earlier,
  compute_session_context_spans,
}
use mathlib.Core.List.{Perm}

-- `Owner m n s o`: `o` is reached from `s` by `n` steps to the parent, every span before `o` is no
-- invocation, and `o` is one.
pub data Owner (m : Dict Str SpanInput) : ℕ → SpanInput → SpanInput → Type 0 where
  here : (s : SpanInput) → is_invoke s.name ≡ true → Owner m 0 s s
  above :
      (n : ℕ) (s p o : SpanInput)
      → is_invoke s.name ≡ false
      → is_empty s.parent_span_id_hex ≡ false
      → lookup s.parent_span_id_hex m ≡ some p
      → Owner m n p o
      → Owner m (suc n) s o

Owner-here :
    (m : Dict Str SpanInput) (s o : SpanInput) → o ≡ s → is_invoke s.name ≡ true → Owner m 0 s o
Owner-here m s o same yes' = rw same (here s yes')

owner_invoke-none : (guard : ℕ) (m : Dict Str SpanInput) → owner_invoke guard m none ≡ none
unfolding owner_invoke
owner_invoke-none zero m = refl
owner_invoke-none (suc guard) m = refl

Owner-of_invoke :
    (guard : ℕ) (m : Dict Str SpanInput) (s o : SpanInput)
    → owner_invoke guard m (some s) ≡ some o
    → (n : ℕ) × (n < guard) × Owner m n s o
unfolding owner_invoke
Owner-of_invoke zero m s o e = absurd (ground arith)
Owner-of_invoke (suc guard) m s o e = elim (Bool-cases (is_invoke s.name)) [
  | inl yes' ↦ (0, omega arith, Owner-here m s o (ground arith) yes')
  | inr no' ↦ elim (Bool-cases (is_empty s.parent_span_id_hex)) [
    | inl root ↦ absurd (ground arith)
    | inr child ↦ elim (Option-cases (lookup s.parent_span_id_hex m)) [
      | inl lost ↦ absurd (ground (arith, owner_invoke-none guard m))
      | inr (p, found) ↦
          let (n, h, w) = Owner-of_invoke guard m p o (ground arith) in
          (suc n, omega arith, above n s p o no' child found w)
    ]
  ]
]

invoke_of_Owner :
    (guard n : ℕ) (m : Dict Str SpanInput) (s o : SpanInput)
    → n < guard
    → Owner m n s o
    → owner_invoke guard m (some s) ≡ some o
unfolding owner_invoke
invoke_of_Owner zero n m s o h w = absurd (omega arith)
invoke_of_Owner (suc guard) _ m _ _ h (here s yes') = simp yes' refl
invoke_of_Owner (suc guard) _ m _ _ h (above n s p o no' child found w) =
    ground (arith, invoke_of_Owner guard n m p o (omega arith) w)

-- The walk finds a span exactly when that span is the owner and fewer than `guard` steps lead to
-- it, also where the parents form a cycle.
pub owner_invoke-iff_Owner :
    (guard : ℕ) (m : Dict Str SpanInput) (s o : SpanInput)
    → (owner_invoke guard m (some s) ≡ some o) ↔ ((n : ℕ) × (n < guard) × Owner m n s o)
owner_invoke-iff_Owner guard m s o =
    (Owner-of_invoke guard m s o, λ h. invoke_of_Owner guard h.0 m s o h.1 h.2)

-- What makes a span a model call of the main agent of its trace.
pub record IsMainCall (root_by_trace : Dict Str Str) (m : Dict Str SpanInput) (s : SpanInput)
    : Type 0 where
  pub counted : no_tokens s.total_tokens ≡ false
  pub root : SpanInput
  pub is_root : lookup s.trace_id_hex root_by_trace ≡ some root.span_id_hex
  pub depth : ℕ
  pub near : depth < 500
  pub owner : Owner m depth s root

IsMainCall-of :
    (root_by_trace : Dict Str Str) (m : Dict Str SpanInput) (s : SpanInput)
    → is_main_agent root_by_trace m s ≡ true
    → IsMainCall root_by_trace m s
unfolding is_main_agent
IsMainCall-of root_by_trace m s h = elim (Bool-cases (no_tokens s.total_tokens)) [
  | inl free ↦ absurd (ground arith)
  | inr counted ↦ elim (Option-cases (lookup s.trace_id_hex root_by_trace)) [
    | inl unknown ↦ absurd (ground arith)
    | inr (root_id, known) ↦ elim (Option-cases (owner_invoke 500 m (some s))) [
      | inl nobody ↦ absurd (ground arith)
      | inr (o, found) ↦
          let same : o.span_id_hex ≡ root_id =
            (str_eq_iff o.span_id_hex root_id).0 (ground arith) in
          let (n, near, w) = Owner-of_invoke 500 m s o found in
          record {
            counted = counted;
            root = o;
            is_root = known ∙ ap some (sym same);
            depth = n;
            near = near;
            owner = w;
          }
    ]
  ]
]

of_main_call :
    (root_by_trace : Dict Str Str) (m : Dict Str SpanInput) (s : SpanInput)
    → IsMainCall root_by_trace m s
    → is_main_agent root_by_trace m s ≡ true
unfolding is_main_agent
of_main_call root_by_trace m s h =
    let found : owner_invoke 500 m (some s) ≡ some h.root =
      invoke_of_Owner 500 h.depth m s h.root h.near h.owner in
    simp (h.counted, h.is_root, found) (str_eq_self h.root.span_id_hex)

-- A span is taken for a model call of the main agent exactly when it has tokens and its owner, by
-- at most 499 parents, is the root span of its trace.
pub is_main_agent-iff_IsMainCall :
    (root_by_trace : Dict Str Str) (m : Dict Str SpanInput) (s : SpanInput)
    → (is_main_agent root_by_trace m s ≡ true) ↔ IsMainCall root_by_trace m s
is_main_agent-iff_IsMainCall root_by_trace m s =
    (IsMainCall-of root_by_trace m s, of_main_call root_by_trace m s)

earlier-IsWeakOrder : IsWeakOrder earlier
earlier-IsWeakOrder = record { asym = λ x y h. ground arith; trans = λ x y z h k. ground arith }

-- What is shown for a session: the main agent's model calls, each once, from the earliest on.
pub compute_session_context_spans-IsSorted :
    (sorter : Sorter) (root_by_trace : Dict Str Str) (spans : List SpanInput)
    → IsSorted earlier (compute_session_context_spans sorter root_by_trace spans)
      × Perm
          (compute_session_context_spans sorter root_by_trace spans)
          (map context_span (keep (is_main_agent root_by_trace (by_id spans [])) spans))
      × All
          (IsMainCall root_by_trace (by_id spans []))
          (keep (is_main_agent root_by_trace (by_id spans [])) spans)
unfolding compute_session_context_spans
compute_session_context_spans-IsSorted sorter root_by_trace spans =
    let is_main = is_main_agent root_by_trace (by_id spans []) in
    let calls = map context_span (keep is_main spans) in
    (
      sorter.sort_slice-IsSorted earlier calls earlier-IsWeakOrder,
      sorter.sort_slice-perm earlier calls,
      All-weaken (keep is_main spans) (λ s h. IsMainCall-of root_by_trace (by_id spans []) s h)
          (keep-All is_main spans),
    )
