-- ===== src/Storage/Sessions/Summary.antt =====
-- The sums over a session's traces (internal/storage/memstore.go) and the order of the traces.
use labubu.Base.{
  ℕ, ◌≡◌, refl, ap, ◌∙◌, Bool, false, Option, none, some, List, [], ◌∷◌, arith, length,
}
use labubu.Base.Dict.{nat_eq, bytes_eq}
use labubu.Base.Sort.{length-perm}
use labubu.Storage.Types.{Trace}
use labubu.Storage.Sessions.{
  SessionSums, SessionAgg, add_tokens, note_tokens, new_sums, add_trace, sum_traces,
}
use mathlib.Core.List.{Perm, Permᴰ}
use mathlib.Core.Logic.{∥∥₁_elim}

SessionSums_set : IsSet SessionSums
SessionSums_set = hlevel

SumsOption_set : IsSet (Option SessionSums)
SumsOption_set = hlevel

-- Two sums with the same entries are the same.
pub sums_ext :
    (a b : SessionSums)
    → a.total_tokens ≡ b.total_tokens
    → a.has_tokens ≡ b.has_tokens
    → a.total_duration_ms ≡ b.total_duration_ms
    → a.max_duration_ms ≡ b.max_duration_ms
    → a.error_count ≡ b.error_count
    → a.first_active_ms ≡ b.first_active_ms
    → a.last_active_ms ≡ b.last_active_ms
    → a ≡ b
sums_ext a b p q r s t u v = λ i. record {
  total_tokens = p i;
  has_tokens = q i;
  total_duration_ms = r i;
  max_duration_ms = s i;
  error_count = t i;
  first_active_ms = u i;
  last_active_ms = v i;
}

add_tokens_comm :
    (n : ℕ) (a b : Option ℕ) → add_tokens (add_tokens n a) b ≡ add_tokens (add_tokens n b) a
add_tokens_comm n none none = refl
add_tokens_comm n none (some b) = refl
add_tokens_comm n (some a) none = refl
add_tokens_comm n (some a) (some b) = omega arith

note_tokens_comm :
    (s : Bool) (a b : Option ℕ) → note_tokens (note_tokens s a) b ≡ note_tokens (note_tokens s b) a
note_tokens_comm s none none = refl
note_tokens_comm s none (some b) = refl
note_tokens_comm s (some a) none = refl
note_tokens_comm s (some a) (some b) = refl

abbrev with_count : ℕ → Option SessionSums → Option SessionAgg
with_count n none = none
with_count n (some g) = some (record { trace_count = n; sums = g })

module _ {F : Type 0} where
  -- Two rounds may change places.
  add_trace_comm :
      (t u : Trace F) (g : SessionSums) → add_trace u (add_trace t g) ≡ add_trace t (add_trace u g)
  unfolding add_trace
  add_trace_comm t u g =
      sums_ext _ _ (add_tokens_comm g.total_tokens t.total_tokens u.total_tokens)
        (note_tokens_comm g.has_tokens t.total_tokens u.total_tokens) (omega arith) (ground arith)
        (ground arith) (ground arith) (ground arith)

  -- Two traces in either order, the first of them also for the start.
  add_first_two :
      (t u : Trace F)
      → add_trace u (add_trace t (new_sums t)) ≡ add_trace t (add_trace u (new_sums u))
  unfolding add_trace new_sums
  add_first_two t u =
      sums_ext _ _ (add_tokens_comm 0 t.total_tokens u.total_tokens)
        (note_tokens_comm false t.total_tokens u.total_tokens) (omega arith) (ground arith)
        (ground arith) (ground arith) (ground arith)

  sum_traces-permᴰ :
      {xs ys : List (Trace F)} → Permᴰ xs ys → (g : SessionSums) → sum_traces xs g ≡ sum_traces ys g
  unfolding sum_traces
  sum_traces-permᴰ Permᴰ.nil g = refl
  sum_traces-permᴰ (Permᴰ.cons {l₁ = ts} e h) g =
      ap (λ t. sum_traces ts (add_trace t g)) e ∙ sum_traces-permᴰ h _
  sum_traces-permᴰ (Permᴰ.swap {b = b} {b' = b'} {l = l} e e') g =
      ap (λ t. sum_traces l (add_trace b (add_trace t g))) e
      ∙ ap (λ t. sum_traces l (add_trace t (add_trace b' g))) e'
      ∙ ap (sum_traces l) (add_trace_comm b' _ g)
  sum_traces-permᴰ (Permᴰ.trans h k) g = sum_traces-permᴰ h g ∙ sum_traces-permᴰ k g

  -- The sums of a session, which start at its first trace.
  abbrev sums_of : List (Trace F) → Option SessionSums
  sums_of [] = none
  sums_of (t ∷ ts) = some (sum_traces (t ∷ ts) (new_sums t))

  sums_of-permᴰ : {xs ys : List (Trace F)} → Permᴰ xs ys → sums_of xs ≡ sums_of ys
  unfolding sum_traces
  sums_of-permᴰ Permᴰ.nil = refl
  sums_of-permᴰ (Permᴰ.cons {l₁ = ts} e h) =
      ap some (ap (λ t. sum_traces ts (add_trace t (new_sums t))) e ∙ sum_traces-permᴰ h _)
  sums_of-permᴰ (Permᴰ.swap {b = b} {b' = b'} {l = l} e e') = ap some (
      ap (λ t. sum_traces l (add_trace b (add_trace t (new_sums t)))) e
      ∙ ap (λ t. sum_traces l (add_trace t (add_trace b' (new_sums b')))) e'
      ∙ ap (sum_traces l) (add_first_two b' _))
  sums_of-permᴰ (Permᴰ.trans h k) = sums_of-permᴰ h ∙ sums_of-permᴰ k

  sums_of-perm : {xs ys : List (Trace F)} → Perm xs ys → sums_of xs ≡ sums_of ys
  sums_of-perm h = ∥∥₁_elim h (SumsOption_set _ _) sums_of-permᴰ

  -- What one session adds up to, whatever the order of its traces.
  abbrev pub agg_of : List (Trace F) → Option SessionAgg
  agg_of ts = with_count (length ts) (sums_of ts)

  pub agg_of-perm : {xs ys : List (Trace F)} → Perm xs ys → agg_of xs ≡ agg_of ys
  agg_of-perm {xs} {ys} h =
      ap (λ n. with_count n (sums_of xs)) (length-perm h)
      ∙ ap (with_count (length ys)) (sums_of-perm h)
