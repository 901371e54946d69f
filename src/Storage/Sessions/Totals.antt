-- ===== src/Storage/Sessions/Totals.antt =====
-- The figures of a session (internal/storage/memstore.go) against direct descriptions of them.
use labubu.Base.{
  ℕ, ◌+◌, ◌<◌, ◌≡◌, refl, ap, ◌∙◌, Bool, true, false, ◌||◌, Option, none, some, List, [], ◌∷◌, map,
  arith, ltb, if◌then◌else◌, length, count, any,
}
use labubu.Base.Str.{Str}
use labubu.Base.Words.{u32, u64}
use labubu.Base.Floats.{Floats}
use labubu.Storage.Types.{Trace}
use labubu.Storage.Sessions.{
  SessionSums, SessionListItem, add_tokens, note_tokens, is_error_code, new_sums, add_trace,
  sum_traces, session_item, session_summary,
}
use labubu.Storage.Sessions.Summary.{sums_ext}
use Prim.Native.Nat.{min, max}

unfoldable pub total : List ℕ → ℕ
total [] = 0
total (n ∷ ns) = n + total ns

-- The least and the greatest of a number and a list.
unfoldable pub least : ℕ → List ℕ → ℕ
least n [] = n
least n (m ∷ ms) = least (min n m) ms

unfoldable pub greatest : ℕ → List ℕ → ℕ
greatest n [] = n
greatest n (m ∷ ms) = greatest (max n m) ms

abbrev pub count_or_zero : Option ℕ → ℕ
count_or_zero none = 0
count_or_zero (some n) = n

abbrev pub is_there : Option ℕ → Bool
is_there none = false
is_there (some n) = true

add_tokens-total :
    (a b : ℕ) (o : Option ℕ)
    → a < 4294967296
    → u32 (add_tokens a o + b) ≡ u32 (a + (count_or_zero o + b))
add_tokens-total a b none h = omega arith
add_tokens-total a b (some n) h = omega arith

add_tokens-lt : (a : ℕ) (o : Option ℕ) → a < 4294967296 → add_tokens a o < 4294967296
add_tokens-lt a none h = h
add_tokens-lt a (some n) h = omega arith

note_tokens-or : (b c : Bool) (o : Option ℕ) → (note_tokens b o || c) ≡ (b || (is_there o || c))
note_tokens-or b c none = refl
note_tokens-or true c (some n) = refl
note_tokens-or false c (some n) = refl

module _ {F : Type 0} where
  abbrev pub token_counts : List (Trace F) → List ℕ
  token_counts ts = map (λ (t : Trace F). count_or_zero t.total_tokens) ts

  abbrev pub durations : List (Trace F) → List ℕ
  durations ts = map (λ (t : Trace F). t.duration_ms) ts

  abbrev pub starts : List (Trace F) → List ℕ
  starts ts = map (λ (t : Trace F). t.start_time_ms) ts

  abbrev pub has_count : Trace F → Bool
  has_count t = is_there t.total_tokens

  abbrev pub is_failed : Trace F → Bool
  is_failed t = is_error_code t.status_code

  -- The sums with all traces added to them.
  abbrev added : List (Trace F) → SessionSums → SessionSums
  added ts g = record {
    total_tokens = u32 (g.total_tokens + total (token_counts ts));
    has_tokens = g.has_tokens || any has_count ts;
    total_duration_ms = u64 (g.total_duration_ms + total (durations ts));
    max_duration_ms = greatest g.max_duration_ms (durations ts);
    error_count = g.error_count + count is_failed ts;
    first_active_ms = least g.first_active_ms (starts ts);
    last_active_ms = greatest g.last_active_ms (starts ts);
  }

  sum_traces-added :
      (ts : List (Trace F)) (g : SessionSums)
      → g.total_tokens < 4294967296
      → g.total_duration_ms < 18446744073709551616
      → sum_traces ts g ≡ added ts g
  unfolding sum_traces total least greatest any count
  sum_traces-added [] g h k =
      sums_ext _ _ (omega arith) (ground arith) (omega arith) refl (omega arith) refl refl
  sum_traces-added (t ∷ ts) g h k =
      let g' = add_trace t g in
      sum_traces-added ts g' (unfold add_trace in add_tokens-lt g.total_tokens t.total_tokens h)
        (unfold add_trace in omega arith)
      ∙ unfold add_trace in
        sums_ext _ _ (add_tokens-total g.total_tokens (total (token_counts ts)) t.total_tokens h)
          (note_tokens-or g.has_tokens (any has_count ts) t.total_tokens) (omega arith)
          (ap (λ n. greatest n (durations ts)) (ground arith)) (ground arith)
          (ap (λ n. least n (starts ts)) (ground arith))
          (ap (λ n. greatest n (starts ts)) (ground arith))

  -- The sums of a session whose first trace is the given one.
  abbrev totals : Trace F → List (Trace F) → SessionSums
  totals t ts = record {
    total_tokens = u32 (total (token_counts (t ∷ ts)));
    has_tokens = any has_count (t ∷ ts);
    total_duration_ms = u64 (total (durations (t ∷ ts)));
    max_duration_ms = greatest 0 (durations (t ∷ ts));
    error_count = count is_failed (t ∷ ts);
    first_active_ms = least t.start_time_ms (starts (t ∷ ts));
    last_active_ms = greatest t.start_time_ms (starts (t ∷ ts));
  }

  new_sums-totals :
      (t : Trace F) (ts : List (Trace F)) → sum_traces (t ∷ ts) (new_sums t) ≡ totals t ts
  new_sums-totals t ts =
      sum_traces-added (t ∷ ts) (new_sums t) (unfold new_sums in omega arith)
        (unfold new_sums in omega arith)
      ∙ unfold new_sums in
        sums_ext _ _ (omega arith) (ground arith) (omega arith) refl (omega arith) refl refl

module _ (fl : Floats) where
  open fl use {Float, of_nat, div}

  -- The summary of a session's traces: how many there are, the tokens of those that have a count,
  -- the durations added up and the longest, the traces that failed, and the first and last start.
  abbrev pub described_summary : Str → Trace Float → List (Trace Float) → SessionListItem Float
  described_summary id t ts = record {
    session_id = id;
    trace_count = length (t ∷ ts);
    total_tokens =
        if any has_count (t ∷ ts) then some (u32 (total (token_counts (t ∷ ts)))) else none;
    cost = none;
    cost_currency = [];
    total_duration_ms = u64 (total (durations (t ∷ ts)));
    max_duration_ms = greatest 0 (durations (t ∷ ts));
    avg_duration_ms = div (of_nat (u64 (total (durations (t ∷ ts))))) (of_nat (length (t ∷ ts)));
    error_count = count is_failed (t ∷ ts);
    error_rate = div (of_nat (count is_failed (t ∷ ts))) (of_nat (length (t ∷ ts)));
    first_active_ms = least t.start_time_ms (starts (t ∷ ts));
    last_active_ms = greatest t.start_time_ms (starts (t ∷ ts));
  }

  pub session_summary-described :
      (id : Str) (t : Trace Float) (ts : List (Trace Float))
      → session_summary fl id t ts ≡ described_summary id t ts
  unfolding session_summary session_item
  session_summary-described id t ts =
      let some_traces : ltb 0 (length (t ∷ ts)) ≡ true = ground arith in
      ap (session_item fl id (length (t ∷ ts))) (new_sums-totals t ts) ∙ rw some_traces refl
