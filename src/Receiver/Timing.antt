-- ===== src/Receiver/Timing.antt =====
-- The times and identifiers of a span that internal/receiver/otlp.go has translated.
use labubu.Base.{
  ℕ, zero, suc, ◌+◌, ◌*◌, ◌/◌, ◌^◌, ◌≤◌, ◌<◌, ◌≡◌, refl, sym, Option, none, some, List, [], ◌∷◌,
  arith, All,
}
use labubu.Base.Str.{Str}
use labubu.Base.Dict.{nat_eq, bytes_eq, Dict}
use labubu.Base.Words.{sub_u64-eq}
use labubu.Storage.Types.{Span, ResourceInfo, ScopeInfo}
use labubu.Storage.Aggregate.{new_trace}
use labubu.Storage.Aggregate.PerTrace.{add_spans}
use labubu.Storage.Aggregate.DurationLaws.{IsTimed, trace_of-IsTimed}
use labubu.Receiver.Proto.{Formats, ProtoSpan, copy_bytes}
use labubu.Receiver.Spans.{EventTexts, start_ms, end_ms, translate_span, translate_spans}
use native.Mathlib.Nat.{pow-suc}

copy_bytes-lt :
    (width v : ℕ) (bs : List ℕ) (n : ℕ)
    → All (λ b. b < 256) bs
    → n < 256 ^ v
    → copy_bytes width bs n < 256 ^ (v + width)
unfolding copy_bytes
copy_bytes-lt zero v bs n h k = let e : v ≡ v + 0 = omega arith in rw (sym e) k
copy_bytes-lt (suc width) v [] n h k =
    let e : suc v + width ≡ v + suc width = omega arith in
    rw (sym e) (copy_bytes-lt width (suc v) [] (n * 256) tt (omega (arith, pow-suc 256 v)))
copy_bytes-lt (suc width) v (b ∷ bs) n h k =
    let e : suc v + width ≡ v + suc width = omega arith in
    let small : b < 256 = h.0 in
    rw (sym e)
      (copy_bytes-lt width (suc v) bs (n * 256 + b) h.1 (omega (arith, pow-suc 256 v, small)))

module _ (fm : Formats) where
  -- Bytes are bytes, and times fit 64 bits.
  pub record IsMessage (ps : ProtoSpan fm) : Type 0 where
    pub trace_id_bytes : All (λ b. b < 256) ps.trace_id
    pub span_id_bytes : All (λ b. b < 256) ps.span_id
    pub start_fits : ps.start_time_unix_nano < 18446744073709551616
    pub end_fits : ps.end_time_unix_nano < 18446744073709551616

  pub record IsTranslated {F : Type 0} (ps : ProtoSpan fm) (s : Span F) : Type 0 where
    pub start : s.start_time_ms ≡ ps.start_time_unix_nano / 1000000
    pub ordered : s.start_time_ms ≤ s.end_time_ms
    pub end :
        ps.start_time_unix_nano ≤ ps.end_time_unix_nano
        → s.end_time_ms ≡ ps.end_time_unix_nano / 1000000
    pub duration : s.start_time_ms + s.duration_ms ≡ s.end_time_ms
    pub trace_id_fits : s.trace_id < 256 ^ 16
    pub span_id_fits : s.span_id < 256 ^ 8

  end_ms-ge : (ps : ProtoSpan fm) → start_ms fm ps ≤ end_ms fm ps
  unfolding end_ms
  end_ms-ge ps = ground arith

  end_ms-eq :
      (ps : ProtoSpan fm)
      → ps.start_time_unix_nano ≤ ps.end_time_unix_nano
      → end_ms fm ps ≡ ps.end_time_unix_nano / 1000000
  unfolding end_ms start_ms
  end_ms-eq ps h = ground arith

  end_ms-lt : (ps : ProtoSpan fm) → IsMessage ps → end_ms fm ps < 18446744073709551616
  unfolding end_ms start_ms
  end_ms-lt ps h = let s = h.start_fits in let e = h.end_fits in ground arith

  -- A translated span never ends before it starts, its duration is the time between, to the
  -- millisecond, and its identifiers are numbers of sixteen and of eight bytes.
  pub translate_span-IsTranslated :
      {F : Type 0} (order : Dict Str (List Str)) (texts : EventTexts) (ps : ProtoSpan fm)
      → IsMessage ps
      → IsTranslated {F = F} ps (translate_span fm order texts ps)
  unfolding translate_span
  translate_span-IsTranslated order texts ps h =
      let ordered = end_ms-ge ps in
      let fits = end_ms-lt ps h in
      record {
        start = unfold start_ms in refl;
        ordered = ordered;
        end = end_ms-eq ps;
        duration = omega (arith, sub_u64-eq (end_ms fm ps) (start_ms fm ps) ordered fits);
        trace_id_fits = copy_bytes-lt 16 0 ps.trace_id 0 h.trace_id_bytes (omega arith);
        span_id_fits = copy_bytes-lt 8 0 ps.span_id 0 h.span_id_bytes (omega arith);
      }

  abbrev pub StartsAfter : ProtoSpan fm → Option (ProtoSpan fm) → Type 0
  StartsAfter ps none = Unit
  StartsAfter ps (some q) = ps.start_time_unix_nano ≤ q.start_time_unix_nano

  translate_spans-All :
      (F : Type 0) (order : Dict Str (List Str)) (texts : EventTexts) (ps : ProtoSpan fm)
      (pss : List (Option (ProtoSpan fm)))
      → All (StartsAfter ps) pss
      → All (λ (s : Span F). start_ms fm ps ≤ s.start_time_ms) (translate_spans fm order texts pss)
  unfolding translate_spans translate_span start_ms
  translate_spans-All F order texts ps [] h = tt
  translate_spans-All F order texts ps (none ∷ pss) h = translate_spans-All F order texts ps pss h.1
  translate_spans-All F order texts ps (some q ∷ pss) h =
      let later : ps.start_time_unix_nano ≤ q.start_time_unix_nano = h.0 in
      (omega (arith, later), translate_spans-All F order texts ps pss h.1)

  -- The trace of a request's spans, none of which starts before the first one, has the length of its
  -- time range as its duration.
  pub translated_trace-IsTimed :
      (F : Type 0) (order : Dict Str (List Str)) (texts : EventTexts) (resource : ResourceInfo)
      (scope : ScopeInfo) (ps : ProtoSpan fm) (pss : List (Option (ProtoSpan fm)))
      → All (StartsAfter ps) pss
      → IsTimed {F = F} (
          add_spans
            (translate_spans fm order texts (some ps ∷ pss))
            (new_trace resource scope (translate_span fm order texts ps)))
  unfolding translate_spans translate_span
  translated_trace-IsTimed F order texts resource scope ps pss h =
      trace_of-IsTimed resource scope (translate_span fm order texts ps)
        (translate_spans fm order texts pss) refl (translate_spans-All F order texts ps pss h)
