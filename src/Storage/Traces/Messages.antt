-- ===== src/Storage/Traces/Messages.antt =====
-- The input messages that the listings of internal/storage/memstore.go attach to their items.
use labubu.Base.{
  ℕ, suc, ◌+◌, ◌≡◌, refl, sym, ap, ◌∙◌, inl, inr, Bool, true, false, not, ◌&&◌, ◌||◌, Option, none,
  some, List, [], ◌∷◌, map, arith, if◌then◌else◌, Bool-cases, any,
}
use labubu.Base.Str.{Str, str_eq, str_eq_iff, is_empty}
use labubu.Base.Dict.{nat_eq, bytes_eq, Dict, lookup, insert, lookup-insert}
use labubu.Storage.Types.{Span}
use labubu.Storage.Ids.{trace_id_to_hex}
use labubu.Storage.Traces.{
  TraceListItem, messages_of, index_items, set_message, set_found, attach_spans, attach_messages,
}

abbrev next : Option ℕ → Option ℕ
next none = none
next (some i) = some (suc i)

abbrev place_or : ℕ → Option ℕ → Option ℕ → Option ℕ
place_or n none o = o
place_or n (some i) o = some (n + i)

place_or-zero : (o : Option ℕ) → place_or 0 o none ≡ o
place_or-zero none = refl
place_or-zero (some n) = ap (λ i. some i) (let e : 0 + n ≡ n = omega arith in e)

module _ {F : Type 0} where
  abbrev has_hex : Str → List (TraceListItem F) → Bool
  has_hex hex items = any (λ (i : TraceListItem F). str_eq i.trace_id_hex hex) items

  -- No trace is listed twice.
  abbrev pub HasDistinctTraces : List (TraceListItem F) → Type 0
  HasDistinctTraces [] = Unit
  HasDistinctTraces (i ∷ is) = (has_hex i.trace_id_hex is ≡ false) × HasDistinctTraces is

  -- The message of one span, for the item of its trace.
  abbrev note_message : Span F → TraceListItem F → TraceListItem F
  note_message s i =
      if not (is_empty (messages_of s)) && str_eq i.trace_id_hex (trace_id_to_hex s.trace_id)
      then record i { input_messages = some (messages_of s) }
      else i

  -- The message that an item ends up with, spelled out for one item: that of the last root span of
  -- its trace that has one.
  unfoldable pub with_last_message : List (Span F) → TraceListItem F → TraceListItem F
  with_last_message [] i = i
  with_last_message (s ∷ ss) i = with_last_message ss (note_message s i)

  -- Where the item of a trace stands.
  unfoldable place : Str → List (TraceListItem F) → Option ℕ
  place hex [] = none
  place hex (i ∷ is) =
      let rest = place hex is in if str_eq i.trace_id_hex hex then some 0 else next rest

  place-absent :
      (hex : Str) (is : List (TraceListItem F)) → has_hex hex is ≡ false → place hex is ≡ none
  unfolding place any
  place-absent hex [] h = refl
  place-absent hex (i ∷ is) h = ground (arith, place-absent hex is)

  lookup-index_items :
      (n : ℕ) (is : List (TraceListItem F)) (m : Dict Str ℕ) (hex : Str)
      → HasDistinctTraces is
      → lookup hex (index_items n is m) ≡ place_or n (place hex is) (lookup hex m)
  unfolding index_items place
  lookup-index_items n [] m hex d = refl
  lookup-index_items n (i ∷ is) m hex d =
      let m' = insert i.trace_id_hex n m in
      ground (
        arith,
        lookup-index_items (n + 1) is m' hex d.1,
        lookup-insert i.trace_id_hex hex n m,
        str_eq_iff i.trace_id_hex hex,
        place-absent hex is,
      )

  abbrev update_at : Str → Str → TraceListItem F → TraceListItem F
  update_at v hex i = if str_eq i.trace_id_hex hex then record i { input_messages = some v } else i

  update_at-absent :
      (v hex : Str) (is : List (TraceListItem F))
      → has_hex hex is ≡ false
      → map (update_at v hex) is ≡ is
  unfolding any
  update_at-absent v hex [] h = refl
  update_at-absent v hex (i ∷ is) h = elim (Bool-cases (str_eq i.trace_id_hex hex)) [
    | inl same ↦ ground (arith, same, h)
    | inr other ↦
        let rest : has_hex hex is ≡ false = ap (λ b. b || has_hex hex is) (sym other) ∙ h in
        rw other (ap (λ js. i ∷ js) (update_at-absent v hex is rest))
  ]

  set_found-next :
      (v : Str) (i : TraceListItem F) (is : List (TraceListItem F)) (o : Option ℕ)
      → set_found v (next o) (i ∷ is) ≡ i ∷ set_found v o is
  unfolding set_message
  set_found-next v i is none = refl
  set_found-next v i is (some n) = refl

  set_found-place :
      (v hex : Str) (is : List (TraceListItem F))
      → HasDistinctTraces is
      → set_found v (place hex is) is ≡ map (update_at v hex) is
  unfolding place set_message
  set_found-place v hex [] d = refl
  set_found-place v hex (i ∷ is) d = elim (Bool-cases (str_eq i.trace_id_hex hex)) [
    | inl same ↦
        let absent : has_hex hex is ≡ false =
          ap (λ j. has_hex j is) (sym ((str_eq_iff i.trace_id_hex hex).0 same)) ∙ d.0 in
        rw same (
          ap (λ js. record i { input_messages = some v } ∷ js)
            (sym (update_at-absent v hex is absent)))
    | inr other ↦
        rw other
          (set_found-next v i is (place hex is) ∙ ap (λ js. i ∷ js) (set_found-place v hex is d.1))
  ]

  note_message-hex :
      (s : Span F) (i : TraceListItem F) → (note_message s i).trace_id_hex ≡ i.trace_id_hex
  note_message-hex s i =
      elim (Bool-cases
        (not (is_empty (messages_of s)) && str_eq i.trace_id_hex (trace_id_to_hex s.trace_id))) [
          | inl own ↦ rw own refl
          | inr other ↦ rw other refl
        ]

  note_message-place :
      (s : Span F) (hex : Str) (is : List (TraceListItem F))
      → place hex (map (note_message s) is) ≡ place hex is
  unfolding place
  note_message-place s hex [] = refl
  note_message-place s hex (i ∷ is) = rw (note_message-hex s i, note_message-place s hex is) refl

  note_message-has_hex :
      (s : Span F) (hex : Str) (is : List (TraceListItem F))
      → has_hex hex (map (note_message s) is) ≡ has_hex hex is
  unfolding any
  note_message-has_hex s hex [] = refl
  note_message-has_hex s hex (i ∷ is) =
      rw (note_message-hex s i, note_message-has_hex s hex is) refl

  note_message-HasDistinctTraces :
      (s : Span F) (is : List (TraceListItem F))
      → HasDistinctTraces is
      → HasDistinctTraces (map (note_message s) is)
  note_message-HasDistinctTraces s [] d = tt
  note_message-HasDistinctTraces s (i ∷ is) d = (
    ap (λ hex. has_hex hex (map (note_message s) is)) (note_message-hex s i)
        ∙ note_message-has_hex s i.trace_id_hex is
        ∙ d.0,
    note_message-HasDistinctTraces s is d.1,
  )

  note_message_of_empty :
      (s : Span F) (is : List (TraceListItem F))
      → is_empty (messages_of s) ≡ true
      → map (note_message s) is ≡ is
  note_message_of_empty s [] h = refl
  note_message_of_empty s (i ∷ is) h = rw (h, note_message_of_empty s is h) refl

  note_message_of_full :
      (s : Span F) (is : List (TraceListItem F))
      → is_empty (messages_of s) ≡ false
      → map (update_at (messages_of s) (trace_id_to_hex s.trace_id)) is ≡ map (note_message s) is
  note_message_of_full s [] h = refl
  note_message_of_full s (i ∷ is) h = rw (h, note_message_of_full s is h) refl

  step_lem :
      (s : Span F) (is : List (TraceListItem F))
      → HasDistinctTraces is
      → (if is_empty (messages_of s)
          then is
          else set_found (messages_of s) (place (trace_id_to_hex s.trace_id) is) is)
        ≡ map (note_message s) is
  step_lem s is d = elim (Bool-cases (is_empty (messages_of s))) [
    | inl gone ↦ rw gone (sym (note_message_of_empty s is gone))
    | inr full ↦ rw full (
        set_found-place (messages_of s) (trace_id_to_hex s.trace_id) is d
        ∙ note_message_of_full s is full)
  ]

  map-note_message :
      (s : Span F) (ss : List (Span F)) (is : List (TraceListItem F))
      → map (with_last_message ss) (map (note_message s) is) ≡ map (with_last_message (s ∷ ss)) is
  unfolding with_last_message
  map-note_message s ss [] = refl
  map-note_message s ss (i ∷ is) =
      ap (λ js. with_last_message ss (note_message s i) ∷ js) (map-note_message s ss is)

  map_with_no_message : (is : List (TraceListItem F)) → is ≡ map (with_last_message []) is
  unfolding with_last_message
  map_with_no_message [] = refl
  map_with_no_message (i ∷ is) = ap (λ js. i ∷ js) (map_with_no_message is)

  attach_spans-lem :
      (index : Dict Str ℕ) (ss : List (Span F)) (is : List (TraceListItem F))
      → HasDistinctTraces is
      → ((hex : Str) → lookup hex index ≡ place hex is)
      → attach_spans index ss is ≡ map (with_last_message ss) is
  unfolding attach_spans
  attach_spans-lem index [] is d h = map_with_no_message is
  attach_spans-lem index (s ∷ ss) is d h =
      rw (h (trace_id_to_hex s.trace_id), step_lem s is d)
        (attach_spans-lem index ss (map (note_message s) is) (note_message-HasDistinctTraces s is d)
            (λ hex. h hex ∙ sym (note_message-place s hex is))
          ∙ map-note_message s ss is)

  -- The loop over the spans, with its index, gives each item what the description of one item says.
  pub attach_messages-eq-map :
      (ss : List (Span F)) (is : List (TraceListItem F))
      → HasDistinctTraces is
      → attach_messages ss is ≡ map (with_last_message ss) is
  unfolding attach_messages lookup
  attach_messages-eq-map ss is d =
      attach_spans-lem (index_items 0 is []) ss is d
        (λ hex. lookup-index_items 0 is [] hex d ∙ place_or-zero (place hex is))
