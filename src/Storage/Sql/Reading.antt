-- ===== src/Storage/Sql/Reading.antt =====
-- Reading SQL text again (internal/storage/chdb_query.go): which bytes are code and which are data.
use labubu.Base.{
  ℕ, ◌≡◌, refl, sym, ap, ◌∙◌, inl, inr, Bool, true, false, not, Option, none, some, List, [], ◌∷◌,
  ◌++◌, ◌==◌, ==_iff, if◌then◌else◌, Bool-cases, All,
}
use labubu.Base.Str.{Str}
use labubu.Base.Dict.{nat_eq, bytes_eq}
use labubu.Storage.Sql.{replace_byte, escape_sql, quote_sql}

-- Where a reader is: outside of a literal, in one, or in one right after a backslash.
pub data Mode : Type 0 where
  in_code in_literal after_backslash : Mode

-- A byte of the text with what it is: `true` for a byte of a literal's value.
abbrev pub Marked : Type 0
Marked = List (Bool × ℕ)

abbrev pub then_byte : Bool → ℕ → Option Marked → Option Marked
then_byte b c none = none
then_byte b c (some ms) = some ((b, c) ∷ ms)

abbrev pub next_code : ℕ → Mode
next_code c = if c == 39 then in_literal else in_code

abbrev pub next_literal : ℕ → Mode
next_literal c = if c == 92 then after_backslash else if c == 39 then in_code else in_literal

abbrev pub mark_literal : ℕ → Option Marked → Option Marked
mark_literal c rest = if c == 92 then rest else then_byte (not (c == 39)) c rest

-- A database's reading of the text: a literal stands between single quotes, and in it a backslash
-- makes the byte behind it stand for itself. `none` where the text ends in a literal.
unfoldable pub read_sql : Mode → Str → Option Marked
read_sql in_code [] = some []
read_sql in_code (c ∷ s) = then_byte false c (read_sql (next_code c) s)
read_sql in_literal [] = none
read_sql in_literal (c ∷ s) = mark_literal c (read_sql (next_literal c) s)
read_sql after_backslash [] = none
read_sql after_backslash (c ∷ s) = then_byte true c (read_sql in_literal s)

-- Bytes of one kind in front of what was read.
abbrev pub with_bytes : Bool → Str → Option Marked → Option Marked
with_bytes b [] rest = rest
with_bytes b (c ∷ s) rest = then_byte b c (with_bytes b s rest)

abbrev pub NoQuote : Str → Type 0
NoQuote s = All (λ c. (c == 39) ≡ false) s

abbrev escape_byte : ℕ → Str
escape_byte c = if c == 92 then 92 ∷ 92 ∷ [] else if c == 39 then 92 ∷ 39 ∷ [] else c ∷ []

escape_sql-cons : (c : ℕ) (s : Str) → escape_sql (c ∷ s) ≡ escape_byte c ++ escape_sql s
unfolding escape_sql replace_byte
escape_sql-cons c s = elim (Bool-cases (c == 92)) [
  | inl slash ↦ rw slash refl
  | inr other ↦ elim (Bool-cases (c == 39)) [
    | inl quote ↦ rw (other, quote, replace_byte) refl
    | inr plain ↦ rw (other, plain, replace_byte) refl
  ]
]

escape_sql-nil : escape_sql [] ≡ []
unfolding escape_sql replace_byte
escape_sql-nil = refl

read_plain :
    (c : ℕ) (rest : Str)
    → (c == 92) ≡ false
    → (c == 39) ≡ false
    → read_sql in_literal (c ∷ rest) ≡ then_byte true c (read_sql in_literal rest)
unfolding read_sql
read_plain c rest other plain = rw (other, plain) refl

read_sql-escape_byte :
    (c : ℕ) (rest : Str)
    → read_sql in_literal (escape_byte c ++ rest) ≡ then_byte true c (read_sql in_literal rest)
unfolding read_sql
read_sql-escape_byte c rest = elim (Bool-cases (c == 92)) [
  | inl slash ↦
      rw slash (ap (λ d. then_byte true d (read_sql in_literal rest)) (sym ((==_iff c 92).0 slash)))
  | inr other ↦ elim (Bool-cases (c == 39)) [
    | inl quote ↦
        rw (other, quote)
          (ap (λ d. then_byte true d (read_sql in_literal rest)) (sym ((==_iff c 39).0 quote)))
    | inr plain ↦ rw (other, plain) (read_plain c rest other plain)
  ]
]

append_assoc : (xs ys zs : Str) → (xs ++ ys) ++ zs ≡ xs ++ (ys ++ zs)
append_assoc [] ys zs = refl
append_assoc (x ∷ xs) ys zs = ap (λ ws. x ∷ ws) (append_assoc xs ys zs)

-- The value of a literal is the text that was escaped.
pub read_sql-escape_sql :
    (s rest : Str)
    → read_sql in_literal (escape_sql s ++ rest) ≡ with_bytes true s (read_sql in_literal rest)
read_sql-escape_sql [] rest = ap (λ t. read_sql in_literal (t ++ rest)) escape_sql-nil
read_sql-escape_sql (c ∷ s) rest =
    ap (λ t. read_sql in_literal (t ++ rest)) (escape_sql-cons c s)
    ∙ ap (read_sql in_literal) (append_assoc (escape_byte c) (escape_sql s) rest)
    ∙ read_sql-escape_byte c (escape_sql s ++ rest)
    ∙ ap (then_byte true c) (read_sql-escape_sql s rest)

-- A piece of SQL text: code without a quotation mark, or a literal with its value.
pub data Piece : Type 0 where
  text quoted : Str → Piece

abbrev pub render : Piece → Str
render (text s) = s
render (quoted s) = quote_sql s

unfoldable pub render_all : List Piece → Str
render_all [] = []
render_all (p ∷ ps) = render p ++ render_all ps

abbrev pub IsSound : Piece → Type 0
IsSound (text s) = NoQuote s
IsSound (quoted s) = Unit

-- What a piece reads as.
abbrev pub marks : Piece → Option Marked → Option Marked
marks (text s) rest = with_bytes false s rest
marks (quoted s) rest = then_byte false 39 (with_bytes true s (then_byte false 39 rest))

unfoldable pub marks_all : List Piece → Option Marked
marks_all [] = some []
marks_all (p ∷ ps) = marks p (marks_all ps)

read_sql-text :
    (s rest : Str)
    → NoQuote s
    → read_sql in_code (s ++ rest) ≡ with_bytes false s (read_sql in_code rest)
unfolding read_sql
read_sql-text [] rest h = refl
read_sql-text (c ∷ s) rest h = rw h.0 (ap (then_byte false c) (read_sql-text s rest h.1))

read_sql-quote_sql :
    (s rest : Str)
    → read_sql in_code (quote_sql s ++ rest)
      ≡ then_byte false 39 (with_bytes true s (then_byte false 39 (read_sql in_code rest)))
unfolding read_sql
read_sql-quote_sql s rest =
    ap (λ t. then_byte false 39 (read_sql in_literal t))
      (append_assoc (escape_sql s) (39 ∷ []) rest)
    ∙ ap (then_byte false 39) (read_sql-escape_sql s (39 ∷ rest))

-- Sound pieces read as what they are.
pub read_sql-render_all :
    (ps : List Piece) → All IsSound ps → read_sql in_code (render_all ps) ≡ marks_all ps
unfolding render_all marks_all
read_sql-render_all [] h = unfold read_sql in refl
read_sql-render_all (text s ∷ ps) h =
    read_sql-text s (render_all ps) h.0 ∙ ap (with_bytes false s) (read_sql-render_all ps h.1)
read_sql-render_all (quoted s ∷ ps) h =
    read_sql-quote_sql s (render_all ps)
    ∙ ap (λ o. then_byte false 39 (with_bytes true s (then_byte false 39 o)))
        (read_sql-render_all ps h.1)
