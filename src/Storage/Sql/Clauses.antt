-- ===== src/Storage/Sql/Clauses.antt =====
-- The filters that internal/storage/chdb_query.go builds, read again.
use labubu.Base.{
  ℕ, ◌≡◌, refl, sym, ap, ◌∙◌, inl, inr, Bool, true, false, not, ◌&&◌, List, [], ◌∷◌, ◌++◌, map,
  arith, ◌==◌, if◌then◌else◌, Bool-cases, all, All, All-append,
}
use labubu.Base.Str.{Str, codes}
use labubu.Base.Dict.{nat_eq, bytes_eq}
use labubu.Storage.Sql.{
  replace_byte, escape_sql, quote_sql, join, clause_if, where_clause, service_clause, like_text,
}
use labubu.Storage.Sql.Reading.{
  Piece, text, quoted, render_all, IsSound, NoQuote, marks_all, in_code, read_sql,
  read_sql-render_all,
}

abbrev pub eq_pieces : Str → Str → List Piece
eq_pieces t s = text t ∷ quoted s ∷ []

abbrev pub like_pieces : Str → Str → List Piece
like_pieces t s = text t ∷ quoted (37 ∷ (s ++ 37 ∷ [])) ∷ []

abbrev pub number_pieces : Str → Str → List Piece
number_pieces t n = text t ∷ text n ∷ []

abbrev pub service_pieces : Str → List Piece
service_pieces s =
    text (codes "resource_attributes[")
    ∷ quoted (codes "service.name")
    ∷ text (codes "] = ")
    ∷ quoted s
    ∷ []

abbrev pub piece_if : Bool → List Piece → List (List Piece) → List (List Piece)
piece_if true p ps = p ∷ ps
piece_if false p ps = ps

unfoldable pub join_pieces : Str → List (List Piece) → List Piece
join_pieces sep [] = []
join_pieces sep (p ∷ []) = p
join_pieces sep (p ∷ r ∷ ps) = p ++ (text sep ∷ join_pieces sep (r ∷ ps))

abbrev pub where_pieces : List (List Piece) → List Piece
where_pieces [] = []
where_pieces (p ∷ ps) = text (codes " WHERE ") ∷ join_pieces (codes " AND ") (p ∷ ps)

append_nil : (s : Str) → s ++ [] ≡ s
append_nil [] = refl
append_nil (c ∷ s) = ap (λ t. c ∷ t) (append_nil s)

append_assoc : (xs ys zs : Str) → (xs ++ ys) ++ zs ≡ xs ++ (ys ++ zs)
append_assoc [] ys zs = refl
append_assoc (x ∷ xs) ys zs = ap (λ ws. x ∷ ws) (append_assoc xs ys zs)

render_all-append : (ps rs : List Piece) → render_all (ps ++ rs) ≡ render_all ps ++ render_all rs
unfolding render_all
render_all-append [] rs = refl
render_all-append (text s ∷ ps) rs =
    ap (λ t. s ++ t) (render_all-append ps rs)
    ∙ sym (append_assoc s (render_all ps) (render_all rs))
render_all-append (quoted s ∷ ps) rs =
    ap (λ t. quote_sql s ++ t) (render_all-append ps rs)
    ∙ sym (append_assoc (quote_sql s) (render_all ps) (render_all rs))

join-render_all :
    (sep : Str) (pss : List (List Piece))
    → join sep (map render_all pss) ≡ render_all (join_pieces sep pss)
unfolding join join_pieces render_all
join-render_all sep [] = refl
join-render_all sep (p ∷ []) = refl
join-render_all sep (p ∷ r ∷ ps) =
    ap (λ t. render_all p ++ (sep ++ t)) (join-render_all sep (r ∷ ps))
    ∙ sym (render_all-append p (text sep ∷ join_pieces sep (r ∷ ps)))

replace_byte-append :
    (old : ℕ) (new s t : Str)
    → replace_byte old new (s ++ t) ≡ replace_byte old new s ++ replace_byte old new t
unfolding replace_byte
replace_byte-append old new [] t = refl
replace_byte-append old new (c ∷ s) t =
    ap (λ u. (if c == old then new else c ∷ []) ++ u) (replace_byte-append old new s t)
    ∙ sym (
        append_assoc (if c == old then new else c ∷ []) (replace_byte old new s)
          (replace_byte old new t))

-- The percent signs around a text could as well be part of the literal's value.
like_text-eq : (s : Str) → like_text s ≡ quote_sql (37 ∷ (s ++ 37 ∷ []))
unfolding escape_sql replace_byte
like_text-eq s =
    ap (λ t. 39 ∷ 37 ∷ t)
      (sym (append_assoc (escape_sql s) (37 ∷ []) (39 ∷ []))
        ∙ ap (λ t. t ++ 39 ∷ [])
            (sym (
              ap (replace_byte 39 (92 ∷ 39 ∷ []))
                (replace_byte-append 92 (92 ∷ 92 ∷ []) s (37 ∷ []))
              ∙ replace_byte-append 39 (92 ∷ 39 ∷ []) (replace_byte 92 (92 ∷ 92 ∷ []) s)
                  (37 ∷ []))))

no_quote : (s : Str) → all (λ c. not (c == 39)) s ≡ true → NoQuote s
unfolding all
no_quote [] h = tt
no_quote (c ∷ s) h = elim (Bool-cases (c == 39)) [
  | inl quote ↦ absurd (ground (arith, quote, h))
  | inr plain ↦ (plain, no_quote s (ap (λ b. not b && all (λ d. not (d == 39)) s) (sym plain) ∙ h))
]

abbrev pub Renders : Str → List Piece → Type 0
Renders c p = (c ≡ render_all p) × All IsSound p

abbrev pub RendersAll : List Str → List (List Piece) → Type 0
RendersAll cs ps = (cs ≡ map render_all ps) × All (All IsSound) ps

pub eq_lem :
    (t s : Str) → all (λ c. not (c == 39)) t ≡ true → Renders (t ++ quote_sql s) (eq_pieces t s)
unfolding render_all
eq_lem t s h = (ap (λ u. t ++ u) (sym (append_nil (quote_sql s))), (no_quote t h, (tt, tt)))

pub like_lem :
    (t s : Str) → all (λ c. not (c == 39)) t ≡ true → Renders (t ++ like_text s) (like_pieces t s)
unfolding render_all
like_lem t s h = (
  ap (λ u. t ++ u) (like_text-eq s ∙ sym (append_nil (quote_sql (37 ∷ (s ++ 37 ∷ []))))),
  (no_quote t h, (tt, tt)),
)

pub number_lem :
    (t n : Str)
    → all (λ c. not (c == 39)) t ≡ true
    → NoQuote n
    → Renders (t ++ n) (number_pieces t n)
unfolding render_all
number_lem t n h k = (ap (λ u. t ++ u) (sym (append_nil n)), (no_quote t h, (k, tt)))

pub service_lem : (s : Str) → Renders (service_clause s) (service_pieces s)
unfolding render_all all escape_sql replace_byte
service_lem s = (
  ap (λ u. codes "resource_attributes[" ++ quote_sql (codes "service.name") ++ codes "] = " ++ u)
      (sym (append_nil (quote_sql s))),
  (no_quote (codes "resource_attributes[") refl, (tt, (no_quote (codes "] = ") refl, (tt, tt)))),
)

pub clause_lem :
    (b : Bool) (c : Str) (p : List Piece) (cs : List Str) (ps : List (List Piece))
    → Renders c p
    → RendersAll cs ps
    → RendersAll (clause_if b c cs) (piece_if b p ps)
clause_lem true c p cs ps h k =
    (ap (λ d. d ∷ cs) h.0 ∙ ap (λ ds. render_all p ∷ ds) k.0, (h.1, k.1))
clause_lem false c p cs ps h k = k

join_pieces-All :
    (sep : Str) (ps : List (List Piece))
    → NoQuote sep
    → All (All IsSound) ps
    → All IsSound (join_pieces sep ps)
unfolding join_pieces
join_pieces-All sep [] h k = tt
join_pieces-All sep (p ∷ []) h k = k.0
join_pieces-All sep (p ∷ r ∷ ps) h k =
    All-append IsSound p (text sep ∷ join_pieces sep (r ∷ ps)) k.0
      (h, join_pieces-All sep (r ∷ ps) h k.1)

where_lem :
    (ps : List (List Piece))
    → All (All IsSound) ps
    → read_sql in_code (where_clause (map render_all ps)) ≡ marks_all (where_pieces ps)
unfolding all render_all
where_lem [] k = read_sql-render_all [] tt
where_lem (p ∷ ps) k =
    ap (λ t. read_sql in_code (codes " WHERE " ++ t)) (join-render_all (codes " AND ") (p ∷ ps))
    ∙ read_sql-render_all (where_pieces (p ∷ ps)) (
      no_quote (codes " WHERE ") refl,
      join_pieces-All (codes " AND ") (p ∷ ps) (no_quote (codes " AND ") refl) k,
    )

pub read_where :
    (cs : List Str) (ps : List (List Piece))
    → RendersAll cs ps
    → read_sql in_code (where_clause cs) ≡ marks_all (where_pieces ps)
read_where cs ps h = ap (λ ds. read_sql in_code (where_clause ds)) h.0 ∙ where_lem ps h.1
