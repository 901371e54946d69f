-- ===== src/Storage/Text.antt =====
-- Small functions on text of internal/storage: status codes and kinds, severities, masked keys, and
-- the substring test of memstore.go.
pub mod Search
use labubu.Base.{
  ℕ, zero, suc, ◌+◌, ◌-◌, ◌≡◌, refl, Bool, true, false, not, ◌&&◌, [], ◌∷◌, ◌++◌, arith, ltb, leb,
  ◌==◌, if◌then◌else◌, length, take, drop, length-append, length-take, length-drop,
}
use labubu.Base.Int.{ℤ, pos, negsuc, ltb_ℤ}
use labubu.Base.Str.{Str, codes, str_eq}
use labubu.Base.Dict.{nat_eq, bytes_eq}

unfoldable pub status_code_to_string : ℤ → Str
status_code_to_string (pos zero) = codes "UNSET"
status_code_to_string (pos (suc zero)) = codes "OK"
status_code_to_string (pos (suc (suc zero))) = codes "ERROR"
status_code_to_string _ = codes "UNSET"

unfoldable pub status_code_from_string : Str → ℤ
unfolding str_eq
status_code_from_string s =
    if str_eq s (codes "OK") then pos 1 else if str_eq s (codes "ERROR") then pos 2 else pos 0

unfoldable pub kind_to_string : ℤ → Str
kind_to_string (pos zero) = codes "UNSPECIFIED"
kind_to_string (pos (suc zero)) = codes "INTERNAL"
kind_to_string (pos (suc (suc zero))) = codes "SERVER"
kind_to_string (pos (suc (suc (suc zero)))) = codes "CLIENT"
kind_to_string (pos (suc (suc (suc (suc zero))))) = codes "PRODUCER"
kind_to_string (pos (suc (suc (suc (suc (suc zero)))))) = codes "CONSUMER"
kind_to_string _ = codes "UNSPECIFIED"

-- The three codes survive being stored as text, and every other code is read back as "unset".
pub status_code-roundtrip :
    (c : ℤ)
    → status_code_from_string (status_code_to_string c)
      ≡ (if ltb_ℤ c (pos 0) then pos 0 else if ltb_ℤ (pos 2) c then pos 0 else c)
unfolding status_code_from_string status_code_to_string
status_code-roundtrip (pos zero) = refl
status_code-roundtrip (pos (suc zero)) = refl
status_code-roundtrip (pos (suc (suc zero))) = refl
status_code-roundtrip (pos (suc (suc (suc n)))) = ground arith
status_code-roundtrip (negsuc n) = ground arith

-- `key[:3] + "***" + key[len(key)-2:]` for a key of more than eight bytes.
unfoldable pub mask_api_key : Str → Str
mask_api_key key =
    if leb (length key) 8
    then codes "***"
    else take 3 key ++ (codes "***" ++ drop (length key - 2) key)

-- A masked key has three bytes, or eight: it shows five bytes of the key, in keys of nine and more.
pub length-mask_api_key :
    (key : Str) → length (mask_api_key key) ≡ (if leb (length key) 8 then 3 else 8)
unfolding mask_api_key
length-mask_api_key key = ground (
  arith,
  length-append (take 3 key) (codes "***" ++ drop (length key - 2) key),
  length-append (codes "***") (drop (length key - 2) key),
  length-take 3 key,
  length-drop (length key - 2) key,
)

-- The case-insensitive comparison of one byte, ASCII letters only.
abbrev pub fold_case : ℕ → ℕ
fold_case c = if leb b'A' c && leb c b'Z' then c + 32 else c

-- The inner loop: does `substr` stand at the front?
unfoldable pub matches_here : Str → Str → Bool
matches_here s [] = true
matches_here [] (q ∷ qs) = false
matches_here (c ∷ s) (q ∷ qs) =
    if not (fold_case c == fold_case q) then false else matches_here s qs

-- The outer loop, over the rounds that are left.
unfoldable pub search_from : ℕ → Str → Str → Bool
unfolding matches_here
search_from zero s substr = matches_here s substr
search_from (suc rounds) s substr =
    if matches_here s substr then true else search_from rounds (drop 1 s) substr

unfoldable pub contains_substring : Str → Str → Bool
unfolding search_from
contains_substring s substr =
    if length substr == 0
    then true
    else if ltb (length s) (length substr)
    then false
    else search_from (length s - length substr) s substr
