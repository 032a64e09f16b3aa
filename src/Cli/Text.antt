-- ===== src/Cli/Text.antt =====
-- What cmd/coordinator/main.go calls of Go's strings and strconv. A text is a sequence of characters, and
-- white space and letters are those of ASCII.
use Prim.Native.Char.{Char, code}
use ensemble_chat.Common.{
  ℕ, zero, suc, ◌+◌, ◌-◌, ◌*◌, ◌^◌, ℤ, pos, negsuc, Bool, true, false, ◌&&◌, ◌||◌, Option, none,
  some, List, [], ◌∷◌, map, String, ltb, leb, ◌==◌, if◌then◌else◌,
}

-- The code points of a text.
abbrev pub codes : String → List ℕ
codes String.[] = []
codes (String.◌∷◌ c s) = code c ∷ codes s

abbrev pub is_empty : String → Bool
is_empty String.[] = true
is_empty (String.◌∷◌ c s) = false

-- A character in front of the first part.
abbrev pub prepend : Char → List String → List String
prepend c [] = String.◌∷◌ c "" ∷ []
prepend c (part ∷ parts) = String.◌∷◌ c part ∷ parts

-- `strings.Split` at a single character
unfoldable pub split : (sep : ℕ) → String → List String
split sep String.[] = "" ∷ []
split sep (String.◌∷◌ c s) =
    let rest = split sep s in if code c == sep then "" ∷ rest else prepend c rest

-- `strings.SplitN(s, sep, 2)`: the two parts, `none` where there is one only.
unfoldable pub split_two : (sep : ℕ) → String → Option (String × String)
split_two sep String.[] = none
split_two sep (String.◌∷◌ c s) =
    let rest = split_two sep s in
    if code c == sep
    then some ("", s)
    else elim rest [ none ↦ none | some (key, value) ↦ some (String.◌∷◌ c key, value) ]

-- The number of decimal digits behind `n`; `none`: a character is no digit.
unfoldable pub scan : String → (n : ℕ) → Option ℕ
scan String.[] n = some n
scan (String.◌∷◌ c s) n =
    let rest = scan s (n * 10 + (code c - b'0')) in
    if leb b'0' (code c) && leb (code c) b'9' then rest else none

unfoldable pub unsigned : String → Option ℕ
unfolding scan
unsigned String.[] = none
unsigned (String.◌∷◌ c s) = scan (String.◌∷◌ c s) 0

-- A signed number of 64 bits, or an error out of range.
unfoldable pub in_range : (negative : Bool) → ℕ → Option ℤ
in_range false n = if ltb n (2 ^ 63) then some (pos n) else none
in_range true zero = some (pos 0)
in_range true (suc n) = if ltb n (2 ^ 63) then some (negsuc n) else none

abbrev pub checked : (negative : Bool) → Option ℕ → Option ℤ
checked negative none = none
checked negative (some n) = in_range negative n

-- `strconv.Atoi`; `none` is its error.
unfoldable pub atoi : String → Option ℤ
unfolding unsigned in_range
atoi String.[] = none
atoi (String.◌∷◌ c s) =
    if code c == b'-'
    then checked true (unsigned s)
    else if code c == b'+'
    then checked false (unsigned s)
    else checked false (unsigned (String.◌∷◌ c s))

-- `unicode.IsSpace` on ASCII
unfoldable pub is_space : ℕ → Bool
is_space c = c == 32 || leb 9 c && leb c 13

unfoldable pub trim_left : String → String
trim_left String.[] = ""
trim_left (String.◌∷◌ c s) =
    let rest = trim_left s in if is_space (code c) then rest else String.◌∷◌ c s

unfoldable pub trim_right : String → String
trim_right String.[] = ""
trim_right (String.◌∷◌ c s) =
    let rest = trim_right s in if is_space (code c) && is_empty rest then "" else String.◌∷◌ c rest

-- `strings.TrimSpace`
unfoldable pub trim_space : String → String
unfolding trim_left trim_right
trim_space s = trim_right (trim_left s)

abbrev pub add_field : String → List String → List String
add_field field fields = if is_empty field then fields else field ∷ fields

-- The field that a text begins with, and those after it.
unfoldable pub fields_from : String → String × List String
fields_from String.[] = ("", [])
fields_from (String.◌∷◌ c s) =
    let (field, rest) = fields_from s in
    if is_space (code c) then ("", add_field field rest) else (String.◌∷◌ c field, rest)

-- `strings.Fields`
unfoldable pub fields : String → List String
unfolding fields_from
fields s = let (field, rest) = fields_from s in add_field field rest

unfoldable pub to_lower : ℕ → ℕ
to_lower c = if leb b'A' c && leb c b'Z' then c + 32 else c

abbrev pub same : List ℕ → List ℕ → Bool
same [] [] = true
same [] (_ ∷ _) = false
same (_ ∷ _) [] = false
same (c ∷ cs) (d ∷ ds) = let rest = same cs ds in (c == d) && rest

-- `strings.ToLower(field)` is `word`.
unfoldable pub is_word : (field word : String) → Bool
unfolding to_lower
is_word field word = same (map to_lower (codes field)) (codes word)
