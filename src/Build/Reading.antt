-- ===== src/Build/Reading.antt =====
-- build.rs: how it reads the line that the version check prints. A text is the list of its code
-- points. These are the functions of `str` that the script calls.
use ucx_rs.Base.{
  ℕ, zero, suc, ◌+◌, ◌-◌, ◌*◌, ◌^◌, Bool, true, false, ◌&&◌, not, Option, none, some, List, [], ◌∷◌,
  length, ltb, leb, ◌==◌, if◌then◌else◌,
}

abbrev pub Text : Type 0
Text = List ℕ

abbrev pub dot : ℕ
dot = 46

abbrev pub newline : ℕ
newline = 10

abbrev carriage_return : ℕ
carriage_return = 13

-- A code point before the first of some texts.
abbrev prepend : ℕ → List Text → List Text
prepend c [] = (c ∷ []) ∷ []
prepend c (t ∷ ts) = (c ∷ t) ∷ ts

abbrev next_is : ℕ → Text → Bool
next_is c [] = false
next_is c (d ∷ s) = c == d

-- `str::lines`: a line ends with a newline, before which a carriage return is left out, or with the
-- text.
unfoldable pub lines : Text → List Text
lines [] = []
lines (c ∷ s) =
    let rest = lines s in
    if c == newline
    then [] ∷ rest
    else if c == carriage_return && next_is newline s
    then rest
    else prepend c rest

-- `str::split` at a character.
unfoldable pub split : ℕ → Text → List Text
split mark [] = [] ∷ []
split mark (c ∷ s) = let rest = split mark s in if c == mark then [] ∷ rest else prepend c rest

-- `str::strip_prefix`, `str::starts_with` and `str::trim_start_matches`, which strips the prefix as
-- often as it is there. The fuel is the length of the text: a prefix is not empty.
unfoldable pub strip_prefix : Text → Text → Option Text
strip_prefix [] s = some s
strip_prefix (p ∷ ps) [] = none
strip_prefix (p ∷ ps) (c ∷ s) = let rest = strip_prefix ps s in if p == c then rest else none

abbrev pub starts_with : Text → Text → Bool
starts_with p s = elim (strip_prefix p s) [ none ↦ false | some rest ↦ true ]

unfoldable pub trim_within : ℕ → Text → Text → Text
trim_within zero p s = s
trim_within (suc f) p s = elim (strip_prefix p s) [ none ↦ s | some rest ↦ trim_within f p rest ]

abbrev pub trim_start_matches : Text → Text → Text
trim_start_matches p s = trim_within (length s) p s

-- `str::parse::<u32>`: digits, perhaps after a plus sign, of a number below 2^32.
unfoldable pub accumulate : Text → ℕ → Option ℕ
accumulate [] n = some n
accumulate (c ∷ s) n =
    let rest = accumulate s (n * 10 + (c - b'0')) in
    if leb b'0' c && leb c b'9' && ltb (n * 10 + (c - b'0')) (2 ^ 32) then rest else none

abbrev is_empty : Text → Bool
is_empty [] = true
is_empty (c ∷ s) = false

unfoldable pub parse_u32 : Text → Option ℕ
parse_u32 [] = none
parse_u32 (c ∷ s) = if c == b'+' && not (is_empty s) then accumulate s 0 else accumulate (c ∷ s) 0
