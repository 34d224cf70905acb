-- ===== src/Text/Split.antt =====
-- Splitting and trimming texts, which are lists of code points.
use rload.Prelude.{
  ℕ, ◌+◌, ◌≡◌, refl, Bool, true, false, ◌&&◌, ◌||◌, Option, none, some, List, [], ◌∷◌, ◌++◌, map,
  leb, ◌==◌, if◌then◌else◌, codes, is_empty, bytes_eq,
}

-- `char::is_whitespace`
unfoldable pub is_whitespace : ℕ → Bool
is_whitespace c =
    (leb 9 c && leb c 13)
    || c == 32
    || c == 0x85
    || c == 0xa0
    || c == 0x1680
    || (leb 0x2000 c && leb c 0x200a)
    || c == 0x2028
    || c == 0x2029
    || c == 0x202f
    || c == 0x205f
    || c == 0x3000

-- `split_once(sep)` at the first `sep`
unfoldable pub split_once : ℕ → List ℕ → Option (List ℕ × List ℕ)
split_once sep [] = none
split_once sep (c ∷ cs) =
    let rest = split_once sep cs in
    if c == sep then some ([], cs) else elim rest [ none ↦ none | some (l, r) ↦ some (c ∷ l, r) ]

-- `rsplit_once(sep)` at the last `sep`
unfoldable pub rsplit_once : ℕ → List ℕ → Option (List ℕ × List ℕ)
rsplit_once sep [] = none
rsplit_once sep (c ∷ cs) = elim (rsplit_once sep cs) [
  | some (l, r) ↦ some (c ∷ l, r)
  | none ↦ if c == sep then some ([], cs) else none
]

abbrev prepend : ℕ → List (List ℕ) → List (List ℕ)
prepend c [] = (c ∷ []) ∷ []
prepend c (p ∷ ps) = (c ∷ p) ∷ ps

-- `split(sep)`, which has at least one part
unfoldable pub split : ℕ → List ℕ → List (List ℕ)
split sep [] = [] ∷ []
split sep (c ∷ cs) = let rest = split sep cs in if c == sep then [] ∷ rest else prepend c rest

-- `split("\r\n")`
unfoldable pub split_crlf : List ℕ → List (List ℕ)
split_crlf [] = [] ∷ []
split_crlf (c ∷ []) = (c ∷ []) ∷ []
split_crlf (c ∷ d ∷ cs) =
    let after = split_crlf cs in
    let rest = split_crlf (d ∷ cs) in if c == 13 && d == 10 then [] ∷ after else prepend c rest

-- The parts between whitespace, the empty ones dropped.
fields_from : List ℕ → List ℕ → List (List ℕ)
fields_from [] [] = []
fields_from (w ∷ word) [] = (w ∷ word) ∷ []
fields_from word (c ∷ cs) =
    let next = fields_from [] cs in
    let longer = fields_from (word ++ c ∷ []) cs in
    if is_whitespace c then (if is_empty word then next else word ∷ next) else longer

unfoldable pub split_whitespace : List ℕ → List (List ℕ)
unfolding fields_from is_whitespace
split_whitespace text = fields_from [] text

unfoldable pub trim_start : List ℕ → List ℕ
trim_start [] = []
trim_start (c ∷ cs) = let rest = trim_start cs in if is_whitespace c then rest else c ∷ cs

unfoldable pub trim_end : List ℕ → List ℕ
trim_end [] = []
trim_end (c ∷ cs) =
    let rest = trim_end cs in if is_empty rest && is_whitespace c then [] else c ∷ rest

unfoldable pub trim : List ℕ → List ℕ
unfolding trim_start trim_end is_whitespace
trim text = trim_end (trim_start text)

unfoldable pub to_lower : ℕ → ℕ
to_lower c = if leb b'A' c && leb c b'Z' then c + 32 else c

unfoldable pub eq_ignore_ascii_case : List ℕ → List ℕ → Bool
unfolding to_lower bytes_eq
eq_ignore_ascii_case a b = bytes_eq (map to_lower a) (map to_lower b)

unfoldable pub starts_with : List ℕ → List ℕ → Bool
starts_with [] text = true
starts_with (p ∷ ps) [] = false
starts_with (p ∷ ps) (c ∷ cs) = p == c && starts_with ps cs

unfoldable pub contains : ℕ → List ℕ → Bool
contains x [] = false
contains x (c ∷ cs) = c == x || contains x cs

splits_fields : split_whitespace (codes " a  bc ") ≡ codes "a" ∷ codes "bc" ∷ []
unfolding split_whitespace
splits_fields = refl

trims : trim (codes " a b ") ≡ codes "a b"
unfolding trim
trims = refl
