-- ===== src/Text/Chars.antt =====
-- `trim` on a text that is kept as its UTF-8 bytes: it takes off whole characters, also those of
-- several bytes.
use rload.Prelude.{
  ℕ, ◌+◌, ◌*◌, ◌%◌, ◌≡◌, refl, Bool, false, ◌&&◌, List, [], ◌∷◌, ◌++◌, leb, ltb, if◌then◌else◌,
  is_empty, Bytes, codes,
}
use rload.Text.Split.{is_whitespace}

-- A byte that goes on with a character.
abbrev pub goes_on : ℕ → Bool
goes_on b = leb 0x80 b && ltb b 0xc0

abbrev pub begins_inside : Bytes → Bool
begins_inside [] = false
begins_inside (b ∷ bs) = goes_on b

-- A byte before the characters that follow it: it belongs to the first of them, or is one of its own.
abbrev pub attach : ℕ → List Bytes → List Bytes
attach b [] = (b ∷ []) ∷ []
attach b (c ∷ cs) = if leb 0x80 b && begins_inside c then (b ∷ c) ∷ cs else (b ∷ []) ∷ c ∷ cs

-- The characters of a text, each with its bytes.
unfoldable pub characters : Bytes → List Bytes
characters [] = []
characters (b ∷ bs) = attach b (characters bs)

-- The code point of a character of up to three bytes; 0, which is no whitespace, for all others.
unfoldable pub point : Bytes → ℕ
point [] = 0
point (a ∷ []) = a
point (a ∷ b ∷ []) = (a % 32) * 64 + b % 64
point (a ∷ b ∷ c ∷ []) = (a % 16) * 4096 + (b % 64) * 64 + c % 64
point (a ∷ b ∷ c ∷ d ∷ more) = 0

unfoldable pub without_first_blanks : List Bytes → List Bytes
unfolding point is_whitespace
without_first_blanks [] = []
without_first_blanks (c ∷ cs) =
    let rest = without_first_blanks cs in if is_whitespace (point c) then rest else c ∷ cs

unfoldable pub without_last_blanks : List Bytes → List Bytes
unfolding point is_whitespace
without_last_blanks [] = []
without_last_blanks (c ∷ cs) =
    let rest = without_last_blanks cs in
    if is_empty rest && is_whitespace (point c) then [] else c ∷ rest

unfoldable pub joined : List Bytes → Bytes
joined [] = []
joined (c ∷ cs) = c ++ joined cs

-- `str::trim`
unfoldable pub trim_text : Bytes → Bytes
unfolding characters without_first_blanks without_last_blanks joined
trim_text text = joined (without_last_blanks (without_first_blanks (characters text)))

trims_spaces : trim_text (codes " a b\t") ≡ codes "a b"
unfolding trim_text
trims_spaces = refl

-- U+00A0 and U+3000 are whitespace.
trims_wide_spaces : trim_text (0xc2 ∷ 0xa0 ∷ 0xe3 ∷ 0x80 ∷ 0x80 ∷ []) ≡ []
unfolding trim_text
trims_wide_spaces = refl

-- U+00E0 ends in a byte that is a whitespace's code point.
keeps_accent : trim_text (b' ' ∷ 0xc3 ∷ 0xa0 ∷ []) ≡ 0xc3 ∷ 0xa0 ∷ []
unfolding trim_text
keeps_accent = refl
