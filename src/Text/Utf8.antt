-- ===== src/Text/Utf8.antt =====
-- `std::str::from_utf8`: the code points of well-formed bytes.
use rload.Prelude.{
  ℕ, ◌+◌, ◌*◌, ◌%◌, ◌≡◌, refl, Bool, ◌&&◌, Option, none, some, List, [], ◌∷◌, ltb, leb, ◌==◌,
  if◌then◌else◌, Bytes,
}

-- A continuation byte within bounds.
abbrev is_in : ℕ → ℕ → ℕ → Bool
is_in lo hi b = leb lo b && leb b hi

abbrev push : ℕ → Option (List ℕ) → Option (List ℕ)
push c none = none
push c (some cs) = some (c ∷ cs)

two : ℕ → ℕ → ℕ
two a b = (a % 32) * 64 + b % 64

three : ℕ → ℕ → ℕ → ℕ
three a b c = (a % 16) * 4096 + (b % 64) * 64 + c % 64

four : ℕ → ℕ → ℕ → ℕ → ℕ
four a b c d = (a % 8) * 262_144 + (b % 64) * 4096 + (c % 64) * 64 + d % 64

-- The second byte's bounds after a lead byte of three or four bytes.
is_second_of_three : ℕ → ℕ → Bool
is_second_of_three a b =
    if a == 0xe0
    then is_in 0xa0 0xbf b
    else if a == 0xed
    then is_in 0x80 0x9f b
    else is_in 0x80 0xbf b

is_second_of_four : ℕ → ℕ → Bool
is_second_of_four a b =
    if a == 0xf0
    then is_in 0x90 0xbf b
    else if a == 0xf4
    then is_in 0x80 0x8f b
    else is_in 0x80 0xbf b

unfoldable pub from_utf8 : Bytes → Option (List ℕ)
unfolding two three four is_second_of_three is_second_of_four
from_utf8 [] = some []
from_utf8 (a ∷ b ∷ c ∷ d ∷ rest) =
    let one_byte = from_utf8 (b ∷ c ∷ d ∷ rest) in
    let two_bytes = from_utf8 (c ∷ d ∷ rest) in
    let three_bytes = from_utf8 (d ∷ rest) in
    let four_bytes = from_utf8 rest in
    if ltb a 0x80
    then push a one_byte
    else if is_in 0xc2 0xdf a && is_in 0x80 0xbf b
    then push (two a b) two_bytes
    else if is_in 0xe0 0xef a && is_second_of_three a b && is_in 0x80 0xbf c
    then push (three a b c) three_bytes
    else if is_in 0xf0 0xf4 a && is_second_of_four a b && is_in 0x80 0xbf c && is_in 0x80 0xbf d
    then push (four a b c d) four_bytes
    else none
from_utf8 (a ∷ b ∷ c ∷ []) =
    let one_byte = from_utf8 (b ∷ c ∷ []) in
    let two_bytes = from_utf8 (c ∷ []) in
    if ltb a 0x80
    then push a one_byte
    else if is_in 0xc2 0xdf a && is_in 0x80 0xbf b
    then push (two a b) two_bytes
    else if is_in 0xe0 0xef a && is_second_of_three a b && is_in 0x80 0xbf c
    then push (three a b c) (some [])
    else none
from_utf8 (a ∷ b ∷ []) =
    let one_byte = from_utf8 (b ∷ []) in
    if ltb a 0x80
    then push a one_byte
    else if is_in 0xc2 0xdf a && is_in 0x80 0xbf b
    then push (two a b) (some [])
    else none
from_utf8 (a ∷ []) = if ltb a 0x80 then some (a ∷ []) else none

decodes_accent : from_utf8 (0xc3 ∷ 0xa9 ∷ b'a' ∷ []) ≡ some (0xe9 ∷ b'a' ∷ [])
unfolding from_utf8
decodes_accent = refl

rejects_overlong : from_utf8 (0xc0 ∷ 0x80 ∷ []) ≡ none
unfolding from_utf8
rejects_overlong = refl
