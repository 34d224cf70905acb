-- ===== src/Text/Number.antt =====
-- `str::parse` and `from_str_radix` for unsigned integers: an optional plus sign, at least one digit,
-- and no overflow.
use rload.Prelude.{
  ℕ, ◌+◌, ◌-◌, ◌*◌, ◌^◌, ◌≡◌, refl, ◌&&◌, Option, none, some, List, [], ◌∷◌, ltb, leb, ◌==◌,
  if◌then◌else◌, codes,
}

unfoldable pub digit_value : ℕ → Option ℕ
digit_value c =
    if leb b'0' c && leb c b'9'
    then some (c - 48)
    else if leb b'a' c && leb c b'f'
    then some (c - 87)
    else if leb b'A' c && leb c b'F'
    then some (c - 55)
    else none

-- One more digit; `none` for a bad digit and on overflow.
unfoldable pub add_digit : ℕ → ℕ → ℕ → ℕ → Option ℕ
unfolding digit_value
add_digit radix limit acc c = elim (digit_value c) [
  | none ↦ none
  | some d ↦ if ltb d radix && ltb (acc * radix + d) limit then some (acc * radix + d) else none
]

unfoldable pub parse_digits : ℕ → ℕ → ℕ → List ℕ → Option ℕ
unfolding add_digit
parse_digits radix limit acc [] = some acc
parse_digits radix limit acc (c ∷ cs) = elim (add_digit radix limit acc c) [
  | none ↦ none
  | some acc' ↦ parse_digits radix limit acc' cs
]

unfoldable pub parse_unsigned : ℕ → ℕ → List ℕ → Option ℕ
unfolding parse_digits
parse_unsigned radix limit [] = none
parse_unsigned radix limit (c ∷ []) = parse_digits radix limit 0 (c ∷ [])
parse_unsigned radix limit (c ∷ d ∷ cs) =
    if c == b'+'
    then parse_digits radix limit 0 (d ∷ cs)
    else parse_digits radix limit 0 (c ∷ d ∷ cs)

abbrev pub parse_u16 : List ℕ → Option ℕ
parse_u16 = parse_unsigned 10 (2 ^ 16)

abbrev pub parse_usize : List ℕ → Option ℕ
parse_usize = parse_unsigned 10 (2 ^ 64)

abbrev pub parse_usize_hex : List ℕ → Option ℕ
parse_usize_hex = parse_unsigned 16 (2 ^ 64)

parses_hex : parse_usize_hex (codes "1aF") ≡ some 431
unfolding parse_unsigned
parses_hex = refl

parses_port : parse_u16 (codes "65536") ≡ none
unfolding parse_unsigned
parses_port = refl
