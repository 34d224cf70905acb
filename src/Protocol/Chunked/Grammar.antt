-- ===== src/Protocol/Chunked/Grammar.antt =====
-- Chunked bodies as the protocol describes them: size lines, chunks and trailers. And what the decoder's
-- functions on texts make of them.
use rload.Prelude.{
  ℕ, suc, ◌+◌, ◌*◌, ◌^◌, ◌≤◌, ◌<◌, ◌≡◌, refl, sym, ap, ◌∙◌, ◌≢◌, ◌⊎◌, inl, inr, true, some, List,
  [], ◌∷◌, ◌++◌, append_assoc, arith, Bool-cases, Bytes, length, All, All-append, u64_mod,
}
use rload.Text.Utf8.{from_utf8}
use rload.Text.Split.{split, starts_with}
use rload.Text.Number.{digit_value, parse_digits, parse_unsigned}
use rload.Text.Find.{find_bytes, find_bytes-length}
use rload.Protocol.Chunked.Defs.{chunk_size, crlf, max_header_bytes}

-- A hexadecimal digit and its value: 0 to 9, a to f, A to F.
abbrev pub IsDigit : (byte value : ℕ) → Type 0
IsDigit c d = ((d < 10) × (c ≡ 48 + d)) ⊎ ((10 ≤ d) × (d < 16) × ((c ≡ 87 + d) ⊎ (c ≡ 55 + d)))

-- Hexadecimal digits that go on from one value to another.
pub data IsNumeral : Bytes → (before after : ℕ) → Type 0 where
  ended : {n m : ℕ} → n ≡ m → IsNumeral [] n m
  digit :
      {n m : ℕ} {rest : Bytes} (c d : ℕ)
      → IsDigit c d
      → IsNumeral rest (16 * n + d) m
      → IsNumeral (c ∷ rest) n m

-- ASCII without a carriage return.
abbrev pub IsPlain : ℕ → Type 0
IsPlain b = (b < 128) × (b ≢ 13)

-- A size line without its end: digits, and perhaps an extension after a semicolon.
pub record IsSizeLine (line : Bytes) (n : ℕ) : Type 0 where
  pub digits : Bytes
  pub extension : Bytes
  pub line_eq : line ≡ digits ++ extension
  pub has_digit : digits ≢ []
  pub numeral : IsNumeral digits 0 n
  pub fits : n < u64_mod
  pub is_extension : (extension ≡ []) ⊎ ((e : Bytes) × (extension ≡ b';' ∷ e))
  pub plain : All IsPlain extension
  pub short : length line ≤ max_header_bytes

-- The lines of the trailers, each with its end, and the empty line.
unfoldable pub section_of : List Bytes → Bytes
section_of [] = crlf
section_of (l ∷ ls) = l ++ (crlf ++ section_of ls)

IsNumeral-le : {ds : Bytes} {n m : ℕ} → IsNumeral ds n m → n ≤ m
IsNumeral-le (ended e) = omega arith
IsNumeral-le (digit c d h k) = omega (arith, IsNumeral-le k)

digit_value-IsDigit : (c d : ℕ) → IsDigit c d → digit_value c ≡ some d
unfolding digit_value
digit_value-IsDigit c d h = ground arith

IsDigit-IsPlain : (c d : ℕ) → IsDigit c d → IsPlain c × (c ≢ b';') × (c ≢ b'+') × (d < 16)
IsDigit-IsPlain c d h = omega arith

parse_digits-IsNumeral :
    {ds : Bytes} {n m : ℕ} → IsNumeral ds n m → m < u64_mod → parse_digits 16 (2 ^ 64) n ds ≡ some m
unfolding parse_digits
parse_digits-IsNumeral (ended e) small = ap some e
parse_digits-IsNumeral (digit c d h k) small = ground (
  arith,
  digit_value-IsDigit c d h,
  IsDigit-IsPlain c d h,
  IsNumeral-le k,
  parse_digits-IsNumeral k small,
)

from_utf8-plain : (xs : Bytes) → All IsPlain xs → from_utf8 xs ≡ some xs
unfolding from_utf8
from_utf8-plain [] h = refl
from_utf8-plain (a ∷ []) h = ground arith
from_utf8-plain (a ∷ b ∷ []) h = ground (arith, from_utf8-plain (b ∷ []) h.1)
from_utf8-plain (a ∷ b ∷ c ∷ []) h = ground (arith, from_utf8-plain (b ∷ c ∷ []) h.1)
from_utf8-plain (a ∷ b ∷ c ∷ d ∷ rest) h = ground (arith, from_utf8-plain (b ∷ c ∷ d ∷ rest) h.1)

IsNumeral-IsPlain : {ds : Bytes} {n m : ℕ} → IsNumeral ds n m → All IsPlain ds
IsNumeral-IsPlain (ended e) = tt
IsNumeral-IsPlain (digit c d h k) = ((IsDigit-IsPlain c d h).0, IsNumeral-IsPlain k)

-- The digits are the part before the first semicolon.
split-IsNumeral :
    {ds : Bytes} {n m : ℕ}
    → IsNumeral ds n m
    → (x : Bytes) → (x ≡ []) ⊎ ((e : Bytes) × (x ≡ b';' ∷ e))
    → (parts : List Bytes) × (split b';' (ds ++ x) ≡ ds ∷ parts)
unfolding split
split-IsNumeral (ended q) x (inl e) = ([], rw e refl)
split-IsNumeral (ended q) x (inr (e, h)) = (split b';' e, rw h refl)
split-IsNumeral (digit c d h k) x ext =
    let (parts, e) = split-IsNumeral k x ext in
    let other = (IsDigit-IsPlain c d h).1 in (parts, ground arith)

parse_unsigned-IsNumeral :
    (ds : Bytes) (n : ℕ)
    → ds ≢ []
    → IsNumeral ds 0 n
    → n < u64_mod
    → parse_unsigned 16 (2 ^ 64) ds ≡ some n
unfolding parse_unsigned
parse_unsigned-IsNumeral [] n has k small = absurd (has refl)
parse_unsigned-IsNumeral (c ∷ []) n has k small = parse_digits-IsNumeral k small
parse_unsigned-IsNumeral (c ∷ x ∷ cs) n has k small =
    let e = parse_digits-IsNumeral k small in let no_sign = first k in ground arith
  where
    first : {ds : Bytes} → IsNumeral (c ∷ ds) 0 n → c ≢ b'+'
    first (digit a d h k) = (IsDigit-IsPlain c d h).2

-- What `chunk_size` reads off a size line.
pub chunk_size-IsSizeLine : (line : Bytes) (n : ℕ) → IsSizeLine line n → chunk_size line ≡ some n
unfolding chunk_size
chunk_size-IsSizeLine line n h =
    let text = from_utf8-plain line (
      rw h.line_eq
        (All-append IsPlain h.digits h.extension (IsNumeral-IsPlain h.numeral) h.plain)) in
    let (parts, e) = split-IsNumeral h.numeral h.extension h.is_extension in
    let parsed = parse_unsigned-IsNumeral h.digits n h.has_digit h.numeral h.fits in
    let cut : split b';' line ≡ h.digits ∷ parts = ap (split b';') h.line_eq ∙ e in ground arith

-- Where a line without a carriage return ends.
find_bytes-plain :
    (xs ys : Bytes) → All IsPlain xs → find_bytes crlf (xs ++ (crlf ++ ys)) ≡ some (length xs)
unfolding find_bytes starts_with
find_bytes-plain [] ys h = refl
find_bytes-plain (x ∷ xs) ys h = ground (arith, find_bytes-plain xs ys h.1)

pub find_bytes-IsSizeLine :
    (line rest : Bytes) (n : ℕ)
    → IsSizeLine line n
    → find_bytes crlf (line ++ (crlf ++ rest)) ≡ some (length line)
find_bytes-IsSizeLine line rest n h =
    find_bytes-plain line rest
      (rw h.line_eq (All-append IsPlain h.digits h.extension (IsNumeral-IsPlain h.numeral) h.plain))

abbrev blank : Bytes
blank = 13 ∷ 10 ∷ 13 ∷ 10 ∷ []

-- An empty line that is there is found.
find_bytes-blank : (xs : Bytes) → (i : ℕ) × (find_bytes blank (xs ++ blank) ≡ some i)
unfolding find_bytes starts_with
find_bytes-blank [] = (0, refl)
find_bytes-blank (x ∷ xs) = elim (Bool-cases (starts_with blank (x ∷ (xs ++ blank)))) [
  | inl k ↦ (0, ground arith)
  | inr k ↦ let (i, e) = find_bytes-blank xs in (suc i, ground arith)
]

section-blank : (l : Bytes) (ls : List Bytes) → (xs : Bytes) × (section_of (l ∷ ls) ≡ xs ++ blank)
unfolding section_of
section-blank l [] = (l, refl)
section-blank l (m ∷ ls) =
    let (xs, e) = section-blank m ls in
    (l ++ (crlf ++ xs), ap (λ t. l ++ (crlf ++ t)) e ∙ sym (append_assoc l (crlf ++ xs) blank))

-- A trailer section that the decoder takes: it ends at once, or an empty line is found.
pub section-found :
    (ls : List Bytes)
    → (starts_with crlf (section_of ls) ≡ true)
      ⊎ ((end : ℕ) × (find_bytes blank (section_of ls) ≡ some end)
          × (end + 4 ≤ length (section_of ls)))
unfolding section_of starts_with
section-found [] = inl refl
section-found (l ∷ ls) =
    let (xs, e) = section-blank l ls in
    let (i, k) = find_bytes-blank xs in
    let at : find_bytes blank (section_of (l ∷ ls)) ≡ some i = ap (find_bytes blank) e ∙ k in
    inr (i, at, find_bytes-length blank (section_of (l ∷ ls)) i at)
