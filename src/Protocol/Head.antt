-- ===== src/Protocol/Head.antt =====
-- `parse_response_head` of src/protocol/response.rs and its helpers.
use rload.Prelude.{
  ℕ, Bool, false, not, ◌&&◌, ◌||◌, Option, none, some, List, [], ◌∷◌, if◌then◌else◌, Bytes, codes,
  get_elem?,
}
use rload.Error.{RunError, text, invalid_response, Result, ok, err, ◌>>=◌, ok_or}
use rload.Text.Utf8.{from_utf8}
use rload.Text.Split.{
  split_once, split, split_crlf, split_whitespace, trim, eq_ignore_ascii_case, starts_with,
}
use rload.Text.Number.{parse_u16, parse_usize}

pub data BodyFraming : Type 0 where
  by_length : ℕ → BodyFraming
  by_chunks : BodyFraming
  by_close : BodyFraming

pub record ResponseHead : Type 0 where
  pub status : ℕ
  pub connection_close : Bool
  pub framing : BodyFraming

-- The trimmed value of the first line with that name.
unfoldable pub header_value : List Bytes → Bytes → Option Bytes
header_value [] name = none
header_value (line ∷ lines) name = elim (split_once b':' line) [
  | none ↦ header_value lines name
  | some (n, value) ↦
      if eq_ignore_ascii_case n name then some (trim value) else header_value lines name
]

-- `value.split(',').map(str::trim).any(|token| token.eq_ignore_ascii_case(expected))`
unfoldable pub any_token : List Bytes → Bytes → Bool
any_token [] expected = false
any_token (token ∷ tokens) expected =
    eq_ignore_ascii_case (trim token) expected || any_token tokens expected

unfoldable pub headers_have_token : List Bytes → Bytes → Bytes → Bool
headers_have_token [] name expected = false
headers_have_token (line ∷ lines) name expected =
    (elim (split_once b':' line) [
      | none ↦ false
      | some (n, value) ↦ eq_ignore_ascii_case n name && any_token (split b',' value) expected
    ])
    || headers_have_token lines name expected

abbrev pub status_line_invalid : RunError
status_line_invalid = invalid_response (text "status line is invalid")

-- `split_whitespace().nth(1).and_then(parse)`
unfoldable pub status_of : Bytes → Option ℕ
status_of line = elim (get_elem? (split_whitespace line) 1) [ none ↦ none | some s ↦ parse_u16 s ]

unfoldable pub framing_of : List Bytes → BodyFraming
framing_of lines =
    if headers_have_token lines (codes "transfer-encoding") (codes "chunked")
    then by_chunks
    else elim (header_value lines (codes "content-length")) [
      | none ↦ by_close
      | some value ↦ elim (parse_usize value) [ none ↦ by_close | some n ↦ by_length n ]
    ]

unfoldable pub closes : Bytes → List Bytes → Bool
closes status_line lines =
    headers_have_token lines (codes "connection") (codes "close")
    || (starts_with (codes "HTTP/1.0") status_line
        && not (headers_have_token lines (codes "connection") (codes "keep-alive")))

unfoldable pub head_of_lines : List Bytes → Result RunError ResponseHead
head_of_lines [] = err status_line_invalid
head_of_lines (status_line ∷ lines) = do
  status ← ok_or (status_of status_line) status_line_invalid
  ok (record {
    status = status;
    connection_close = closes status_line lines;
    framing = framing_of lines;
  })

unfoldable pub parse_response_head : Bytes → Result RunError ResponseHead
parse_response_head header = do
  chars ← ok_or (from_utf8 header) (invalid_response (text "headers are not valid ASCII"))
  head_of_lines (split_crlf chars)
