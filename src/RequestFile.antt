-- ===== src/RequestFile.antt =====
-- `validate_request` of src/request_file.rs, `valid_origin_form` and `valid_header_name`: what a
-- request must be like before it is written to a connection.
pub mod Safety
use rload.Prelude.{
  ℕ, zero, suc, ◌+◌, ◌-◌, ◌*◌, ◌/◌, ◌%◌, ◌^◌, ◌≤◌, ◌<◌, min, max, String, ◌≡◌, refl, sym, ap, ◌∙◌,
  subst, ◌≢◌, ◌↔◌, ◌⊎◌, inl, inr, Bool, true, false, not, ◌&&◌, ◌||◌, Option, none, some, List, [],
  ◌∷◌, ◌++◌, map, append-nil, append_assoc, arith, ltb, leb, ◌==◌, if◌then◌else◌, ltb→lt, lt→ltb,
  leb→le, le→leb, ltb_false→le, leb_false→lt, ==_iff, tests, Bool-cases, Option-cases, &&_true,
  or_sound, or_complete, Bytes, codes, length, get_elem?, set, take, drop, replicate, is_empty,
  length-append, length-take, length-drop, length-set, drop-get_some, drop-get_none, get_some-lt,
  get_none-le, lt-get_some, bytes_eq, bytes_eq_sound, bytes_eq_refl, All, All-get, Any, All-append,
  All-append_left, All-append_right, All-take, All-imp, All-both, Any-All, take-append, drop-append,
  drop-append_past, drop_all, u64_mod, u64_max, add64, add64_exact,
}
use rload.Error.{Message, text, text_with, Result, ok, err, ◌>>◌, ◌>>=◌, refuse_if}
use rload.Config.{Method, get, head, post, put, patch, delete, options}
use rload.Text.Split.{eq_ignore_ascii_case, contains}
use rload.Request
use rload.Request.{ReplayRequest}

abbrev pub max_uri_bytes : ℕ
max_uri_bytes = 8 * 1024

abbrev pub max_header_bytes : ℕ
max_header_bytes = 64 * 1024

abbrev pub max_request_body_bytes : ℕ
max_request_body_bytes = 512 * 1024

abbrev pub is_between : ℕ → ℕ → ℕ → Bool
is_between low high b = leb low b && leb b high

-- `is_ascii_alphanumeric`
unfoldable pub is_alphanumeric : ℕ → Bool
is_alphanumeric b = is_between b'0' b'9' b || is_between b'A' b'Z' b || is_between b'a' b'z' b

-- `is_ascii_hexdigit`
unfoldable pub is_hexdigit : ℕ → Bool
is_hexdigit b = is_between b'0' b'9' b || is_between b'A' b'F' b || is_between b'a' b'f' b

-- `matches!(byte, ...)`
unfoldable pub is_one_of : Bytes → ℕ → Bool
is_one_of [] b = false
is_one_of (x ∷ xs) b = b == x || is_one_of xs b

unfoldable pub is_uri_byte : ℕ → Bool
is_uri_byte b = is_alphanumeric b || is_one_of (codes "/?-._~!$&'()*+,;=:@") b

-- The loop, on the bytes from the index on: three bytes at a time after a percent sign.
unfoldable pub origin_rest : Bytes → Bool
origin_rest [] = true
origin_rest (b ∷ []) = if b == b'%' then false else is_uri_byte b
origin_rest (b ∷ c ∷ []) =
    let rest = origin_rest (c ∷ []) in if b == b'%' then false else is_uri_byte b && rest
origin_rest (b ∷ c ∷ d ∷ bytes) =
    let rest = origin_rest (c ∷ d ∷ bytes) in
    let after_escape = origin_rest bytes in
    if b == b'%' then is_hexdigit c && is_hexdigit d && after_escape else is_uri_byte b && rest

-- `bytes.first() == Some(&b'/')`
abbrev pub begins_with_slash : Bytes → Bool
begins_with_slash [] = false
begins_with_slash (b ∷ bytes) = b == b'/'

unfoldable pub valid_origin_form : Bytes → Bool
valid_origin_form uri =
    if not (begins_with_slash uri) || contains b'#' uri then false else origin_rest uri

unfoldable pub is_name_byte : ℕ → Bool
is_name_byte b = is_alphanumeric b || is_one_of (codes "!#$%&'*+-.^_`|~") b

-- `bytes().all(test)`
unfoldable pub all_bytes : (ℕ → Bool) → Bytes → Bool
all_bytes test [] = true
all_bytes test (b ∷ bytes) = test b && all_bytes test bytes

unfoldable pub valid_header_name : Bytes → Bool
valid_header_name name = not (is_empty name) && all_bytes is_name_byte name

unfoldable pub is_value_byte : ℕ → Bool
is_value_byte b = b == 9 || is_between b' ' b'~' b

abbrev pub reserved_names : List Bytes
reserved_names =
    codes "host"
    ∷ codes "connection"
    ∷ codes "content-length"
    ∷ codes "transfer-encoding"
    ∷ codes "trailer"
    ∷ codes "expect"
    ∷ []

-- `iter().any(|reserved| name.eq_ignore_ascii_case(reserved))`
unfoldable pub is_reserved : List Bytes → Bytes → Bool
is_reserved [] name = false
is_reserved (r ∷ rs) name = eq_ignore_ascii_case name r || is_reserved rs name

-- The loop over the headers; its result is `header_bytes`.
unfoldable pub check_headers : ℕ → List (Bytes × Bytes) → Result Message ℕ
check_headers header_bytes [] = ok header_bytes
check_headers header_bytes ((name, value) ∷ headers) = do
  refuse_if (not (valid_header_name name)) (text_with "invalid header name" name)
  refuse_if (is_reserved reserved_names name) (text_with "header is managed by rload" name)
  refuse_if (not (all_bytes is_value_byte value)) (text_with "invalid value for header" name)
  check_headers (header_bytes + (length name + length value + 4)) headers

-- `matches!(request.method, Method::Get | Method::Head)`
unfoldable pub has_no_body : Method → Bool
has_no_body get = true
has_no_body head = true
has_no_body post = false
has_no_body put = false
has_no_body patch = false
has_no_body delete = false
has_no_body options = false

unfoldable pub validate_request : ReplayRequest → Result Message (Unit {0})
validate_request r = do
  refuse_if (ltb max_uri_bytes (length r.path) || not (valid_origin_form r.path))
      (text "URI must use origin form")
  refuse_if (ltb max_request_body_bytes (length (Request.body r))) (text "body exceeds 512 KiB")
  refuse_if (has_no_body r.method && Request.body_present r)
      (text "GET and HEAD requests must not contain a body")
  header_bytes ← check_headers 0 (Request.headers r)
  refuse_if (ltb max_header_bytes header_bytes) (text "headers exceed 64 KiB")
