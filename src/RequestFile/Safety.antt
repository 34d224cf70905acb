-- ===== src/RequestFile/Safety.antt =====
-- A request that passes cannot break out of its request line or of a header.
use rload.Prelude.{
  ℕ, ◌+◌, ◌*◌, ◌≤◌, ◌<◌, ◌≡◌, refl, sym, subst, ◌≢◌, ◌⊎◌, inl, inr, Bool, true, false, not, ◌&&◌,
  List, [], ◌∷◌, arith, ◌==◌, ==_iff, Bool-cases, &&_true, Bytes, codes, length, is_empty, All,
}
use rload.Error.{Message, Result, ok, err}
use rload.Config.{get, head}
use rload.Request
use rload.Request.{ReplayRequest}
use rload.RequestFile.{
  is_alphanumeric, is_hexdigit, is_one_of, is_uri_byte, origin_rest, valid_origin_form,
  is_name_byte, all_bytes, valid_header_name, is_value_byte, reserved_names, is_reserved,
  check_headers, has_no_body, validate_request,
}

-- A visible ASCII byte.
abbrev pub IsVisible : ℕ → Type 0
IsVisible b = (b' ' < b) × (b < 127)

-- No control byte but the tab.
abbrev pub IsText : ℕ → Type 0
IsText b = (b ≡ 9) ⊎ ((b' ' ≤ b) × (b < 127))

one_of-All : (P : ℕ → Type 0) (xs : Bytes) (b : ℕ) → All P xs → is_one_of xs b ≡ true → P b
unfolding is_one_of
one_of-All P [] b a h = cc
one_of-All P (x ∷ xs) b a h = elim (Bool-cases (b == x)) [
  | inl k ↦ subst P (sym ((==_iff b x).0 k)) a.0
  | inr k ↦ one_of-All P xs b a.1 (rw k at h)
]

alphanumeric-IsVisible : (b : ℕ) → is_alphanumeric b ≡ true → IsVisible b × (b ≢ b':')
unfolding is_alphanumeric
alphanumeric-IsVisible b h = ground arith

uri_byte-IsVisible : (b : ℕ) → is_uri_byte b ≡ true → IsVisible b
unfolding is_uri_byte
uri_byte-IsVisible b h = elim (Bool-cases (is_alphanumeric b)) [
  | inl k ↦ (alphanumeric-IsVisible b k).0
  | inr k ↦ one_of-All IsVisible (codes "/?-._~!$&'()*+,;=:@") b (ground arith) (rw k at h)
]

name_byte-IsVisible : (b : ℕ) → is_name_byte b ≡ true → IsVisible b × (b ≢ b':')
unfolding is_name_byte
name_byte-IsVisible b h = elim (Bool-cases (is_alphanumeric b)) [
  | inl k ↦ alphanumeric-IsVisible b k
  | inr k ↦
      one_of-All (λ x. IsVisible x × (x ≢ b':')) (codes "!#$%&'*+-.^_`|~") b (ground arith)
        (rw k at h)
]

hexdigit-IsVisible : (b : ℕ) → is_hexdigit b ≡ true → IsVisible b
unfolding is_hexdigit
hexdigit-IsVisible b h = ground arith

value_byte-IsText : (b : ℕ) → is_value_byte b ≡ true → IsText b
unfolding is_value_byte
value_byte-IsText b h = ground arith

origin-IsVisible : (bytes : Bytes) → origin_rest bytes ≡ true → All IsVisible bytes
unfolding origin_rest
origin-IsVisible [] h = tt
origin-IsVisible (b ∷ []) h = (ground (arith, uri_byte-IsVisible b), tt)
origin-IsVisible (b ∷ c ∷ []) h = elim (Bool-cases (b == b'%')) [
  | inl k ↦ cc (rw k at h)
  | inr k ↦
      let (hb, rest) = &&_true _ _ (rw k at h) in
      (uri_byte-IsVisible b hb, origin-IsVisible (c ∷ []) rest)
]
origin-IsVisible (b ∷ c ∷ d ∷ bytes) h = elim (Bool-cases (b == b'%')) [
  | inl k ↦
      let e : ((is_hexdigit c && is_hexdigit d) && origin_rest bytes) ≡ true = rw k at h in
      let (digits, rest) = &&_true (is_hexdigit c && is_hexdigit d) (origin_rest bytes) e in
      let (hc, hd) = &&_true (is_hexdigit c) (is_hexdigit d) digits in
      (
        ground arith,
        (hexdigit-IsVisible c hc, (hexdigit-IsVisible d hd, origin-IsVisible bytes rest)),
      )
  | inr k ↦
      let (hb, rest) = &&_true _ _ (rw k at h) in
      (uri_byte-IsVisible b hb, origin-IsVisible (c ∷ d ∷ bytes) rest)
]

all_bytes-All :
    (P : ℕ → Type 0) (test : ℕ → Bool)
    → ((b : ℕ) → test b ≡ true → P b)
    → (bytes : Bytes) → all_bytes test bytes ≡ true
    → All P bytes
unfolding all_bytes
all_bytes-All P test sound [] h = tt
all_bytes-All P test sound (b ∷ bytes) h =
    let (hb, rest) = &&_true _ _ h in (sound b hb, all_bytes-All P test sound bytes rest)

-- A header that ends where its writer means it to end, under a name that the program does not manage.
pub record IsHeader (h : Bytes × Bytes) : Type 0 where
  pub name_filled : h.0 ≢ []
  pub name_visible : All (λ b. IsVisible b × (b ≢ b':')) h.0
  pub value_text : All IsText h.1
  pub unmanaged : is_reserved reserved_names h.0 ≡ false

abbrev header_bytes_of : List (Bytes × Bytes) → ℕ
header_bytes_of [] = 0
header_bytes_of ((name, value) ∷ headers) = length name + length value + 4 + header_bytes_of headers

IsHeader-checked :
    (name value : Bytes)
    → valid_header_name name ≡ true
    → is_reserved reserved_names name ≡ false
    → all_bytes is_value_byte value ≡ true
    → IsHeader (name, value)
unfolding valid_header_name
IsHeader-checked name value hn hr hv = record {
  name_filled = filled name (&&_true _ _ hn).0;
  name_visible =
      all_bytes-All (λ b. IsVisible b × (b ≢ b':')) is_name_byte name_byte-IsVisible name
        (&&_true _ _ hn).1;
  value_text = all_bytes-All IsText is_value_byte value_byte-IsText value hv;
  unmanaged = hr;
}
  where
    filled : (bytes : Bytes) → not (is_empty bytes) ≡ true → bytes ≢ []
    filled [] k e = cc
    filled (b ∷ bytes) k e = cc

checked_headers :
    (total result : ℕ) (headers : List (Bytes × Bytes))
    → check_headers total headers ≡ ok result
    → All IsHeader headers × (result ≡ total + header_bytes_of headers)
unfolding check_headers
checked_headers total result [] h = (tt, ground arith)
checked_headers total result ((name, value) ∷ headers) h =
    elim (Bool-cases (valid_header_name name)) [
      | inr k ↦ cc (rw k at h)
      | inl k ↦ elim (Bool-cases (is_reserved reserved_names name)) [
        | inl m ↦ cc (rw (k, m) at h)
        | inr m ↦ elim (Bool-cases (all_bytes is_value_byte value)) [
          | inr v ↦ cc (rw (k, m, v) at h)
          | inl v ↦
              let (rest, sum) =
                checked_headers (total + (length name + length value + 4)) result headers
                  (rw (k, m, v) at h) in
              ((IsHeader-checked name value k m v, rest), omega (arith, sum))
        ]
      ]
    ]

-- What a request is like that can be written as one request line and its headers.
pub record IsSafe (r : ReplayRequest) : Type 0 where
  pub path_slash : (rest : Bytes) × (r.path ≡ b'/' ∷ rest)
  pub path_visible : All IsVisible r.path
  pub path_short : length r.path ≤ 8 * 1024
  pub body_short : length (Request.body r) ≤ 512 * 1024
  pub headers_safe : All IsHeader (Request.headers r)
  pub headers_short : header_bytes_of (Request.headers r) ≤ 64 * 1024
  pub no_body : (Request.body_present r ≡ false) ⊎ ((r.method ≢ get) × (r.method ≢ head))

origin_slash : (uri : Bytes) → valid_origin_form uri ≡ true → (rest : Bytes) × (uri ≡ b'/' ∷ rest)
unfolding valid_origin_form
origin_slash [] h = cc
origin_slash (b ∷ rest) h = (rest, ground arith)

origin_whole : (uri : Bytes) → valid_origin_form uri ≡ true → origin_rest uri ≡ true
unfolding valid_origin_form
origin_whole uri h = ground arith

Checked-cases : (c : Result Message ℕ) → ((n : ℕ) × (c ≡ ok n)) ⊎ ((m : Message) × (c ≡ err m))
Checked-cases (ok n) = inl (n, refl)
Checked-cases (err m) = inr (m, refl)

-- A request that passes validation has a path of at most 8 KiB of visible ASCII from a slash on,
-- headers with non-empty names of visible ASCII without a colon, none of them reserved, and values
-- without control bytes but tabs, of 64 KiB in all, a body of at most 512 KiB, and no body marked
-- present under GET or HEAD.
pub validate_request-IsSafe : (r : ReplayRequest) → validate_request r ≡ ok tt → IsSafe r
unfolding validate_request has_no_body
validate_request-IsSafe r h = elim (Checked-cases (check_headers 0 (Request.headers r))) [
  | inr (m, k) ↦ absurd (ground arith)
  | inl (n, k) ↦
      let (safe, sum) = checked_headers 0 n (Request.headers r) k in
      let origin : valid_origin_form r.path ≡ true = ground arith in
      record {
        path_slash = origin_slash r.path origin;
        path_visible = origin-IsVisible r.path (origin_whole r.path origin);
        path_short = ground arith;
        body_short = ground arith;
        headers_safe = safe;
        headers_short = ground (arith, sum);
        no_body = ground arith;
      }
]
