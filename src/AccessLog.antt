-- ===== src/AccessLog.antt =====
-- src/access_log.rs: the lines of an access log. A text is its code points. `none` is a panic: the slice
-- of an offset within a character. An i64 wraps modulo 2^64; a map from methods to counts is a list of
-- pairs.
pub mod Safe
use rload.Prelude.{
  ℕ, zero, suc, ◌+◌, ◌-◌, ◌*◌, ◌/◌, ◌%◌, ◌^◌, ◌≤◌, ◌<◌, min, max, String, ◌≡◌, refl, sym, ap, ◌∙◌,
  subst, ◌≢◌, ◌↔◌, ◌⊎◌, inl, inr, Bool, true, false, not, ◌&&◌, ◌||◌, Option, none, some, List, [],
  ◌∷◌, ◌++◌, map, append-nil, append_assoc, arith, ltb, leb, ◌==◌, if◌then◌else◌, ltb→lt, lt→ltb,
  leb→le, le→leb, ltb_false→le, leb_false→lt, ==_iff, tests, Bool-cases, Option-cases, &&_true,
  or_sound, or_complete, Bytes, codes, length, get_elem?, set, take, drop, replicate, is_empty,
  length-append, length-take, length-drop, length-set, drop-get_some, drop-get_none, get_some-lt,
  get_none-le, lt-get_some, bytes_eq, bytes_eq_sound, bytes_eq_refl, All, All-get, Any, All-append,
  All-append_left, All-append_right, All-take, All-imp, All-both, Any-All, take-append, drop-append,
  drop-append_past, drop_all, u64_mod, u64_max, add64, add64_exact,
}
use rload.Prelude.Int.{ℤ, pos, negsuc, pos_part, neg_part, ◌+ℤ◌, ◌-ℤ◌, ◌*ℤ◌, ltb_ℤ}
use rload.Error.{
  Message, text, at_line, RunError, invalid_access_log, io, ErrorKind, Result, ok, err,
}
use rload.Config.{Method, get, head}
use rload.Request.{ReplayRequest, new_request}
use rload.Text.Split.{split_once, rsplit_once, split, split_whitespace, trim, starts_with, contains}
use rload.Text.Number.{parse_unsigned}

-- `None?` and the like, with `none` for a panic around it.
abbrev pub Fallible : Type 0 → Type 0
Fallible A = Option (Option A)

-- The number of bytes of a character, and of a text.
unfoldable pub utf8_width : ℕ → ℕ
utf8_width c = if ltb c 0x80 then 1 else if ltb c 0x800 then 2 else if ltb c 0x10000 then 3 else 4

unfoldable pub byte_length : List ℕ → ℕ
byte_length [] = 0
byte_length (c ∷ cs) = utf8_width c + byte_length cs

-- The text before and from a byte; `none` within a character or past the end.
unfoldable pub split_at : ℕ → List ℕ → Option (List ℕ × List ℕ)
split_at n [] = if n == 0 then some ([], []) else none
split_at n (c ∷ cs) =
    let rest = split_at (n - utf8_width c) cs in
    if n == 0
    then some ([], c ∷ cs)
    else if ltb n (utf8_width c)
    then none
    else elim rest [ none ↦ none | some (l, r) ↦ some (c ∷ l, r) ]

-- `value.parse::<i64>().ok()`
unfoldable pub negated : ℕ → ℤ
negated zero = pos 0
negated (suc n) = negsuc n

unfoldable pub parse_i64 : List ℕ → Option ℤ
parse_i64 [] = none
parse_i64 (c ∷ []) = elim (parse_unsigned 10 (2 ^ 63) (c ∷ [])) [
  | none ↦ none
  | some n ↦ some (pos n)
]
parse_i64 (c ∷ d ∷ cs) =
    if c == b'-'
    then (if d == b'+' then none else elim (parse_unsigned 10 (2 ^ 63 + 1) (d ∷ cs)) [
      | none ↦ none
      | some n ↦ some (negated n)
    ])
    else elim (parse_unsigned 10 (2 ^ 63) (c ∷ d ∷ cs)) [ none ↦ none | some n ↦ some (pos n) ]

-- An integer as an i64.
unfoldable pub wrap_i64 : ℤ → ℤ
wrap_i64 i =
    let n = (pos_part i + (u64_mod - neg_part i % u64_mod)) % u64_mod in
    if ltb n (2 ^ 63) then pos n else negated (u64_mod - n)

-- `value.div_euclid(by)` for a positive divisor.
unfoldable pub div_euclid : ℤ → (by : ℕ) → ℤ
div_euclid (pos n) by = pos (n / by)
div_euclid (negsuc n) by = negsuc (n / by)

unfoldable pub days_from_civil : (year : ℤ) (month : ℕ) (day : ℤ) → ℤ
days_from_civil year month day =
    let shifted_year = wrap_i64 (year -ℤ pos (if leb month 2 then 1 else 0)) in
    let era = div_euclid shifted_year 400 in
    let year_of_era = pos_part (shifted_year -ℤ (era *ℤ pos 400)) in
    let shifted_month = if ltb 2 month then month - 3 else month + 9 in
    let day_of_year = pos ((153 * shifted_month + 2) / 5) +ℤ day -ℤ pos 1 in
    let day_of_era =
      pos (year_of_era * 365 + year_of_era / 4) -ℤ pos (year_of_era / 100) +ℤ day_of_year in
    wrap_i64 (era *ℤ pos 146_097 +ℤ day_of_era -ℤ pos 719_468)

abbrev pub month_names : List (List ℕ × ℕ)
month_names =
    (codes "Jan", 1)
    ∷ (codes "Feb", 2)
    ∷ (codes "Mar", 3)
    ∷ (codes "Apr", 4)
    ∷ (codes "May", 5)
    ∷ (codes "Jun", 6)
    ∷ (codes "Jul", 7)
    ∷ (codes "Aug", 8)
    ∷ (codes "Sep", 9)
    ∷ (codes "Oct", 10)
    ∷ (codes "Nov", 11)
    ∷ (codes "Dec", 12)
    ∷ []

unfoldable pub find_month : List ℕ → List (List ℕ × ℕ) → Option ℕ
find_month name [] = none
find_month name ((known, month) ∷ rest) =
    let later = find_month name rest in if bytes_eq name known then some month else later

-- `Option::bind`, for `?` on an option.
infixl 5 ◌>>=◌
abbrev ◌>>=◌ : {A B : Type 0} → Option A → (A → Option B) → Option B
none >>= f = none
some a >>= f = f a

-- A test that makes the function return `None`.
abbrev require : Bool → Option (Unit {0})
require true = some tt
require false = none

-- Day, month and year of `02/Jan/2024`, split at the slashes.
unfoldable pub date_fields : List (List ℕ) → Option (ℤ × ℕ × ℤ)
date_fields (d ∷ m ∷ y ∷ []) = do
  day ← parse_i64 d
  month ← find_month m month_names
  year ← parse_i64 y
  some (day, month, year)
date_fields _ = none

-- Hour, minute and the text of the seconds, split at the colons.
unfoldable pub time_fields : List (List ℕ) → Option (ℤ × ℤ × List ℕ)
time_fields (h ∷ m ∷ s ∷ []) = do hour ← parse_i64 h; minute ← parse_i64 m; some (hour, minute, s)
time_fields _ = none

-- `day == 0 || day > 31 || hour > 23 || minute > 59`
unfoldable pub is_off : (day hour minute : ℤ) → Bool
is_off day hour minute =
    (((pos_part day == 0 && neg_part day == 0) || ltb 31 (pos_part day)) || ltb 23 (pos_part hour))
    || ltb 59 (pos_part minute)

unfoldable pub all_digits : List ℕ → Bool
all_digits [] = true
all_digits (c ∷ cs) = (leb b'0' c && leb c b'9') && all_digits cs

-- `seconds.split_once('.').map_or((seconds, ""), ..)`
unfoldable pub seconds_and_fraction : List ℕ → List ℕ × List ℕ
seconds_and_fraction seconds = elim (split_once b'.' seconds) [
  | none ↦ (seconds, [])
  | some (s, f) ↦ (s, f)
]

-- The fraction in microseconds.
unfoldable pub parse_fraction : List ℕ → Option ℤ
parse_fraction [] = some (pos 0)
parse_fraction (c ∷ cs) = do
  n ← parse_i64 (c ∷ cs)
  some (n *ℤ pos (10 ^ (6 - byte_length (c ∷ cs))))

unfoldable pub parse_seconds : List ℕ → Option (ℤ × ℤ)
parse_seconds seconds =
    let (whole, fraction) = seconds_and_fraction seconds in
    do
      second ← parse_i64 whole
      u ← require (
          not (
            (ltb 60 (pos_part second) || ltb 6 (byte_length fraction))
            || not (all_digits fraction)))
      micros ← parse_fraction fraction
      some (second, micros)

unfoldable pub sign_of : List ℕ → Option ℤ
sign_of [] = none
sign_of (c ∷ cs) = if c == b'+' then some (pos 1) else if c == b'-' then some (negsuc 0) else none

-- Hours and minutes after the sign; a range of bytes that cuts a character panics.
unfoldable pub offset_fields : List ℕ → Option (List ℕ × List ℕ)
offset_fields [] = none
offset_fields (c ∷ cs) = split_at 2 cs

unfoldable pub offset_seconds : (sign hour minute : ℤ) → Option ℤ
offset_seconds sign hour minute =
    if ltb 23 (pos_part hour) || ltb 59 (pos_part minute)
    then none
    else some (sign *ℤ (hour *ℤ pos 3_600 +ℤ minute *ℤ pos 60))

unfoldable pub parse_offset : List ℕ → Fallible ℤ
parse_offset offset = elim (sign_of offset) [
  | none ↦ some none
  | some sign ↦ if not (byte_length offset == 5) then some none else elim (offset_fields offset) [
    | none ↦ none
    | some (h, m) ↦
        some (do hour ← parse_i64 h; minute ← parse_i64 m; offset_seconds sign hour minute)
  ]
]

-- The date, the time and the seconds of the local time.
unfoldable pub local_time : List ℕ → Option (ℤ × ℤ)
local_time date_time = do
  (date, time) ← split_once b':' date_time
  (day, month, year) ← date_fields (split b'/' date)
  (hour, minute, seconds) ← time_fields (split b':' time)
  u ← require (not (is_off day hour minute))
  (second, micros) ← parse_seconds seconds
  some (
    days_from_civil year month day *ℤ pos 86_400 +ℤ hour *ℤ pos 3_600 +ℤ minute *ℤ pos 60 +ℤ second,
    micros,
  )

unfoldable pub parse_timestamp : List ℕ → Fallible ℤ
parse_timestamp value = elim (rsplit_once b' ' value) [
  | none ↦ some none
  | some (date_time, offset) ↦ elim (local_time date_time) [
    | none ↦ some none
    | some (seconds, micros) ↦ elim (parse_offset offset) [
      | none ↦ none
      | some none ↦ some none
      | some (some shift) ↦ some (some (wrap_i64 ((seconds -ℤ shift) *ℤ pos 1_000_000 +ℤ micros)))
    ]
  ]
]

pub data ParsedLine : Type 0 where
  request : ReplayRequest → ParsedLine
  skipped_method : List ℕ → ParsedLine

-- The text between the first two separators.
unfoldable pub enclosed : (opening closing : ℕ) → List ℕ → Option (List ℕ)
enclosed opening closing line = do
  (before, remainder) ← split_once opening line
  (inside, after) ← split_once closing remainder
  some inside

-- A timestamp that is missing or bad is none.
unfoldable pub line_timestamp : List ℕ → Fallible ℤ
line_timestamp line = elim (enclosed b'[' b']' line) [
  | none ↦ some none
  | some value ↦ parse_timestamp value
]

unfoldable pub is_origin_form : List ℕ → Bool
is_origin_form path = starts_with (codes "/") path && not (contains 13 path || contains 10 path)

unfoldable pub is_version : List ℕ → Bool
is_version version = bytes_eq version (codes "HTTP/1.0") || bytes_eq version (codes "HTTP/1.1")

module _ (line_number : ℕ) where
  invalid : Message → RunError
  invalid message = invalid_access_log (at_line line_number message)

  -- The fields after the method.
  unfoldable pub finish_fields : Method → Option ℤ → List (List ℕ) → Result RunError ParsedLine
  unfolding invalid
  finish_fields method timestamp [] = err (invalid (text "request URI must use origin form"))
  finish_fields method timestamp (path ∷ []) =
      if not (is_origin_form path)
      then err (invalid (text "request URI must use origin form"))
      else err (invalid (text "HTTP version must be HTTP/1.0 or HTTP/1.1"))
  finish_fields method timestamp (path ∷ version ∷ more) =
      if not (is_origin_form path)
      then err (invalid (text "request URI must use origin form"))
      else if not (is_version version)
      then err (invalid (text "HTTP version must be HTTP/1.0 or HTTP/1.1"))
      else if not (is_empty more)
      then err (invalid (text "request field has unexpected fields"))
      else ok (request (new_request method path [] [] false timestamp))

  unfoldable pub line_fields : Option ℤ → List (List ℕ) → Result RunError ParsedLine
  unfolding invalid
  line_fields timestamp [] = err (invalid (text "request field is empty"))
  line_fields timestamp (method ∷ fields) =
      if bytes_eq method (codes "GET")
      then finish_fields get timestamp fields
      else if bytes_eq method (codes "HEAD")
      then finish_fields head timestamp fields
      else ok (skipped_method method)

  unfoldable pub parse_line : List ℕ → Option (Result RunError ParsedLine)
  unfolding invalid
  parse_line line = elim (enclosed b'"' b'"' line) [
    | none ↦ some (err (invalid (text "quoted request field is missing")))
    | some quoted ↦ elim (line_timestamp line) [
      | none ↦ none
      | some timestamp ↦ some (line_fields timestamp (split_whitespace quoted))
    ]
  ]

pub record AccessLogReplay : Type 0 where
  pub requests : List ReplayRequest
  pub skipped_methods : List (List ℕ × ℕ)

-- `*map.entry(method).or_default() += 1`
unfoldable pub count_method : List ℕ → List (List ℕ × ℕ) → List (List ℕ × ℕ)
count_method method [] = (method, 1) ∷ []
count_method method ((known, count) ∷ rest) =
    let later = count_method method rest in
    if bytes_eq method known then (known, add64 count 1) ∷ rest else (known, count) ∷ later

-- One parsed line more, at the end of the requests.
unfoldable pub add_line : ParsedLine → AccessLogReplay → AccessLogReplay
add_line (request r) log = record log { requests = log.requests ++ r ∷ [] }
add_line (skipped_method method) log = record log {
  skipped_methods = count_method method log.skipped_methods;
}

-- The loop of `read`, over the lines as they come out of the file.
unfoldable pub read_lines :
    (line_number : ℕ)
    → List (Result ErrorKind (List ℕ))
    → AccessLogReplay
    → Option (Result RunError AccessLogReplay)
read_lines line_number [] log = some (ok log)
read_lines line_number (err e ∷ lines) log = some (err (io e))
read_lines line_number (ok line ∷ lines) log = elim (is_empty (trim line)) [
  | true ↦ read_lines (line_number + 1) lines log
  | false ↦ elim (parse_line line_number line) [
    | none ↦ none
    | some (err e) ↦ some (err e)
    | some (ok parsed) ↦ read_lines (line_number + 1) lines (add_line parsed log)
  ]
]

unfoldable pub check_replay : AccessLogReplay → Result RunError AccessLogReplay
check_replay log =
    if is_empty log.requests
    then err (invalid_access_log (text "access log contains no replayable requests"))
    else ok log

-- `read`; opening the file gives its lines.
unfoldable pub read :
    Result ErrorKind (List (Result ErrorKind (List ℕ))) → Option (Result RunError AccessLogReplay)
read (err e) = some (err (io e))
read (ok lines) = elim (read_lines 1 lines (record { requests = []; skipped_methods = [] })) [
  | none ↦ none
  | some (err e) ↦ some (err e)
  | some (ok log) ↦ some (check_replay log)
]
