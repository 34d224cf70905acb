-- ===== src/Tests/AccessLog.antt =====
-- Lines of access logs.
use rload.Prelude.{ℕ, ◌≡◌, refl, ◌≢◌, false, none, some, List, [], ◌∷◌, codes, bytes_eq, All}
use rload.Prelude.Int.{pos, negsuc, ◌+ℤ◌, ◌-ℤ◌, ◌*ℤ◌}
use rload.Error.{ErrorKind, Result, ok}
use rload.Config.{get}
use rload.Request.{new_request}
use rload.Text.Split.{split_once, rsplit_once, split, split_whitespace, trim, starts_with, contains}
use rload.Text.Number.{parse_unsigned}
use rload.AccessLog.{
  AccessLogReplay, is_origin_form, is_version, finish_fields, line_fields, parse_line,
  line_timestamp, enclosed, add_line, read_lines, check_replay, read, parse_timestamp, local_time,
  date_fields, time_fields, find_month, is_off, parse_seconds, seconds_and_fraction, all_digits,
  parse_fraction, parse_offset, sign_of, offset_fields, offset_seconds, split_at, utf8_width,
  byte_length, parse_i64, negated, wrap_i64, div_euclid, days_from_civil, count_method,
}
use rload.AccessLog.Safe.{IsBare, read-IsBare}

epoch : days_from_civil (pos 1970) 1 (pos 1) ≡ pos 0
unfolding days_from_civil wrap_i64 div_euclid ◌+ℤ◌ ◌-ℤ◌ ◌*ℤ◌
epoch = refl

leap_day : days_from_civil (pos 2000) 2 (pos 29) ≡ pos 11016
unfolding days_from_civil wrap_i64 div_euclid ◌+ℤ◌ ◌-ℤ◌ ◌*ℤ◌
leap_day = refl

nginx_time :
    parse_timestamp (codes "10/Oct/2000:13:55:36.250 -0700") ≡ some (some (pos 971_211_336_250_000))
unfolding parse_timestamp rsplit_once local_time split_once date_fields time_fields find_month
    bytes_eq is_off parse_seconds seconds_and_fraction all_digits parse_fraction parse_offset
    sign_of offset_fields offset_seconds split_at utf8_width byte_length parse_i64 negated
    parse_unsigned split days_from_civil wrap_i64 div_euclid ◌+ℤ◌ ◌-ℤ◌ ◌*ℤ◌
nginx_time = refl

-- An offset of five bytes whose third byte begins a character of two: the slice panics.
cut_character : parse_offset (43 ∷ 49 ∷ 233 ∷ 50 ∷ []) ≡ none
unfolding parse_offset sign_of offset_fields split_at utf8_width byte_length
cut_character = refl

abbrev two_lines : Result ErrorKind (List (Result ErrorKind (List ℕ)))
two_lines = ok (
    ok (codes "  ")
    ∷ ok (codes "- - \"GET /a HTTP/1.1\" 200")
    ∷ ok (codes "- \"POST /b HTTP/1.1\"")
    ∷ [])

abbrev one_request : AccessLogReplay
one_request = record {
  requests = new_request get (codes "/a") [] [] false none ∷ [];
  skipped_methods = (codes "POST", 1) ∷ [];
}

two_lines-read : read two_lines ≡ some (ok one_request)
unfolding read read_lines trim parse_line enclosed split_once line_timestamp split_whitespace
    line_fields finish_fields is_origin_form starts_with contains is_version bytes_eq add_line
    count_method check_replay new_request
two_lines-read = refl

read-IsBare_example :
    All IsBare (new_request get (codes "/a") [] [] false none ∷ []) × (one_request.requests ≢ [])
read-IsBare_example = read-IsBare two_lines one_request two_lines-read

-- Negative days, hours and minutes pass.
negative_time :
    parse_timestamp (codes "-1/Jan/1970:-1:-1:00 +0000") ≡ some (some (negsuc 176_459_999_999))
unfolding parse_timestamp rsplit_once local_time split_once date_fields time_fields find_month
    bytes_eq is_off parse_seconds seconds_and_fraction all_digits parse_fraction parse_offset
    sign_of offset_fields offset_seconds split_at utf8_width byte_length parse_i64 negated
    parse_unsigned split days_from_civil wrap_i64 div_euclid ◌+ℤ◌ ◌-ℤ◌ ◌*ℤ◌
negative_time = refl
