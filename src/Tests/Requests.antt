-- ===== src/Tests/Requests.antt =====
-- A request that passes the checks.
use rload.Prelude.{◌≡◌, refl, true, none, some, [], ◌∷◌, codes}
use rload.Error.{ok}
use rload.Config.{post}
use rload.Request
use rload.Request.{ReplayRequest}
use rload.RequestFile
use rload.RequestFile.{validate_request}
use rload.RequestFile.Safety.{IsSafe, validate_request-IsSafe}

abbrev greeting : ReplayRequest
greeting = record {
  method = post;
  path = codes "/a%20b?c=d";
  payload = some (record {
    headers = (codes "Accept", codes "text/html, */*") ∷ [];
    body = codes "hi";
    body_present = true;
  });
  timestamp_micros = none;
}

greeting_passes : validate_request greeting ≡ ok tt
unfolding validate_request RequestFile.valid_origin_form rload.Text.Split.contains
    RequestFile.origin_rest RequestFile.is_uri_byte RequestFile.is_alphanumeric
    RequestFile.is_one_of RequestFile.is_hexdigit Request.body RequestFile.has_no_body
    RequestFile.check_headers Request.headers RequestFile.valid_header_name RequestFile.all_bytes
    RequestFile.is_name_byte RequestFile.is_reserved rload.Text.Split.eq_ignore_ascii_case
    RequestFile.is_value_byte Request.body_present
greeting_passes = refl

validate_request-IsSafe_example : IsSafe greeting
validate_request-IsSafe_example = validate_request-IsSafe greeting greeting_passes
