-- ===== src/Tests/Target.antt =====
-- A URL and a replayed request.
use rload.Prelude.{
  ℕ, suc, ◌+◌, ◌≡◌, refl, inl, inr, true, false, none, some, [], ◌∷◌, arith, ltb, ◌==◌,
  if◌then◌else◌, Bool-cases, Bytes, codes, length, All,
}
use rload.Error.{ok}
use rload.Config.{post}
use rload.Request.{ReplayRequest, headers, body}
use rload.Text.Split.{starts_with, split_once, rsplit_once, contains}
use rload.Target.{
  Target, parse, parse_remainder, split_scheme, strip_prefix, split_authority, is_boundary,
  authority_host, plain_host, tls_name, socket_authority, has_explicit_port, request_path, before,
  with_slash, replay_request,
}
use rload.Target.Parsed.{IsTarget, parse-IsTarget}
use rload.Target.Lines.{read_head, request_lines, replay_request-read_head, IsPlain}

-- A TLS name is the host itself.
abbrev here : Target Bytes
here = record {
  authority = codes "a.b:80";
  host_header = codes "a.b";
  path = codes "/?q";
  tls_server_name = none;
}

here-parsed : parse (λ host. some host) (codes "http://a.b?q#top") ≡ ok here
unfolding parse parse_remainder split_scheme strip_prefix starts_with split_authority is_boundary
    authority_host contains plain_host rsplit_once tls_name socket_authority has_explicit_port
    request_path before split_once with_slash
here-parsed = refl

parse-IsTarget_example : IsTarget (codes "http://a.b?q#top") here
parse-IsTarget_example =
    parse-IsTarget (λ host. some host) (codes "http://a.b?q#top") here here-parsed

abbrev posted : ReplayRequest
posted = record {
  method = post;
  path = codes "/x";
  payload = some (record {
    headers = (codes "Accept", codes "*/*") ∷ [];
    body = 13 ∷ 10 ∷ [];
    body_present = true;
  });
  timestamp_micros = none;
}

-- Numbers below ten are printed as they should be.
abbrev digit : ℕ → Bytes
digit n = if ltb n 10 then (48 + n) ∷ [] else codes "?"

digit-IsLine : (n : ℕ) → All (λ c. (c == 13) ≡ false) (digit n)
digit-IsLine n = elim (Bool-cases (ltb n 10)) [
  | inl k ↦ rw k (ground arith, tt)
  | inr k ↦ rw k (refl, tt)
]

posted-IsPlain : IsPlain digit here posted
unfolding headers
posted-IsPlain = record {
  path = ground arith;
  host = ground arith;
  headers = ((ground arith, ground arith), tt);
  printed = digit-IsLine;
}

replay_request-read_head_example :
    read_head (suc (length (request_lines digit here posted))) (replay_request digit here posted)
    ≡ some (request_lines digit here posted, body posted)
replay_request-read_head_example = replay_request-read_head digit here posted posted-IsPlain
