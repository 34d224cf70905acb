-- ===== src/Target.antt =====
-- src/target.rs: the URL of a run, and the bytes of its requests. A host name for TLS and the addresses
-- of a host are what the libraries make of them: parameters.
pub mod Parsed
pub mod Lines
use rload.Prelude.{
  ℕ, zero, suc, ◌+◌, ◌-◌, ◌*◌, ◌/◌, ◌%◌, ◌^◌, ◌≤◌, ◌<◌, min, max, String, ◌≡◌, refl, sym, ap, ◌∙◌,
  subst, ◌≢◌, ◌↔◌, ◌⊎◌, inl, inr, Bool, true, false, not, ◌&&◌, ◌||◌, Option, none, some, List, [],
  ◌∷◌, ◌++◌, map, append-nil, append_assoc, arith, ltb, leb, ◌==◌, if◌then◌else◌, ltb→lt, lt→ltb,
  leb→le, le→leb, ltb_false→le, leb_false→lt, ==_iff, tests, Bool-cases, Option-cases, &&_true,
  or_sound, or_complete, Bytes, codes, length, get_elem?, set, take, drop, replicate, is_empty,
  length-append, length-take, length-drop, length-set, drop-get_some, drop-get_none, get_some-lt,
  get_none-le, lt-get_some, bytes_eq, bytes_eq_sound, bytes_eq_refl, All, All-get, Any, All-append,
  All-append_left, All-append_right, All-take, All-imp, All-both, Any-All, take-append, drop-append,
  drop-append_past, drop_all, u64_mod, u64_max, add64, add64_exact,
}
use rload.Error.{
  Message, text, RunError, invalid_url, io, not_found, ErrorKind, Result, ok, err, ◌>>=◌, ok_or,
  refuse_if,
}
use rload.Config.{Method, as_str, get, head}
use rload.Text.Split.{starts_with, split_once, rsplit_once, contains}
use rload.Text.Find.{find_bytes}
use rload.Text.Number.{parse_u16}
use rload.Request.{ReplayRequest, headers, body}

-- `rustls::pki_types::ServerName` is `Name`.
pub record Target (Name : Type 0) : Type 0 where
  pub authority : Bytes
  pub host_header : Bytes
  pub path : Bytes
  pub tls_server_name : Option Name

-- `text.strip_prefix(prefix)`
unfoldable pub strip_prefix : Bytes → Bytes → Option Bytes
strip_prefix prefix s = if starts_with prefix s then some (drop (length prefix) s) else none

-- `option.is_some()`
abbrev pub is_some : {A : Type 0} → Option A → Bool
is_some none = false
is_some (some a) = true

abbrev pub is_port : Bytes → Bool
is_port port = is_some (parse_u16 port)

-- The remainder of a URL, its default port, and whether it is TLS.
unfoldable pub split_scheme : Bytes → Result RunError (Bytes × Bytes × Bool)
split_scheme url = elim (strip_prefix (codes "http://") url) [
  | some remainder ↦ ok (remainder, codes "80", false)
  | none ↦ elim (strip_prefix (codes "https://") url) [
    | some remainder ↦ ok (remainder, codes "443", true)
    | none ↦ err (invalid_url (text "only http:// and https:// are supported"))
  ]
]

unfoldable pub is_boundary : ℕ → Bool
is_boundary c = (c == b'/' || c == b'?') || c == b'#'

-- The authority and the suffix, at the first boundary.
unfoldable pub split_authority : Bytes → Bytes × Bytes
split_authority [] = ([], [])
split_authority (c ∷ cs) =
    let rest = split_authority cs in if is_boundary c then ([], c ∷ cs) else (c ∷ rest.0, rest.1)

-- `text.split_once(sep).map_or(text, |(before, _)| before)`
unfoldable pub before : ℕ → Bytes → Bytes
before sep s = elim (split_once sep s) [ none ↦ s | some (l, r) ↦ l ]

unfoldable pub with_slash : Bytes → Bytes
with_slash [] = codes "/"
with_slash (c ∷ cs) = if c == b'/' then c ∷ cs else if c == b'?' then b'/' ∷ c ∷ cs else codes "/"

unfoldable pub request_path : (suffix : Bytes) → Bytes
request_path suffix = with_slash (before b'#' suffix)

-- What may follow a host in brackets.
unfoldable pub is_bracket_suffix : Bytes → Bool
is_bracket_suffix [] = true
is_bracket_suffix (c ∷ cs) = elim (strip_prefix (codes ":") (c ∷ cs)) [
  | none ↦ false
  | some port ↦ is_port port
]

unfoldable pub bracketed_host : Bytes → Result RunError Bytes
bracketed_host bracketed = elim (split_once b']' bracketed) [
  | none ↦ err (invalid_url (text "invalid IPv6 host"))
  | some (host, suffix) ↦
      if is_empty host
      then err (invalid_url (text "invalid IPv6 host"))
      else if not (is_bracket_suffix suffix)
      then err (invalid_url (text "invalid IPv6 authority"))
      else ok host
]

unfoldable pub plain_host : Bytes → Result RunError Bytes
plain_host authority = elim (rsplit_once b':' authority) [
  | none ↦ ok authority
  | some (host, port) ↦
      if is_empty host || not (is_port port)
      then err (invalid_url (text "invalid port"))
      else ok host
]

unfoldable pub authority_host : Bytes → Result RunError Bytes
authority_host authority =
    if contains b'@' authority
    then err (invalid_url (text "userinfo is not supported"))
    else elim (strip_prefix (codes "[") authority) [
      | some bracketed ↦ bracketed_host bracketed
      | none ↦ plain_host authority
    ]

unfoldable pub has_explicit_port : Bytes → Bool
has_explicit_port authority =
    if starts_with (codes "[") authority
    then is_some (find_bytes (codes "]:") authority)
    else elim (rsplit_once b':' authority) [ none ↦ false | some (host, port) ↦ is_port port ]

unfoldable pub socket_authority : (authority default_port : Bytes) → Bytes
socket_authority authority default_port =
    if has_explicit_port authority then authority else authority ++ (codes ":" ++ default_port)

unfoldable pub header_lines : List (Bytes × Bytes) → Bytes
header_lines [] = []
header_lines ((name, value) ∷ rest) =
    name ++ (codes ": " ++ (value ++ (13 ∷ 10 ∷ [] ++ header_lines rest)))

-- `!matches!(method, Method::Get | Method::Head)`
unfoldable pub has_content_length : Method → Bool
has_content_length get = false
has_content_length head = false
has_content_length _ = true

module _ {Name : Type 0} where
  unfoldable pub tls_name :
      (server_name : Bytes → Option Name) (tls : Bool) → Bytes → Result RunError (Option Name)
  tls_name server_name false host = ok none
  tls_name server_name true host = elim (server_name host) [
    | none ↦ err (invalid_url (text "invalid TLS server name"))
    | some name ↦ ok (some name)
  ]

  -- `Target::parse` after the scheme.
  unfoldable pub parse_remainder :
      (server_name : Bytes → Option Name) → Bytes × Bytes × Bool → Result RunError (Target Name)
  parse_remainder server_name (remainder, default_port, tls) =
      let (authority, suffix) = split_authority remainder in
      do
        u ← refuse_if (is_empty authority) (invalid_url (text "host is missing"))
        host ← authority_host authority
        name ← tls_name server_name tls host
        ok (record {
          authority = socket_authority authority default_port;
          host_header = authority;
          path = request_path suffix;
          tls_server_name = name;
        })

  -- `Target::parse`
  unfoldable pub parse : (server_name : Bytes → Option Name) → Bytes → Result RunError (Target Name)
  parse server_name url = split_scheme url >>= parse_remainder server_name

  -- `Target::resolve`
  unfoldable pub resolve :
      {Address : Type 0} (to_socket_addrs : Bytes → Result ErrorKind (List Address))
      → Target Name
      → Result RunError (List Address)
  resolve to_socket_addrs t = elim (to_socket_addrs t.authority) [
    | err e ↦ err (io e)
    | ok addresses ↦ if is_empty addresses then err (io not_found) else ok addresses
  ]

  -- The request line and the host.
  unfoldable pub request_head : Target Name → Method → (path : Bytes) → Bytes
  request_head t method path =
      as_str method
      ++ (codes " "
          ++ (path
              ++ (codes " HTTP/1.1"
                  ++ (13 ∷ 10 ∷ [] ++ (codes "Host: " ++ (t.host_header ++ 13 ∷ 10 ∷ []))))))

  -- `Target::request_for`
  unfoldable pub request_for : Target Name → Method → (path : Bytes) → Bytes
  request_for t method path =
      request_head t method path ++ (codes "Connection: keep-alive" ++ 13 ∷ 10 ∷ 13 ∷ 10 ∷ [])

  -- `Target::request`
  unfoldable pub request : Target Name → Method → Bytes
  request t method = request_for t method t.path

  -- `Target::replay_request`; `decimal` prints a length.
  unfoldable pub replay_request : (decimal : ℕ → Bytes) → Target Name → ReplayRequest → Bytes
  replay_request decimal t r =
      request_head t r.method r.path
      ++ (header_lines (headers r)
          ++ ((if has_content_length r.method
                then codes "Content-Length: " ++ (decimal (length (body r)) ++ 13 ∷ 10 ∷ [])
                else [])
              ++ (codes "Connection: keep-alive" ++ (13 ∷ 10 ∷ 13 ∷ 10 ∷ body r))))
