-- ===== src/Command/Arguments.antt =====
-- src/main.rs: the loop of `execute` over the arguments. The speed is a float: its type, its parser and
-- the tests on it are parameters.
pub mod Positive
use rload.Prelude.{
  ℕ, zero, suc, ◌+◌, ◌-◌, ◌*◌, ◌/◌, ◌%◌, ◌^◌, ◌≤◌, ◌<◌, min, max, String, ◌≡◌, refl, sym, ap, ◌∙◌,
  subst, ◌≢◌, ◌↔◌, ◌⊎◌, inl, inr, Bool, true, false, not, ◌&&◌, ◌||◌, Option, none, some, List, [],
  ◌∷◌, ◌++◌, map, append-nil, append_assoc, arith, ltb, leb, ◌==◌, if◌then◌else◌, ltb→lt, lt→ltb,
  leb→le, le→leb, ltb_false→le, leb_false→lt, ==_iff, tests, Bool-cases, Option-cases, &&_true,
  or_sound, or_complete, Bytes, codes, length, get_elem?, set, take, drop, replicate, is_empty,
  length-append, length-take, length-drop, length-set, drop-get_some, drop-get_none, get_some-lt,
  get_none-le, lt-get_some, bytes_eq, bytes_eq_sound, bytes_eq_refl, All, All-get, Any, All-append,
  All-append_left, All-append_right, All-take, All-imp, All-both, Any-All, take-append, drop-append,
  drop-append_past, drop_all, u64_mod, u64_max, add64, add64_exact,
}
use rload.Error.{Message, text, text_with, Result, ok, err, ◌>>=◌, ok_or, refuse_if}
use rload.Config.{Method, get, ReplayOrder, sequential, shuffle, random, ReplayStage}
use rload.Text.Split.{split_once, starts_with}
use rload.Text.Chars.{trim_text}
use rload.Filter.Whitelist.{contains_method}
use rload.Command.Values.{
  parse_u64, parse_duration, parse_method, comma_separated, parse_stages, split_attached,
}

pub data OutputFormat : Type 0 where
  plain_text beauty json : OutputFormat

-- The arms of the match on an argument.
pub data Arm : Type 0 where
  on_profile on_assertion on_script on_requests on_access_log on_request_file on_request_schema
        on_skip_invalid_records on_replay_order on_seed on_replay_rate on_replay_timestamps
        on_replay_speed on_stages on_replay_stages on_replay_rounds on_output_format
        on_output_beauty on_output_html on_request on_header on_body_text on_data_binary
        on_allowed_methods on_allowed_uris on_duration on_timeout on_latency on_connections
        on_threads on_help on_version on_unknown on_url :
      Arm

pub record Settings (Float : Type 0) : Type 0 where
  pub profile_path : Option Bytes
  pub assertions : List (Bytes × Option Bytes)
  pub requests : ℕ
  pub requests_were_set : Bool
  pub duration : Option ℕ
  pub connections : ℕ
  pub connections_were_set : Bool
  pub threads : ℕ
  pub threads_were_set : Bool
  pub timeout : ℕ
  pub timeout_was_set : Bool
  pub url : Option Bytes
  pub access_log : Option Bytes
  pub request_file : Option Bytes
  pub request_schema : Option Bytes
  pub skip_invalid_records : Bool
  pub replay_order : ReplayOrder
  pub replay_order_was_set : Bool
  pub seed : Option ℕ
  pub seed_was_set : Bool
  pub replay_rate : Option ℕ
  pub replay_timestamps : Bool
  pub replay_speed : Float
  pub replay_speed_was_set : Bool
  pub stages : List ReplayStage
  pub stages_were_set : Bool
  pub replay_stages_were_set : Bool
  pub replay_rounds : Option ℕ
  pub output_format : OutputFormat
  pub output_format_was_set : Bool
  pub output_beauty : Bool
  pub output_html : Option Bytes
  pub version : Bool
  pub method : Method
  pub method_was_set : Bool
  pub headers : List (Bytes × Bytes)
  pub body_texts : List Bytes
  pub data_binary : Option Bytes
  pub allowed_methods : List Method
  pub allowed_uris : List Bytes

-- The values before the loop; the default speed is 1.0.
unfoldable pub initial : {Float : Type 0} → (one : Float) → Settings Float
initial one = record {
  profile_path = none;
  assertions = [];
  requests = 1;
  requests_were_set = false;
  duration = none;
  connections = 10;
  connections_were_set = false;
  threads = 2;
  threads_were_set = false;
  timeout = 2_000_000_000;
  timeout_was_set = false;
  url = none;
  access_log = none;
  request_file = none;
  request_schema = none;
  skip_invalid_records = false;
  replay_order = sequential;
  replay_order_was_set = false;
  seed = none;
  seed_was_set = false;
  replay_rate = none;
  replay_timestamps = false;
  replay_speed = one;
  replay_speed_was_set = false;
  stages = [];
  stages_were_set = false;
  replay_stages_were_set = false;
  replay_rounds = none;
  output_format = plain_text;
  output_format_was_set = false;
  output_beauty = false;
  output_html = none;
  version = false;
  method = get;
  method_was_set = false;
  headers = [];
  body_texts = [];
  data_binary = none;
  allowed_methods = [];
  allowed_uris = [];
}

-- The arms that an argument matches by its whole text, in the order of the code.
abbrev pub first_spellings : List (Bytes × Arm)
first_spellings =
    (codes "--profile", on_profile)
    ∷ (codes "--assert", on_assertion)
    ∷ (codes "-s", on_script)
    ∷ (codes "--script", on_script)
    ∷ []

abbrev pub spellings : List (Bytes × Arm)
spellings =
    (codes "-n", on_requests)
    ∷ (codes "--requests", on_requests)
    ∷ (codes "--access-log", on_access_log)
    ∷ (codes "--request-file", on_request_file)
    ∷ (codes "--request-schema", on_request_schema)
    ∷ (codes "--skip-invalid-records", on_skip_invalid_records)
    ∷ (codes "--replay-order", on_replay_order)
    ∷ (codes "--seed", on_seed)
    ∷ (codes "--replay-rate", on_replay_rate)
    ∷ (codes "--replay-timestamps", on_replay_timestamps)
    ∷ (codes "--replay-speed", on_replay_speed)
    ∷ (codes "--stages", on_stages)
    ∷ (codes "--replay-stages", on_replay_stages)
    ∷ (codes "--replay-rounds", on_replay_rounds)
    ∷ (codes "--output-format", on_output_format)
    ∷ (codes "--output-beauty", on_output_beauty)
    ∷ (codes "--output-html", on_output_html)
    ∷ (codes "-X", on_request)
    ∷ (codes "--request", on_request)
    ∷ (codes "-H", on_header)
    ∷ (codes "--header", on_header)
    ∷ (codes "--data", on_body_text)
    ∷ (codes "--data-binary", on_data_binary)
    ∷ (codes "--allowed-methods", on_allowed_methods)
    ∷ (codes "--allowed-uris", on_allowed_uris)
    ∷ (codes "-d", on_duration)
    ∷ (codes "--duration", on_duration)
    ∷ (codes "-T", on_timeout)
    ∷ (codes "--timeout", on_timeout)
    ∷ (codes "--latency", on_latency)
    ∷ (codes "-c", on_connections)
    ∷ (codes "--connections", on_connections)
    ∷ (codes "-t", on_threads)
    ∷ (codes "--threads", on_threads)
    ∷ (codes "-h", on_help)
    ∷ (codes "--help", on_help)
    ∷ (codes "--version", on_version)
    ∷ []

unfoldable pub find_arm : Bytes → List (Bytes × Arm) → Option Arm
find_arm argument [] = none
find_arm argument ((known, arm) ∷ rest) =
    let later = find_arm argument rest in if bytes_eq argument known then some arm else later

-- The arm that an argument matches.
unfoldable pub arm_of : Bytes → Arm
arm_of argument = elim (find_arm argument first_spellings) [
  | some arm ↦ arm
  | none ↦
      if starts_with (codes "--script=") argument || starts_with (codes "-s") argument
      then on_script
      else elim (find_arm argument spellings) [
        | some arm ↦ arm
        | none ↦ if starts_with (codes "-") argument then on_unknown else on_url
      ]
]

-- `attached_value.or_else(|| args.next()).ok_or_else(..)`, with the arguments that are left.
unfoldable pub take_value : Option Bytes → List Bytes → String → Result Message (Bytes × List Bytes)
take_value (some value) rest message = ok (value, rest)
take_value none [] message = err (text message)
take_value none (value ∷ rest) message = ok (value, rest)

-- A number that is not zero.
unfoldable pub positive : (message zero_message : String) → Bytes → Result Message ℕ
positive message zero_message value = do
  n ← ok_or (parse_u64 value) (text_with message value)
  u ← refuse_if (n == 0) (text zero_message)
  ok n

unfoldable pub order_of : Bytes → Result Message ReplayOrder
order_of value =
    if bytes_eq value (codes "sequential")
    then ok sequential
    else if bytes_eq value (codes "shuffle")
    then ok shuffle
    else if bytes_eq value (codes "random")
    then ok random
    else err (text_with "invalid replay order; expected sequential, shuffle, or random: " value)

unfoldable pub format_of : Bytes → Result Message OutputFormat
format_of value =
    if bytes_eq value (codes "text")
    then ok plain_text
    else if bytes_eq value (codes "json")
    then ok json
    else err (text_with "invalid output format; expected text or json: " value)

unfoldable pub header_of : Bytes → Result Message (Bytes × Bytes)
header_of value = elim (split_once b':' value) [
  | none ↦ err (text "header must use 'Name: Value' syntax")
  | some (name, content) ↦ ok (trim_text name, trim_text content)
]

-- The path after `@`.
unfoldable pub file_of : Bytes → Result Message Bytes
file_of [] = err (text "--data-binary requires @FILE")
file_of (c ∷ path) =
    if c == b'@' && not (is_empty path) then ok path else err (text "--data-binary requires @FILE")

-- Methods that are new, in their order, at the end of the list.
unfoldable pub add_methods : List Bytes → List Method → Result Message (List Method)
add_methods [] methods = ok methods
add_methods (value ∷ values) methods = do
  method ← parse_method value
  add_methods values (if contains_method method methods then methods else methods ++ method ∷ [])

-- `option.replace(value).is_some()`
abbrev pub is_some : {A : Type 0} → Option A → Bool
is_some none = false
is_some (some a) = true

abbrev pub script_message : String
script_message =
    "Lua scripting is not supported\n\nUse an access log or JSONL request file for dynamic request sequences."

-- How an arm ends: with the settings and the arguments that are left, or with the help.
pub data Turn (Float : Type 0) : Type 0 where
  going : Settings Float → List Bytes → Turn Float
  helped : Turn Float

module _ {Float : Type 0} (parse_f64 : Bytes → Option Float)
    (is_finite is_at_most_zero : Float → Bool) where
  unfoldable pub speed_of : Bytes → Result Message Float
  speed_of value = do
    speed ← ok_or (parse_f64 value) (text_with "invalid replay speed: " value)
    u ←
        refuse_if (not (is_finite speed) || is_at_most_zero speed)
          (text "replay speed must be a finite number greater than zero")
    ok speed

  -- One turn of the loop: the arm, the argument, its attached value, and the other arguments.
  unfoldable pub take_arm :
      Arm
      → (argument : Bytes) → Option Bytes
      → List Bytes
      → Settings Float
      → Result Message (Turn Float)
  take_arm on_profile argument attached args s = do
    (value, rest) ← take_value none args "--profile requires a file path"
    ok (going (record s { profile_path = some value }) rest)
  take_arm on_assertion argument attached args s = do
    (value, rest) ← take_value none args "--assert requires an expression"
    ok (going (record s { assertions = s.assertions ++ (value, none) ∷ [] }) rest)
  take_arm on_script argument attached args s = err (text script_message)
  take_arm on_requests argument attached args s = do
    (value, rest) ← take_value attached args "--requests requires a value"
    n ← positive "invalid request count: " "request count must be greater than zero" value
    ok (going (record s { requests = n; requests_were_set = true }) rest)
  take_arm on_access_log argument attached args s = do
    (value, rest) ← take_value none args "--access-log requires a file path"
    ok (going (record s { access_log = some value }) rest)
  take_arm on_request_file argument attached args s = do
    (value, rest) ← take_value none args "--request-file requires a file path"
    ok (going (record s { request_file = some value }) rest)
  take_arm on_request_schema argument attached args s = do
    (value, rest) ← take_value none args "--request-schema requires a file path"
    ok (going (record s { request_schema = some value }) rest)
  take_arm on_skip_invalid_records argument attached args s =
      ok (going (record s { skip_invalid_records = true }) args)
  take_arm on_replay_order argument attached args s = do
    (value, rest) ← take_value none args "--replay-order requires a value"
    order ← order_of value
    ok (going (record s { replay_order = order; replay_order_was_set = true }) rest)
  take_arm on_seed argument attached args s = do
    (value, rest) ← take_value none args "--seed requires a value"
    n ← ok_or (parse_u64 value) (text_with "invalid replay seed: " value)
    ok (going (record s { seed = some n; seed_was_set = true }) rest)
  take_arm on_replay_rate argument attached args s = do
    (value, rest) ← take_value none args "--replay-rate requires a value"
    n ← positive "invalid replay rate: " "replay rate must be greater than zero" value
    ok (going (record s { replay_rate = some n }) rest)
  take_arm on_replay_timestamps argument attached args s =
      ok (going (record s { replay_timestamps = true }) args)
  take_arm on_replay_speed argument attached args s = do
    (value, rest) ← take_value none args "--replay-speed requires a value"
    speed ← speed_of value
    ok (going (record s { replay_speed = speed; replay_speed_was_set = true }) rest)
  take_arm on_stages argument attached args s = do
    (value, rest) ← take_value none args "--stages requires a value"
    stages ← parse_stages value argument
    ok (going (record s { stages = stages; stages_were_set = true }) rest)
  take_arm on_replay_stages argument attached args s = do
    (value, rest) ← take_value none args "--replay-stages requires a value"
    stages ← parse_stages value argument
    ok (going (record s { stages = stages; replay_stages_were_set = true }) rest)
  take_arm on_replay_rounds argument attached args s = do
    (value, rest) ← take_value none args "--replay-rounds requires a value"
    n ← positive "invalid replay round count: " "replay round count must be greater than zero" value
    ok (going (record s { replay_rounds = some n }) rest)
  take_arm on_output_format argument attached args s = do
    (value, rest) ← take_value none args "--output-format requires a value"
    format ← format_of value
    ok (going (record s { output_format = format; output_format_was_set = true }) rest)
  take_arm on_output_beauty argument attached args s =
      ok (going (record s { output_beauty = true }) args)
  take_arm on_output_html argument attached args s = do
    (value, rest) ← take_value none args "--output-html requires a file path"
    ok (going (record s { output_html = some value }) rest)
  take_arm on_request argument attached args s = do
    (value, rest) ← take_value attached args "--request requires a method"
    method ← parse_method value
    ok (going (record s { method = method; method_was_set = true }) rest)
  take_arm on_header argument attached args s = do
    (value, rest) ← take_value attached args "--header requires a value"
    header ← header_of value
    ok (going (record s { headers = s.headers ++ header ∷ [] }) rest)
  take_arm on_body_text argument attached args s = do
    (value, rest) ← take_value none args "--data requires a value"
    ok (going (record s { body_texts = s.body_texts ++ value ∷ [] }) rest)
  take_arm on_data_binary argument attached args s = do
    (value, rest) ← take_value none args "--data-binary requires @FILE"
    path ← file_of value
    u ← refuse_if (is_some s.data_binary) (text "--data-binary may only be supplied once")
    ok (going (record s { data_binary = some path }) rest)
  take_arm on_allowed_methods argument attached args s = do
    (value, rest) ← take_value none args "--allowed-methods requires a value"
    values ← comma_separated value (codes "--allowed-methods")
    methods ← add_methods values s.allowed_methods
    ok (going (record s { allowed_methods = methods }) rest)
  take_arm on_allowed_uris argument attached args s = do
    (value, rest) ← take_value none args "--allowed-uris requires a value"
    values ← comma_separated value (codes "--allowed-uris")
    ok (going (record s { allowed_uris = s.allowed_uris ++ values }) rest)
  take_arm on_duration argument attached args s = do
    (value, rest) ← take_value attached args "--duration requires a value"
    n ← parse_duration value
    ok (going (record s { duration = some n }) rest)
  take_arm on_timeout argument attached args s = do
    (value, rest) ← take_value attached args "--timeout requires a value"
    n ← parse_duration value
    ok (going (record s { timeout = n; timeout_was_set = true }) rest)
  take_arm on_latency argument attached args s = ok (going s args)
  take_arm on_connections argument attached args s = do
    (value, rest) ← take_value attached args "--connections requires a value"
    n ← positive "invalid connection count: " "connection count must be greater than zero" value
    ok (going (record s { connections = n; connections_were_set = true }) rest)
  take_arm on_threads argument attached args s = do
    (value, rest) ← take_value attached args "--threads requires a value"
    n ← positive "invalid thread count: " "thread count must be greater than zero" value
    ok (going (record s { threads = n; threads_were_set = true }) rest)
  take_arm on_help argument attached args s = ok helped
  take_arm on_version argument attached args s = ok (going (record s { version = true }) args)
  take_arm on_unknown argument attached args s = err (text_with "unknown option: " argument)
  take_arm on_url argument attached args s = do
    u ← refuse_if (is_some s.url) (text "only one URL may be supplied")
    ok (going (record s { url = some argument }) args)

  -- The whole loop; `none` is the help. Every turn takes an argument, so that the fuel is their number.
  unfoldable pub take_all :
      (fuel : ℕ) → List Bytes → Settings Float → Option (Result Message (Option (Settings Float)))
  take_all fuel [] s = some (ok (some s))
  take_all zero (a ∷ args) s = none
  take_all (suc fuel) (a ∷ args) s =
      let (argument, attached) = split_attached a in
      elim (take_arm (arm_of argument) argument attached args s) [
        | err e ↦ some (err e)
        | ok helped ↦ some (ok none)
        | ok (going s' rest) ↦ take_all fuel rest s'
      ]
