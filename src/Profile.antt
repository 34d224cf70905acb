-- ===== src/Profile.antt =====
-- src/profile.rs: the profile of a run, as it is read from YAML, and the checks on it. Reading the file
-- and the YAML are parameters. The speed is a float: its type and the tests on it are parameters.
pub mod Valid
use rload.Prelude.{
  ℕ, zero, suc, ◌+◌, ◌-◌, ◌*◌, ◌/◌, ◌%◌, ◌^◌, ◌≤◌, ◌<◌, min, max, String, ◌≡◌, refl, sym, ap, ◌∙◌,
  subst, ◌≢◌, ◌↔◌, ◌⊎◌, inl, inr, Bool, true, false, not, ◌&&◌, ◌||◌, Option, none, some, List, [],
  ◌∷◌, ◌++◌, map, append-nil, append_assoc, arith, ltb, leb, ◌==◌, if◌then◌else◌, ltb→lt, lt→ltb,
  leb→le, le→leb, ltb_false→le, leb_false→lt, ==_iff, tests, Bool-cases, Option-cases, &&_true,
  or_sound, or_complete, Bytes, codes, length, get_elem?, set, take, drop, replicate, is_empty,
  length-append, length-take, length-drop, length-set, drop-get_some, drop-get_none, get_some-lt,
  get_none-le, lt-get_some, bytes_eq, bytes_eq_sound, bytes_eq_refl, All, All-get, Any, All-append,
  All-append_left, All-append_right, All-take, All-imp, All-both, Any-All, take-append, drop-append,
  drop-append_past, drop_all, u64_mod, u64_max, add64, add64_exact,
}
use rload.Error.{Message, text, text_with, Result, ok, err, ◌>>=◌, ◌>>◌, refuse_if}
use rload.Text.Chars.{trim_text}

pub record Assertion : Type 0 where
  pub expression : Bytes
  pub message : Option Bytes

pub record Target : Type 0 where
  pub url : Bytes

pub record Runner : Type 0 where
  pub threads : ℕ
  pub connections : ℕ
  pub duration : Option Bytes
  pub timeout : Bytes

pub record StaticRequest : Type 0 where
  pub method : Bytes
  pub headers : List (Bytes × Bytes)
  pub body : Option Bytes

pub record PacingStage : Type 0 where
  pub duration : Bytes
  pub target_rps : ℕ

pub record Pacing (Float : Type 0) : Type 0 where
  pub mode : Bytes
  pub rate : Option ℕ
  pub speed : Option Float
  pub stages : List PacingStage

pub record ReplayFilter : Type 0 where
  pub allowed_methods : List Bytes
  pub allowed_uris : List Bytes

pub record LogReplay (Float : Type 0) : Type 0 where
  pub path : Bytes
  pub format : Bytes
  pub order : Option Bytes
  pub seed : Option ℕ
  pub rounds : Option ℕ
  pub schema : Option Bytes
  pub skip_invalid_records : Bool
  pub pacing : Option (Pacing Float)
  pub filter : ReplayFilter

pub record LoadProfile (Float : Type 0) : Type 0 where
  pub mode : Option Bytes
  pub static_request : Option StaticRequest
  pub log_replay : Option (LogReplay Float)

pub record Observability : Type 0 where
  pub output_format : Option Bytes
  pub output_html : Option Bytes

pub record Profile (Float : Type 0) : Type 0 where
  pub version : Bytes
  pub target : Target
  pub runner : Runner
  pub load_profile : LoadProfile Float
  pub observability : Observability
  pub assertions : List Assertion

abbrev pub default_threads : ℕ
default_threads = 2

abbrev pub default_connections : ℕ
default_connections = 10

abbrev pub default_timeout : Bytes
default_timeout = codes "2s"

abbrev pub default_method : Bytes
default_method = codes "GET"

-- `Runner::default()`
abbrev pub default_runner : Runner
default_runner = record {
  threads = default_threads;
  connections = default_connections;
  duration = none;
  timeout = default_timeout;
}

-- A text against a literal.
abbrev pub is_text : Bytes → String → Bool
is_text bytes s = bytes_eq bytes (codes s)

abbrev pub option_is_text : Option Bytes → String → Bool
option_is_text none s = false
option_is_text (some bytes) s = is_text bytes s

-- `option.is_none()`
abbrev pub is_none : {A : Type 0} → Option A → Bool
is_none none = true
is_none (some a) = false

-- `stages.iter().all(..)`
unfoldable pub all_stages : List PacingStage → Bool
all_stages [] = true
all_stages (s ∷ ss) = (ltb 0 s.target_rps && not (is_empty (trim_text s.duration))) && all_stages ss

-- `pacing.rate.is_some_and(|rate| rate > 0)`
unfoldable pub has_rate : Option ℕ → Bool
has_rate none = false
has_rate (some rate) = ltb 0 rate

unfoldable pub known_mode : Option Bytes → Result Message (Unit {0})
known_mode none = ok tt
known_mode (some mode) =
    refuse_if (not (is_text mode "static") && not (is_text mode "log_replay"))
      (text_with "profile load_profile.mode is not supported yet: " mode)

unfoldable pub no_rounds : Option ℕ → Bool
no_rounds none = false
no_rounds (some rounds) = rounds == 0

module _ {Float : Type 0} (is_finite is_positive : Float → Bool) where
  -- `pacing.speed.is_none_or(|speed| speed.is_finite() && speed > 0.0)`
  unfoldable pub has_speed : Option Float → Bool
  has_speed none = true
  has_speed (some speed) = is_finite speed && is_positive speed

  unfoldable pub check_pacing : Pacing Float → Result Message (Unit {0})
  check_pacing p =
      if is_text p.mode "none"
      then ok tt
      else if is_text p.mode "rate" && has_rate p.rate
      then ok tt
      else if is_text p.mode "timestamp" && has_speed p.speed
      then ok tt
      else if is_text p.mode "stages" && (not (is_empty p.stages) && all_stages p.stages)
      then ok tt
      else if is_text p.mode "rate"
      then err (text "profile load_profile.log_replay.pacing.rate must be greater than zero")
      else if is_text p.mode "timestamp"
      then err (
          text
            "profile load_profile.log_replay.pacing.speed must be a finite number greater than zero")
      else if is_text p.mode "stages"
      then err (
          text
            "profile load_profile.log_replay.pacing.stages must contain non-empty durations and positive target_rps values")
      else err (
          text_with
            "profile load_profile.log_replay.pacing.mode must be none, rate, timestamp, or stages, got "
            p.mode)

  unfoldable pub check_option_pacing : Option (Pacing Float) → Result Message (Unit {0})
  check_option_pacing none = ok tt
  check_option_pacing (some pacing) = check_pacing pacing

  unfoldable pub check_replay : LogReplay Float → Result Message (Unit {0})
  check_replay r = do
    refuse_if (is_empty (trim_text r.path))
        (text "profile load_profile.log_replay.path must not be empty")
    refuse_if (not (is_text r.format "nginx") && not (is_text r.format "jsonl"))
        (text_with "profile load_profile.log_replay.format must be nginx or jsonl, got " r.format)
    refuse_if (no_rounds r.rounds)
        (text "profile load_profile.log_replay.rounds must be greater than zero")
    check_option_pacing r.pacing

  unfoldable pub check_option_replay : Option (LogReplay Float) → Result Message (Unit {0})
  check_option_replay none = ok tt
  check_option_replay (some replay) = check_replay replay

  -- The checks of `load`.
  unfoldable pub check : Profile Float → Result Message (Unit {0})
  check p =
      let l = p.load_profile in
      do
        refuse_if (not (is_text p.version "v1"))
            (text_with "profile version must be v1, got " p.version)
        refuse_if (is_empty (trim_text p.target.url)) (text "profile target.url must not be empty")
        known_mode l.mode
        refuse_if (option_is_text l.mode "static" && is_none l.static_request)
            (text "profile load_profile.static is required when mode is static")
        refuse_if (option_is_text l.mode "log_replay" && is_none l.log_replay)
            (text "profile load_profile.log_replay is required when mode is log_replay")
        check_option_replay l.log_replay

  -- `fs::read_to_string` and `serde_yaml::from_str` give the text of an error.
  unfoldable pub load :
      (read_to_string : Bytes → Result Bytes Bytes)
      (from_str : Bytes → Result Bytes (Profile Float)) (path : Bytes)
      → Result Message (Profile Float)
  load read_to_string from_str path = elim (read_to_string path) [
    | err e ↦ err (text_with "cannot read profile " (path ++ (codes ": " ++ e)))
    | ok content ↦ elim (from_str content) [
      | err e ↦ err (text_with "invalid profile " (path ++ (codes ": " ++ e)))
      | ok profile ↦ check profile >>= λ u. ok profile
    ]
  ]
