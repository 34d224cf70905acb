-- ===== src/Engine/Options.antt =====
-- `ReplayOptions` of src/config.rs, and `validate_stages`, `validate_replay_options` and
-- `validate_timestamps` of src/engine/mod.rs. A duration is a number of nanoseconds; the float of the
-- speed and the tests on it are parameters.
pub mod Checks
use rload.Prelude.{
  ℕ, zero, suc, ◌+◌, ◌-◌, ◌*◌, ◌/◌, ◌%◌, ◌^◌, ◌≤◌, ◌<◌, min, max, String, ◌≡◌, refl, sym, ap, ◌∙◌,
  subst, ◌≢◌, ◌↔◌, ◌⊎◌, inl, inr, Bool, true, false, not, ◌&&◌, ◌||◌, Option, none, some, List, [],
  ◌∷◌, ◌++◌, map, append-nil, append_assoc, arith, ltb, leb, ◌==◌, if◌then◌else◌, ltb→lt, lt→ltb,
  leb→le, le→leb, ltb_false→le, leb_false→lt, ==_iff, tests, Bool-cases, Option-cases, &&_true,
  or_sound, or_complete, Bytes, codes, length, get_elem?, set, take, drop, replicate, is_empty,
  length-append, length-take, length-drop, length-set, drop-get_some, drop-get_none, get_some-lt,
  get_none-le, lt-get_some, bytes_eq, bytes_eq_sound, bytes_eq_refl, All, All-get, Any, All-append,
  All-append_left, All-append_right, All-take, All-imp, All-both, Any-All, take-append, drop-append,
  drop-append_past, drop_all, u64_mod, u64_max, add64, add64_exact,
}
use rload.Prelude.Int.{ℤ, ltb_ℤ}
use rload.Error.{
  RunError, Message, text, invalid_config, invalid_access_log, invalid_request_file, Result, ok,
  err, ◌>>◌, ◌>>=◌, refuse_if, ok_or,
}
use rload.Config.{ReplayOrder, sequential, shuffle, random, ReplayStage}
use rload.Request.{ReplayRequest}

pub record ReplayOptions (Float : Type 0) : Type 0 where
  pub order : ReplayOrder
  pub seed : Option ℕ
  pub rate : Option ℕ
  pub timestamps : Bool
  pub speed : Float
  pub stages : List ReplayStage

-- `==` on orders
unfoldable pub is_sequential : ReplayOrder → Bool
is_sequential sequential = true
is_sequential shuffle = false
is_sequential random = false

unfoldable pub is_random : ReplayOrder → Bool
is_random sequential = false
is_random shuffle = false
is_random random = true

abbrev pub is_some {ℓ} : {A : Type ℓ} → Option A → Bool
is_some none = false
is_some (some a) = true

-- `rounds == Some(0)`
abbrev pub is_zero_rounds : Option ℕ → Bool
is_zero_rounds none = false
is_zero_rounds (some n) = n == 0

unfoldable pub any_empty_stage : List ReplayStage → Bool
any_empty_stage [] = false
any_empty_stage (s ∷ ss) = s.duration == 0 || s.rate == 0 || any_empty_stage ss

-- Nanoseconds that a `Duration` cannot hold: 2 ^ 64 seconds.
abbrev pub duration_limit : ℕ
duration_limit = 2 ^ 64 * 1_000_000_000

-- `try_fold` with `checked_add`
unfoldable pub total_duration : ℕ → List ReplayStage → Option ℕ
total_duration total [] = some total
total_duration total (s ∷ ss) =
    let rest = total_duration (total + s.duration) ss in
    if ltb (total + s.duration) duration_limit then rest else none

unfoldable pub validate_stages : List ReplayStage → Result RunError (Unit {0})
validate_stages stages = do
  refuse_if (any_empty_stage stages)
      (invalid_config (text "rate stages require positive durations and rates"))
  refuse_if (not (is_some (total_duration 0 stages)))
      (invalid_config (text "cumulative rate stage duration is too large"))
  ok tt

module _ {Float : Type 0} (is_finite is_at_most_zero : Float → Bool) where
  unfoldable pub validate_replay_options :
      ReplayOptions Float → (rounds : Option ℕ) → Result RunError (Unit {0})
  validate_replay_options options rounds = do
    refuse_if (is_sequential options.order && is_some options.seed)
        (invalid_config (text "replay seed requires shuffle or random order"))
    refuse_if (is_zero_rounds rounds)
        (invalid_config (text "replay rounds must be greater than zero"))
    refuse_if (is_some rounds && is_random options.order)
        (invalid_config (text "replay rounds cannot be combined with random replay order"))
    refuse_if (options.timestamps && not (is_sequential options.order))
        (invalid_config (text "timestamp pacing requires sequential replay order"))
    refuse_if (options.timestamps && is_some options.rate)
        (invalid_config (text "timestamp pacing cannot be combined with a fixed replay rate"))
    refuse_if (not (is_empty options.stages) && (is_some options.rate || options.timestamps)) (
        invalid_config
          (text "replay stages cannot be combined with fixed-rate or timestamp pacing"))
    validate_stages options.stages
    refuse_if (not (is_finite options.speed) || is_at_most_zero options.speed)
        (invalid_config (text "replay speed must be a finite number greater than zero"))

pub data TimestampSource : Type 0 where
  access_log : TimestampSource
  request_file : TimestampSource

unfoldable pub invalid : TimestampSource → Message → RunError
invalid access_log message = invalid_access_log message
invalid request_file message = invalid_request_file message

-- `previous.is_some_and(|previous| timestamp < previous)`
abbrev pub goes_back : Option ℤ → ℤ → Bool
goes_back none timestamp = false
goes_back (some previous) timestamp = ltb_ℤ timestamp previous

-- The loop, after the timestamp `previous`.
unfoldable pub check_timestamps :
    TimestampSource → Option ℤ → List ReplayRequest → Result RunError (Unit {0})
check_timestamps source previous [] = ok tt
check_timestamps source previous (r ∷ rs) = do
  timestamp ←
      ok_or r.timestamp_micros (
        invalid source
          (text "timestamp pacing requires a valid timestamp on every replayable line"))
  refuse_if (goes_back previous timestamp)
      (invalid source (text "timestamp pacing requires non-decreasing log timestamps"))
  check_timestamps source (some timestamp) rs

unfoldable pub validate_timestamps :
    List ReplayRequest → TimestampSource → Result RunError (Unit {0})
validate_timestamps requests source = check_timestamps source none requests
