-- ===== src/Tests/Command.antt =====
-- A command line.
use rload.Prelude.{
  ℕ, ◌≡◌, refl, Bool, true, Option, none, some, List, [], ◌∷◌, arith, ◌==◌, Bytes, codes, bytes_eq,
}
use rload.Text.Split.{starts_with}
use rload.Text.Number.{parse_unsigned}
use rload.Command.Values.{
  split_attached, split_by, parse_duration, duration_parts, strip_suffix, scale,
}
use rload.Error.{ok, err, text}
use rload.Command.Arguments.{
  Settings, initial, take_all, take_arm, arm_of, find_arm, take_value, positive,
}
use rload.Command.Arguments.Positive.{IsPositive, Usable, take_all-Usable}

-- A speed is a number of hundredths.
abbrev hundredths : Bytes → Option ℕ
hundredths value = none

abbrev is_finite : ℕ → Bool
is_finite n = true

abbrev is_zero : ℕ → Bool
is_zero n = n == 0

abbrev line : List Bytes
line = codes "-c12" ∷ codes "-d" ∷ codes "3s" ∷ codes "http://a/" ∷ []

abbrev defaults : Settings ℕ
defaults = initial 100

takes_line :
    take_all hundredths is_finite is_zero 4 line defaults
    ≡ some (
        ok (
          some (record (initial 100) {
            connections = 12;
            connections_were_set = true;
            duration = some 3_000_000_000;
            url = some (codes "http://a/");
          })))
unfolding take_all take_arm arm_of find_arm bytes_eq starts_with split_attached split_by take_value
    positive parse_unsigned parse_duration duration_parts strip_suffix scale initial
takes_line = refl

zero_connections :
    take_all hundredths is_finite is_zero 2 (codes "-c" ∷ codes "0" ∷ []) defaults
    ≡ some (err (text "connection count must be greater than zero"))
unfolding take_all take_arm arm_of find_arm bytes_eq starts_with split_attached split_by take_value
    positive parse_unsigned initial
zero_connections = refl

defaults-IsPositive : IsPositive defaults
unfolding initial
defaults-IsPositive = record {
  requests = omega arith;
  connections = omega arith;
  threads = omega arith;
  timeout = omega arith;
  duration = λ e. cc;
  replay_rate = λ e. cc;
  replay_rounds = λ e. cc;
  stages = tt;
}

take_all-Usable_example :
    Usable hundredths is_finite is_zero (take_all hundredths is_finite is_zero 4 line defaults)
take_all-Usable_example =
    take_all-Usable hundredths is_finite is_zero 4 line defaults (omega arith) defaults-IsPositive
