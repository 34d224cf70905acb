-- ===== src/Command/Values.antt =====
-- src/main.rs: the values of options. A text is its UTF-8 bytes.
use rload.Prelude.{
  ℕ, ◌-◌, ◌*◌, ◌^◌, ◌≡◌, refl, Bool, false, not, ◌&&◌, ◌||◌, Option, none, some, List, [], ◌∷◌,
  ◌++◌, map, ltb, leb, ◌==◌, if◌then◌else◌, Bytes, codes, length, take, drop, is_empty, bytes_eq,
  u64_mod,
}
use rload.Error.{Message, text_with, Result, ok, err, ◌>>=◌, ok_or, refuse_if}
use rload.Config.{Method, all_methods, as_str, ReplayStage}
use rload.Text.Split.{split_once, split, starts_with}
use rload.Text.Chars.{trim_text}
use rload.Text.Number.{parse_unsigned}

-- `value.parse::<u64>().ok()`
abbrev pub parse_u64 : Bytes → Option ℕ
parse_u64 = parse_unsigned 10 (2 ^ 64)

-- `value.strip_suffix(suffix)`
unfoldable pub strip_suffix : Bytes → Bytes → Option Bytes
strip_suffix suffix s =
    let start = length s - length suffix in
    if leb (length suffix) (length s) && bytes_eq (drop start s) suffix
    then some (take start s)
    else none

-- The number of a duration, and the milliseconds of its unit.
unfoldable pub duration_parts : Bytes → Bytes × ℕ
duration_parts value = elim (strip_suffix (codes "ms") value) [
  | some number ↦ (number, 1)
  | none ↦ elim (strip_suffix (codes "s") value) [
    | some number ↦ (number, 1_000)
    | none ↦ elim (strip_suffix (codes "m") value) [
      | some number ↦ (number, 60_000)
      | none ↦ elim (strip_suffix (codes "h") value) [
        | some number ↦ (number, 3_600_000)
        | none ↦ (value, 1_000)
      ]
    ]
  ]
]

-- `number.checked_mul(multiplier).filter(|milliseconds| *milliseconds > 0)`
unfoldable pub scale : (number multiplier : ℕ) → Option ℕ
scale number multiplier =
    if ltb (number * multiplier) u64_mod && ltb 0 (number * multiplier)
    then some (number * multiplier)
    else none

-- Nanoseconds.
unfoldable pub parse_duration : Bytes → Result Message ℕ
parse_duration value =
    let (number, multiplier) = duration_parts value in
    elim (parse_u64 number) [
      | none ↦ err (text_with "invalid duration: " value)
      | some n ↦ elim (scale n multiplier) [
        | none ↦ err (text_with "invalid duration: " value)
        | some milliseconds ↦ ok (milliseconds * 1_000_000)
      ]
    ]

unfoldable pub find_method : Bytes → List Method → Option Method
find_method value [] = none
find_method value (m ∷ ms) =
    let rest = find_method value ms in if bytes_eq (as_str m) value then some m else rest

unfoldable pub parse_method : Bytes → Result Message Method
parse_method value =
    ok_or (find_method value all_methods) (text_with "unsupported HTTP method: " value)

unfoldable pub any_empty : List Bytes → Bool
any_empty [] = false
any_empty (v ∷ vs) = is_empty v || any_empty vs

unfoldable pub comma_separated : (value option : Bytes) → Result Message (List Bytes)
comma_separated value option =
    let values = map trim_text (split b',' value) in
    if is_empty values || any_empty values
    then err (text_with " requires non-empty comma-separated values" option)
    else ok values

-- One stage of `DURATION:RPS`; the message names the stage.
unfoldable pub parse_stage : (stage_name stage : Bytes) → Result Message ReplayStage
parse_stage stage_name stage = elim (split_once b':' stage) [
  | none ↦
      err (text_with "invalid stage; expected DURATION:RPS: " (stage_name ++ (codes " " ++ stage)))
  | some (duration_text, rate_text) ↦ do
    duration ← parse_duration duration_text
    rate ←
        ok_or (parse_u64 rate_text)
          (text_with "invalid stage rate: " (stage_name ++ (codes " " ++ rate_text)))
    u ←
        refuse_if (duration == 0 || rate == 0)
          (text_with " durations and rates must be greater than zero" stage_name)
    ok (record { duration = duration; rate = rate })
]

unfoldable pub parse_each : (stage_name : Bytes) → List Bytes → Result Message (List ReplayStage)
parse_each stage_name [] = ok []
parse_each stage_name (v ∷ vs) = do
  stage ← parse_stage stage_name v
  stages ← parse_each stage_name vs
  ok (stage ∷ stages)

unfoldable pub parse_stages : (value option : Bytes) → Result Message (List ReplayStage)
parse_stages value option = do
  values ← comma_separated value option
  parse_each
      (if bytes_eq option (codes "--replay-stages")
        then codes "replay stage"
        else codes "rate stage")
      values

abbrev pub attachable : List Bytes
attachable =
    codes "-T" ∷ codes "-X" ∷ codes "-H" ∷ codes "-t" ∷ codes "-c" ∷ codes "-d" ∷ codes "-n" ∷ []

-- The first of the options that the argument begins with, if more follows.
unfoldable pub split_by : List Bytes → Bytes → Bytes × Option Bytes
split_by [] argument = (argument, none)
split_by (option ∷ options) argument =
    let rest = split_by options argument in
    let value = drop (length option) argument in
    if starts_with option argument && not (is_empty value) then (option, some value) else rest

unfoldable pub split_attached : Bytes → Bytes × Option Bytes
split_attached argument = split_by attachable argument

parses_minutes : parse_duration (codes "3m") ≡ ok 180_000_000_000
unfolding parse_duration duration_parts strip_suffix scale parse_unsigned bytes_eq
parses_minutes = refl

splits_attached : split_attached (codes "-c12") ≡ (codes "-c", some (codes "12"))
unfolding split_attached split_by starts_with
splits_attached = refl
