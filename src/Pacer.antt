-- ===== src/Pacer.antt =====
-- src/pacer.rs: when a request may be sent. An instant and a duration are numbers of nanoseconds; the
-- duration that a rate or a gap between timestamps comes to is float arithmetic, a parameter.
pub mod Slots
pub mod Stages
use rload.Prelude.{
  ℕ, zero, suc, ◌+◌, ◌-◌, ◌*◌, ◌/◌, ◌%◌, ◌^◌, ◌≤◌, ◌<◌, min, max, String, ◌≡◌, refl, sym, ap, ◌∙◌,
  subst, ◌≢◌, ◌↔◌, ◌⊎◌, inl, inr, Bool, true, false, not, ◌&&◌, ◌||◌, Option, none, some, List, [],
  ◌∷◌, ◌++◌, map, append-nil, append_assoc, arith, ltb, leb, ◌==◌, if◌then◌else◌, ltb→lt, lt→ltb,
  leb→le, le→leb, ltb_false→le, leb_false→lt, ==_iff, tests, Bool-cases, Option-cases, &&_true,
  or_sound, or_complete, Bytes, codes, length, get_elem?, set, take, drop, replicate, is_empty,
  length-append, length-take, length-drop, length-set, drop-get_some, drop-get_none, get_some-lt,
  get_none-le, lt-get_some, bytes_eq, bytes_eq_sound, bytes_eq_refl, All, All-get, Any, All-append,
  All-append_left, All-append_right, All-take, All-imp, All-both, Any-All, take-append, drop-append,
  drop-append_past, drop_all, u64_mod, u64_max, add64, add64_exact,
}
use rload.Prelude.Int.{ℤ, pos_part, neg_part, ltb_ℤ}
use rload.Config.{ReplayStage}

pub record Pacer : Type 0 where
  pub interval : ℕ
  pub next : ℕ

-- `interval_of` is `Duration::from_secs_f64(1.0 / rate as f64)`.
unfoldable pub new_pacer : (interval_of : ℕ → ℕ) (rate started : ℕ) → Pacer
new_pacer interval_of rate started = record { interval = interval_of rate; next = started }

-- The slot that is reserved, and the pacer afterwards.
unfoldable pub reserve : Pacer → (now : ℕ) → ℕ × Pacer
reserve p now = (max p.next now, record p { next = max p.next now + p.interval })

pub record TimestampPacer : Type 0 where
  pub previous_micros : Option ℤ
  pub next_instant : ℕ

unfoldable pub new_timestamp_pacer : (started : ℕ) → TimestampPacer
new_timestamp_pacer started = record { previous_micros = none; next_instant = started }

-- The difference of two i64 values, the first at least the second; `none` where it wraps to a negative
-- number, which `from_secs_f64` refuses by a panic.
unfoldable pub difference : ℤ → ℤ → Option ℕ
difference timestamp previous =
    let gap = pos_part timestamp + neg_part previous - (neg_part timestamp + pos_part previous) in
    if ltb gap (2 ^ 63) then some gap else none

unfoldable pub gap_after : Option ℤ → ℤ → Option ℕ
gap_after none timestamp = some 0
gap_after (some previous) timestamp =
    if ltb_ℤ timestamp previous then some 0 else difference timestamp previous

-- `scaled` is `Duration::from_secs_f64(gap as f64 / 1_000_000.0 / self.speed)`.
unfoldable pub reserve_timestamp :
    (scaled : ℕ → ℕ) → TimestampPacer → ℤ → (now : ℕ) → Option (ℕ × TimestampPacer)
reserve_timestamp scaled p timestamp now = elim (gap_after p.previous_micros timestamp) [
  | none ↦ none
  | some gap ↦ some (
    max p.next_instant now + scaled gap,
    record { previous_micros = some timestamp; next_instant = max p.next_instant now + scaled gap },
  )
]

-- The end of a stage, after the start of the run, and its rate.
pub record Boundary : Type 0 where
  pub boundary : ℕ
  pub rate : ℕ

pub record StagePacer : Type 0 where
  pub stages : List Boundary
  pub started : Option ℕ
  pub next_slot : Option ℕ

unfoldable pub boundaries : ℕ → List ReplayStage → List Boundary
boundaries sum [] = []
boundaries sum (s ∷ ss) =
    record { boundary = sum + s.duration; rate = s.rate } ∷ boundaries (sum + s.duration) ss

unfoldable pub new_stage_pacer : List ReplayStage → StagePacer
new_stage_pacer stages = record { stages = boundaries 0 stages; started = none; next_slot = none }

-- `get_or_insert` and `unwrap_or`
abbrev pub value_or : Option ℕ → ℕ → ℕ
value_or none default = default
value_or (some value) default = value

-- `iter().find(|(boundary, _)| elapsed < *boundary)`
unfoldable pub find_stage : ℕ → List Boundary → Option Boundary
find_stage elapsed [] = none
find_stage elapsed (b ∷ bs) =
    let rest = find_stage elapsed bs in if ltb elapsed b.boundary then some b else rest

-- `last()`
unfoldable pub last_stage : List Boundary → Option Boundary
last_stage [] = none
last_stage (b ∷ bs) = elim (last_stage bs) [ none ↦ some b | some l ↦ some l ]

-- The rate at a moment of the run, and the end of its stage, if it is not past the last one; `none` is
-- the panic of `expect`.
unfoldable pub rate_and_boundary : (started elapsed : ℕ) → List Boundary → Option (ℕ × Option ℕ)
rate_and_boundary started elapsed stages = elim (find_stage elapsed stages) [
  | some b ↦ some (b.rate, some (started + b.boundary))
  | none ↦ elim (last_stage stages) [ none ↦ none | some l ↦ some (l.rate, none) ]
]

-- `boundary.map_or(candidate, |boundary| candidate.min(boundary))`
abbrev pub clipped : Option ℕ → ℕ → ℕ
clipped none candidate = candidate
clipped (some end) candidate = min candidate end

unfoldable pub reserve_stage :
    (interval_of : ℕ → ℕ) → StagePacer → (now : ℕ) → Option (ℕ × StagePacer)
reserve_stage interval_of p now =
    let started = value_or p.started now in
    let scheduled = max (value_or p.next_slot now) now in
    elim (rate_and_boundary started (scheduled - started) p.stages) [
      | none ↦ none
      | some (rate, end) ↦ some (
        scheduled,
        record p {
          started = some started;
          next_slot = some (clipped end (scheduled + interval_of rate));
        },
      )
    ]
