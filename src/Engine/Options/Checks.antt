-- ===== src/Engine/Options/Checks.antt =====
-- What passes the checks of replay options, stages and timestamps.
use rload.Prelude.{
  ℕ, ◌+◌, ◌<◌, ◌≡◌, refl, ◌≢◌, ◌↔◌, ◌⊎◌, inl, inr, Bool, true, false, Option, none, some, List, [],
  ◌∷◌, map, arith, ltb, ltb→lt, lt→ltb, ltb_false→le, Bool-cases, Option-cases, All,
}
use rload.Prelude.Int.{ℤ, ◌≤ℤ◌}
use rload.Error.{ok}
use rload.Config.{sequential, random, ReplayStage}
use rload.Request.{ReplayRequest}
use rload.Engine.Options.{
  ReplayOptions, is_sequential, is_random, is_some, any_empty_stage, duration_limit, total_duration,
  validate_stages, validate_replay_options, TimestampSource, goes_back, check_timestamps,
  validate_timestamps,
}

abbrev pub duration_sum : List ReplayStage → ℕ
duration_sum [] = 0
duration_sum (s ∷ ss) = s.duration + duration_sum ss

-- Stages that all last and all send, and that a duration can hold together.
abbrev pub AreStages : List ReplayStage → Type 0
AreStages ss = All (λ s. (0 < s.duration) × (0 < s.rate)) ss × (duration_sum ss < duration_limit)

stages_run :
    (ss : List ReplayStage)
    → any_empty_stage ss ≡ false
    → All (λ s. (0 < s.duration) × (0 < s.rate)) ss
unfolding any_empty_stage
stages_run [] h = tt
stages_run (s ∷ ss) h = ((ground arith, ground arith), stages_run ss (ground arith))

stages_run_back :
    (ss : List ReplayStage)
    → All (λ s. (0 < s.duration) × (0 < s.rate)) ss
    → any_empty_stage ss ≡ false
unfolding any_empty_stage
stages_run_back [] h = refl
stages_run_back (s ∷ ss) h = ground (arith, stages_run_back ss h.1)

total-fits :
    (t : ℕ) (ss : List ReplayStage)
    → t < duration_limit
    → is_some (total_duration t ss) ≡ true
    → t + duration_sum ss < duration_limit
unfolding total_duration
total-fits t [] small h = omega arith
total-fits t (s ∷ ss) small h = elim (Bool-cases (ltb (t + s.duration) duration_limit)) [
  | inl k ↦ omega (arith, total-fits (t + s.duration) ss (ltb→lt _ _ k) (rw k at h))
  | inr k ↦ cc (rw k at h)
]

fits-total :
    (t : ℕ) (ss : List ReplayStage)
    → t + duration_sum ss < duration_limit
    → is_some (total_duration t ss) ≡ true
unfolding total_duration
fits-total t [] h = refl
fits-total t (s ∷ ss) h =
    rw (lt→ltb (t + s.duration) duration_limit (omega arith))
      (fits-total (t + s.duration) ss (omega arith))

-- Rate stages pass exactly if each has a positive duration and a positive rate and the sum of the
-- durations is below 2^64 seconds.
pub validate_stages_iff : (ss : List ReplayStage) → (validate_stages ss ≡ ok tt) ↔ AreStages ss
unfolding validate_stages
validate_stages_iff ss = (
  λ h. (stages_run ss (ground arith), omega (arith, total-fits 0 ss (omega arith) (ground arith))),
  λ (run, fit). rw (stages_run_back ss run, fits-total 0 ss (omega (arith, fit))) refl,
)

-- What is sent when.
pub record IsReplay {Float : Type 0} (is_finite is_at_most_zero : Float → Bool)
    (o : ReplayOptions Float) (rounds : Option ℕ) : Type 0 where
  pub seeded : (o.order ≢ sequential) ⊎ (o.seed ≡ none)
  pub some_round : rounds ≢ some 0
  pub countable : (rounds ≡ none) ⊎ (o.order ≢ random)
  pub timed : (o.timestamps ≡ false) ⊎ ((o.order ≡ sequential) × (o.rate ≡ none))
  pub staged : (o.stages ≡ []) ⊎ ((o.rate ≡ none) × (o.timestamps ≡ false))
  pub stages : AreStages o.stages
  pub finite : is_finite o.speed ≡ true
  pub positive : is_at_most_zero o.speed ≡ false

module _ {Float : Type 0} (is_finite is_at_most_zero : Float → Bool) (o : ReplayOptions Float)
    (rounds : Option ℕ) where
  passed_sound :
      validate_replay_options is_finite is_at_most_zero o rounds ≡ ok tt
      → IsReplay is_finite is_at_most_zero o rounds
  unfolding validate_replay_options is_sequential is_random
  passed_sound h = record {
    seeded = ground arith;
    some_round = ground arith;
    countable = ground arith;
    timed = ground arith;
    staged = ground arith;
    stages = (validate_stages_iff o.stages).0 (ground arith);
    finite = ground arith;
    positive = ground arith;
  }

  passed_complete :
      IsReplay is_finite is_at_most_zero o rounds
      → validate_replay_options is_finite is_at_most_zero o rounds ≡ ok tt
  unfolding validate_replay_options is_sequential is_random
  passed_complete p = ground (
    arith,
    (validate_stages_iff o.stages).1 p.stages,
    p.seeded,
    p.some_round,
    p.countable,
    p.timed,
    p.staged,
    p.finite,
    p.positive,
  )

  -- For any float tests, replay options pass exactly if a seed comes with an order that is not
  -- sequential, rounds are not zero and not of a random order, timestamps go with a sequential
  -- order and no rate, stages go with neither a rate nor timestamps and are well formed, and the
  -- speed is finite and positive by those tests.
  pub validate_replay_options_iff :
      (validate_replay_options is_finite is_at_most_zero o rounds ≡ ok tt)
      ↔ IsReplay is_finite is_at_most_zero o rounds
  validate_replay_options_iff = (passed_sound, passed_complete)

-- No timestamp is below an earlier one.
abbrev pub IsAscending : List ℤ → Type 0
IsAscending [] = Unit {0}
IsAscending (t ∷ ts) = All (λ u. t ≤ℤ u) ts × IsAscending ts

-- Every request has a timestamp, and none is below an earlier one.
abbrev pub AreTimed : List ReplayRequest → Type 0
AreTimed rs =
    (ts : List ℤ) × (map (λ (r : ReplayRequest). r.timestamp_micros) rs ≡ map some ts)
    × IsAscending ts

ascending_from : (t u : ℤ) (ts : List ℤ) → t ≤ℤ u → All (λ v. u ≤ℤ v) ts → All (λ v. t ≤ℤ v) ts
ascending_from t u [] h a = tt
ascending_from t u (v ∷ ts) h a = (omega (arith, a.0), ascending_from t u ts h a.1)

-- Where the loop goes on from `previous`.
abbrev Bounded : Option ℤ → List ℤ → Type 0
Bounded none ts = Unit {0}
Bounded (some t) ts = All (λ u. t ≤ℤ u) ts

checked_timed :
    (source : TimestampSource) (previous : Option ℤ) (rs : List ReplayRequest)
    → check_timestamps source previous rs ≡ ok tt
    → (ts : List ℤ) × (map (λ (r : ReplayRequest). r.timestamp_micros) rs ≡ map some ts)
      × IsAscending ts
      × Bounded previous ts
unfolding check_timestamps
checked_timed source none [] h = ([], refl, tt, tt)
checked_timed source (some t) [] h = ([], refl, tt, tt)
checked_timed source previous (r ∷ rs) h = elim (Option-cases r.timestamp_micros) [
  | inl e ↦ cc (rw e at h)
  | inr (t, e) ↦ elim (Bool-cases (goes_back previous t)) [
    | inl k ↦ cc (rw (e, k) at h)
    | inr k ↦
        let (ts, q, asc, low) = checked_timed source (some t) rs (rw (e, k) at h) in
        (t ∷ ts, rw (e, q) refl, (low, asc), bounded previous t ts k low)
  ]
]
  where
    bounded :
        (p : Option ℤ) (t : ℤ) (ts : List ℤ)
        → goes_back p t ≡ false
        → All (λ u. t ≤ℤ u) ts
        → Bounded p (t ∷ ts)
    bounded none t ts k low = tt
    bounded (some p) t ts k low = (
      omega (arith, ltb_false→le _ _ k),
      ascending_from p t ts (omega (arith, ltb_false→le _ _ k)) low,
    )

timed_checked :
    (source : TimestampSource) (previous : Option ℤ) (rs : List ReplayRequest) (ts : List ℤ)
    → map (λ (r : ReplayRequest). r.timestamp_micros) rs ≡ map some ts
    → IsAscending ts
    → Bounded previous ts
    → check_timestamps source previous rs ≡ ok tt
unfolding check_timestamps
timed_checked source previous [] ts e asc low = refl
timed_checked source previous (r ∷ rs) [] e asc low = cc
timed_checked source previous (r ∷ rs) (t ∷ ts) e asc low =
    rw (head) (rw (forward previous low) (timed_checked source (some t) rs ts tail asc.1 asc.0))
  where
    head : r.timestamp_micros ≡ some t
    head = cc

    tail : map (λ (x : ReplayRequest). x.timestamp_micros) rs ≡ map some ts
    tail = cc

    forward : (p : Option ℤ) → Bounded p (t ∷ ts) → goes_back p t ≡ false
    forward none b = refl
    forward (some p) b = ground (arith, b.0)

-- The timestamps of a replay pass, for either kind of source, exactly if every request has one and
-- none is below an earlier one.
pub validate_timestamps_iff :
    (rs : List ReplayRequest) (source : TimestampSource)
    → (validate_timestamps rs source ≡ ok tt) ↔ AreTimed rs
unfolding validate_timestamps
validate_timestamps_iff rs source = (
  λ h. let (ts, q, asc, low) = checked_timed source none rs h in (ts, q, asc),
  λ (ts, q, asc). timed_checked source none rs ts q asc tt,
)
