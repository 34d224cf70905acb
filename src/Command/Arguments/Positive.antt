-- ===== src/Command/Arguments/Positive.antt =====
-- Settings that a run can use: what every command line that is taken leads to.
use rload.Prelude.{
  ℕ, zero, suc, ◌≤◌, ◌<◌, String, ◌≡◌, refl, ◌≢◌, ◌⊎◌, inl, inr, Bool, Option, none, some, List, [],
  ◌∷◌, arith, if◌then◌else◌, Bytes, codes, length, bytes_eq, All,
}
use rload.Error.{Message, Result, ok, err}
use rload.Config.{ReplayStage}
use rload.Command.Values.{
  parse_duration, scale, parse_stage, parse_each, parse_stages, comma_separated, split_attached,
}
use rload.Command.Arguments

abbrev IfAny : (ℕ → Type 0) → Option ℕ → Type 0
IfAny P none = Unit {0}
IfAny P (some n) = P n

abbrev pub AreStages : List ReplayStage → Type 0
AreStages ss = All (λ s. (0 < s.duration) × (0 < s.rate)) ss

Result-cases :
    {A : Type 0} (r : Result Message A) → ((e : Message) × (r ≡ err e)) ⊎ ((a : A) × (r ≡ ok a))
Result-cases (err e) = inl (e, refl)
Result-cases (ok a) = inr (a, refl)

parse_duration-pos : (value : Bytes) (n : ℕ) → parse_duration value ≡ ok n → 0 < n
unfolding parse_duration scale
parse_duration-pos value n h = ground arith

parse_stage-pos :
    (name value : Bytes) (s : ReplayStage)
    → parse_stage name value ≡ ok s
    → (0 < s.duration) × (0 < s.rate)
unfolding parse_stage
parse_stage-pos name value s h = ground arith

parse_each-pos :
    (name : Bytes) (vs : List Bytes) (ss : List ReplayStage)
    → parse_each name vs ≡ ok ss
    → AreStages ss
unfolding parse_each
parse_each-pos name [] [] h = tt
parse_each-pos name [] (s ∷ ss) h = ground arith
parse_each-pos name (v ∷ vs) [] h = tt
parse_each-pos name (v ∷ vs) (s ∷ ss) h =
    (parse_stage-pos name v s (ground arith), parse_each-pos name vs ss (ground arith))

parse_stages-pos :
    (value option : Bytes) (ss : List ReplayStage)
    → parse_stages value option ≡ ok ss
    → AreStages ss
unfolding parse_stages
parse_stages-pos value option ss h = elim (Result-cases (comma_separated value option)) [
  | inl (e, k) ↦ ground arith
  | inr (values, k) ↦
      parse_each-pos
        (if bytes_eq option (codes "--replay-stages")
          then codes "replay stage"
          else codes "rate stage")
        values ss (ground arith)
]

take_value-length :
    (att : Option Bytes) (args : List Bytes) (m : String) (p : Bytes × List Bytes)
    → Arguments.take_value att args m ≡ ok p
    → length p.1 ≤ length args
unfolding Arguments.take_value
take_value-length (some x) args m p h = ground arith
take_value-length none [] m p h = cc
take_value-length none (a ∷ args) m p h = ground arith

positive-pos : (m z : String) (value : Bytes) (n : ℕ) → Arguments.positive m z value ≡ ok n → 0 < n
unfolding Arguments.positive
positive-pos m z value n h = ground arith

module _ {Float : Type 0} where
  pub record IsPositive (s : Arguments.Settings Float) : Type 0 where
    pub requests : 0 < s.requests
    pub connections : 0 < s.connections
    pub threads : 0 < s.threads
    pub timeout : 0 < s.timeout
    pub duration : s.duration ≢ some 0
    pub replay_rate : s.replay_rate ≢ some 0
    pub replay_rounds : s.replay_rounds ≢ some 0
    pub stages : AreStages s.stages

  module _ (parse_f64 : Bytes → Option Float) (is_finite is_at_most_zero : Float → Bool) where
    take_arm-IsPositive :
        (arm : Arguments.Arm) (a : Bytes) (att : Option Bytes) (args : List Bytes)
        (s s' : Arguments.Settings Float) (rest : List Bytes)
        → IsPositive s
        → Arguments.take_arm parse_f64 is_finite is_at_most_zero arm a att args s
          ≡ ok (Arguments.going s' rest)
        → IsPositive s' × (length rest ≤ length args)
    unfolding Arguments.take_arm
    take_arm-IsPositive Arguments.on_profile a att args s s' rest p h =
        grind (arith, take_value-length)
    take_arm-IsPositive arm a att args s s' rest p h =
        grind (arith, take_value-length, positive-pos, parse_duration-pos, parse_stages-pos)

    -- The loop ends, by an error, with the help, or with settings that a run can use.
    abbrev pub Usable : Option (Result Message (Option (Arguments.Settings Float))) → Type 0
    Usable none = ⊥
    Usable (some (err e)) = Unit {0}
    Usable (some (ok none)) = Unit {0}
    Usable (some (ok (some s))) = IsPositive s

    -- If the fuel is at least the number of arguments, the loop over them, from settings that a
    -- run can use, ends with an error, with the help, or with settings that a run can use: the
    -- counts of requests, connections and threads and the timeout are positive, and so are a
    -- duration, a rate and a number of rounds that are given, and the duration and rate of every
    -- stage.
    pub take_all-Usable :
        (fuel : ℕ) (args : List Bytes) (s : Arguments.Settings Float)
        → length args ≤ fuel
        → IsPositive s
        → Usable (Arguments.take_all parse_f64 is_finite is_at_most_zero fuel args s)
    unfolding Arguments.take_all
    take_all-Usable zero [] s fits p = p
    take_all-Usable (suc fuel) [] s fits p = p
    take_all-Usable zero (a ∷ args) s fits p = absurd (omega arith)
    take_all-Usable (suc fuel) (a ∷ args) s fits p =
        let (argument, att) = split_attached a in
        elim (Result-cases (
          Arguments.take_arm parse_f64 is_finite is_at_most_zero (Arguments.arm_of argument)
            argument att args s)) [
              | inl (e, k) ↦ ground arith
              | inr (Arguments.helped, k) ↦ ground arith
              | inr (Arguments.going s' rest, k) ↦
                  let kept =
                    take_arm-IsPositive (Arguments.arm_of argument) argument att args s s' rest p
                      k in
                  let rest_usable = take_all-Usable fuel rest s' (omega (arith, kept.1)) kept.0 in
                  ground arith
            ]
