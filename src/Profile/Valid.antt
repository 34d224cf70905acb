-- ===== src/Profile/Valid.antt =====
-- Which profiles pass the checks.
use rload.Prelude.{
  ℕ, ◌<◌, String, ◌≡◌, refl, sym, ap, ◌∙◌, subst, ◌≢◌, ◌↔◌, ◌⊎◌, inl, inr, Bool, true, false, not,
  ◌&&◌, ◌||◌, Option, none, some, List, [], ◌∷◌, arith, ltb, ◌==◌, ltb→lt, lt→ltb, ==_iff,
  Bool-cases, &&_true, or_sound, or_complete, Bytes, codes, is_empty, bytes_eq, bytes_eq_sound,
  bytes_eq_refl, All,
}
use rload.Error.{ok}
use rload.Text.Chars.{trim_text}
use rload.Text.Blank.{IsBlank, trim_text-IsBlank_sound, trim_text-IsBlank_complete}
use rload.Profile.{
  PacingStage, Pacing, LogReplay, Profile, is_text, option_is_text, is_none, all_stages, has_rate,
  known_mode, no_rounds, has_speed, check_pacing, check_option_pacing, check_replay,
  check_option_replay, check,
}

-- A test for a statement, and tests joined.
abbrev Tells : Bool → Type 0 → Type 0
Tells b P = (b ≡ true) ↔ P

or_iff : {P Q : Type 0} (a b : Bool) → Tells a P → Tells b Q → Tells (a || b) (P ⊎ Q)
or_iff a b p q = (or_sound a b p.0 q.0, or_complete a b p.1 q.1)

and_iff : {P Q : Type 0} (a b : Bool) → Tells a P → Tells b Q → Tells (a && b) (P × Q)
and_iff a b p q =
    (λ h. (p.0 (&&_true a b h).0, q.0 (&&_true a b h).1), λ h. rw (p.1 h.0, q.1 h.1) refl)

is_text_iff : (bytes : Bytes) (s : String) → Tells (is_text bytes s) (bytes ≡ codes s)
is_text_iff bytes s = (
  bytes_eq_sound bytes (codes s),
  λ e. subst (λ x. bytes_eq x (codes s) ≡ true) (sym e) (bytes_eq_refl (codes s)),
)

filled_iff : {A : Type 0} (l : List A) → Tells (not (is_empty l)) (l ≢ [])
filled_iff [] = (λ h. cc, λ h. absurd (h refl))
filled_iff (x ∷ l) = (λ h. λ e. cc, λ h. refl)

-- The test that a text is not blank.
not-IsBlank_iff : (text : Bytes) → Tells (not (is_empty (trim_text text))) (¬ IsBlank text)
not-IsBlank_iff text = (
  λ h. λ k. (filled_iff (trim_text text)).0 h (trim_text-IsBlank_complete text k),
  λ h. (filled_iff (trim_text text)).1 (λ e. h (trim_text-IsBlank_sound text e)),
)

positive_iff : (n : ℕ) → Tells (ltb 0 n) (0 < n)
positive_iff n = (ltb→lt 0 n, lt→ltb 0 n)

abbrev pub ForSome : {A : Type 0} → (A → Type 0) → Option A → Type 0
ForSome P none = ⊥
ForSome P (some a) = P a

abbrev pub IfAny : {A : Type 0} → (A → Type 0) → Option A → Type 0
IfAny P none = Unit {0}
IfAny P (some a) = P a

abbrev pub IsStages : List PacingStage → Type 0
IsStages ss = All (λ s. (0 < s.target_rps) × (¬ IsBlank s.duration)) ss

all_stages_iff : (ss : List PacingStage) → Tells (all_stages ss) (IsStages ss)
unfolding all_stages
all_stages_iff [] = (λ h. tt, λ h. refl)
all_stages_iff (s ∷ ss) =
    and_iff _ _ (and_iff _ _ (positive_iff s.target_rps) (not-IsBlank_iff s.duration))
      (all_stages_iff ss)

has_rate_iff : (r : Option ℕ) → Tells (has_rate r) (ForSome (λ n. 0 < n) r)
unfolding has_rate
has_rate_iff none = (λ h. cc, λ h. absurd h)
has_rate_iff (some n) = positive_iff n

-- A mode that is known, with the part of the profile that it asks for.
abbrev pub IsMode : Option Bytes → (static_request log_replay : Bool) → Type 0
IsMode none s l = Unit {0}
IsMode (some mode) s l =
    ((mode ≡ codes "static") × (s ≡ true)) ⊎ ((mode ≡ codes "log_replay") × (l ≡ true))

-- The three checks on the mode; the last two arguments say that a part is missing.
ModePasses : Option Bytes → (no_static no_replay : Bool) → Type 0
ModePasses m a b =
    (known_mode m ≡ ok tt)
    × ((option_is_text m "static" && a) ≡ false)
    × ((option_is_text m "log_replay" && b) ≡ false)

other_mode : codes "static" ≢ codes "log_replay"
other_mode = ground arith

ModePasses-IsMode : (m : Option Bytes) (a b : Bool) → ModePasses m a b ↔ IsMode m (not a) (not b)
unfolding known_mode ModePasses
ModePasses-IsMode none a b = (λ h. tt, λ h. (refl, refl, refl))
ModePasses-IsMode (some m) a b = (
  λ h. elim (Bool-cases (is_text m "static")) [
    | inl x ↦ inl ((is_text_iff m "static").0 x, ground arith)
    | inr x ↦ inr ((is_text_iff m "log_replay").0 (ground arith), ground arith)
  ],
  λ h. elim h [
    | inl q ↦ elim (Bool-cases (is_text m "log_replay")) [
      | inl y ↦ absurd (other_mode (sym q.0 ∙ (is_text_iff m "log_replay").0 y))
      | inr y ↦ let x = (is_text_iff m "static").1 q.0 in ground arith
    ]
    | inr q ↦ elim (Bool-cases (is_text m "static")) [
      | inl y ↦ absurd (other_mode (sym ((is_text_iff m "static").0 y) ∙ q.0))
      | inr y ↦ let x = (is_text_iff m "log_replay").1 q.0 in ground arith
    ]
  ],
)

no_rounds_iff : (r : Option ℕ) → (no_rounds r ≡ false) ↔ (r ≢ some 0)
unfolding no_rounds
no_rounds_iff none = (λ h. λ e. cc, λ h. refl)
no_rounds_iff (some n) = (
  λ h. λ e. ground arith,
  λ h. elim (Bool-cases (n == 0)) [ inl k ↦ absurd (h (ap some ((==_iff n 0).0 k))) | inr k ↦ k ],
)

module _ {Float : Type 0} (is_finite is_positive : Float → Bool) where
  abbrev pub IsPacing : Pacing Float → Type 0
  IsPacing p =
      (p.mode ≡ codes "none")
      ⊎ ((p.mode ≡ codes "rate") × ForSome (λ n. 0 < n) p.rate)
      ⊎ ((p.mode ≡ codes "timestamp")
          × IfAny (λ f. (is_finite f ≡ true) × (is_positive f ≡ true)) p.speed)
      ⊎ ((p.mode ≡ codes "stages") × ((p.stages ≢ []) × IsStages p.stages))

  has_speed_iff :
      (o : Option Float)
      → Tells
          (has_speed is_finite is_positive o)
          (IfAny (λ f. (is_finite f ≡ true) × (is_positive f ≡ true)) o)
  unfolding has_speed
  has_speed_iff none = (λ h. tt, λ h. refl)
  has_speed_iff (some f) = and_iff _ _ (λ h. h, λ h. h) (λ h. h, λ h. h)

  pacing_test : Pacing Float → Bool
  pacing_test p =
      is_text p.mode "none"
      || ((is_text p.mode "rate" && has_rate p.rate)
          || ((is_text p.mode "timestamp" && has_speed is_finite is_positive p.speed)
              || (is_text p.mode "stages" && (not (is_empty p.stages) && all_stages p.stages))))

  passes-pacing_test :
      (p : Pacing Float) → (check_pacing is_finite is_positive p ≡ ok tt) ↔ (pacing_test p ≡ true)
  unfolding check_pacing pacing_test
  passes-pacing_test p = (λ h. ground arith, λ h. ground arith)

  check_pacing_iff :
      (p : Pacing Float) → (check_pacing is_finite is_positive p ≡ ok tt) ↔ IsPacing p
  unfolding pacing_test
  check_pacing_iff p =
      let t = passes-pacing_test p in
      let r = or_iff _ _ (is_text_iff p.mode "none") (
        or_iff _ _ (and_iff _ _ (is_text_iff p.mode "rate") (has_rate_iff p.rate)) (
          or_iff _ _ (and_iff _ _ (is_text_iff p.mode "timestamp") (has_speed_iff p.speed)) (
            and_iff _ _ (is_text_iff p.mode "stages")
              (and_iff _ _ (filled_iff p.stages) (all_stages_iff p.stages))))) in
      (λ h. r.0 (t.0 h), λ h. t.1 (r.1 h))

  pub record IsReplay (r : LogReplay Float) : Type 0 where
    pub path : ¬ IsBlank r.path
    pub format : (r.format ≡ codes "nginx") ⊎ (r.format ≡ codes "jsonl")
    pub rounds : r.rounds ≢ some 0
    pub pacing : IfAny IsPacing r.pacing

  pub record IsProfile (p : Profile Float) : Type 0 where
    pub version : p.version ≡ codes "v1"
    pub url : ¬ IsBlank p.target.url
    pub mode :
        IsMode p.load_profile.mode
          (not (is_none p.load_profile.static_request))
          (not (is_none p.load_profile.log_replay))
    pub replay : IfAny IsReplay p.load_profile.log_replay

  check_option_pacing_iff :
      (o : Option (Pacing Float))
      → (check_option_pacing is_finite is_positive o ≡ ok tt) ↔ IfAny IsPacing o
  unfolding check_option_pacing
  check_option_pacing_iff none = (λ h. tt, λ h. refl)
  check_option_pacing_iff (some p) = check_pacing_iff p

  check_replay_iff :
      (r : LogReplay Float) → (check_replay is_finite is_positive r ≡ ok tt) ↔ IsReplay r
  unfolding check_replay
  check_replay_iff r = (
    λ h. record {
      path = (not-IsBlank_iff r.path).0 (ground arith);
      format =
          (or_iff _ _ (is_text_iff r.format "nginx") (is_text_iff r.format "jsonl")).0
            (ground arith);
      rounds = (no_rounds_iff r.rounds).0 (ground arith);
      pacing = (check_option_pacing_iff r.pacing).0 (ground arith);
    },
    λ h.
        let a = (not-IsBlank_iff r.path).1 h.path in
        let b =
          (or_iff _ _ (is_text_iff r.format "nginx") (is_text_iff r.format "jsonl")).1 h.format in
        let c = (no_rounds_iff r.rounds).1 h.rounds in
        let d = (check_option_pacing_iff r.pacing).1 h.pacing in ground arith,
  )

  check_option_replay_iff :
      (o : Option (LogReplay Float))
      → (check_option_replay is_finite is_positive o ≡ ok tt) ↔ IfAny IsReplay o
  unfolding check_option_replay
  check_option_replay_iff none = (λ h. tt, λ h. refl)
  check_option_replay_iff (some r) = check_replay_iff r

  -- For any float tests, the checks of a profile pass exactly if its version is v1, its URL is not
  -- blank, its mode, if it has one, is static or log_replay with the part that it names, and its
  -- log replay, if it has one, has a path that is not blank, the format nginx or jsonl, no zero
  -- rounds, and a pacing that is none, a positive rate, a finite positive speed if any, or non-
  -- empty stages of positive rates and durations that are not blank. A blank text is one whose
  -- UTF-8 characters are all whitespace.
  pub check_iff : (p : Profile Float) → (check is_finite is_positive p ≡ ok tt) ↔ IsProfile p
  unfolding check ModePasses
  check_iff p = (
    λ h. record {
      version = (is_text_iff p.version "v1").0 (ground arith);
      url = (not-IsBlank_iff p.target.url).0 (ground arith);
      mode = (ModePasses-IsMode p.load_profile.mode _ _).0 (ground arith);
      replay = (check_option_replay_iff p.load_profile.log_replay).0 (ground arith);
    },
    λ h.
        let a = (is_text_iff p.version "v1").1 h.version in
        let b = (not-IsBlank_iff p.target.url).1 h.url in
        let c = (ModePasses-IsMode p.load_profile.mode _ _).1 h.mode in
        let d = (check_option_replay_iff p.load_profile.log_replay).1 h.replay in ground arith,
  )
