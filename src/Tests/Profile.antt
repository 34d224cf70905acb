-- ===== src/Tests/Profile.antt =====
-- The checks on a profile, on a small one.
use rload.Prelude.{ℕ, ◌≡◌, refl, ◌↔◌, Bool, true, false, none, some, [], ◌∷◌, ltb, codes, bytes_eq}
use rload.Error.{text, ok, err}
use rload.Text.Chars.{trim_text}
use rload.Profile.{
  Profile, LogReplay, check, default_runner, known_mode, check_option_replay, check_replay,
  check_option_pacing, check_pacing, has_speed, no_rounds, all_stages, has_rate,
}
use rload.Profile.Valid.{IsProfile, check_iff}

-- A speed is a number of hundredths, all of them finite.
abbrev is_finite : ℕ → Bool
is_finite n = true

abbrev is_positive : ℕ → Bool
is_positive n = ltb 0 n

abbrev replay : LogReplay ℕ
replay = record {
  path = codes "access.log";
  format = codes "nginx";
  order = none;
  seed = none;
  rounds = some 2;
  schema = none;
  skip_invalid_records = false;
  pacing = some (record { mode = codes "timestamp"; rate = none; speed = some 50; stages = [] });
  filter = record { allowed_methods = []; allowed_uris = [] };
}

abbrev profile : Profile ℕ
profile = record {
  version = codes "v1";
  target = record { url = codes "http://localhost/" };
  runner = default_runner;
  load_profile = record {
    mode = some (codes "log_replay");
    static_request = none;
    log_replay = some replay;
  };
  observability = record { output_format = none; output_html = none };
  assertions = [];
}

profile_passes : check is_finite is_positive profile ≡ ok tt
unfolding check known_mode check_option_replay check_replay check_option_pacing check_pacing
    has_speed no_rounds all_stages has_rate trim_text bytes_eq
profile_passes = refl

-- A URL of one no-break space is blank.
blank_url_refused :
    check is_finite is_positive (record profile { target = record { url = 0xc2 ∷ 0xa0 ∷ [] } })
    ≡ err (text "profile target.url must not be empty")
unfolding check trim_text bytes_eq
blank_url_refused = refl

check_iff_example :
    (check is_finite is_positive profile ≡ ok tt) ↔ IsProfile is_finite is_positive profile
check_iff_example = check_iff is_finite is_positive profile
