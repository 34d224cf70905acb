-- ===== src/Tests/Filter.antt =====
-- Whitelists and their patterns, on small requests.
use rload.Prelude.{
  ◌+◌, ◌≤◌, ◌≡◌, refl, ◌≢◌, ◌↔◌, inl, inr, Bool, true, false, none, some, [], ◌∷◌, ◌++◌, arith,
  Bytes, codes, length, All, Any,
}
use mathlib.Core.List.{Sublist}
use rload.Error.{ok}
use rload.Config.{get, post, ReplayFilter}
use rload.Request.{ReplayRequest}
use rload.Filter.Glob
use rload.Filter.Glob.{glob_matches}
use rload.Filter.Whitelist
use rload.Filter.Glob.Pattern.{Matches}
use rload.Filter.Glob.Step.{HasNoStar}
use rload.Filter.Glob.Correct.{glob_matches_total, glob_matches_sound, glob_matches_iff}
use rload.Filter.Glob.StarLiteral.{glob_matches-star_literal}
use rload.Filter.Whitelist.{apply, validate}
use rload.Filter.Selection.{Permits, apply-ok, apply-keeps}
use rload.Filter.Validation.{validate_iff, IsPattern}

abbrev api : Bytes
api = codes "/api*"

abbrev api_users : Bytes
api_users = codes "/api/u"

abbrev wanted : ReplayRequest
wanted = record { method = get; path = api_users; payload = none; timestamp_micros = none }

abbrev unwanted : ReplayRequest
unwanted = record { method = post; path = api_users; payload = none; timestamp_micros = none }

abbrev only_api : ReplayFilter
only_api = record { allowed_methods = get ∷ []; allowed_uris = api ∷ [] }

users-HasNoStar : HasNoStar api_users
users-HasNoStar = ground arith

api_matches : glob_matches api api_users ≡ some true
unfolding glob_matches Glob.loop Glob.step Glob.backtrack Glob.finish Glob.skip_stars
api_matches = refl

wanted-Permits : Permits only_api wanted
wanted-Permits = (inr (inl refl), inr (inl (glob_matches_sound api api_users api_matches)))

glob_matches_total_example : (answer : Bool) × (glob_matches api api_users ≡ some answer)
glob_matches_total_example = glob_matches_total api api_users

glob_matches_sound_example : Matches api api_users
glob_matches_sound_example = glob_matches_sound api api_users api_matches

glob_matches_iff_example : (glob_matches api api_users ≡ some true) ↔ Matches api api_users
glob_matches_iff_example = glob_matches_iff api api_users users-HasNoStar

glob_matches-star_literal_example :
    (glob_matches (codes "/a" ++ b'*' ∷ []) (codes "/a" ++ b'*' ∷ b'b' ∷ codes "/c") ≡ some false)
    × Matches (codes "/a" ++ b'*' ∷ []) (codes "/a" ++ b'*' ∷ b'b' ∷ codes "/c")
glob_matches-star_literal_example = glob_matches-star_literal (codes "/a") b'b' (codes "/c")

applied : apply (wanted ∷ unwanted ∷ []) only_api ≡ ok (wanted ∷ [], 1)
unfolding apply validate Whitelist.validate_patterns Whitelist.is_invalid_pattern Whitelist.is_ascii
    Whitelist.any_forbidden Whitelist.retain Whitelist.is_allowed Whitelist.contains_method
    rload.Config.index Whitelist.any_matches Whitelist.glob_answer glob_matches Glob.loop Glob.step
    Glob.backtrack Glob.finish Glob.skip_stars
applied = refl

apply-ok_example :
    Sublist (wanted ∷ []) (wanted ∷ unwanted ∷ [])
    × All (Permits only_api) (wanted ∷ [])
    × (wanted ∷ [] ≢ [])
    × (length (wanted ∷ []) + 1 ≡ length (wanted ∷ unwanted ∷ []))
apply-ok_example = apply-ok (wanted ∷ unwanted ∷ []) (wanted ∷ []) only_api 1 applied

apply-keeps_example : Any (λ x. x ≡ wanted) (wanted ∷ [])
apply-keeps_example =
    apply-keeps (wanted ∷ unwanted ∷ []) (wanted ∷ []) only_api 1 wanted applied users-HasNoStar
      wanted-Permits (inl refl)

validate_iff_example :
    (validate only_api ≡ ok tt) ↔ ((length (api ∷ []) ≤ 32) × All IsPattern (api ∷ []))
validate_iff_example = validate_iff only_api
