-- ===== src/Filter/Whitelist.antt =====
-- `apply` and `validate` of src/replay_filter.rs.
use rload.Prelude.{
  ℕ, ◌-◌, Bool, true, false, not, ◌&&◌, ◌||◌, none, some, List, [], ◌∷◌, ltb, leb, ◌==◌,
  if◌then◌else◌, Bytes, length, is_empty,
}
use rload.Error.{RunError, text, text_with, invalid_config, Result, ok, err, ◌>>◌, refuse_if}
use rload.Config.{Method, index, ReplayFilter}
use rload.Request.{ReplayRequest}
use rload.Filter.Glob.{glob_matches}

-- `==` on methods: by the discriminant.
abbrev pub method_eq : Method → Method → Bool
method_eq a b = index a == index b

-- `slice.contains(&method)`
unfoldable pub contains_method : Method → List Method → Bool
contains_method m [] = false
contains_method m (x ∷ xs) = method_eq x m || contains_method m xs

-- The glob's answer; without fuel it would be no.
unfoldable pub glob_answer : Bytes → Bytes → Bool
glob_answer pattern value = elim (glob_matches pattern value) [ none ↦ false | some b ↦ b ]

unfoldable pub any_matches : List Bytes → Bytes → Bool
any_matches [] path = false
any_matches (pattern ∷ patterns) path = glob_answer pattern path || any_matches patterns path

-- The closure of `filter`.
unfoldable pub is_allowed : ReplayFilter → ReplayRequest → Bool
is_allowed f r =
    (is_empty f.allowed_methods || contains_method r.method f.allowed_methods)
    && (is_empty f.allowed_uris || any_matches f.allowed_uris r.path)

unfoldable pub retain : ReplayFilter → List ReplayRequest → List ReplayRequest
retain f [] = []
retain f (r ∷ rs) = let rest = retain f rs in if is_allowed f r then r ∷ rest else rest

abbrev pub max_uri_patterns : ℕ
max_uri_patterns = 32

abbrev pub max_pattern_bytes : ℕ
max_pattern_bytes = 256

-- `str.starts_with(byte)`
abbrev pub starts_with_byte : Bytes → ℕ → Bool
starts_with_byte [] byte = false
starts_with_byte (b ∷ bs) byte = b == byte

unfoldable pub is_ascii : Bytes → Bool
is_ascii [] = true
is_ascii (b ∷ bs) = ltb b 128 && is_ascii bs

-- `bytes.any(|byte| byte <= b' ' || byte == b'#')`
unfoldable pub any_forbidden : Bytes → Bool
any_forbidden [] = false
any_forbidden (b ∷ bs) = leb b b' ' || b == b'#' || any_forbidden bs

unfoldable pub is_invalid_pattern : Bytes → Bool
is_invalid_pattern pattern =
    ltb max_pattern_bytes (length pattern)
    || not (starts_with_byte pattern b'/')
    || not (is_ascii pattern)
    || any_forbidden pattern

unfoldable pub validate_patterns : List Bytes → Result RunError (Unit {0})
validate_patterns [] = ok tt
validate_patterns (pattern ∷ patterns) =
    let rest = validate_patterns patterns in
    if is_invalid_pattern pattern
    then err (invalid_config (text_with "invalid allowed URI pattern: " pattern))
    else rest

unfoldable pub validate : ReplayFilter → Result RunError (Unit {0})
validate f = do
  refuse_if (ltb max_uri_patterns (length f.allowed_uris))
      (invalid_config (text "at most 32 allowed URI patterns may be supplied"))
  validate_patterns f.allowed_uris

unfoldable pub apply : List ReplayRequest → ReplayFilter → Result RunError (List ReplayRequest × ℕ)
apply requests f = do
  validate f
  let kept = retain f requests
  refuse_if (is_empty kept) (invalid_config (text "replay whitelist excludes all requests"))
  ok (kept, length requests - length kept)
