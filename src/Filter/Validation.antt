-- ===== src/Filter/Validation.antt =====
-- The whitelist's validation, against a description of the patterns that it lets through.
use rload.Prelude.{
  ℕ, ◌≤◌, ◌<◌, ◌≡◌, refl, ◌≢◌, ◌↔◌, inl, inr, true, false, List, [], ◌∷◌, arith, ltb, tests,
  Bool-cases, Bytes, length, All,
}
use rload.Error.{ok}
use rload.Config.{ReplayFilter}
use rload.Filter.Whitelist.{
  starts_with_byte, is_ascii, any_forbidden, is_invalid_pattern, validate_patterns, validate,
}

-- A pattern that a filter may hold: a slash first, and at most 256 ASCII
-- bytes, all of them above the space and none a `#`.
abbrev pub IsPattern : Bytes → Type 0
IsPattern p =
    (length p ≤ 256)
    × ((q : Bytes) × (p ≡ b'/' ∷ q))
    × All (λ b. (b' ' < b) × (b < 128) × (b ≢ b'#')) p

abbrev IsClean : ℕ → Type 0
IsClean b = (b' ' < b) × (b < 128) × (b ≢ b'#')

IsClean-bytes : (p : Bytes) → is_ascii p ≡ true → any_forbidden p ≡ false → All IsClean p
unfolding is_ascii any_forbidden
IsClean-bytes [] h k = tt
IsClean-bytes (b ∷ p) h k =
    let rest : All IsClean p = IsClean-bytes p (ground arith) (ground arith) in
    ((ground arith, ground arith, ground arith), rest)

ascii_of_clean : (p : Bytes) → All IsClean p → is_ascii p ≡ true
unfolding is_ascii
ascii_of_clean [] h = refl
ascii_of_clean (b ∷ p) h = ground (arith, ascii_of_clean p h.1)

not_forbidden_of_clean : (p : Bytes) → All IsClean p → any_forbidden p ≡ false
unfolding any_forbidden
not_forbidden_of_clean [] h = refl
not_forbidden_of_clean (b ∷ p) h = ground (arith, not_forbidden_of_clean p h.1)

valid-IsPattern_sound : (p : Bytes) → is_invalid_pattern p ≡ false → IsPattern p
unfolding is_invalid_pattern
valid-IsPattern_sound p h =
    (ground arith, slash p (ground arith), IsClean-bytes p (ground arith) (ground arith))
  where
    slash : (q : Bytes) → starts_with_byte q b'/' ≡ true → (r : Bytes) × (q ≡ b'/' ∷ r)
    slash [] e = cc
    slash (b ∷ r) e = (r, ground arith)

valid_pattern_complete : (p : Bytes) → IsPattern p → is_invalid_pattern p ≡ false
unfolding is_invalid_pattern
valid_pattern_complete p (l, (q, e), c) =
    ground (arith, ascii_of_clean p c, not_forbidden_of_clean p c)

validate_patterns_sound : (ps : List Bytes) → validate_patterns ps ≡ ok tt → All IsPattern ps
unfolding validate_patterns
validate_patterns_sound [] h = tt
validate_patterns_sound (p ∷ ps) h = elim (Bool-cases (is_invalid_pattern p)) [
  | inl k ↦ cc (rw k at h)
  | inr k ↦ (valid-IsPattern_sound p k, validate_patterns_sound ps (rw k at h))
]

validate_patterns_complete : (ps : List Bytes) → All IsPattern ps → validate_patterns ps ≡ ok tt
unfolding validate_patterns
validate_patterns_complete [] h = refl
validate_patterns_complete (p ∷ ps) h =
    rw (valid_pattern_complete p h.0) (validate_patterns_complete ps h.1)

-- A filter passes validation exactly if it holds at most 32 patterns, each of at most 256 ASCII
-- bytes that begins with a slash and has no byte up to the space and no number sign; the byte DEL
-- passes.
pub validate_iff :
    (f : ReplayFilter)
    → (validate f ≡ ok tt) ↔ ((length f.allowed_uris ≤ 32) × All IsPattern f.allowed_uris)
unfolding validate
validate_iff f = (
  λ h. elim (Bool-cases (ltb 32 (length f.allowed_uris))) [
    | inl k ↦ cc (rw k at h)
    | inr k ↦ (omega tests, validate_patterns_sound f.allowed_uris (rw k at h))
  ],
  λ (few, patterns). rw (validate_patterns_complete f.allowed_uris patterns) (ground arith),
)
