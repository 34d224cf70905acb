-- ===== src/Filter/Glob/Step.antt =====
-- One round of the glob loop, seen on the rests of the pattern and of the value.
use rload.Prelude.{
  ℕ, ◌+◌, ◌≡◌, ◌≢◌, inl, inr, Bytes, ◌∷◌, true, false, Option, some, arith, get_elem?, drop,
  drop-get_some, drop-get_none, Bool-cases, Option-cases, All,
}
use rload.Filter.Glob.{Cursor, is_at, step, backtrack}
use rload.Filter.Glob.Pattern.{Matches, literal_inv, not-nil-cons}

-- No byte of the text is a star.
abbrev pub HasNoStar : Bytes → Type 0
HasNoStar = All (λ b. b ≢ b'*')

pub is_at→get : (xs : Bytes) (i b : ℕ) → is_at xs i b ≡ true → get_elem? xs i ≡ some b
is_at→get xs i b h = ground arith

pub is_at→drop : (xs : Bytes) (i b : ℕ) → is_at xs i b ≡ true → drop i xs ≡ b ∷ drop (i + 1) xs
is_at→drop xs i b h = drop-get_some xs i b (is_at→get xs i b h)

-- The branches of a round, for any property of its result.
pub step_cases {ℓ} :
    (Q : Option Cursor → Type ℓ) (pattern : Bytes) (byte : ℕ) (c : Cursor)
    → (is_at pattern c.pattern_index byte ≡ true
        → Q (
            some
              (record c { pattern_index = c.pattern_index + 1; value_index = c.value_index + 1 })))
    → (is_at pattern c.pattern_index b'*' ≡ true
        → Q (
            some (record c {
              star = some c.pattern_index;
              pattern_index = c.pattern_index + 1;
              retry_value = c.value_index;
            })))
    → (is_at pattern c.pattern_index byte ≡ false
        → is_at pattern c.pattern_index b'*' ≡ false
        → Q (backtrack c c.star))
    → Q (step pattern byte c)
unfolding step
step_cases Q pattern byte c same_byte at_star other =
    elim (Bool-cases (is_at pattern c.pattern_index byte)) [
      | inl e ↦ rw e (same_byte e)
      | inr e ↦ rw e (elim (Bool-cases (is_at pattern c.pattern_index b'*')) [
        | inl s ↦ rw s (at_star s)
        | inr s ↦ rw s (other e s)
      ])
    ]

-- Where neither of the first two branches is taken, the rests do not match.
pub no_match :
    (pattern : Bytes) (i byte : ℕ) (v : Bytes)
    → is_at pattern i byte ≡ false
    → is_at pattern i b'*' ≡ false
    → ¬ Matches (drop i pattern) (byte ∷ v)
no_match pattern i byte v e s = elim (Option-cases (get_elem? pattern i)) [
  | inl h ↦ rw (drop-get_none pattern i h) not-nil-cons
  | inr (x, h) ↦
      rw (drop-get_some pattern i x h)
        (λ m. absurd (other_byte x h (literal_inv m (not_star x h)).0))
]
  where
    not_star : (x : ℕ) → get_elem? pattern i ≡ some x → x ≢ b'*'
    not_star x h q = ground arith

    other_byte : (x : ℕ) → get_elem? pattern i ≡ some x → x ≢ byte
    other_byte x h q = ground arith
