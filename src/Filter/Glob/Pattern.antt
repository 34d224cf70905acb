-- ===== src/Filter/Glob/Pattern.antt =====
-- What it means that a value matches a whitelist pattern: `*` stands for any text, and each other
-- byte for itself. No search order is in it.
use rload.Prelude.{ℕ, ◌≡◌, ◌≢◌, ◌==◌, inl, inr, Bool-cases, Bytes, [], ◌∷◌, arith}

pub data Matches : Bytes → Bytes → Type 0 where
  done : Matches [] []
  literal : {c d : ℕ} {p v : Bytes} → c ≢ b'*' → c ≡ d → Matches p v → Matches (c ∷ p) (d ∷ v)
  leave : {c : ℕ} {p v : Bytes} → c ≡ b'*' → Matches p v → Matches (c ∷ p) v
  take_one : {c d : ℕ} {p v : Bytes} → c ≡ b'*' → Matches (c ∷ p) v → Matches (c ∷ p) (d ∷ v)

module _ {c d : ℕ} {p v : Bytes} where
  -- A byte that is no star stands for itself only.
  pub literal_inv : Matches (c ∷ p) (d ∷ v) → c ≢ b'*' → (c ≡ d) × Matches p v
  literal_inv (literal n e m) h = (e, m)
  literal_inv (leave s m) h = absurd (h s)
  literal_inv (take_one s m) h = absurd (h s)

  -- A star that does not end here takes a byte.
  pub must_take : Matches (c ∷ p) (d ∷ v) → c ≡ b'*' → ¬ Matches p (d ∷ v) → Matches (c ∷ p) v
  must_take (literal n e m) h no_leave = absurd (n h)
  must_take (leave s m) h no_leave = absurd (no_leave m)
  must_take (take_one s m) h no_leave = m

  -- A byte equal to the pattern's own byte matches, also where that byte is a star.
  pub same : c ≡ d → Matches p v → Matches (c ∷ p) (d ∷ v)
  same e m = elim (Bool-cases (c == b'*')) [
    | inl s ↦ take_one (ground arith) (leave (ground arith) m)
    | inr s ↦ literal (ground arith) e m
  ]

pub not-nil-cons : {d : ℕ} {v : Bytes} → ¬ Matches [] (d ∷ v)
not-nil-cons m = elim m [ ]

pub star_nil : {c : ℕ} {p : Bytes} → Matches (c ∷ p) [] → (c ≡ b'*') × Matches p []
star_nil (leave s m) = (s, m)

-- Two stars in a row are as one.
pub two_stars :
    {c d : ℕ} {p v : Bytes} → Matches (c ∷ d ∷ p) v → c ≡ b'*' → d ≡ b'*' → Matches (d ∷ p) v
two_stars (literal n e m) hc hd = absurd (n hc)
two_stars (leave s m) hc hd = m
two_stars (take_one s m) hc hd = take_one hd (two_stars m hc hd)

-- After a star a literal may as well match its first occurrence.
pub drop_literal :
    {c d e : ℕ} {p : Bytes} (v : Bytes)
    → c ≡ b'*'
    → d ≢ b'*'
    → Matches (c ∷ d ∷ p) (e ∷ v)
    → Matches (c ∷ p) v
drop_literal v hc hd (literal n q m) = absurd (n hc)
drop_literal v hc hd (leave s m) = leave hc (literal_inv m hd).1
drop_literal [] hc hd (take_one s m) = absurd (hd (star_nil (star_nil m).1).0)
drop_literal (e ∷ v) hc hd (take_one s m) = take_one hc (drop_literal v hc hd m)

-- The empty rest of the pattern, after a star, matches everything.
pub star_all : {c : ℕ} (v : Bytes) → c ≡ b'*' → Matches (c ∷ []) v
star_all [] h = leave h done
star_all (d ∷ v) h = take_one h (star_all v h)
