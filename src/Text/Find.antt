-- ===== src/Text/Find.antt =====
-- `find_bytes` of src/protocol/response.rs: the first position of a needle.
use rload.Prelude.{
  ℕ, suc, ◌+◌, ◌≤◌, ◌≡◌, refl, inl, inr, true, false, Option, none, some, [], ◌∷◌, ◌++◌, arith,
  if◌then◌else◌, Bool-cases, Option-cases, Bytes, length,
}
use rload.Text.Split.{starts_with}

unfoldable pub find_bytes : Bytes → Bytes → Option ℕ
unfolding starts_with
find_bytes needle [] = none
find_bytes needle (b ∷ bs) =
    if starts_with needle (b ∷ bs)
    then some 0
    else elim (find_bytes needle bs) [ none ↦ none | some i ↦ some (suc i) ]

-- A needle that is found stays where it is when the text grows.
pub starts_with-append :
    (needle xs ys : Bytes) → starts_with needle xs ≡ true → starts_with needle (xs ++ ys) ≡ true
unfolding starts_with
starts_with-append [] xs ys h = refl
starts_with-append (n ∷ ns) [] ys h = cc
starts_with-append (n ∷ ns) (x ∷ xs) ys h = ground (arith, starts_with-append ns xs ys)

pub starts_with-long :
    (needle xs ys : Bytes)
    → starts_with needle xs ≡ false
    → length needle ≤ length xs
    → starts_with needle (xs ++ ys) ≡ false
unfolding starts_with
starts_with-long [] xs ys h l = cc
starts_with-long (n ∷ ns) [] ys h l = absurd (omega arith)
starts_with-long (n ∷ ns) (x ∷ xs) ys h l = ground (arith, starts_with-long ns xs ys)

starts_with-length : (needle xs : Bytes) → starts_with needle xs ≡ true → length needle ≤ length xs
unfolding starts_with
starts_with-length [] xs h = omega arith
starts_with-length (n ∷ ns) [] h = cc
starts_with-length (n ∷ ns) (x ∷ xs) h = ground (arith, starts_with-length ns xs)

pub find_bytes-length :
    (needle xs : Bytes) (i : ℕ) → find_bytes needle xs ≡ some i → i + length needle ≤ length xs
unfolding find_bytes
find_bytes-length needle [] i h = cc
find_bytes-length needle (x ∷ xs) i h = elim (Bool-cases (starts_with needle (x ∷ xs))) [
  | inl k ↦ ground (arith, starts_with-length needle (x ∷ xs) k)
  | inr k ↦ elim (Option-cases (find_bytes needle xs)) [
    | inl q ↦ ground arith
    | inr (j, q) ↦ ground (arith, find_bytes-length needle xs j q)
  ]
]

pub find_bytes-append :
    (needle xs ys : Bytes) (i : ℕ)
    → find_bytes needle xs ≡ some i
    → find_bytes needle (xs ++ ys) ≡ some i
unfolding find_bytes
find_bytes-append needle [] ys i h = cc
find_bytes-append needle (x ∷ xs) ys i h = elim (Bool-cases (starts_with needle (x ∷ xs))) [
  | inl k ↦ ground (arith, starts_with-append needle (x ∷ xs) ys k)
  | inr k ↦ elim (Option-cases (find_bytes needle xs)) [
    | inl q ↦ ground arith
    | inr (j, q) ↦ ground (
      arith,
      find_bytes-append needle xs ys j q,
      find_bytes-length needle xs j q,
      starts_with-long needle (x ∷ xs) ys k,
    )
  ]
]
