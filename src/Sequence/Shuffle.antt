-- ===== src/Sequence/Shuffle.antt =====
-- A shuffle is a permutation.
use rload.Prelude.{
  ℕ, zero, suc, ◌+◌, ◌-◌, ◌≤◌, ◌<◌, ◌≡◌, refl, ap, ◌∙◌, subst, inl, inr, ◌&&◌, some, List, [], ◌∷◌,
  arith, ltb, leb, ◌==◌, if◌then◌else◌, ==_iff, Bool-cases, length, get_elem?, set, length-set,
  lt-get_some, All,
}
use rload.Config.{shuffle}
use rload.Sequence.{
  splitmix64, threshold, ShuffleState, range_from, new_shuffle, draw, swap, shuffle_down, reshuffle,
  shuffled, new_selection, next,
}
use mathlib.Core.Option.{some-injective}

-- How often a number is in a list.
abbrev pub count : ℕ → List ℕ → ℕ
count x [] = 0
count x (y ∷ l) = (if y == x then 1 else 0) + count x l

abbrev one_if : ℕ → ℕ → ℕ
one_if y x = if y == x then 1 else 0

count-set :
    (x v a : ℕ) (l : List ℕ) (i : ℕ)
    → get_elem? l i ≡ some a
    → count x (set l i v) + one_if a x ≡ count x l + one_if v x
count-set x v a [] i h = cc
count-set x v a (y ∷ l) zero h = let e = some-injective _ _ h in rw e (omega arith)
count-set x v a (y ∷ l) (suc i) h = omega (arith, count-set x v a l i h)

get-set : (b : ℕ) (l : List ℕ) (i j : ℕ) → get_elem? l j ≡ some b → get_elem? (set l i b) j ≡ some b
get-set b [] i j h = h
get-set b (y ∷ l) zero zero h = refl
get-set b (y ∷ l) zero (suc j) h = h
get-set b (y ∷ l) (suc i) zero h = h
get-set b (y ∷ l) (suc i) (suc j) h = get-set b l i j h

-- The same numbers, each as often.
abbrev pub IsPermuted : List ℕ → List ℕ → Type 0
IsPermuted l l' = (length l' ≡ length l) × ((x : ℕ) → count x l' ≡ count x l)

swap-IsPermuted :
    (l : List ℕ) (i j : ℕ)
    → i < length l
    → j < length l
    → (l' : List ℕ) × (swap l i j ≡ some l') × IsPermuted l l'
unfolding swap
swap-IsPermuted l i j hi hj =
    let (a, ea) = lt-get_some l i hi in
    let (b, eb) = lt-get_some l j hj in
    (
      set (set l i b) j a,
      ground arith,
      (
        length-set (set l i b) j a ∙ length-set l i b,
        λ x.
            omega
              (arith, count-set x b a l i ea, count-set x a b (set l i b) j (get-set b l i j eb)),
      ),
    )

draw-lt : (fuel r bound i next : ℕ) → 0 < bound → draw fuel r bound ≡ some (i, next) → i < bound
unfolding draw
draw-lt zero r bound i next pos h = cc
draw-lt (suc fuel) r bound i next pos h = elim (Bool-cases (ltb (splitmix64 r) (threshold bound))) [
  | inl k ↦ draw-lt fuel (splitmix64 r) bound i next pos (rw k at h)
  | inr k ↦
      let e = ap (λ (p : ℕ × ℕ). p.0) (some-injective _ _ (rw k at h)) in
      subst (λ t. t < bound) e (omega arith)
]

-- Draws up to a bound are accepted within the fuel, whatever the random state.
abbrev pub Draws : (fuel most : ℕ) → Type 0
Draws fuel most =
    (r bound : ℕ) → 0 < bound → bound ≤ most → (v : ℕ × ℕ) × (draw fuel r bound ≡ some v)

shuffle_down-IsPermuted :
    (fuel c : ℕ) (l : List ℕ) (r : ℕ)
    → Draws fuel (length l)
    → c ≤ length l - 1
    → (l' : List ℕ) × (r' : ℕ) × (shuffle_down fuel c l r ≡ some (l', r')) × IsPermuted l l'
unfolding shuffle_down
shuffle_down-IsPermuted fuel zero l r draws h = (l, r, refl, (refl, λ x. refl))
shuffle_down-IsPermuted fuel (suc c) l r draws h =
    let ((i, next), drawn) = draws r (suc c + 1) (omega arith) (omega arith) in
    let (l1, swapped, (same_length, same_count)) =
      swap-IsPermuted l (suc c) i (omega arith)
        (omega (arith, draw-lt fuel r (suc c + 1) i next (omega arith) drawn)) in
    let (l2, r2, rest, (length2, count2)) =
      shuffle_down-IsPermuted fuel c l1 next (rw same_length draws)
        (rw same_length (omega arith)) in
    (l2, r2, ground arith, (length2 ∙ same_length, λ x. count2 x ∙ same_count x))

pub reshuffle-IsPermuted :
    (fuel : ℕ) (s : ShuffleState)
    → Draws fuel (length s.indices)
    → (s' : ShuffleState) × (reshuffle fuel s ≡ some s')
      × (s'.offset ≡ 0)
      × IsPermuted s.indices s'.indices
unfolding reshuffle
reshuffle-IsPermuted fuel s draws =
    let (l, r, e, p) =
      shuffle_down-IsPermuted fuel (length s.indices - 1) s.indices s.random_state draws
        (omega arith) in
    reshuffled l r e p
  where
    reshuffled :
        (l : List ℕ) (r : ℕ)
        → shuffle_down fuel (length s.indices - 1) s.indices s.random_state ≡ some (l, r)
        → IsPermuted s.indices l
        → (s' : ShuffleState) × (reshuffle fuel s ≡ some s')
          × (s'.offset ≡ 0)
          × IsPermuted s.indices s'.indices
    reshuffled l r e p =
        (record { indices = l; offset = 0; random_state = r }, ground arith, refl, p)

length-range_from : (first n : ℕ) → length (range_from first n) ≡ n
unfolding range_from
length-range_from first zero = refl
length-range_from first (suc n) = omega (arith, length-range_from (first + 1) n)

count-range_from :
    (x first n : ℕ)
    → count x (range_from first n) ≡ (if leb first x && ltb x (first + n) then 1 else 0)
unfolding range_from
count-range_from x first zero = ground arith
count-range_from x first (suc n) = ground (arith, count-range_from x (first + 1) n)

-- If draws up to n are accepted within the fuel, making a shuffled selection of n requests
-- succeeds, at offset 0, and its list holds n indices, each number below n once and no other.
pub new_selection-shuffle :
    (fuel n seed : ℕ)
    → Draws fuel n
    → (s : ShuffleState) × (new_selection fuel n shuffle seed ≡ some (shuffled s))
      × (s.offset ≡ 0)
      × (length s.indices ≡ n)
      × ((x : ℕ) → count x s.indices ≡ (if ltb x n then 1 else 0))
unfolding new_selection new_shuffle
new_selection-shuffle fuel n seed draws =
    let (s, e, start, (same_length, same_count)) =
      reshuffle-IsPermuted fuel (new_shuffle n seed) (rw (length-range_from 0 n) draws) in
    (
      s,
      ground arith,
      start,
      same_length ∙ length-range_from 0 n,
      λ x. ground (arith, same_count x, count-range_from x 0 n),
    )

count-member : (x : ℕ) (l : List ℕ) (i : ℕ) → get_elem? l i ≡ some x → 0 < count x l
count-member x [] i h = cc
count-member x (y ∷ l) zero h = let e = some-injective _ _ h in ground arith
count-member x (y ∷ l) (suc i) h = omega (arith, count-member x l i h)

member-count : (n x : ℕ) (l : List ℕ) → 0 < count x l → All (λ y. y < n) l → x < n
member-count n x [] h a = absurd (omega arith)
member-count n x (y ∷ l) h a = elim (Bool-cases (y == x)) [
  | inl k ↦ subst (λ t. t < n) ((==_iff y x).0 k) a.0
  | inr k ↦ member-count n x l (ground arith) a.1
]

All-of_gets :
    (n : ℕ) (l : List ℕ) → ((i x : ℕ) → get_elem? l i ≡ some x → x < n) → All (λ y. y < n) l
All-of_gets n [] h = tt
All-of_gets n (y ∷ l) h = (h 0 y refl, All-of_gets n l (λ i x e. h (suc i) x e))

-- A permutation holds no number that is not below the same bound.
pub All-IsPermuted :
    (n : ℕ) (l l' : List ℕ) → IsPermuted l l' → All (λ y. y < n) l → All (λ y. y < n) l'
All-IsPermuted n l l' p a =
    All-of_gets n l'
      (λ i x e. let c = p.1 x in member-count n x l (omega (arith, count-member x l' i e)) a)
