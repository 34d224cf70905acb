-- ===== src/Sequence/Order.antt =====
-- Packing a method with the start of its URI, and the index of the next request.
use mathlib.Core.Option.{some-injective}
use rload.Sequence.Shuffle.{Draws, reshuffle-IsPermuted, All-IsPermuted}
use rload.Prelude.Bits.{pack_lem, mask_lem}
use rload.Prelude.{
  ℕ, zero, suc, ◌+◌, ◌*◌, ◌/◌, ◌%◌, ◌^◌, ◌≤◌, ◌<◌, ◌≡◌, refl, ◌∙◌, subst, inl, inr, Option, none,
  some, arith, ltb, ◌==◌, Bool-cases, length, get_elem?, lt-get_some, All, All-get, u64_mod, add64,
}
use rload.Config.{Method, index, all_methods, get}
use rload.Sequence.{
  method_uri_start, method_of, uri_start_of, splitmix64, threshold, bounded, ShuffleState,
  take_next, next_shuffled, Selection, in_turn, at_random, shuffled, select, next,
}

index-lt : (m : Method) → index m < 7
unfolding index
index-lt get = omega arith
index-lt m = omega arith

method_at : (m : Method) → get_elem? all_methods (index m) ≡ some m
unfolding index
method_at get = refl
method_at m = refl

packed : (m : Method) (s : ℕ) → s < 2 ^ 29 → method_uri_start m s ≡ index m * 2 ^ 29 + s
unfolding method_uri_start
packed m s h =
    let high : index m * 2 ^ 29 % 2 ^ 32 ≡ index m * 2 ^ 29 = omega (arith, index-lt m) in
    let low : s % 2 ^ 32 ≡ s = omega arith in rw (high, low) (pack_lem 29 (index m) s h)

-- A method and a start of a URI below 2^29, packed into one word, are taken out of it again.
pub method_uri_start_roundtrip :
    (m : Method) (s : ℕ)
    → s < 2 ^ 29
    → (method_of (method_uri_start m s) ≡ some m) × (uri_start_of (method_uri_start m s) ≡ s)
unfolding method_of uri_start_of
method_uri_start_roundtrip m s h =
    let high : (index m * 2 ^ 29 + s) / 2 ^ 29 ≡ index m = omega arith in
    rw (packed m s h) (rw high (method_at m), mask_lem 29 (index m) s h)

-- What `next` finds: requests, and positions among them.
abbrev pub IsSelection : (count : ℕ) → Selection → Type 0
IsSelection count (in_turn next) = Unit {0}
IsSelection count (at_random next seed) = Unit {0}
IsSelection count (shuffled s) =
    (length s.indices ≡ count) × (s.offset ≤ count) × All (λ i. i < count) s.indices

-- The i-th of the indices, taken in turn.
unfoldable pub skip : (rounds count : ℕ) → Selection → Option Selection
skip zero count s = some s
skip (suc rounds) count s = elim (select 0 count s) [
  | none ↦ none
  | some (i, s') ↦ skip rounds count s'
]

skip-in_turn :
    (rounds count next : ℕ)
    → 0 < count
    → next + rounds < u64_mod
    → skip rounds count (in_turn next) ≡ some (in_turn (next + rounds))
unfolding skip select
skip-in_turn zero count next pos small = ground arith
skip-in_turn (suc rounds) count next pos small =
    ground (arith, skip-in_turn rounds count (next + 1))

-- For a positive count of requests, after any number below 2^64 of selections in turn from the
-- start, the next index is that number modulo the count.
pub select-in_turn :
    (rounds count : ℕ)
    → 0 < count
    → rounds < u64_mod
    → (s : Selection) × (skip rounds count (in_turn 0) ≡ some s)
      × (select 0 count s ≡ some (rounds % count, in_turn (add64 rounds 1)))
unfolding select
select-in_turn rounds count pos small =
    (in_turn rounds, ground (arith, skip-in_turn rounds count 0), ground arith)

bounded-lt : (fuel r bound i : ℕ) → 0 < bound → bounded fuel r bound ≡ some i → i < bound
unfolding bounded
bounded-lt zero r bound i pos h = cc
bounded-lt (suc fuel) r bound i pos h = elim (Bool-cases (ltb r (threshold bound))) [
  | inl k ↦ bounded-lt fuel (splitmix64 r) bound i pos (rw k at h)
  | inr k ↦ subst (λ t. t < bound) (some-injective _ _ (rw k at h)) (omega arith)
]

-- Draws of either kind are accepted within the fuel.
abbrev pub Accepts : (fuel most : ℕ) → Type 0
Accepts fuel most =
    Draws fuel most
    × ((value bound : ℕ) → 0 < bound → bound ≤ most → (i : ℕ) × (bounded fuel value bound ≡ some i))

-- The result of `select`: an index among the requests, and a selection among them.
abbrev pub Selects : (count : ℕ) → Option (ℕ × Selection) → Type 0
Selects count none = ⊥
Selects count (some (i, s)) = (i < count) × IsSelection count s

took :
    (count : ℕ) (s : ShuffleState)
    → s.offset < length s.indices
    → IsSelection count (shuffled s)
    → (i : ℕ) × (take_next s ≡ some (i, record s { offset = s.offset + 1 })) × (i < count)
unfolding take_next
took count s h v =
    let (i, e) = lt-get_some s.indices s.offset h in
    (i, ground arith, All-get (λ j. j < count) s.indices s.offset i v.2 e)

next_shuffled-Selects :
    (fuel count : ℕ) (s : ShuffleState)
    → 0 < count
    → Draws fuel count
    → IsSelection count (shuffled s)
    → (i : ℕ) × (s' : ShuffleState) × (next_shuffled fuel s ≡ some (i, s'))
      × (i < count)
      × IsSelection count (shuffled s')
unfolding next_shuffled
next_shuffled-Selects fuel count s pos draws v = elim (Bool-cases (s.offset == length s.indices)) [
  | inl k ↦
      let (s', e, start, p) = reshuffle-IsPermuted fuel s (rw v.0 draws) in
      let v' : IsSelection count (shuffled s') =
        (p.0 ∙ v.0, omega (arith, start), All-IsPermuted count s.indices s'.indices p v.2) in
      let (i, t, lt) = took count s' (omega (arith, start, v'.0)) v' in
      (
        i,
        record s' { offset = s'.offset + 1 },
        ground arith,
        lt,
        (v'.0, omega (arith, start), v'.2),
      )
  | inr k ↦
      let (i, t, lt) = took count s (ground arith) v in
      (i, record s { offset = s.offset + 1 }, ground arith, lt, (v.0, ground arith, v.2))
]

-- For a positive count of requests, if draws up to the count are accepted within the fuel,
-- selecting from a selection among them gives an index below the count and a selection among them.
pub select-Selects :
    (fuel count : ℕ) (s : Selection)
    → 0 < count
    → Accepts fuel count
    → IsSelection count s
    → Selects count (select fuel count s)
unfolding select
select-Selects fuel count (in_turn next) pos accepts v = ground arith
select-Selects fuel count (at_random next seed) pos accepts v =
    let (i, e) = accepts.1 (splitmix64 (add64 seed next)) count pos (omega arith) in
    let lt = bounded-lt fuel _ count i pos e in ground arith
select-Selects fuel count (shuffled s) pos accepts v =
    let (i, s', e, lt, v') = next_shuffled-Selects fuel count s pos accepts.0 v in ground arith
