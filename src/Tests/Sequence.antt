-- ===== src/Tests/Sequence.antt =====
-- The order of the requests, on small sequences.
use rload.Prelude.{
  ℕ, zero, suc, ◌%◌, ◌≤◌, ◌<◌, ◌≡◌, refl, some, [], ◌∷◌, arith, ltb, if◌then◌else◌, length, add64,
}
use rload.Config.{shuffle, index, patch}
use rload.Sequence.{
  method_uri_start, method_of, uri_start_of, splitmix64, threshold, bounded, ShuffleState, draw,
  Selection, in_turn, shuffled, new_selection, select,
}
use rload.Sequence.Shuffle.{count, new_selection-shuffle}
use rload.Sequence.Order.{
  method_uri_start_roundtrip, skip, select-in_turn, Accepts, IsSelection, Selects, select-Selects,
}

method_uri_start_roundtrip_example :
    (method_of (method_uri_start patch 6) ≡ some patch)
    × (uri_start_of (method_uri_start patch 6) ≡ 6)
method_uri_start_roundtrip_example = method_uri_start_roundtrip patch 6 (omega arith)

packs_patch : method_uri_start patch 6 ≡ 2147483654
unfolding method_uri_start index
packs_patch = refl

-- The first number that `splitmix64` draws from the seed 0.
draws_first : splitmix64 0 ≡ 0xE220_A839_7B1D_CDAF
unfolding splitmix64
draws_first = refl

-- Up to a bound of two the threshold is 0, so that the first draw is taken.
threshold_two : (bound : ℕ) → 0 < bound → bound ≤ 2 → threshold bound ≡ 0
unfolding threshold
threshold_two zero pos most = absurd (omega arith)
threshold_two (suc zero) pos most = refl
threshold_two (suc (suc zero)) pos most = refl
threshold_two (suc (suc (suc bound))) pos most = absurd (omega arith)

Accepts-two : Accepts 1 2
unfolding draw bounded
Accepts-two = (
  λ r bound pos most.
      let z = threshold_two bound pos most in ((splitmix64 r % bound, splitmix64 r), ground arith),
  λ value bound pos most. let z = threshold_two bound pos most in (value % bound, ground arith),
)

new_selection-shuffle_example :
    (s : ShuffleState) × (new_selection 1 2 shuffle 7 ≡ some (shuffled s))
    × (s.offset ≡ 0)
    × (length s.indices ≡ 2)
    × ((x : ℕ) → count x s.indices ≡ (if ltb x 2 then 1 else 0))
new_selection-shuffle_example = new_selection-shuffle 1 2 7 Accepts-two.0

select-in_turn_example :
    (s : Selection) × (skip 5 3 (in_turn 0) ≡ some s)
    × (select 0 3 s ≡ some (5 % 3, in_turn (add64 5 1)))
select-in_turn_example = select-in_turn 5 3 (omega arith) (omega arith)

abbrev used_up : ShuffleState
used_up = record { indices = 1 ∷ 0 ∷ []; offset = 2; random_state = 9 }

used_up-IsSelection : IsSelection 2 (shuffled used_up)
used_up-IsSelection = (refl, omega arith, omega arith)

select-Selects_example : Selects 2 (select 1 2 (shuffled used_up))
select-Selects_example =
    select-Selects 1 2 (shuffled used_up) (omega arith) Accepts-two used_up-IsSelection
