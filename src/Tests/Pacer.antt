-- ===== src/Tests/Pacer.antt =====
-- The pacers, on a few reservations.
use rload.Prelude.{ℕ, ◌/◌, ◌≤◌, max, ◌≡◌, none, some, List, [], ◌∷◌, replicate, All}
use rload.Config.{ReplayStage}
use rload.Pacer
use rload.Pacer.{Pacer, reserve, StagePacer, boundaries, new_stage_pacer, value_or}
use rload.Pacer.Slots.{
  reserve_all, IsSpaced, AreDue, evenly, reserve_all-IsSpaced, reserve_all-evenly,
}

abbrev four_hertz : Pacer
four_hertz = record { interval = 250_000_000; next = 7 }

reserve_all-IsSpaced_example :
    IsSpaced 250_000_000 (reserve_all four_hertz (0 ∷ 9 ∷ 300_000_000 ∷ []))
    × AreDue (0 ∷ 9 ∷ 300_000_000 ∷ []) (reserve_all four_hertz (0 ∷ 9 ∷ 300_000_000 ∷ []))
    × All (λ t. 7 ≤ t) (reserve_all four_hertz (0 ∷ 9 ∷ 300_000_000 ∷ []))
reserve_all-IsSpaced_example = reserve_all-IsSpaced four_hertz (0 ∷ 9 ∷ 300_000_000 ∷ [])

reserve_all-evenly_example : reserve_all four_hertz (replicate 3 9) ≡ evenly 250_000_000 (max 7 9) 3
reserve_all-evenly_example = reserve_all-evenly four_hertz 9 3

-- Ten slots a second for a quarter of a second, then two.
abbrev two_stages : List ReplayStage
two_stages = record { duration = 250; rate = 10 } ∷ record { duration = 1000; rate = 2 } ∷ []

abbrev ramp_down : StagePacer
ramp_down = record { stages = boundaries 0 two_stages; started = none; next_slot = none }

abbrev milliseconds : ℕ → ℕ
milliseconds rate = 1000 / rate

abbrev after_one : StagePacer
after_one = record ramp_down { started = some 5; next_slot = some 105 }

abbrev after_two : StagePacer
after_two = record ramp_down { started = some 5; next_slot = some 205 }
