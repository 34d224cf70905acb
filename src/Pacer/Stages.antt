-- ===== src/Pacer/Stages.antt =====
-- The slots of rate stages.
use rload.Prelude.{ℕ, ◌+◌, ◌≤◌, ◌<◌, min, ◌≡◌, Option, none, some, List, [], ◌∷◌}
use rload.Config.{ReplayStage}
use rload.Pacer.{Boundary}

-- The rate of stages that begin at `from`, at a moment of the run that is not before, and the end of the
-- stage it lies in. The end of a stage belongs to the next one, and past the last one its rate stays.
pub data IsAt : (from moment : ℕ) → List ReplayStage → (rate : ℕ) → (end : Option ℕ) → Type 0 where
  within :
      {from moment rate : ℕ} {end : Option ℕ} {ss : List ReplayStage} (s : ReplayStage)
      → moment < from + s.duration
      → rate ≡ s.rate
      → end ≡ some (from + s.duration)
      → IsAt from moment (s ∷ ss) rate end
  later :
      {from moment rate : ℕ} {end : Option ℕ} {ss : List ReplayStage} (s : ReplayStage)
      → from + s.duration ≤ moment
      → IsAt (from + s.duration) moment ss rate end
      → IsAt from moment (s ∷ ss) rate end
  past :
      {from moment rate : ℕ} {end : Option ℕ} {ss : List ReplayStage} (s : ReplayStage)
      → from + s.duration ≤ moment
      → ss ≡ []
      → rate ≡ s.rate
      → end ≡ none
      → IsAt from moment (s ∷ ss) rate end

-- What was found, with the end counted from the start of the run.
abbrev Found : (from moment : ℕ) → List ReplayStage → Option Boundary → Option Boundary → Type 0
Found from moment ss (some b) l = IsAt from moment ss b.rate (some b.boundary)
Found from moment ss none (some l) = IsAt from moment ss l.rate none
Found from moment ss none none = ss ≡ []

-- The end of a stage, which is counted from the start of the run, as an instant.
abbrev end_after : (started : ℕ) → Option ℕ → Option ℕ
end_after started none = none
end_after started (some end) = some (started + end)

-- `next` is the instant, or the end of the stage if that comes before it.
abbrev pub IsNext : (started : ℕ) → Option ℕ → (instant next : ℕ) → Type 0
IsNext started none instant next = next ≡ instant
IsNext started (some end) instant next = next ≡ min instant (started + end)
