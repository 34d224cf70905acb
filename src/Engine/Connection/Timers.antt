-- ===== src/Engine/Connection/Timers.antt =====
-- When a connection wants to be looked at again: `next_deadline` and `pacing_deadline` of
-- src/engine/connection.rs.
use rload.Prelude.{ℕ, ◌+◌, min, not, ◌||◌, Option, none, some, if◌then◌else◌}
use rload.Engine.Outside.{Outside}
use rload.Engine.Connection.{Connection, deadline_of}

-- `deadline.min(instant)`, if there is a deadline
abbrev pub sooner : Option ℕ → ℕ → ℕ
sooner none instant = instant
sooner (some end) instant = min end instant

module _ (out : Outside) where
  unfoldable pub next_deadline : (timeout : ℕ) → Connection out → Option ℕ
  next_deadline timeout c = if c.awaiting_pace then none else elim c.started [
    | some started ↦ some (started + timeout)
    | none ↦ some (sooner (deadline_of c.limit) (c.connected_at + timeout))
  ]

  unfoldable pub pacing_deadline : Connection out → Option ℕ
  pacing_deadline c = if not c.awaiting_pace || c.is_done then none else elim c.not_before [
    | none ↦ none
    | some not_before ↦ some (sooner (deadline_of c.limit) not_before)
  ]
