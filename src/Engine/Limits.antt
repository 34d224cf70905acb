-- ===== src/Engine/Limits.antt =====
-- How a run's limit is split over the connections, and these over the workers: `ConnectionLimit`,
-- `connection_limits` and the start of `run_with_roots` in src/engine/mod.rs.
pub mod Shares
pub mod Workers
use rload.Prelude.{
  ℕ, zero, suc, ◌+◌, ◌-◌, ◌*◌, ◌/◌, ◌%◌, ◌^◌, ◌≤◌, ◌<◌, min, max, String, ◌≡◌, refl, sym, ap, ◌∙◌,
  subst, ◌≢◌, ◌↔◌, ◌⊎◌, inl, inr, Bool, true, false, not, ◌&&◌, ◌||◌, Option, none, some, List, [],
  ◌∷◌, ◌++◌, map, append-nil, append_assoc, arith, ltb, leb, ◌==◌, if◌then◌else◌, ltb→lt, lt→ltb,
  leb→le, le→leb, ltb_false→le, leb_false→lt, ==_iff, tests, Bool-cases, Option-cases, &&_true,
  or_sound, or_complete, Bytes, codes, length, get_elem?, set, take, drop, replicate, is_empty,
  length-append, length-take, length-drop, length-set, drop-get_some, drop-get_none, get_some-lt,
  get_none-le, lt-get_some, bytes_eq, bytes_eq_sound, bytes_eq_refl, All, All-get, Any, All-append,
  All-append_left, All-append_right, All-take, All-imp, All-both, Any-All, take-append, drop-append,
  drop-append_past, drop_all, u64_mod, u64_max, add64, add64_exact,
}
use rload.Config
use rload.Config.{RunConfig}

pub data ConnectionLimit : Type 0 where
  requests : ℕ → ConnectionLimit
  deadline : ℕ → ConnectionLimit

-- The connection goes on after `completed` requests, at the time `now`.
unfoldable pub should_continue : ConnectionLimit → (completed now : ℕ) → Bool
should_continue (requests count) completed now = ltb completed count
should_continue (deadline end) completed now = ltb now end

-- `u64::from((index as u64) < extra)`
abbrev pub one_if_below : ℕ → ℕ → ℕ
one_if_below index extra = if ltb index extra then 1 else 0

-- The shares of the connections `index`, `index + 1`, ..., `count` of them.
unfoldable pub shares : (base extra index count : ℕ) → List ConnectionLimit
shares base extra index zero = []
shares base extra index (suc count) =
    requests (base + one_if_below index extra) ∷ shares base extra (index + 1) count

-- `none` is the division by zero.
unfoldable pub request_limits :
    (connections total : ℕ) → Option (ℕ × List ConnectionLimit × Option ℕ)
request_limits connections total =
    let count = min connections total in
    if count == 0 then none else some (count, shares (total / count) (total % count) 0 count, none)

unfoldable pub connection_limits :
    RunConfig → (started : ℕ) → Option (ℕ × List ConnectionLimit × Option ℕ)
connection_limits c started = elim c.limit [
  | Config.requests total ↦ request_limits c.connections total
  | Config.duration nanos ↦
      some (
        c.connections,
        replicate c.connections (deadline (started + nanos)),
        some (started + nanos),
      )
]

module _ {ℓ} {A : Type ℓ} where
  -- `workers[index].push(limit)`
  unfoldable pub push_at : ℕ → A → List (List A) → List (List A)
  push_at index limit [] = []
  push_at zero limit (w ∷ ws) = (w ++ limit ∷ []) ∷ ws
  push_at (suc index) limit (w ∷ ws) = w ∷ push_at index limit ws

  -- The loop over the enumerated limits, from `index` on.
  unfoldable pub deal : (threads index : ℕ) → List A → List (List A) → List (List A)
  deal threads index [] workers = workers
  deal threads index (limit ∷ limits) workers =
      deal threads (index + 1) limits (push_at (index % threads) limit workers)

  unfoldable pub worker_limits : (threads : ℕ) → List A → List (List A)
  worker_limits threads limits = deal threads 0 limits (replicate threads [])
