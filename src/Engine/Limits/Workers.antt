-- ===== src/Engine/Limits/Workers.antt =====
-- The limits are dealt to the workers: none is lost, and none is dealt twice.
use rload.Prelude.{
  ℕ, zero, suc, ◌+◌, ◌%◌, ◌≤◌, ◌<◌, min, ◌≡◌, refl, ap, ◌∙◌, none, some, List, [], ◌∷◌, ◌++◌, arith,
  length, replicate, length-replicate,
}
use native.Mathlib.Nat.{mod-lt}
use rload.Error.{ok}
use rload.Config
use rload.Config.{RunConfig, validate}
use rload.Engine.Limits.{ConnectionLimit, connection_limits, push_at, deal, worker_limits}
use rload.Engine.Limits.Shares.{share, total_share, request_limits-total}

module _ {ℓ} {A : Type ℓ} (weight : A → ℕ) where
  abbrev pub weigh : List A → ℕ
  weigh [] = 0
  weigh (x ∷ xs) = weight x + weigh xs

  abbrev pub weigh_all : List (List A) → ℕ
  weigh_all [] = 0
  weigh_all (w ∷ ws) = weigh w + weigh_all ws

  weigh-append : (xs ys : List A) → weigh (xs ++ ys) ≡ weigh xs + weigh ys
  weigh-append [] ys = omega arith
  weigh-append (x ∷ xs) ys = omega (arith, weigh-append xs ys)

  weigh-push_at :
      (i : ℕ) (l : A) (ws : List (List A))
      → i < length ws
      → weigh_all (push_at i l ws) ≡ weigh_all ws + weight l
  unfolding push_at
  weigh-push_at i l [] h = absurd (omega arith)
  weigh-push_at zero l (w ∷ ws) h = omega (arith, weigh-append w (l ∷ []))
  weigh-push_at (suc i) l (w ∷ ws) h = omega (arith, weigh-push_at i l ws (omega arith))

  length-push_at : (i : ℕ) (l : A) (ws : List (List A)) → length (push_at i l ws) ≡ length ws
  unfolding push_at
  length-push_at i l [] = refl
  length-push_at zero l (w ∷ ws) = refl
  length-push_at (suc i) l (w ∷ ws) = ap suc (length-push_at i l ws)

  weigh-deal :
      (threads i : ℕ) (ls : List A) (ws : List (List A))
      → 0 < threads
      → length ws ≡ threads
      → weigh_all (deal threads i ls ws) ≡ weigh_all ws + weigh ls
  unfolding deal
  weigh-deal threads i [] ws pos e = omega arith
  weigh-deal threads i (l ∷ ls) ws pos e = omega (
    arith,
    weigh-push_at (i % threads) l ws (omega (arith, mod-lt i pos, e)),
    weigh-deal threads (i + 1) ls (push_at (i % threads) l ws) pos
        (length-push_at (i % threads) l ws ∙ e),
  )

  weigh-replicate : (n : ℕ) → weigh_all (replicate n []) ≡ 0
  weigh-replicate zero = refl
  weigh-replicate (suc n) = omega (arith, weigh-replicate n)

  -- For a positive number of threads and any weight on limits, the workers' lists together weigh
  -- what the limits do.
  pub worker_limits-weigh :
      (threads : ℕ) (ls : List A) → 0 < threads → weigh_all (worker_limits threads ls) ≡ weigh ls
  unfolding worker_limits
  worker_limits-weigh threads ls pos = omega (
    arith,
    weigh-replicate threads,
    weigh-deal threads 0 ls (replicate threads []) pos (length-replicate threads []),
  )

total_share-weigh : (ls : List ConnectionLimit) → weigh share ls ≡ total_share ls
total_share-weigh [] = refl
total_share-weigh (l ∷ ls) = ap (λ n. share l + n) (total_share-weigh ls)

-- For a valid configuration with a limit of total requests, the connection limits exist, are for
-- no more connections than configured, and dealt to min(threads, connections) workers they add up
-- to exactly total.
pub connection_limits-total :
    (c : RunConfig) (total started : ℕ)
    → validate c ≡ ok tt
    → c.limit ≡ Config.requests total
    → (count : ℕ) × (limits : List ConnectionLimit) × (connection_limits c started
        ≡ some (count, limits, none))
      × (count ≤ c.connections)
      × (weigh_all share (worker_limits (min c.threads count) limits) ≡ total)
unfolding connection_limits validate Config.validate_limit
connection_limits-total c total started valid limit =
    let (limits, e, len, sum, positive, fair) =
      request_limits-total c.connections total connected wanted in
    (
      min c.connections total,
      limits,
      rw limit e,
      omega arith,
      worker_limits-weigh share (min c.threads (min c.connections total)) limits
            (omega (arith, connected, wanted, threaded))
          ∙ total_share-weigh limits
          ∙ sum,
    )
  where
    connected : 0 < c.connections
    connected = ground arith

    threaded : 0 < c.threads
    threaded = ground arith

    wanted : 0 < total
    wanted = ground arith
