-- ===== src/Engine/Limits/Shares.antt =====
-- The connections' shares of a run by number of requests.
use rload.Prelude.{
  ℕ, zero, suc, ◌+◌, ◌-◌, ◌*◌, ◌/◌, ◌%◌, ◌≤◌, ◌<◌, min, ◌≡◌, refl, ap, ◌⊎◌, inl, inr, none, some,
  List, [], ◌∷◌, arith, ltb, Bool-cases, length, All, All-imp,
}
use native.Mathlib.Nat.{div-add-mod, mod-lt, div-eq-sub-div}
use rload.Engine.Limits.{ConnectionLimit, requests, deadline, shares, request_limits}

-- The requests that a limit lets a connection make.
abbrev pub share : ConnectionLimit → ℕ
share (requests count) = count
share (deadline end) = 0

abbrev pub total_share : List ConnectionLimit → ℕ
total_share [] = 0
total_share (l ∷ ls) = share l + total_share ls

length-shares : (b e i n : ℕ) → length (shares b e i n) ≡ n
unfolding shares
length-shares b e i zero = refl
length-shares b e i (suc n) = omega (arith, length-shares b e (i + 1) n)

-- From the connection `i` on, the base share each, and the rest of the extra ones.
total-shares : (b e i n : ℕ) → e ≤ i + n → total_share (shares b e i n) ≡ n * b + (e - i)
unfolding shares
total-shares b e i zero h = omega arith
total-shares b e i (suc n) h = grind (arith, total-shares b e (i + 1) n (omega arith))

fair-shares :
    (b e i n : ℕ) → All (λ l. ((l ≡ requests b) ⊎ (l ≡ requests (b + 1)))) (shares b e i n)
unfolding shares
fair-shares b e i zero = tt
fair-shares b e i (suc n) = elim (Bool-cases (ltb i e)) [
  | inl k ↦ rw (k, All) (inr refl, fair-shares b e (i + 1) n)
  | inr k ↦ rw (k, All) (inl (ap requests (omega arith)), fair-shares b e (i + 1) n)
]

is_positive :
    (base : ℕ) (l : ConnectionLimit)
    → 1 ≤ base
    → (l ≡ requests base) ⊎ (l ≡ requests (base + 1))
    → 1 ≤ share l
is_positive base l pos (inl e) = rw e pos
is_positive base l pos (inr e) = rw e (omega arith)

positive_base : (total count : ℕ) → 0 < count → count ≤ total → 1 ≤ total / count
positive_base total count pos le = omega (arith, div-eq-sub-div {m = count} {n = total} pos le)

-- For positive numbers of connections and requests there are min(connections, requests) limits,
-- their shares add up to the requests, none is zero, and each is the quotient or one more.
pub request_limits-total :
    (connections total : ℕ)
    → 0 < connections
    → 0 < total
    → (limits : List ConnectionLimit) × (request_limits connections total
        ≡ some (min connections total, limits, none))
      × (length limits ≡ min connections total)
      × (total_share limits ≡ total)
      × All (λ l. 1 ≤ share l) limits
      × All
          (λ l.
            (l ≡ requests (total / min connections total))
            ⊎ (l ≡ requests (total / min connections total + 1)))
          limits
unfolding request_limits
request_limits-total connections total room some_requests = (
  shares base extra 0 count,
  ground arith,
  length-shares base extra 0 count,
  omega (arith, total-shares base extra 0 count below, div-add-mod total count),
  All-imp (shares base extra 0 count)
      (λ l. is_positive base l (positive_base total count (omega arith) (omega arith)))
      (fair-shares base extra 0 count),
  fair-shares base extra 0 count,
)
  where
    count : ℕ
    count = min connections total

    base : ℕ
    base = total / min connections total

    extra : ℕ
    extra = total % min connections total

    below : total % min connections total ≤ 0 + min connections total
    below = omega (arith, mod-lt total {m = min connections total} (omega arith))
