-- ===== src/Metrics/UriTop/Invariant.antt =====
-- What a table of heavy hitters promises of a history with `c u` requests of the URI `u` and `n` in
-- all, and how the least count moves.
use rload.Prelude.{
  ℕ, zero, suc, ◌+◌, ◌≤◌, ◌<◌, ◌≡◌, refl, inl, inr, false, some, List, [], ◌∷◌, arith, ltb, ltb→lt,
  lt→ltb, Bool-cases, Option-cases, Bytes, length, All, Any-All,
}
use rload.Metrics.UriTop.Sort.{UriStatistic}
use rload.Metrics.UriTop.Defs.{UriTop, minimum, minimum_count}
use rload.Metrics.UriTop.Entries.{
  uris, Absent, IsDistinct, AtLeast, minimum-AtLeast, minimum-Any, le-minimum,
}

-- The estimate is never below the true count, and above it by at most the stated error.
pub record Bounds (c : Bytes → ℕ) (n : ℕ) (e : UriStatistic) : Type 0 where
  pub upper : c e.uri ≤ e.estimated_requests
  pub lower : e.estimated_requests ≤ c e.uri + e.maximum_error
  pub estimate_le : e.estimated_requests ≤ n
  pub error_le : e.maximum_error ≤ n

pub record Inv (c : Bytes → ℕ) (n : ℕ) (t : UriTop) : Type 0 where
  pub bounds : All (Bounds c n) t.entries
  pub distinct : IsDistinct (uris t.entries)
  -- A URI that is not listed has been requested at most as often as the least listed one.
  pub absent : (u : Bytes) → Absent u t.entries → c u ≤ minimum_count t
  pub fits : length t.entries ≤ t.capacity

pub minimum_count-not_full : (t : UriTop) → length t.entries < t.capacity → minimum_count t ≡ 0
unfolding minimum_count
minimum_count-not_full t h = rw (lt→ltb _ _ h) refl

pub minimum_count-full :
    (t : UriTop) (m : ℕ)
    → ltb (length t.entries) t.capacity ≡ false
    → minimum t.entries ≡ some m
    → minimum_count t ≡ m
unfolding minimum_count
minimum_count-full t m h k = ground arith

pub minimum_count-AtLeast : (t : UriTop) → AtLeast (minimum_count t) t.entries
unfolding minimum_count
minimum_count-AtLeast t = elim (Bool-cases (ltb (length t.entries) t.capacity)) [
  | inl h ↦ rw h (zeros t.entries)
  | inr h ↦ elim (Option-cases (minimum t.entries)) [
    | inl k ↦ rw (h, k, AtLeast) (zeros t.entries)
    | inr (m, k) ↦ rw (h, k, AtLeast) (minimum-AtLeast t.entries m k)
  ]
]
  where
    zeros : (es : List UriStatistic) → AtLeast 0 es
    zeros [] = tt
    zeros (e ∷ es) = (omega arith, zeros es)

-- A bound on all entries of a full table is a bound on its least count.
pub le-minimum_count :
    (k : ℕ) (t : UriTop)
    → (length t.entries < t.capacity → k ≡ 0)
    → (0 < k → 0 < length t.entries)
    → AtLeast k t.entries
    → k ≤ minimum_count t
unfolding minimum_count
le-minimum_count zero t room some_entry h = omega arith
le-minimum_count (suc k) t room some_entry h =
    elim (Bool-cases (ltb (length t.entries) t.capacity)) [
      | inl e ↦ absurd (omega (arith, room (ltb→lt _ _ e)))
      | inr e ↦
          let (m, q, le) = le-minimum (suc k) t.entries h (some_entry (omega arith)) in rw (e, q) le
    ]

-- No entry exceeds the number of requests, so the least count does not.
pub minimum_count-le : (c : Bytes → ℕ) (n : ℕ) (t : UriTop) → Inv c n t → minimum_count t ≤ n
unfolding minimum_count
minimum_count-le c n t i = elim (Bool-cases (ltb (length t.entries) t.capacity)) [
  | inl e ↦ rw e (omega arith)
  | inr e ↦ elim (Option-cases (minimum t.entries)) [
    | inl k ↦ rw (e, k) (omega arith)
    | inr (m, k) ↦
        let (x, q, b) =
          Any-All (λ y. y.estimated_requests ≡ m) (Bounds c n) t.entries (minimum-Any t.entries m k)
            i.bounds in
        rw (e, k) (omega (arith, q, b.estimate_le))
  ]
]

-- A positive least count is that of some entry.
pub minimum_count-pos : (t : UriTop) → 0 < minimum_count t → 0 < length t.entries
unfolding minimum_count minimum
minimum_count-pos t h = filled t.entries refl
  where
    filled : (es : List UriStatistic) → t.entries ≡ es → 0 < length t.entries
    filled [] e = ground arith
    filled (x ∷ es) e = rw e (omega arith)
