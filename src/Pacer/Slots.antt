-- ===== src/Pacer/Slots.antt =====
-- The slots of a fixed rate, over a run of reservations.
use rload.Prelude.{
  ℕ, zero, suc, ◌+◌, ◌≤◌, max, ◌≡◌, refl, ap, ◌∙◌, List, [], ◌∷◌, arith, replicate, All,
}
use rload.Pacer.{Pacer, reserve}

-- The slots of reservations at these times, in the order in which the lock is taken.
unfoldable pub reserve_all : Pacer → List ℕ → List ℕ
reserve_all p [] = []
reserve_all p (now ∷ nows) = let (slot, p') = reserve p now in slot ∷ reserve_all p' nows

-- Each slot is at least an interval after the one before.
abbrev pub IsSpaced : ℕ → List ℕ → Type 0
IsSpaced interval [] = Unit {0}
IsSpaced interval (s ∷ ss) = All (λ t. s + interval ≤ t) ss × IsSpaced interval ss

-- No slot lies before its reservation.
abbrev pub AreDue : List ℕ → List ℕ → Type 0
AreDue [] [] = Unit {0}
AreDue (now ∷ nows) (s ∷ ss) = (now ≤ s) × AreDue nows ss
AreDue _ _ = ⊥

reserve_all-bound :
    (p : Pacer) (k : ℕ) (nows : List ℕ) → k ≤ p.next → All (λ t. k ≤ t) (reserve_all p nows)
unfolding reserve_all reserve
reserve_all-bound p k [] h = tt
reserve_all-bound p k (now ∷ nows) h = (
  omega arith,
  reserve_all-bound (record p { next = max p.next now + p.interval }) k nows (omega arith),
)

-- Whatever the times of the reservations, any two slots of a fixed-rate pacer are at least an
-- interval apart, no slot lies before its reservation, and none before the pacer's next slot at
-- the start.
pub reserve_all-IsSpaced :
    (p : Pacer) (nows : List ℕ)
    → IsSpaced p.interval (reserve_all p nows)
      × AreDue nows (reserve_all p nows)
      × All (λ t. p.next ≤ t) (reserve_all p nows)
unfolding reserve_all reserve
reserve_all-IsSpaced p [] = (tt, tt, tt)
reserve_all-IsSpaced p (now ∷ nows) =
    let later : Pacer = record p { next = max p.next now + p.interval } in
    let (spaced, due, from) = reserve_all-IsSpaced later nows in
    ((from, spaced), (omega arith, due), reserve_all-bound p p.next (now ∷ nows) (omega arith))

-- `count` slots from `slot` on, an interval apart.
abbrev pub evenly : (interval slot count : ℕ) → List ℕ
evenly interval slot zero = []
evenly interval slot (suc count) = slot ∷ evenly interval (slot + interval) count

-- Reservations at one and the same time get evenly spaced slots, from the later of that time and
-- the pacer's next slot on.
pub reserve_all-evenly :
    (p : Pacer) (now count : ℕ)
    → reserve_all p (replicate count now) ≡ evenly p.interval (max p.next now) count
unfolding reserve_all reserve
reserve_all-evenly p now zero = refl
reserve_all-evenly p now (suc count) =
    ap (λ l. max p.next now ∷ l)
      (reserve_all-evenly (record p { next = max p.next now + p.interval }) now count
        ∙ ap (λ s. evenly p.interval s count) (omega arith))
