-- ===== src/Prelude/Bits.antt =====
-- Two fields packed into one word by `|`, and taken out by a mask.
use Prim.Native.Nat.{
  ℕ, zero, suc, ◌+◌, ◌-◌, ◌*◌, ◌/◌, ◌%◌, ◌^◌, ◌≤◌, ◌<◌, min, max, digits, bit_and, bit_or,
  bit_and-bitwise, bit_or-bitwise,
}
use mathlib.Core.Path.{◌≡◌, refl, ap}
use native.Mathlib.Nat.{pow-suc, one-le-pow}
use native.Mathlib.Omega.{arith}

module _ (rest : ℕ → ℕ) (f : ℕ → ℕ → ℕ) where
  -- Any count of digits that is enough gives the same.
  enough_digits : (n a b : ℕ) → a ≤ n → digits rest f n a b ≡ digits rest f a a b
  enough_digits n a b h = both n a a b h (omega arith)
    where
      both : (n m a b : ℕ) → a ≤ n → a ≤ m → digits rest f n a b ≡ digits rest f m a b
      both zero zero a b p q = refl
      both (suc n) zero zero b p q = refl
      both zero (suc m) zero b p q = refl
      both (suc n) (suc m) zero b p q = refl
      both zero m (suc a) b p q = absurd (omega arith)
      both (suc n) zero (suc a) b p q = absurd (omega arith)
      both (suc n) (suc m) (suc a) b p q =
          rw (both n m (suc a / 2) (b / 2) (omega arith) (omega arith)) refl

or_halves : (a b : ℕ) → bit_or a b ≡ bit_or (a / 2) (b / 2) * 2 + max (a % 2) (b % 2)
or_halves zero b = simp bit_or-bitwise (omega arith)
or_halves (suc a) b =
    simp bit_or-bitwise
      (omega (arith, enough_digits (λ x. x) max a (suc a / 2) (b / 2) (omega arith)))

and_halves : (a b : ℕ) → bit_and a b ≡ bit_and (a / 2) (b / 2) * 2 + min (a % 2) (b % 2)
and_halves zero b = simp bit_and-bitwise (omega arith)
and_halves (suc a) b =
    simp bit_and-bitwise
      (omega (arith, enough_digits (λ x. 0) min a (suc a / 2) (b / 2) (omega arith)))

or_nothing : (fuel a : ℕ) → a ≤ fuel → bit_or a 0 ≡ a
or_nothing zero zero h = refl
or_nothing zero (suc a) h = absurd (omega arith)
or_nothing (suc fuel) zero h = refl
or_nothing (suc fuel) (suc a) h =
    omega (arith, or_halves (suc a) 0, or_nothing fuel (suc a / 2) (omega arith))

and_nothing : (fuel a : ℕ) → a ≤ fuel → bit_and a 0 ≡ 0
and_nothing zero zero h = refl
and_nothing zero (suc a) h = absurd (omega arith)
and_nothing (suc fuel) zero h = refl
and_nothing (suc fuel) (suc a) h =
    omega (arith, and_halves (suc a) 0, and_nothing fuel (suc a / 2) (omega arith))

doubled : (k q : ℕ) → q * 2 ^ suc k ≡ q * 2 ^ k * 2
doubled k q = omega (arith, ap (λ (t : ℕ). q * t) (pow-suc 2 k))

pub pack_lem : (k high low : ℕ) → low < 2 ^ k → bit_or (high * 2 ^ k) low ≡ high * 2 ^ k + low
pack_lem zero high low h = ground (arith, or_nothing high high)
pack_lem (suc k) high low h = ground (
  arith,
  or_halves (high * 2 ^ suc k) low,
  doubled k high,
  pow-suc 2 k,
  pack_lem k high (low / 2),
)

pub mask_lem : (k high low : ℕ) → low < 2 ^ k → bit_and (high * 2 ^ k + low) (2 ^ k - 1) ≡ low
mask_lem zero high low h = ground (arith, and_nothing high high)
mask_lem (suc k) high low h = ground (
  arith,
  and_halves (high * 2 ^ suc k + low) (2 ^ suc k - 1),
  doubled k high,
  pow-suc 2 k,
  one-le-pow k 2,
  mask_lem k high (low / 2),
)
