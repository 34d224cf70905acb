-- ===== src/Filter/Glob/StarLiteral.antt =====
-- A value with a star of its own: the loop compares bytes before it looks for a wildcard, so it takes
-- the pattern's star for that byte.
use rload.Prelude.{
  ℕ, suc, ◌+◌, ◌-◌, ◌*◌, ◌≤◌, ◌≡◌, refl, false, none, some, [], ◌∷◌, ◌++◌, append_assoc, arith,
  Bytes, length, get_elem?, length-append,
}
use Prim.Native.Nat.add
use native.Mathlib.Nat.{zero-add}
use rload.Filter.Glob.{Cursor, step, backtrack, loop, start, glob_matches}
use rload.Filter.Glob.Pattern.{Matches, same, star_all}

get_append_length :
    (pre : Bytes) (x : ℕ) (rest : Bytes) → get_elem? (pre ++ x ∷ rest) (length pre) ≡ some x
get_append_length [] x rest = refl
get_append_length (y ∷ pre) x rest = get_append_length pre x rest

get_append_end : (pre : Bytes) → get_elem? pre (length pre) ≡ none
get_append_end [] = refl
get_append_end (y ∷ pre) = get_append_end pre

abbrev at_literal : ℕ → Cursor
at_literal i = record { pattern_index = i; value_index = i; star = none; retry_value = 0 }

-- A common byte is passed over as a literal, whatever it is.
loop-literal :
    (fuel i x : ℕ) (pattern value : Bytes)
    → get_elem? pattern i ≡ some x
    → get_elem? value i ≡ some x
    → loop (suc fuel) pattern value (at_literal i) ≡ loop fuel pattern value (at_literal (i + 1))
unfolding loop step
loop-literal fuel i x pattern value p v = ground arith

loop-stuck :
    (fuel i x : ℕ) (pattern value : Bytes)
    → get_elem? pattern i ≡ none
    → get_elem? value i ≡ some x
    → loop (suc fuel) pattern value (at_literal i) ≡ some false
unfolding loop step backtrack
loop-stuck fuel i x pattern value p v = ground arith

length-snoc : (pre : Bytes) (x : ℕ) → length (pre ++ x ∷ []) ≡ length pre + 1
length-snoc pre x = omega (arith, length-append pre (x ∷ []))

loop-common :
    (q pre : Bytes) (fuel c : ℕ) (rest : Bytes)
    → loop
        (length q + suc (suc fuel))
        (pre ++ (q ++ b'*' ∷ []))
        (pre ++ (q ++ b'*' ∷ c ∷ rest))
        (at_literal (length pre))
      ≡ some false
loop-common [] pre fuel c rest =
    rw
      (
        zero-add,
        loop-literal (suc fuel) (length pre) b'*' (pre ++ b'*' ∷ []) (pre ++ b'*' ∷ c ∷ rest)
            (get_append_length pre b'*' []) (get_append_length pre b'*' (c ∷ rest)),
      )
      (loop-stuck fuel (length pre + 1) c _ _ ended more)
  where
    ended : get_elem? (pre ++ b'*' ∷ []) (length pre + 1) ≡ none
    ended = rw (length-snoc pre b'*') at (get_append_end (pre ++ b'*' ∷ []))

    more : get_elem? (pre ++ b'*' ∷ c ∷ rest) (length pre + 1) ≡ some c
    more = rw (length-snoc pre b'*', append_assoc) at (get_append_length (pre ++ b'*' ∷ []) c rest)
loop-common (x ∷ q) pre fuel c rest =
    rw
      (
        add.suc,
        loop-literal (length q + suc (suc fuel)) (length pre) x _ _
            (get_append_length pre x (q ++ b'*' ∷ []))
            (get_append_length pre x (q ++ b'*' ∷ c ∷ rest)),
      )
      (rw (append_assoc, append_assoc, length-snoc pre x) at
        (loop-common q (pre ++ x ∷ []) fuel c rest))

product_ge : (a b : ℕ) → b + 2 ≤ (a + 2) * (b + 2)
product_ge a b = grind arith

-- A pattern that ends in a star rejects the values that continue its text by a star and a further
-- byte, although they match it.
pub glob_matches-star_literal :
    (q : Bytes) (c : ℕ) (rest : Bytes)
    → (glob_matches (q ++ b'*' ∷ []) (q ++ b'*' ∷ c ∷ rest) ≡ some false)
      × Matches (q ++ b'*' ∷ []) (q ++ b'*' ∷ c ∷ rest)
unfolding glob_matches
glob_matches-star_literal q c rest = (run, matches q)
  where
    matches : (r : Bytes) → Matches (r ++ b'*' ∷ []) (r ++ b'*' ∷ c ∷ rest)
    matches [] = star_all _ refl
    matches (x ∷ r) = same refl (matches r)

    fuel : ℕ
    fuel = (length (q ++ b'*' ∷ c ∷ rest) + 2) * (length (q ++ b'*' ∷ []) + 2)

    split : fuel ≡ length q + suc (suc (fuel - length q - 2))
    split = omega (
      arith,
      product_ge (length (q ++ b'*' ∷ c ∷ rest)) (length (q ++ b'*' ∷ [])),
      length-append q (b'*' ∷ []),
    )

    run : loop fuel (q ++ b'*' ∷ []) (q ++ b'*' ∷ c ∷ rest) start ≡ some false
    run = rw split (loop-common q [] (fuel - length q - 2) c rest)
