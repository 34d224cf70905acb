-- ===== src/Filter/Glob/Correct.antt =====
-- The glob loop stops within its fuel; a true answer is right, and so is a false one wherever the
-- value holds no star of its own.
use rload.Prelude.{
  ℕ, zero, suc, ◌+◌, ◌-◌, ◌*◌, ◌≤◌, ◌<◌, ◌≡◌, refl, ◌≢◌, ◌↔◌, inl, inr, Bool, true, false, Option,
  none, some, [], ◌∷◌, arith, ◌==◌, Bool-cases, Option-cases, Bytes, length, get_elem?, drop,
  drop-get_some, drop-get_none, get_some-lt, get_none-le, lt-get_some, All-get,
}
use rload.Filter.Glob.{Cursor, is_at, backtrack, skip_stars, finish, loop, start, glob_matches}
use rload.Filter.Glob.Pattern.{
  Matches, done, leave, take_one, same, literal_inv, must_take, two_stars, drop_literal, star_nil,
}
use rload.Filter.Glob.Step.{HasNoStar, is_at→get, is_at→drop, step_cases, no_match}

-- An answer, right about `G` when true, and when false too under `Plain`.
abbrev pub Decides : Type 0 → Type 0 → Option Bool → Type 0
Decides Plain G none = ⊥
Decides Plain G (some true) = G
Decides Plain G (some false) = Plain → ¬ G

-- The trailing stars.
finish-Decides :
    (Plain G : Type 0) (pattern : Bytes) (fuel i : ℕ)
    → length pattern < fuel + i
    → i ≤ length pattern
    → (Matches (drop i pattern) [] → G)
    → (Plain → G → Matches (drop i pattern) [])
    → Decides Plain G (elim (skip_stars fuel pattern i) [
      | none ↦ none
      | some last ↦ some (last == length pattern)
    ])
unfolding skip_stars
finish-Decides Plain G pattern zero i hf hi now later = absurd (omega arith)
finish-Decides Plain G pattern (suc fuel) i hf hi now later =
    elim (Option-cases (get_elem? pattern i)) [
      | inl e ↦
          let m : drop i pattern ≡ [] = drop-get_none pattern i e in
          let g : G = now (rw m done) in
          let whole : i ≡ length pattern = omega (arith, get_none-le pattern i e) in
          rw e (ground arith)
      | inr (x, e) ↦ elim (Bool-cases (x == b'*')) [
        | inl s ↦
            let lt : i < length pattern = get_some-lt pattern i x e in
            let star : x ≡ b'*' = ground arith in
            let rest : drop i pattern ≡ x ∷ drop (i + 1) pattern = drop-get_some pattern i x e in
            let ih =
              finish-Decides Plain G pattern fuel (i + 1) (omega arith) (omega arith)
                (λ m. now (rw rest (leave star m)))
                (λ p g. (star_nil (rw rest at (later p g))).1) in
            rw (e, s) ih
        | inr s ↦
            let lt : i < length pattern = get_some-lt pattern i x e in
            let rest : drop i pattern ≡ x ∷ drop (i + 1) pattern = drop-get_some pattern i x e in
            let other : (i == length pattern) ≡ false = ground arith in
            rw (e, s, other) (λ p g. absurd (not_star x s (star_nil (rw rest at (later p g))).0))
      ]
    ]
  where
    not_star : (x : ℕ) → (x == b'*') ≡ false → x ≢ b'*'
    not_star x h q = ground arith

mul_mono : (a b k : ℕ) → a ≤ b → a * k ≤ b * k
mul_mono a b k h = grind arith

step_measure : (lv r k : ℕ) → r < lv → (lv - r) * k ≡ (lv - (r + 1)) * k + k
step_measure lv r k h = let e : lv - r ≡ (lv - (r + 1)) + 1 = omega arith in rw e (omega arith)

-- The measure falls: in the pattern, or by a whole pattern's length at a retry.
star_measure :
    (lv lp r v p fuel : ℕ)
    → r ≤ v
    → p + 1 ≤ lp
    → (lv - r) * (lp + 1) + (lp - p) < suc fuel
    → (lv - v) * (lp + 1) + (lp - (p + 1)) < fuel
star_measure lv lp r v p fuel hr hp h =
    let fall : (lv - v) * (lp + 1) ≤ (lv - r) * (lp + 1) =
      mul_mono (lv - v) (lv - r) (lp + 1) (omega arith) in
    omega arith

retry_measure :
    (lv lp r p s fuel : ℕ)
    → r < lv
    → s + 1 ≤ lp
    → (lv - r) * (lp + 1) + (lp - p) < suc fuel
    → (lv - (r + 1)) * (lp + 1) + (lp - (s + 1)) < fuel
retry_measure lv lp r p s fuel hr hs h =
    let fall : (lv - r) * (lp + 1) ≡ (lv - (r + 1)) * (lp + 1) + (lp + 1) =
      step_measure lv r (lp + 1) hr in
    omega arith

get_some-lt-add : (xs : Bytes) (i x : ℕ) → get_elem? xs i ≡ some x → i + 1 ≤ length xs
get_some-lt-add xs i x h = omega (arith, get_some-lt xs i x h)

module _ (pattern value : Bytes) (Plain G : Type 0) (plain : Plain → HasNoStar value) where
  abbrev Rest : ℕ → ℕ → Type 0
  Rest i j = Matches (drop i pattern) (drop j value)

  -- A saved star stands in the pattern, and the question may be asked again from there.
  abbrev Saved : Cursor → Option ℕ → Type 0
  Saved c none = Plain → G → Rest c.pattern_index c.value_index
  Saved c (some s) =
      (is_at pattern s b'*' ≡ true)
      × (Rest s c.retry_value → G)
      × (Plain → G → Rest s c.retry_value)
      × (Plain → Rest (s + 1) c.retry_value → Rest c.pattern_index c.value_index)

  record Inv (fuel : ℕ) (c : Cursor) : Type 0 where
    now : Rest c.pattern_index c.value_index → G
    later : Plain → G → Matches (b'*' ∷ drop c.pattern_index pattern) (drop c.value_index value)
    saved : Saved c c.star
    order : c.retry_value ≤ c.value_index
    value_bound : c.value_index ≤ length value
    pattern_bound : c.pattern_index ≤ length pattern
    enough :
        (length value - c.retry_value) * (length pattern + 1) + (length pattern - c.pattern_index)
        < fuel

  -- Facts that the branches share: the rests begin with the bytes that were read.
  Saved-same :
      (byte : ℕ) (c : Cursor) (o : Option ℕ)
      → drop c.pattern_index pattern ≡ byte ∷ drop (c.pattern_index + 1) pattern
      → drop c.value_index value ≡ byte ∷ drop (c.value_index + 1) value
      → (Plain → byte ≢ b'*')
      → Saved c o
      → Saved (record c { pattern_index = c.pattern_index + 1; value_index = c.value_index + 1 }) o
  Saved-same byte c none pe ve ns h = λ p g. (literal_inv (rw (pe, ve) at (h p g)) (ns p)).1
  Saved-same byte c (some s) pe ve ns (a, snd, cmp, down) =
      (a, snd, cmp, λ p m. (literal_inv (rw (pe, ve) at (down p m)) (ns p)).1)

  Inv-same :
      (fuel byte : ℕ) (c : Cursor)
      → get_elem? value c.value_index ≡ some byte
      → Inv (suc fuel) c
      → is_at pattern c.pattern_index byte ≡ true
      → Inv fuel (record c { pattern_index = c.pattern_index + 1; value_index = c.value_index + 1 })
  Inv-same fuel byte c at i h = record {
    now = λ m. i.now (rw (pe, ve) (same refl m));
    later = λ p g. drop_literal _ refl (ns p) (rw (pe, ve) at (i.later p g));
    saved = Saved-same byte c c.star pe ve ns i.saved;
    order = omega arith;
    value_bound = get_some-lt-add value c.value_index byte at;
    pattern_bound = get_some-lt-add pattern c.pattern_index byte (is_at→get pattern _ _ h);
    enough =
        omega (arith, get_some-lt pattern c.pattern_index byte (is_at→get pattern _ _ h), i.enough);
  }
    where
      pe : drop c.pattern_index pattern ≡ byte ∷ drop (c.pattern_index + 1) pattern
      pe = is_at→drop pattern c.pattern_index byte h

      ve : drop c.value_index value ≡ byte ∷ drop (c.value_index + 1) value
      ve = drop-get_some value c.value_index byte at

      ns : Plain → byte ≢ b'*'
      ns p = All-get (λ b. b ≢ b'*') value c.value_index byte (plain p) at

  Inv-star :
      (fuel : ℕ) (c : Cursor)
      → Inv (suc fuel) c
      → is_at pattern c.pattern_index b'*' ≡ true
      → Inv fuel (record c {
        star = some c.pattern_index;
        pattern_index = c.pattern_index + 1;
        retry_value = c.value_index;
      })
  Inv-star fuel c i h = record {
    now = λ m. i.now (rw pe (leave refl m));
    later = later;
    saved = (h, i.now, λ p g. rw pe (later p g), λ p m. m);
    order = omega arith;
    value_bound = i.value_bound;
    pattern_bound = get_some-lt-add pattern c.pattern_index b'*' (is_at→get pattern _ _ h);
    enough =
        star_measure (length value) (length pattern) c.retry_value c.value_index c.pattern_index
          fuel i.order (get_some-lt-add pattern c.pattern_index b'*' (is_at→get pattern _ _ h))
          i.enough;
  }
    where
      pe : drop c.pattern_index pattern ≡ b'*' ∷ drop (c.pattern_index + 1) pattern
      pe = is_at→drop pattern c.pattern_index b'*' h

      later :
          Plain → G → Matches (b'*' ∷ drop (c.pattern_index + 1) pattern) (drop c.value_index value)
      later p g = two_stars (rw pe at (i.later p g)) refl refl

  Inv-retry :
      (fuel byte : ℕ) (c : Cursor) (s : ℕ)
      → get_elem? value c.value_index ≡ some byte
      → Inv (suc fuel) c
      → Saved c (some s)
      → ¬ Rest c.pattern_index c.value_index
      → Inv fuel (record c {
        retry_value = c.retry_value + 1;
        value_index = c.retry_value + 1;
        pattern_index = s + 1;
        star = some s;
      })
  Inv-retry fuel byte c s at i (a, snd, cmp, down) no_rest = record {
    now = λ m. snd (rw (se, re) (take_one refl (leave refl m)));
    later = later;
    saved = (
      a,
      λ m. snd (rw (se, re) (take_one refl (rw se at m))),
      λ p g. rw se (later p g),
      λ p m. m,
    );
    order = omega arith;
    value_bound = omega (arith, get_some-lt value c.value_index byte at, i.order);
    pattern_bound = get_some-lt-add pattern s b'*' (is_at→get pattern _ _ a);
    enough =
        retry_measure (length value) (length pattern) c.retry_value c.pattern_index s fuel
          (omega (arith, get_some-lt value c.value_index byte at, i.order))
          (get_some-lt-add pattern s b'*' (is_at→get pattern _ _ a)) i.enough;
  }
    where
      r : (d : ℕ) × (get_elem? value c.retry_value ≡ some d)
      r =
          lt-get_some value c.retry_value
            (omega (arith, get_some-lt value c.value_index byte at, i.order))

      se : drop s pattern ≡ b'*' ∷ drop (s + 1) pattern
      se = is_at→drop pattern s b'*' a

      re : drop c.retry_value value ≡ r.0 ∷ drop (c.retry_value + 1) value
      re = drop-get_some value c.retry_value r.0 r.1

      later : Plain → G → Matches (b'*' ∷ drop (s + 1) pattern) (drop (c.retry_value + 1) value)
      later p g = must_take (rw (se, re) at (cmp p g)) refl (λ m. no_rest (down p (rw re m)))

  -- What a round is followed by.
  abbrev after_step : ℕ → Option Cursor → Option Bool
  after_step fuel next = elim next [ none ↦ some false | some c' ↦ loop fuel pattern value c' ]

  retry-Decides :
      (fuel byte : ℕ) (c : Cursor) (o : Option ℕ)
      → get_elem? value c.value_index ≡ some byte
      → Inv (suc fuel) c
      → Saved c o
      → ¬ Rest c.pattern_index c.value_index
      → ((c' : Cursor) → Inv fuel c' → Decides Plain G (loop fuel pattern value c'))
      → Decides Plain G (after_step fuel (backtrack c o))
  unfolding backtrack
  retry-Decides fuel byte c none at i saved no_rest ih = λ p g. no_rest (saved p g)
  retry-Decides fuel byte c (some s) at i saved no_rest ih =
      ih _ (Inv-retry fuel byte c s at i saved no_rest)

  loop-Decides : (fuel : ℕ) (c : Cursor) → Inv fuel c → Decides Plain G (loop fuel pattern value c)
  unfolding loop finish
  loop-Decides zero c i = absurd (omega (arith, i.enough))
  loop-Decides (suc fuel) c i = elim (Option-cases (get_elem? value c.value_index)) [
    | inl e ↦
        let ve : drop c.value_index value ≡ [] = drop-get_none value c.value_index e in
        rw (e, Decides)
          (finish-Decides Plain G pattern (suc (length pattern)) c.pattern_index (omega arith)
            i.pattern_bound (λ m. i.now (rw ve m)) (λ p g. (star_nil (rw ve at (i.later p g))).1))
    | inr (byte, e) ↦
        rw (e, Decides)
          (step_cases (λ next. Decides Plain G (after_step fuel next)) pattern byte c
            (λ h. loop-Decides fuel _ (Inv-same fuel byte c e i h))
            (λ h. loop-Decides fuel _ (Inv-star fuel c i h))
            (λ h s.
              retry-Decides fuel byte c c.star e i i.saved
                (λ m.
                  no_match pattern c.pattern_index byte _ h s
                    (rw (drop-get_some value c.value_index byte e) at m))
                (loop-Decides fuel)))
  ]

enough_fuel : (lv lp : ℕ) → (lv - 0) * (lp + 1) + (lp - 0) < (lv + 2) * (lp + 2)
enough_fuel lv lp = grind arith

glob_matches-Decides :
    (pattern value : Bytes)
    → Decides (HasNoStar value) (Matches pattern value) (glob_matches pattern value)
unfolding glob_matches
glob_matches-Decides pattern value =
    loop-Decides pattern value (HasNoStar value) (Matches pattern value) (λ p. p) _ start
      (record {
        now = λ m. m;
        later = λ p. leave refl;
        saved = λ p m. m;
        order = omega arith;
        value_bound = omega arith;
        pattern_bound = omega arith;
        enough = enough_fuel (length value) (length pattern);
      })

-- The glob loop ends within its fuel on every pattern and value.
pub glob_matches_total :
    (pattern value : Bytes) → (answer : Bool) × (glob_matches pattern value ≡ some answer)
glob_matches_total pattern value =
    answered (glob_matches pattern value) (glob_matches-Decides pattern value)
  where
    answered :
        (r : Option Bool)
        → Decides (HasNoStar value) (Matches pattern value) r
        → (answer : Bool) × (r ≡ some answer)
    answered none h = absurd h
    answered (some b) h = (b, refl)

-- Where the glob loop answers true, the value matches the pattern, for any value.
pub glob_matches_sound :
    (pattern value : Bytes) → glob_matches pattern value ≡ some true → Matches pattern value
glob_matches_sound pattern value =
    decided (glob_matches pattern value) (glob_matches-Decides pattern value)
  where
    decided :
        (r : Option Bool)
        → Decides (HasNoStar value) (Matches pattern value) r
        → r ≡ some true
        → Matches pattern value
    decided none h = absurd h
    decided (some true) h = λ e. h
    decided (some false) h = λ e. cc

-- For a value without a star the glob loop answers true exactly if the value matches the pattern
-- in the inductive sense.
pub glob_matches_iff :
    (pattern value : Bytes)
    → HasNoStar value
    → (glob_matches pattern value ≡ some true) ↔ Matches pattern value
glob_matches_iff pattern value plain =
    decided (glob_matches pattern value) (glob_matches-Decides pattern value)
  where
    decided :
        (r : Option Bool)
        → Decides (HasNoStar value) (Matches pattern value) r
        → (r ≡ some true) ↔ Matches pattern value
    decided none h = absurd h
    decided (some true) h = (λ e. h, λ m. refl)
    decided (some false) h = (λ e. cc, λ m. absurd (h plain m))
