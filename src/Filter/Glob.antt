-- ===== src/Filter/Glob.antt =====
-- `glob_matches` of src/replay_filter.rs: the loop over byte indices with one saved star. It runs on
-- fuel, `none` when that runs out.
pub mod Pattern
pub mod Step
pub mod Correct
pub mod StarLiteral
use rload.Prelude.{
  ℕ, zero, suc, ◌+◌, ◌*◌, Bytes, length, get_elem?, Bool, true, false, ◌==◌, ltb, Option, none,
  some, if◌then◌else◌,
}

-- The local variables of the loop.
pub record Cursor : Type 0 where
  pub pattern_index : ℕ
  pub value_index : ℕ
  pub star : Option ℕ
  pub retry_value : ℕ

-- `slice.get(index) == Some(&byte)`
abbrev pub is_at : Bytes → ℕ → ℕ → Bool
is_at bytes index byte = elim (get_elem? bytes index) [ none ↦ false | some b ↦ b == byte ]

-- The third and the last branch of the loop: back to the saved star, or `return false`.
unfoldable pub backtrack : Cursor → Option ℕ → Option Cursor
backtrack c none = none
backtrack c (some star_index) = some (record c {
  retry_value = c.retry_value + 1;
  value_index = c.retry_value + 1;
  pattern_index = star_index + 1;
  star = some star_index;
})

-- One round at the value byte `byte`; `none` is `return false`.
unfoldable pub step : Bytes → ℕ → Cursor → Option Cursor
step pattern byte c =
    if is_at pattern c.pattern_index byte
    then some (record c { pattern_index = c.pattern_index + 1; value_index = c.value_index + 1 })
    else if is_at pattern c.pattern_index b'*'
    then some (record c {
      star = some c.pattern_index;
      pattern_index = c.pattern_index + 1;
      retry_value = c.value_index;
    })
    else backtrack c c.star

-- `while pattern.get(pattern_index) == Some(&b'*') { pattern_index += 1 }`
unfoldable pub skip_stars : ℕ → Bytes → ℕ → Option ℕ
skip_stars zero pattern index = none
skip_stars (suc fuel) pattern index =
    let rest = skip_stars fuel pattern (index + 1) in
    if is_at pattern index b'*' then rest else some index

-- The end of the function: trailing stars, then `pattern_index == pattern.len()`.
unfoldable pub finish : Bytes → ℕ → Option Bool
finish pattern index = elim (skip_stars (suc (length pattern)) pattern index) [
  | none ↦ none
  | some last ↦ some (last == length pattern)
]

unfoldable pub loop : ℕ → Bytes → Bytes → Cursor → Option Bool
loop zero pattern value c = none
loop (suc fuel) pattern value c = elim (get_elem? value c.value_index) [
  | none ↦ finish pattern c.pattern_index
  | some byte ↦ elim (step pattern byte c) [
    | none ↦ some false
    | some c' ↦ loop fuel pattern value c'
  ]
]

abbrev pub start : Cursor
start = record { pattern_index = 0; value_index = 0; star = none; retry_value = 0 }

unfoldable pub glob_matches : Bytes → Bytes → Option Bool
glob_matches pattern value = loop ((length value + 2) * (length pattern + 2)) pattern value start
