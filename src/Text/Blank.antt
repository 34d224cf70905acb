-- ===== src/Text/Blank.antt =====
-- Which texts `trim` leaves nothing of.
use rload.Prelude.{
  ℕ, ◌≡◌, refl, ◌≢◌, inl, inr, true, false, ◌&&◌, List, [], ◌∷◌, leb, is_empty, Bool-cases, Bytes,
  All,
}
use rload.Text.Split.{is_whitespace}
use rload.Text.Chars.{
  attach, begins_inside, characters, point, without_first_blanks, without_last_blanks, joined,
  trim_text,
}

-- A text of whitespace alone.
abbrev pub IsBlank : Bytes → Type 0
IsBlank text = All (λ c. is_whitespace (point c) ≡ true) (characters text)

abbrev AreFilled : List Bytes → Type 0
AreFilled cs = All (λ c. c ≢ []) cs

attach-AreFilled : (b : ℕ) (cs : List Bytes) → AreFilled cs → AreFilled (attach b cs)
attach-AreFilled b [] h = (λ e. cc, tt)
attach-AreFilled b (c ∷ cs) h = elim (Bool-cases (leb 0x80 b && begins_inside c)) [
  | inl k ↦ rw k (λ e. cc, h.1)
  | inr k ↦ rw k (λ e. cc, h)
]

characters-AreFilled : (text : Bytes) → AreFilled (characters text)
unfolding characters
characters-AreFilled [] = tt
characters-AreFilled (b ∷ bs) = attach-AreFilled b (characters bs) (characters-AreFilled bs)

without_first_blanks-AreFilled :
    (cs : List Bytes) → AreFilled cs → AreFilled (without_first_blanks cs)
unfolding without_first_blanks
without_first_blanks-AreFilled [] h = tt
without_first_blanks-AreFilled (c ∷ cs) h = elim (Bool-cases (is_whitespace (point c))) [
  | inl k ↦ rw k (without_first_blanks-AreFilled cs h.1)
  | inr k ↦ rw k h
]

-- Something is left of a character that is no blank.
without_last_blanks-left :
    (c : Bytes) (cs : List Bytes)
    → c ≢ []
    → is_whitespace (point c) ≡ false
    → joined (without_last_blanks (c ∷ cs)) ≢ []
unfolding without_last_blanks joined
without_last_blanks-left [] cs filled k = absurd (filled refl)
without_last_blanks-left (x ∷ c) cs filled k =
    elim (Bool-cases (is_empty (without_last_blanks cs))) [
      | inl e ↦ rw (k, e) (λ h. cc)
      | inr e ↦ rw (k, e) (λ h. cc)
    ]

all_blank :
    (cs : List Bytes)
    → AreFilled cs
    → joined (without_last_blanks (without_first_blanks cs)) ≡ []
    → All (λ c. is_whitespace (point c) ≡ true) cs
unfolding without_first_blanks
all_blank [] h e = tt
all_blank (c ∷ cs) h e = elim (Bool-cases (is_whitespace (point c))) [
  | inl k ↦ (k, all_blank cs h.1 (rw k at e))
  | inr k ↦ absurd (without_last_blanks-left c cs h.0 k (rw k at e))
]

none_left :
    (cs : List Bytes) → All (λ c. is_whitespace (point c) ≡ true) cs → without_first_blanks cs ≡ []
unfolding without_first_blanks
none_left [] h = refl
none_left (c ∷ cs) h = rw h.0 (none_left cs h.1)

pub trim_text-IsBlank_sound : (text : Bytes) → trim_text text ≡ [] → IsBlank text
unfolding trim_text
trim_text-IsBlank_sound text e = all_blank (characters text) (characters-AreFilled text) e

pub trim_text-IsBlank_complete : (text : Bytes) → IsBlank text → trim_text text ≡ []
unfolding trim_text without_last_blanks joined
trim_text-IsBlank_complete text h = rw (none_left (characters text) h) refl
