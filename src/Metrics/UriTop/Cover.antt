-- ===== src/Metrics/UriTop/Cover.antt =====
-- Distinct URIs that all stand in a list are no more than it is long.
use rload.Prelude.{
  suc, ◌≤◌, ◌≡◌, refl, sym, ap, ◌∙◌, ◌≢◌, inl, inr, false, List, [], ◌∷◌, arith, if◌then◌else◌,
  Bool-cases, Bytes, length, bytes_eq, bytes_eq_sound, All, Any, All-both,
}
use rload.Metrics.UriTop.Entries.{IsDistinct, bytes_eq-ne}

remove_one : Bytes → List Bytes → List Bytes
remove_one u [] = []
remove_one u (x ∷ xs) = if bytes_eq x u then xs else x ∷ remove_one u xs

length-remove_one :
    (u : Bytes) (xs : List Bytes) → Any (λ x. x ≡ u) xs → length xs ≡ suc (length (remove_one u xs))
unfolding remove_one
length-remove_one u [] h = absurd h
length-remove_one u (x ∷ xs) h = elim (Bool-cases (bytes_eq x u)) [
  | inl k ↦ rw k refl
  | inr k ↦ rw k (ap suc (length-remove_one u xs (later h k)))
]
  where
    later : Any (λ y. y ≡ u) (x ∷ xs) → bytes_eq x u ≡ false → Any (λ y. y ≡ u) xs
    later (inl e) k = absurd (bytes_eq-ne x u k e)
    later (inr r) k = r

Any-remove_one :
    (u v : Bytes) (xs : List Bytes)
    → v ≢ u
    → Any (λ x. x ≡ v) xs
    → Any (λ x. x ≡ v) (remove_one u xs)
unfolding remove_one
Any-remove_one u v [] ne h = absurd h
Any-remove_one u v (x ∷ xs) ne (inl e) = elim (Bool-cases (bytes_eq x u)) [
  | inl k ↦ absurd (ne (sym e ∙ bytes_eq_sound x u k))
  | inr k ↦ rw (k, Any) (inl e)
]
Any-remove_one u v (x ∷ xs) ne (inr h) = elim (Bool-cases (bytes_eq x u)) [
  | inl k ↦ rw k h
  | inr k ↦ rw (k, Any) (inr (Any-remove_one u v xs ne h))
]

pub length-le_of_cover :
    (vs xs : List Bytes) → IsDistinct vs → All (λ v. Any (λ x. x ≡ v) xs) vs → length vs ≤ length xs
length-le_of_cover [] xs d h = omega arith
length-le_of_cover (v ∷ vs) xs d h = omega (
  arith,
  length-remove_one v xs h.0,
  length-le_of_cover vs (remove_one v xs) d.1
      (All-both vs (λ w ne m. Any-remove_one v w xs ne m) d.0 h.1),
)
