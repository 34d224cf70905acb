-- ===== src/Metrics/UriTop/MergedUris.antt =====
-- The URIs of a merge: those of both tables, each once.
use rload.Prelude.{
  ℕ, ◌≡◌, refl, sym, ap, subst, ◌≢◌, inl, inr, none, some, List, [], ◌∷◌, ◌++◌, map, Bool-cases,
  Option-cases, Bytes, bytes_eq, bytes_eq_sound, All, Any, All-imp,
}
use rload.Metrics.UriTop.Sort.{UriStatistic}
use rload.Metrics.UriTop.Defs.{find_entry, combine, only_other}
use rload.Metrics.UriTop.Entries.{find_entry-none, uris, Absent, IsDistinct, present-ne-Absent}

-- Facts on the URIs alone.
pub uris-combine :
    (om : ℕ) (others es : List UriStatistic) → uris (map (combine om others) es) ≡ uris es
unfolding combine
uris-combine om others [] = refl
uris-combine om others (e ∷ es) = elim (Option-cases (find_entry e.uri others)) [
  | inl k ↦ rw (k, combine, uris) (ap (◌∷◌ e.uri) (uris-combine om others es))
  | inr (o, k) ↦ rw (k, combine, uris) (ap (◌∷◌ e.uri) (uris-combine om others es))
]

-- Any property of URIs passes to those that only the other table has.
pub only_other-All :
    (P : Bytes → Type 0) (sm : ℕ) (selves es : List UriStatistic)
    → All P (uris es)
    → All P (uris (only_other sm selves es))
unfolding only_other
only_other-All P sm selves [] h = tt
only_other-All P sm selves (e ∷ es) h = elim (Option-cases (find_entry e.uri selves)) [
  | inl k ↦ rw (k, uris) (h.0, only_other-All P sm selves es h.1)
  | inr (o, k) ↦ rw (k, uris) (only_other-All P sm selves es h.1)
]

pub only_other-IsDistinct :
    (sm : ℕ) (selves es : List UriStatistic)
    → IsDistinct (uris es)
    → IsDistinct (uris (only_other sm selves es))
unfolding only_other
only_other-IsDistinct sm selves [] h = tt
only_other-IsDistinct sm selves (e ∷ es) h = elim (Option-cases (find_entry e.uri selves)) [
  | inl k ↦
      rw (k, uris)
        (only_other-All (λ v. v ≢ e.uri) sm selves es h.0, only_other-IsDistinct sm selves es h.1)
  | inr (o, k) ↦ rw (k, uris) (only_other-IsDistinct sm selves es h.1)
]

only_other-new :
    (sm : ℕ) (selves es : List UriStatistic)
    → All (λ v. Absent v selves) (uris (only_other sm selves es))
unfolding only_other
only_other-new sm selves [] = tt
only_other-new sm selves (e ∷ es) = elim (Option-cases (find_entry e.uri selves)) [
  | inl k ↦ rw (k, uris) (find_entry-none e.uri selves k, only_other-new sm selves es)
  | inr (o, k) ↦ rw (k, uris) (only_other-new sm selves es)
]

transpose :
    (us vs : List Bytes) → All (λ v. All (λ w. w ≢ v) us) vs → All (λ u. All (λ v. v ≢ u) vs) us
transpose [] vs h = tt
transpose (u ∷ us) vs h =
    (All-imp vs (λ v a q. a.0 (sym q)) h, transpose us vs (All-imp vs (λ v a. a.1) h))

pub only_other-disjoint :
    (sm : ℕ) (selves es : List UriStatistic)
    → All (λ u. Absent u (only_other sm selves es)) (uris selves)
only_other-disjoint sm selves es = transpose (uris selves) _ (only_other-new sm selves es)

-- A URI that neither list of the merge shows is in neither table.
pub only_other-Absent :
    (u : Bytes) (sm : ℕ) (selves es : List UriStatistic)
    → Absent u selves
    → Absent u (only_other sm selves es)
    → Absent u es
unfolding only_other
only_other-Absent u sm selves [] a h = tt
only_other-Absent u sm selves (e ∷ es) a h = elim (Option-cases (find_entry e.uri selves)) [
  | inl k ↦
      let b : All (λ v. v ≢ u) (e.uri ∷ uris (only_other sm selves es)) = rw (k, uris) at h in
      (b.0, only_other-Absent u sm selves es a b.1)
  | inr (o, k) ↦ (present-ne e.uri o k, only_other-Absent u sm selves es a (rw (k, uris) at h))
]
  where
    present-ne : (v : Bytes) (o : UriStatistic) → find_entry v selves ≡ some o → v ≢ u
    present-ne v o k q = present-ne-Absent v u selves o k a (sym q)

Any-append_left :
    (u : Bytes) (us vs : List Bytes) → Any (λ x. x ≡ u) us → Any (λ x. x ≡ u) (us ++ vs)
Any-append_left u [] vs h = absurd h
Any-append_left u (x ∷ us) vs (inl e) = inl e
Any-append_left u (x ∷ us) vs (inr h) = inr (Any-append_left u us vs h)

Any-append_right :
    (u : Bytes) (us vs : List Bytes) → Any (λ x. x ≡ u) vs → Any (λ x. x ≡ u) (us ++ vs)
Any-append_right u [] vs h = h
Any-append_right u (x ∷ us) vs h = inr (Any-append_right u us vs h)

find_entry-Any :
    (u : Bytes) (es : List UriStatistic) (o : UriStatistic)
    → find_entry u es ≡ some o
    → Any (λ x. x ≡ u) (uris es)
unfolding find_entry
find_entry-Any u [] o h = cc
find_entry-Any u (e ∷ es) o h = elim (Bool-cases (bytes_eq e.uri u)) [
  | inl k ↦ inl (bytes_eq_sound e.uri u k)
  | inr k ↦ inr (find_entry-Any u es o (rw k at h))
]

uris-only_other_new :
    (sm : ℕ) (selves es : List UriStatistic) (e : UriStatistic)
    → find_entry e.uri selves ≡ none
    → uris (only_other sm selves (e ∷ es)) ≡ e.uri ∷ uris (only_other sm selves es)
unfolding only_other
uris-only_other_new sm selves es e k = rw (k, uris) refl

uris-only_other_known :
    (sm : ℕ) (selves es : List UriStatistic) (e o : UriStatistic)
    → find_entry e.uri selves ≡ some o
    → uris (only_other sm selves (e ∷ es)) ≡ uris (only_other sm selves es)
unfolding only_other
uris-only_other_known sm selves es e o k = rw (k, uris) refl

-- Each URI of the other table is among the merged ones.
pub cover :
    (sm : ℕ) (selves es : List UriStatistic)
    → All (λ v. Any (λ x. x ≡ v) (uris selves ++ uris (only_other sm selves es))) (uris es)
cover sm selves [] = tt
cover sm selves (e ∷ es) = elim (Option-cases (find_entry e.uri selves)) [
  | inl k ↦
      subst (λ w. All (λ v. Any (λ x. x ≡ v) (uris selves ++ w)) (uris (e ∷ es)))
        (sym (uris-only_other_new sm selves es e k))
        (
          Any-append_right e.uri (uris selves) _ (inl refl),
          All-imp (uris es) (λ v h. widen v h) (cover sm selves es),
        )
  | inr (o, k) ↦
      subst (λ w. All (λ v. Any (λ x. x ≡ v) (uris selves ++ w)) (uris (e ∷ es)))
        (sym (uris-only_other_known sm selves es e o k))
        (
          Any-append_left e.uri (uris selves) _ (find_entry-Any e.uri selves o k),
          cover sm selves es,
        )
]
  where
    widen :
        (v : Bytes)
        → Any (λ x. x ≡ v) (uris selves ++ uris (only_other sm selves es))
        → Any (λ x. x ≡ v) (uris selves ++ e.uri ∷ uris (only_other sm selves es))
    widen v h = grow (uris selves) h
      where
        grow :
            (us : List Bytes)
            → Any (λ x. x ≡ v) (us ++ uris (only_other sm selves es))
            → Any (λ x. x ≡ v) (us ++ e.uri ∷ uris (only_other sm selves es))
        grow [] q = inr q
        grow (w ∷ us) (inl q) = inl q
        grow (w ∷ us) (inr q) = inr (grow us q)
