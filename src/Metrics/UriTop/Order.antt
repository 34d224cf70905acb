-- ===== src/Metrics/UriTop/Order.antt =====
-- What the sort keeps, and that after a cut no dropped entry exceeds a kept one.
use rload.Prelude.{
  ℕ, zero, suc, ◌≤◌, ◌≡◌, refl, sym, ◌≢◌, ◌⊎◌, inl, inr, true, false, List, [], ◌∷◌, arith,
  Bool-cases, Bytes, length, take, bytes_eq, bytes_eq_sound, All, All-imp, All-both,
}
use rload.Metrics.UriTop.Sort.{UriStatistic, is_before, insert_entry, sort_entries}
use rload.Metrics.UriTop.Entries.{uris, Absent, IsDistinct, AtLeast, bytes_eq-ne}

-- The counts fall along the list.
abbrev pub IsDescending : List UriStatistic → Type 0
IsDescending [] = Unit {0}
IsDescending (e ∷ es) = All (λ x. x.estimated_requests ≤ e.estimated_requests) es × IsDescending es

is_before-true :
    (e x : UriStatistic) → is_before e x ≡ true → x.estimated_requests ≤ e.estimated_requests
unfolding is_before
is_before-true e x h = ground arith

is_before-false :
    (e x : UriStatistic) → is_before e x ≡ false → e.estimated_requests ≤ x.estimated_requests
unfolding is_before
is_before-false e x h = ground arith

module _ {κ} (P : UriStatistic → Type κ) where
  insert_entry-All :
      (e : UriStatistic) (es : List UriStatistic) → P e → All P es → All P (insert_entry e es)
  unfolding insert_entry
  insert_entry-All e [] p a = (p, tt)
  insert_entry-All e (x ∷ xs) p a = elim (Bool-cases (is_before e x)) [
    | inl h ↦ rw (h, All) (p, a)
    | inr h ↦ rw (h, All) (a.0, insert_entry-All e xs p a.1)
  ]

  All-insert_entry :
      (e : UriStatistic) (es : List UriStatistic) → All P (insert_entry e es) → P e × All P es
  unfolding insert_entry
  All-insert_entry e [] a = (a.0, tt)
  All-insert_entry e (x ∷ xs) a = elim (Bool-cases (is_before e x)) [
    | inl h ↦ let b : All P (e ∷ x ∷ xs) = rw h at a in (b.0, b.1)
    | inr h ↦
        let b : All P (x ∷ insert_entry e xs) = rw h at a in
        let (pe, rest) = All-insert_entry e xs b.1 in (pe, (b.0, rest))
  ]

  pub sort_entries-All : (es : List UriStatistic) → All P es → All P (sort_entries es)
  unfolding sort_entries
  sort_entries-All [] a = tt
  sort_entries-All (e ∷ es) a = insert_entry-All e _ a.0 (sort_entries-All es a.1)

  pub All-sort_entries : (es : List UriStatistic) → All P (sort_entries es) → All P es
  unfolding sort_entries
  All-sort_entries [] a = tt
  All-sort_entries (e ∷ es) a =
      let (p, rest) = All-insert_entry e _ a in (p, All-sort_entries es rest)

-- `Absent` as a property of entries.
pub Absent-All : (u : Bytes) (es : List UriStatistic) → Absent u es → All (λ e. e.uri ≢ u) es
Absent-All u [] h = tt
Absent-All u (e ∷ es) h = (h.0, Absent-All u es h.1)

pub All-Absent : (u : Bytes) (es : List UriStatistic) → All (λ e. e.uri ≢ u) es → Absent u es
All-Absent u [] h = tt
All-Absent u (e ∷ es) h = (h.0, All-Absent u es h.1)

insert_entry-IsDistinct :
    (e : UriStatistic) (es : List UriStatistic)
    → Absent e.uri es
    → IsDistinct (uris es)
    → IsDistinct (uris (insert_entry e es))
unfolding insert_entry
insert_entry-IsDistinct e [] a d = (tt, tt)
insert_entry-IsDistinct e (x ∷ xs) a d = elim (Bool-cases (is_before e x)) [
  | inl h ↦ rw (h, IsDistinct) (a, d)
  | inr h ↦
      rw (h, IsDistinct)
        (
          All-Absent x.uri _ (
              insert_entry-All (λ y. y.uri ≢ x.uri) e xs (λ q. a.0 (sym q))
                (Absent-All x.uri xs d.0)),
          insert_entry-IsDistinct e xs a.1 d.1,
        )
]

pub sort_entries-IsDistinct :
    (es : List UriStatistic) → IsDistinct (uris es) → IsDistinct (uris (sort_entries es))
unfolding sort_entries
sort_entries-IsDistinct [] d = tt
sort_entries-IsDistinct (e ∷ es) d =
    insert_entry-IsDistinct e (sort_entries es)
      (All-Absent e.uri _ (sort_entries-All (λ y. y.uri ≢ e.uri) es (Absent-All e.uri es d.0)))
      (sort_entries-IsDistinct es d.1)

insert_entry-IsDescending :
    (e : UriStatistic) (es : List UriStatistic) → IsDescending es → IsDescending (insert_entry e es)
unfolding insert_entry
insert_entry-IsDescending e [] d = (tt, tt)
insert_entry-IsDescending e (x ∷ xs) d = elim (Bool-cases (is_before e x)) [
  | inl h ↦
      let le = is_before-true e x h in
      rw (h, IsDescending)
        (
          (
            le,
            All-imp xs (λ y (q : y.estimated_requests ≤ x.estimated_requests). omega (arith, le))
                d.0,
          ),
          d,
        )
  | inr h ↦
      rw (h, IsDescending)
        (
          insert_entry-All (λ y. y.estimated_requests ≤ x.estimated_requests) e xs
              (is_before-false e x h) d.0,
          insert_entry-IsDescending e xs d.1,
        )
]

pub sort_entries-IsDescending : (es : List UriStatistic) → IsDescending (sort_entries es)
unfolding sort_entries
sort_entries-IsDescending [] = tt
sort_entries-IsDescending (e ∷ es) = insert_entry-IsDescending e _ (sort_entries-IsDescending es)

length-insert_entry :
    (e : UriStatistic) (es : List UriStatistic) → length (insert_entry e es) ≡ suc (length es)
unfolding insert_entry
length-insert_entry e [] = refl
length-insert_entry e (x ∷ xs) = ground (arith, length-insert_entry e xs)

pub length-sort_entries : (es : List UriStatistic) → length (sort_entries es) ≡ length es
unfolding sort_entries
length-sort_entries [] = refl
length-sort_entries (e ∷ es) =
    omega (arith, length-insert_entry e (sort_entries es), length-sort_entries es)

-- A URI that the cut removed stood in an entry no larger than any that stays.
pub take-dropped :
    (P : UriStatistic → Type 0) (n : ℕ) (u : Bytes) (es : List UriStatistic)
    → IsDescending es
    → All P es
    → Absent u (take n es)
    → Absent u es
      ⊎ ((x : UriStatistic) × (x.uri ≡ u)
          × P x
          × AtLeast x.estimated_requests (take n es)
          × (n ≤ length es))
take-dropped P zero u es d p a = elim (dropped es p) [
  | inl h ↦ inl h
  | inr (x, q, px) ↦ inr (x, q, px, tt, omega arith)
]
  where
    dropped :
        (es : List UriStatistic) → All P es → Absent u es ⊎ ((x : UriStatistic) × (x.uri ≡ u) × P x)
    dropped [] p = inl tt
    dropped (e ∷ es) p = elim (Bool-cases (bytes_eq e.uri u)) [
      | inl k ↦ inr (e, bytes_eq_sound e.uri u k, p.0)
      | inr k ↦ elim (dropped es p.1) [ inl h ↦ inl (bytes_eq-ne e.uri u k, h) | inr h ↦ inr h ]
    ]
take-dropped P (suc n) u [] d p a = inl tt
take-dropped P (suc n) u (e ∷ es) d p a =
    elim (take-dropped (λ x. P x × (x.estimated_requests ≤ e.estimated_requests)) n u es d.1
      (All-both es (λ y k l. (k, l)) p.1 d.0) a.1) [
        | inl h ↦ inl (a.0, h)
        | inr (x, q, px, least, le) ↦ inr (x, q, px.0, (px.1, least), omega arith)
      ]

take-Absent : (n : ℕ) (u : Bytes) (es : List UriStatistic) → Absent u es → Absent u (take n es)
take-Absent zero u es a = tt
take-Absent (suc n) u [] a = tt
take-Absent (suc n) u (e ∷ es) a = (a.0, take-Absent n u es a.1)

pub take-IsDistinct :
    (n : ℕ) (es : List UriStatistic) → IsDistinct (uris es) → IsDistinct (uris (take n es))
take-IsDistinct zero es d = tt
take-IsDistinct (suc n) [] d = tt
take-IsDistinct (suc n) (e ∷ es) d = (take-Absent n e.uri es d.0, take-IsDistinct n es d.1)
