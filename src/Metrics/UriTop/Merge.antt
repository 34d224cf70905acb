-- ===== src/Metrics/UriTop/Merge.antt =====
-- `merge` keeps the promise of both tables for the two histories together.
use rload.Prelude.{
  ℕ, ◌+◌, ◌≤◌, ◌<◌, min, ◌≡◌, sym, ap, ◌∙◌, subst, ◌≢◌, inl, inr, List, [], ◌∷◌, ◌++◌, map, arith,
  ltb, ltb→lt, tests, Bool-cases, Option-cases, Bytes, length, take, length-append, length-take,
  All, All-append, All-append_left, All-append_right, All-take, All-imp, u64_mod,
}
use rload.Metrics.UriTop.Sort.{UriStatistic, sort_entries}
use rload.Metrics.UriTop.Defs.{
  UriTop, find_entry, minimum_count, combine, only_other, merged_entries, merge,
}
use rload.Metrics.UriTop.Entries.{
  uris, Absent, IsDistinct, AtLeast, find_entry-none, find_entry-some, uris-append,
  IsDistinct-append, length-uris,
}
use rload.Metrics.UriTop.Order.{
  sort_entries-All, All-sort_entries, Absent-All, All-Absent, sort_entries-IsDistinct,
  sort_entries-IsDescending, length-sort_entries, take-dropped, take-IsDistinct,
}
use rload.Metrics.UriTop.Cover.{length-le_of_cover}
use rload.Metrics.UriTop.MergedUris.{
  uris-combine, only_other-IsDistinct, only_other-disjoint, only_other-Absent, cover,
}
use rload.Metrics.UriTop.Invariant.{
  Bounds, Inv, minimum_count-not_full, minimum_count-AtLeast, le-minimum_count, minimum_count-le,
}

-- The histories `c` with `n` requests and `d` with `k` requests, and both together.
module _ (c d both : Bytes → ℕ) (n k : ℕ) (t s : UriTop) (sum : (u : Bytes) → both u ≡ c u + d u)
    (small : n + k < u64_mod) (i : Inv c n t) (j : Inv d k s) where
  merged_uris :
      uris (merged_entries t s)
      ≡ uris t.entries ++ uris (only_other (minimum_count t) t.entries s.entries)
  unfolding merged_entries
  merged_uris =
      uris-append (map (combine (minimum_count s) s.entries) t.entries) _
      ∙ ap (λ w. w ++ uris (only_other (minimum_count t) t.entries s.entries))
          (uris-combine (minimum_count s) s.entries t.entries)

  -- An entry of this table, with what the other one knows of its URI.
  combine-Bounds :
      (e : UriStatistic)
      → Bounds c n e
      → (minimum_count t ≤ e.estimated_requests)
      → Bounds both (n + k) (combine (minimum_count s) s.entries e)
        × (minimum_count t + minimum_count s
            ≤ (combine (minimum_count s) s.entries e).estimated_requests)
  unfolding combine
  combine-Bounds e b least = elim (Option-cases (find_entry e.uri s.entries)) [
    | inl q ↦
        let om = minimum_count-le d k s j in
        let low = j.absent e.uri (find_entry-none e.uri s.entries q) in
        rw (q, combine)
          (
            record {
              upper = omega (arith, sum e.uri, b.upper, b.estimate_le, om, low);
              lower = omega (arith, sum e.uri, b.lower, b.estimate_le, b.error_le, om);
              estimate_le = omega (arith, b.estimate_le, om);
              error_le = omega (arith, b.error_le, om);
            },
            omega (arith, least, b.estimate_le, om),
          )
    | inr (o, q) ↦
        let (same, bo) = find_entry-some (Bounds d k) e.uri s.entries o q j.bounds in
        let lo =
          (find_entry-some (λ x. minimum_count s ≤ x.estimated_requests) e.uri s.entries o q
            (minimum_count-AtLeast s)).1 in
        let up : d e.uri ≤ o.estimated_requests =
          subst (λ u. d u ≤ o.estimated_requests) same bo.upper in
        let dn : o.estimated_requests ≤ d e.uri + o.maximum_error =
          subst (λ u. o.estimated_requests ≤ d u + o.maximum_error) same bo.lower in
        rw (q, combine)
          (
            record {
              upper = omega (arith, sum e.uri, b.upper, b.estimate_le, bo.estimate_le, up);
              lower = omega (
                arith,
                sum e.uri,
                b.lower,
                b.estimate_le,
                b.error_le,
                dn,
                bo.estimate_le,
                bo.error_le,
              );
              estimate_le = omega (arith, b.estimate_le, bo.estimate_le);
              error_le = omega (arith, b.error_le, bo.error_le);
            },
            omega (arith, least, lo, b.estimate_le, bo.estimate_le),
          )
  ]

  -- What is known of each merged entry.
  abbrev Good : UriStatistic → Type 0
  Good e = Bounds both (n + k) e × (minimum_count t + minimum_count s ≤ e.estimated_requests)

  self_part :
      (es : List UriStatistic)
      → All (Bounds c n) es
      → AtLeast (minimum_count t) es
      → All Good (map (combine (minimum_count s) s.entries) es)
  self_part [] b l = tt
  self_part (e ∷ es) b l = (combine-Bounds e b.0 l.0, self_part es b.1 l.1)

  other_part :
      (es : List UriStatistic)
      → All (Bounds d k) es
      → AtLeast (minimum_count s) es
      → All Good (only_other (minimum_count t) t.entries es)
  unfolding only_other
  other_part [] b l = tt
  other_part (e ∷ es) b l = elim (Option-cases (find_entry e.uri t.entries)) [
    | inr (o, q) ↦ rw (q, All) (other_part es b.1 l.1)
    | inl q ↦
        let sm = minimum_count-le c n t i in
        let low = i.absent e.uri (find_entry-none e.uri t.entries q) in
        rw (q, All)
          (
            (
              record {
                upper = omega (arith, sum e.uri, b.0.upper, b.0.estimate_le, sm, low);
                lower = omega (arith, sum e.uri, b.0.lower, b.0.estimate_le, b.0.error_le, sm);
                estimate_le = omega (arith, b.0.estimate_le, sm);
                error_le = omega (arith, b.0.error_le, sm);
              },
              omega (arith, l.0, b.0.estimate_le, sm),
            ),
            other_part es b.1 l.1,
          )
  ]

  merged-Good : All Good (merged_entries t s)
  unfolding merged_entries
  merged-Good =
      All-append Good (map (combine (minimum_count s) s.entries) t.entries) _
        (self_part t.entries i.bounds (minimum_count-AtLeast t))
        (other_part s.entries j.bounds (minimum_count-AtLeast s))

  merged-IsDistinct : IsDistinct (uris (merged_entries t s))
  merged-IsDistinct = subst IsDistinct (sym merged_uris) (
      IsDistinct-append (uris t.entries) _ i.distinct
        (only_other-IsDistinct (minimum_count t) t.entries s.entries j.distinct)
        (only_other-disjoint (minimum_count t) t.entries s.entries))

  length-merged_left : length t.entries ≤ length (merged_entries t s)
  length-merged_left = omega (
    arith,
    ap length merged_uris,
    length-uris t.entries,
    length-uris (merged_entries t s),
    length-append (uris t.entries) (uris (only_other (minimum_count t) t.entries s.entries)),
  )

  length-merged_right : length s.entries ≤ length (merged_entries t s)
  length-merged_right = omega (
    arith,
    ap length merged_uris,
    length-uris s.entries,
    length-uris (merged_entries t s),
    length-le_of_cover (uris s.entries) _ j.distinct (cover (minimum_count t) t.entries s.entries),
  )

  -- A positive least count on either side means that the merge fills the table.
  merged-full :
      t.capacity ≡ s.capacity
      → 0 < minimum_count t + minimum_count s
      → t.capacity ≤ length (merged_entries t s)
  merged-full same h = elim (Bool-cases (ltb (length t.entries) t.capacity)) [
    | inr q ↦ omega (tests, length-merged_left)
    | inl q ↦ elim (Bool-cases (ltb (length s.entries) s.capacity)) [
      | inr r ↦ omega (tests, length-merged_right)
      | inl r ↦ absurd (
          omega (
            arith,
            minimum_count-not_full t (ltb→lt _ _ q),
            minimum_count-not_full s (ltb→lt _ _ r),
          ))
    ]
  ]

  kept : List UriStatistic
  kept = take t.capacity (sort_entries (merged_entries t s))

  length-kept : length kept ≡ min t.capacity (length (merged_entries t s))
  unfolding kept
  length-kept = omega (
    arith,
    length-take t.capacity (sort_entries (merged_entries t s)),
    length-sort_entries (merged_entries t s),
  )

  -- A URI that no merged entry has is in neither table.
  neither : (u : Bytes) → Absent u (merged_entries t s) → both u ≤ minimum_count t + minimum_count s
  neither u a =
      let all : All (λ v. v ≢ u)
          (uris t.entries ++ uris (only_other (minimum_count t) t.entries s.entries)) =
        subst (All (λ v. v ≢ u)) merged_uris a in
      let left : Absent u t.entries = All-append_left _ (uris t.entries) _ all in
      let right =
        only_other-Absent u (minimum_count t) t.entries s.entries left
          (All-append_right _ (uris t.entries) _ all) in
      omega (arith, sum u, i.absent u left, j.absent u right)

  no_minimum :
      t.capacity ≡ s.capacity → length kept < t.capacity → minimum_count t + minimum_count s ≡ 0
  no_minimum same h = elim (Bool-cases (ltb 0 (minimum_count t + minimum_count s))) [
    | inl q ↦ absurd (omega (arith, length-kept, merged-full same (ltb→lt _ _ q)))
    | inr q ↦ omega tests
  ]

  kept-AtLeast : AtLeast (minimum_count t + minimum_count s) kept
  unfolding kept
  kept-AtLeast = All-take _ t.capacity _ (
      sort_entries-All _ (merged_entries t s)
        (All-imp (merged_entries t s) (λ e (good : Good e). good.1) merged-Good))

  merged-Absent :
      t.capacity ≡ s.capacity
      → 0 < t.capacity
      → (u : Bytes) → Absent u kept
      → both u ≤ minimum_count (merge t s)
  unfolding merge kept
  merged-Absent same room u a =
      elim (take-dropped Good t.capacity u (sort_entries (merged_entries t s))
        (sort_entries-IsDescending (merged_entries t s))
        (sort_entries-All Good (merged_entries t s) merged-Good) a) [
          | inl none_has ↦
              let bound =
                neither u (
                  All-Absent u _ (All-sort_entries (λ e. e.uri ≢ u) _ (Absent-All u _ none_has))) in
              omega (
                arith,
                bound,
                le-minimum_count (minimum_count t + minimum_count s) (merge t s)
                    (λ h. no_minimum same h) (λ h. omega (arith, length-kept, merged-full same h))
                    kept-AtLeast,
              )
          | inr (x, q, good, least, full) ↦
              let bound : both u ≤ x.estimated_requests =
                subst (λ v. both v ≤ x.estimated_requests) q good.0.upper in
              omega (
                arith,
                bound,
                le-minimum_count x.estimated_requests (merge t s)
                    (λ h.
                      absurd (
                        omega (arith, length-kept, full, length-sort_entries (merged_entries t s))))
                    (λ h.
                      omega (arith, length-kept, full, length-sort_entries (merged_entries t s)))
                    least,
              )
        ]

  -- The merged table's promise.
  pub merge-Inv : t.capacity ≡ s.capacity → 0 < t.capacity → Inv both (n + k) (merge t s)
  unfolding merge kept
  merge-Inv same room = record {
    bounds = All-take _ t.capacity _ (
        sort_entries-All _ (merged_entries t s)
          (All-imp (merged_entries t s) (λ e (good : Good e). good.0) merged-Good));
    distinct =
        take-IsDistinct t.capacity _
          (sort_entries-IsDistinct (merged_entries t s) merged-IsDistinct);
    absent = merged-Absent same room;
    fits = omega (arith, length-take t.capacity (sort_entries (merged_entries t s)));
  }
