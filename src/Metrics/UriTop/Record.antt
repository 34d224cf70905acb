-- ===== src/Metrics/UriTop/Record.antt =====
-- `record` keeps the promise of the table, and never panics on a table that can hold an entry.
use rload.Prelude.{
  ℕ, ◌+◌, ◌≤◌, ◌<◌, ◌≡◌, refl, sym, subst, ◌≢◌, inl, inr, false, none, some, List, [], ◌∷◌, ◌++◌,
  arith, ltb, ◌==◌, ltb→lt, tests, Bool-cases, Option-cases, Bytes, length, length-append, bytes_eq,
  bytes_eq_sound, All, Any, All-append, All-append_left, All-append_right, All-imp, Any-All,
  u64_mod, add64,
}
use rload.Metrics.UriTop.Sort.{UriStatistic}
use rload.Metrics.UriTop.Defs.{
  UriTop, find_entry, raise, minimum, replace_first, minimum_count, record_weight, record_uri,
}
use rload.Metrics.UriTop.Entries.{
  uris, Absent, IsDistinct, AtLeast, bytes_eq-ne, find_entry-none, present-ne-Absent, uris-raise,
  length-raise, length-replace_first, minimum-AtLeast, minimum-Any, minimum-none, uris-append,
  IsDistinct-append, replace_first-IsDistinct, replace_first-gone, replace_first-AtLeast,
}
use rload.Metrics.UriTop.Invariant.{
  Bounds, Inv, minimum_count-not_full, minimum_count-full, minimum_count-AtLeast, le-minimum_count,
  minimum_count-pos, minimum_count-le,
}

-- One more request of `uri`, in the history `c` with `n` requests, gives the history `d`.
module _ (uri : Bytes) (c d : Bytes → ℕ) (n : ℕ) (hit : d uri ≡ c uri + 1)
    (miss : (u : Bytes) → u ≢ uri → d u ≡ c u) (small : n + 1 < u64_mod) where
  Bounds-other : (e : UriStatistic) → e.uri ≢ uri → Bounds c n e → Bounds d (n + 1) e
  Bounds-other e ne b = record {
    upper = omega (arith, miss e.uri ne, b.upper);
    lower = omega (arith, miss e.uri ne, b.lower);
    estimate_le = omega (arith, b.estimate_le);
    error_le = omega (arith, b.error_le);
  }

  Bounds-rest :
      (es : List UriStatistic) → Absent uri es → All (Bounds c n) es → All (Bounds d (n + 1)) es
  Bounds-rest [] a b = tt
  Bounds-rest (e ∷ es) a b = (Bounds-other e a.0 b.0, Bounds-rest es a.1 b.1)

  raise-Bounds :
      (es : List UriStatistic)
      → IsDistinct (uris es)
      → All (Bounds c n) es
      → All (Bounds d (n + 1)) (raise uri 1 0 es)
  unfolding raise
  raise-Bounds [] a b = tt
  raise-Bounds (e ∷ es) a b = elim (Bool-cases (bytes_eq e.uri uri)) [
    | inl k ↦
        let q : e.uri ≡ uri = bytes_eq_sound e.uri uri k in
        let h : d e.uri ≡ c e.uri + 1 = subst (λ u. d u ≡ c u + 1) (sym q) hit in
        rw (k, All)
          (
            record {
              upper = omega (arith, h, b.0.upper, b.0.estimate_le);
              lower = omega (arith, h, b.0.lower, b.0.estimate_le, b.0.error_le);
              estimate_le = omega (arith, b.0.estimate_le);
              error_le = omega (arith, b.0.error_le);
            },
            Bounds-rest es (subst (λ u. All (λ v. v ≢ u) (uris es)) q a.0) b.1,
          )
    | inr k ↦ rw (k, All) (Bounds-other e (bytes_eq-ne e.uri uri k) b.0, raise-Bounds es a.1 b.1)
  ]

  raise-AtLeast :
      (k : ℕ) (es : List UriStatistic)
      → All (Bounds c n) es
      → AtLeast k es
      → AtLeast k (raise uri 1 0 es)
  unfolding raise
  raise-AtLeast k [] b h = tt
  raise-AtLeast k (e ∷ es) b h = elim (Bool-cases (bytes_eq e.uri uri)) [
    | inl q ↦ rw (q, All) (omega (arith, b.0.estimate_le, h.0), h.1)
    | inr q ↦ rw (q, All) (h.0, raise-AtLeast k es b.1 h.1)
  ]

  -- The URI is listed: its count is raised.
  raise-Inv :
      (t : UriTop) (o : UriStatistic)
      → find_entry uri t.entries ≡ some o
      → Inv c n t
      → Inv d (n + 1) (record t { entries = raise uri 1 0 t.entries })
  raise-Inv t o found i = record {
    bounds = raise-Bounds t.entries i.distinct i.bounds;
    distinct = rw (uris-raise uri 1 0 t.entries) i.distinct;
    absent = λ u a.
        let a' : Absent u t.entries = subst (All (λ v. v ≢ u)) (uris-raise uri 1 0 t.entries) a in
        omega (arith, miss u (present-ne-Absent uri u t.entries o found a'), i.absent u a', grows);
    fits = omega (arith, length-raise uri 1 0 t.entries, i.fits);
  }
    where
      t' : UriTop
      t' = record t { entries = raise uri 1 0 t.entries }

      grows : minimum_count t ≤ minimum_count t'
      grows =
          le-minimum_count (minimum_count t) t'
            (λ h. minimum_count-not_full t (omega (arith, length-raise uri 1 0 t.entries)))
            (λ h. omega (arith, length-raise uri 1 0 t.entries, minimum_count-pos t h))
            (raise-AtLeast _ t.entries i.bounds (minimum_count-AtLeast t))

  -- There is room: the URI gets an entry of its own.
  push-Inv :
      (t : UriTop)
      → find_entry uri t.entries ≡ none
      → length t.entries < t.capacity
      → Inv c n t
      → Inv d (n + 1) (record t {
        entries = t.entries ++ record { uri = uri; estimated_requests = 1; maximum_error = 0 } ∷ [];
      })
  push-Inv t missing room i = record {
    bounds = All-append _ t.entries _ (Bounds-rest t.entries not_listed i.bounds) (fresh, tt);
    distinct = rw (uris-append t.entries (new ∷ [])) (
        IsDistinct-append (uris t.entries) (uri ∷ []) i.distinct (tt, tt)
          (All-imp (uris t.entries) (λ w ne. (λ q. ne (sym q), tt)) not_listed));
    absent = λ u a.
        let both : All (λ v. v ≢ u) (uris t.entries ++ uri ∷ []) =
          subst (All (λ v. v ≢ u)) (uris-append t.entries (new ∷ [])) a in
        let before = none_before u (All-append_left _ (uris t.entries) (uri ∷ []) both) in
        let ne = (All-append_right _ (uris t.entries) (uri ∷ []) both).0 in
        omega (arith, miss u (λ q. ne (sym q)), before);
    fits = omega (arith, length-append t.entries (new ∷ []));
  }
    where
      new : UriStatistic
      new = record { uri = uri; estimated_requests = 1; maximum_error = 0 }

      not_listed : Absent uri t.entries
      not_listed = find_entry-none uri t.entries missing

      none_before : (u : Bytes) → Absent u t.entries → c u ≡ 0
      none_before u a = omega (arith, i.absent u a, minimum_count-not_full t room)

      fresh : Bounds d (n + 1) new
      fresh = record {
        upper = omega (arith, hit, none_before uri not_listed);
        lower = omega (arith, hit);
        estimate_le = omega arith;
        error_le = omega arith;
      }

  -- The table is full: a least entry makes way, and its count becomes the error.
  replace-Inv :
      (t : UriTop) (m : ℕ)
      → find_entry uri t.entries ≡ none
      → ltb (length t.entries) t.capacity ≡ false
      → minimum t.entries ≡ some m
      → Inv c n t
      → Inv d (n + 1) (record t {
        entries =
            replace_first m
              (record { uri = uri; estimated_requests = add64 m 1; maximum_error = add64 m 0 })
              t.entries;
      })
  unfolding replace_first
  replace-Inv t m missing full least i = record {
    bounds = replace_first-Bounds t.entries not_listed i.bounds;
    distinct = replace_first-IsDistinct m new t.entries not_listed i.distinct;
    absent = λ u a.
        let (ne, before) = replace_first-gone m new u t.entries (minimum-Any t.entries m least) a in
        let le : c u ≤ m = elim before [
          | inl b ↦ omega (arith, i.absent u b, count)
          | inr b ↦ gone u t.entries b i.bounds
        ] in
        omega (arith, miss u (λ q. ne (sym q)), le, grows);
    fits = omega (arith, length-replace_first m new t.entries, i.fits);
  }
    where
      new : UriStatistic
      new = record { uri = uri; estimated_requests = add64 m 1; maximum_error = add64 m 0 }

      not_listed : Absent uri t.entries
      not_listed = find_entry-none uri t.entries missing

      count : minimum_count t ≡ m
      count = minimum_count-full t m full least

      m_le : m ≤ n
      m_le = omega (arith, minimum_count-le c n t i, count)

      fresh : Bounds d (n + 1) new
      fresh = record {
        upper = omega (arith, hit, i.absent uri not_listed, count, m_le);
        lower = omega (arith, hit, m_le);
        estimate_le = omega (arith, m_le);
        error_le = omega (arith, m_le);
      }

      replace_first-Bounds :
          (es : List UriStatistic)
          → Absent uri es
          → All (Bounds c n) es
          → All (Bounds d (n + 1)) (replace_first m new es)
      replace_first-Bounds [] a b = tt
      replace_first-Bounds (e ∷ es) a b = elim (Bool-cases (e.estimated_requests == m)) [
        | inl k ↦ rw (k, replace_first, All) (fresh, Bounds-rest es a.1 b.1)
        | inr k ↦
            rw (k, replace_first, All) (Bounds-other e a.0 b.0, replace_first-Bounds es a.1 b.1)
      ]

      gone :
          (u : Bytes) (es : List UriStatistic)
          → Any (λ e. (e.uri ≡ u) × (e.estimated_requests ≡ m)) es
          → All (Bounds c n) es
          → c u ≤ m
      gone u es h b =
          let (e, (q, k), be) = Any-All _ (Bounds c n) es h b in
          subst (λ w. c w ≤ m) q (omega (arith, be.upper, k))

      t' : UriTop
      t' = record t { entries = replace_first m new t.entries }

      grows : m ≤ minimum_count t'
      grows =
          le-minimum_count m t' (λ h. absurd (omega (tests, length-replace_first m new t.entries)))
            (λ h. omega (
              arith,
              length-replace_first m new t.entries,
              minimum_count-pos t (omega (arith, count)),
            ))
            (replace_first-AtLeast m new t.entries (omega (arith, m_le))
              (minimum-AtLeast t.entries m least))

  -- A further request: the table takes it, and its promise holds of the longer history.
  pub record_uri-Inv :
      (t : UriTop)
      → 0 < t.capacity
      → Inv c n t
      → (t' : UriTop) × (record_uri uri t ≡ some t') × Inv d (n + 1) t' × (t'.capacity ≡ t.capacity)
  unfolding record_uri record_weight
  record_uri-Inv t room i = elim (Option-cases (find_entry uri t.entries)) [
    | inr (o, found) ↦
        (record t { entries = raise uri 1 0 t.entries }, ground arith, raise-Inv t o found i, refl)
    | inl missing ↦ elim (Bool-cases (ltb (length t.entries) t.capacity)) [
      | inl space ↦ (
        record t {
          entries =
              t.entries ++ record { uri = uri; estimated_requests = 1; maximum_error = 0 } ∷ [];
        },
        ground arith,
        push-Inv t missing (ltb→lt _ _ space) i,
        refl,
      )
      | inr full ↦ elim (Option-cases (minimum t.entries)) [
        | inl none_left ↦ absurd (omega (tests, minimum-none t.entries none_left))
        | inr (m, least) ↦ (
          record t {
            entries =
                replace_first m
                  (record { uri = uri; estimated_requests = add64 m 1; maximum_error = add64 m 0 })
                  t.entries;
          },
          ground arith,
          replace-Inv t m missing full least i,
          refl,
        )
      ]
    ]
  ]
