-- ===== src/Metrics/UriTop/History.antt =====
-- Whole runs: tables that grow by requests and by merges, against the plain list of requests.
use rload.Prelude.{
  ℕ, suc, ◌+◌, ◌<◌, ◌≡◌, refl, sym, ◌∙◌, subst, ◌≢◌, Option, none, some, List, [], ◌∷◌, ◌++◌, arith,
  if◌then◌else◌, Bytes, length, length-append, bytes_eq, bytes_eq_refl, u64_mod,
}
use native.Mathlib.Numerals.{add-one}
use rload.Metrics.UriTop.Defs.{UriTop, new_top, record_uri, merge}
use rload.Metrics.UriTop.Entries.{ne-bytes_eq}
use rload.Metrics.UriTop.Invariant.{Inv}
use rload.Metrics.UriTop.Record.{record_uri-Inv}
use rload.Metrics.UriTop.Merge.{merge-Inv}

-- How a table came about: empty, by one more request, or from the tables of two workers.
pub data History : Type 0 where
  fresh : History
  request : Bytes → History → History
  together : History → History → History

abbrev pub all_requests : History → List Bytes
all_requests fresh = []
all_requests (request uri h) = uri ∷ all_requests h
all_requests (together h g) = all_requests h ++ all_requests g

-- The table of a history, or `none` where a `record` panicked.
unfoldable pub table : ℕ → History → Option UriTop
table capacity fresh = some (new_top capacity)
table capacity (request uri h) = elim (table capacity h) [ none ↦ none | some t ↦ record_uri uri t ]
table capacity (together h g) = elim (table capacity h) [
  | none ↦ none
  | some t ↦ elim (table capacity g) [ none ↦ none | some s ↦ some (merge t s) ]
]

pub count : Bytes → List Bytes → ℕ
count u [] = 0
count u (x ∷ xs) = if bytes_eq x u then suc (count u xs) else count u xs

count-append : (u : Bytes) (xs ys : List Bytes) → count u (xs ++ ys) ≡ count u xs + count u ys
unfolding count
count-append u [] ys = omega arith
count-append u (x ∷ xs) ys = ground (arith, count-append u xs ys)

count-hit : (u : Bytes) (xs : List Bytes) → count u (u ∷ xs) ≡ count u xs + 1
unfolding count
count-hit u xs = rw (bytes_eq_refl u) (omega arith)

count-miss : (u x : Bytes) (xs : List Bytes) → u ≢ x → count u (x ∷ xs) ≡ count u xs
unfolding count
count-miss u x xs ne = rw (ne-bytes_eq x u (λ e. ne (sym e))) refl

abbrev pub Promise : History → UriTop → Type 0
Promise h = Inv (λ u. count u (all_requests h)) (length (all_requests h))

new_top-Inv : (capacity : ℕ) → Inv (λ u. count u []) 0 (new_top capacity)
unfolding new_top count
new_top-Inv capacity = record {
  bounds = tt;
  distinct = tt;
  absent = λ u a. omega arith;
  fits = omega arith;
}

new_top-capacity : (capacity : ℕ) → (new_top capacity).capacity ≡ capacity
unfolding new_top
new_top-capacity capacity = refl

merge-capacity : (t s : UriTop) → (merge t s).capacity ≡ t.capacity
unfolding merge
merge-capacity t s = refl

-- However tables of a positive capacity grow by requests and by merges of fewer than 2^64 requests
-- in all, no record panics, and each estimate is at least the true count and exceeds it by at most
-- the stated error; an unlisted URI was requested at most as often as the least count.
pub table-Inv :
    (capacity : ℕ) (h : History)
    → 0 < capacity
    → length (all_requests h) < u64_mod
    → (t : UriTop) × (table capacity h ≡ some t) × Promise h t × (t.capacity ≡ capacity)
unfolding table
table-Inv capacity fresh room small =
    (new_top capacity, refl, new_top-Inv capacity, new_top-capacity capacity)
table-Inv capacity (request uri h) room small =
    let (t, e, i, same) = table-Inv capacity h room (omega arith) in
    let (t', e', i', same') =
      record_uri-Inv uri (λ u. count u (all_requests h)) (λ u. count u (uri ∷ all_requests h))
        (length (all_requests h)) (count-hit uri (all_requests h))
        (λ u ne. count-miss u uri (all_requests h) ne) (omega arith) t (omega arith) i in
    (
      t',
      rw e e',
      subst (λ n. Inv (λ u. count u (uri ∷ all_requests h)) n t') (add-one _) i',
      same' ∙ same,
    )
table-Inv capacity (together h g) room small =
    let lengths = length-append (all_requests h) (all_requests g) in
    let (t, e, i, same) = table-Inv capacity h room (omega (arith, lengths)) in
    let (s, q, j, same') = table-Inv capacity g room (omega (arith, lengths)) in
    (
      merge t s,
      rw (e, q) refl,
      subst (λ n. Inv (λ u. count u (all_requests h ++ all_requests g)) n (merge t s)) (sym lengths)
          (merge-Inv (λ u. count u (all_requests h)) (λ u. count u (all_requests g)) _ _ _ t s
            (λ u. count-append u (all_requests h) (all_requests g)) (omega (arith, lengths)) i j
            (same ∙ sym same') (omega arith)),
      merge-capacity t s ∙ same,
    )
