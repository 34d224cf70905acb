-- ===== src/Metrics/UriTop/Entries.antt =====
-- Lemmas on the entries of a table: the searches, the changes in place, and the minimum.
use rload.Prelude.{
  ℕ, suc, ◌≤◌, ◌<◌, min, ◌≡◌, refl, sym, ap, subst, ◌≢◌, ◌⊎◌, inl, inr, true, false, none, some,
  List, [], ◌∷◌, ◌++◌, arith, leb, ◌==◌, ==_iff, Bool-cases, Option-cases, Bytes, length, bytes_eq,
  bytes_eq_sound, bytes_eq_refl, All, Any, All-append, All-imp, Any-All,
}
use mathlib.Core.Option.{some-injective}
use rload.Metrics.UriTop.Sort.{UriStatistic}
use rload.Metrics.UriTop.Defs.{find_entry, raise, minimum, replace_first}

abbrev pub uris : List UriStatistic → List Bytes
uris [] = []
uris (e ∷ es) = e.uri ∷ uris es

-- No entry has this URI.
abbrev pub Absent : Bytes → List UriStatistic → Type 0
Absent u es = All (λ v. v ≢ u) (uris es)

abbrev pub IsDistinct : List Bytes → Type 0
IsDistinct [] = Unit {0}
IsDistinct (u ∷ us) = All (λ v. v ≢ u) us × IsDistinct us

abbrev pub AtLeast : ℕ → List UriStatistic → Type 0
AtLeast m = All (λ e. m ≤ e.estimated_requests)

pub bytes_eq-ne : (u v : Bytes) → bytes_eq u v ≡ false → u ≢ v
bytes_eq-ne u v h e = cc (subst (λ w. bytes_eq u w ≡ true) e (bytes_eq_refl u))

pub ne-bytes_eq : (u v : Bytes) → u ≢ v → bytes_eq u v ≡ false
ne-bytes_eq u v h = elim (Bool-cases (bytes_eq u v)) [
  | inl e ↦ absurd (h (bytes_eq_sound u v e))
  | inr e ↦ e
]

pub find_entry-none : (u : Bytes) (es : List UriStatistic) → find_entry u es ≡ none → Absent u es
unfolding find_entry
find_entry-none u [] h = tt
find_entry-none u (e ∷ es) h = elim (Bool-cases (bytes_eq e.uri u)) [
  | inl k ↦ cc (rw k at h)
  | inr k ↦ (bytes_eq-ne e.uri u k, find_entry-none u es (rw k at h))
]

pub find_entry-Absent : (u : Bytes) (es : List UriStatistic) → Absent u es → find_entry u es ≡ none
unfolding find_entry
find_entry-Absent u [] h = refl
find_entry-Absent u (e ∷ es) h = rw (ne-bytes_eq e.uri u h.0) (find_entry-Absent u es h.1)

-- What is found has the URI, and every property that all entries have.
pub find_entry-some {κ} :
    (P : UriStatistic → Type κ) (u : Bytes) (es : List UriStatistic) (o : UriStatistic)
    → find_entry u es ≡ some o
    → All P es
    → (o.uri ≡ u) × P o
unfolding find_entry
find_entry-some P u [] o h a = cc
find_entry-some P u (e ∷ es) o h a = elim (Bool-cases (bytes_eq e.uri u)) [
  | inl k ↦
      let q : e ≡ o = some-injective e o (rw k at h) in
      (subst (λ x. x.uri ≡ u) q (bytes_eq_sound e.uri u k), subst P q a.0)
  | inr k ↦ find_entry-some P u es o (rw k at h) a.1
]

pub present-ne-Absent :
    (u v : Bytes) (es : List UriStatistic) (o : UriStatistic)
    → find_entry u es ≡ some o
    → Absent v es
    → v ≢ u
present-ne-Absent u v es o h a e =
    cc (subst (λ w. find_entry w es ≡ none) e (find_entry-Absent v es a))

pub uris-raise :
    (u : Bytes) (count error : ℕ) (es : List UriStatistic) → uris (raise u count error es) ≡ uris es
unfolding raise
uris-raise u count error [] = refl
uris-raise u count error (e ∷ es) = elim (Bool-cases (bytes_eq e.uri u)) [
  | inl k ↦ rw k refl
  | inr k ↦ rw k (ap (◌∷◌ e.uri) (uris-raise u count error es))
]

pub length-uris : (es : List UriStatistic) → length (uris es) ≡ length es
length-uris [] = refl
length-uris (e ∷ es) = ap suc (length-uris es)

pub length-raise :
    (u : Bytes) (count error : ℕ) (es : List UriStatistic)
    → length (raise u count error es) ≡ length es
length-raise u count error es = omega (
  arith,
  ap length (uris-raise u count error es),
  length-uris es,
  length-uris (raise u count error es),
)

pub length-replace_first :
    (m : ℕ) (new : UriStatistic) (es : List UriStatistic)
    → length (replace_first m new es) ≡ length es
unfolding replace_first
length-replace_first m new [] = refl
length-replace_first m new (e ∷ es) = ground (arith, length-replace_first m new es)

pub minimum-none : (es : List UriStatistic) → minimum es ≡ none → length es ≡ 0
unfolding minimum
minimum-none [] h = refl
minimum-none (e ∷ es) h = ground arith

-- The minimum is below every entry, and is the count of one.
pub minimum-AtLeast : (es : List UriStatistic) (m : ℕ) → minimum es ≡ some m → AtLeast m es
unfolding minimum
minimum-AtLeast [] m h = cc
minimum-AtLeast (e ∷ es) m h = elim (Option-cases (minimum es)) [
  | inl k ↦ (ground arith, none-AtLeast es k)
  | inr (n, k) ↦ (
    ground arith,
    All-imp es (λ x (le : n ≤ x.estimated_requests). ground arith) (minimum-AtLeast es n k),
  )
]
  where
    none-AtLeast : (xs : List UriStatistic) → minimum xs ≡ none → AtLeast m xs
    none-AtLeast [] k = tt
    none-AtLeast (x ∷ xs) k = ground arith

pub minimum-Any :
    (es : List UriStatistic) (m : ℕ) → minimum es ≡ some m → Any (λ e. e.estimated_requests ≡ m) es
unfolding minimum
minimum-Any [] m h = cc
minimum-Any (e ∷ es) m h = elim (Option-cases (minimum es)) [
  | inl k ↦ inl (ground arith)
  | inr (n, k) ↦
      let q : min e.estimated_requests n ≡ m =
        some-injective (min e.estimated_requests n) m (rw k at h) in
      elim (Bool-cases (leb e.estimated_requests n)) [
        | inl l ↦ inl (ground arith)
        | inr l ↦
            let nm : n ≡ m = ground arith in
            inr (subst (λ x. Any (λ y. y.estimated_requests ≡ x) es) nm (minimum-Any es n k))
      ]
]

-- A bound on all entries is a bound on the minimum.
pub le-minimum :
    (k : ℕ) (es : List UriStatistic)
    → AtLeast k es
    → 0 < length es
    → (m : ℕ) × (minimum es ≡ some m) × (k ≤ m)
unfolding minimum
le-minimum k [] a h = elim h [ ]
le-minimum k (e ∷ es) a h = elim (Option-cases (minimum es)) [
  | inl q ↦ (e.estimated_requests, rw q refl, a.0)
  | inr (n, q) ↦
      let (x, ex, kx) =
        Any-All (λ y. y.estimated_requests ≡ n) (λ y. k ≤ y.estimated_requests) es
          (minimum-Any es n q) a.1 in
      (min e.estimated_requests n, rw q refl, omega (arith, a.0, ex, kx))
]

pub uris-append : (es fs : List UriStatistic) → uris (es ++ fs) ≡ uris es ++ uris fs
uris-append [] fs = refl
uris-append (e ∷ es) fs = ap (◌∷◌ e.uri) (uris-append es fs)

pub IsDistinct-append :
    (us vs : List Bytes)
    → IsDistinct us
    → IsDistinct vs
    → All (λ u. All (λ v. v ≢ u) vs) us
    → IsDistinct (us ++ vs)
IsDistinct-append [] vs hu hv d = hv
IsDistinct-append (u ∷ us) vs hu hv d =
    (All-append _ us vs hu.0 d.0, IsDistinct-append us vs hu.1 hv d.1)

-- Replacing one entry keeps the URIs apart, if the new one was not listed.
replace_first-ne :
    (m : ℕ) (new : UriStatistic) (v : Bytes) (es : List UriStatistic)
    → new.uri ≢ v
    → Absent v es
    → Absent v (replace_first m new es)
unfolding replace_first
replace_first-ne m new v [] ne a = tt
replace_first-ne m new v (e ∷ es) ne a = elim (Bool-cases (e.estimated_requests == m)) [
  | inl k ↦ rw (k, All) (ne, a.1)
  | inr k ↦ rw (k, All) (a.0, replace_first-ne m new v es ne a.1)
]

pub replace_first-IsDistinct :
    (m : ℕ) (new : UriStatistic) (es : List UriStatistic)
    → Absent new.uri es
    → IsDistinct (uris es)
    → IsDistinct (uris (replace_first m new es))
unfolding replace_first
replace_first-IsDistinct m new [] a d = tt
replace_first-IsDistinct m new (e ∷ es) a d = elim (Bool-cases (e.estimated_requests == m)) [
  | inl k ↦ rw (k, IsDistinct) (a.1, d.1)
  | inr k ↦
      rw (k, IsDistinct)
        (
          replace_first-ne m new e.uri es (λ q. a.0 (sym q)) d.0,
          replace_first-IsDistinct m new es a.1 d.1,
        )
]

-- A URI that is absent after a replacement was absent before, or stood in the entry that went.
pub replace_first-gone :
    (m : ℕ) (new : UriStatistic) (u : Bytes) (es : List UriStatistic)
    → Any (λ e. e.estimated_requests ≡ m) es
    → Absent u (replace_first m new es)
    → (new.uri ≢ u) × (Absent u es ⊎ Any (λ e. (e.uri ≡ u) × (e.estimated_requests ≡ m)) es)
unfolding replace_first
replace_first-gone m new u [] h a = absurd h
replace_first-gone m new u (e ∷ es) h a = elim (Bool-cases (e.estimated_requests == m)) [
  | inl k ↦
      let b : All (λ v. v ≢ u) (new.uri ∷ uris es) = rw k at a in
      (
        b.0,
        elim (Bool-cases (bytes_eq e.uri u)) [
          | inl q ↦ inr (inl (bytes_eq_sound e.uri u q, (==_iff _ _).0 k))
          | inr q ↦ inl (bytes_eq-ne e.uri u q, b.1)
        ],
      )
  | inr k ↦
      let b : All (λ v. v ≢ u) (e.uri ∷ uris (replace_first m new es)) = rw k at a in
      let tail : Any (λ x. x.estimated_requests ≡ m) es = later h k in
      let (ne, rest) = replace_first-gone m new u es tail b.1 in
      (ne, elim rest [ inl r ↦ inl (b.0, r) | inr r ↦ inr (inr r) ])
]
  where
    later :
        Any (λ x. x.estimated_requests ≡ m) (e ∷ es)
        → (e.estimated_requests == m) ≡ false
        → Any (λ x. x.estimated_requests ≡ m) es
    later (inl q) k = absurd (ground arith)
    later (inr r) k = r

pub replace_first-AtLeast :
    (m : ℕ) (new : UriStatistic) (es : List UriStatistic)
    → m ≤ new.estimated_requests
    → AtLeast m es
    → AtLeast m (replace_first m new es)
unfolding replace_first
replace_first-AtLeast m new [] le a = tt
replace_first-AtLeast m new (e ∷ es) le a = elim (Bool-cases (e.estimated_requests == m)) [
  | inl k ↦ rw (k, All) (le, a.1)
  | inr k ↦ rw (k, All) (a.0, replace_first-AtLeast m new es le a.1)
]
