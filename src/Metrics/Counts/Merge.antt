-- ===== src/Metrics/Counts/Merge.antt =====
-- Counters that are merged hold what one counter would.
use rload.Prelude.{
  ℕ, zero, suc, ◌+◌, ◌≤◌, ◌<◌, ◌≡◌, refl, sym, ap, ◌∙◌, inl, inr, List, [], ◌∷◌, ◌++◌, arith, ltb,
  ◌==◌, if◌then◌else◌, ltb→lt, ltb_false→le, Bool-cases, length, replicate, length-replicate,
  u64_mod, add64,
}
use rload.Metrics.Counts.{
  SocketErrors, total, merge_errors, StatusCounts, new_counts, increment_at, record_status,
  count_at, status_count, add_all, merge_counts,
}

-- The counts after these responses.
unfoldable pub record_statuses : List ℕ → StatusCounts
record_statuses [] = new_counts
record_statuses (status ∷ statuses) = record_status status (record_statuses statuses)

pub occurrences : ℕ → List ℕ → ℕ
occurrences s [] = 0
occurrences s (x ∷ xs) = if x == s then suc (occurrences s xs) else occurrences s xs

length-increment_at : (i : ℕ) (cs : List ℕ) → length (increment_at i cs) ≡ length cs
unfolding increment_at
length-increment_at i [] = refl
length-increment_at zero (c ∷ cs) = refl
length-increment_at (suc i) (c ∷ cs) = ap suc (length-increment_at i cs)

count_at-increment_at :
    (i s : ℕ) (cs : List ℕ)
    → s < length cs
    → count_at (increment_at i cs) s ≡ (if i == s then add64 (count_at cs s) 1 else count_at cs s)
unfolding increment_at count_at
count_at-increment_at i s [] h = absurd (omega arith)
count_at-increment_at zero zero (c ∷ cs) h = refl
count_at-increment_at zero (suc s) (c ∷ cs) h = ground arith
count_at-increment_at (suc i) zero (c ∷ cs) h = ground arith
count_at-increment_at (suc i) (suc s) (c ∷ cs) h =
    ground (arith, count_at-increment_at i s cs (omega arith))

count_at-past : (cs : List ℕ) (s : ℕ) → length cs ≤ s → count_at cs s ≡ 0
unfolding count_at
count_at-past [] s h = refl
count_at-past (c ∷ cs) zero h = absurd (omega arith)
count_at-past (c ∷ cs) (suc s) h = count_at-past cs s (omega arith)

count_at-add_all :
    (cs os : List ℕ) (s : ℕ)
    → length cs ≡ length os
    → count_at cs s + count_at os s < u64_mod
    → count_at (add_all cs os) s ≡ count_at cs s + count_at os s
unfolding count_at add_all
count_at-add_all [] [] s e h = omega arith
count_at-add_all [] (o ∷ os) s e h = absurd (omega arith)
count_at-add_all (c ∷ cs) [] s e h = absurd (omega arith)
count_at-add_all (c ∷ cs) (o ∷ os) zero e h = omega arith
count_at-add_all (c ∷ cs) (o ∷ os) (suc s) e h = count_at-add_all cs os s (omega arith) h

count_at-zeros : (n s : ℕ) → count_at (replicate n 0) s ≡ 0
unfolding count_at
count_at-zeros zero s = refl
count_at-zeros (suc n) zero = refl
count_at-zeros (suc n) (suc s) = count_at-zeros n s

length-record_statuses : (xs : List ℕ) → length (record_statuses xs).counts ≡ 1000
unfolding record_statuses record_status new_counts
length-record_statuses [] = length-replicate {A = ℕ} 1000 0
length-record_statuses (x ∷ xs) =
    length-increment_at x (record_statuses xs).counts ∙ length-record_statuses xs

occurrences-le : (s : ℕ) (xs : List ℕ) → occurrences s xs ≤ length xs
unfolding occurrences
occurrences-le s [] = omega arith
occurrences-le s (x ∷ xs) = ground (arith, occurrences-le s xs)

counted :
    (xs : List ℕ) (s : ℕ)
    → s < 1000
    → length xs < u64_mod
    → count_at (record_statuses xs).counts s ≡ occurrences s xs
unfolding record_statuses record_status new_counts occurrences
counted [] s h small = count_at-zeros 1000 s
counted (x ∷ xs) s h small =
    count_at-increment_at x s (record_statuses xs).counts (omega (arith, length-record_statuses xs))
    ∙ grow (counted xs s h (omega arith))
  where
    grow :
        count_at (record_statuses xs).counts s ≡ occurrences s xs
        → (if x == s
            then add64 (count_at (record_statuses xs).counts s) 1
            else count_at (record_statuses xs).counts s)
          ≡ (if x == s then suc (occurrences s xs) else occurrences s xs)
    grow e = ground (arith, e, occurrences-le s xs)

-- The merged status counts of two workers, from fewer than 2^64 responses in all, hold the number
-- of responses of each status below 1000, and 0 for every other status.
pub status_count-merge_counts :
    (xs ys : List ℕ) (s : ℕ)
    → length xs + length ys < u64_mod
    → status_count (merge_counts (record_statuses xs) (record_statuses ys)) s
      ≡ (if ltb s 1000 then occurrences s xs + occurrences s ys else 0)
unfolding status_count merge_counts
status_count-merge_counts xs ys s small = elim (Bool-cases (ltb s 1000)) [
  | inl k ↦
      let x = counted xs s (ltb→lt s 1000 k) (omega arith) in
      let y = counted ys s (ltb→lt s 1000 k) (omega arith) in
      rw k (
        count_at-add_all (record_statuses xs).counts (record_statuses ys).counts s
          (length-record_statuses xs ∙ sym (length-record_statuses ys))
          (omega (arith, x, y, occurrences-le s xs, occurrences-le s ys))
        ∙ omega (arith, x, y))
  | inr k ↦
      let past = ltb_false→le s 1000 k in
      let x =
        count_at-past (record_statuses xs).counts s
          (omega (arith, past, length-record_statuses xs)) in
      let y =
        count_at-past (record_statuses ys).counts s
          (omega (arith, past, length-record_statuses ys)) in
      rw k (
        count_at-add_all (record_statuses xs).counts (record_statuses ys).counts s
          (length-record_statuses xs ∙ sym (length-record_statuses ys)) (omega (arith, x, y))
        ∙ omega (arith, x, y))
]

-- The kinds of socket errors.
pub data Failure : Type 0 where
  connect_failure read_failure write_failure timeout_failure : Failure

abbrev is_connect : Failure → ℕ
is_connect connect_failure = 1
is_connect f = 0

abbrev is_read : Failure → ℕ
is_read read_failure = 1
is_read f = 0

abbrev is_write : Failure → ℕ
is_write write_failure = 1
is_write f = 0

abbrev is_timeout : Failure → ℕ
is_timeout timeout_failure = 1
is_timeout f = 0

pub number : (Failure → ℕ) → List Failure → ℕ
number weight [] = 0
number weight (f ∷ fs) = weight f + number weight fs

-- How many failures of each kind there are.
abbrev pub tally : List Failure → SocketErrors
tally fs = record {
  connect = number is_connect fs;
  read = number is_read fs;
  write = number is_write fs;
  timeout = number is_timeout fs;
}

number-append :
    (weight : Failure → ℕ) (fs gs : List Failure)
    → number weight (fs ++ gs) ≡ number weight fs + number weight gs
unfolding number
number-append weight [] gs = omega arith
number-append weight (f ∷ fs) gs = omega (arith, number-append weight fs gs)

number-length :
    (fs : List Failure)
    → number is_connect fs + number is_read fs + number is_write fs + number is_timeout fs
      ≡ length fs
unfolding number
number-length [] = refl
number-length (connect_failure ∷ fs) = omega (arith, number-length fs)
number-length (read_failure ∷ fs) = omega (arith, number-length fs)
number-length (write_failure ∷ fs) = omega (arith, number-length fs)
number-length (timeout_failure ∷ fs) = omega (arith, number-length fs)

errors_eq :
    (a b : SocketErrors)
    → a.connect ≡ b.connect
    → a.read ≡ b.read
    → a.write ≡ b.write
    → a.timeout ≡ b.timeout
    → a ≡ b
errors_eq a b c r w t = λ i. record { connect = c i; read = r i; write = w i; timeout = t i }

-- For two lists of socket errors, fewer than 2^64 in all: merging their counts by kind gives the
-- counts of both lists in one, and its total is the number of errors.
pub total-merge_errors :
    (fs gs : List Failure)
    → length fs + length gs < u64_mod
    → (merge_errors (tally fs) (tally gs) ≡ tally (fs ++ gs))
      × (total (merge_errors (tally fs) (tally gs)) ≡ length fs + length gs)
unfolding total merge_errors
total-merge_errors fs gs small =
    let f = number-length fs in
    let g = number-length gs in
    (
      errors_eq _ _ (omega (arith, f, g, number-append is_connect fs gs))
          (omega (arith, f, g, number-append is_read fs gs))
          (omega (arith, f, g, number-append is_write fs gs))
          (omega (arith, f, g, number-append is_timeout fs gs)),
      omega (arith, f, g),
    )
