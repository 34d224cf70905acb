-- ===== src/Tests/Counts.antt =====
-- Merged counters, on a few responses.
use rload.Prelude.{◌+◌, ◌≡◌, List, [], ◌∷◌, ◌++◌, arith, ltb, if◌then◌else◌, length}
use rload.Metrics.Counts.{total, merge_errors, merge_counts, status_count}
use rload.Metrics.Counts.Merge.{
  Failure, connect_failure, read_failure, write_failure, timeout_failure, tally, total-merge_errors,
  record_statuses, occurrences, status_count-merge_counts,
}

abbrev first_failures : List Failure
first_failures = connect_failure ∷ read_failure ∷ read_failure ∷ []

abbrev second_failures : List Failure
second_failures = timeout_failure ∷ write_failure ∷ timeout_failure ∷ []

total-merge_errors_example :
    (merge_errors (tally first_failures) (tally second_failures)
      ≡ tally (first_failures ++ second_failures))
    × (total (merge_errors (tally first_failures) (tally second_failures))
        ≡ length first_failures + length second_failures)
total-merge_errors_example = total-merge_errors first_failures second_failures (ground arith)

status_count-merge_counts_example :
    status_count (merge_counts (record_statuses (200 ∷ 404 ∷ [])) (record_statuses (200 ∷ []))) 200
    ≡ (if ltb 200 1000 then occurrences 200 (200 ∷ 404 ∷ []) + occurrences 200 (200 ∷ []) else 0)
status_count-merge_counts_example =
    status_count-merge_counts (200 ∷ 404 ∷ []) (200 ∷ []) 200 (ground arith)
