-- ===== src/Metrics/UriTop/Sort.antt =====
-- `sort_unstable_by` with the comparison of src/metrics.rs: more requests first, then by URI. The
-- entries' URIs are distinct, so every sort gives this order.
use rload.Prelude.{ℕ, Bool, true, false, List, [], ◌∷◌, ltb, ◌==◌, if◌then◌else◌, Bytes}

pub record UriStatistic : Type 0 where
  pub uri : Bytes
  pub estimated_requests : ℕ
  pub maximum_error : ℕ

-- `left.uri <= right.uri`, by bytes
unfoldable pub bytes_leb : Bytes → Bytes → Bool
bytes_leb [] ys = true
bytes_leb (x ∷ xs) [] = false
bytes_leb (x ∷ xs) (y ∷ ys) = let rest = bytes_leb xs ys in if x == y then rest else ltb x y

-- Whether `left` may stand before `right`.
unfoldable pub is_before : UriStatistic → UriStatistic → Bool
is_before left right =
    if left.estimated_requests == right.estimated_requests
    then bytes_leb left.uri right.uri
    else ltb right.estimated_requests left.estimated_requests

unfoldable pub insert_entry : UriStatistic → List UriStatistic → List UriStatistic
insert_entry e [] = e ∷ []
insert_entry e (x ∷ xs) =
    let rest = insert_entry e xs in if is_before e x then e ∷ x ∷ xs else x ∷ rest

unfoldable pub sort_entries : List UriStatistic → List UriStatistic
sort_entries [] = []
sort_entries (e ∷ es) = insert_entry e (sort_entries es)
