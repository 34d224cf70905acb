-- ===== src/Metrics/UriTop/Defs.antt =====
-- The operations of `UriTop`, src/metrics.rs.
use rload.Prelude.{
  ℕ, min, Option, none, some, List, [], ◌∷◌, ◌++◌, map, ltb, ◌==◌, if◌then◌else◌, Bytes, length,
  take, bytes_eq, add64,
}
use rload.Metrics.UriTop.Sort.{UriStatistic, sort_entries}

pub record UriTop : Type 0 where
  pub capacity : ℕ
  pub entries : List UriStatistic

abbrev pub uri_top_capacity : ℕ
uri_top_capacity = 20

unfoldable pub new_top : ℕ → UriTop
new_top capacity = record { capacity = capacity; entries = [] }

-- `iter().find(|entry| entry.uri == uri)`
unfoldable pub find_entry : Bytes → List UriStatistic → Option UriStatistic
find_entry uri [] = none
find_entry uri (e ∷ es) = if bytes_eq e.uri uri then some e else find_entry uri es

-- The entry that `find` gives, with its counts raised.
unfoldable pub raise : Bytes → ℕ → ℕ → List UriStatistic → List UriStatistic
raise uri count error [] = []
raise uri count error (e ∷ es) =
    if bytes_eq e.uri uri
    then record e {
      estimated_requests = add64 e.estimated_requests count;
      maximum_error = add64 e.maximum_error error;
    }
      ∷ es
    else e ∷ raise uri count error es

-- `iter().map(|entry| entry.estimated_requests).min()`
unfoldable pub minimum : List UriStatistic → Option ℕ
minimum [] = none
minimum (e ∷ es) = elim (minimum es) [
  | none ↦ some e.estimated_requests
  | some m ↦ some (min e.estimated_requests m)
]

-- The first entry of that count, replaced: what `min_by_key` points at.
unfoldable pub replace_first : ℕ → UriStatistic → List UriStatistic → List UriStatistic
replace_first m new [] = []
replace_first m new (e ∷ es) =
    if e.estimated_requests == m then new ∷ es else e ∷ replace_first m new es

unfoldable pub record_weight : Bytes → ℕ → ℕ → UriTop → Option UriTop
record_weight uri count error t = elim (find_entry uri t.entries) [
  | some e ↦ some (record t { entries = raise uri count error t.entries })
  | none ↦
      if ltb (length t.entries) t.capacity
      then some (record t {
        entries =
            t.entries
            ++ record { uri = uri; estimated_requests = count; maximum_error = error } ∷ [];
      })
      else elim (minimum t.entries) [
        | none ↦ none
        | some m ↦
            let new : UriStatistic = record {
              uri = uri;
              estimated_requests = add64 m count;
              maximum_error = add64 m error;
            } in
            some (record t { entries = replace_first m new t.entries })
      ]
]

unfoldable pub record_uri : Bytes → UriTop → Option UriTop
record_uri uri t = elim (find_entry uri t.entries) [
  | some e ↦ some (record t { entries = raise uri 1 0 t.entries })
  | none ↦ record_weight uri 1 0 t
]

unfoldable pub minimum_count : UriTop → ℕ
minimum_count t =
    if ltb (length t.entries) t.capacity
    then 0
    else elim (minimum t.entries) [ none ↦ 0 | some m ↦ m ]

-- An entry of one table, with the other's count of its URI, or the other's minimum.
unfoldable pub combine : ℕ → List UriStatistic → UriStatistic → UriStatistic
combine other_minimum others e = elim (find_entry e.uri others) [
  | none ↦ record e {
    estimated_requests = add64 e.estimated_requests other_minimum;
    maximum_error = add64 e.maximum_error other_minimum;
  }
  | some o ↦ record e {
    estimated_requests = add64 e.estimated_requests o.estimated_requests;
    maximum_error = add64 e.maximum_error o.maximum_error;
  }
]

-- The other table's entries that this one lacks.
unfoldable pub only_other : ℕ → List UriStatistic → List UriStatistic → List UriStatistic
only_other self_minimum selves [] = []
only_other self_minimum selves (e ∷ es) =
    let rest = only_other self_minimum selves es in
    elim (find_entry e.uri selves) [
      | some s ↦ rest
      | none ↦
          record e {
            estimated_requests = add64 e.estimated_requests self_minimum;
            maximum_error = add64 e.maximum_error self_minimum;
          }
          ∷ rest
    ]

unfoldable pub merged_entries : UriTop → UriTop → List UriStatistic
merged_entries t other =
    map (combine (minimum_count other) other.entries) t.entries
    ++ only_other (minimum_count t) t.entries other.entries

unfoldable pub merge : UriTop → UriTop → UriTop
merge t other = record t { entries = take t.capacity (sort_entries (merged_entries t other)) }

unfoldable pub sorted : UriTop → List UriStatistic
sorted t = sort_entries t.entries
