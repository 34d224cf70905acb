-- ===== src/Tests/UriTop.antt =====
-- The table of the most frequent URIs, on a small history.
use rload.Prelude.{◌≡◌, some, arith, codes}
use rload.Metrics.UriTop.Defs.{UriTop}
use rload.Metrics.UriTop.History.{History, fresh, request, together, table, table-Inv, Promise}

-- Two workers with tables of two entries each.
abbrev two_workers : History
two_workers =
    together (request (codes "/a") (request (codes "/b") (request (codes "/a") fresh)))
      (request (codes "/c") (request (codes "/b") (request (codes "/a") fresh)))

table-Inv_example :
    (t : UriTop) × (table 2 two_workers ≡ some t) × Promise two_workers t × (t.capacity ≡ 2)
table-Inv_example = table-Inv 2 two_workers (omega arith) (ground arith)
