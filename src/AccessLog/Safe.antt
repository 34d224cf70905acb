-- ===== src/AccessLog/Safe.antt =====
-- What the requests of an access log are.
use rload.Prelude.{
  ℕ, ◌+◌, ◌≡◌, refl, subst, ◌≢◌, ◌⊎◌, inl, inr, true, Option, none, some, List, [], ◌∷◌, arith,
  Bool-cases, Option-cases, codes, is_empty, bytes_eq, All, All-append,
}
use rload.Prelude.Int.{ℤ}
use rload.Error.{ErrorKind, Result, ok, err}
use rload.Config.{Method, get, head}
use rload.Request.{ReplayRequest, new_request}
use rload.Text.Split.{split_whitespace, trim}
use rload.AccessLog.{
  ParsedLine, request, skipped_method, AccessLogReplay, is_origin_form, finish_fields, line_fields,
  parse_line, line_timestamp, enclosed, add_line, read_lines, check_replay, read,
}

-- A request without a payload, for a path in origin form.
abbrev pub IsBare : ReplayRequest → Type 0
IsBare r =
    ((r.method ≡ get) ⊎ (r.method ≡ head)) × (is_origin_form r.path ≡ true) × (r.payload ≡ none)

abbrev IsBareLine : ParsedLine → Type 0
IsBareLine (request r) = IsBare r
IsBareLine (skipped_method m) = Unit {0}

finish_fields-IsBareLine :
    (n : ℕ) (m : Method) (t : Option ℤ) (fields : List (List ℕ)) (p : ParsedLine)
    → (m ≡ get) ⊎ (m ≡ head)
    → finish_fields n m t fields ≡ ok p
    → IsBareLine p
unfolding finish_fields new_request
finish_fields-IsBareLine n m t [] p k h = cc
finish_fields-IsBareLine n m t (path ∷ []) (request r) k h = ground arith
finish_fields-IsBareLine n m t (path ∷ []) (skipped_method s) k h = tt
finish_fields-IsBareLine n m t (path ∷ version ∷ more) (request r) k h = ground arith
finish_fields-IsBareLine n m t (path ∷ version ∷ more) (skipped_method s) k h = tt

line_fields-IsBareLine :
    (n : ℕ) (t : Option ℤ) (fields : List (List ℕ)) (p : ParsedLine)
    → line_fields n t fields ≡ ok p
    → IsBareLine p
unfolding line_fields
line_fields-IsBareLine n t [] p h = cc
line_fields-IsBareLine n t (m ∷ fields) (skipped_method s) h = tt
line_fields-IsBareLine n t (m ∷ fields) (request r) h =
    elim (Bool-cases (bytes_eq m (codes "GET"))) [
      | inl k ↦ finish_fields-IsBareLine n get t fields (request r) (inl refl) (ground arith)
      | inr k ↦ finish_fields-IsBareLine n head t fields (request r) (inr refl) (ground arith)
    ]

parse_line-IsBareLine :
    (n : ℕ) (line : List ℕ) (p : ParsedLine) → parse_line n line ≡ some (ok p) → IsBareLine p
unfolding parse_line
parse_line-IsBareLine n line p h = elim (Option-cases (enclosed b'"' b'"' line)) [
  | inl k ↦ ground arith
  | inr (quoted, k) ↦ elim (Option-cases (line_timestamp line)) [
    | inl q ↦ ground arith
    | inr (t, q) ↦ line_fields-IsBareLine n t (split_whitespace quoted) p (ground arith)
  ]
]

add_line-IsBare :
    (p : ParsedLine) (log : AccessLogReplay)
    → IsBareLine p
    → All IsBare log.requests
    → All IsBare (add_line p log).requests
unfolding add_line
add_line-IsBare (request r) log k h = All-append IsBare log.requests (r ∷ []) h (k, tt)
add_line-IsBare (skipped_method m) log k h = h

read_lines-IsBare :
    (n : ℕ) (lines : List (Result ErrorKind (List ℕ))) (log log' : AccessLogReplay)
    → All IsBare log.requests
    → read_lines n lines log ≡ some (ok log')
    → All IsBare log'.requests
unfolding read_lines
read_lines-IsBare n [] log log' a h =
    let e : log ≡ log' = ground arith in subst (λ (x : AccessLogReplay). All IsBare x.requests) e a
read_lines-IsBare n (err e ∷ lines) log log' a h = ground arith
read_lines-IsBare n (ok line ∷ lines) log log' a h = elim (Bool-cases (is_empty (trim line))) [
  | inl k ↦ read_lines-IsBare (n + 1) lines log log' a (ground arith)
  | inr k ↦ elim (Option-cases (parse_line n line)) [
    | inl q ↦ ground arith
    | inr (err e, q) ↦ ground arith
    | inr (ok p, q) ↦
        read_lines-IsBare (n + 1) lines (add_line p log) log'
          (add_line-IsBare p log (parse_line-IsBareLine n line p q) a) (ground arith)
  ]
]

-- An access log that is read gives at least one request, and each of them is a GET or a HEAD
-- without payload, for a path that begins with a slash and has no line break.
pub read-IsBare :
    (source : Result ErrorKind (List (Result ErrorKind (List ℕ)))) (log : AccessLogReplay)
    → read source ≡ some (ok log)
    → All IsBare log.requests × (log.requests ≢ [])
unfolding read check_replay
read-IsBare (err e) log h = ground arith
read-IsBare (ok lines) log h =
    elim (Option-cases (read_lines 1 lines (record { requests = []; skipped_methods = [] }))) [
      | inl q ↦ ground arith
      | inr (err e, q) ↦ ground arith
      | inr (ok found, q) ↦
          let e : found ≡ log = ground arith in
          (
            read_lines-IsBare 1 lines (record { requests = []; skipped_methods = [] }) log tt
                (subst
                  (λ (x : AccessLogReplay).
                    read_lines 1 lines (record { requests = []; skipped_methods = [] })
                    ≡ some (ok x))
                  e q),
            λ none_left. ground arith,
          )
    ]
