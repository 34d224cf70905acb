-- ===== src/Target/Lines.antt =====
-- A request as lines and a body: what its bytes are read back as.
use rload.Prelude.{
  ℕ, zero, suc, ◌≡◌, refl, ap, inl, inr, false, Option, none, some, List, [], ◌∷◌, ◌++◌, map,
  append_assoc, arith, ◌==◌, if◌then◌else◌, Bool-cases, Bytes, codes, length, drop, is_empty, All,
  All-append,
}
use rload.Config.{Method, as_str, get}
use rload.Text.Split.{starts_with}
use rload.Request.{ReplayRequest, headers, body}
use rload.Target.{Target, request_head, header_lines, has_content_length, replay_request}

abbrev pub carriage_return : ℕ
carriage_return = 13

-- No line ends within the text.
abbrev pub IsLine : Bytes → Type 0
IsLine = All (λ c. (c == 13) ≡ false)

abbrev pub ended : Bytes → Bytes
ended l = l ++ 13 ∷ 10 ∷ []

-- The first line, and what follows it.
unfoldable pub cut_line : Bytes → Option (Bytes × Bytes)
cut_line [] = none
cut_line (c ∷ s) =
    let rest = cut_line s in
    if c == 13
    then (if starts_with (10 ∷ []) s
        then some ([], drop 1 s)
        else elim rest [ none ↦ none | some (l, r) ↦ some (c ∷ l, r) ])
    else elim rest [ none ↦ none | some (l, r) ↦ some (c ∷ l, r) ]

-- The lines before the first empty one, and what follows that.
unfoldable pub read_head : (most : ℕ) → Bytes → Option (List Bytes × Bytes)
read_head zero s = none
read_head (suc most) s = elim (cut_line s) [
  | none ↦ none
  | some (l, rest) ↦
      let later = read_head most rest in
      if is_empty l
      then some ([], rest)
      else elim later [ none ↦ none | some (ls, b) ↦ some (l ∷ ls, b) ]
]

cut_line-append : (l s : Bytes) → IsLine l → cut_line (l ++ (13 ∷ 10 ∷ s)) ≡ some (l, s)
unfolding cut_line starts_with
cut_line-append [] s h = refl
cut_line-append (c ∷ l) s h = rw (h.0, cut_line-append l s h.1) refl

abbrev joined : List Bytes → Bytes → Bytes
joined [] b = 13 ∷ 10 ∷ b
joined (l ∷ ls) b = l ++ (13 ∷ 10 ∷ joined ls b)

abbrev AreLines : List Bytes → Type 0
AreLines = All (λ l. IsLine l × (is_empty l ≡ false))

read_head-joined :
    (ls : List Bytes) (b : Bytes)
    → AreLines ls
    → read_head (suc (length ls)) (joined ls b) ≡ some (ls, b)
unfolding read_head
read_head-joined [] b h = let e = cut_line-append [] b tt in ground arith
read_head-joined (l ∷ ls) b h =
    let e = cut_line-append l (joined ls b) h.0.0 in
    let later = read_head-joined ls b h.1 in let filled = h.0.1 in ground arith

-- The lines of a replayed request.
abbrev pub header_line : Bytes × Bytes → Bytes
header_line (name, value) = name ++ (codes ": " ++ value)

abbrev pub length_lines : (decimal : ℕ → Bytes) → ReplayRequest → List Bytes
length_lines decimal r =
    if has_content_length r.method
    then (codes "Content-Length: " ++ decimal (length (body r))) ∷ []
    else []

abbrev pub request_lines :
    {Name : Type 0} → (decimal : ℕ → Bytes) → Target Name → ReplayRequest → List Bytes
request_lines decimal t r =
    (as_str r.method ++ (codes " " ++ (r.path ++ codes " HTTP/1.1")))
    ∷ (codes "Host: " ++ t.host_header)
    ∷ (map header_line (headers r)
        ++ (length_lines decimal r ++ codes "Connection: keep-alive" ∷ []))

header_lines-joined :
    (hs : List (Bytes × Bytes)) (ls : List Bytes) (b : Bytes)
    → header_lines hs ++ joined ls b ≡ joined (map header_line hs ++ ls) b
unfolding header_lines
header_lines-joined [] ls b = refl
header_lines-joined ((name, value) ∷ hs) ls b = simp (append_assoc, header_lines-joined hs ls b)

replay_request-joined :
    {Name : Type 0} (decimal : ℕ → Bytes) (t : Target Name) (r : ReplayRequest)
    → replay_request decimal t r ≡ joined (request_lines decimal t r) (body r)
unfolding replay_request request_head
replay_request-joined decimal t r =
    let inside = λ (x : Bytes).
      as_str r.method
      ++ (codes " "
          ++ (r.path
              ++ (codes " HTTP/1.1"
                  ++ (13 ∷ 10 ∷ codes "Host: " ++ (t.host_header ++ 13 ∷ 10 ∷ x))))) in
    elim (Bool-cases (has_content_length r.method)) [
      | inl k ↦ rw k (
          simp append_assoc (
            ap inside (
              header_lines-joined (headers r)
                ((codes "Content-Length: " ++ decimal (length (body r)))
                  ∷ codes "Connection: keep-alive"
                  ∷ [])
                (body r))))
      | inr k ↦ rw k (
          simp append_assoc (
            ap inside
              (header_lines-joined (headers r) (codes "Connection: keep-alive" ∷ []) (body r))))
    ]

method-IsLine : (m : Method) → IsLine (as_str m)
unfolding as_str
method-IsLine get = ground arith
method-IsLine m = ground arith

-- Nothing in the request ends a line.
pub record IsPlain {Name : Type 0} (decimal : ℕ → Bytes) (t : Target Name) (r : ReplayRequest)
    : Type 0 where
  pub path : IsLine r.path
  pub host : IsLine t.host_header
  pub headers : All (λ h. IsLine h.0 × IsLine h.1) (headers r)
  pub printed : (n : ℕ) → IsLine (decimal n)

filled_tail : (l : Bytes) (c : ℕ) (s : Bytes) → is_empty (l ++ c ∷ s) ≡ false
filled_tail [] c s = refl
filled_tail (x ∷ l) c s = refl

header-AreLines :
    (hs : List (Bytes × Bytes))
    → All (λ h. IsLine h.0 × IsLine h.1) hs
    → AreLines (map header_line hs)
header-AreLines [] a = tt
header-AreLines ((name, value) ∷ hs) a = (
  (
    All-append (λ c. (c == 13) ≡ false) name _ a.0.0 (refl, (refl, a.0.1)),
    filled_tail name 58 (32 ∷ value),
  ),
  header-AreLines hs a.1,
)

first-IsLine :
    (m : Method) (path : Bytes)
    → IsLine path
    → IsLine (as_str m ++ (codes " " ++ (path ++ codes " HTTP/1.1")))
      × (is_empty (as_str m ++ (codes " " ++ (path ++ codes " HTTP/1.1"))) ≡ false)
first-IsLine m path h = (
  All-append (λ c. (c == 13) ≡ false) (as_str m) _ (method-IsLine m)
      (refl, All-append (λ c. (c == 13) ≡ false) path _ h (ground arith)),
  filled_tail (as_str m) 32 _,
)

length-AreLines :
    (decimal : ℕ → Bytes) (r : ReplayRequest)
    → ((n : ℕ) → IsLine (decimal n))
    → AreLines (length_lines decimal r)
length-AreLines decimal r h = elim (Bool-cases (has_content_length r.method)) [
  | inl k ↦ rw k (
    (All-append (λ c. (c == 13) ≡ false) (codes "Content-Length: ") _ (ground arith) (h _), refl),
    tt,
  )
  | inr k ↦ rw k tt
]

request-AreLines :
    {Name : Type 0} (decimal : ℕ → Bytes) (t : Target Name) (r : ReplayRequest)
    → IsPlain decimal t r
    → AreLines (request_lines decimal t r)
request-AreLines decimal t r p = (
  first-IsLine r.method r.path p.path,
  (
    (All-append (λ c. (c == 13) ≡ false) (codes "Host: ") _ (ground arith) p.host, refl),
    All-append (λ l. IsLine l × (is_empty l ≡ false)) (map header_line (headers r)) _
        (header-AreLines (headers r) p.headers)
        (All-append (λ l. IsLine l × (is_empty l ≡ false)) (length_lines decimal r) _
          (length-AreLines decimal r p.printed) ((ground arith, refl), tt)),
  ),
)

-- Where neither the path, the host header, the headers nor a printed number has a carriage return,
-- the bytes of a replayed request are read back, line by line up to the first empty one, as the
-- request line, the host, the headers in order, a content length if the method sends one, and the
-- connection line, and what follows is the body.
pub replay_request-read_head :
    {Name : Type 0} (decimal : ℕ → Bytes) (t : Target Name) (r : ReplayRequest)
    → IsPlain decimal t r
    → read_head (suc (length (request_lines decimal t r))) (replay_request decimal t r)
      ≡ some (request_lines decimal t r, body r)
replay_request-read_head decimal t r p =
    rw (replay_request-joined decimal t r)
      (read_head-joined (request_lines decimal t r) (body r) (request-AreLines decimal t r p))
