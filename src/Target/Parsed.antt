-- ===== src/Target/Parsed.antt =====
-- What a parsed URL is made of.
use rload.Prelude.{
  ℕ, ◌≡◌, refl, sym, ap, subst, ◌≢◌, ◌⊎◌, inl, inr, Bool, false, Option, some, [], ◌∷◌, ◌++◌, arith,
  ◌==◌, if◌then◌else◌, ==_iff, Bool-cases, Option-cases, Bytes, codes, is_empty, All,
}
use rload.Error.{Result, ok, err, ◌>>=◌}
use rload.Text.Split.{starts_with, split_once}
use rload.Target.{
  Target, strip_prefix, parse_remainder, parse, split_scheme, is_boundary, split_authority, before,
  with_slash, request_path,
}
use mathlib.Core.Option.{some-injective}

split_authority-All : (s : Bytes) → All (λ c. is_boundary c ≡ false) (split_authority s).0
unfolding split_authority
split_authority-All [] = tt
split_authority-All (c ∷ s) = elim (Bool-cases (is_boundary c)) [
  | inl k ↦ rw k tt
  | inr k ↦ rw k (k, split_authority-All s)
]

split_authority-append : (s : Bytes) → (split_authority s).0 ++ (split_authority s).1 ≡ s
unfolding split_authority
split_authority-append [] = refl
split_authority-append (c ∷ s) = elim (Bool-cases (is_boundary c)) [
  | inl k ↦ rw k refl
  | inr k ↦ rw k (ap (λ (t : Bytes). c ∷ t) (split_authority-append s))
]

before-cons :
    (sep c : ℕ) (s : Bytes) → before sep (c ∷ s) ≡ (if c == sep then [] else c ∷ before sep s)
unfolding before split_once
before-cons sep c s = ground arith

before-All : (sep : ℕ) (s : Bytes) → All (λ c. (c == sep) ≡ false) (before sep s)
unfolding before split_once
before-All sep [] = tt
before-All sep (c ∷ s) = elim (Bool-cases (c == sep)) [
  | inl k ↦ rw (before-cons sep c s, k) tt
  | inr k ↦ rw (before-cons sep c s, k) (k, before-All sep s)
]

-- A path that begins with a slash, with no `#`.
abbrev pub IsRooted : Bytes → Type 0
IsRooted path = ((rest : Bytes) × (path ≡ b'/' ∷ rest)) × All (λ c. (c == b'#') ≡ false) path

with_slash-IsRooted : (s : Bytes) → All (λ c. (c == b'#') ≡ false) s → IsRooted (with_slash s)
unfolding with_slash
with_slash-IsRooted [] h = (([], refl), (refl, tt))
with_slash-IsRooted (c ∷ s) h = elim (Bool-cases (c == b'/')) [
  | inl k ↦ rw k ((s, ap (λ (x : ℕ). x ∷ s) ((==_iff c 47).0 k)), h)
  | inr k ↦ elim (Bool-cases (c == b'?')) [
    | inl q ↦ rw (k, q) ((c ∷ s, refl), (refl, h))
    | inr q ↦ rw (k, q) (([], refl), (refl, tt))
  ]
]

strip_prefix-append : (p s r : Bytes) → strip_prefix p s ≡ some r → s ≡ p ++ r
unfolding strip_prefix starts_with
strip_prefix-append [] s r h = some-injective _ _ h
strip_prefix-append (x ∷ p) [] r h = cc
strip_prefix-append (x ∷ p) (c ∷ s) r h = ground (arith, strip_prefix-append p s r)

-- Where a target comes from.
pub record IsTarget {Name : Type 0} (url : Bytes) (t : Target Name) : Type 0 where
  pub host : t.host_header ≢ []
  pub bounded : All (λ c. is_boundary c ≡ false) t.host_header
  pub rooted : IsRooted t.path
  pub source :
      (suffix : Bytes) × ((url ≡ codes "http://" ++ (t.host_header ++ suffix))
        ⊎ (url ≡ codes "https://" ++ (t.host_header ++ suffix)))
      × (t.path ≡ request_path suffix)

scheme_source :
    (url remainder port : Bytes) (tls : Bool)
    → split_scheme url ≡ ok (remainder, port, tls)
    → (url ≡ codes "http://" ++ remainder) ⊎ (url ≡ codes "https://" ++ remainder)
unfolding split_scheme
scheme_source url remainder port tls h = elim (Option-cases (strip_prefix (codes "http://") url)) [
  | inr (r, e) ↦
      let f = strip_prefix-append (codes "http://") url r e in
      inl (subst (λ x. url ≡ codes "http://" ++ x) (ground arith) f)
  | inl e ↦ elim (Option-cases (strip_prefix (codes "https://") url)) [
    | inr (r, q) ↦
        let f = strip_prefix-append (codes "https://") url r q in
        inr (subst (λ x. url ≡ codes "https://" ++ x) (ground arith) f)
    | inl q ↦ ground arith
  ]
]

bind_ok :
    {E A B : Type 0} (m : Result E A) (f : A → Result E B) (b : B)
    → (m >>= f) ≡ ok b
    → (a : A) × (m ≡ ok a) × (f a ≡ ok b)
bind_ok (err e) f b h = cc
bind_ok (ok a) f b h = (a, refl, h)

Parts : {Name : Type 0} → (remainder : Bytes) → Target Name → Type 0
Parts remainder t =
    (is_empty t.host_header ≡ false)
    × (t.host_header ≡ (split_authority remainder).0)
    × (t.path ≡ request_path (split_authority remainder).1)

parse_remainder-Parts :
    {Name : Type 0} (server_name : Bytes → Option Name) (remainder port : Bytes) (tls : Bool)
    (t : Target Name)
    → parse_remainder server_name (remainder, port, tls) ≡ ok t
    → Parts remainder t
unfolding parse_remainder Parts
parse_remainder-Parts server_name remainder port tls t h = ground arith

filled_ne : (l : Bytes) → is_empty l ≡ false → l ≢ []
filled_ne [] h e = cc
filled_ne (x ∷ l) h e = cc

-- For any notion of a TLS name, a URL that parses is one of the two schemes followed by the host
-- header and a suffix; the host header is not empty and has no slash, question mark or hash sign,
-- the path is that of the suffix, begins with a slash and has no hash sign.
pub parse-IsTarget :
    {Name : Type 0} (server_name : Bytes → Option Name) (url : Bytes) (t : Target Name)
    → parse server_name url ≡ ok t
    → IsTarget url t
unfolding parse Parts request_path
parse-IsTarget server_name url t h =
    let ((remainder, port, tls), scheme, rest) =
      bind_ok (split_scheme url) (parse_remainder server_name) t h in
    let (filled, host, path) = parse_remainder-Parts server_name remainder port tls t rest in
    let joined : remainder ≡ t.host_header ++ (split_authority remainder).1 =
      subst (λ x. remainder ≡ x ++ (split_authority remainder).1) (sym host)
        (sym (split_authority-append remainder)) in
    let whole =
      subst (λ x. (url ≡ codes "http://" ++ x) ⊎ (url ≡ codes "https://" ++ x)) joined
        (scheme_source url remainder port tls scheme) in
    record {
      host = λ e. filled_ne (t.host_header) filled e;
      bounded = rw host (split_authority-All remainder);
      rooted = rw path (with_slash-IsRooted _ (before-All b'#' (split_authority remainder).1));
      source = ((split_authority remainder).1, whole, path);
    }
