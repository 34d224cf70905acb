-- ===== src/Filter/Selection.antt =====
-- What the whitelist keeps: the requests that it permits, in their order, with a true count of the
-- rest.
use rload.Prelude.{
  ℕ, ◌+◌, ◌-◌, ◌≤◌, ◌≡◌, refl, sym, ap, subst, ◌≢◌, ◌↔◌, ◌⊎◌, inl, inr, true, List, [], ◌∷◌, arith,
  Bool-cases, &&_true, or_sound, or_complete, Bytes, length, is_empty, All, Any,
}
use mathlib.Core.List.{Sublist, Sublistᴰ}
use rload.Error.{ok}
use rload.Config.{Method, index, ReplayFilter}
use rload.Request.{ReplayRequest}
use rload.Filter.Glob.Pattern.{Matches}
use rload.Filter.Glob.Step.{HasNoStar}
use rload.Filter.Glob.Correct.{glob_matches_sound, glob_matches_iff}
use rload.Filter.Whitelist.{
  method_eq, contains_method, glob_answer, any_matches, is_allowed, retain, apply,
}

-- What a filter permits, with no search order: an empty list of methods or of patterns permits all.
abbrev pub Permits : ReplayFilter → ReplayRequest → Type 0
Permits f r =
    ((f.allowed_methods ≡ []) ⊎ Any (λ m. m ≡ r.method) f.allowed_methods)
    × ((f.allowed_uris ≡ []) ⊎ Any (λ p. Matches p r.path) f.allowed_uris)

method_eq_sound : (a b : Method) → method_eq a b ≡ true → a ≡ b
unfolding index
method_eq_sound a b h = ground arith

method_eq_refl : (a : Method) → method_eq a a ≡ true
unfolding index
method_eq_refl a = ground arith

contains_method_sound :
    (m : Method) (ms : List Method) → contains_method m ms ≡ true → Any (λ x. x ≡ m) ms
unfolding contains_method
contains_method_sound m [] h = cc
contains_method_sound m (x ∷ xs) h =
    or_sound _ _ (method_eq_sound x m) (contains_method_sound m xs) h

contains_method_complete :
    (m : Method) (ms : List Method) → Any (λ x. x ≡ m) ms → contains_method m ms ≡ true
unfolding contains_method
contains_method_complete m [] h = absurd h
contains_method_complete m (x ∷ xs) h =
    or_complete _ _ (λ (e : x ≡ m). rw e (method_eq_refl m)) (contains_method_complete m xs) h

glob_answer_sound : (p v : Bytes) → glob_answer p v ≡ true → Matches p v
unfolding glob_answer
glob_answer_sound p v h = glob_matches_sound p v (ground arith)

glob_answer_complete : (p v : Bytes) → HasNoStar v → Matches p v → glob_answer p v ≡ true
unfolding glob_answer
glob_answer_complete p v plain m = ground (arith, (glob_matches_iff p v plain).1 m)

any_matches_sound :
    (ps : List Bytes) (v : Bytes) → any_matches ps v ≡ true → Any (λ p. Matches p v) ps
unfolding any_matches
any_matches_sound [] v h = cc
any_matches_sound (p ∷ ps) v h = or_sound _ _ (glob_answer_sound p v) (any_matches_sound ps v) h

any_matches_complete :
    (ps : List Bytes) (v : Bytes)
    → HasNoStar v
    → Any (λ p. Matches p v) ps
    → any_matches ps v ≡ true
unfolding any_matches
any_matches_complete [] v plain h = absurd h
any_matches_complete (p ∷ ps) v plain h =
    or_complete _ _ (glob_answer_complete p v plain) (any_matches_complete ps v plain) h

is_empty_iff {ℓ} : {A : Type ℓ} (xs : List A) → (is_empty xs ≡ true) ↔ (xs ≡ [])
is_empty_iff [] = (λ h. refl, λ h. refl)
is_empty_iff (x ∷ xs) = (λ h. cc, λ h. cc)

is_allowed_sound : (f : ReplayFilter) (r : ReplayRequest) → is_allowed f r ≡ true → Permits f r
unfolding is_allowed
is_allowed_sound f r h =
    let (hm, hu) = &&_true _ _ h in
    (
      or_sound _ _ (is_empty_iff f.allowed_methods).0 (contains_method_sound r.method _) hm,
      or_sound _ _ (is_empty_iff f.allowed_uris).0 (any_matches_sound _ r.path) hu,
    )

is_allowed_complete :
    (f : ReplayFilter) (r : ReplayRequest) → HasNoStar r.path → Permits f r → is_allowed f r ≡ true
unfolding is_allowed
is_allowed_complete f r plain (hm, hu) =
    rw (or_complete _ _ (is_empty_iff f.allowed_methods).1 (contains_method_complete r.method _) hm)
      (or_complete _ _ (is_empty_iff f.allowed_uris).1 (any_matches_complete _ r.path plain) hu)

retain-Permits : (f : ReplayFilter) (rs : List ReplayRequest) → All (Permits f) (retain f rs)
unfolding retain
retain-Permits f [] = tt
retain-Permits f (r ∷ rs) = elim (Bool-cases (is_allowed f r)) [
  | inl h ↦ rw (h, All) (is_allowed_sound f r h, retain-Permits f rs)
  | inr h ↦ rw h (retain-Permits f rs)
]

retain-Sublistᴰ : (f : ReplayFilter) (rs : List ReplayRequest) → Sublistᴰ (retain f rs) rs
unfolding retain
retain-Sublistᴰ f [] = Sublistᴰ.slnil
retain-Sublistᴰ f (r ∷ rs) = elim (Bool-cases (is_allowed f r)) [
  | inl h ↦ rw h (Sublistᴰ.cons-cons refl (retain-Sublistᴰ f rs))
  | inr h ↦ rw h (Sublistᴰ.cons (retain-Sublistᴰ f rs))
]

retain-Any :
    (f : ReplayFilter) (r : ReplayRequest) (rs : List ReplayRequest)
    → HasNoStar r.path
    → Permits f r
    → Any (λ x. x ≡ r) rs
    → Any (λ x. x ≡ r) (retain f rs)
unfolding retain
retain-Any f r [] plain p h = absurd h
retain-Any f r (x ∷ rs) plain p (inl e) =
    rw (subst (λ y. is_allowed f y ≡ true) (sym e) (is_allowed_complete f r plain p), Any) (inl e)
retain-Any f r (x ∷ rs) plain p (inr h) = elim (Bool-cases (is_allowed f x)) [
  | inl k ↦ rw (k, Any) (inr (retain-Any f r rs plain p h))
  | inr k ↦ rw k (retain-Any f r rs plain p h)
]

length-retain-le : (f : ReplayFilter) (rs : List ReplayRequest) → length (retain f rs) ≤ length rs
unfolding retain
length-retain-le f [] = omega arith
length-retain-le f (r ∷ rs) = ground (arith, length-retain-le f rs)

kept-retain :
    (rs kept : List ReplayRequest) (f : ReplayFilter) (filtered : ℕ)
    → apply rs f ≡ ok (kept, filtered)
    → retain f rs ≡ kept
unfolding apply
kept-retain rs kept f filtered h = ground arith

-- An applied whitelist keeps a nonempty sublist of permitted requests, and the count of dropped
-- ones with the kept ones gives the original count.
pub apply-ok :
    (rs kept : List ReplayRequest) (f : ReplayFilter) (filtered : ℕ)
    → apply rs f ≡ ok (kept, filtered)
    → Sublist kept rs × All (Permits f) kept × (kept ≢ []) × (length kept + filtered ≡ length rs)
unfolding apply
apply-ok rs kept f filtered h = (
  subst (λ k. Sublist k rs) e ∣ retain-Sublistᴰ f rs ∣₁,
  subst (All (Permits f)) e (retain-Permits f rs),
  ground arith,
  omega (arith, ap length e, length-retain-le f rs, count),
)
  where
    e : retain f rs ≡ kept
    e = kept-retain rs kept f filtered h

    count : length rs - length (retain f rs) ≡ filtered
    count = ground arith

-- An applied whitelist keeps every permitted request whose path holds no star.
pub apply-keeps :
    (rs kept : List ReplayRequest) (f : ReplayFilter) (filtered : ℕ) (r : ReplayRequest)
    → apply rs f ≡ ok (kept, filtered)
    → HasNoStar r.path
    → Permits f r
    → Any (λ x. x ≡ r) rs
    → Any (λ x. x ≡ r) kept
apply-keeps rs kept f filtered r h plain p m =
    subst (Any (λ x. x ≡ r)) (kept-retain rs kept f filtered h) (retain-Any f r rs plain p m)
