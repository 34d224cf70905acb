-- ===== src/Engine/Action/Keeps.antt =====
-- What an action leaves behind: one rule for each way to build an action.
use rload.Prelude.{Option, none, some, Bool, true, false, if◌then◌else◌, ◌≡◌, refl, arith}
use rload.Error.{RunError, ErrorKind, Result, ok, err}
use rload.Engine.Action.{
  Outcome, done, failed, stuck, Action, pure, fail, run_dry, gets, sees, call, call_io, attempt,
  modify, continue, resumed, ◌>>=◌,
}

module _ {S : Type 0} {A : Type 0} where
  -- `R` holds of a result and the state beside it, `F` of the state after a failure; fuel runs out
  -- only if `D`.
  abbrev pub Ends : (R : A → S → Type 0) (F : S → Type 0) (D : Type 0) → Outcome A → S → Type 0
  Ends R F D (done a) s = R a s
  Ends R F D (failed e) s = F s
  Ends R F D stuck s = D

  -- The same of the outcome as a value.
  abbrev pub Answered : (R : A → S → Type 0) (F : S → Type 0) → Result RunError A → S → Type 0
  Answered R F (ok a) s = R a s
  Answered R F (err e) s = F s

-- An action from a state with `P`.
pub record Meets {S W A : Type 0} (P : S → Type 0) (m : Action S W A) (R : A → S → Type 0)
    (F : S → Type 0) (D : Type 0) : Type 0 where
  pub at : (s : S) (w : W) → P s → Ends R F D (m s w).0 (m s w).1

-- `P` stays, however the action ends.
pub record Keeps {S W A : Type 0} (P : S → Type 0) (D : Type 0) (m : Action S W A) : Type 0 where
  pub at : (s : S) (w : W) → P s → Ends (λ a. P) P D (m s w).0 (m s w).1

module _ {S W A : Type 0} where
  resumed-Ends :
      (R : A → S → Type 0) (F : S → Type 0) (D : Type 0) (r : Outcome A × S × W)
      → Ends R F D r.0 r.1
      → Ends (Answered R F) F D (resumed r).0 (resumed r).1
  resumed-Ends R F D (done a, s, w) h = h
  resumed-Ends R F D (failed e, s, w) h = h
  resumed-Ends R F D (stuck, s, w) h = h

module _ {S W A : Type 0} {P : S → Type 0} {D : Type 0} where
  pub Keeps-pure : (a : A) → Keeps {W = W} P D (pure a)
  unfolding pure
  Keeps-pure a = record { at = λ s w h. h }

  pub Keeps-fail : (e : RunError) → Keeps {W = W} P D (fail {A = A} e)
  unfolding fail
  Keeps-fail e = record { at = λ s w h. h }

  pub Keeps-run_dry : D → Keeps {W = W} P D (run_dry {A = A})
  unfolding run_dry
  Keeps-run_dry d = record { at = λ s w h. d }

  pub Keeps-gets : (f : S → A) → Keeps {W = W} P D (gets f)
  unfolding gets
  Keeps-gets f = record { at = λ s w h. h }

  pub Keeps-sees : (f : W → A) → Keeps P D (sees f)
  unfolding sees
  Keeps-sees f = record { at = λ s w h. h }

  pub Keeps-call : (f : W → A × W) → Keeps P D (call f)
  unfolding call
  Keeps-call f = record { at = λ s w h. h }

  pub Keeps-call_io : (f : W → Result ErrorKind A × W) → Keeps P D (call_io f)
  unfolding call_io
  Keeps-call_io f = record { at = λ s w h. ground arith }

  pub Keeps-attempt : (m : Action S W A) → Keeps P D m → Keeps P D (attempt m)
  unfolding attempt
  Keeps-attempt m k = record { at = λ s w h. let q = k.at s w h in ground arith }

  pub Keeps-if :
      (b : Bool) (m n : Action S W A)
      → (b ≡ true → Keeps P D m)
      → (b ≡ false → Keeps P D n)
      → Keeps P D (if b then m else n)
  Keeps-if true m n km kn = km refl
  Keeps-if false m n km kn = kn refl

  -- The two kinds of case split in the code.
  pub Keeps-Option :
      {B : Type 0} (o : Option B) (m : Action S W A) (f : B → Action S W A)
      → Keeps P D m
      → ((b : B) → Keeps P D (f b))
      → Keeps P D (elim o [ none ↦ m | some b ↦ f b ])
  Keeps-Option none m f km kf = km
  Keeps-Option (some b) m f km kf = kf b

  pub Keeps-Result :
      {E B : Type 0} (r : Result E B) (m : E → Action S W A) (f : B → Action S W A)
      → ((e : E) → Keeps P D (m e))
      → ((b : B) → Keeps P D (f b))
      → Keeps P D (elim r [ err e ↦ m e | ok b ↦ f b ])
  Keeps-Result (err e) m f km kf = km e
  Keeps-Result (ok b) m f km kf = kf b

module _ {S W : Type 0} {P : S → Type 0} {D : Type 0} where
  pub Keeps-modify : (f : S → S) → ((s : S) → P s → P (f s)) → Keeps {W = W} P D (modify f)
  unfolding modify
  Keeps-modify f k = record { at = λ s w h. k s h }

module _ {S W A B : Type 0} {R : A → S → Type 0} {Q : B → S → Type 0} {F : S → Type 0}
    {D : Type 0} where
  continue-Ends :
      (f : A → Action S W B) (r : Outcome A × S × W)
      → ((a : A) → Meets (R a) (f a) Q F D)
      → Ends R F D r.0 r.1
      → Ends Q F D (continue f r).0 (continue f r).1
  continue-Ends f (done a, s, w) k h = (k a).at s w h
  continue-Ends f (failed e, s, w) k h = h
  continue-Ends f (stuck, s, w) k h = h

  pub Meets-bind :
      {P : S → Type 0} (m : Action S W A) (f : A → Action S W B)
      → Meets P m R F D
      → ((a : A) → Meets (R a) (f a) Q F D)
      → Meets P (m >>= f) Q F D
  unfolding ◌>>=◌
  Meets-bind m f km kf = record { at = λ s w h. continue-Ends f (m s w) kf (km.at s w h) }

module _ {S A : Type 0} where
  Ends-imp :
      (R R' : A → S → Type 0) (F F' : S → Type 0) (D : Type 0)
      → (o : Outcome A) (s : S) → Ends R F D o s
      → ((a : A) → R a s → R' a s)
      → (F s → F' s)
      → Ends R' F' D o s
  Ends-imp R R' F F' D (done a) s h k kf = k a h
  Ends-imp R R' F F' D (failed e) s h k kf = kf h
  Ends-imp R R' F F' D stuck s h k kf = h

module _ {S W A : Type 0} {P : S → Type 0} {R : A → S → Type 0} {F : S → Type 0} {D : Type 0} where
  pub Meets-pure : (a : A) → ((s : S) → P s → R a s) → Meets {W = W} P (pure a) R F D
  unfolding pure
  Meets-pure a k = record { at = λ s w h. k s h }

  pub Meets-fail : (e : RunError) → ((s : S) → P s → F s) → Meets {W = W} P (fail e) R F D
  unfolding fail
  Meets-fail e k = record { at = λ s w h. k s h }

  pub Meets-run_dry : ((s : S) → P s → D) → Meets {W = W} P run_dry R F D
  unfolding run_dry
  Meets-run_dry k = record { at = λ s w h. k s h }

  pub Meets-if :
      (b : Bool) (m n : Action S W A)
      → (b ≡ true → Meets P m R F D)
      → (b ≡ false → Meets P n R F D)
      → Meets P (if b then m else n) R F D
  Meets-if true m n km kn = km refl
  Meets-if false m n km kn = kn refl

  pub Meets-Result :
      {E B : Type 0} (r : Result E B) (m : B → Action S W A) (n : E → Action S W A)
      → ((b : B) → Meets P (m b) R F D)
      → ((e : E) → Meets P (n e) R F D)
      → Meets P (elim r [ ok b ↦ m b | err e ↦ n e ]) R F D
  Meets-Result (err e) m n km kn = kn e
  Meets-Result (ok b) m n km kn = km b

  -- What an action keeps, with what follows from it on each way out.
  pub Meets-of_Keeps :
      (I : S → Type 0) (m : Action S W A)
      → Keeps I D m
      → ((s : S) → P s → I s)
      → ((a : A) (s : S) → I s → R a s)
      → ((s : S) → I s → F s)
      → Meets P m R F D
  Meets-of_Keeps I m k before after failed_after = record {
    at = λ s w h.
        Ends-imp (λ a. I) R I F D (m s w).0 (m s w).1 (k.at s w (before s h))
          (λ a. after a (m s w).1) (failed_after (m s w).1);
  }

module _ {S W A : Type 0} {P : S → Type 0} {D : Type 0} where
  pub Meets-gets : (f : S → A) → Meets {W = W} P (gets f) (λ a s. P s × (a ≡ f s)) P D
  unfolding gets
  Meets-gets f = record { at = λ s w h. (h, refl) }

  pub Keeps-of_Meets : (m : Action S W A) → Meets P m (λ a. P) P D → Keeps P D m
  Keeps-of_Meets m k = record { at = k.at }

  pub Meets-same : (m : Action S W A) → Keeps P D m → Meets P m (λ a. P) P D
  Meets-same m k = record { at = k.at }

module _ {S W : Type 0} {P Q F : S → Type 0} {D : Type 0} where
  pub Meets-modify :
      (f : S → S) → ((s : S) → P s → Q (f s)) → Meets {W = W} P (modify f) (λ u. Q) F D
  unfolding modify
  Meets-modify f k = record { at = λ s w h. k s h }

module _ {S W A B : Type 0} {P : S → Type 0} {D : Type 0} where
  pub Keeps-bind :
      (m : Action S W A) (f : A → Action S W B)
      → Keeps P D m
      → ((a : A) → Keeps P D (f a))
      → Keeps P D (m >>= f)
  Keeps-bind m f km kf =
      Keeps-of_Meets _ (Meets-bind m f (Meets-same m km) (λ a. Meets-same (f a) (kf a)))

-- A method that looks at its object first knows that `P` held of what it saw.
module _ {S W A : Type 0} {P : S → Type 0} where
  pub Meets-look :
      {R : A → S → Type 0} {F : S → Type 0} {D : Type 0} (f : S → Action S W A)
      → ((c : S) → P c → Meets (λ s. P s × (c ≡ s)) (f c) R F D)
      → Meets P (gets (λ c. c) >>= f) R F D
  unfolding ◌>>=◌
  Meets-look f k = record { at = λ s w h. (k s h).at s w (h, refl) }

  pub Keeps-look :
      {D : Type 0} (f : S → Action S W A)
      → ((c : S) → P c → Keeps P D (f c))
      → Keeps P D (gets (λ c. c) >>= f)
  unfolding ◌>>=◌
  Keeps-look f k = record { at = λ s w h. (k s h).at s w h }

module _ {S W A : Type 0} {P : S → Type 0} {R : A → S → Type 0} {F : S → Type 0} {D : Type 0} where
  pub Meets-before :
      (Q : S → Type 0) (m : Action S W A)
      → ((s : S) → P s → Q s)
      → Meets Q m R F D
      → Meets P m R F D
  Meets-before Q m k h = record { at = λ s w p. h.at s w (k s p) }

  -- A fact beside the state's.
  pub Meets-given :
      {X : Type 0} (m : Action S W A) → (X → Meets P m R F D) → Meets (λ s. P s × X) m R F D
  Meets-given m k = record { at = λ s w h. (k h.1).at s w h.0 }

  pub Meets-call : (f : W → A × W) → ((s : S) (w : W) → P s → R (f w).0 s) → Meets P (call f) R F D
  unfolding call
  Meets-call f k = record { at = λ s w h. k s w h }

  pub Meets-attempt : (m : Action S W A) → Meets P m R F D → Meets P (attempt m) (Answered R F) F D
  unfolding attempt
  Meets-attempt m k = record { at = λ s w h. resumed-Ends R F D (m s w) (k.at s w h) }

module _ {S W A : Type 0} {P : S → Type 0} {R : A → S → Type 0} {F : S → Type 0} {D : Type 0} where
  pub Meets-imp :
      {Q : A → S → Type 0} {G : S → Type 0} (m : Action S W A)
      → Meets P m Q G D
      → ((a : A) (s : S) → Q a s → R a s)
      → ((s : S) → G s → F s)
      → Meets P m R F D
  Meets-imp {Q} {G} m k after failed_after = record {
    at = λ s w h.
        Ends-imp Q R G F D (m s w).0 (m s w).1 (k.at s w h) (λ a. after a (m s w).1)
          (failed_after (m s w).1);
  }

  pub Meets-of_Meets :
      {Q : A → S → Type 0} (m : Action S W A)
      → Meets P m Q F D
      → ((a : A) (s : S) → Q a s → R a s)
      → Meets P m R F D
  Meets-of_Meets m k after = Meets-imp m k after (λ s h. h)

module _ {S W A B E : Type 0} {P : S → Type 0} {R : A → S → Type 0} {F : S → Type 0}
    {D : Type 0} where
  -- `match` on the result of a call out of the program.
  pub Meets-call_bind :
      (f : W → Result E B × W) (m : B → Action S W A) (n : E → Action S W A)
      → ((b : B) → Meets P (m b) R F D)
      → ((e : E) → Meets P (n e) R F D)
      → Meets P (call f >>= λ r. elim r [ ok b ↦ m b | err e ↦ n e ]) R F D
  Meets-call_bind f m n km kn =
      Meets-bind (call f) _ (Meets-call {R = λ r. P} f (λ s w h. h)) (λ r. Meets-Result r m n km kn)

pub ruleset keeps_rules = (
  Keeps-pure, Keeps-fail, Keeps-gets, Keeps-sees, Keeps-call, Keeps-call_io, Keeps-attempt,
  Keeps-if, Keeps-modify, Keeps-bind, Keeps-Option, Keeps-Result,
)
