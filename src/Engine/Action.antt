-- ===== src/Engine/Action.antt =====
-- A method of a mutable object that may fail: the object and the world come back after a failure too,
-- since what was written stays written. `stuck` is a loop that has used up its fuel.
pub mod Keeps
use rload.Prelude.{Bool, true, false, Option, none, some}
use rload.Error.{RunError, ErrorKind, io, Result, ok, err}

pub data Outcome {ℓ} (A : Type ℓ) : Type ℓ where
  done : A → Outcome A
  failed : RunError → Outcome A
  stuck : Outcome A

abbrev pub Action {ℓ} : (S W : Type 0) → Type ℓ → Type ℓ
Action S W A = S → W → Outcome A × S × W

module _ {S W : Type 0} {A : Type 0} where
  pub pure : A → Action S W A
  pure a s w = (done a, s, w)

  pub fail : RunError → Action S W A
  fail e s w = (failed e, s, w)

  pub run_dry : Action S W A
  run_dry s w = (stuck, s, w)

  pub gets : (S → A) → Action S W A
  gets f s w = (done (f s), s, w)

  -- A look at the world.
  pub sees : (W → A) → Action S W A
  sees f s w = (done (f w), s, w)

  -- A call out of the program.
  pub call : (W → A × W) → Action S W A
  call f s w = let (a, w') = f w in (done a, s, w')

  -- The same, for a call that ends in `?`.
  pub call_io : (W → Result ErrorKind A × W) → Action S W A
  call_io f s w =
      let (r, w') = f w in elim r [ ok a ↦ (done a, s, w') | err e ↦ (failed (io e), s, w') ]

  abbrev pub resumed : Outcome A × S × W → Outcome (Result RunError A) × S × W
  resumed (done a, s, w) = (done (ok a), s, w)
  resumed (failed e, s, w) = (done (err e), s, w)
  resumed (stuck, s, w) = (stuck, s, w)

  -- `match action { Ok(a) => .., Err(e) => .. }`
  pub attempt : Action S W A → Action S W (Result RunError A)
  attempt m s w = resumed (m s w)

module _ {S W : Type 0} where
  pub modify : (S → S) → Action S W (Unit {0})
  modify f s w = (done tt, f s, w)

module _ {S W : Type 0} {A B : Type 0} where
  abbrev pub continue : (A → Action S W B) → Outcome A × S × W → Outcome B × S × W
  continue f (done a, s, w) = f a s w
  continue f (failed e, s, w) = (failed e, s, w)
  continue f (stuck, s, w) = (stuck, s, w)

  infixl 5 ◌>>=◌ ◌>>◌
  -- Opening this opens the actions above too.
  unfoldable pub ◌>>=◌ : Action S W A → (A → Action S W B) → Action S W B
  unfolding pure fail run_dry gets sees call call_io attempt modify
  ◌>>=◌ m f s w = continue f (m s w)

  abbrev pub ◌>>◌ : Action S W A → Action S W B → Action S W B
  m >> k = m >>= λ _. k
