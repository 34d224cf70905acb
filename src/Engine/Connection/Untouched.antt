-- ===== src/Engine/Connection/Untouched.antt =====
-- What the methods of a connection do to its balance: its limit, its count of completed requests, and
-- whether it is done.
use rload.Prelude.{ℕ, ◌+◌, Bool, true, false, Option, none, some, List, [], ◌∷◌}
use rload.Error.{ErrorKind, Result, ok, err}
use rload.Engine.Limits.{ConnectionLimit, requests, deadline}
use rload.Engine.Outside.{Outside}
use rload.Engine.Action.Keeps.{
  Keeps, keeps_rules, Keeps-bind, Keeps-call, Keeps-Option, Keeps-Result,
}
use rload.Engine.Transport.{
  Transport, new_transport, finish_handshake, flush_tls, connect_each, connect_from,
  after_handshake, after_flush,
}
use rload.Engine.Connection.{
  Connection, write_error, is_early, goes_on, register, deregister, refresh_interest,
}

module _ (out : Outside) {S : Type 0} {P : S → Type 0} {D : Type 0} where
  pub new_transport-Keeps : (tcp : out.Socket) (b : Bool) → Keeps P D (new_transport out tcp b)
  unfolding new_transport
  new_transport-Keeps tcp true =
      Keeps-bind _ _ (Keeps-call _)
        (λ r. Keeps-Option r _ _ (search keeps_rules) (λ x. search keeps_rules))
  new_transport-Keeps tcp false = search keeps_rules

  after_handshake-Keeps :
      (x : out.Session) (r : Result ErrorKind (Unit {0})) → Keeps P D (after_handshake out x r)
  unfolding after_handshake
  after_handshake-Keeps x (ok u) = search keeps_rules
  after_handshake-Keeps x (err e) = search keeps_rules

  pub finish_handshake-Keeps : (t : Transport out) → Keeps P D (finish_handshake out t)
  unfolding finish_handshake
  finish_handshake-Keeps (Transport.plain s) = search keeps_rules
  finish_handshake-Keeps (Transport.over_tls x s) = search (keeps_rules, after_handshake-Keeps)

  after_flush-Keeps : (r : Result ErrorKind (Unit {0})) → Keeps P D (after_flush out r)
  unfolding after_flush
  after_flush-Keeps (ok u) = search keeps_rules
  after_flush-Keeps (err e) = search keeps_rules

  pub flush_tls-Keeps : (t : Transport out) → Keeps P D (flush_tls out t)
  unfolding flush_tls
  flush_tls-Keeps (Transport.plain s) = search keeps_rules
  flush_tls-Keeps (Transport.over_tls x s) = search (keeps_rules, after_flush-Keeps)

  connect_each-Keeps :
      (e : ErrorKind) (i : ℕ) (l : List out.Address) → Keeps P D (connect_each out e i l)
  unfolding connect_each
  connect_each-Keeps e i [] = search keeps_rules
  connect_each-Keeps e i (a ∷ l) =
      Keeps-bind _ _ (Keeps-call _)
        (λ r. Keeps-Result r _ _ (λ e'. connect_each-Keeps e' (i + 1) l) (λ x. search keeps_rules))

  pub connect_from-Keeps : (l : List out.Address) (start : ℕ) → Keeps P D (connect_from out l start)
  unfolding connect_from
  connect_from-Keeps l start = search (connect_each-Keeps)

module _ (out : Outside) {P : Connection out → Type 0} {D : Type 0} where
  pub is_early-Keeps : (i : Option ℕ) → Keeps P D (is_early out i)
  unfolding is_early
  is_early-Keeps none = search keeps_rules
  is_early-Keeps (some i) = search keeps_rules

  pub goes_on-Keeps : (l : ConnectionLimit) (n : ℕ) → Keeps P D (goes_on out l n)
  unfolding goes_on
  goes_on-Keeps (requests k) n = search keeps_rules
  goes_on-Keeps (deadline e) n = search keeps_rules

  pub write_error-Keeps : (e : ErrorKind) (b : Bool) → Keeps P D (write_error out e b)
  unfolding write_error
  write_error-Keeps e b = search keeps_rules

  pub register-Keeps : (t : ℕ) → Keeps P D (register out t)
  unfolding register
  register-Keeps t = search keeps_rules

  pub deregister-Keeps : Keeps P D (deregister out)
  unfolding deregister
  deregister-Keeps = search keeps_rules

  pub refresh_interest-Keeps : (t : ℕ) → Keeps P D (refresh_interest out t)
  unfolding refresh_interest
  refresh_interest-Keeps t = search (keeps_rules, is_early-Keeps)
