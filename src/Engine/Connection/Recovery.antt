-- ===== src/Engine/Connection/Recovery.antt =====
-- Other connections for the same request, and stopping: `retry_address` to `expire` of
-- src/engine/connection.rs.
use rload.Prelude.{
  ℕ, zero, suc, ◌+◌, ◌-◌, ◌%◌, Bool, true, false, not, ◌&&◌, Option, none, some, ltb, leb, ◌==◌,
  if◌then◌else◌, length, add8, add64,
}
use rload.Error.{RunError, io, worker_panic, Result, ok, err}
use rload.Engine.Limits.{ConnectionLimit, requests, deadline}
use rload.Engine.Outside.{Outside}
use rload.Engine.Action.{◌>>=◌, ◌>>◌, pure, fail, run_dry, gets, call, modify, attempt}
use rload.Engine.Transport.{new_transport, connect_from}
use rload.Engine.Connection.{
  Connection, Act, max_recovery_attempts, decoder_for, deadline_of, is_some, is_early, goes_on,
  register, deregister, refresh_interest,
}
use rload.Engine.Connection.Reading.{mark_done}

pub data Expiration : Type 0 where
  stopped : Expiration
  request_timeout : Expiration
  connection_timeout : Expiration

module _ (out : Outside) where
  unfoldable pub take_recovery_attempts : Act out ℕ
  take_recovery_attempts = do
    c ← gets (λ c. c)
    modify (λ x. record x { pending_recovery_attempts = 0 })
    pure c.pending_recovery_attempts

  -- The flags and the timer of a new connection.
  unfoldable pub reset_timer : Act out (Unit {0})
  reset_timer = modify (λ x. record x {
    awaiting_pace = false;
    reconnect_at_pace = false;
    timer_generation = add64 x.timer_generation 1;
  })

  -- The new connection is put in the place of the old one.
  unfoldable pub install_stream : out.Socket × ℕ → (token : ℕ) → Act out (Unit {0})
  install_stream (tcp, index) token = do
    c ← gets (λ c. c)
    stream ← new_transport out tcp c.with_tls
    modify (λ x. record x { stream = stream; address_index = index })
    time ← call out.now
    modify (λ x. record x { connected_at = time })
    reset_timer
    register out token

  unfoldable pub count_attempt : (fixed_limit : Bool) → Act out (Unit {0})
  count_attempt fixed_limit = modify (λ x. record x {
    pending_recovery_attempts = add64 x.pending_recovery_attempts 1;
    recovery_attempts = if fixed_limit then add8 x.recovery_attempts 1 else x.recovery_attempts;
  })

  -- What follows an attempt, at the connection that it saw: a socket, or `none` for giving up.
  unfoldable pub after_attempt :
      (rest : Act out (Option (out.Socket × ℕ))) (fixed_limit : Bool)
      → Connection out
      → Result RunError (out.Socket × ℕ)
      → Act out (Option (out.Socket × ℕ))
  after_attempt rest fixed_limit c (ok connection) = pure (some connection)
  after_attempt rest fixed_limit c (err (io e)) =
      if not fixed_limit
      then fail (io e)
      else if leb max_recovery_attempts c.recovery_attempts
      then mark_done out >> pure none
      else call (λ w. (tt, out.sleep w)) >> rest
  after_attempt rest fixed_limit c (err e) = fail e

  -- The loop of both methods below, from the address `start` on.
  unfoldable pub attempt_loop :
      (fuel start : ℕ) (fixed_limit : Bool) → Act out (Option (out.Socket × ℕ))
  attempt_loop zero start fixed_limit = run_dry
  attempt_loop (suc fuel) start fixed_limit =
      let rest = attempt_loop fuel start fixed_limit in
      do
        count_attempt fixed_limit
        c ← gets (λ c. c)
        r ← attempt (connect_from out c.addresses start)
        after_attempt rest fixed_limit c r

  -- After at most three attempts the loop gives up.
  abbrev pub attempt_fuel : ℕ
  attempt_fuel = 4

  -- `if next < self.addresses.len() { next } else { 0 }`
  abbrev pub next_address : Connection out → ℕ
  next_address c = if ltb (c.address_index + 1) (length c.addresses) then c.address_index + 1 else 0

  -- After the loop of `retry_address`.
  unfoldable pub after_found : Option (out.Socket × ℕ) → (token : ℕ) → Act out Bool
  after_found none token = pure false
  after_found (some connection) token = install_stream connection token >> pure true

  unfoldable pub retry_fixed : (token : ℕ) → Act out Bool
  retry_fixed token = do
    c ← gets (λ c. c)
    if length c.addresses == 0
        then fail worker_panic
        else if leb max_recovery_attempts c.recovery_attempts
        then mark_done out >> pure false
        else (do
          found ← attempt_loop attempt_fuel ((c.address_index + 1) % length c.addresses) true
          after_found found token)

  unfoldable pub retry_address : (token : ℕ) → Act out Bool
  retry_address token = do
    deregister out
    c ← gets (λ c. c)
    if not (is_some (deadline_of c.limit)) then retry_fixed token else (do
      connection ← connect_from out c.addresses (next_address c)
      install_stream connection token
      pure true)

  -- `limit.deadline().is_some_and(|deadline| deadline <= Instant::now())`
  unfoldable pub deadline_passed : ConnectionLimit → Act out Bool
  deadline_passed (requests count) = pure false
  deadline_passed (deadline end) = do time ← call out.now; pure (leb end time)

  -- The end of `recover_request`: the request is sent again on the new connection.
  unfoldable pub restart_request : out.Socket × ℕ → (token : ℕ) → Act out Bool
  restart_request (tcp, index) token = do
    c ← gets (λ c. c)
    stream ← new_transport out tcp c.with_tls
    modify (λ x. record x {
      stream = stream;
      address_index = index;
      write_offset = 0;
      decoder = decoder_for x.method;
      started = none;
    })
    time ← call out.now
    modify (λ x. record x { connected_at = time })
    reset_timer
    register out token
    pure true

  -- After the loop of `recover_request`.
  unfoldable pub after_recovered : Option (out.Socket × ℕ) → (token : ℕ) → Act out Bool
  after_recovered none token = pure false
  after_recovered (some connection) token = restart_request connection token

  unfoldable pub recover_again : (token : ℕ) → Act out Bool
  recover_again token = do
    deregister out
    c ← gets (λ c. c)
    found ← attempt_loop attempt_fuel 0 (not (is_some (deadline_of c.limit)))
    after_recovered found token

  unfoldable pub recover_request : (token : ℕ) → Act out Bool
  recover_request token = do
    c ← gets (λ c. c)
    passed ← deadline_passed c.limit
    if passed
        then pure false
        else if not (is_some (deadline_of c.limit)) && leb max_recovery_attempts c.recovery_attempts
        then (do mark_done out; deregister out; pure false)
        else recover_again token

  unfoldable pub stop_if_expired : Act out Bool
  stop_if_expired = do
    c ← gets (λ c. c)
    if is_some c.started then pure false else (do
      continues ← goes_on out c.limit c.completed
      if continues then pure false else (do
        mark_done out
        if c.reconnect_at_pace then pure tt else deregister out
        pure true))

  unfoldable pub defer_reconnect_until_pace : Act out Bool
  defer_reconnect_until_pace = do
    c ← gets (λ c. c)
    if is_some c.started then pure false else (do
      early ← is_early out c.not_before
      if not early then pure false else (do
        deregister out
        modify (λ x. record x {
          awaiting_pace = true;
          reconnect_at_pace = true;
          timer_generation = add64 x.timer_generation 1;
        })
        pure true))

  unfoldable pub resume_at_pace : (token : ℕ) → Act out (Unit {0})
  resume_at_pace token = do
    c ← gets (λ c. c)
    if not c.reconnect_at_pace
        then refresh_interest out token
        else (do connection ← connect_from out c.addresses 0; install_stream connection token)

  unfoldable pub stop_after_duration_error : Act out Bool
  stop_after_duration_error = do
    c ← gets (λ c. c)
    passed ← deadline_passed c.limit
    if passed then (do mark_done out; deregister out; pure true) else pure false

  unfoldable pub expire : Act out Expiration
  expire = do
    c ← gets (λ c. c)
    if is_some c.started then pure request_timeout else (do
      continues ← goes_on out c.limit c.completed
      if continues
          then pure connection_timeout
          else (do mark_done out; deregister out; pure stopped))

-- `unfinished_requests`
unfoldable pub unfinished_requests : ConnectionLimit → (completed : ℕ) → ℕ
unfinished_requests (requests count) completed = count - completed
unfinished_requests (deadline end) completed = 0
