-- ===== src/Engine/Connection.antt =====
-- `Connection` of src/engine/connection.rs: its state, connecting and writing. Reading, the end of a
-- response and recovery are in the child modules.
pub mod Reading
pub mod Recovery
pub mod Timers
pub mod Untouched
pub mod Sound
pub mod Stopping
pub mod Recovered
pub mod Finished
pub mod Contract
use rload.Prelude.{
  ℕ, zero, suc, ◌+◌, ◌-◌, ◌*◌, ◌/◌, ◌%◌, ◌^◌, ◌≤◌, ◌<◌, min, max, String, ◌≡◌, refl, sym, ap, ◌∙◌,
  subst, ◌≢◌, ◌↔◌, ◌⊎◌, inl, inr, Bool, true, false, not, ◌&&◌, ◌||◌, Option, none, some, List, [],
  ◌∷◌, ◌++◌, map, append-nil, append_assoc, arith, ltb, leb, ◌==◌, if◌then◌else◌, ltb→lt, lt→ltb,
  leb→le, le→leb, ltb_false→le, leb_false→lt, ==_iff, tests, Bool-cases, Option-cases, &&_true,
  or_sound, or_complete, Bytes, codes, length, get_elem?, set, take, drop, replicate, is_empty,
  length-append, length-take, length-drop, length-set, drop-get_some, drop-get_none, get_some-lt,
  get_none-le, lt-get_some, bytes_eq, bytes_eq_sound, bytes_eq_refl, All, All-get, Any, All-append,
  All-append_left, All-append_right, All-take, All-imp, All-both, Any-All, take-append, drop-append,
  drop-append_past, drop_all, u64_mod, u64_max, add64, add64_exact,
}
use rload.Error.{RunError, ErrorKind, io, tls, worker_panic, write_zero, Result, ok, err}
use rload.Config.{Method, head}
use rload.Protocol.Response.{ResponseDecoder, new_decoder}
use rload.Filter.Whitelist.{method_eq}
use rload.Engine.Limits.{ConnectionLimit, requests, deadline, should_continue}
use rload.Engine.Outside.{Outside, NextRequest, readable_writable}
use rload.Engine.Action.{
  Outcome, done, failed, Action, ◌>>=◌, ◌>>◌, pure, fail, run_dry, gets, sees, call, call_io,
  modify, attempt,
}
use rload.Engine.Transport.{
  Transport, is_would_block, is_invalid_data, socket, interest, read, write, new_transport,
  finish_handshake, flush_tls, connect_from,
}

abbrev pub max_recovery_attempts : ℕ
max_recovery_attempts = 3

pub record Connection (out : Outside) : Type 0 where
  pub stream : Transport out
  pub addresses : List out.Address
  pub address_index : ℕ
  pub method : Method
  pub uri_start : ℕ
  pub uri_end : ℕ
  pub request : Bytes
  pub not_before : Option ℕ
  pub awaiting_pace : Bool
  pub reconnect_at_pace : Bool
  pub write_offset : ℕ
  pub decoder : ResponseDecoder
  pub started : Option ℕ
  pub connected_at : ℕ
  pub completed : ℕ
  pub limit : ConnectionLimit
  pub is_done : Bool
  pub timer_generation : ℕ
  pub pending_read_bytes : ℕ
  pub pending_recovery_attempts : ℕ
  pub recovery_attempts : ℕ
  pub with_tls : Bool

-- `ResponseDecoder::new(method == Method::Head)`
abbrev pub decoder_for : Method → ResponseDecoder
decoder_for method = new_decoder (method_eq method head)

-- `limit.deadline()`
unfoldable pub deadline_of : ConnectionLimit → Option ℕ
deadline_of (requests count) = none
deadline_of (deadline end) = some end

-- `option.is_some()`
abbrev pub is_some {ℓ} : {A : Type ℓ} → Option A → Bool
is_some none = false
is_some (some a) = true

module _ (out : Outside) where
  abbrev pub Act : Type 0 → Type 0
  Act A = Action (Connection out) out.World A

  -- `Connection::connect`
  unfoldable pub connect :
      List out.Address
      → ConnectionLimit
      → (with_tls : Bool) → Action (Unit {0}) out.World (Connection out)
  connect addresses limit with_tls = do
    (tcp, index) ← connect_from out addresses 0
    stream ← new_transport out tcp with_tls
    next ← call out.next_request
    time ← call out.now
    pure (record {
      stream = stream;
      addresses = addresses;
      address_index = index;
      method = next.method;
      uri_start = next.uri_start;
      uri_end = next.uri_end;
      request = next.request;
      not_before = next.not_before;
      awaiting_pace = false;
      reconnect_at_pace = false;
      write_offset = 0;
      decoder = decoder_for next.method;
      started = none;
      connected_at = time;
      completed = 0;
      limit = limit;
      is_done = false;
      timer_generation = 0;
      pending_read_bytes = 0;
      pending_recovery_attempts = 0;
      recovery_attempts = 0;
      with_tls = with_tls;
    })

  -- `not_before.is_some_and(|not_before| Instant::now() < not_before)`
  unfoldable pub is_early : Option ℕ → Act Bool
  is_early none = pure false
  is_early (some not_before) = do time ← call out.now; pure (ltb time not_before)

  -- `limit.should_continue(completed)`, which looks at the clock under a deadline only.
  unfoldable pub goes_on : ConnectionLimit → (completed : ℕ) → Act Bool
  goes_on (requests count) completed = pure (should_continue (requests count) completed 0)
  goes_on (deadline end) completed = do
    time ← call out.now
    pure (should_continue (deadline end) completed time)

  -- The arms for a failed write.
  unfoldable pub write_error : ErrorKind → (has_started : Bool) → Act (Unit {0})
  write_error e has_started =
      if is_would_block e
      then pure tt
      else if not has_started && is_invalid_data e
      then fail tls
      else fail (io e)

  -- The arms of the loop of `write_request`, at the connection that it saw.
  unfoldable pub after_write :
      (rest : Act (Unit {0})) → Connection out → Result ErrorKind ℕ → Act (Unit {0})
  after_write rest c (err e) = write_error e (is_some c.started)
  after_write rest c (ok written) = if written == 0 then fail (io write_zero) else (do
    modify (λ x. record x { write_offset = x.write_offset + written })
    if c.write_offset + written == length c.request then pure tt else rest)

  -- The loop of `write_request`. A slice past the end of the request panics.
  unfoldable pub write_loop : (fuel : ℕ) → Act (Unit {0})
  write_loop zero = run_dry
  write_loop (suc fuel) =
      let rest = write_loop fuel in
      do
        c ← gets (λ c. c)
        r ←
            if ltb (length c.request) c.write_offset
            then fail worker_panic
            else call (write out c.stream (drop c.write_offset c.request))
        after_write rest c r

  -- The first write of a request starts its clock.
  unfoldable pub start_clock : Option ℕ → Act (Unit {0})
  start_clock (some started) = pure tt
  start_clock none = do
    time ← call out.now
    modify (λ x. record x { started = some time; timer_generation = add64 x.timer_generation 1 })

  unfoldable pub wait_for_pace : (awaiting : Bool) → Act (Unit {0})
  wait_for_pace true = pure tt
  wait_for_pace false =
      modify (λ x. record x { awaiting_pace = true; timer_generation = add64 x.timer_generation 1 })

  -- What follows the handshake.
  unfoldable pub write_paced : Connection out → Act (Unit {0})
  write_paced c = do
    early ← is_early c.not_before
    if early then wait_for_pace c.awaiting_pace else (do
      modify (λ x. record x { awaiting_pace = false })
      start_clock c.started
      write_loop (suc (length c.request)))

  unfoldable pub write_request : Act (Unit {0})
  write_request = do
    c ← gets (λ c. c)
    if c.write_offset == length c.request then flush_tls out c.stream else (do
      finished ← finish_handshake out c.stream
      if not finished then pure tt else write_paced c)

  -- `Connection::register`
  unfoldable pub register : (token : ℕ) → Act (Unit {0})
  register token = do
    c ← gets (λ c. c)
    call_io (out.register (socket out c.stream) token readable_writable)

  unfoldable pub deregister : Act (Unit {0})
  deregister = do c ← gets (λ c. c); call_io (out.deregister (socket out c.stream))

  unfoldable pub refresh_interest : (token : ℕ) → Act (Unit {0})
  refresh_interest token = do
    c ← gets (λ c. c)
    early ← is_early c.not_before
    wanted ← sees (interest out c.stream (c.write_offset == length c.request) (not early))
    call_io (out.reregister (socket out c.stream) token wanted)
