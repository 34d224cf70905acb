-- ===== src/Tests/Connection.antt =====
-- The methods of a connection, on a small outside world.
use rload.Prelude.{
  ℕ, ◌+◌, ◌≡◌, ◌⊎◌, drop, refl, false, none, some, [], ◌∷◌, arith, ◌==◌, if◌then◌else◌, codes,
  length, add64,
}
use rload.Error.{ok, err}
use rload.Engine.Limits.{requests, deadline}
use rload.Engine.Outside.{Outside}
use rload.Engine.Action.{done, ◌>>=◌}
use rload.Engine.Action.Keeps.{Ends}
use rload.Engine.Transport.{Transport, write, finish_handshake, connect_each, connect_from}
use rload.Engine.Connection.{
  Connection, decoder_for, deadline_of, after_write, write_loop, start_clock, write_paced,
  write_request, is_early, deregister,
}
use rload.Config.{get}
use rload.Error.{not_found}
use rload.Engine.Connection.Sound.{Obeys, Stands}
use rload.Engine.Connection.Recovery.{
  expire, retry_address, recover_request, recover_again, attempt_loop, after_attempt,
  after_recovered, count_attempt, deadline_passed, stop_if_expired, stop_after_duration_error,
  defer_reconnect_until_pace,
}
use rload.Engine.Connection.Reading.{mark_done, finish_response}
use rload.Engine.Connection.Recovered.{Failed, TriedAgain}
use rload.Engine.Connection.Finished.{Finished}
use rload.Engine.Transport.First.{Accepts, Refuses, connect_from_lem}
use rload.Engine.Connection.Stopping.{
  Expires, StopsIfOver, StopsIfLate, Defers, stop_lem, defer_reconnect_until_pace-Defers,
}
use rload.Engine.Connection.Contract.{
  write_request_lem, retry_address_lem, recover_request_lem, finish_response_lem,
}

-- The world is a clock. The address 0 refuses, a socket takes all bytes, and it gives none.
abbrev wire : Outside
wire = record {
  World = ℕ;
  Address = ℕ;
  Socket = ℕ;
  Session = Unit {0};
  now = λ w. (w, w + 1);
  sleep = λ w. w + 1_000_000;
  tcp_connect = λ a w. (if a == 0 then err not_found else ok a, w);
  tcp_read = λ s w. (ok [], w);
  tcp_write = λ s bytes w. (ok (length bytes), w);
  take_error = λ s w. (ok none, w);
  register = λ s t i w. (ok tt, w);
  reregister = λ s t i w. (ok tt, w);
  deregister = λ s w. (ok tt, w);
  new_session = λ w. (some tt, w);
  is_handshaking = λ x w. false;
  wants_write = λ x w. false;
  complete_io = λ x s w. (ok tt, w);
  tls_read = λ x s w. (ok [], w);
  tls_write = λ x s bytes w. (ok (length bytes), w);
  next_request = λ w. (
    record {
      method = get;
      request = codes "GET / HTTP/1.1";
      uri_start = 4;
      uri_end = 5;
      not_before = none;
    },
    w,
  );
}

wire-Obeys : Obeys wire
wire-Obeys = record { tcp_fits = λ s bytes w. omega arith; tls_fits = λ x s bytes w. omega arith }

-- One response has come, and the next request has not been written.
abbrev open_one : Connection wire
open_one = record {
  stream = Transport.plain 7;
  addresses = 7 ∷ 0 ∷ [];
  address_index = 0;
  method = get;
  uri_start = 4;
  uri_end = 5;
  request = codes "GET / HTTP/1.1";
  not_before = none;
  awaiting_pace = false;
  reconnect_at_pace = false;
  write_offset = 0;
  decoder = decoder_for get;
  started = none;
  connected_at = 0;
  completed = 1;
  limit = requests 2;
  is_done = false;
  timer_generation = 0;
  pending_read_bytes = 0;
  pending_recovery_attempts = 0;
  recovery_attempts = 1;
  with_tls = false;
}

open_one-Stands : Stands (requests 2) 1 false open_one
open_one-Stands = record {
  attempts = omega arith;
  address = omega arith;
  offset = omega arith;
  limit_eq = refl;
  completed_eq = refl;
  is_done_eq = refl;
}

write_request_sends : (write_request wire open_one 5).1.write_offset ≡ 14
unfolding write_request write_paced write_loop after_write write start_clock is_early
    finish_handshake ◌>>=◌
write_request_sends = refl

recover_gives_up :
    (recover_request wire 3 (record open_one { addresses = 0 ∷ [] }) 5).0 ≡ done false
unfolding recover_request recover_again attempt_loop after_attempt after_recovered count_attempt
    deadline_passed deregister connect_from connect_each mark_done deadline_of ◌>>=◌
recover_gives_up = refl

write_request_example :
    Ends
      (λ u. Stands (requests 2) 1 false)
      (Stands (requests 2) 1 false)
      ⊥
      (write_request wire open_one 5).0
      (write_request wire open_one 5).1
write_request_example =
    write_request_lem wire wire-Obeys (requests 2) 1 false open_one 5 open_one-Stands

retry_address_example :
    Ends
      (TriedAgain wire (requests 2) 1 false)
      (Stands (requests 2) 1 false)
      ⊥
      (retry_address wire 3 open_one 5).0
      (retry_address wire 3 open_one 5).1
retry_address_example = retry_address_lem wire (requests 2) 1 false open_one 5 open_one-Stands 3

recover_request_example :
    Ends
      (TriedAgain wire (requests 2) 1 false)
      (Failed wire (requests 2) 1 false)
      ⊥
      (recover_request wire 3 open_one 5).0
      (recover_request wire 3 open_one 5).1
recover_request_example = recover_request_lem wire (requests 2) 1 false open_one 5 open_one-Stands 3

finish_response_example :
    Ends
      (Finished wire (requests 2) (add64 1 1) false)
      (Failed wire (requests 2) (add64 1 1) false)
      ⊥
      (finish_response wire false 3 open_one 5).0
      (finish_response wire false 3 open_one 5).1
finish_response_example =
    finish_response_lem wire wire-Obeys (requests 2) 1 false open_one 5 open_one-Stands false 3

-- The first request of a run, at its deadline and before its pace.
abbrev waiting_one : Connection wire
waiting_one = record open_one { limit = deadline 9; not_before = some 8; completed = 0 }

stop_example :
    Expires wire waiting_one 9 (expire wire waiting_one 9).0 (expire wire waiting_one 9).1
    × StopsIfOver wire waiting_one 9
        (stop_if_expired wire waiting_one 9).0
        (stop_if_expired wire waiting_one 9).1
    × StopsIfLate wire waiting_one 9
        (stop_after_duration_error wire waiting_one 9).0
        (stop_after_duration_error wire waiting_one 9).1
stop_example = stop_lem wire waiting_one 9

defer_example :
    Defers wire waiting_one 5 3
      (defer_reconnect_until_pace wire waiting_one 5).0
      (defer_reconnect_until_pace wire waiting_one 5).1
defer_example = defer_reconnect_until_pace-Defers wire waiting_one 5 3

-- The first address refuses, and the second one is taken.
connect_from_example :
    Accepts wire
      (drop 0 (0 ∷ 7 ∷ []))
      not_found
      0
      open_one
      5
      (connect_from wire (0 ∷ 7 ∷ []) 0 open_one 5)
    ⊎ Refuses wire
        (drop 0 (0 ∷ 7 ∷ []))
        not_found
        open_one
        5
        (connect_from wire (0 ∷ 7 ∷ []) 0 open_one 5)
connect_from_example = connect_from_lem wire (0 ∷ 7 ∷ []) 0 open_one 5
