-- ===== src/Engine/Connection/Sound.antt =====
-- The state of a connection: what always holds of it, and its balance (limit, completed requests, and
-- whether it is done).
use rload.Prelude.{
  ℕ, zero, suc, ◌+◌, ◌≤◌, ◌<◌, ◌≡◌, sym, ap, Bool, true, false, not, Option, none, some, arith, ltb,
  ◌==◌, Bytes, length, drop, length-drop,
}
use rload.Error.{ErrorKind, worker_panic, Result, ok, err}
use rload.Engine.Limits.{ConnectionLimit}
use rload.Engine.Outside.{Outside}
use rload.Engine.Action.{fail, call}
use rload.Engine.Action.Keeps.{
  Meets, Keeps, Keeps-bind, Keeps-modify, Keeps-call, Keeps-pure, Keeps-of_Meets, Meets-bind,
  Meets-pure, Meets-fail, Meets-run_dry, Meets-if, Meets-of_Keeps, Meets-modify, Meets-look,
  Meets-before, Meets-call,
}
use rload.Engine.Transport.{Transport, write}
use rload.Engine.Connection.{
  Connection, Act, max_recovery_attempts, after_write, write_loop, start_clock, wait_for_pace,
  write_paced, write_request,
}
use rload.Engine.Connection.Untouched.{
  finish_handshake-Keeps, flush_tls-Keeps, is_early-Keeps, write_error-Keeps,
}

-- What a write relies on: no more bytes are taken than were offered.
abbrev pub Fits : Result ErrorKind ℕ → Bytes → Type 0
Fits (ok written) bytes = written ≤ length bytes
Fits (err e) bytes = Unit {0}

pub record Obeys (out : Outside) : Type 0 where
  pub tcp_fits :
      (s : out.Socket) (bytes : Bytes) (w : out.World) → Fits (out.tcp_write s bytes w).0 bytes
  pub tls_fits :
      (x : out.Session) (s : out.Socket) (bytes : Bytes) (w : out.World)
      → Fits (out.tls_write x s bytes w).0 bytes

-- The bounds of a connection's counters and positions, and its balance.
pub record Stands {out : Outside} (limit : ConnectionLimit) (completed : ℕ) (is_done : Bool)
    (c : Connection out) : Type 0 where
  pub attempts : c.recovery_attempts ≤ max_recovery_attempts
  pub address : c.address_index < length c.addresses
  pub offset : c.write_offset ≤ length c.request
  pub limit_eq : c.limit ≡ limit
  pub completed_eq : c.completed ≡ completed
  pub is_done_eq : c.is_done ≡ is_done

module _ (out : Outside) (obeys : Obeys out) where
  write-Fits :
      (t : Transport out) (bytes : Bytes) (w : out.World) → Fits (write out t bytes w).0 bytes
  unfolding write
  write-Fits (Transport.plain s) bytes w = obeys.tcp_fits s bytes w
  write-Fits (Transport.over_tls x s) bytes w = obeys.tls_fits x s bytes w

  module _ (l : ConnectionLimit) (n : ℕ) (d : Bool) where
    abbrev Left : ℕ → Connection out → Type 0
    Left fuel c = Stands l n d c × (length c.request < fuel + c.write_offset)

    after_write-Meets :
        (fuel : ℕ) (rest : Act out (Unit {0})) (c : Connection out) (r : Result ErrorKind ℕ)
        → Meets (Left fuel) rest (λ u. Stands l n d) (Stands l n d) ⊥
        → Meets
            (λ s. (Left (suc fuel) s × (c ≡ s)) × Fits r (drop c.write_offset c.request))
            (after_write out rest c r)
            (λ u. Stands l n d)
            (Stands l n d)
            ⊥
    unfolding after_write
    after_write-Meets fuel rest c (err e) k =
        Meets-of_Keeps (Stands l n d) _ (write_error-Keeps out e _) (λ s h. h.0.0.0) (λ u s h. h)
          (λ s h. h)
    after_write-Meets fuel rest c (ok written) k =
        Meets-if (written == 0) _ _ (λ e. Meets-fail _ (λ s h. h.0.0.0))
          (λ e.
            Meets-bind _ _
              (Meets-modify {Q = Left fuel} _ (λ s h.
                let st = h.0.0.0 in
                ground (
                  arith,
                  length-drop c.write_offset c.request,
                  ap (λ (x : Connection out). x.write_offset) h.0.1,
                  ap (λ (x : Connection out). length x.request) h.0.1,
                )))
              (λ u. Meets-if _ _ _ (λ q. Meets-pure _ (λ s h. h.0)) (λ q. k)))

    write_loop-Meets :
        (fuel : ℕ) → Meets (Left fuel) (write_loop out fuel) (λ u. Stands l n d) (Stands l n d) ⊥
    unfolding write_loop
    write_loop-Meets zero = Meets-run_dry (λ s h. let st = h.0 in omega (arith, st.offset))
    write_loop-Meets (suc fuel) = Meets-look _ (λ c h.
        Meets-bind _ _
          (Meets-if
            {R = λ r s. (Left (suc fuel) s × (c ≡ s)) × Fits r (drop c.write_offset c.request)}
            (ltb (length c.request) c.write_offset) (fail worker_panic)
            (call (write out c.stream (drop c.write_offset c.request)))
            (λ e. Meets-fail _ (λ s q. q.0.0))
            (λ e.
              Meets-call _ (λ s w q. (q, write-Fits c.stream (drop c.write_offset c.request) w))))
          (λ r. after_write-Meets fuel _ c r (write_loop-Meets fuel)))

    -- The same, with a request of `k` bytes.
    abbrev Asked : ℕ → Connection out → Type 0
    Asked k c = Stands l n d c × (length c.request ≡ k)

    start_clock-Keeps : (k : ℕ) (i : Option ℕ) → Keeps (Asked k) ⊥ (start_clock out i)
    unfolding start_clock
    start_clock-Keeps k none =
        Keeps-bind _ _ (Keeps-call _) (λ t. Keeps-modify _ (λ s h. ground arith))
    start_clock-Keeps k (some i) = Keeps-pure _

    wait_for_pace-Keeps : (b : Bool) → Keeps (Stands l n d) ⊥ (wait_for_pace out b)
    unfolding wait_for_pace
    wait_for_pace-Keeps true = Keeps-pure _
    wait_for_pace-Keeps false = Keeps-modify _ (λ s h. ground arith)

    write_paced-Meets :
        (c : Connection out)
        → Meets (Asked (length c.request)) (write_paced out c) (λ u. Stands l n d) (Stands l n d) ⊥
    unfolding write_paced
    write_paced-Meets c =
        Meets-bind {F = Stands l n d} _ _
          (Meets-of_Keeps {R = λ b. Asked (length c.request)} (Asked (length c.request)) _
            (is_early-Keeps out c.not_before) (λ s h. h) (λ a s h. h) (λ s h. h.0))
          (λ early.
            Meets-if early _ _
              (λ e.
                Meets-of_Keeps (Stands l n d) _ (wait_for_pace-Keeps c.awaiting_pace) (λ s h. h.0)
                  (λ a s h. h) (λ s h. h))
              (λ e.
                Meets-bind _ _ (Meets-modify {Q = Asked (length c.request)} _ (λ s h. ground arith))
                  (λ u.
                    Meets-bind _ _
                      (Meets-of_Keeps {R = λ b. Asked (length c.request)} (Asked (length c.request))
                        _ (start_clock-Keeps _ c.started) (λ s h. h) (λ a s h. h) (λ s h. h.0))
                      (λ u.
                        Meets-before (Left (suc (length c.request))) _
                          (λ s h. let st = h.0 in (st, omega (arith, st.offset, h.1)))
                          (write_loop-Meets _)))))

    pub write_request-Keeps : Keeps (Stands l n d) ⊥ (write_request out)
    unfolding write_request
    write_request-Keeps = Keeps-of_Meets _ (
        Meets-look _ (λ c h.
          Meets-if (c.write_offset == length c.request) _ _
            (λ e.
              Meets-of_Keeps (Stands l n d) _ (flush_tls-Keeps out c.stream) (λ s h. h.0)
                (λ a s h. h) (λ s h. h))
            (λ e.
              Meets-bind _ _
                (Meets-of_Keeps {R = λ b. Asked (length c.request)} (Asked (length c.request)) _
                  (finish_handshake-Keeps out c.stream)
                  (λ s q. (q.0, ap (λ (x : Connection out). length x.request) (sym q.1)))
                  (λ a s h. h) (λ s h. h.0))
                (λ finished.
                  Meets-if (not finished) _ _ (λ e. Meets-pure _ (λ s h. h.0))
                    (λ e. write_paced-Meets c)))))
