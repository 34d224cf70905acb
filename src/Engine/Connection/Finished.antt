-- ===== src/Engine/Connection/Finished.antt =====
-- The end of a response: what it leaves of the connection's state.
use rload.Prelude.{
  ℕ, ◌<◌, ◌≡◌, refl, subst, inl, inr, Bool, true, false, not, ◌||◌, arith, ltb, if◌then◌else◌,
  length, add64,
}
use rload.Engine.Limits.{ConnectionLimit, requests, deadline, should_continue}
use rload.Engine.Outside.{Outside}
use rload.Engine.Action.{◌>>◌, pure}
use rload.Engine.Action.Keeps.{
  Meets, Keeps, Keeps-bind, Keeps-if, Keeps-modify, Keeps-call, Keeps-call_io, Keeps-gets,
  Keeps-of_Meets, Meets-bind, Meets-pure, Meets-if, Meets-of_Keeps, Meets-same, Meets-modify,
  Meets-look, Meets-call, Meets-given, Meets-imp,
}
use rload.Engine.Connection.{Connection, Act, goes_on}
use rload.Engine.Connection.Untouched.{
  new_transport-Keeps, register-Keeps, deregister-Keeps, refresh_interest-Keeps,
}
use rload.Engine.Connection.Sound.{Obeys, Stands, write_request-Keeps}
use rload.Engine.Connection.Reading.{
  mark_done, finish_response, install_next_request, reopen, keep_alive,
}
use rload.Engine.Connection.Recovered.{Failed, mark_done-Meets, connect_from-Meets, At}

-- The answer of `should_continue` where it does not depend on the clock.
abbrev pub Continues : ConnectionLimit → (completed : ℕ) → Bool → Type 0
Continues (requests count) completed continues = continues ≡ ltb completed count
Continues (deadline end) completed continues = Unit {0}

not-true : (b : Bool) → not b ≡ true → b ≡ false
not-true b h = ground arith

not-false : (b : Bool) → not b ≡ false → b ≡ true
not-false b h = ground arith

module _ (out : Outside) where
  goes_on-Meets :
      (P : Connection out → Type 0) (l : ConnectionLimit) (n : ℕ)
      → Meets P (goes_on out l n) (λ b s. P s × Continues l n b) P ⊥
  unfolding goes_on should_continue
  goes_on-Meets P (requests k) n = Meets-pure _ (λ s h. (h, refl))
  goes_on-Meets P (deadline e) n =
      Meets-bind _ _ (Meets-same _ (Keeps-call _)) (λ t. Meets-pure _ (λ s h. (h, tt)))

  module _ (l : ConnectionLimit) (n : ℕ) (d : Bool) where
    -- Before the first byte of a request is written.
    abbrev Fresh : Connection out → Type 0
    Fresh s = Stands l n d s × (s.write_offset ≡ 0)

    install_next_request-Meets :
        Meets Fresh (install_next_request out) (λ u. Stands l n d) (Stands l n d) ⊥
    unfolding install_next_request
    install_next_request-Meets =
        Meets-bind _ _ (Meets-call {R = λ r. Fresh} _ (λ s w h. h))
          (λ next. Meets-modify _ (λ s h. ground arith))

    keep_alive-Keeps : Obeys out → (t : ℕ) → Keeps (Stands l n d) ⊥ (keep_alive out t)
    unfolding keep_alive
    keep_alive-Keeps obeys t = Keeps-bind _ _ (Keeps-gets _) (λ c.
        Keeps-bind _ _ (Keeps-call_io _) (λ u.
          Keeps-bind _ _ (write_request-Keeps out obeys l n d) (λ u. refresh_interest-Keeps out t)))

    reopen-Keeps : (t : ℕ) → Keeps (Stands l n d) ⊥ (reopen out t)
    unfolding reopen
    reopen-Keeps t = Keeps-bind _ _ (deregister-Keeps out) (λ u. Keeps-of_Meets _ (
        Meets-look _ (λ c h.
          Meets-bind _ _
            (Meets-imp {R = At out l n d} _
              (connect_from-Meets out (λ s. Stands l n d s × (c ≡ s)) c.addresses 0)
              (λ x s q. (q.0.0, subst (λ (z : Connection out). x.1 < length z.addresses) q.0.1 q.1))
              (λ s q. q.0))
            (λ x.
              Meets-bind _ _
                (Meets-of_Keeps {R = λ t. At out l n d x} (At out l n d x) _
                  (new_transport-Keeps out x.0 c.with_tls) (λ s h. h) (λ a s h. h) (λ s h. h.0))
                (λ stream.
                  Meets-bind _ _ (Meets-modify {Q = Stands l n d} _ (λ s h. ground arith)) (λ u.
                    Meets-same _ (
                      Keeps-bind _ _ (Keeps-call _) (λ time.
                        Keeps-bind _ _ (Keeps-modify _ (λ s h. ground arith))
                          (λ u. register-Keeps out t)))))))))

    -- Marking the connection as done, and what follows.
    stop-Meets :
        {R : Bool → Connection out → Type 0} (m : Act out (Unit {0}))
        → Keeps (Stands l n true) ⊥ m
        → ((s : Connection out) → Stands l n true s → R true s)
        → Meets (Stands l n d) (do mark_done out; m; pure true) R (Failed out l n d) ⊥
    stop-Meets m km k = Meets-bind _ _ (mark_done-Meets out l n d) (λ u.
        Meets-bind _ _ (Meets-imp _ (Meets-same _ km) (λ u s h. h) (λ s h. inr h))
          (λ u. Meets-pure _ k))

    asks-Meets :
        (c : Connection out)
        → Stands l n d c
        → Meets
            (λ s. Stands l n d s × (c ≡ s))
            (goes_on out c.limit c.completed)
            (λ b s. Stands l n d s × Continues l n b)
            (Failed out l n d)
            ⊥
    asks-Meets c h =
        let limit_eq = h.limit_eq in
        let completed_eq = h.completed_eq in
        Meets-imp _ (goes_on-Meets (λ s. Stands l n d s × (c ≡ s)) c.limit c.completed)
          (λ b s k. (
            k.0.0,
            subst (λ x. Continues x n b) limit_eq
                (subst (λ x. Continues c.limit x b) completed_eq k.1),
          ))
          (λ s k. inl k.0)

    next_round-Meets :
        Obeys out
        → (connection_close : Bool) (t : ℕ)
        → Keeps (Stands l n d) ⊥ (if connection_close then reopen out t else keep_alive out t)
    next_round-Meets obeys connection_close t =
        Keeps-if connection_close _ _ (λ q. reopen-Keeps t) (λ q. keep_alive-Keeps obeys t)

  -- One response more is counted, and a connection with a fixed limit is done exactly at its limit.
  abbrev pub Finished :
      ConnectionLimit
      → (completed : ℕ) → (was_done : Bool) → (ended : Bool) → Connection out
      → Type 0
  Finished l n d ended s = Stands l n (ended || d) s × Continues l n (not ended)

  pub finish_response-Meets :
      (obeys : Obeys out) (l : ConnectionLimit) (n : ℕ) (d connection_close : Bool) (t : ℕ)
      → Meets
          (Stands l n d)
          (finish_response out connection_close t)
          (Finished l (add64 n 1) d)
          (Failed out l (add64 n 1) d)
          ⊥
  unfolding finish_response
  finish_response-Meets obeys l n d connection_close t =
      Meets-bind _ _ (Meets-modify {Q = Stands l (add64 n 1) d} _ (λ s h. ground arith)) (λ u.
        Meets-look _ (λ c h. Meets-bind _ _ (asks-Meets l (add64 n 1) d c h) (λ continues.
          Meets-if (not continues) _ _
            (λ y. Meets-given _ (λ x.
              stop-Meets l (add64 n 1) d _ (deregister-Keeps out)
                (λ s k. (k, subst (λ b. Continues l (add64 n 1) b) (not-true continues y) x))))
            (λ y. Meets-given _ (λ x.
              Meets-bind _ _ (Meets-modify {Q = Fresh l (add64 n 1) d} _ (λ s h. ground arith))
                (λ u.
                  Meets-bind _ _
                    (Meets-imp _ (install_next_request-Meets l (add64 n 1) d) (λ u s k. k)
                      (λ s k. inl k))
                    (λ u.
                      Meets-bind _ _
                        (Meets-modify {Q = Stands l (add64 n 1) d} _ (λ s h. ground arith))
                        (λ u.
                          Meets-bind _ _
                            (Meets-imp _
                              (Meets-same _
                                (next_round-Meets l (add64 n 1) d obeys connection_close t))
                              (λ u s k. k) (λ s k. inl k))
                            (λ u. Meets-pure _ (λ s k. (
                              k,
                              subst (λ b. Continues l (add64 n 1) b) (not-false continues y) x,
                            )))))))))))
