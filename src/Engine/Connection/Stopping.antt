-- ===== src/Engine/Connection/Stopping.antt =====
-- When a connection is stopped, or put off until its pace: what its methods answer by the clock.
use rload.Prelude.{
  ℕ, ◌≤◌, ◌<◌, min, if◌then◌else◌, ◌≡◌, refl, subst, ◌≢◌, ◌⊎◌, inl, inr, Bool, true, false, Option,
  none, some, arith, ltb, leb, Bool-cases, Option-cases, ltb→lt, ltb_false→le, leb→le, leb_false→lt,
  add64,
}
use rload.Error.{ErrorKind, io, Result, ok, err}
use rload.Engine.Limits.{ConnectionLimit, requests, deadline, should_continue}
use rload.Engine.Outside.{Outside}
use rload.Engine.Action.{Outcome, done, failed, ◌>>=◌}
use rload.Engine.Transport.{socket}
use rload.Engine.Connection.{Connection, goes_on, is_early, deregister, deadline_of}
use rload.Engine.Connection.Reading.{mark_done}
use rload.Engine.Connection.Recovery.{
  Expiration, stopped, request_timeout, connection_timeout, expire, stop_if_expired,
  deadline_passed, stop_after_duration_error, defer_reconnect_until_pace,
}
use rload.Engine.Connection.Timers.{sooner, next_deadline, pacing_deadline}

-- At a time, the limit of requests or the deadline is not reached by a connection, or it is.
abbrev pub IsOpen : ConnectionLimit → (completed time : ℕ) → Type 0
IsOpen (requests count) completed time = completed < count
IsOpen (deadline end) completed time = time < end

abbrev pub IsOver : ConnectionLimit → (completed time : ℕ) → Type 0
IsOver (requests count) completed time = count ≤ completed
IsOver (deadline end) completed time = end ≤ time

abbrev pub IsLate : ConnectionLimit → (time : ℕ) → Type 0
IsLate (requests count) time = ⊥
IsLate (deadline end) time = end ≤ time

abbrev pub IsInTime : ConnectionLimit → (time : ℕ) → Type 0
IsInTime (requests count) time = Unit {0}
IsInTime (deadline end) time = time < end

-- The pace of a request, if it has one, lies after a time, or it does not.
abbrev pub IsAhead : Option ℕ → (time : ℕ) → Type 0
IsAhead none time = ⊥
IsAhead (some pace) time = time < pace

abbrev pub IsDue : Option ℕ → (time : ℕ) → Type 0
IsDue none time = Unit {0}
IsDue (some pace) time = pace ≤ time

module _ (out : Outside) where
  -- An answer, or an error of the system.
  abbrev pub Gives : {A : Type 0} → A → Outcome A → Type 0
  Gives a o = (o ≡ done a) ⊎ ((e : ErrorKind) × (o ≡ failed (io e)))

  goes_on_cases :
      (l : ConnectionLimit) (n : ℕ) (s : Connection out) (w : out.World)
      → (w' : out.World) × ((IsOpen l n (out.now w).0 × (goes_on out l n s w ≡ (done true, s, w')))
          ⊎ (IsOver l n (out.now w).0 × (goes_on out l n s w ≡ (done false, s, w'))))
  unfolding goes_on should_continue ◌>>=◌
  goes_on_cases (requests k) n s w = (
    w,
    (elim (Bool-cases (ltb n k)) [
      | inl h ↦ inl (ltb→lt n k h, rw h refl)
      | inr h ↦ inr (ltb_false→le n k h, rw h refl)
    ]),
  )
  goes_on_cases (deadline e) n s w = (
    (out.now w).1,
    (elim (Bool-cases (ltb (out.now w).0 e)) [
      | inl h ↦ inl (ltb→lt (out.now w).0 e h, rw h refl)
      | inr h ↦ inr (ltb_false→le (out.now w).0 e h, rw h refl)
    ]),
  )

  deregister_cases :
      (s : Connection out) (w : out.World)
      → (w' : out.World) × (o : Outcome (Unit {0})) × Gives tt o × (deregister out s w ≡ (o, s, w'))
  unfolding deregister ◌>>=◌
  deregister_cases s w = at_result (out.deregister (socket out s.stream) w)
    where
      at_result :
          (r : Result ErrorKind (Unit {0}) × out.World)
          → (w' : out.World) × (o : Outcome (Unit {0})) × Gives tt o
            × ◌≡◌ {A = Outcome (Unit {0}) × Connection out × out.World}
                (elim r.0 [ ok a ↦ (done a, s, r.1) | err e ↦ (failed (io e), s, r.1) ])
                (o, s, w')
      at_result (ok u, w') = (w', done tt, inl refl, refl)
      at_result (err e, w') = (w', failed (io e), inr (e, refl), refl)

  deadline_passed_cases :
      (l : ConnectionLimit) (s : Connection out) (w : out.World)
      → (w' : out.World) × ((IsInTime l (out.now w).0
            × (deadline_passed out l s w ≡ (done false, s, w')))
          ⊎ (IsLate l (out.now w).0 × (deadline_passed out l s w ≡ (done true, s, w'))))
  unfolding deadline_passed ◌>>=◌
  deadline_passed_cases (requests k) s w = (w, inl (tt, refl))
  deadline_passed_cases (deadline e) s w = (
    (out.now w).1,
    (elim (Bool-cases (leb e (out.now w).0)) [
      | inl h ↦ inr (leb→le e (out.now w).0 h, rw h refl)
      | inr h ↦ inl (leb_false→lt e (out.now w).0 h, rw h refl)
    ]),
  )

  is_early_cases :
      (p : Option ℕ) (s : Connection out) (w : out.World)
      → (w' : out.World) × ((IsDue p (out.now w).0 × (is_early out p s w ≡ (done false, s, w')))
          ⊎ (IsAhead p (out.now w).0 × (is_early out p s w ≡ (done true, s, w'))))
  unfolding is_early ◌>>=◌
  is_early_cases none s w = (w, inl (tt, refl))
  is_early_cases (some p) s w = (
    (out.now w).1,
    (elim (Bool-cases (ltb (out.now w).0 p)) [
      | inl h ↦ inr (ltb→lt (out.now w).0 p h, rw h refl)
      | inr h ↦ inl (ltb_false→le (out.now w).0 p h, rw h refl)
    ]),
  )

  module _ (c : Connection out) (w : out.World) where
    abbrev pub time : ℕ
    time = (out.now w).0

    abbrev pub marked : Connection out
    marked = record c { is_done = true }

    -- A request under way; a limit that is not reached; a limit that is.
    abbrev pub Expires : Outcome Expiration → Connection out → Type 0
    Expires o s =
        ((c.started ≢ none) × (o ≡ done request_timeout) × (s ≡ c))
        ⊎ ((c.started ≡ none)
            × IsOpen c.limit c.completed time
            × (o ≡ done connection_timeout)
            × (s ≡ c))
        ⊎ ((c.started ≡ none) × IsOver c.limit c.completed time × Gives stopped o × (s ≡ marked))

    expire-Expires : Expires (expire out c w).0 (expire out c w).1
    unfolding expire mark_done ◌>>=◌
    expire-Expires = elim (Option-cases c.started) [
      | inr (t, h) ↦ inl (λ e. cc, ground arith, ground arith)
      | inl h ↦
          let (w1, answer) = goes_on_cases c.limit c.completed c w in
          elim answer [
            | inl (may, q) ↦ inr (inl (h, may, ground arith, ground arith))
            | inr (over, q) ↦
                let (w2, o, given, r) = deregister_cases marked w1 in
                elim given [
                  | inl e ↦ inr (inr (h, over, inl (ground arith), ground arith))
                  | inr (k, e) ↦ inr (inr (h, over, inr (k, ground arith), ground arith))
                ]
          ]
    ]

    -- Under way, or not over; or over, which is an error only where the socket is still registered.
    abbrev pub StopsIfOver : Outcome Bool → Connection out → Type 0
    StopsIfOver o s =
        (((c.started ≢ none) ⊎ IsOpen c.limit c.completed time) × (o ≡ done false) × (s ≡ c))
        ⊎ ((c.started ≡ none)
            × IsOver c.limit c.completed time
            × (s ≡ marked)
            × ((o ≡ done true)
                ⊎ ((c.reconnect_at_pace ≡ false) × (e : ErrorKind) × (o ≡ failed (io e)))))

    stop_if_expired-StopsIfOver :
        StopsIfOver (stop_if_expired out c w).0 (stop_if_expired out c w).1
    unfolding stop_if_expired mark_done ◌>>=◌
    stop_if_expired-StopsIfOver = elim (Option-cases c.started) [
      | inr (t, h) ↦ inl (inl (λ e. cc), ground arith, ground arith)
      | inl h ↦
          let (w1, answer) = goes_on_cases c.limit c.completed c w in
          elim answer [
            | inl (may, q) ↦ inl (inr may, ground arith, ground arith)
            | inr (over, q) ↦ elim (Bool-cases c.reconnect_at_pace) [
              | inl p ↦ inr (h, over, ground arith, inl (ground arith))
              | inr p ↦
                  let (w2, o, given, r) = deregister_cases marked w1 in
                  elim given [
                    | inl e ↦ inr (h, over, ground arith, inl (ground arith))
                    | inr (k, e) ↦ inr (h, over, ground arith, inr (p, k, ground arith))
                  ]
            ]
          ]
    ]

    abbrev pub StopsIfLate : Outcome Bool → Connection out → Type 0
    StopsIfLate o s =
        (IsInTime c.limit time × (o ≡ done false) × (s ≡ c))
        ⊎ (IsLate c.limit time × Gives true o × (s ≡ marked))

    stop_after_duration_error-StopsIfLate :
        StopsIfLate (stop_after_duration_error out c w).0 (stop_after_duration_error out c w).1
    unfolding stop_after_duration_error mark_done ◌>>=◌
    stop_after_duration_error-StopsIfLate =
        let (w1, answer) = deadline_passed_cases c.limit c w in
        elim answer [
          | inl (early, q) ↦ inl (early, ground arith, ground arith)
          | inr (late, q) ↦
              let (w2, o, given, r) = deregister_cases marked w1 in
              elim given [
                | inl e ↦ inr (late, inl (ground arith), ground arith)
                | inr (k, e) ↦ inr (late, inr (k, ground arith), ground arith)
              ]
        ]

    -- By the time at the call, and with the rest of the connection unchanged: an expired
    -- connection times out in its request if it has one, and is left as it was; it times out as a
    -- connection, and is left as it was, if its count is below its limit of requests or the time
    -- before its deadline; and else it is marked done, and is stopped or, where the socket cannot
    -- be deregistered, an I/O error. Stopping an expired connection answers no, and leaves it, in
    -- the first two cases; else it is marked done, and the answer is yes, or an I/O error where it
    -- does not wait to connect again. Stopping after an error marks it done, with yes or an I/O
    -- error, exactly if its deadline has come, and else answers no and leaves it.
    pub stop_lem :
        Expires (expire out c w).0 (expire out c w).1
        × StopsIfOver (stop_if_expired out c w).0 (stop_if_expired out c w).1
        × StopsIfLate (stop_after_duration_error out c w).0 (stop_after_duration_error out c w).1
    stop_lem = (expire-Expires, stop_if_expired-StopsIfOver, stop_after_duration_error-StopsIfLate)

    -- When a connection that waits for its pace is looked at again.
    abbrev pub wake_up : ConnectionLimit → (pace : ℕ) → ℕ
    wake_up (requests count) pace = pace
    wake_up (deadline end) pace = min end pace

    -- Put off: only the timer of the pace is left.
    abbrev pub Waits : (timeout pace : ℕ) → Connection out → Type 0
    Waits timeout pace s =
        (next_deadline out timeout s ≡ none)
        × (pacing_deadline out s ≡ (if c.is_done then none else some (wake_up c.limit pace)))
        × (s.reconnect_at_pace ≡ true)

    abbrev pub Defers : (timeout : ℕ) → Outcome Bool → Connection out → Type 0
    Defers timeout o s =
        (((c.started ≢ none) ⊎ IsDue c.not_before time) × (o ≡ done false) × (s ≡ c))
        ⊎ ((c.started ≡ none)
            × (pace : ℕ) × (c.not_before ≡ some pace)
            × (time < pace)
            × (((o ≡ done true) × Waits timeout pace s)
                ⊎ ((e : ErrorKind) × (o ≡ failed (io e)) × (s ≡ c))))

    abbrev put_off : Connection out
    put_off = record c {
      awaiting_pace = true;
      reconnect_at_pace = true;
      timer_generation = add64 c.timer_generation 1;
    }

    wakes : (l : ConnectionLimit) (pace : ℕ) → sooner (deadline_of l) pace ≡ wake_up l pace
    unfolding deadline_of
    wakes (requests k) pace = refl
    wakes (deadline e) pace = refl

    put_off-Waits : (timeout pace : ℕ) → c.not_before ≡ some pace → Waits timeout pace put_off
    unfolding next_deadline pacing_deadline
    put_off-Waits timeout pace h = (refl, ground (arith, wakes c.limit pace), refl)

    -- Putting a connection off until its pace answers no, and leaves it, if a request is under
    -- way, if it has no pace or if its pace is not after the time at the call. Else it is an I/O
    -- error that leaves it, or the answer is yes, and then only the timer of the pace is left: it
    -- is to connect again at its pace, it has no deadline of its own, and it is looked at again at
    -- its pace, or at the deadline of the run if that is earlier, unless it is done.
    pub defer_reconnect_until_pace-Defers :
        (timeout : ℕ)
        → Defers timeout
            (defer_reconnect_until_pace out c w).0
            (defer_reconnect_until_pace out c w).1
    unfolding defer_reconnect_until_pace ◌>>=◌
    defer_reconnect_until_pace-Defers timeout = elim (Option-cases c.started) [
      | inr (t, h) ↦ inl (inl (λ e. cc), ground arith, ground arith)
      | inl h ↦
          let (w1, answer) = is_early_cases c.not_before c w in
          elim answer [
            | inl (due, q) ↦ inl (inr due, ground arith, ground arith)
            | inr (ahead, q) ↦ elim (Option-cases c.not_before) [
              | inl p ↦ absurd (rw p at ahead)
              | inr (pace, p) ↦
                  let (w2, o, given, r) = deregister_cases c w1 in
                  elim given [
                    | inl e ↦ inr (
                      h,
                      pace,
                      p,
                      rw p at ahead,
                      inl (
                        ground arith,
                        subst (Waits timeout pace) (ground arith) (put_off-Waits timeout pace p),
                      ),
                    )
                    | inr (k, e) ↦
                        inr (h, pace, p, rw p at ahead, inr (k, ground arith, ground arith))
                  ]
            ]
          ]
    ]
