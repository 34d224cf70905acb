-- ===== src/Engine/Connection/Recovered.antt =====
-- Other connections for the same request: how many attempts there are, and what they leave of the
-- connection's state.
use rload.Prelude.{
  ℕ, zero, suc, ◌+◌, ◌≤◌, ◌<◌, ◌≡◌, refl, sym, ap, subst, ◌⊎◌, inl, inr, Bool, true, false, not,
  ◌&&◌, ◌||◌, Option, none, some, List, [], ◌∷◌, arith, leb, ◌==◌, leb_false→lt, &&_true, length,
  drop, length-drop,
}
use rload.Error.{RunError, ErrorKind, io, Result, ok, err}
use rload.Engine.Limits.{ConnectionLimit, requests, deadline}
use rload.Engine.Outside.{Outside}
use rload.Engine.Action.{◌>>=◌, pure}
use rload.Engine.Action.Keeps.{
  Meets, Keeps, Keeps-bind, Keeps-modify, Keeps-call, Keeps-gets, Meets-bind, Meets-pure,
  Meets-fail, Meets-run_dry, Meets-if, Meets-of_Keeps, Meets-same, Meets-modify, Meets-look,
  Meets-before, Meets-call, Meets-attempt, Meets-of_Meets, Answered, Meets-imp, Meets-call_bind,
}
use rload.Engine.Transport.{connect_each, connect_from}
use rload.Engine.Connection.{Connection, Act, max_recovery_attempts, is_some, deadline_of}
use rload.Engine.Connection.Untouched.{new_transport-Keeps, register-Keeps, deregister-Keeps}
use rload.Engine.Connection.Sound.{Stands}
use rload.Engine.Connection.Reading.{mark_done}
use rload.Engine.Connection.Recovery.{
  after_attempt, after_recovered, after_found, attempt_loop, count_attempt, install_stream,
  reset_timer, retry_fixed, retry_address, restart_request, recover_again, recover_request,
  deadline_passed,
}

or_true : (d : Bool) → true ≡ (d || not false)
or_true d = ground arith

or_false : (d : Bool) → d ≡ (d || not true)
or_false d = ground arith

fixed_case : (d b fixed : Bool) → fixed ≡ true → (d || not b) ≡ (d || (not b && fixed))
fixed_case d b fixed h = ground arith

given_case : (d fixed : Bool) → fixed ≡ true → true ≡ (d || (not false && fixed))
given_case d fixed h = ground arith

deadline_case :
    (d b has_deadline : Bool)
    → (b ≡ false) ⊎ (has_deadline ≡ true)
    → b ≡ true
    → d ≡ (d || (not false && not has_deadline))
deadline_case d b has_deadline h q = ground arith

either_case : (d fixed : Bool) → d ≡ (d || (not true && fixed))
either_case d fixed = ground arith

-- After a failure the connection may have been given up.
abbrev pub Failed :
    (out : Outside) (l : ConnectionLimit) (n : ℕ) (d : Bool) → Connection out → Type 0
Failed out l n d s = Stands l n d s ⊎ Stands l n true s

module _ (out : Outside) {S : Type 0} where
  connect_each-Meets :
      (P : S → Type 0) (e : ErrorKind) (i : ℕ) (l : List out.Address)
      → Meets P (connect_each out e i l) (λ x s. P s × (i ≤ x.1) × (x.1 < i + length l)) P ⊥
  unfolding connect_each
  connect_each-Meets P e i [] = Meets-fail _ (λ s h. h)
  connect_each-Meets P e i (a ∷ l) =
      Meets-call_bind _ (λ s. pure (s, i)) (λ e'. connect_each out e' (i + 1) l)
        (λ s. Meets-pure _ (λ s h. (h, omega arith, omega arith)))
        (λ e'.
          Meets-of_Meets _ (connect_each-Meets P e' (i + 1) l)
            (λ x s h. (h.0, omega (arith, h.1), omega (arith, h.2))))

  pub connect_from-Meets :
      (P : S → Type 0) (l : List out.Address) (start : ℕ)
      → Meets P (connect_from out l start) (λ x s. P s × (x.1 < length l)) P ⊥
  unfolding connect_from
  connect_from-Meets P l start =
      Meets-of_Meets _ (connect_each-Meets P _ start (drop start l))
        (λ x s h. (h.0, omega (arith, h.1, h.2, length-drop start l)))

module _ (out : Outside) where
  pub deadline_passed-Meets :
      (P : Connection out → Type 0) (k : ConnectionLimit)
      → Meets P
          (deadline_passed out k)
          (λ b s. P s × ((b ≡ false) ⊎ (is_some (deadline_of k) ≡ true)))
          P
          ⊥
  unfolding deadline_passed deadline_of
  deadline_passed-Meets P (requests count) = Meets-pure _ (λ s h. (h, inl refl))
  deadline_passed-Meets P (deadline end) =
      Meets-bind _ _ (Meets-same _ (Keeps-call _)) (λ time. Meets-pure _ (λ s h. (h, inr refl)))

  module _ (l : ConnectionLimit) (n : ℕ) where
    pub mark_done-Meets :
        {F : Connection out → Type 0} (d : Bool)
        → Meets (Stands l n d) (mark_done out) (λ u. Stands l n true) F ⊥
    unfolding mark_done
    mark_done-Meets d = Meets-modify _ (λ s h. ground arith)

    module _ (d : Bool) where
      reset_timer-Keeps : Keeps (Stands l n d) ⊥ (reset_timer out)
      unfolding reset_timer
      reset_timer-Keeps = Keeps-modify _ (λ s h. ground arith)

      abbrev pub At : out.Socket × ℕ → Connection out → Type 0
      At x s = Stands l n d s × (x.1 < length s.addresses)

      pub install_stream-Meets :
          (x : out.Socket × ℕ) (t : ℕ)
          → Meets (At x) (install_stream out x t) (λ u. Stands l n d) (Stands l n d) ⊥
      unfolding install_stream
      install_stream-Meets (tcp, i) t =
          Meets-bind _ _
            (Meets-of_Keeps {R = λ c. At (tcp, i)} (At (tcp, i)) _ (Keeps-gets _) (λ s h. h)
              (λ a s h. h) (λ s h. h.0))
            (λ c.
              Meets-bind _ _
                (Meets-of_Keeps {R = λ c. At (tcp, i)} (At (tcp, i)) _
                  (new_transport-Keeps out tcp c.with_tls) (λ s h. h) (λ a s h. h) (λ s h. h.0))
                (λ stream.
                  Meets-bind _ _ (Meets-modify {Q = Stands l n d} _ (λ s h. ground arith)) (λ u.
                    Meets-same _ (
                      Keeps-bind _ _ (Keeps-call _) (λ time.
                        Keeps-bind _ _ (Keeps-modify _ (λ s h. ground arith))
                          (λ u. Keeps-bind _ _ reset_timer-Keeps (λ u. register-Keeps out t)))))))

      -- Under a fixed limit: attempts are left, and no more than the fuel.
      abbrev Tries : ℕ → Connection out → Type 0
      Tries fuel s =
          Stands l n d s
          × (s.recovery_attempts < max_recovery_attempts)
          × (max_recovery_attempts < fuel + s.recovery_attempts)

      abbrev Tried : ℕ → Connection out → Type 0
      Tried fuel s = Stands l n d s × (max_recovery_attempts < fuel + s.recovery_attempts)

      abbrev Found : Option (out.Socket × ℕ) → Connection out → Type 0
      Found none = Stands l n true
      Found (some x) = At x

      count_fixed-Meets :
          (fuel : ℕ)
          → Meets (Tries (suc fuel)) (count_attempt out true) (λ u. Tried fuel) (Stands l n d) ⊥
      unfolding count_attempt
      count_fixed-Meets fuel = Meets-modify _ (λ s h.
          let st = h.0 in
          ground (
            arith, st.attempts, st.address, st.offset, st.limit_eq, st.completed_eq, st.is_done_eq,
          ))

      -- After an attempt, at the connection that it saw.
      abbrev Attempted :
          ℕ → Connection out → Result RunError (out.Socket × ℕ) → Connection out → Type 0
      Attempted fuel c =
          Answered (λ x s. (Tried fuel s × (c ≡ s)) × (x.1 < length c.addresses))
            (λ s. Tried fuel s × (c ≡ s))

      after_fixed-Meets :
          (fuel : ℕ) (rest : Act out (Option (out.Socket × ℕ))) (c : Connection out)
          (r : Result RunError (out.Socket × ℕ))
          → Meets (Tries fuel) rest Found (Stands l n d) ⊥
          → Meets (Attempted fuel c r) (after_attempt out rest true c r) Found (Stands l n d) ⊥
      unfolding after_attempt
      after_fixed-Meets fuel rest c (ok x) k =
          Meets-pure _
            (λ s h. (h.0.0.0, subst (λ (z : Connection out). x.1 < length z.addresses) h.0.1 h.1))
      after_fixed-Meets fuel rest c (err (io e)) k =
          Meets-if (leb max_recovery_attempts c.recovery_attempts) _ _
            (λ q.
              Meets-bind {F = Stands l n d} _ _
                (Meets-before (Stands l n d) _ (λ s h. h.0.0) (mark_done-Meets d))
                (λ u. Meets-pure _ (λ s h. h)))
            (λ q.
              Meets-bind _ _
                (Meets-call {R = λ u. Tries fuel} _ (λ s w h. (
                  h.0.0,
                  subst (λ (z : Connection out). z.recovery_attempts < max_recovery_attempts) h.1
                      (leb_false→lt _ _ q),
                  h.0.1,
                )))
                (λ u. k))
      after_fixed-Meets fuel rest c (err e) k = Meets-fail _ (λ s h. h.0.0)

      attempt_fixed-Meets :
          (fuel start : ℕ)
          → Meets (Tries fuel) (attempt_loop out fuel start true) Found (Stands l n d) ⊥
      unfolding attempt_loop
      attempt_fixed-Meets zero start = Meets-run_dry (λ s h. omega (arith, h.1, h.2))
      attempt_fixed-Meets (suc fuel) start = Meets-bind _ _ (count_fixed-Meets fuel) (λ u.
          Meets-look _ (λ c h.
            Meets-bind _ _
              (Meets-imp _
                (Meets-attempt _
                  (connect_from-Meets out (λ s. Tried fuel s × (c ≡ s)) c.addresses start))
                (λ r s q. q) (λ s q. q.0.0))
              (λ r. after_fixed-Meets fuel _ c r (attempt_fixed-Meets fuel start))))

      gave_up : (s : Connection out) → Stands l n true s → Stands l n (d || not false) s
      gave_up s h = subst (λ b. Stands l n b s) (or_true d) h

      installed : (s : Connection out) → Stands l n d s → Stands l n (d || not true) s
      installed s h = subst (λ b. Stands l n b s) (or_false d) h

      after_found-Meets :
          (found : Option (out.Socket × ℕ)) (t : ℕ)
          → Meets
              (Found found)
              (after_found out found t)
              (λ b. Stands l n (d || not b))
              (Stands l n d)
              ⊥
      unfolding after_found
      after_found-Meets none t = Meets-pure _ (λ s h. gave_up s h)
      after_found-Meets (some x) t =
          Meets-bind _ _ (install_stream-Meets x t) (λ u. Meets-pure _ (λ s h. installed s h))

      retry_fixed-Meets :
          (t : ℕ)
          → Meets (Stands l n d) (retry_fixed out t) (λ b. Stands l n (d || not b)) (Stands l n d) ⊥
      unfolding retry_fixed
      retry_fixed-Meets t = Meets-look _ (λ c h.
          Meets-if (length c.addresses == 0) _ _ (λ q. Meets-fail _ (λ s h. h.0))
            (λ q.
              Meets-if (leb max_recovery_attempts c.recovery_attempts) _ _
                (λ q.
                  Meets-bind _ _ (Meets-before (Stands l n d) _ (λ s h. h.0) (mark_done-Meets d))
                    (λ u. Meets-pure _ (λ s h. gave_up s h)))
                (λ q.
                  Meets-bind {F = Stands l n d} _ _
                    (Meets-before (Tries 4) _
                      (λ s h. (
                        h.0,
                        subst (λ (z : Connection out). z.recovery_attempts < max_recovery_attempts)
                            h.1 (leb_false→lt _ _ q),
                        omega arith,
                      ))
                      (attempt_fixed-Meets 4 _))
                    (λ found. after_found-Meets found t))))

      -- Under a deadline: the loop is one attempt.
      abbrev FoundOnce : Option (out.Socket × ℕ) → Connection out → Type 0
      FoundOnce none s = ⊥
      FoundOnce (some x) s = At x s

      count_once-Keeps : Keeps (Stands l n d) ⊥ (count_attempt out false)
      unfolding count_attempt
      count_once-Keeps = Keeps-modify _ (λ s h. ground arith)

      after_once-Meets :
          (rest : Act out (Option (out.Socket × ℕ))) (c : Connection out)
          (r : Result RunError (out.Socket × ℕ))
          → Meets
              (Answered At (Stands l n d) r)
              (after_attempt out rest false c r)
              FoundOnce
              (Stands l n d)
              ⊥
      unfolding after_attempt
      after_once-Meets rest c (ok x) = Meets-pure _ (λ s h. h)
      after_once-Meets rest c (err (io e)) = Meets-fail _ (λ s h. h)
      after_once-Meets rest c (err e) = Meets-fail _ (λ s h. h)

      attempt_once-Meets :
          (fuel start : ℕ)
          → Meets
              (Stands l n d)
              (attempt_loop out (suc fuel) start false)
              FoundOnce
              (Stands l n d)
              ⊥
      unfolding attempt_loop
      attempt_once-Meets fuel start = Meets-bind _ _ (Meets-same _ count_once-Keeps) (λ u.
          Meets-look _ (λ c h.
            Meets-bind _ _
              (Meets-attempt {R = At} {F = Stands l n d} _ (
                Meets-imp _
                  (connect_from-Meets out (λ s. Stands l n d s × (c ≡ s)) c.addresses start)
                  (λ x s q.
                    (q.0.0, subst (λ (z : Connection out). x.1 < length z.addresses) q.0.1 q.1))
                  (λ s q. q.0)))
              (λ r. after_once-Meets _ c r)))

      -- A request that goes on stays open; one that is given up ends a connection with a fixed limit.
      abbrev pub TriedAgain : Bool → Connection out → Type 0
      TriedAgain went_on s = Stands l n (d || (not went_on && not (is_some (deadline_of l)))) s

      went_on : (s : Connection out) → Stands l n d s → TriedAgain true s
      went_on s h = subst (λ b. Stands l n b s) (either_case d (not (is_some (deadline_of l)))) h

      pub retry_address-Meets :
          (t : ℕ) → Meets (Stands l n d) (retry_address out t) TriedAgain (Stands l n d) ⊥
      unfolding retry_address
      retry_address-Meets t = Meets-bind _ _ (Meets-same _ (deregister-Keeps out)) (λ u.
          Meets-look _ (λ c h.
            Meets-if (not (is_some (deadline_of c.limit))) _ _
              (λ q.
                Meets-of_Meets _ (Meets-before (Stands l n d) _ (λ s h. h.0) (retry_fixed-Meets t))
                  (λ b s k.
                    subst (λ x. Stands l n x s)
                      (fixed_case d b _
                        (subst (λ x. not (is_some (deadline_of x)) ≡ true) h.limit_eq q))
                      k))
              (λ q.
                Meets-bind _ _
                  (Meets-imp {R = At} _
                    (connect_from-Meets out (λ s. Stands l n d s × (c ≡ s)) c.addresses _)
                    (λ x s q.
                      (q.0.0, subst (λ (z : Connection out). x.1 < length z.addresses) q.0.1 q.1))
                    (λ s q. q.0))
                  (λ x.
                    Meets-bind _ _ (install_stream-Meets x t)
                      (λ u. Meets-pure _ (λ s h. went_on s h))))))

      given_up :
          (s : Connection out)
          → not (is_some (deadline_of l)) ≡ true
          → Stands l n true s
          → TriedAgain false s
      given_up s q h = subst (λ b. Stands l n b s) (given_case d _ q) h

      restart_request-Meets :
          (x : out.Socket × ℕ) (t : ℕ)
          → Meets (At x) (restart_request out x t) TriedAgain (Stands l n d) ⊥
      unfolding restart_request
      restart_request-Meets (tcp, i) t =
          Meets-bind _ _
            (Meets-of_Keeps {R = λ c. At (tcp, i)} (At (tcp, i)) _ (Keeps-gets _) (λ s h. h)
              (λ a s h. h) (λ s h. h.0))
            (λ c.
              Meets-bind _ _
                (Meets-of_Keeps {R = λ c. At (tcp, i)} (At (tcp, i)) _
                  (new_transport-Keeps out tcp c.with_tls) (λ s h. h) (λ a s h. h) (λ s h. h.0))
                (λ stream.
                  Meets-bind _ _ (Meets-modify {Q = Stands l n d} _ (λ s h. ground arith)) (λ u.
                    Meets-bind _ _ (Meets-same _ (Keeps-call _)) (λ time.
                      Meets-bind _ _ (Meets-same _ (Keeps-modify _ (λ s h. ground arith))) (λ u.
                        Meets-bind _ _ (Meets-same _ reset_timer-Keeps) (λ u.
                          Meets-bind _ _ (Meets-same _ (register-Keeps out t))
                            (λ u. Meets-pure _ (λ s h. went_on s h))))))))

      after_recovered-Meets :
          (found : Option (out.Socket × ℕ)) (t : ℕ)
          → not (is_some (deadline_of l)) ≡ true
          → Meets (Found found) (after_recovered out found t) TriedAgain (Stands l n d) ⊥
      unfolding after_recovered
      after_recovered-Meets none t q = Meets-pure _ (λ s h. given_up s q h)
      after_recovered-Meets (some x) t q = restart_request-Meets x t

      after_recovered_once-Meets :
          (found : Option (out.Socket × ℕ)) (t : ℕ)
          → Meets (FoundOnce found) (after_recovered out found t) TriedAgain (Stands l n d) ⊥
      unfolding after_recovered
      after_recovered_once-Meets none t = Meets-pure _ (λ s h. absurd h)
      after_recovered_once-Meets (some x) t = restart_request-Meets x t

      loop_again-Meets :
          (c : Connection out) (fixed : Bool) (t : ℕ)
          → fixed ≡ not (is_some (deadline_of l))
          → (fixed ≡ false) ⊎ (c.recovery_attempts < max_recovery_attempts)
          → Meets
              (λ s. Stands l n d s × (c ≡ s))
              (attempt_loop out 4 0 fixed >>= λ found. after_recovered out found t)
              TriedAgain
              (Stands l n d)
              ⊥
      loop_again-Meets c true t q (inl no_limit) = cc
      loop_again-Meets c true t q (inr left) =
          Meets-bind _ _
            (Meets-before (Tries 4) _
              (λ s h. (
                h.0,
                subst (λ (z : Connection out). z.recovery_attempts < max_recovery_attempts) h.1
                    left,
                omega arith,
              ))
              (attempt_fixed-Meets 4 0))
            (λ found. after_recovered-Meets found t (sym q))
      loop_again-Meets c false t q u =
          Meets-bind _ _ (Meets-before (Stands l n d) _ (λ s h. h.0) (attempt_once-Meets 3 0))
            (λ found. after_recovered_once-Meets found t)

      recover_again-Meets :
          (t : ℕ)
          → Meets
              (λ s.
                Stands l n d s
                × ((not (is_some (deadline_of l)) ≡ false)
                    ⊎ (s.recovery_attempts < max_recovery_attempts)))
              (recover_again out t)
              TriedAgain
              (Stands l n d)
              ⊥
      unfolding recover_again
      recover_again-Meets t =
          Meets-bind _ _
            (Meets-imp _ (Meets-same _ (deregister-Keeps out)) (λ u s h. h) (λ s h. h.0))
            (λ u. Meets-look _ (λ c h.
              let st = h.0 in
              Meets-before (λ s. Stands l n d s × (c ≡ s)) _ (λ s k. (k.0.0, k.1))
                (loop_again-Meets c _ t (ap (λ x. not (is_some (deadline_of x))) st.limit_eq) (
                  subst
                    (λ x.
                      (not (is_some (deadline_of x)) ≡ false)
                      ⊎ (c.recovery_attempts < max_recovery_attempts))
                    (sym st.limit_eq) h.1))))

      attempts_left :
          (has_deadline : Bool) (c : Connection out)
          → (not has_deadline && leb max_recovery_attempts c.recovery_attempts) ≡ false
          → (not has_deadline ≡ false) ⊎ (c.recovery_attempts < max_recovery_attempts)
      attempts_left true c q = inl refl
      attempts_left false c q = inr (leb_false→lt _ _ q)

      pub recover_request-Meets :
          (t : ℕ) → Meets (Stands l n d) (recover_request out t) TriedAgain (Failed out l n d) ⊥
      unfolding recover_request
      recover_request-Meets t = Meets-look _ (λ c h.
          let limit_eq = h.limit_eq in
          Meets-bind _ _
            (Meets-imp _ (deadline_passed-Meets (λ s. Stands l n d s × (c ≡ s)) c.limit)
              (λ b s k. k) (λ s k. inl k.0))
            (λ passed.
              Meets-if passed _ _
                (λ q. Meets-pure _ (λ s k.
                  subst (λ b. Stands l n b s)
                    (deadline_case d passed (is_some (deadline_of l))
                      (subst (λ x. (passed ≡ false) ⊎ (is_some (deadline_of x) ≡ true)) limit_eq
                        k.1)
                      q)
                    k.0.0))
                (λ q.
                  Meets-if
                    (not (is_some (deadline_of c.limit))
                      && leb max_recovery_attempts c.recovery_attempts)
                    _ _
                    (λ y.
                      Meets-bind _ _
                        (Meets-before (Stands l n d) _ (λ s k. k.0.0) (mark_done-Meets d))
                        (λ u.
                          Meets-bind _ _
                            (Meets-imp _ (Meets-same _ (deregister-Keeps out)) (λ u s k. k)
                              (λ s k. inr k))
                            (λ u. Meets-pure _ (λ s k.
                              given_up s
                                (subst (λ x. not (is_some (deadline_of x)) ≡ true) limit_eq
                                  (&&_true _ _ y).0)
                                k))))
                    (λ y.
                      Meets-imp _
                        (Meets-before _ _
                          (λ s k. (
                            k.0.0,
                            subst
                                (λ (z : Connection out).
                                  (not (is_some (deadline_of l)) ≡ false)
                                  ⊎ (z.recovery_attempts < max_recovery_attempts))
                                k.0.1
                                (attempts_left (is_some (deadline_of l)) c (
                                  subst
                                    (λ x.
                                      (not (is_some (deadline_of x))
                                        && leb max_recovery_attempts c.recovery_attempts)
                                      ≡ false)
                                    limit_eq y)),
                          ))
                          (recover_again-Meets t))
                        (λ b s k. k) (λ s k. inl k)))))
