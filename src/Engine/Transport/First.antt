-- ===== src/Engine/Transport/First.antt =====
-- Which address a new connection goes to.
use rload.Prelude.{
  ℕ, ◌+◌, ◌≡◌, refl, ap, ◌∙◌, ◌⊎◌, inl, inr, List, [], ◌∷◌, ◌++◌, arith, length, drop,
}
use rload.Error.{ErrorKind, io, not_found, Result, ok, err}
use rload.Engine.Outside.{Outside}
use rload.Engine.Action.{Outcome, done, failed, ◌>>=◌}
use rload.Engine.Transport.{connect_each, connect_from}

module _ (out : Outside) where
  -- Addresses that refuse one after another, from a world to a world, and the last error or the one that
  -- there was before.
  pub data Refuse : List out.Address → (w w' : out.World) → (before last : ErrorKind) → Type 0 where
    no_one :
        {w w' : out.World} {before last : ErrorKind}
        → w ≡ w'
        → before ≡ last
        → Refuse [] w w' before last
    another :
        {w w' : out.World} {before last : ErrorKind} {addresses : List out.Address}
        (a : out.Address) (e : ErrorKind)
        → (out.tcp_connect a w).0 ≡ err e
        → Refuse addresses (out.tcp_connect a w).1 w' e last
        → Refuse (a ∷ addresses) w w' before last

  abbrev pub Ended : Type 0 → Type 0
  Ended S = Outcome (out.Socket × ℕ) × S × out.World

  module _ {S : Type 0} where
    -- Addresses refuse up to one that accepts: the answer is its socket and its index.
    pub record Accepts (addresses : List out.Address) (before : ErrorKind) (index : ℕ) (s : S)
        (w : out.World) (answer : Ended S) : Type 0 where
      pub refusing : List out.Address
      pub address : out.Address
      pub others : List out.Address
      pub stream : out.Socket
      pub at_last : out.World
      pub last : ErrorKind
      pub addresses_eq : addresses ≡ refusing ++ (address ∷ others)
      pub refused : Refuse refusing w at_last before last
      pub accepted : (out.tcp_connect address at_last).0 ≡ ok stream
      pub answer_eq :
          answer ≡ (done (stream, index + length refusing), s, (out.tcp_connect address at_last).1)

    -- All addresses refuse: the answer is the last error.
    pub record Refuses (addresses : List out.Address) (before : ErrorKind) (s : S) (w : out.World)
        (answer : Ended S) : Type 0 where
      pub at_last : out.World
      pub last : ErrorKind
      pub refused : Refuse addresses w at_last before last
      pub answer_eq : answer ≡ (failed (io last), s, at_last)

    connect_each_cases :
        (before : ErrorKind) (index : ℕ) (addresses : List out.Address) (s : S) (w : out.World)
        → Accepts addresses before index s w (connect_each out before index addresses s w)
          ⊎ Refuses addresses before s w (connect_each out before index addresses s w)
    unfolding connect_each ◌>>=◌
    connect_each_cases before index [] s w =
        inr (record { at_last = w; last = before; refused = no_one refl refl; answer_eq = refl })
    connect_each_cases before index (a ∷ addresses) s w =
        at_result ((out.tcp_connect a w).0) refl
          (λ e. connect_each_cases e (index + 1) addresses s (out.tcp_connect a w).1)
      where
        at_result :
            (r : Result ErrorKind out.Socket)
            → (out.tcp_connect a w).0 ≡ r
            → ((e : ErrorKind)
                → Accepts addresses e
                    (index + 1)
                    s
                    (out.tcp_connect a w).1
                    (connect_each out e (index + 1) addresses s (out.tcp_connect a w).1)
                  ⊎ Refuses addresses e s
                      (out.tcp_connect a w).1
                      (connect_each out e (index + 1) addresses s (out.tcp_connect a w).1))
            → Accepts
                (a ∷ addresses)
                before
                index
                s
                w
                (connect_each out before index (a ∷ addresses) s w)
              ⊎ Refuses
                  (a ∷ addresses)
                  before
                  s
                  w
                  (connect_each out before index (a ∷ addresses) s w)
        at_result (ok stream) k ih = inl (record {
          refusing = [];
          address = a;
          others = addresses;
          stream = stream;
          at_last = w;
          last = before;
          addresses_eq = refl;
          refused = no_one refl refl;
          accepted = k;
          answer_eq = ground arith;
        })
        at_result (err e) k ih = elim (ih e) [
          | inl x ↦ inl (record {
            refusing = a ∷ x.refusing;
            address = x.address;
            others = x.others;
            stream = x.stream;
            at_last = x.at_last;
            last = x.last;
            addresses_eq = ap (◌∷◌ a) x.addresses_eq;
            refused = another a e k x.refused;
            accepted = x.accepted;
            answer_eq = rw k (
                x.answer_eq
                ∙ ap (λ (n : ℕ). (done (x.stream, n), s, (out.tcp_connect x.address x.at_last).1))
                    (omega arith));
          })
          | inr x ↦ inr (record {
            at_last = x.at_last;
            last = x.last;
            refused = another a e k x.refused;
            answer_eq = rw k x.answer_eq;
          })
        ]

    -- Connecting from an index on tries the addresses from there in their order, each one in the
    -- world that the one before left: either all up to one refuse, that one accepts, and the
    -- answer is its socket and its index; or all refuse, and the answer is the last error, or not
    -- found where there is no address. The state stays.
    pub connect_from_lem :
        (addresses : List out.Address) (start : ℕ) (s : S) (w : out.World)
        → Accepts (drop start addresses) not_found start s w (connect_from out addresses start s w)
          ⊎ Refuses (drop start addresses) not_found s w (connect_from out addresses start s w)
    unfolding connect_from
    connect_from_lem addresses start s w =
        connect_each_cases not_found start (drop start addresses) s w
