-- ===== src/Protocol/Chunked/Reads.antt =====
-- The chunked decoder fed by one read after another, against the same bytes in one read.
use rload.Prelude.{
  Bool, ℕ, suc, ◌≡◌, refl, sym, ap, ◌∙◌, subst, ◌⊎◌, inl, inr, false, List, [], ◌∷◌, ◌++◌,
  append-nil, append_assoc, arith, Bytes, length,
}
use rload.Error.{Message}
use rload.Protocol.Chunked.Defs.{
  ChunkedDecoder, Outcome, waiting, complete, broken, out_of_fuel, run, after_loop, feed,
}
use rload.Protocol.Chunked.Run.{run-ind, IsLive, extend, again-IsLive}
use rload.Protocol.Chunked.Stream.{stop-same, decoder_eq, run-Persists, Persists}

-- One call of `feed` for each read, as long as the body is not complete.
unfoldable pub feed_all : ChunkedDecoder → List Bytes → Outcome
feed_all d [] = waiting d
feed_all d (r ∷ reads) = elim (feed d r false) [
  | waiting d' ↦ feed_all d' reads
  | complete n ↦ complete n
  | broken m ↦ broken m
  | out_of_fuel ↦ out_of_fuel
]

abbrev pub joined : List Bytes → Bytes
joined [] = []
joined (r ∷ reads) = r ++ joined reads

-- The outcome of a live decoder that waits is live.
run-IsLive : (d d' : ChunkedDecoder) → IsLive d → run d ≡ waiting d' → IsLive d'
run-IsLive d d' live h = subst Leaves h (all d live)
  where
    Leaves : Outcome → Type 0
    Leaves (waiting x) = IsLive x
    Leaves _ = Unit {0}

    all : (x : ChunkedDecoder) → IsLive x → Leaves (run x)
    all x =
        run-ind (λ y o. IsLive y → Leaves o)
          (λ y y' q ih l. ih (again-IsLive y.phase y y' refl l q))
          (λ y y' q l. subst IsLive (sym (stop-same y.phase y y' refl l q)) l) (λ y n q l. tt)
          (λ y m q l. tt) (suc (length x.buffer)) x (omega arith)

-- An answer, or the wait for more.
abbrev pub IsSound : Outcome → Type 0
IsSound (broken m) = ⊥
IsSound out_of_fuel = ⊥
IsSound _ = Unit {0}

pub Outcome-cases :
    (o : Outcome)
    → ((d : ChunkedDecoder) × (o ≡ waiting d))
      ⊎ ((n : ℕ) × (o ≡ complete n))
      ⊎ ((m : Message) × (o ≡ broken m))
      ⊎ (o ≡ out_of_fuel)
Outcome-cases (waiting d) = inl (d, refl)
Outcome-cases (complete n) = inr (inl (n, refl))
Outcome-cases (broken m) = inr (inr (inl (m, refl)))
Outcome-cases out_of_fuel = inr (inr (inr refl))

feed-run : (d : ChunkedDecoder) (bytes : Bytes) → feed d bytes false ≡ run (extend d bytes)
unfolding feed after_loop
feed-run d bytes = elim (Outcome-cases (run (extend d bytes))) [
  | inl (x, q) ↦ rw q refl
  | inr (inl (n, q)) ↦ rw q refl
  | inr (inr (inl (m, q))) ↦ rw q refl
  | inr (inr (inr q)) ↦ rw q refl
]

extend-append : (d : ChunkedDecoder) (a b : Bytes) → extend d (a ++ b) ≡ extend (extend d a) b
extend-append d a b = decoder_eq _ _ (sym (append_assoc d.buffer a b)) refl refl

feed-after :
    (d : ChunkedDecoder) (bytes : Bytes) (eof : Bool)
    → feed d bytes eof ≡ after_loop eof (run (extend d bytes))
unfolding feed
feed-after d bytes eof = refl

-- A read that leaves the decoder waiting may as well come with the next one, also if that is the last.
pub feed-waiting_end :
    (d d' : ChunkedDecoder) (a b : Bytes) (eof : Bool)
    → IsLive d
    → feed d a false ≡ waiting d'
    → feed d (a ++ b) eof ≡ feed d' b eof
feed-waiting_end d d' a b eof live h =
    feed-after d (a ++ b) eof
    ∙ ap (after_loop eof) (
        ap run (extend-append d a b)
        ∙ persists (record { positive = live.positive; small = live.small }) b)
    ∙ sym (feed-after d' b eof)
  where
    persists : Persists (extend d a) (waiting d')
    persists = subst (Persists (extend d a)) (sym (feed-run d a) ∙ h) (run-Persists (extend d a))

feed-waiting :
    (d d' : ChunkedDecoder) (a b : Bytes)
    → IsLive d
    → feed d a false ≡ waiting d'
    → feed d (a ++ b) false ≡ feed d' b false
feed-waiting d d' a b live h = feed-waiting_end d d' a b false live h

feed-complete :
    (d : ChunkedDecoder) (a b : Bytes) (n : ℕ)
    → feed d a false ≡ complete n
    → feed d (a ++ b) false ≡ complete n
feed-complete d a b n h = feed-run d (a ++ b) ∙ ap run (extend-append d a b) ∙ persists b
  where
    persists : Persists (extend d a) (complete n)
    persists = subst (Persists (extend d a)) (sym (feed-run d a) ∙ h) (run-Persists (extend d a))

pub feed-IsLive :
    (d d' : ChunkedDecoder) (r : Bytes) → IsLive d → feed d r false ≡ waiting d' → IsLive d'
feed-IsLive d d' r live h =
    run-IsLive (extend d r) d' (record { positive = live.positive; small = live.small })
      (sym (feed-run d r) ∙ h)

last_waiting : (d : ChunkedDecoder) → feed_all d [] ≡ waiting d
unfolding feed_all
last_waiting d = refl

-- The first call of `feed` decides how the reads go on.
feed_all-first :
    (d : ChunkedDecoder) (r : Bytes) (more : List Bytes) (o : Outcome)
    → feed d r false ≡ o
    → feed_all d (r ∷ more) ≡ (elim o [
      | waiting d' ↦ feed_all d' more
      | complete n ↦ complete n
      | broken m ↦ broken m
      | out_of_fuel ↦ out_of_fuel
    ])
unfolding feed_all
feed_all-first d r more o q = rw (q, feed_all) refl

-- A chunked decoder in no empty chunk and with a total below 2^64, as a new one is, fed by reads
-- one after another, if it meets no error, ends as it would if it were fed all the bytes at once,
-- before the end of the stream.
pub feed_all-joined :
    (reads : List Bytes) (d : ChunkedDecoder) (r : Bytes)
    → IsLive d
    → IsSound (feed_all d (r ∷ reads))
    → feed d (joined (r ∷ reads)) false ≡ feed_all d (r ∷ reads)
feed_all-joined [] d r live sound = elim (Outcome-cases (feed d r false)) [
  | inl (d', q) ↦
      ap (λ l. feed d l false) (append-nil r)
      ∙ q
      ∙ sym (last_waiting d')
      ∙ sym (feed_all-first d r [] _ q)
  | inr (inl (n, q)) ↦ feed-complete d r [] n q ∙ sym (feed_all-first d r [] _ q)
  | inr (inr (inl (m, q))) ↦ absurd (subst IsSound (feed_all-first d r [] _ q) sound)
  | inr (inr (inr q)) ↦ absurd (subst IsSound (feed_all-first d r [] _ q) sound)
]
feed_all-joined (r' ∷ reads) d r live sound = elim (Outcome-cases (feed d r false)) [
  | inl (d', q) ↦
      let first = feed_all-first d r (r' ∷ reads) _ q in
      feed-waiting d d' r (joined (r' ∷ reads)) live q
      ∙ feed_all-joined reads d' r' (feed-IsLive d d' r live q) (subst IsSound first sound)
      ∙ sym first
  | inr (inl (n, q)) ↦
      feed-complete d r (joined (r' ∷ reads)) n q ∙ sym (feed_all-first d r (r' ∷ reads) _ q)
  | inr (inr (inl (m, q))) ↦ absurd (subst IsSound (feed_all-first d r (r' ∷ reads) _ q) sound)
  | inr (inr (inr q)) ↦ absurd (subst IsSound (feed_all-first d r (r' ∷ reads) _ q) sound)
]
