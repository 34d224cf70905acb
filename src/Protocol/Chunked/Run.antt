-- ===== src/Protocol/Chunked/Run.antt =====
-- The chunked decoder's loop: its rounds and its fuel, and a round on a
-- longer buffer is the round on its beginning.
use rload.Prelude.{
  ℕ, zero, suc, ◌+◌, ◌<◌, min, ◌≡◌, refl, ap, ◌≢◌, ◌⊎◌, inl, inr, ◌++◌, arith, Option-cases, Bytes,
  length, length-drop, u64_mod,
}
use rload.Error.{Message}
use rload.Text.Find.{find_bytes, find_bytes-length}
use rload.Protocol.Chunked.Defs.{
  ChunkedDecoder, ChunkPhase, size, chunk_data, data_ending, trailers, Round, again, stop, done,
  fail, round_size, round_data, round_ending, round_trailers, round_at, Outcome, waiting, complete,
  broken, out_of_fuel, loop, run, crlf,
}

pub Round-cases :
    (r : Round)
    → ((d : ChunkedDecoder) × (r ≡ again d))
      ⊎ ((d : ChunkedDecoder) × (r ≡ stop d))
      ⊎ ((n : ℕ) × (r ≡ done n))
      ⊎ ((m : Message) × (r ≡ fail m))
Round-cases (again d) = inl (d, refl)
Round-cases (stop d) = inr (inl (d, refl))
Round-cases (done n) = inr (inr (inl (n, refl)))
Round-cases (fail m) = inr (inr (inr (m, refl)))

-- A further round has less to read.
again-shrinks :
    (p : ChunkPhase) (d d' : ChunkedDecoder)
    → round_at p d ≡ again d'
    → length d'.buffer < length d.buffer
unfolding round_at round_size round_data round_ending round_trailers
again-shrinks size d d' h = elim (Option-cases (find_bytes crlf d.buffer)) [
  | inl q ↦ ground arith
  | inr (i, q) ↦ ground (
    arith,
    find_bytes-length crlf d.buffer i q,
    length-drop (i + 2) d.buffer,
    ap (λ (x : ChunkedDecoder). length x.buffer),
  )
]
again-shrinks (chunk_data r) d d' h = ground (arith, length-drop (min (length d.buffer) r) d.buffer)
again-shrinks data_ending d d' h = ground (arith, length-drop 2 d.buffer)
again-shrinks trailers d d' h = ground arith

-- More fuel than the buffer is long makes no difference.
loop_fuel :
    (f g : ℕ) (d : ChunkedDecoder) → length d.buffer < f → length d.buffer < g → loop f d ≡ loop g d
unfolding loop
loop_fuel zero g d hf hg = absurd (omega arith)
loop_fuel (suc f) zero d hf hg = absurd (omega arith)
loop_fuel (suc f) (suc g) d hf hg = elim (Round-cases (round_at d.phase d)) [
  | inl (d', q) ↦
      let less = again-shrinks d.phase d d' q in
      rw (q, loop) (loop_fuel f g d' (omega (arith, less)) (omega (arith, less)))
  | inr (inl (d', q)) ↦ rw (q, loop) refl
  | inr (inr (inl (n, q))) ↦ rw (q, loop) refl
  | inr (inr (inr (m, q))) ↦ rw (q, loop) refl
]

pub run-again : (d d' : ChunkedDecoder) → round_at d.phase d ≡ again d' → run d ≡ run d'
unfolding run loop
run-again d d' q =
    rw (q, loop)
      (loop_fuel (length d.buffer) (suc (length d'.buffer)) d' (again-shrinks d.phase d d' q)
        (omega arith))

pub run-stop : (d d' : ChunkedDecoder) → round_at d.phase d ≡ stop d' → run d ≡ waiting d'
unfolding run loop
run-stop d d' q = rw (q, loop) refl

pub run-done : (d : ChunkedDecoder) (n : ℕ) → round_at d.phase d ≡ done n → run d ≡ complete n
unfolding run loop
run-done d n q = rw (q, loop) refl

pub run-fail : (d : ChunkedDecoder) (m : Message) → round_at d.phase d ≡ fail m → run d ≡ broken m
unfolding run loop
run-fail d m q = rw (q, loop) refl

-- The same loop without fuel: a statement about `run` follows from its four rounds.
pub run-ind :
    (P : ChunkedDecoder → Outcome → Type 0)
    → ((d d' : ChunkedDecoder) → round_at d.phase d ≡ again d' → P d' (run d') → P d (run d'))
    → ((d d' : ChunkedDecoder) → round_at d.phase d ≡ stop d' → P d (waiting d'))
    → ((d : ChunkedDecoder) (n : ℕ) → round_at d.phase d ≡ done n → P d (complete n))
    → ((d : ChunkedDecoder) (m : Message) → round_at d.phase d ≡ fail m → P d (broken m))
    → (fuel : ℕ) (d : ChunkedDecoder) → length d.buffer < fuel
    → P d (run d)
run-ind P ka ks kd kf zero d h = absurd (omega arith)
run-ind P ka ks kd kf (suc fuel) d h = elim (Round-cases (round_at d.phase d)) [
  | inl (d', q) ↦
      rw (run-again d d' q)
        (ka d d' q (run-ind P ka ks kd kf fuel d' (omega (arith, again-shrinks d.phase d d' q))))
  | inr (inl (d', q)) ↦ rw (run-stop d d' q) (ks d d' q)
  | inr (inr (inl (n, q))) ↦ rw (run-done d n q) (kd d n q)
  | inr (inr (inr (m, q))) ↦ rw (run-fail d m q) (kf d m q)
]

-- The loop of the chunked decoder ends within a number of rounds of one more than its buffer is
-- long.
pub run-total : (d : ChunkedDecoder) → run d ≢ out_of_fuel
run-total d =
    run-ind (λ x o. o ≢ out_of_fuel) (λ x x' q h. h) (λ x x' q e. cc) (λ x n q e. cc)
      (λ x m q e. cc) (suc (length d.buffer)) d (omega arith)

-- A chunk under way has bytes to come, and the total fits its word.
pub record IsLive (d : ChunkedDecoder) : Type 0 where
  pub positive : d.phase ≢ chunk_data 0
  pub small : d.total < u64_mod

abbrev pub extend : ChunkedDecoder → Bytes → ChunkedDecoder
extend d more = record d { buffer = d.buffer ++ more }

pub again-IsLive :
    (p : ChunkPhase) (d d' : ChunkedDecoder)
    → p ≡ d.phase
    → IsLive d
    → round_at p d ≡ again d'
    → IsLive d'
unfolding round_at round_size round_data round_ending round_trailers
again-IsLive size d d' e live h = record { positive = ground arith; small = ground arith }
again-IsLive (chunk_data r) d d' e live h = record { positive = ground arith; small = ground arith }
again-IsLive data_ending d d' e live h = record { positive = ground arith; small = ground arith }
again-IsLive trailers d d' e live h = ground arith
