-- ===== src/Protocol/Chunked/Stream.antt =====
-- The chunked decoder on a stream: how the bytes are cut into reads does not matter.
use rload.Prelude.{
  ℕ, suc, ◌+◌, ◌-◌, ◌≤◌, ◌<◌, min, ◌≡◌, refl, sym, ap, ◌∙◌, subst, ◌≢◌, inl, inr, [], ◌∷◌, ◌++◌,
  append-nil, arith, leb, ◌==◌, if◌then◌else◌, leb→le, leb_false→lt, Bool-cases, Option-cases,
  Bytes, length, drop, length-append, take-append, drop-append, drop-append_past, drop_all, add64,
}
use rload.Text.Split.{starts_with}
use rload.Text.Find.{
  find_bytes, find_bytes-length, find_bytes-append, starts_with-append, starts_with-long,
}
use rload.Protocol.Chunked.Defs.{
  ChunkedDecoder, ChunkPhase, size, chunk_data, data_ending, trailers, again, stop, done,
  round_size, round_data, round_ending, round_trailers, round_at, Outcome, waiting, complete,
  broken, out_of_fuel, run, crlf,
}
use rload.Protocol.Chunked.Run.{run-again, run-done, run-ind, IsLive, extend, again-IsLive}

abbrev blank : Bytes
blank = 13 ∷ 10 ∷ 13 ∷ 10 ∷ []

-- A decoder that stops keeps its state.
pub stop-same :
    (p : ChunkPhase) (d d' : ChunkedDecoder)
    → p ≡ d.phase
    → IsLive d
    → round_at p d ≡ stop d'
    → d' ≡ d
unfolding round_at round_size round_data round_ending round_trailers
stop-same size d d' e live h = ground arith
stop-same (chunk_data r) d d' e live h =
    let r_pos : r ≢ 0 = λ z. live.positive (sym e ∙ ap chunk_data z) in
    elim (Bool-cases (min (length d.buffer) r == 0)) [
      | inl q ↦
          let empty : min (length d.buffer) r ≡ 0 = ground arith in
          ground (arith, ap (λ (n : ℕ). drop n d.buffer) empty)
      | inr q ↦ ground arith
    ]
stop-same data_ending d d' e live h = ground arith
stop-same trailers d d' e live h = ground arith

done-extend :
    (p : ChunkPhase) (d : ChunkedDecoder) (more : Bytes) (n : ℕ)
    → round_at p d ≡ done n
    → round_at p (extend d more) ≡ done n
unfolding round_at round_size round_data round_ending round_trailers
done-extend size d more n h = ground arith
done-extend (chunk_data r) d more n h = ground arith
done-extend data_ending d more n h = ground arith
done-extend trailers d more n h = elim (Bool-cases (starts_with crlf d.buffer)) [
  | inl q ↦ ground (arith, starts_with-append crlf d.buffer more q)
  | inr q ↦ elim (Option-cases (find_bytes blank d.buffer)) [
    | inl k ↦ ground arith
    | inr (i, k) ↦
        let len = find_bytes-length blank d.buffer i k in
        ground (
          arith,
          find_bytes-append blank d.buffer more i k,
          starts_with-long crlf d.buffer more q (omega (arith, len)),
        )
  ]
]

again-extend_size :
    (d d' : ChunkedDecoder) (more : Bytes)
    → round_size d ≡ again d'
    → round_size (extend d more) ≡ again (extend d' more)
unfolding round_size
again-extend_size d d' more h = elim (Option-cases (find_bytes crlf d.buffer)) [
  | inl q ↦ ground arith
  | inr (i, q) ↦
      let len = find_bytes-length crlf d.buffer i q in
      ground (
        arith,
        find_bytes-append crlf d.buffer more i q,
        take-append i d.buffer more (omega (arith, len)),
        drop-append (i + 2) d.buffer more (omega (arith, len)),
      )
]

again-extend_ending :
    (d d' : ChunkedDecoder) (more : Bytes)
    → round_ending d ≡ again d'
    → round_ending (extend d more) ≡ again (extend d' more)
unfolding round_ending
again-extend_ending d d' more h =
    ground
      (arith, length-append d.buffer more, take-append 2 d.buffer more, drop-append 2 d.buffer more)

-- The state after a round on data.
abbrev pub next_data : ℕ → ChunkedDecoder → ChunkedDecoder
next_data r d =
    let consumed = min (length d.buffer) r in
    record d {
      buffer = drop consumed d.buffer;
      total = add64 d.total consumed;
      phase = if consumed == r then data_ending else chunk_data (r - consumed);
    }

pub round_data-again :
    (r : ℕ) (d : ChunkedDecoder)
    → 0 < min (length d.buffer) r
    → round_data r d ≡ again (next_data r d)
unfolding round_data
round_data-again r d h = ground arith

data-again :
    (r : ℕ) (d d' : ChunkedDecoder)
    → round_data r d ≡ again d'
    → (d' ≡ next_data r d) × (0 < min (length d.buffer) r)
unfolding round_data
data-again r d d' h = (ground arith, ground arith)

pub decoder_eq :
    (d e : ChunkedDecoder) → d.buffer ≡ e.buffer → d.total ≡ e.total → d.phase ≡ e.phase → d ≡ e
decoder_eq d e b t p = ground arith

-- Data that has come in two reads ends where it would in one.
next_data-join :
    (r : ℕ) (d : ChunkedDecoder) (more : Bytes)
    → length d.buffer < r
    → next_data r (extend d more) ≡ next_data (r - length d.buffer) (extend (next_data r d) more)
next_data-join r d more short = decoder_eq _ _ buffers totals phases
  where
    left : Bytes
    left = drop (min (length d.buffer) r) d.buffer

    none_left : left ≡ []
    none_left = drop_all (min (length d.buffer) r) d.buffer (omega arith)

    joined : length (d.buffer ++ more) ≡ length d.buffer + length more
    joined = length-append d.buffer more

    alone : length (left ++ more) ≡ length more
    alone = ap (λ (l : Bytes). length (l ++ more)) none_left

    buffers :
        drop (min (length (d.buffer ++ more)) r) (d.buffer ++ more)
        ≡ drop (min (length (left ++ more)) (r - length d.buffer)) (left ++ more)
    buffers =
        drop-append_past (min (length (d.buffer ++ more)) r) d.buffer more (omega (arith, joined))
        ∙ ap (λ (k : ℕ). drop k more) (omega (arith, joined, alone))
        ∙ ap (drop (min (length (left ++ more)) (r - length d.buffer)))
            (sym (ap (λ (l : Bytes). l ++ more) none_left))

    totals :
        add64 d.total (min (length (d.buffer ++ more)) r)
        ≡ add64
            (add64 d.total (min (length d.buffer) r))
            (min (length (left ++ more)) (r - length d.buffer))
    totals = omega (arith, joined, alone)

    phases :
        (if min (length (d.buffer ++ more)) r == r
          then data_ending
          else chunk_data (r - min (length (d.buffer ++ more)) r))
        ≡ (if min (length (left ++ more)) (r - length d.buffer) == r - length d.buffer
            then data_ending
            else chunk_data
                (r - length d.buffer - min (length (left ++ more)) (r - length d.buffer)))
    phases = ground (arith, joined, alone)

never-trailers : (d d' : ChunkedDecoder) → round_trailers d ≢ again d'
unfolding round_trailers
never-trailers d d' h = ground arith

-- A round at the decoder's own phase.
pub run-at :
    (p : ChunkPhase) (d d' : ChunkedDecoder)
    → p ≡ d.phase
    → round_at p d ≡ again d'
    → run d ≡ run d'
run-at p d d' e h = run-again d d' (subst (λ q. round_at q d ≡ again d') e h)

-- All data of the chunk is there: more bytes change nothing in this round.
run-extend_whole :
    (r : ℕ) (d : ChunkedDecoder) (more : Bytes)
    → chunk_data r ≡ d.phase
    → 0 < min (length d.buffer) r
    → r ≤ length d.buffer
    → run (extend d more) ≡ run (extend (next_data r d) more)
unfolding round_at
run-extend_whole r d more e pos le =
    run-at (chunk_data r) (extend d more) (next_data r (extend d more)) e
      (round_data-again r (extend d more) (omega (arith, joined)))
    ∙ ap run (
        decoder_eq _ _
          (ap (λ (k : ℕ). drop k (d.buffer ++ more)) same
            ∙ drop-append (min (length d.buffer) r) d.buffer more (omega arith))
          (ap (add64 d.total) same)
          (ap (λ (k : ℕ). if k == r then data_ending else chunk_data (r - k)) same))
  where
    joined : length (d.buffer ++ more) ≡ length d.buffer + length more
    joined = length-append d.buffer more

    same : min (length (d.buffer ++ more)) r ≡ min (length d.buffer) r
    same = omega (arith, joined)

-- Part of the data is there: the rest of the chunk is read on from the new bytes.
run-extend_part :
    (r : ℕ) (d : ChunkedDecoder) (more : Bytes)
    → chunk_data r ≡ d.phase
    → 0 < min (length d.buffer) r
    → length d.buffer < r
    → 0 < length more
    → run (extend d more) ≡ run (extend (next_data r d) more)
unfolding round_at
run-extend_part r d more e pos lt some_more =
    run-at (chunk_data r) (extend d more) (next_data r (extend d more)) e
      (round_data-again r (extend d more) (omega (arith, length-append d.buffer more)))
    ∙ ap run (next_data-join r d more lt)
    ∙ sym (
        run-at (chunk_data (r - length d.buffer)) (extend (next_data r d) more) _ phase (
          round_data-again (r - length d.buffer) (extend (next_data r d) more)
            (omega (arith, length-append (next_data r d).buffer more))))
  where
    phase : chunk_data (r - length d.buffer) ≡ (next_data r d).phase
    phase = ground arith

extend-nil : (d : ChunkedDecoder) → extend d [] ≡ d
extend-nil d = decoder_eq _ _ (append-nil d.buffer) refl refl

-- One round, followed by the rest of the run, on a buffer that has grown.
run-extend :
    (p : ChunkPhase) (d d' : ChunkedDecoder) (more : Bytes)
    → p ≡ d.phase
    → round_at p d ≡ again d'
    → run (extend d more) ≡ run (extend d' more)
unfolding round_at
run-extend size d d' more e h =
    run-at size (extend d more) (extend d' more) e (again-extend_size d d' more h)
run-extend data_ending d d' more e h =
    run-at data_ending (extend d more) (extend d' more) e (again-extend_ending d d' more h)
run-extend trailers d d' more e h = absurd (never-trailers d d' h)
run-extend (chunk_data r) d d' [] e h =
    ap run (extend-nil d) ∙ run-at (chunk_data r) d d' e h ∙ sym (ap run (extend-nil d'))
run-extend (chunk_data r) d d' (y ∷ ys) e h =
    let (same, pos) = data-again r d d' h in
    elim (Bool-cases (leb r (length d.buffer))) [
      | inl q ↦ rw same (run-extend_whole r d (y ∷ ys) e pos (leb→le _ _ q))
      | inr q ↦ rw same (run-extend_part r d (y ∷ ys) e pos (leb_false→lt _ _ q) (omega arith))
    ]

-- What a run has come to stays true when the buffer grows.
abbrev pub Persists : ChunkedDecoder → Outcome → Type 0
Persists d (waiting d') = IsLive d → (more : Bytes) → run (extend d more) ≡ run (extend d' more)
Persists d (complete n) = (more : Bytes) → run (extend d more) ≡ complete n
Persists d _ = Unit {0}

pub run-Persists : (d : ChunkedDecoder) → Persists d (run d)
run-Persists d =
    run-ind Persists (λ x x' q h. onward x x' q (run x') h)
      (λ x x' q live more. ap (λ y. run (extend y more)) (sym (stop-same x.phase x x' refl live q)))
      (λ x n q more. run-done (extend x more) n (done-extend x.phase x more n q)) (λ x m q. tt)
      (suc (length d.buffer)) d (omega arith)
  where
    onward :
        (x x' : ChunkedDecoder)
        → round_at x.phase x ≡ again x'
        → (o : Outcome) → Persists x' o
        → Persists x o
    onward x x' q (waiting d') h = λ live more.
        run-extend x.phase x x' more refl q ∙ h (again-IsLive x.phase x x' refl live q) more
    onward x x' q (complete n) h = λ more. run-extend x.phase x x' more refl q ∙ h more
    onward x x' q (broken m) h = tt
    onward x x' q out_of_fuel h = tt
