-- ===== src/Protocol/Response/Split.antt =====
-- A response that comes in several reads is decoded as if it came in one.
use rload.Prelude.{
  ℕ, ◌+◌, ◌-◌, ◌≤◌, ◌<◌, min, ◌≡◌, refl, sym, ap, ◌∙◌, subst, ◌⊎◌, inl, inr, Bool, true, false,
  none, some, [], ◌++◌, append_assoc, arith, ltb, ◌==◌, Bool-cases, Option-cases, Bytes, length,
  take, drop, length-append, take-append, drop-append, u64_mod, add64,
}
use rload.Error.{RunError, Message, Result, ok, err}
use rload.Text.Find.{find_bytes, find_bytes-append, find_bytes-length}
use rload.Protocol.Chunked.Defs.{
  ChunkedDecoder, new_chunked, Outcome, waiting, complete, broken, out_of_fuel, run, after_loop,
  max_header_bytes,
}
use rload.Protocol.Chunked.Defs
use rload.Protocol.Chunked.Run.{IsLive}
use rload.Protocol.Chunked.Reads.{feed-waiting_end, feed-IsLive, Outcome-cases}
use rload.Protocol.Head.{
  ResponseHead, BodyFraming, by_length, by_chunks, by_close, parse_response_head,
}
use rload.Protocol.Response.{
  BodyDecoder, content_length, chunked, close_delimited, Consumed, more, all_read, bad, of_outcome,
  consume, ResponseDecoder, in_header, in_body, pending, of_consumed, consume_body, body_of,
  with_header, without_header, feed, blank_line,
}

-- The chunk under way, if any, has bytes to come.
abbrev pub IsReadyBody : BodyDecoder → Type 0
IsReadyBody (content_length remaining total) = Unit {0}
IsReadyBody (chunked d) = IsLive d
IsReadyBody (close_delimited total) = total < u64_mod

abbrev pub IsReady : ResponseDecoder → Type 0
IsReady (in_header header no_body) = Unit {0}
IsReady (in_body h b) = IsReadyBody b

body_of-IsReadyBody :
    (no_body : Bool) (framing : BodyFraming) → IsReadyBody (body_of no_body framing)
unfolding body_of new_chunked
body_of-IsReadyBody true framing = tt
body_of-IsReadyBody false (by_length n) = tt
body_of-IsReadyBody false by_chunks = record { positive = λ e. cc; small = ground arith }
body_of-IsReadyBody false by_close = omega arith

more_injective : (x y : BodyDecoder) → more x ≡ more y → x ≡ y
more_injective x y h = cc

module _ (d d' : BodyDecoder) (a b : Bytes) (eof : Bool) where
  -- The longer read is what `x` makes of the rest.
  abbrev Continues : BodyDecoder → Type 0
  Continues x = (consume d (a ++ b) eof ≡ consume x b eof) × IsReadyBody x

consume-more :
    (d d' : BodyDecoder) (a b : Bytes) (eof : Bool)
    → IsReadyBody d
    → consume d a false ≡ more d'
    → (consume d (a ++ b) eof ≡ consume d' b eof) × IsReadyBody d'
unfolding consume of_outcome
consume-more (content_length r t) d' a b eof ready h =
    elim (Bool-cases (r - min (length a) r == 0)) [
      | inl k ↦ cc (rw k at h)
      | inr k ↦
          subst (Continues (content_length r t) d' a b eof) (more_injective _ d' (rw k at h))
            (rw (left, read) refl, tt)
    ]
  where
    left :
        r - min (length (a ++ b)) r ≡ r - min (length a) r - min (length b) (r - min (length a) r)
    left = omega (arith, length-append a b)

    read :
        t + min (length (a ++ b)) r ≡ t + min (length a) r + min (length b) (r - min (length a) r)
    read = omega (arith, length-append a b)
consume-more (chunked c) d' a b eof ready h = elim (Outcome-cases (Defs.feed c a false)) [
  | inl (x, q) ↦
      subst (Continues (chunked c) d' a b eof) (more_injective _ d' (rw (q, of_outcome) at h))
        (ap of_outcome (feed-waiting_end c x a b eof ready q), feed-IsLive c x a ready q)
  | inr (inl (n, q)) ↦ cc (rw (q, of_outcome) at h)
  | inr (inr (inl (m, q))) ↦ cc (rw (q, of_outcome) at h)
  | inr (inr (inr q)) ↦ cc (rw (q, of_outcome) at h)
]
consume-more (close_delimited t) d' a b eof ready h =
    subst (Continues (close_delimited t) d' a b eof) (more_injective _ d' h)
      (rw total refl, omega arith)
  where
    total : add64 t (length (a ++ b)) ≡ add64 (add64 t (length a)) (length b)
    total = omega (arith, length-append a b)

pending_injective : (x y : ResponseDecoder) → pending x ≡ pending y → x ≡ y
pending_injective x y h = cc

Consumed-cases :
    (c : Consumed)
    → ((b : BodyDecoder) × (c ≡ more b))
      ⊎ ((n : ℕ) × (c ≡ all_read n))
      ⊎ ((m : Message) × (c ≡ bad m))
Consumed-cases (more b) = inl (b, refl)
Consumed-cases (all_read n) = inr (inl (n, refl))
Consumed-cases (bad m) = inr (inr (m, refl))

consume_body-pending :
    (h : ResponseHead) (body : BodyDecoder) (d' : ResponseDecoder) (a b : Bytes) (eof : Bool)
    → IsReadyBody body
    → consume_body h body a false ≡ pending d'
    → (consume_body h body (a ++ b) eof ≡ feed d' b eof) × IsReady d'
unfolding consume_body of_consumed feed
consume_body-pending h body d' a b eof ready k = elim (Consumed-cases (consume body a false)) [
  | inl (x, q) ↦
      let (same, live) = consume-more body x a b eof ready q in
      subst (λ y. (consume_body h body (a ++ b) eof ≡ feed y b eof) × IsReady y)
        (pending_injective _ d' (rw (q, of_consumed) at k)) (ap (of_consumed h) same, live)
  | inr (inl (n, q)) ↦ cc (rw (q, of_consumed) at k)
  | inr (inr (m, q)) ↦ cc (rw (q, of_consumed) at k)
]

Result-cases :
    (r : Result RunError ResponseHead)
    → ((h : ResponseHead) × (r ≡ ok h)) ⊎ ((e : RunError) × (r ≡ err e))
Result-cases (ok h) = inl (h, refl)
Result-cases (err e) = inr (e, refl)

-- The head is there already.
with_header-pending :
    (header b : Bytes) (end : ℕ) (no_body eof : Bool) (d' : ResponseDecoder)
    → end + 4 ≤ length header
    → with_header header end no_body false ≡ pending d'
    → (with_header (header ++ b) end no_body eof ≡ feed d' b eof) × IsReady d'
unfolding with_header
with_header-pending header b end no_body eof d' long k =
    elim (Bool-cases (ltb max_header_bytes end)) [
      | inl q ↦ cc (rw q at k)
      | inr q ↦ elim (Result-cases (parse_response_head (take end header))) [
        | inl (h, p) ↦
            rw (q, take-append end header b (omega arith), p, drop-append (end + 4) header b long)
              (consume_body-pending h (body_of no_body h.framing) d' (drop (end + 4) header) b eof
                (body_of-IsReadyBody no_body h.framing) (rw (q, p) at k))
        | inr (e, p) ↦ cc (rw (q, p) at k)
      ]
    ]

-- The head is not there yet.
without_header-pending :
    (header : Bytes) (no_body : Bool) (d' : ResponseDecoder)
    → without_header header no_body false ≡ pending d'
    → in_header header no_body ≡ d'
unfolding without_header
without_header-pending header no_body d' k =
    elim (Bool-cases (ltb max_header_bytes (length header))) [
      | inl q ↦ cc (rw q at k)
      | inr q ↦ pending_injective _ d' (rw q at k)
    ]

module _ (header : Bytes) (no_body : Bool) (a : Bytes) (eof : Bool) where
  feed-none :
      find_bytes blank_line (header ++ a) ≡ none
      → feed (in_header header no_body) a eof ≡ without_header (header ++ a) no_body eof
  unfolding feed
  feed-none q = rw (q, feed) refl

  feed-some :
      (end : ℕ)
      → find_bytes blank_line (header ++ a) ≡ some end
      → feed (in_header header no_body) a eof ≡ with_header (header ++ a) end no_body eof
  unfolding feed
  feed-some end q = rw (q, feed) refl

feed-moved :
    (header : Bytes) (no_body : Bool) (a b : Bytes) (eof : Bool)
    → feed (in_header header no_body) (a ++ b) eof ≡ feed (in_header (header ++ a) no_body) b eof
unfolding feed
feed-moved header no_body a b eof =
    ap (λ l. feed (in_header [] no_body) l eof) (sym (append_assoc header a b))

-- Where a ready response decoder (any new one is) is left waiting by some bytes, further bytes,
-- the last of the stream or not, are answered as if both had come in one read, and the decoder is
-- ready again.
pub feed-append :
    (d d' : ResponseDecoder) (a b : Bytes) (eof : Bool)
    → IsReady d
    → feed d a false ≡ pending d'
    → (feed d (a ++ b) eof ≡ feed d' b eof) × IsReady d'
unfolding feed
feed-append (in_body h body) d' a b eof ready k = consume_body-pending h body d' a b eof ready k
feed-append (in_header header no_body) d' a b eof ready k =
    elim (Option-cases (find_bytes blank_line (header ++ a))) [
      | inl q ↦
          subst (λ y. (feed (in_header header no_body) (a ++ b) eof ≡ feed y b eof) × IsReady y)
            (without_header-pending (header ++ a) no_body d'
              (sym (feed-none header no_body a false q) ∙ k))
            (feed-moved header no_body a b eof, tt)
      | inr (end, q) ↦
          let (same, live) =
            with_header-pending (header ++ a) b end no_body eof d'
              (find_bytes-length blank_line (header ++ a) end q)
              (sym (feed-some header no_body a false end q) ∙ k) in
          (
            feed-moved header no_body a b eof
                ∙ feed-some (header ++ a) no_body b eof end
                    (find_bytes-append blank_line (header ++ a) b end q)
                ∙ same,
            live,
          )
    ]
