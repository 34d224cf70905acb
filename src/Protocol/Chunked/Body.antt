-- ===== src/Protocol/Chunked/Body.antt =====
-- Well-formed chunked bodies, and that the decoder finds their length.
use rload.Prelude.{
  ℕ, suc, ◌+◌, ◌≤◌, ◌<◌, min, ◌≡◌, refl, ap, ◌∙◌, Bool, true, false, inl, inr, List, [], ◌∷◌, ◌≢◌,
  All, ◌++◌, arith, ◌==◌, if◌then◌else◌, Bytes, length, take, drop, length-append, bytes_eq,
  u64_mod,
}
use native.Mathlib.Nat.{add-zero, zero-add}
use rload.Protocol.Chunked.Defs.{
  ChunkedDecoder, size, chunk_data, data_ending, trailers, complete, run, after_loop, feed,
  new_chunked, round_at, round_size, round_ending, round_trailers, crlf, max_header_bytes, again,
  done,
}
use rload.Protocol.Chunked.Grammar.{
  IsSizeLine, section_of, chunk_size-IsSizeLine, find_bytes-IsSizeLine, section-found,
}
use rload.Protocol.Chunked.Run.{run-done}
use rload.Protocol.Chunked.Stream.{run-at, round_data-again, next_data, decoder_eq}

-- A line of the trailers.
abbrev pub IsField : Bytes → Type 0
IsField l = (l ≢ []) × All (λ b. b ≢ 13) l

-- Chunks up to an empty one, and the trailers, with the number of data bytes.
pub data IsBody : Bytes → ℕ → Type 0 where
  last :
      {bytes : Bytes} {n : ℕ} (line : Bytes)
      → IsSizeLine line 0
      → (fields : List Bytes) → All IsField fields
      → length (section_of fields) ≤ max_header_bytes
      → bytes ≡ line ++ (crlf ++ section_of fields)
      → n ≡ 0
      → IsBody bytes n
  chunk :
      {bytes : Bytes} {n : ℕ} (line chunk_bytes rest : Bytes) (m : ℕ)
      → IsSizeLine line (length chunk_bytes)
      → 0 < length chunk_bytes
      → IsBody rest m
      → bytes ≡ line ++ (crlf ++ (chunk_bytes ++ (crlf ++ rest)))
      → n ≡ length chunk_bytes + m
      → IsBody bytes n

take_left : (xs ys : Bytes) → take (length xs) (xs ++ ys) ≡ xs
take_left [] ys = refl
take_left (x ∷ xs) ys = ap (◌∷◌ x) (take_left xs ys)

drop_left : (xs ys : Bytes) (k : ℕ) → drop (length xs + k) (xs ++ ys) ≡ drop k ys
drop_left [] ys k = let e : 0 + k ≡ k = omega arith in rw e refl
drop_left (x ∷ xs) ys k =
    let e : suc (length xs) + k ≡ suc (length xs + k) = omega arith in rw e (drop_left xs ys k)

-- The size line is read off.
size_round :
    (line rest : Bytes) (n t : ℕ)
    → IsSizeLine line n
    → round_size (record { buffer = line ++ (crlf ++ rest); phase = size; total = t })
      ≡ again
          (record { buffer = rest; phase = if n == 0 then trailers else chunk_data n; total = t })
unfolding round_size
size_round line rest n t h = ground (
  arith,
  find_bytes-IsSizeLine line rest n h,
  chunk_size-IsSizeLine line n h,
  h.short,
  take_left line (crlf ++ rest),
  drop_left line (crlf ++ rest) 2,
)

ending_round :
    (rest : Bytes) (t : ℕ)
    → round_ending (record { buffer = crlf ++ rest; phase = data_ending; total = t })
      ≡ again (record { buffer = rest; phase = size; total = t })
unfolding round_ending bytes_eq
ending_round rest t = ground arith

trailers_round :
    (fields : List Bytes) (t : ℕ)
    → length (section_of fields) ≤ max_header_bytes
    → round_trailers (record { buffer = section_of fields; phase = trailers; total = t }) ≡ done t
unfolding round_trailers
trailers_round fields t small = elim (section-found fields) [
  | inl e ↦ ground arith
  | inr (end, e, fits) ↦ ground arith
]

abbrev at_data : Bytes → Bytes → ℕ → ChunkedDecoder
at_data chunk_bytes rest t = record {
  buffer = chunk_bytes ++ (crlf ++ rest);
  phase = chunk_data (length chunk_bytes);
  total = t;
}

-- The data of a chunk is read off.
data_read :
    (chunk_bytes rest : Bytes) (t : ℕ)
    → t + length chunk_bytes < u64_mod
    → next_data (length chunk_bytes) (at_data chunk_bytes rest t)
      ≡ record { buffer = crlf ++ rest; phase = data_ending; total = t + length chunk_bytes }
data_read chunk_bytes rest t small =
    decoder_eq _ _ (rw whole (rw add-zero at (drop_left chunk_bytes (crlf ++ rest) 0)))
      (omega (arith, whole)) (rw whole (ground arith))
  where
    whole : min (length (chunk_bytes ++ (crlf ++ rest))) (length chunk_bytes) ≡ length chunk_bytes
    whole = omega (arith, length-append chunk_bytes (crlf ++ rest))

-- A well-formed body is decoded whole, and its data bytes are counted.
run-IsBody :
    (bytes : Bytes) (n t : ℕ)
    → IsBody bytes n
    → t + n < u64_mod
    → run (record { buffer = bytes; phase = size; total = t }) ≡ complete (t + n)
unfolding round_at
run-IsBody bytes n t (last line h fields f fits e z) small =
    ap (λ b. run (record { buffer = b; phase = size; total = t })) e
    ∙ run-at size _ _ refl (size_round line (section_of fields) 0 t h)
    ∙ run-done _ t (trailers_round fields t fits)
    ∙ ap complete (omega (arith, z))
run-IsBody bytes n t (chunk line chunk_bytes rest m h pos b e z) small =
    ap (λ x. run (record { buffer = x; phase = size; total = t })) e
    ∙ run-at size _ _ refl
        (size_round line (chunk_bytes ++ (crlf ++ rest)) (length chunk_bytes) t h)
    ∙ ap run (decoder_eq _ (at_data chunk_bytes rest t) refl refl (ground arith))
    ∙ run-at (chunk_data (length chunk_bytes)) _ _ refl (
        round_data-again (length chunk_bytes) (at_data chunk_bytes rest t)
          (omega (arith, length-append chunk_bytes (crlf ++ rest))))
    ∙ ap run (data_read chunk_bytes rest t (omega (arith, z)))
    ∙ run-at data_ending _ _ refl (ending_round rest (t + length chunk_bytes))
    ∙ run-IsBody rest m (t + length chunk_bytes) b (omega (arith, z))
    ∙ ap complete (omega (arith, z))

-- On a well-formed chunked body of n < 2^64 data bytes, read at once, a new decoder answers n, at
-- the end of the stream or before it. A well-formed body is a sequence of chunks up to an empty
-- one, and a trailer section. A chunk is a size line, the data and a line end; a size line, of at
-- most 64 KiB, is the size in hexadecimal digits of either case, at least one, and perhaps a
-- semicolon and further ASCII without a carriage return. A trailer section, of at most 64 KiB, is
-- non-empty lines without a carriage return, and an empty one.
pub feed-IsBody :
    (bytes : Bytes) (n : ℕ) (eof : Bool)
    → IsBody bytes n
    → n < u64_mod
    → feed new_chunked bytes eof ≡ complete n
unfolding feed after_loop new_chunked
feed-IsBody bytes n eof b small =
    rw (run-IsBody bytes n 0 b (omega arith), zero-add, after_loop) (both eof)
  where
    both : (end : Bool) → after_loop end (complete n) ≡ complete n
    both true = refl
    both false = refl
