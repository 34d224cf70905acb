-- ===== src/Tests/Chunked.antt =====
-- Chunked bodies, on a short body.
use rload.Prelude.{
  List, inl, inr, ℕ, zero, suc, ◌≡◌, refl, ◌≢◌, false, some, [], ◌∷◌, ◌++◌, arith, Bytes, codes,
  length,
}
use rload.Protocol.Chunked.Defs.{
  ChunkedDecoder, new_chunked, chunk_size, crlf, run, feed, Outcome, waiting, complete, out_of_fuel,
}
use rload.Protocol.Chunked.Defs
use rload.Text.Find.{find_bytes}
use rload.Protocol.Chunked.Run.{IsLive, run-total}
use rload.Protocol.Chunked.Reads.{feed_all, joined, IsSound, feed_all-joined}
use rload.Protocol.Chunked.Grammar.{IsSizeLine, digit, ended, section_of}
use rload.Protocol.Chunked.Body.{IsBody, last, chunk, feed-IsBody}

-- A chunk of ten bytes, with an extension, and a line of trailers.
abbrev ten_line : Bytes
ten_line = codes "0A;x=1"

abbrev zero_line : Bytes
zero_line = codes "0"

abbrev ten_bytes : Bytes
ten_bytes = codes "abcdefghij"

abbrev fields : List Bytes
fields = codes "X: y" ∷ []

abbrev body : Bytes
body = ten_line ++ (crlf ++ (ten_bytes ++ (crlf ++ (zero_line ++ (crlf ++ section_of fields)))))

ten-IsSizeLine : IsSizeLine ten_line 10
ten-IsSizeLine = record {
  digits = codes "0A";
  extension = codes ";x=1";
  line_eq = refl;
  has_digit = λ e. cc;
  numeral =
      digit b'0' 0 (inl (omega arith, refl))
        (digit b'A' 10 (inr (omega arith, omega arith, inr refl)) (ended refl));
  fits = omega arith;
  is_extension = inr (codes "x=1", refl);
  plain = ground arith;
  short = ground arith;
}

zero-IsSizeLine : IsSizeLine zero_line 0
zero-IsSizeLine = record {
  digits = codes "0";
  extension = [];
  line_eq = refl;
  has_digit = λ e. cc;
  numeral = digit b'0' 0 (inl (omega arith, refl)) (ended refl);
  fits = omega arith;
  is_extension = inl refl;
  plain = tt;
  short = ground arith;
}

body-IsBody : IsBody body 10
unfolding section_of
body-IsBody =
    chunk ten_line ten_bytes (zero_line ++ (crlf ++ section_of fields)) 0 ten-IsSizeLine
      (ground arith) (last zero_line zero-IsSizeLine fields (ground arith) (ground arith) refl refl)
      refl refl

feed-IsBody_example : feed new_chunked body false ≡ complete 10
feed-IsBody_example = feed-IsBody body 10 false body-IsBody (ground arith)

run-total_example : run (record { buffer = body; phase = Defs.size; total = 0 }) ≢ out_of_fuel
run-total_example = run-total (record { buffer = body; phase = Defs.size; total = 0 })

new-IsLive : IsLive new_chunked
unfolding new_chunked
new-IsLive = record { positive = λ e. cc; small = ground arith }

abbrev second_read : Bytes
second_read = crlf ++ (ten_bytes ++ (crlf ++ (zero_line ++ (crlf ++ crlf))))

-- The body in two reads.
reads-IsSound : IsSound (feed_all new_chunked (codes "A" ∷ second_read ∷ []))
unfolding feed_all feed new_chunked run Defs.loop Defs.round_at Defs.round_size find_bytes
    chunk_size rload.Text.Utf8.from_utf8 rload.Text.Split.split rload.Text.Number.parse_unsigned
    Defs.round_data Defs.round_ending rload.Prelude.bytes_eq Defs.round_trailers
reads-IsSound = tt

feed_all-joined_example :
    feed new_chunked (joined (codes "A" ∷ second_read ∷ [])) false
    ≡ feed_all new_chunked (codes "A" ∷ second_read ∷ [])
feed_all-joined_example =
    feed_all-joined (second_read ∷ []) new_chunked (codes "A") new-IsLive reads-IsSound
