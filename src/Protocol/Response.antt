-- ===== src/Protocol/Response.antt =====
-- `ResponseDecoder` and `BodyDecoder` of src/protocol/response.rs.
pub mod Split
use rload.Prelude.{
  ℕ, ◌+◌, ◌-◌, min, Bool, true, false, none, some, [], ◌∷◌, ◌++◌, ltb, ◌==◌, if◌then◌else◌, Bytes,
  length, take, drop, add64,
}
use rload.Error.{RunError, Message, text, invalid_response, ok, err}
use rload.Text.Find.{find_bytes}
use rload.Protocol.Chunked.Defs.{
  ChunkedDecoder, new_chunked, Outcome, waiting, complete, broken, out_of_fuel, max_header_bytes,
}
use rload.Protocol.Chunked.Defs
use rload.Protocol.Head.{
  ResponseHead, BodyFraming, by_length, by_chunks, by_close, parse_response_head,
}

pub record ParsedResponse : Type 0 where
  pub status : ℕ
  pub body_length : ℕ
  pub connection_close : Bool

-- `Waiting` is not a value of its own here: a body exists only once there is a head.
pub data BodyDecoder : Type 0 where
  content_length : (remaining total : ℕ) → BodyDecoder
  chunked : ChunkedDecoder → BodyDecoder
  close_delimited : (total : ℕ) → BodyDecoder

-- What `consume` returns; the decoder matters only as long as the body is not complete.
pub data Consumed : Type 0 where
  more : BodyDecoder → Consumed
  all_read : ℕ → Consumed
  bad : Message → Consumed

unfoldable pub of_outcome : Outcome → Consumed
of_outcome (waiting d) = more (chunked d)
of_outcome (complete n) = all_read n
of_outcome (broken m) = bad m
of_outcome out_of_fuel = bad (text "out of fuel")

unfoldable pub consume : BodyDecoder → Bytes → Bool → Consumed
consume (content_length remaining total) bytes eof =
    let consumed = min (length bytes) remaining in
    if remaining - consumed == 0
    then all_read (total + consumed)
    else if eof
    then bad (text "response body is incomplete")
    else more (content_length (remaining - consumed) (total + consumed))
consume (chunked d) bytes eof = of_outcome (Defs.feed d bytes eof)
consume (close_delimited total) bytes eof =
    if eof
    then all_read (add64 total (length bytes))
    else more (close_delimited (add64 total (length bytes)))

-- The decoder before and after the end of the header.
pub data ResponseDecoder : Type 0 where
  in_header : (header : Bytes) (no_body : Bool) → ResponseDecoder
  in_body : ResponseHead → BodyDecoder → ResponseDecoder

unfoldable pub new_decoder : Bool → ResponseDecoder
new_decoder no_body = in_header [] no_body

-- What `feed` returns: a response, the decoder that waits for more, or an error.
pub data Fed : Type 0 where
  response : ParsedResponse → Fed
  pending : ResponseDecoder → Fed
  failed : RunError → Fed

unfoldable pub of_consumed : ResponseHead → Consumed → Fed
of_consumed h (more b) = pending (in_body h b)
of_consumed h (all_read n) =
    response (record { status = h.status; body_length = n; connection_close = h.connection_close })
of_consumed h (bad m) = failed (invalid_response m)

-- `consume_body`
unfoldable pub consume_body : ResponseHead → BodyDecoder → Bytes → Bool → Fed
consume_body h b bytes eof = of_consumed h (consume b bytes eof)

unfoldable pub body_of : Bool → BodyFraming → BodyDecoder
body_of true framing = content_length 0 0
body_of false (by_length n) = content_length n 0
body_of false by_chunks = chunked new_chunked
body_of false by_close = close_delimited 0

abbrev pub blank_line : Bytes
blank_line = 13 ∷ 10 ∷ 13 ∷ 10 ∷ []

abbrev pub headers_too_long : RunError
headers_too_long = invalid_response (text "response headers exceed 64 KiB")

-- The end of the header is there.
unfoldable pub with_header : Bytes → ℕ → Bool → Bool → Fed
with_header header end no_body eof =
    if ltb max_header_bytes end
    then failed headers_too_long
    else elim (parse_response_head (take end header)) [
      | err e ↦ failed e
      | ok h ↦ consume_body h (body_of no_body h.framing) (drop (end + 4) header) eof
    ]

-- The end of the header is not there yet.
unfoldable pub without_header : Bytes → Bool → Bool → Fed
without_header header no_body eof =
    if ltb max_header_bytes (length header)
    then failed headers_too_long
    else if eof
    then failed (invalid_response (text "headers are incomplete"))
    else pending (in_header header no_body)

unfoldable pub feed : ResponseDecoder → Bytes → Bool → Fed
feed (in_body h b) bytes eof = consume_body h b bytes eof
feed (in_header header no_body) bytes eof = elim (find_bytes blank_line (header ++ bytes)) [
  | none ↦ without_header (header ++ bytes) no_body eof
  | some end ↦ with_header (header ++ bytes) end no_body eof
]
