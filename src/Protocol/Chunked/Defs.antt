-- ===== src/Protocol/Chunked/Defs.antt =====
-- `ChunkedDecoder` of src/protocol/response.rs.
use rload.Prelude.{
  add64, ℕ, zero, suc, ◌+◌, ◌-◌, ◌*◌, min, Bool, true, false, Option, none, some, [], ◌∷◌, ◌++◌,
  ltb, ◌==◌, if◌then◌else◌, Bytes, length, take, drop, bytes_eq,
}
use rload.Error.{Message, text}
use rload.Text.Utf8.{from_utf8}
use rload.Text.Split.{split, starts_with}
use rload.Text.Number.{parse_usize_hex}
use rload.Text.Find.{find_bytes}

abbrev pub max_header_bytes : ℕ
max_header_bytes = 64 * 1024

abbrev pub crlf : Bytes
crlf = 13 ∷ 10 ∷ []

pub data ChunkPhase : Type 0 where
  size : ChunkPhase
  chunk_data : ℕ → ChunkPhase
  data_ending : ChunkPhase
  trailers : ChunkPhase

pub record ChunkedDecoder : Type 0 where
  pub buffer : Bytes
  pub phase : ChunkPhase
  pub total : ℕ

unfoldable pub new_chunked : ChunkedDecoder
new_chunked = record { buffer = []; phase = size; total = 0 }

-- One round of the loop: another round, `break`, `return Ok(Some(total))`, or an error.
pub data Round : Type 0 where
  again : ChunkedDecoder → Round
  stop : ChunkedDecoder → Round
  done : ℕ → Round
  fail : Message → Round

abbrev pub control_too_long : Message
control_too_long = text "chunk control data exceed 64 KiB"

abbrev pub size_invalid : Message
size_invalid = text "chunk size is invalid"

-- `check_control_size()?; break`
abbrev pub check_control_size : ChunkedDecoder → Round
check_control_size d =
    if ltb max_header_bytes (length d.buffer) then fail control_too_long else stop d

-- The size before the first `;`, in hexadecimal.
unfoldable pub chunk_size : Bytes → Option ℕ
chunk_size line = elim (from_utf8 line) [
  | none ↦ none
  | some chars ↦ elim (split b';' chars) [ [] ↦ none | value ∷ _ ↦ parse_usize_hex value ]
]

unfoldable pub round_size : ChunkedDecoder → Round
round_size d = elim (find_bytes crlf d.buffer) [
  | none ↦ check_control_size d
  | some end ↦
      if ltb max_header_bytes end
      then fail control_too_long
      else elim (chunk_size (take end d.buffer)) [
        | none ↦ fail size_invalid
        | some n ↦ again (record d {
          buffer = drop (end + 2) d.buffer;
          phase = if n == 0 then trailers else chunk_data n;
        })
      ]
]

unfoldable pub round_data : ℕ → ChunkedDecoder → Round
round_data remaining d =
    let consumed = min (length d.buffer) remaining in
    let next : ChunkedDecoder = record d {
      buffer = drop consumed d.buffer;
      total = add64 d.total consumed;
      phase = if consumed == remaining then data_ending else chunk_data (remaining - consumed);
    } in
    if consumed == 0 then stop next else again next

unfoldable pub round_ending : ChunkedDecoder → Round
round_ending d =
    if ltb (length d.buffer) 2
    then stop d
    else if bytes_eq (take 2 d.buffer) crlf
    then again (record d { buffer = drop 2 d.buffer; phase = size })
    else fail (text "chunk is not CRLF terminated")

unfoldable pub round_trailers : ChunkedDecoder → Round
round_trailers d =
    if starts_with crlf d.buffer
    then done d.total
    else elim (find_bytes (13 ∷ 10 ∷ 13 ∷ 10 ∷ []) d.buffer) [
      | some end ↦ if ltb max_header_bytes end then fail control_too_long else done d.total
      | none ↦ check_control_size d
    ]

unfoldable pub round_at : ChunkPhase → ChunkedDecoder → Round
round_at size d = round_size d
round_at (chunk_data remaining) d = round_data remaining d
round_at data_ending d = round_ending d
round_at trailers d = round_trailers d

-- What the loop ends with: the decoder as it waits, the body's length, or an error.
pub data Outcome : Type 0 where
  waiting : ChunkedDecoder → Outcome
  complete : ℕ → Outcome
  broken : Message → Outcome
  out_of_fuel : Outcome

unfoldable pub loop : ℕ → ChunkedDecoder → Outcome
loop zero d = out_of_fuel
loop (suc fuel) d = elim (round_at d.phase d) [
  | again d' ↦ loop fuel d'
  | stop d' ↦ waiting d'
  | done n ↦ complete n
  | fail m ↦ broken m
]

-- Each round but the last takes a byte from the buffer.
unfoldable pub run : ChunkedDecoder → Outcome
run d = loop (suc (length d.buffer)) d

-- `if eof { Err(...) } else { Ok(None) }` after the loop.
unfoldable pub after_loop : Bool → Outcome → Outcome
after_loop true (waiting d) = broken (text "chunked response body is incomplete")
after_loop false (waiting d) = waiting d
after_loop eof (complete n) = complete n
after_loop eof (broken m) = broken m
after_loop eof out_of_fuel = out_of_fuel

unfoldable pub feed : ChunkedDecoder → Bytes → Bool → Outcome
unfolding after_loop
feed d bytes eof = after_loop eof (run (record d { buffer = d.buffer ++ bytes }))
