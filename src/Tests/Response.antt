-- ===== src/Tests/Response.antt =====
-- A response in two reads.
use rload.Prelude.{◌≡◌, refl, true, false, [], ◌++◌, Bytes, codes}
use rload.Protocol.Head
use rload.Protocol.Chunked.Defs.{crlf}
use rload.Protocol.Head.{ResponseHead, by_length}
use rload.Protocol.Response
use rload.Protocol.Response.{
  ResponseDecoder, in_header, in_body, content_length, pending, feed, blank_line,
}
use rload.Protocol.Response.Split.{IsReady, feed-append}

abbrev first_read : Bytes
first_read =
    codes "HTTP/1.1 200 OK" ++ (crlf ++ (codes "Content-Length: 3" ++ (blank_line ++ codes "a")))

abbrev after_first : ResponseDecoder
after_first =
    in_body (record { status = 200; connection_close = false; framing = by_length 3 })
      (content_length 2 1)

first_waits : feed (in_header [] false) first_read false ≡ pending after_first
unfolding feed Response.with_header Response.consume_body Response.of_consumed Response.consume
    Response.body_of Head.parse_response_head Head.head_of_lines Head.closes Head.framing_of
    Head.status_of Head.headers_have_token Head.any_token Head.header_value
    rload.Text.Find.find_bytes rload.Text.Utf8.from_utf8 rload.Text.Split.split_crlf
    rload.Text.Split.split_whitespace rload.Text.Number.parse_unsigned rload.Text.Split.split_once
    rload.Text.Split.eq_ignore_ascii_case rload.Text.Split.trim
first_waits = refl

feed-append_example :
    (feed (in_header [] false) (first_read ++ codes "bc") true ≡ feed after_first (codes "bc") true)
    × IsReady after_first
feed-append_example =
    feed-append (in_header [] false) after_first first_read (codes "bc") true tt first_waits
