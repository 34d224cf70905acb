-- ===== src/Engine/Connection/Reading.antt =====
-- Reading a response, and what follows it: `read_response` to `install_next_request` of
-- src/engine/connection.rs. A read gives the bytes that came.
use rload.Prelude.{
  ℕ, zero, suc, ◌-◌, Bool, true, false, not, ◌||◌, Option, none, some, [], ◌==◌, if◌then◌else◌,
  Bytes, length, add64,
}
use rload.Error.{ErrorKind, io, unexpected_eof, Result, ok, err}
use rload.Config.{Method}
use rload.Protocol.Response.{ResponseDecoder, ParsedResponse, Fed, response, pending, feed}
use rload.Protocol.Response
use rload.Engine.Outside.{Outside, readable_writable}
use rload.Engine.Action.{◌>>=◌, ◌>>◌, pure, fail, run_dry, gets, call, call_io, modify}
use rload.Engine.Transport.{is_would_block, socket, read, new_transport, connect_from}
use rload.Engine.Connection.{
  Act, decoder_for, goes_on, write_request, register, deregister, refresh_interest,
}

pub record CompletedResponse : Type 0 where
  pub status : ℕ
  pub body_length : ℕ
  pub connection_close : Bool
  pub latency : ℕ
  pub method : Method
  pub uri_start : ℕ
  pub uri_end : ℕ
  pub request : Bytes

-- How the loop of reads is left.
pub data ReadEnd : Type 0 where
  answered : CompletedResponse → ReadEnd
  no_more : (eof : Bool) → ReadEnd

-- `option.unwrap_or(default)`
abbrev pub unwrap_or {ℓ} : {A : Type ℓ} → Option A → A → A
unwrap_or none default = default
unwrap_or (some value) default = value

module _ (out : Outside) where
  unfoldable pub completed_response : ParsedResponse → (eof : Bool) → Act out CompletedResponse
  completed_response parsed eof = do
    c ← gets (λ c. c)
    time ← call out.now
    pure (record {
      status = parsed.status;
      body_length = parsed.body_length;
      connection_close = parsed.connection_close || eof;
      latency = time - unwrap_or c.started c.connected_at;
      method = c.method;
      uri_start = c.uri_start;
      uri_end = c.uri_end;
      request = c.request;
    })

  -- The decoder's answer to what was read. After an error the decoder stays as it was before the read,
  -- where the source's has already taken the bytes that led to the error.
  unfoldable pub after_feed : (rest : Act out ReadEnd) → Fed → Act out ReadEnd
  after_feed rest (Response.failed e) = fail e
  after_feed rest (pending d) = modify (λ x. record x { decoder = d }) >> rest
  after_feed rest (response parsed) = do
    completed ← completed_response parsed false
    pure (answered completed)

  unfoldable pub after_read :
      (rest : Act out ReadEnd) → ResponseDecoder → Result ErrorKind Bytes → Act out ReadEnd
  after_read rest decoder (err e) = if is_would_block e then pure (no_more false) else fail (io e)
  after_read rest decoder (ok bytes) = if length bytes == 0 then pure (no_more true) else (do
    modify (λ x. record x { pending_read_bytes = add64 x.pending_read_bytes (length bytes) })
    after_feed rest (feed decoder bytes false))

  -- The loop of reads, at most `fuel` of them.
  unfoldable pub read_loop : (fuel : ℕ) → Act out ReadEnd
  read_loop zero = run_dry
  read_loop (suc fuel) =
      let rest = read_loop fuel in
      do c ← gets (λ c. c); r ← call (read out c.stream); after_read rest c.decoder r

  -- The last call of the decoder, with no bytes: an error at the end of the stream is one of I/O.
  unfoldable pub after_last_feed : (eof : Bool) → Fed → Act out (Option CompletedResponse)
  after_last_feed eof (Response.failed e) = if eof then fail (io unexpected_eof) else fail e
  after_last_feed eof (pending d) = modify (λ x. record x { decoder = d }) >> pure none
  after_last_feed eof (response parsed) = do
    completed ← completed_response parsed eof
    pure (some completed)

  unfoldable pub last_feed : (eof : Bool) → Act out (Option CompletedResponse)
  last_feed eof = do c ← gets (λ c. c); after_last_feed eof (feed c.decoder [] eof)

  unfoldable pub after_reads : ReadEnd → Act out (Option CompletedResponse)
  after_reads (answered completed) = pure (some completed)
  after_reads (no_more eof) = last_feed eof

  unfoldable pub read_response : (fuel : ℕ) → Act out (Option CompletedResponse)
  read_response fuel = do end ← read_loop fuel; after_reads end

  unfoldable pub take_read_bytes : Act out ℕ
  take_read_bytes = do
    c ← gets (λ c. c)
    modify (λ x. record x { pending_read_bytes = 0 })
    pure c.pending_read_bytes

  unfoldable pub install_next_request : Act out (Unit {0})
  install_next_request = do
    next ← call out.next_request
    modify (λ x. record x {
      method = next.method;
      uri_start = next.uri_start;
      uri_end = next.uri_end;
      request = next.request;
      not_before = next.not_before;
      awaiting_pace = false;
      reconnect_at_pace = false;
      decoder = decoder_for next.method;
    })

  -- A fresh connection after `Connection: close`.
  unfoldable pub reopen : (token : ℕ) → Act out (Unit {0})
  reopen token = do
    deregister out
    c ← gets (λ c. c)
    (tcp, index) ← connect_from out c.addresses 0
    stream ← new_transport out tcp c.with_tls
    modify (λ x. record x { stream = stream; address_index = index })
    time ← call out.now
    modify (λ x. record x { connected_at = time })
    register out token

  unfoldable pub keep_alive : (token : ℕ) → Act out (Unit {0})
  keep_alive token = do
    c ← gets (λ c. c)
    call_io (out.reregister (socket out c.stream) token readable_writable)
    write_request out
    refresh_interest out token

  unfoldable pub mark_done : Act out (Unit {0})
  mark_done = modify (λ x. record x { is_done = true })

  unfoldable pub finish_response : (connection_close : Bool) (token : ℕ) → Act out Bool
  finish_response connection_close token = do
    modify (λ x. record x { completed = add64 x.completed 1; recovery_attempts = 0 })
    c ← gets (λ c. c)
    continues ← goes_on out c.limit c.completed
    if not continues then (do mark_done; deregister out; pure true) else (do
      modify (λ x. record x { write_offset = 0 })
      install_next_request
      modify (λ x. record x { started = none; timer_generation = add64 x.timer_generation 1 })
      if connection_close then reopen token else keep_alive token
      pure false)
