-- ===== src/Engine/Transport.antt =====
-- `Transport` and `connect_from` of src/engine/connection.rs.
pub mod First
use rload.Prelude.{
  ℕ, ◌+◌, Bool, true, false, not, ◌&&◌, ◌||◌, none, some, List, [], ◌∷◌, if◌then◌else◌, Bytes, drop,
}
use rload.Error.{ErrorKind, io, tls, not_found, would_block, invalid_data, Result, ok, err}
use rload.Engine.Outside.{Outside, Interest, readable, readable_writable}
use rload.Engine.Action.{Action, ◌>>=◌, pure, fail, sees, call}

-- `error.kind() == ErrorKind::WouldBlock`
unfoldable pub is_would_block : ErrorKind → Bool
is_would_block would_block = true
is_would_block _ = false

unfoldable pub is_invalid_data : ErrorKind → Bool
is_invalid_data invalid_data = true
is_invalid_data _ = false

pub data Transport (out : Outside) : Type 0 where
  plain : out.Socket → Transport out
  over_tls : out.Session → out.Socket → Transport out

module _ (out : Outside) where
  unfoldable pub socket : Transport out → out.Socket
  socket (plain stream) = stream
  socket (over_tls session stream) = stream

  unfoldable pub is_tls_handshaking : Transport out → out.World → Bool
  is_tls_handshaking (plain stream) w = false
  is_tls_handshaking (over_tls session stream) w = out.is_handshaking session w

  unfoldable pub interest :
      Transport out → (request_written request_ready : Bool) → out.World → Interest
  interest (plain stream) request_written request_ready w =
      if request_written
      then readable
      else if not request_ready
      then readable
      else readable_writable
  interest (over_tls session stream) request_written request_ready w =
      if out.wants_write session w
        || (not (out.is_handshaking session w) && not request_written && request_ready)
      then readable_writable
      else readable

  unfoldable pub read : Transport out → out.World → Result ErrorKind Bytes × out.World
  read (plain stream) w = out.tcp_read stream w
  read (over_tls session stream) w = out.tls_read session stream w

  unfoldable pub write : Transport out → Bytes → out.World → Result ErrorKind ℕ × out.World
  write (plain stream) bytes w = out.tcp_write stream bytes w
  write (over_tls session stream) bytes w = out.tls_write session stream bytes w

  module _ {S : Type 0} where
    -- `Transport::new`; the flag is the presence of TLS parameters.
    unfoldable pub new_transport :
        out.Socket → (with_tls : Bool) → Action S out.World (Transport out)
    new_transport stream false = pure (plain stream)
    new_transport stream true = do
      session ← call out.new_session
      elim session [ none ↦ fail tls | some s ↦ pure (over_tls s stream) ]

    -- The end of `finish_handshake`, after `complete_io`.
    unfoldable pub after_handshake :
        out.Session → Result ErrorKind (Unit {0}) → Action S out.World Bool
    after_handshake session (ok u) = sees (λ w. not (out.is_handshaking session w))
    after_handshake session (err e) =
        if is_would_block e
        then sees (λ w. not (out.is_handshaking session w))
        else if is_invalid_data e
        then fail tls
        else fail (io e)

    unfoldable pub finish_handshake : Transport out → Action S out.World Bool
    finish_handshake (plain stream) = pure true
    finish_handshake (over_tls session stream) = do
      handshaking ← sees (out.is_handshaking session)
      if not handshaking
          then pure true
          else (do r ← call (out.complete_io session stream); after_handshake session r)

    unfoldable pub after_flush : Result ErrorKind (Unit {0}) → Action S out.World (Unit {0})
    after_flush (ok u) = pure tt
    after_flush (err e) = if is_would_block e then pure tt else fail (io e)

    unfoldable pub flush_tls : Transport out → Action S out.World (Unit {0})
    flush_tls (plain stream) = pure tt
    flush_tls (over_tls session stream) = do
      wants ← sees (out.wants_write session)
      if not wants then pure tt else (do r ← call (out.complete_io session stream); after_flush r)

    -- The loop over the addresses, from `index` on; `last_error` is the last failure.
    unfoldable pub connect_each :
        (last_error : ErrorKind) (index : ℕ)
        → List out.Address
        → Action S out.World (out.Socket × ℕ)
    connect_each last_error index [] = fail (io last_error)
    connect_each last_error index (address ∷ addresses) = do
      r ← call (out.tcp_connect address)
      elim r [ ok stream ↦ pure (stream, index) | err e ↦ connect_each e (index + 1) addresses ]

    unfoldable pub connect_from :
        List out.Address → (start : ℕ) → Action S out.World (out.Socket × ℕ)
    connect_from addresses start = connect_each not_found start (drop start addresses)
