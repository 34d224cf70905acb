-- ===== src/Engine/Outside.antt =====
-- What a connection uses of the operating system, of mio, of rustls and of the shared sequence of
-- requests: operations on an outside world, of which nothing is assumed here.
use rload.Prelude.{ℕ, Bool, Option, Bytes}
use rload.Error.{ErrorKind, Result}
use rload.Config.{Method}

-- `mio::Interest`
pub data Interest : Type 0 where
  readable : Interest
  readable_writable : Interest

-- What `RequestSequence::next` gives: method, bytes, the range of the URI, and the pacer's instant.
pub record NextRequest : Type 0 where
  pub method : Method
  pub request : Bytes
  pub uri_start : ℕ
  pub uri_end : ℕ
  pub not_before : Option ℕ

pub record Outside : Type 1 where
  pub World : Type 0
  pub Address : Type 0
  -- `TcpStream`
  pub Socket : Type 0
  -- `rustls::ClientConnection`
  pub Session : Type 0
  -- `Instant::now()`, in nanoseconds
  pub now : World → ℕ × World
  pub sleep : World → World
  pub tcp_connect : Address → World → Result ErrorKind Socket × World
  pub tcp_read : Socket → World → Result ErrorKind Bytes × World
  pub tcp_write : Socket → Bytes → World → Result ErrorKind ℕ × World
  pub take_error : Socket → World → Result ErrorKind (Option ErrorKind) × World
  pub register : Socket → (token : ℕ) → Interest → World → Result ErrorKind (Unit {0}) × World
  pub reregister : Socket → (token : ℕ) → Interest → World → Result ErrorKind (Unit {0}) × World
  pub deregister : Socket → World → Result ErrorKind (Unit {0}) × World
  -- `ClientConnection::new` with the parameters of the target
  pub new_session : World → Option Session × World
  pub is_handshaking : Session → World → Bool
  pub wants_write : Session → World → Bool
  pub complete_io : Session → Socket → World → Result ErrorKind (Unit {0}) × World
  pub tls_read : Session → Socket → World → Result ErrorKind Bytes × World
  pub tls_write : Session → Socket → Bytes → World → Result ErrorKind ℕ × World
  pub next_request : World → NextRequest × World
