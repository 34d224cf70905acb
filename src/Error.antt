-- ===== src/Error.antt =====
-- src/error.rs: the errors of a run, and results with `?` as bind. A message is kept by its parts: a
-- fixed text, a text with a value printed into it, or a message under a line number. An I/O error is kept
-- by its kind, and a TLS error without its text: both texts are made outside the program.
use rload.Prelude.{ℕ, String, Bytes, Bool, true, false, Option, none, some}

pub data Message : Type 0 where
  text : String → Message
  text_with : String → Bytes → Message
  text_with_number : String → ℕ → Message
  at_line : ℕ → Message → Message

-- `std::io::ErrorKind`, as far as the program looks at it.
pub data ErrorKind : Type 0 where
  not_found would_block write_zero invalid_data unexpected_eof timed_out not_connected : ErrorKind
  other_kind : ℕ → ErrorKind

pub data RunError : Type 0 where
  invalid_url : Message → RunError
  invalid_config : Message → RunError
  invalid_access_log : Message → RunError
  invalid_request_file : Message → RunError
  io : ErrorKind → RunError
  tls : RunError
  invalid_response : Message → RunError
  worker_panic : RunError

-- `Result<A, E>`
pub data Result {ℓ} (E : Type 0) (A : Type ℓ) : Type ℓ where
  err : E → Result E A
  ok : A → Result E A

-- `option.ok_or_else(|| e)`
abbrev pub ok_or {ℓ} : {E : Type 0} {A : Type ℓ} → Option A → E → Result E A
ok_or (some a) e = ok a
ok_or none e = err e

-- `if test { return Err(e) }`
abbrev pub refuse_if : {E : Type 0} → Bool → E → Result E (Unit {0})
refuse_if true e = err e
refuse_if false e = ok tt

-- What `?` does with the value, and without one.
module _ {ℓ κ} {E : Type 0} {A : Type ℓ} {B : Type κ} where
  infixl 5 ◌>>=◌
  abbrev pub ◌>>=◌ : Result E A → (A → Result E B) → Result E B
  err failure >>= next = err failure
  ok value >>= next = next value

module _ {κ} {E : Type 0} {B : Type κ} where
  infixl 5 ◌>>◌
  abbrev pub ◌>>◌ : Result E (Unit {0}) → Result E B → Result E B
  err failure >> next = err failure
  ok done >> next = next
