-- ===== src/Request.antt =====
-- `ReplayRequest` of src/access_log.rs: one entry of a replay, with its optional payload.
use rload.Prelude.{
  Bytes, Bool, false, ◌||◌, not, Option, none, some, List, [], is_empty, if◌then◌else◌,
}
use rload.Prelude.Int.{ℤ}
use rload.Config.{Method}

pub record ReplayPayload : Type 0 where
  pub headers : List (Bytes × Bytes)
  pub body : Bytes
  pub body_present : Bool

pub record ReplayRequest : Type 0 where
  pub method : Method
  pub path : Bytes
  pub payload : Option ReplayPayload
  pub timestamp_micros : Option ℤ

unfoldable pub new_request :
    Method → Bytes → List (Bytes × Bytes) → Bytes → Bool → Option ℤ → ReplayRequest
new_request method path headers body body_present timestamp_micros = record {
  method = method;
  path = path;
  payload =
      if not (is_empty headers) || not (is_empty body) || body_present
      then some (record { headers = headers; body = body; body_present = body_present })
      else none;
  timestamp_micros = timestamp_micros;
}

unfoldable pub headers : ReplayRequest → List (Bytes × Bytes)
headers r = elim r.payload [ none ↦ [] | some payload ↦ payload.headers ]

unfoldable pub body : ReplayRequest → Bytes
body r = elim r.payload [ none ↦ [] | some payload ↦ payload.body ]

unfoldable pub body_present : ReplayRequest → Bool
body_present r = elim r.payload [ none ↦ false | some payload ↦ payload.body_present ]
