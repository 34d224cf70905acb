-- ===== src/Config.antt =====
-- src/config.rs: the methods, the run's configuration and its validation. A duration is a number of
-- nanoseconds.
use rload.Prelude.{ℕ, ◌*◌, Bytes, codes, List, [], ◌∷◌, ◌==◌, ltb}
use rload.Error.{RunError, text, invalid_config, Result, ◌>>◌, refuse_if}

pub data Method : Type 0 where
  get head post put patch delete options : Method

-- The bytes of the method's name.
unfoldable pub as_str : Method → Bytes
as_str get = codes "GET"
as_str head = codes "HEAD"
as_str post = codes "POST"
as_str put = codes "PUT"
as_str patch = codes "PATCH"
as_str delete = codes "DELETE"
as_str options = codes "OPTIONS"

-- `self as usize`
unfoldable pub index : Method → ℕ
index get = 0
index head = 1
index post = 2
index put = 3
index patch = 4
index delete = 5
index options = 6

abbrev pub all_methods : List Method
all_methods = get ∷ head ∷ post ∷ put ∷ patch ∷ delete ∷ options ∷ []

pub data RunLimit : Type 0 where
  requests : ℕ → RunLimit
  duration : ℕ → RunLimit

pub record RunConfig : Type 0 where
  pub url : Bytes
  pub method : Method
  pub limit : RunLimit
  pub connections : ℕ
  pub threads : ℕ
  pub timeout : ℕ

-- `Duration::from_secs(seconds)` in nanoseconds
abbrev pub from_secs : ℕ → ℕ
from_secs seconds = seconds * 1_000_000_000

unfoldable pub validate_limit : RunLimit → Result RunError (Unit {0})
validate_limit (requests count) =
    refuse_if (count == 0) (invalid_config (text "requests must be greater than zero"))
validate_limit (duration nanos) =
    refuse_if (nanos == 0) (invalid_config (text "duration must be greater than zero"))

unfoldable pub validate : RunConfig → Result RunError (Unit {0})
unfolding validate_limit
validate c = do
  refuse_if (c.connections == 0) (invalid_config (text "connections must be greater than zero"))
  refuse_if (c.threads == 0) (invalid_config (text "threads must be greater than zero"))
  refuse_if (ltb (from_secs (60 * 60)) c.timeout)
      (invalid_config (text "timeout must not exceed one hour"))
  validate_limit c.limit

pub data ReplayOrder : Type 0 where
  sequential shuffle random : ReplayOrder

pub record ReplayStage : Type 0 where
  pub duration : ℕ
  pub rate : ℕ

pub record ReplayFilter : Type 0 where
  pub allowed_methods : List Method
  pub allowed_uris : List Bytes
