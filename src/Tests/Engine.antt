-- ===== src/Tests/Engine.antt =====
-- The engine's limits and checks, on small configurations.
use rload.Prelude.{
  ℕ, ◌+◌, ◌/◌, ◌≤◌, min, ◌≡◌, refl, ◌↔◌, ◌⊎◌, true, false, none, some, List, [], ◌∷◌, arith, ◌==◌,
  codes, length, All,
}
use rload.Prelude.Int.{pos}
use rload.Error.{ok}
use rload.Config
use rload.Config.{RunConfig, get, sequential, ReplayStage, validate}
use rload.Request.{ReplayRequest}
use rload.Engine.Limits.{
  ConnectionLimit, requests, connection_limits, request_limits, worker_limits,
}
use rload.Engine.Limits.Shares.{share, total_share, request_limits-total}
use rload.Engine.Limits.Workers.{weigh, weigh_all, worker_limits-weigh, connection_limits-total}
use rload.Engine.Options.{
  ReplayOptions, validate_stages, validate_replay_options, validate_timestamps, access_log,
}
use rload.Engine.Options.Checks.{
  AreStages, validate_stages_iff, IsReplay, validate_replay_options_iff, AreTimed,
  validate_timestamps_iff,
}

abbrev ten_requests : RunConfig
ten_requests = record {
  url = codes "http://localhost/";
  method = get;
  limit = Config.requests 10;
  connections = 4;
  threads = 3;
  timeout = 1_000_000_000;
}

ten_requests-valid : validate ten_requests ≡ ok tt
unfolding validate Config.validate_limit
ten_requests-valid = refl

connection_limits-total_example :
    (count : ℕ) × (limits : List ConnectionLimit) × (connection_limits ten_requests 5
      ≡ some (count, limits, none))
    × (count ≤ 4)
    × (weigh_all share (worker_limits (min 3 count) limits) ≡ 10)
connection_limits-total_example = connection_limits-total ten_requests 10 5 ten_requests-valid refl

request_limits-total_example :
    (limits : List ConnectionLimit) × (request_limits 4 10 ≡ some (min 4 10, limits, none))
    × (length limits ≡ min 4 10)
    × (total_share limits ≡ 10)
    × All (λ l. 1 ≤ share l) limits
    × All (λ l. (l ≡ requests (10 / min 4 10)) ⊎ (l ≡ requests (10 / min 4 10 + 1))) limits
request_limits-total_example = request_limits-total 4 10 (omega arith) (omega arith)

abbrev three_limits : List ConnectionLimit
three_limits = requests 2 ∷ requests 1 ∷ requests 1 ∷ []

worker_limits-weigh_example :
    weigh_all share (worker_limits 2 three_limits) ≡ weigh share three_limits
worker_limits-weigh_example = worker_limits-weigh share 2 three_limits (omega arith)

abbrev ramp : List ReplayStage
ramp = record { duration = 10; rate = 1 } ∷ record { duration = 20; rate = 2 } ∷ []

validate_stages_iff_example : (validate_stages ramp ≡ ok tt) ↔ AreStages ramp
validate_stages_iff_example = validate_stages_iff ramp

-- Speeds in hundredths, all of them finite.
abbrev options : ReplayOptions ℕ
options = record {
  order = sequential;
  seed = none;
  rate = none;
  timestamps = false;
  speed = 100;
  stages = ramp;
}

validate_replay_options_iff_example :
    (validate_replay_options (λ s. true) (λ s. s == 0) options (some 2) ≡ ok tt)
    ↔ IsReplay (λ s. true) (λ s. s == 0) options (some 2)
validate_replay_options_iff_example =
    validate_replay_options_iff (λ s. true) (λ s. s == 0) options (some 2)

abbrev logged : List ReplayRequest
logged =
    record { method = get; path = codes "/"; payload = none; timestamp_micros = some (pos 1) }
    ∷ record { method = get; path = codes "/"; payload = none; timestamp_micros = some (pos 2) }
    ∷ []

validate_timestamps_iff_example : (validate_timestamps logged access_log ≡ ok tt) ↔ AreTimed logged
validate_timestamps_iff_example = validate_timestamps_iff logged access_log
