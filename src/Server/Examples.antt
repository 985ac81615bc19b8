-- ===== src/Server/Examples.antt =====
-- A small configuration of the server (internal/server/config.go), and the theorems on it.
use ssemaphore.Prelude.{◌≡◌, ◌↔◌, refl, arith}
use ssemaphore.Prelude.Result.{ok}
use ssemaphore.Admission.Types.{pos}
use ssemaphore.Server.Config.{ServerConfig, TimeoutPolicy, ValidatedServer, validate_server}
use ssemaphore.Server.Bounds.{InBounds, derived, validate_server-derived, validate_server_iff}

-- Every timeout is 1000 nanoseconds.
abbrev brief : ServerConfig
brief = record {
  header_read_timeout = pos 1000;
  response_write_timeout = pos 1000;
  idle_timeout = pos 1000;
  grace_timeout = pos 1000;
  force_timeout = pos 1000;
  header_read_envelope_bytes = 16384;
  max_connections = 100;
}

abbrev policy : TimeoutPolicy
policy = record {
  default_queue_timeout = pos 1000;
  body_read_timeout = pos 1000;
  upstream_timeout = pos 1000;
}

brief-InBounds : InBounds brief policy
brief-InBounds = record {
  header_read = (refl, omega arith, omega arith);
  response_write = (refl, omega arith, omega arith);
  idle = (refl, omega arith, omega arith);
  grace = (refl, omega arith, omega arith);
  force = (refl, omega arith, omega arith);
  default_queue = (refl, omega arith, omega arith);
  body_read = (refl, omega arith, omega arith);
  upstream = (refl, omega arith, omega arith);
  envelope_min = omega arith;
  envelope_max = omega arith;
  some_connection = omega arith;
  connections_max = omega arith;
  combined = omega arith;
}

validate_server-derived_example : validate_server brief policy ≡ ok (derived brief policy)
validate_server-derived_example = validate_server-derived brief policy brief-InBounds

validate_server_iff_example :
    ((v : ValidatedServer) × (validate_server brief policy ≡ ok v)) ↔ InBounds brief policy
validate_server_iff_example = validate_server_iff brief policy
