-- ===== src/Server/Config.antt =====
-- internal/server/config.go: the validation of the inbound server's bounds. A duration is an int64
-- number of nanoseconds; `math.MaxInt` is that of a 64-bit architecture.
use ssemaphore.Prelude.{
  ℕ, ◌+◌, ◌-◌, ◌/◌, Bool, true, ◌||◌, Option, none, some, List, [], ◌∷◌, ◌==◌, ltb, if◌then◌else◌,
}
use ssemaphore.Prelude.Result.{Result, ok, err, unless}
use ssemaphore.Admission.Types.{ℤ, pos, negsuc}

abbrev pub net_http_header_read_slop_bytes : ℕ
net_http_header_read_slop_bytes = 4096

abbrev pub absolute_min_header_read_envelope_bytes : ℕ
absolute_min_header_read_envelope_bytes = 8192

abbrev pub absolute_max_header_read_envelope_bytes : ℕ
absolute_max_header_read_envelope_bytes = 65536

abbrev pub absolute_max_connections : ℕ
absolute_max_connections = 1024

abbrev pub absolute_max_header_read_reservation : ℕ
absolute_max_header_read_reservation = 67108864

-- One hour.
abbrev pub absolute_max_server_timeout : ℕ
absolute_max_server_timeout = 3600000000000

-- One minute.
abbrev pub absolute_max_force_timeout : ℕ
absolute_max_force_timeout = 60000000000

abbrev pub max_int64 : ℕ
max_int64 = 9223372036854775807

pub record ServerConfig : Type 0 where
  pub header_read_timeout : ℤ
  pub response_write_timeout : ℤ
  pub idle_timeout : ℤ
  pub grace_timeout : ℤ
  pub force_timeout : ℤ
  pub header_read_envelope_bytes : ℕ
  pub max_connections : ℕ

-- httpapi.TimeoutPolicy
pub record TimeoutPolicy : Type 0 where
  pub default_queue_timeout : ℤ
  pub body_read_timeout : ℤ
  pub upstream_timeout : ℤ

pub record ValidatedServer : Type 0 where
  pub header_read_timeout : ℤ
  pub read_timeout : ℤ
  pub write_timeout : ℤ
  pub idle_timeout : ℤ
  pub grace_timeout : ℤ
  pub force_timeout : ℤ
  pub header_read_envelope : ℕ
  pub net_http_max_header_bytes : ℕ
  pub max_connections : ℕ

pub data ServerError : Type 0 where
  bad_header_read bad_response_write bad_idle bad_grace bad_force : ServerError
  bad_default_queue bad_body_read bad_upstream : ServerError
  envelope_bounds connection_bounds combined_bound : ServerError
  read_overflow write_overflow header_overflow : ServerError

-- Whether the timeout is refused.
abbrev pub validate_timeout : ℤ → ℕ → Bool
validate_timeout (pos n) maximum = n == 0 || ltb maximum n
validate_timeout (negsuc n) maximum = true

-- The total so far is never negative, and the test comes before the sum: nothing wraps.
unfoldable pub add_from : ℕ → List ℤ → Option ℕ
add_from total [] = some total
add_from total (negsuc n ∷ values) = none
add_from total (pos n ∷ values) =
    let rest = add_from (total + n) values in
    if n == 0 || ltb (max_int64 - total) n then none else rest

unfoldable pub add_durations : List ℤ → Option ℕ
add_durations values = add_from 0 values

-- What `validate_config` returns once the sums are made.
unfoldable pub finish_config :
    ServerConfig → Option ℕ → Option ℕ → Result ServerError ValidatedServer
finish_config c none write = err read_overflow
finish_config c (some read) none = err write_overflow
finish_config c (some read) (some write) =
    let adjusted = c.header_read_envelope_bytes - net_http_header_read_slop_bytes in
    unless (ltb max_int64 adjusted) header_overflow (
      ok (record {
        header_read_timeout = c.header_read_timeout;
        read_timeout = pos read;
        write_timeout = pos write;
        idle_timeout = c.idle_timeout;
        grace_timeout = c.grace_timeout;
        force_timeout = c.force_timeout;
        header_read_envelope = c.header_read_envelope_bytes;
        net_http_max_header_bytes = adjusted;
        max_connections = c.max_connections;
      }))

unfoldable pub validate_server : ServerConfig → TimeoutPolicy → Result ServerError ValidatedServer
validate_server c p =
    unless (validate_timeout c.header_read_timeout absolute_max_server_timeout) bad_header_read (
      unless (validate_timeout c.response_write_timeout absolute_max_server_timeout)
        bad_response_write
        (unless (validate_timeout c.idle_timeout absolute_max_server_timeout) bad_idle (
          unless (validate_timeout c.grace_timeout absolute_max_server_timeout) bad_grace (
            unless (validate_timeout c.force_timeout absolute_max_force_timeout) bad_force (
              unless (validate_timeout p.default_queue_timeout absolute_max_server_timeout)
                bad_default_queue
                (unless (validate_timeout p.body_read_timeout absolute_max_server_timeout)
                  bad_body_read
                  (unless (validate_timeout p.upstream_timeout absolute_max_server_timeout)
                    bad_upstream
                    (unless
                      (ltb c.header_read_envelope_bytes absolute_min_header_read_envelope_bytes
                        || ltb absolute_max_header_read_envelope_bytes c.header_read_envelope_bytes)
                      envelope_bounds
                      (unless
                        (c.max_connections == 0 || ltb absolute_max_connections c.max_connections)
                        connection_bounds
                        (unless
                          (ltb (absolute_max_header_read_reservation / c.max_connections)
                            c.header_read_envelope_bytes)
                          combined_bound
                          (finish_config c
                            (add_durations (c.header_read_timeout ∷ p.body_read_timeout ∷ []))
                            (add_durations (
                              p.body_read_timeout ∷ p.default_queue_timeout ∷ p.upstream_timeout
                              ∷ c.response_write_timeout ∷ [])))))))))))))
