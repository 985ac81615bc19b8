-- ===== src/Server/Bounds.antt =====
-- `validateConfig` (internal/server/config.go): which bounds are accepted, and the deadlines derived
-- from them.
use ssemaphore.Prelude.{
  ℕ, ◌+◌, ◌-◌, ◌*◌, ◌/◌, ◌≤◌, ◌<◌, ◌≡◌, refl, ◌∙◌, false, some, [], ◌∷◌, arith, ltb, ◌↔◌,
}
use ssemaphore.Prelude.Result.{ok, unless-eq-ok, unless-pass}
use ssemaphore.Admission.Types.{ℤ, pos, negsuc}
use native.Mathlib.Nat.{le-div_iff_mul-le}
use ssemaphore.Server.Config.{
  ServerConfig, TimeoutPolicy, ValidatedServer, validate_timeout, add_from, add_durations,
  finish_config, validate_server, absolute_max_server_timeout, absolute_max_force_timeout,
  absolute_min_header_read_envelope_bytes, absolute_max_header_read_envelope_bytes,
  absolute_max_connections, absolute_max_header_read_reservation, net_http_header_read_slop_bytes,
}

-- The nanoseconds of a duration; those below 0 count as none.
abbrev pub nanoseconds : ℤ → ℕ
nanoseconds (pos n) = n
nanoseconds (negsuc n) = 0

-- A positive duration of at most `m`.
abbrev pub Timely : ℕ → ℤ → Type 0
Timely m d = (d ≡ pos (nanoseconds d)) × (0 < nanoseconds d) × (nanoseconds d ≤ m)

Timely-from : (m : ℕ) (d : ℤ) → validate_timeout d m ≡ false → Timely m d
Timely-from m (pos n) h = (refl, ground arith, ground arith)
Timely-from m (negsuc n) h = absurd (ground arith)

validate_timeout-Timely : (m : ℕ) (d : ℤ) → Timely m d → validate_timeout d m ≡ false
validate_timeout-Timely m (pos n) (same, some_time, bounded) = ground arith
validate_timeout-Timely m (negsuc n) (same, some_time, bounded) = absurd (omega arith)

-- The combined bound without a division.
combined_iff : (a m n : ℕ) → 0 < n → (ltb (m / n) a ≡ false) ↔ (a * n ≤ m)
combined_iff a m n some_n = (
  λ h. (le-div_iff_mul-le some_n).0 (ground (arith, h)),
  λ h. ground (arith, (le-div_iff_mul-le some_n).1 h),
)

-- The sum of two durations of at most an hour.
add_two :
    (a b : ℤ)
    → Timely absolute_max_server_timeout a
    → Timely absolute_max_server_timeout b
    → add_durations (a ∷ b ∷ []) ≡ some (nanoseconds a + nanoseconds b)
unfolding add_durations add_from
add_two (pos a) (pos b) t u = ground (arith, t, u)
add_two (negsuc a) b t u = absurd (omega (arith, t))
add_two (pos a) (negsuc b) t u = absurd (omega (arith, u))

add_four :
    (a b c d : ℤ)
    → Timely absolute_max_server_timeout a
    → Timely absolute_max_server_timeout b
    → Timely absolute_max_server_timeout c
    → Timely absolute_max_server_timeout d
    → add_durations (a ∷ b ∷ c ∷ d ∷ [])
      ≡ some (nanoseconds a + nanoseconds b + nanoseconds c + nanoseconds d)
unfolding add_durations add_from
add_four (pos a) (pos b) (pos c) (pos d) t u v w = ground (arith, t, u, v, w)
add_four (negsuc a) b c d t u v w = absurd (omega (arith, t))
add_four (pos a) (negsuc b) c d t u v w = absurd (omega (arith, u))
add_four (pos a) (pos b) (negsuc c) d t u v w = absurd (omega (arith, v))
add_four (pos a) (pos b) (pos c) (negsuc d) t u v w = absurd (omega (arith, w))

-- Every bound that a configuration has to keep.
pub record InBounds (c : ServerConfig) (p : TimeoutPolicy) : Type 0 where
  pub header_read : Timely absolute_max_server_timeout c.header_read_timeout
  pub response_write : Timely absolute_max_server_timeout c.response_write_timeout
  pub idle : Timely absolute_max_server_timeout c.idle_timeout
  pub grace : Timely absolute_max_server_timeout c.grace_timeout
  pub force : Timely absolute_max_force_timeout c.force_timeout
  pub default_queue : Timely absolute_max_server_timeout p.default_queue_timeout
  pub body_read : Timely absolute_max_server_timeout p.body_read_timeout
  pub upstream : Timely absolute_max_server_timeout p.upstream_timeout
  pub envelope_min : absolute_min_header_read_envelope_bytes ≤ c.header_read_envelope_bytes
  pub envelope_max : c.header_read_envelope_bytes ≤ absolute_max_header_read_envelope_bytes
  pub some_connection : 0 < c.max_connections
  pub connections_max : c.max_connections ≤ absolute_max_connections
  pub combined :
      c.header_read_envelope_bytes * c.max_connections ≤ absolute_max_header_read_reservation

-- What an accepted configuration becomes: the read deadline encloses the headers and the body, and
-- the write deadline the body, the queue, the upstream and the response, with no overflow.
abbrev pub derived : ServerConfig → TimeoutPolicy → ValidatedServer
derived c p = record {
  header_read_timeout = c.header_read_timeout;
  read_timeout = pos (nanoseconds c.header_read_timeout + nanoseconds p.body_read_timeout);
  write_timeout = pos (
      nanoseconds p.body_read_timeout
      + nanoseconds p.default_queue_timeout
      + nanoseconds p.upstream_timeout
      + nanoseconds c.response_write_timeout);
  idle_timeout = c.idle_timeout;
  grace_timeout = c.grace_timeout;
  force_timeout = c.force_timeout;
  header_read_envelope = c.header_read_envelope_bytes;
  net_http_max_header_bytes = c.header_read_envelope_bytes - net_http_header_read_slop_bytes;
  max_connections = c.max_connections;
}

validate_server-InBounds :
    (c : ServerConfig) (p : TimeoutPolicy) (v : ValidatedServer)
    → validate_server c p ≡ ok v
    → InBounds c p
unfolding validate_server
validate_server-InBounds c p v h =
    let (header, h₁) = unless-eq-ok _ _ _ h in
    let (response, h₂) = unless-eq-ok _ _ _ h₁ in
    let (idle, h₃) = unless-eq-ok _ _ _ h₂ in
    let (grace, h₄) = unless-eq-ok _ _ _ h₃ in
    let (force, h₅) = unless-eq-ok _ _ _ h₄ in
    let (queue, h₆) = unless-eq-ok _ _ _ h₅ in
    let (body, h₇) = unless-eq-ok _ _ _ h₆ in
    let (upstream, h₈) = unless-eq-ok _ _ _ h₇ in
    let (envelope, h₉) = unless-eq-ok _ _ _ h₈ in
    let (connections, h₁₀) = unless-eq-ok _ _ _ h₉ in
    let (combined, h₁₁) = unless-eq-ok _ _ _ h₁₀ in
    record {
      header_read = Timely-from _ _ header;
      response_write = Timely-from _ _ response;
      idle = Timely-from _ _ idle;
      grace = Timely-from _ _ grace;
      force = Timely-from _ _ force;
      default_queue = Timely-from _ _ queue;
      body_read = Timely-from _ _ body;
      upstream = Timely-from _ _ upstream;
      envelope_min = ground (arith, envelope);
      envelope_max = ground (arith, envelope);
      some_connection = ground (arith, connections);
      connections_max = ground (arith, connections);
      combined = (combined_iff _ _ _ (ground (arith, connections))).0 combined;
    }

finish-derived :
    (c : ServerConfig) (p : TimeoutPolicy)
    → InBounds c p
    → finish_config c (add_durations (c.header_read_timeout ∷ p.body_read_timeout ∷ [])) (
        add_durations (
          p.body_read_timeout ∷ p.default_queue_timeout ∷ p.upstream_timeout
          ∷ c.response_write_timeout ∷ []))
      ≡ ok (derived c p)
unfolding finish_config
finish-derived c p b = rw (add_two _ _ b.header_read b.body_read) (
    rw (add_four _ _ _ _ b.body_read b.default_queue b.upstream b.response_write)
      (unless-pass _ _ (ground (arith, b.envelope_max))))

-- A server configuration within its bounds is accepted: the sums of durations never overflow and
-- the header limit fits, so that these errors of the code cannot occur, and the deadlines derived
-- are the exact sums.
pub validate_server-derived :
    (c : ServerConfig) (p : TimeoutPolicy) → InBounds c p → validate_server c p ≡ ok (derived c p)
unfolding validate_server
validate_server-derived c p b =
    unless-pass _ _ (validate_timeout-Timely _ _ b.header_read)
    ∙ unless-pass _ _ (validate_timeout-Timely _ _ b.response_write)
    ∙ unless-pass _ _ (validate_timeout-Timely _ _ b.idle)
    ∙ unless-pass _ _ (validate_timeout-Timely _ _ b.grace)
    ∙ unless-pass _ _ (validate_timeout-Timely _ _ b.force)
    ∙ unless-pass _ _ (validate_timeout-Timely _ _ b.default_queue)
    ∙ unless-pass _ _ (validate_timeout-Timely _ _ b.body_read)
    ∙ unless-pass _ _ (validate_timeout-Timely _ _ b.upstream)
    ∙ unless-pass _ _ (ground (arith, b.envelope_min, b.envelope_max))
    ∙ unless-pass _ _ (ground (arith, b.some_connection, b.connections_max))
    ∙ unless-pass _ _ ((combined_iff _ _ _ b.some_connection).1 b.combined)
    ∙ finish-derived c p b

-- A server configuration is accepted exactly where every bound is kept: each timeout is positive
-- and at most an hour (the force timeout a minute), the header envelope is between 8 and 64 KiB,
-- there are 1 to 1024 connections, and their envelopes together take at most 64 MiB.
pub validate_server_iff :
    (c : ServerConfig) (p : TimeoutPolicy)
    → ((v : ValidatedServer) × (validate_server c p ≡ ok v)) ↔ InBounds c p
validate_server_iff c p =
    (λ (v, h). validate_server-InBounds c p v h, λ b. (derived c p, validate_server-derived c p b))
