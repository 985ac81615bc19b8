-- ===== src/HttpApi/Config.antt =====
-- `validateHandlerConfig` (internal/httpapi/config.go): the HTTP policy against the parser's and the
-- scheduler's. `sha256` stands for the digest of crypto/sha256, as a number. A nil parser or
-- scheduler is left to the callers, which pass neither.
use ssemaphore.Prelude.{ℕ, Bool, ◌||◌, Option, none, some, List, [], ◌∷◌, ◌==◌, ltb, length, not}
use ssemaphore.Prelude.Result.{Result, ok, err, unless, ◌>>=◌}
use ssemaphore.Admission.Types.{ℤ, pos, negsuc, QueueLimits}
use ssemaphore.Admission.Config.{lookup, is_some, maximum_queue_timeout}
use ssemaphore.Server.Config.{validate_timeout}
use ssemaphore.HttpApi.Limits.{
  SseLimits, new_response_validator, validate_sse_limits, validate_pre_dispatch_envelope,
  valid_bearer_token,
}

pub record Credential : Type 0 where
  pub tenant : ℕ
  pub token : List ℕ

pub record TenantPreDispatchLimit : Type 0 where
  pub tenant : ℕ
  pub count : ℕ

pub record HttpConfig : Type 0 where
  pub default_queue_timeout : ℤ
  pub body_read_timeout : ℤ
  pub upstream_timeout : ℤ
  pub stream_read_timeout : ℤ
  pub stream_event_timeout : ℤ
  pub max_response_body_bytes : ℕ
  pub max_stream_event_bytes : ℕ
  pub max_stream_events : ℕ
  pub global_pre_dispatch_limit : ℕ
  pub tenant_pre_dispatch : List TenantPreDispatchLimit
  pub credentials : List Credential

-- What the validation asks of the scheduler (`schedulerPolicy`).
pub record SchedulerPolicy : Type 0 where
  pub max_body_bytes : ℕ
  pub max_request_units : ℕ
  pub global_queue : QueueLimits
  pub tenant_queue : ℕ → Option QueueLimits

-- What it asks of the parser.
pub record ParserPolicy : Type 0 where
  pub max_body_bytes : ℕ
  pub max_request_units : ℕ

pub record StoredCredential : Type 0 where
  pub tenant : ℕ
  pub digest : ℕ

-- A channel of slots is its capacity.
pub record ValidatedHandler : Type 0 where
  pub default_queue_timeout : ℤ
  pub body_read_timeout : ℤ
  pub upstream_timeout : ℤ
  pub stream_read_timeout : ℤ
  pub stream_event_timeout : ℤ
  pub max_body_bytes : ℕ
  pub sse_limits : SseLimits
  pub global_slots : ℕ
  pub tenant_slots : List (ℕ × ℕ)
  pub credentials : List StoredCredential

pub data HandlerError : Type 0 where
  body_mismatch work_mismatch : HandlerError
  bad_queue bad_body bad_upstream bad_stream_read bad_stream_event : HandlerError
  read_above_event event_above_upstream response_limits sse_limits : HandlerError
  global_count tenant_count credential_count global_envelope : HandlerError
  zero_tenant slot_bounds repeated_tenant unknown_tenant tenant_envelope : HandlerError
  unlimited_credential bad_token repeated_token uncovered_tenant : HandlerError

-- left > right
abbrev pub longer : ℤ → ℤ → Bool
longer (pos a) (pos b) = ltb b a
longer (pos a) (negsuc b) = Bool.true
longer (negsuc a) (pos b) = Bool.false
longer (negsuc a) (negsuc b) = ltb a b

-- One round of the loop over the tenants' limits, and what is known of the tenant's queue.
unfoldable pub check_queue :
    ParserPolicy
    → TenantPreDispatchLimit
    → Option QueueLimits
    → List (ℕ × ℕ)
    → Result HandlerError (List (ℕ × ℕ))
check_queue p l none slots = err unknown_tenant
check_queue p l (some queue) slots =
    unless (validate_pre_dispatch_envelope l.count queue p.max_body_bytes p.max_request_units)
      tenant_envelope (ok ((l.tenant, l.count) ∷ slots))

unfoldable pub check_limit :
    ParserPolicy
    → SchedulerPolicy
    → ℕ
    → TenantPreDispatchLimit
    → List (ℕ × ℕ)
    → Result HandlerError (List (ℕ × ℕ))
check_limit p s global l slots = unless (l.tenant == 0) zero_tenant (
    unless (l.count == 0 || (ltb global l.count || ltb 4096 l.count)) slot_bounds (
      unless (is_some (lookup l.tenant slots)) repeated_tenant
        (check_queue p l (s.tenant_queue l.tenant) slots)))

unfoldable pub check_limits :
    ParserPolicy
    → SchedulerPolicy
    → ℕ
    → List TenantPreDispatchLimit
    → List (ℕ × ℕ)
    → Result HandlerError (List (ℕ × ℕ))
check_limits p s global [] slots = ok slots
check_limits p s global (l ∷ ls) slots =
    check_limit p s global l slots >>= λ slots'. check_limits p s global ls slots'

unfoldable pub has_digest : ℕ → List StoredCredential → Bool
has_digest d [] = Bool.false
has_digest d (c ∷ cs) = c.digest == d || has_digest d cs

unfoldable pub has_tenant : ℕ → List StoredCredential → Bool
has_tenant t [] = Bool.false
has_tenant t (c ∷ cs) = c.tenant == t || has_tenant t cs

module _ (sha256 : List ℕ → ℕ) where
  -- The credentials stored so far, newest first.
  unfoldable pub check_credentials :
      List (ℕ × ℕ)
      → List Credential
      → List StoredCredential
      → Result HandlerError (List StoredCredential)
  check_credentials slots [] stored = ok stored
  check_credentials slots (c ∷ cs) stored =
      unless (not (is_some (lookup c.tenant slots))) unlimited_credential (
        unless (not (valid_bearer_token c.token)) bad_token (
          unless (has_digest (sha256 c.token) stored) repeated_token (
            check_credentials slots cs
              (record { tenant = c.tenant; digest = sha256 c.token } ∷ stored))))

unfoldable pub check_covered :
    List TenantPreDispatchLimit
    → List StoredCredential
    → Result HandlerError (List StoredCredential)
check_covered [] stored = ok stored
check_covered (l ∷ ls) stored =
    unless (not (has_tenant l.tenant stored)) uncovered_tenant (check_covered ls stored)

unfoldable pub check_timeouts :
    HttpConfig → ParserPolicy → SchedulerPolicy → Result HandlerError HttpConfig
check_timeouts c p s = unless (not (p.max_body_bytes == s.max_body_bytes)) body_mismatch (
    unless (not (p.max_request_units == s.max_request_units)) work_mismatch (
      unless (validate_timeout c.default_queue_timeout maximum_queue_timeout) bad_queue (
        unless (validate_timeout c.body_read_timeout maximum_queue_timeout) bad_body (
          unless (validate_timeout c.upstream_timeout maximum_queue_timeout) bad_upstream (
            unless (validate_timeout c.stream_read_timeout maximum_queue_timeout) bad_stream_read (
              unless (validate_timeout c.stream_event_timeout maximum_queue_timeout)
                bad_stream_event
                (unless (longer c.stream_read_timeout c.stream_event_timeout) read_above_event (
                  unless (longer c.stream_event_timeout c.upstream_timeout) event_above_upstream
                    (ok c)))))))))

abbrev pub sse_limits_of : HttpConfig → SseLimits
sse_limits_of c = record {
  max_total_bytes = c.max_response_body_bytes;
  max_event_bytes = c.max_stream_event_bytes;
  max_events = c.max_stream_events;
}

unfoldable pub check_bounds :
    HttpConfig → ParserPolicy → SchedulerPolicy → Result HandlerError HttpConfig
check_bounds c p s = unless (new_response_validator c.max_response_body_bytes) response_limits (
    unless (validate_sse_limits (sse_limits_of c)) HandlerError.sse_limits (
      unless (c.global_pre_dispatch_limit == 0 || ltb 4096 c.global_pre_dispatch_limit) global_count
        (unless (length c.tenant_pre_dispatch == 0 || ltb 1024 (length c.tenant_pre_dispatch))
          tenant_count
          (unless (length c.credentials == 0 || ltb 4096 (length c.credentials)) credential_count (
            unless
              (validate_pre_dispatch_envelope c.global_pre_dispatch_limit s.global_queue
                p.max_body_bytes p.max_request_units)
              global_envelope (ok c))))))

-- `credentials` are in the order in which they were stored, the newest first.
unfoldable pub validate_handler :
    (List ℕ → ℕ)
    → HttpConfig
    → ParserPolicy
    → SchedulerPolicy
    → Result HandlerError ValidatedHandler
validate_handler sha256 c p s = check_timeouts c p s >>= λ _.
    (check_bounds c p s >>= λ _.
    (check_limits p s c.global_pre_dispatch_limit c.tenant_pre_dispatch [] >>= λ slots.
    (check_credentials sha256 slots c.credentials [] >>= λ stored.
    (check_covered c.tenant_pre_dispatch stored >>= λ _. ok (record {
      default_queue_timeout = c.default_queue_timeout;
      body_read_timeout = c.body_read_timeout;
      upstream_timeout = c.upstream_timeout;
      stream_read_timeout = c.stream_read_timeout;
      stream_event_timeout = c.stream_event_timeout;
      max_body_bytes = c.max_response_body_bytes;
      sse_limits = sse_limits_of c;
      global_slots = c.global_pre_dispatch_limit;
      tenant_slots = slots;
      credentials = stored;
    })))))
