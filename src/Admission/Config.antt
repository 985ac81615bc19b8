-- ===== src/Admission/Config.antt =====
-- internal/admission/config.go: the validation of the scheduler's bounds and of one admission.
-- math/bits: Mul64 gives the high and the low word of a product, Add64 the sum and its carry.
use ssemaphore.Prelude.{
  ℕ, ◌+◌, ◌-◌, ◌*◌, ◌/◌, Bool, true, false, ◌||◌, Option, none, some, List, [], ◌∷◌, ◌++◌, max, min,
  ◌==◌, ltb, if◌then◌else◌, length, u64, u64_mod,
}
use ssemaphore.Prelude.Result.{Result, ok, unless, ◌>>=◌}
use ssemaphore.Admission.Types.{
  ℤ, pos, negsuc, QueueLimits, InflightLimits, TenantConfig, Config, Admission, Decision, undecided,
  invalid, no_resource, bytes_resource, work_resource,
}

abbrev pub absolute_max_tenants : ℕ
absolute_max_tenants = 1024

abbrev pub absolute_max_queued_requests : ℕ
absolute_max_queued_requests = 65536

abbrev pub absolute_max_inflight_requests : ℕ
absolute_max_inflight_requests = 4096

abbrev pub max_funding_visits : ℕ
max_funding_visits = 65536

-- One hour.
abbrev pub maximum_queue_timeout : ℕ
maximum_queue_timeout = 3600000000000

pub record ValidatedTenant : Type 0 where
  pub id : ℕ
  pub quantum : ℕ
  pub queue : QueueLimits
  pub inflight : InflightLimits

pub record ValidatedConfig : Type 0 where
  pub max_body_bytes : ℕ
  pub max_request_units : ℕ
  pub deficit_cap : ℕ
  pub global_queue : QueueLimits
  pub global_inflight : InflightLimits
  pub tenants : List ValidatedTenant
  pub tenant_by_id : List (ℕ × ℕ)

-- The errors; the code's messages add the tenant's index to those about a tenant.
pub data ConfigError : Type 0 where
  body_not_positive units_not_positive quantum_not_positive tenant_count : ConfigError
  queue_too_small queued_count_bound inflight_too_small inflight_count_bound : ConfigError
  zero_id repeated_id zero_weight quantum_overflow : ConfigError
  queue_above_global inflight_above_global : ConfigError
  deficit_overflow cap_too_small funding_bound : ConfigError

-- tenantByID[id]
unfoldable pub lookup : ℕ → List (ℕ × ℕ) → Option ℕ
lookup id [] = none
lookup id ((k, i) ∷ m) = if k == id then some i else lookup id m

-- Whether the limits are refused.
unfoldable pub validate_queue_limits : QueueLimits → ℕ → ℕ → Bool
validate_queue_limits l max_body max_work =
    l.count == 0 || (ltb l.bytes max_body || ltb l.work max_work)

unfoldable pub validate_inflight_limits : InflightLimits → ℕ → Bool
validate_inflight_limits l max_work = l.count == 0 || ltb l.work max_work

unfoldable pub divide_round_up : ℕ → ℕ → ℕ
divide_round_up value divisor = u64 (1 + (value - 1) / divisor)

-- The low word, and whether the product overflows.
unfoldable pub checked_multiply : ℕ → ℕ → ℕ × Bool
checked_multiply left right = (u64 (left * right), ltb 0 ((left * right) / u64_mod))

-- What the loop over the tenants carries.
pub record Progress : Type 0 where
  pub tenants : List ValidatedTenant
  pub tenant_by_id : List (ℕ × ℕ)
  pub maximum_quantum : ℕ
  pub minimum_quantum : ℕ

unfoldable pub is_some : Option ℕ → Bool
is_some none = false
is_some (some i) = true

abbrev pub above_queue : QueueLimits → QueueLimits → Bool
above_queue l g = ltb g.count l.count || (ltb g.bytes l.bytes || ltb g.work l.work)

abbrev pub above_inflight : InflightLimits → InflightLimits → Bool
above_inflight l g = ltb g.count l.count || ltb g.work l.work

-- One round of the loop, at the given index.
unfoldable pub validate_tenant : Config → ℕ → TenantConfig → Progress → Result ConfigError Progress
unfolding validate_queue_limits validate_inflight_limits is_some
validate_tenant c index t p =
    let product = c.base_quantum * t.weight in
    let quantum = u64 product in
    unless (t.id == 0) zero_id (
      unless (is_some (lookup t.id p.tenant_by_id)) repeated_id (
        unless (t.weight == 0) zero_weight (
          unless (ltb 0 (product / u64_mod) || quantum == 0) quantum_overflow (
            unless (validate_queue_limits t.queue c.max_body_bytes c.max_request_units)
              queue_too_small
              (unless (above_queue t.queue c.global_queue) queue_above_global (
                unless (validate_inflight_limits t.inflight c.max_request_units) inflight_too_small
                  (unless (above_inflight t.inflight c.global_inflight) inflight_above_global (
                    ok (record {
                      tenants =
                          p.tenants
                          ++ record {
                            id = t.id;
                            quantum = quantum;
                            queue = t.queue;
                            inflight = t.inflight;
                          }
                            ∷ [];
                      tenant_by_id = (t.id, index) ∷ p.tenant_by_id;
                      maximum_quantum = max p.maximum_quantum quantum;
                      minimum_quantum = min p.minimum_quantum quantum;
                    })))))))))

unfoldable pub validate_tenants :
    Config → ℕ → List TenantConfig → Progress → Result ConfigError Progress
validate_tenants c index [] p = ok p
validate_tenants c index (t ∷ ts) p =
    validate_tenant c index t p >>= λ p'. validate_tenants c (index + 1) ts p'

-- The tests on the global bounds, before the loop.
unfoldable pub validate_globals : Config → Result ConfigError Config
unfolding validate_queue_limits validate_inflight_limits
validate_globals c = unless (c.max_body_bytes == 0) body_not_positive (
    unless (c.max_request_units == 0) units_not_positive (
      unless (c.base_quantum == 0) quantum_not_positive (
        unless (length c.tenants == 0 || ltb absolute_max_tenants (length c.tenants)) tenant_count (
          unless (validate_queue_limits c.global_queue c.max_body_bytes c.max_request_units)
            queue_too_small
            (unless (ltb absolute_max_queued_requests c.global_queue.count) queued_count_bound (
              unless (validate_inflight_limits c.global_inflight c.max_request_units)
                inflight_too_small
                (unless (ltb absolute_max_inflight_requests c.global_inflight.count)
                  inflight_count_bound (ok c))))))))

-- Whether the funding visits of one scheduling opportunity overflow or pass their bound.
unfoldable pub visits_exceeded : Config → ℕ → Bool
unfolding divide_round_up checked_multiply
visits_exceeded c minimum_quantum =
    let rounds = divide_round_up c.max_request_units minimum_quantum in
    let (visits, overflow) = checked_multiply rounds (u64 (length c.tenants)) in
    if overflow
    then true
    else let (visits', overflow') = checked_multiply visits c.global_inflight.count in
      overflow' || ltb max_funding_visits visits'

-- The tests after the loop.
unfoldable pub validate_credit : Config → Progress → Result ConfigError Progress
unfolding visits_exceeded
validate_credit c p =
    let sum = c.max_request_units - 1 + p.maximum_quantum in
    unless (ltb 0 (sum / u64_mod)) deficit_overflow (
      unless (ltb c.deficit_cap (u64 sum)) cap_too_small
        (unless (visits_exceeded c p.minimum_quantum) funding_bound (ok p)))

abbrev pub start : Progress
start = record {
  tenants = [];
  tenant_by_id = [];
  maximum_quantum = 0;
  minimum_quantum = u64_mod - 1;
}

unfoldable pub validate_config : Config → Result ConfigError ValidatedConfig
unfolding validate_globals validate_tenants validate_credit
validate_config c = validate_globals c >>= λ _.
    (validate_tenants c 0 c.tenants start >>= λ p.
    (validate_credit c p >>= λ q. ok (record {
      max_body_bytes = c.max_body_bytes;
      max_request_units = c.max_request_units;
      deficit_cap = c.deficit_cap;
      global_queue = c.global_queue;
      global_inflight = c.global_inflight;
      tenants = q.tenants;
      tenant_by_id = q.tenant_by_id;
    })))

-- d <= 0 || d > MaximumQueueTimeout
abbrev pub is_bad_timeout : ℤ → Bool
is_bad_timeout (pos n) = n == 0 || ltb maximum_queue_timeout n
is_bad_timeout (negsuc n) = true

-- `undecided` lets the admission pass.
unfoldable pub validate_admission : ValidatedConfig → Admission → Decision
unfolding is_some
validate_admission c a =
    if a.tenant == 0
    then record { kind = invalid; resource = no_resource }
    else if a.body_bytes == 0 || ltb c.max_body_bytes a.body_bytes
    then record { kind = invalid; resource = bytes_resource }
    else if a.work_units == 0 || ltb c.max_request_units a.work_units
    then record { kind = invalid; resource = work_resource }
    else if is_bad_timeout a.queue_timeout
    then record { kind = invalid; resource = no_resource }
    else if is_some (lookup a.tenant c.tenant_by_id)
    then record { kind = undecided; resource = no_resource }
    else record { kind = invalid; resource = no_resource }
