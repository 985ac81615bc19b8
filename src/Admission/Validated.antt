-- ===== src/Admission/Validated.antt =====
-- `validateConfig` (internal/admission/config.go) as a whole: the predicate on its result.
use ssemaphore.Prelude.{
  ℕ, ◌+◌, ◌*◌, ◌-◌, ◌≤◌, ◌<◌, ◌≡◌, refl, sym, ◌∙◌, ap, ◌≢◌, some, arith, length, get_elem?, subst,
  map, u64_mod, get_elem?-map,
}
use ssemaphore.Prelude.Result.{ok, >>=-eq-ok}
use ssemaphore.Admission.Types.{TenantConfig, Config}
use ssemaphore.Admission.Config.{
  ValidatedTenant, ValidatedConfig, Progress, lookup, validate_tenants, validate_globals,
  validate_credit, validate_config, absolute_max_tenants, absolute_max_queued_requests,
  absolute_max_inflight_requests, start,
}
use ssemaphore.Admission.Validation.{
  LimitsOk, made, LimitsOk-from, validate_tenants-made, ProgressOk, start-ProgressOk,
  validate_tenants-ProgressOk, unless-ok, low_word,
}

-- What the tenant at an index of a validated configuration has. It is made of the tenant at that
-- index of the configuration: with its ID and limits, and with the exact product of the base quantum
-- and its weight, which fits in 64 bits.
pub record ServedTenant (c : Config) (v : ValidatedConfig) (i : ℕ) (t : ValidatedTenant)
    : Type 0 where
  pub source :
      (u : TenantConfig) × (get_elem? c.tenants i ≡ some u)
      × (t ≡ made c u)
      × (c.base_quantum * u.weight < u64_mod)
  pub id : t.id ≢ 0
  pub funded : 0 < t.quantum
  pub limits : LimitsOk c t.queue t.inflight
  pub known : lookup t.id v.tenant_by_id ≡ some i
  pub credit : c.max_request_units - 1 + t.quantum ≤ c.deficit_cap

pub record Validated (c : Config) (v : ValidatedConfig) : Type 0 where
  pub max_body_bytes : v.max_body_bytes ≡ c.max_body_bytes
  pub max_request_units : v.max_request_units ≡ c.max_request_units
  pub deficit_cap : v.deficit_cap ≡ c.deficit_cap
  pub global_queue : v.global_queue ≡ c.global_queue
  pub global_inflight : v.global_inflight ≡ c.global_inflight
  pub body_positive : 0 < c.max_body_bytes
  pub units_positive : 0 < c.max_request_units
  pub tenants : length v.tenants ≡ length c.tenants
  pub some_tenant : 0 < length c.tenants
  pub tenant_bound : length c.tenants ≤ absolute_max_tenants
  pub limits : LimitsOk c c.global_queue c.global_inflight
  pub queued_bound : c.global_queue.count ≤ absolute_max_queued_requests
  pub inflight_bound : c.global_inflight.count ≤ absolute_max_inflight_requests
  pub each : (i : ℕ) (t : ValidatedTenant) → get_elem? v.tenants i ≡ some t → ServedTenant c v i t
  pub index :
      (id i : ℕ)
      → lookup id v.tenant_by_id ≡ some i
      → (t : ValidatedTenant) × (get_elem? v.tenants i ≡ some t) × (t.id ≡ id)

-- What the tests before the loop leave.
pub record GlobalsOk (c : Config) : Type 0 where
  pub body : 0 < c.max_body_bytes
  pub units : 0 < c.max_request_units
  pub some_tenant : 0 < length c.tenants
  pub tenant_bound : length c.tenants ≤ absolute_max_tenants
  pub limits : LimitsOk c c.global_queue c.global_inflight
  pub queued_bound : c.global_queue.count ≤ absolute_max_queued_requests
  pub inflight_bound : c.global_inflight.count ≤ absolute_max_inflight_requests

validate_globals-GlobalsOk : (c d : Config) → validate_globals c ≡ ok d → GlobalsOk c
unfolding validate_globals
validate_globals-GlobalsOk c d h =
    let (body, h₁) = unless-ok _ _ _ h in
    let (units, h₂) = unless-ok _ _ _ h₁ in
    let (quantum, h₃) = unless-ok _ _ _ h₂ in
    let (tenants, h₄) = unless-ok _ _ _ h₃ in
    let (queue, h₅) = unless-ok _ _ _ h₄ in
    let (queued, h₆) = unless-ok _ _ _ h₅ in
    let (inflight, h₇) = unless-ok _ _ _ h₆ in
    let (running, h₈) = unless-ok _ _ _ h₇ in
    record {
      body = ground (arith, body);
      units = ground (arith, units);
      some_tenant = ground (arith, tenants);
      tenant_bound = ground (arith, tenants);
      limits =
          LimitsOk-from c c.global_queue c.global_inflight queue (ground arith) inflight
            (ground arith);
      queued_bound = ground (arith, queued);
      inflight_bound = ground (arith, running);
    }

-- The deficit cap holds the credit of one visit on top of a maximum request less one unit.
validate_credit-ok :
    (c : Config) (p q : Progress)
    → validate_credit c p ≡ ok q
    → (c.max_request_units - 1 + p.maximum_quantum ≤ c.deficit_cap) × (q ≡ p)
unfolding validate_credit
validate_credit-ok c p q h =
    let (fits, h₁) = unless-ok _ _ _ h in
    let (cap_holds, h₂) = unless-ok _ _ _ h₁ in
    let (visits, h₃) = unless-ok _ _ _ h₂ in
    let (word, small) = low_word (c.max_request_units - 1 + p.maximum_quantum) fits in
    (ground (arith, cap_holds, word), ground (arith, h₃))

abbrev built : Config → Progress → ValidatedConfig
built c q = record {
  max_body_bytes = c.max_body_bytes;
  max_request_units = c.max_request_units;
  deficit_cap = c.deficit_cap;
  global_queue = c.global_queue;
  global_inflight = c.global_inflight;
  tenants = q.tenants;
  tenant_by_id = q.tenant_by_id;
}

built-Validated :
    (c : Config) (p : Progress)
    → GlobalsOk c
    → ProgressOk c (length c.tenants) p
    → p.tenants ≡ map (made c) c.tenants
    → c.max_request_units - 1 + p.maximum_quantum ≤ c.deficit_cap
    → Validated c (built c p)
built-Validated c p g k each credit = record {
  max_body_bytes = refl;
  max_request_units = refl;
  deficit_cap = refl;
  global_queue = refl;
  global_inflight = refl;
  body_positive = g.body;
  units_positive = g.units;
  tenants = k.count;
  some_tenant = g.some_tenant;
  tenant_bound = g.tenant_bound;
  limits = g.limits;
  queued_bound = g.queued_bound;
  inflight_bound = g.inflight_bound;
  each = λ i t e.
      let o = k.each i t e in
      record {
        source =
            let (u, at, same) =
              get_elem?-map (made c) c.tenants i t (ap (λ l. get_elem? l i) (sym each) ∙ e) in
            (u, at, same, subst (λ x. x.quantum < u64_mod) same o.in_range);
        id = o.id;
        funded = o.funded;
        limits = o.limits;
        known = o.known;
        credit = omega (arith, credit, o.greatest);
      };
  index = k.index;
}

-- A configuration that `validate_config` accepts is copied with its bounds; it has between 1 and
-- 1024 tenants, at most 65536 queued and 4096 in-flight requests; every limit, global or of a
-- tenant, holds one maximum request, and no tenant's exceeds the global one; every tenant has the
-- nonzero ID and the limits of the tenant it is made of, at the same index, as quantum exactly the
-- base quantum times that one's weight, which is positive and fits in 64 bits, and room for one
-- visit's credit below the deficit cap; and the map leads from every tenant's ID to its index and
-- from nothing else.
pub validate_config-Validated :
    (c : Config) (v : ValidatedConfig) → validate_config c ≡ ok v → Validated c v
unfolding validate_config
validate_config-Validated c v h =
    let (d, globals, h₁) = >>=-eq-ok (validate_globals c) _ h in
    let (p, loop, h₂) = >>=-eq-ok (validate_tenants c 0 c.tenants start) _ h₁ in
    let (q, credit, h₃) = >>=-eq-ok (validate_credit c p) _ h₂ in
    let (room, same) = validate_credit-ok c p q credit in
    let count : 0 + length c.tenants ≡ length c.tenants = omega arith in
    let made : built c p ≡ v = ap (built c) (sym same) ∙ ground (arith, h₃) in
    subst (Validated c) made (
      built-Validated c p (validate_globals-GlobalsOk c d globals)
        (subst (λ n. ProgressOk c n p) count
          (validate_tenants-ProgressOk c 0 c.tenants start p (start-ProgressOk c) loop))
        (validate_tenants-made c 0 c.tenants start p loop) room)
