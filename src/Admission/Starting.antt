-- ===== src/Admission/Starting.antt =====
-- `newScheduler` (internal/admission/scheduler.go), the first state of the owner
-- (internal/admission/owner.go), and the runs from it.
use ssemaphore.Prelude.{
  ℕ, zero, suc, ◌<◌, ◌≡◌, refl, sym, ap, some, List, [], ◌∷◌, arith, length, get_elem?,
  get_elem?-lt, lt-get_elem?, u64_mod, subst, Ensures,
}
use ssemaphore.Prelude.Result.{ok}
use ssemaphore.Admission.Types.{QueueLimits, InflightLimits, Config}
use ssemaphore.Admission.Counters.{zero_counters}
use ssemaphore.Admission.Config.{ValidatedTenant, ValidatedConfig, validate_config}
use ssemaphore.Admission.Entries.{find}
use ssemaphore.Admission.Totals.{ids, count}
use ssemaphore.Admission.Accounts.{Within, InRange, zero-Accounts}
use ssemaphore.Admission.Expiry.{Slot}
use ssemaphore.Admission.Expiry
use ssemaphore.Admission.State.{
  TenantState, Env, answers, tenant_state, tenant_states, new_owner_state,
}
use ssemaphore.Admission.Run.{Wake, run}
use ssemaphore.Admission.Invariant.{TenantOk, ConfigOk, Inv, everywhere, at}
use ssemaphore.Admission.Rounding.{WakesOk, StopsOk, run-Inv}
use ssemaphore.Admission.Validation.{LimitsOk}
use ssemaphore.Admission.Validated.{Validated, validate_config-Validated}

-- The fields that the code declares as uint64 hold one.
pub record Words (c : Config) : Type 0 where
  pub range : InRange c.global_queue c.global_inflight
  pub deficit_cap : c.deficit_cap < u64_mod

length-tenant_states : (ts : List ValidatedTenant) → length (tenant_states ts) ≡ length ts
unfolding tenant_states
length-tenant_states [] = refl
length-tenant_states (t ∷ ts) = ap suc (length-tenant_states ts)

get_elem?-tenant_states :
    (ts : List ValidatedTenant) (i : ℕ) (t : TenantState)
    → get_elem? (tenant_states ts) i ≡ some t
    → (u : ValidatedTenant) × (get_elem? ts i ≡ some u) × (tenant_state u ≡ t)
unfolding tenant_states
get_elem?-tenant_states [] i t e = absurd (ground arith)
get_elem?-tenant_states (u ∷ ts) zero t e = (u, refl, ground arith)
get_elem?-tenant_states (u ∷ ts) (suc i) t e = get_elem?-tenant_states ts i t e

zero-Within : (q : QueueLimits) (f : InflightLimits) → Within q f zero_counters
unfolding zero_counters
zero-Within q f = record {
  queued_count = omega arith;
  queued_bytes = omega arith;
  queued_work = omega arith;
  inflight_count = omega arith;
  inflight_work = omega arith;
}

module _ (c : Config) (v : ValidatedConfig) (h : Validated c v) (w : Words c) where
  LimitsOk-InRange : (q : QueueLimits) (f : InflightLimits) → LimitsOk c q f → InRange q f
  LimitsOk-InRange q f l = record {
    queue_count = omega (arith, l.queue_count, w.range.queue_count);
    queue_bytes = omega (arith, l.queue_bytes, w.range.queue_bytes);
    queue_work = omega (arith, l.queue_work, w.range.queue_work);
    inflight_count = omega (arith, l.inflight_count, w.range.inflight_count);
    inflight_work = omega (arith, l.inflight_work, w.range.inflight_work);
  }

  first_tenant : (t : ValidatedTenant) × (get_elem? v.tenants 0 ≡ some t)
  first_tenant = get_elem?-lt v.tenants 0 (omega (arith, h.tenants, h.some_tenant))

  config-ConfigOk : ConfigOk v (length (tenant_states v.tenants))
  config-ConfigOk =
      let (t, e) = first_tenant in
      let served = h.each 0 t e in
      record {
        in_range =
            subst (λ q. InRange q v.global_inflight) (sym h.global_queue)
              (subst (InRange c.global_queue) (sym h.global_inflight) w.range);
        cap_range = omega (arith, h.deficit_cap, w.deficit_cap);
        cap_work = omega (arith, h.deficit_cap, h.max_request_units, served.credit, served.funded);
        index = λ id i e.
            let (u, owner, named) = h.index id i e in
            omega (arith, lt-get_elem? v.tenants i owner, length-tenant_states v.tenants);
      }

  tenant_state-TenantOk :
      (i : ℕ) (u : ValidatedTenant)
      → get_elem? v.tenants i ≡ some u
      → TenantOk i v.deficit_cap [] (tenant_state u)
  unfolding ids
  tenant_state-TenantOk i u e =
      let served = h.each i u e in
      record {
        queue = refl;
        accounts = zero-Accounts (at i);
        within = zero-Within u.queue u.inflight;
        in_range = LimitsOk-InRange u.queue u.inflight served.limits;
        credit = omega arith;
        funding = served.funded;
      }

  new_owner_state-Inv : Inv (new_owner_state v)
  unfolding new_owner_state find count answers Expiry.count
  new_owner_state-Inv = record {
    config = config-ConfigOk;
    distinct = tt;
    entry = λ id e f. absurd (ground arith);
    global = zero-Accounts everywhere;
    within = zero-Within v.global_queue v.global_inflight;
    tenant = λ i t e.
        let (u, owner, same) = get_elem?-tenant_states v.tenants i t e in
        subst (TenantOk i v.deficit_cap []) same (tenant_state-TenantOk i u owner);
    idle = λ i t e q.
        let (u, owner, same) = get_elem?-tenant_states v.tenants i t e in
        (ap (λ t. t.deficit) (sym same), ap (λ t. t.visit_open) (sym same));
    expiry = λ x. refl;
    ordered = tt;
    inflight = λ id. refl;
    once = λ id. omega arith;
    answered = λ id. refl;
    granted = λ id. omega arith;
    cursor = omega (arith, length-tenant_states v.tenants, h.tenants, h.some_tenant);
  }

-- The owner's first state, made from a configuration of 64-bit numbers that `validate_config`
-- accepts, is sound.
pub validate_config-Inv :
    (c : Config) (v : ValidatedConfig)
    → Words c
    → validate_config c ≡ ok v
    → Inv (new_owner_state v)
validate_config-Inv c v w h = new_owner_state-Inv c v (validate_config-Validated c v h) w

-- From a configuration of 64-bit numbers that `validate_config` accepts, every run over wake-ups
-- whose admissions have IDs of their own and at most the maximum work, and whose stop commands
-- find the scheduler drained when the owner comes to them, goes through without a panic and within
-- the pump's fuel, whatever the clock and the clients' contexts do at each read, and ends in a
-- sound state. (A stop that finds it not drained is the panic of `handle`.)
pub run-new_owner_state :
    (env : Env) (ws : List Wake) (c : Config) (v : ValidatedConfig)
    → Words c
    → validate_config c ≡ ok v
    → WakesOk ws v.max_request_units []
    → StopsOk env ws (new_owner_state v)
    → Ensures (run env ws (new_owner_state v)) Inv
unfolding new_owner_state
run-new_owner_state env ws c v w h fresh stops =
    run-Inv env ws (new_owner_state v) (validate_config-Inv c v w h) fresh stops
