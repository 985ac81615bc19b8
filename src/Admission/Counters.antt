-- ===== src/Admission/Counters.antt =====
-- internal/admission/owner.go: the accounting of queued and in-flight work, the limit tests on
-- it and the bounded credit. uint64 sums wrap, and a panic of the code is `none`.
use ssemaphore.Prelude.{
  ℕ, ◌+◌, ◌-◌, Bool, ◌&&◌, ◌||◌, Option, none, some, leb, ltb, ◌==◌, if◌then◌else◌, u64,
}
use ssemaphore.Admission.Types.{
  QueueLimits, InflightLimits, Admission, ResourceKind, no_resource, count_resource, bytes_resource,
  work_resource, Counters,
}

-- The subtraction is made only if it does not go below 0.
unfoldable pub fits : ℕ → ℕ → ℕ → Bool
fits current addition limit = leb current limit && leb addition (limit - current)

unfoldable pub bounded_add : ℕ → ℕ → ℕ → ℕ
bounded_add value addition maximum =
    if leb maximum value || ltb (maximum - value) addition then maximum else u64 (value + addition)

unfoldable pub queue_limit_failure : Counters → Admission → QueueLimits → ResourceKind
unfolding fits
queue_limit_failure c a limits =
    if fits c.queued_count 1 limits.count
    then if fits c.queued_bytes a.body_bytes limits.bytes
      then if fits c.queued_work a.work_units limits.work then no_resource else work_resource
      else bytes_resource
    else count_resource

unfoldable pub inflight_fits : Counters → Admission → InflightLimits → Bool
unfolding fits
inflight_fits c a limits =
    fits c.inflight_count 1 limits.count && fits c.inflight_work a.work_units limits.work

unfoldable pub add_queued : Counters → Admission → Counters
add_queued c a = record c {
  queued_count = u64 (c.queued_count + 1);
  queued_bytes = u64 (c.queued_bytes + a.body_bytes);
  queued_work = u64 (c.queued_work + a.work_units);
}

unfoldable pub remove_queued : Counters → Admission → Option Counters
remove_queued c a =
    if c.queued_count == 0 || (ltb c.queued_bytes a.body_bytes || ltb c.queued_work a.work_units)
    then none
    else some (record c {
      queued_count = c.queued_count - 1;
      queued_bytes = c.queued_bytes - a.body_bytes;
      queued_work = c.queued_work - a.work_units;
    })

unfoldable pub add_inflight : Counters → Admission → Counters
add_inflight c a = record c {
  inflight_count = u64 (c.inflight_count + 1);
  inflight_work = u64 (c.inflight_work + a.work_units);
}

unfoldable pub remove_inflight : Counters → Admission → Option Counters
remove_inflight c a =
    if c.inflight_count == 0 || ltb c.inflight_work a.work_units
    then none
    else some (record c {
      inflight_count = c.inflight_count - 1;
      inflight_work = c.inflight_work - a.work_units;
    })

unfoldable pub zero_counters : Counters
zero_counters = record {
  queued_count = 0;
  queued_bytes = 0;
  queued_work = 0;
  inflight_count = 0;
  inflight_work = 0;
}
