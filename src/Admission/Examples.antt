-- ===== src/Admission/Examples.antt =====
-- A small configuration of the scheduler, and the theorems at work on it: each example applies its
-- theorem to concrete states.
use ssemaphore.Prelude.{Bool, ℕ, ltb, ◌≢◌, true, false, some, none, ◌≡◌, refl, [], ◌∷◌, arith, ◌↔◌}
use ssemaphore.Prelude.Result.{Result, ok, err}
use ssemaphore.Admission.Types.{
  no_cause, Config, QueueLimits, InflightLimits, Admission, pos, undecided, no_resource,
}
use ssemaphore.Admission.Counters.{queue_limit_failure, zero_counters}
use ssemaphore.Admission.Config.{
  ValidatedConfig, validate_config, validate_admission, validate_globals, validate_tenants,
  validate_tenant, validate_credit, visits_exceeded, divide_round_up, checked_multiply, lookup,
  is_some, validate_queue_limits, validate_inflight_limits,
}
use ssemaphore.Prelude.Result
use ssemaphore.Admission.State.{new_owner_state}
use ssemaphore.Admission.Invariant.{Inv}
use ssemaphore.Admission.Validated.{Validated, validate_config-Validated}
use ssemaphore.Admission.Accepting.{Acceptable, validate_admission_iff}
use ssemaphore.Admission.Admitting.{Fits, Fits-iff}
use ssemaphore.Admission.Types
use ssemaphore.Admission.Owner.{decide}
use ssemaphore.Admission.Entries.{Entry, EntryState, AccountingPhase, DeadlineSource}
use ssemaphore.Admission.Acquire.{
  CallerContext, prepare, choose_deadline, make_entry, ready, Waiting, context_done, late_answer,
  await,
}
use ssemaphore.Admission.Acquiring.{Sent, prepare-Sent, Settled, await-Settled}
use ssemaphore.Admission.Senders.{
  Drain, send_mutating, begin_drain_call, force_cancel_call, taken, done_then, context_error,
  mutating_calls-committed, calm, Answer, context_ends_then,
}
use ssemaphore.Admission.Closing.{CloseCourse, IsCallers, close_call, close_call-IsCallers}
use ssemaphore.Admission.Starting.{Words, validate_config-Inv}

abbrev pub queue : QueueLimits
queue = record { count = 4; bytes = 400; work = 40 }

abbrev pub inflight : InflightLimits
inflight = record { count = 2; work = 20 }

-- Two tenants, 7 of weight 1 and 9 of weight 2.
abbrev pub two_tenants : Config
two_tenants = record {
  max_body_bytes = 100;
  max_request_units = 10;
  base_quantum = 5;
  deficit_cap = 20;
  global_queue = queue;
  global_inflight = inflight;
  tenants =
      record { id = 7; weight = 1; queue = queue; inflight = inflight }
      ∷ record { id = 9; weight = 2; queue = queue; inflight = inflight }
      ∷ [];
}

abbrev pub validated : ValidatedConfig
validated = record {
  max_body_bytes = 100;
  max_request_units = 10;
  deficit_cap = 20;
  global_queue = queue;
  global_inflight = inflight;
  tenants =
      record { id = 7; quantum = 5; queue = queue; inflight = inflight }
      ∷ record { id = 9; quantum = 10; queue = queue; inflight = inflight }
      ∷ [];
  tenant_by_id = (9, 1) ∷ (7, 0) ∷ [];
}

pub two_tenants-validated : validate_config two_tenants ≡ ok validated
unfolding validate_config validate_globals validate_tenants validate_tenant validate_credit
    visits_exceeded divide_round_up checked_multiply lookup is_some validate_queue_limits
    validate_inflight_limits Result.unless
two_tenants-validated = refl

pub two_tenants-Words : Words two_tenants
two_tenants-Words = record {
  range = record {
    queue_count = omega arith;
    queue_bytes = omega arith;
    queue_work = omega arith;
    inflight_count = omega arith;
    inflight_work = omega arith;
  };
  deficit_cap = omega arith;
}

validate_config-Validated_example : Validated two_tenants validated
validate_config-Validated_example =
    validate_config-Validated two_tenants validated two_tenants-validated

validate_config-Inv_example : Inv (new_owner_state validated)
validate_config-Inv_example =
    validate_config-Inv two_tenants validated two_tenants-Words two_tenants-validated

abbrev request : Admission
request = record { tenant = 9; body_bytes = 100; work_units = 10; queue_timeout = pos 5 }

validate_admission_iff_example :
    ((validate_admission validated request).kind ≡ undecided) ↔ Acceptable validated request
validate_admission_iff_example = validate_admission_iff validated request

Fits-iff_example :
    (queue_limit_failure zero_counters request queue ≡ no_resource)
    ↔ Fits zero_counters request queue
Fits-iff_example = Fits-iff zero_counters request queue

abbrev caller : CallerContext
caller = record { failed = false; deadline = none }

-- The entry of the request, at instant 100.
abbrev sent : Entry
sent = record {
  id = 1;
  sequence = 0;
  admission = request;
  deadline = 105;
  deadline_source = DeadlineSource.queue_deadline;
  state = EntryState.unset;
  phase = AccountingPhase.unset;
  tenant = 0;
  cancel_cause = no_cause;
}

sent-ready : prepare validated (some caller) 100 0 request ≡ ready sent
unfolding prepare validate_admission choose_deadline make_entry lookup is_some
sent-ready = refl

prepare-Sent_example : Sent validated caller 100 0 request sent
prepare-Sent_example = prepare-Sent validated caller 100 0 request sent sent-ready

-- The context ends first, and the permit comes while the caller cancels its entry.
abbrev late_permit : Waiting
late_permit =
    context_done
      (late_answer (record { permit = true; decision = decide Types.DecisionKind.dispatched }))

await-Settled_example : Settled true (await late_permit)
await-Settled_example = await-Settled late_permit

-- A context without an error at the test before the send, and then with one.
abbrev ends_later : ℕ → Bool
ends_later n = ltb 0 n

taken-sent : send_mutating (some (λ n. false)) false taken ≡ ok tt
unfolding send_mutating Result.unless
taken-sent = refl

-- The context ends twice, and the scheduler before the response is there.
abbrev ended : {A : Type 0} → Answer A
ended = context_ends_then (context_ends_then (done_then none))

mutating_calls-committed_example :
    (begin_drain_call (some ends_later) false taken ended
      ≡ begin_drain_call (some (λ n. false)) false taken (calm ended))
    × (begin_drain_call (some ends_later) false taken ended ≢ err context_error)
    × (force_cancel_call (some ends_later) false taken ended
        ≡ force_cancel_call (some (λ n. false)) false taken (calm ended))
    × (force_cancel_call (some ends_later) false taken ended ≢ err context_error)
mutating_calls-committed_example =
    mutating_calls-committed (λ n. false) ends_later false taken ended ended taken-sent refl

-- The scheduler is done when the stop command is to be sent.
abbrev course : CloseCourse
course = record {
  already_done = false;
  done_at_drain = true;
  drain_sending = taken;
  drain_answer = done_then none;
  done_after_drain = false;
  waiting = Drain.drained;
  done_at_stop = true;
  stop_sending = taken;
}

close_call-IsCallers_example : IsCallers (close_call (some (λ n. false)) course)
close_call-IsCallers_example = close_call-IsCallers (some (λ n. false)) course
