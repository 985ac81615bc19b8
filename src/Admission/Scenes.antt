-- ===== src/Admission/Scenes.antt =====
-- The theorems on the owner (internal/admission/owner.go) at work on concrete states: one request
-- that waits, and one in flight.
use ssemaphore.Prelude.{
  ℕ, ◌+◌, ◌≤◌, ◌≡◌, ◌↔◌, refl, true, false, none, some, List, [], ◌∷◌, arith, Ensures, Option,
}
use ssemaphore.Admission.Types.{pos, no_cause, client_cause, applied, ServingOutcome}
use ssemaphore.Admission.Counters
use ssemaphore.Admission.Counters.{fits}
use ssemaphore.Admission.Config.{lookup}
use ssemaphore.Admission.Entries.{
  Entry, EntryState, AccountingPhase, DeadlineSource, find, put, is_queued,
}
use ssemaphore.Admission.Totals.{hit, count, erase}
use ssemaphore.Admission.Expiry
use ssemaphore.Admission.State.{
  tenant_state, OwnerState, Env, new_owner_state, tenant_states, answers,
}
use ssemaphore.Admission.Owner.{
  observe, decide, resolve, reset_idle, drop_queued, expire, expire_loop, expire_ready, enqueue,
  limit_decision, limit_failure, admit_to, admit, enqueued,
}
use ssemaphore.Admission.Owner
use ssemaphore.Admission.Commands
use ssemaphore.Admission.Commands.{
  drain_command, finish_command, stop_command, begin_drain, force_cancel_inflight, terminal_outcome,
  final_cause, admit_command, handle, cancel_entry, finish_entry, notify_drained, is_drained,
}
use ssemaphore.Admission.Run.{
  on_timer, Wake, command, timer, run, on_command, settle_round, finish_round,
}
use ssemaphore.Admission.Pump.{
  advance, dispatch, saturated, check_head, prune, settle_queue, settle, grant, turn, serve, fund,
  visit_queue, visit, round, rounds, pump_fuel, pump,
}
use ssemaphore.Admission.Invariant.{Inv, Post, everywhere}
use ssemaphore.Admission.Accounts.{Accounts, Within}
use ssemaphore.Admission.Termination.{pump-Post}
use ssemaphore.Admission.Expiring.{Expired, expire_ready-Expired}
use ssemaphore.Admission.Draining.{Drained, begin_drain-Drained}
use ssemaphore.Admission.Forcing.{Forced, force_cancel_inflight-Forced}
use ssemaphore.Admission.Handling.{Handled, is_drained_iff}
use ssemaphore.Admission.Rounding.{WakesOk, StopsOk, run-Inv, on_command-Handled, on_timer-Handled}
use ssemaphore.Admission.Admitting.{CanJoin, Admitted, admit-Admitted}
use ssemaphore.Admission.Guarantees.{
  admit-joins, admit-refuses, cancel_entry-queued, cancel_entry-inflight, finish_entry-releases,
  run-answers, run-Within,
}
use ssemaphore.Admission.Examples.{
  queue, inflight, validated, two_tenants, two_tenants-validated, two_tenants-Words,
}
use ssemaphore.Admission.Starting.{validate_config-Inv, run-new_owner_state}

-- No context is canceled, and no time passes.
abbrev calm : Env
calm = record { canceled = λ r id. false; now = λ r. 0 }

abbrev item : Entry
item = record {
  id = 1;
  sequence = 0;
  admission = record { tenant = 7; body_bytes = 50; work_units = 4; queue_timeout = pos 1000 };
  deadline = 1000;
  deadline_source = DeadlineSource.queue_deadline;
  state = EntryState.unset;
  phase = AccountingPhase.unset;
  tenant = 0;
  cancel_cause = no_cause;
}

abbrev first : OwnerState
first = new_owner_state validated

first-Inv : Inv first
first-Inv = validate_config-Inv two_tenants validated two_tenants-Words two_tenants-validated

-- The state of a transition that goes through.
abbrev reached : Option OwnerState → OwnerState
reached m = elim m [ none ↦ first | some s ↦ s ]

reached-Ensures : (m : Option OwnerState) (P : OwnerState → Type 0) → Ensures m P → P (reached m)
reached-Ensures none P h = absurd h
reached-Ensures (some s) P h = h

abbrev waiting : OwnerState
waiting = reached (admit calm 0 item first)

waiting-Inv : Inv waiting
unfolding count new_owner_state
waiting-Inv =
    let arrived = admit-Admitted calm 0 item first first-Inv refl (omega arith) in
    (reached-Ensures (admit calm 0 item first) (Admitted calm 0 item first) arrived).arrived.inv

abbrev entry : Entry
entry = enqueued first 0 item

waiting-entry : find 1 waiting.entries ≡ some entry
unfolding admit admit_to limit_failure limit_decision enqueue find put Counters.queue_limit_failure
    fits new_owner_state tenant_states lookup Counters.zero_counters
waiting-entry = refl

-- The owner takes the item, and then nothing more.
abbrev wakes : List Wake
wakes = command (admit_command item) ∷ timer ∷ []

wakes-WakesOk : WakesOk wakes 10 []
unfolding count
wakes-WakesOk = (refl, omega arith, tt)

wakes-StopsOk : StopsOk calm wakes first
unfolding admit admit_to limit_failure limit_decision enqueue find put Counters.queue_limit_failure
    fits new_owner_state tenant_states lookup run on_command on_timer expire_ready expire_loop
    handle settle_round finish_round pump rounds round visit visit_queue fund serve turn grant
    settle settle_queue prune check_head saturated dispatch advance pump_fuel notify_drained
    Counters.zero_counters Counters.add_queued Counters.inflight_fits Counters.bounded_add
    Owner.remove_queued Counters.remove_queued resolve answers erase Counters.add_inflight
    Expiry.remove Expiry.push
wakes-StopsOk = (tt, tt)

-- The owner takes the item and its end, and then drains and stops.
abbrev course : List Wake
course =
    command (admit_command item)
    ∷ timer
    ∷ command (finish_command 1 ServingOutcome.completed)
    ∷ command drain_command
    ∷ command stop_command
    ∷ []

course-WakesOk : WakesOk course 10 []
unfolding count
course-WakesOk = (refl, omega arith, tt)

course-StopsOk : StopsOk calm course first
unfolding admit admit_to limit_failure limit_decision enqueue find put Counters.queue_limit_failure
    fits new_owner_state tenant_states lookup run on_command on_timer expire_ready expire_loop
    handle settle_round finish_round pump rounds round visit visit_queue fund serve turn grant
    settle settle_queue prune check_head saturated dispatch advance pump_fuel notify_drained
    Counters.zero_counters Counters.add_queued Counters.inflight_fits Counters.bounded_add
    Owner.remove_queued Counters.remove_queued resolve answers erase Counters.add_inflight
    Expiry.remove Expiry.push finish_entry Commands.release_inflight Counters.remove_inflight
    begin_drain Commands.drain_tenants Commands.drain_queue is_drained
course-StopsOk = (tt, (tt, (tt, (refl, tt))))

abbrev running : OwnerState
running = reached (run calm wakes first)

running-Inv : Inv running
unfolding new_owner_state
running-Inv =
    reached-Ensures (run calm wakes first) Inv
      (run-Inv calm wakes first first-Inv wakes-WakesOk wakes-StopsOk)

abbrev permit : Entry
permit = record entry { state = EntryState.inflight; phase = AccountingPhase.inflight }

running-permit : find 1 running.entries ≡ some permit
unfolding admit admit_to limit_failure limit_decision enqueue find put Counters.queue_limit_failure
    fits new_owner_state tenant_states lookup run on_command on_timer expire_ready expire_loop
    handle settle_round finish_round pump rounds round visit visit_queue fund serve turn grant
    settle settle_queue prune check_head saturated dispatch advance pump_fuel notify_drained
    Counters.zero_counters Counters.add_queued Counters.inflight_fits Counters.bounded_add
    Owner.remove_queued Counters.remove_queued resolve answers erase Counters.add_inflight
    Expiry.remove Expiry.push
running-permit = refl

run-new_owner_state_example : Ensures (run calm course first) Inv
run-new_owner_state_example =
    run-new_owner_state calm course two_tenants validated two_tenants-Words two_tenants-validated
      course-WakesOk course-StopsOk

run-answers_example : Ensures (run calm course first) (λ s.
    (answers 1 s.replies + hit is_queued (find 1 s.entries) ≡ count 1 s.received)
    × (count 1 s.received ≤ 1))
run-answers_example =
    run-answers calm course two_tenants validated 1 two_tenants-Words two_tenants-validated
      course-WakesOk course-StopsOk

run-Within_example : Ensures (run calm course first) (λ s.
    Accounts everywhere s.global s.entries
    × Within s.config.global_queue s.config.global_inflight s.global)
run-Within_example =
    run-Within calm course two_tenants validated two_tenants-Words two_tenants-validated
      course-WakesOk course-StopsOk

pump-Post_example : Ensures (pump calm waiting) (Post waiting)
pump-Post_example = pump-Post calm waiting waiting-Inv

abbrev can_join : CanJoin calm 0 item first
unfolding new_owner_state lookup Counters.zero_counters
can_join = record {
  accepting = refl;
  live = refl;
  index = 0;
  tenant = tenant_state (record { id = 7; quantum = 5; queue = queue; inflight = inflight });
  known = refl;
  owner = refl;
  timely = omega arith;
  fits_tenant = record { count = omega arith; bytes = omega arith; work = omega arith };
  fits_global = record { count = omega arith; bytes = omega arith; work = omega arith };
}

admit-joins_example : Ensures (admit calm 0 item first) (λ s'.
    Inv s'
    × (find 1 s'.entries ≡ some entry)
    × (s'.global.queued_count ≡ first.global.queued_count + 1)
    × (answers 1 s'.replies ≡ 0))
unfolding count new_owner_state lookup Counters.zero_counters
admit-joins_example = admit-joins calm 0 item first first-Inv refl (omega arith) can_join

-- The item is late when the clock reads its deadline.
late : ¬ CanJoin calm 1000 item first
late c = omega (arith, c.timely)

admit-refuses_example : Ensures (admit calm 1000 item first) (λ s'.
    Inv s' × (find 1 s'.entries ≡ none) × (s'.global ≡ first.global) × (answers 1 s'.replies ≡ 1))
unfolding count new_owner_state
admit-refuses_example = admit-refuses calm 1000 item first first-Inv refl (omega arith) late

cancel_entry-queued_example : Ensures (cancel_entry 1 waiting) (λ r.
    Inv r.1
    × (r.0 ≡ applied)
    × (find 1 r.1.entries ≡ none)
    × (r.1.global.queued_count + 1 ≡ waiting.global.queued_count)
    × (r.1.global.inflight_count ≡ waiting.global.inflight_count)
    × (answers 1 r.1.replies ≡ 1))
cancel_entry-queued_example = cancel_entry-queued waiting 1 entry waiting-Inv waiting-entry refl

cancel_entry-inflight_example : Ensures (cancel_entry 1 running) (λ r.
    Inv r.1
    × (r.0 ≡ applied)
    × (r.1.global ≡ running.global)
    × (r.1.inflight ≡ running.inflight)
    × (find 1 r.1.entries ≡ some (record permit { cancel_cause = client_cause })))
cancel_entry-inflight_example =
    cancel_entry-inflight running 1 permit running-Inv running-permit refl

finish_entry-releases_example : Ensures (finish_entry calm 1 ServingOutcome.completed running) (λ r.
    Inv r.1
    × (r.0.outcome ≡ terminal_outcome (final_cause calm running permit) ServingOutcome.completed)
    × (r.0.accounting_released ≡ true)
    × (r.1.global.inflight_count + 1 ≡ running.global.inflight_count)
    × (r.1.global.inflight_work + 4 ≡ running.global.inflight_work)
    × (r.1.global.queued_count ≡ running.global.queued_count)
    × (find 1 r.1.entries ≡ none))
finish_entry-releases_example =
    finish_entry-releases calm running 1 ServingOutcome.completed permit running-Inv running-permit
      refl

expire_ready-Expired_example : Ensures (expire_ready calm 1000 waiting) (Expired 1000 waiting)
expire_ready-Expired_example = expire_ready-Expired calm 1000 waiting waiting-Inv

begin_drain-Drained_example : Ensures (begin_drain calm waiting) (λ r. Drained waiting r.0 r.1)
begin_drain-Drained_example = begin_drain-Drained calm waiting waiting-Inv

force_cancel_inflight-Forced_example :
    Ensures (force_cancel_inflight calm running) (λ r. Forced running r.0 r.1)
force_cancel_inflight-Forced_example = force_cancel_inflight-Forced calm running running-Inv

on_command-Handled_example :
    Ensures (on_command calm drain_command waiting) (λ r. Handled waiting.received waiting r.1)
on_command-Handled_example = on_command-Handled calm drain_command waiting waiting-Inv tt

on_timer-Handled_example : Ensures (on_timer calm waiting) (Handled waiting.received waiting)
on_timer-Handled_example = on_timer-Handled calm waiting waiting-Inv

is_drained_iff_example : (is_drained running ≡ true) ↔ ((id : ℕ) → find id running.entries ≡ none)
is_drained_iff_example = is_drained_iff running running-Inv
