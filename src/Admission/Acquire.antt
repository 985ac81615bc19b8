-- ===== src/Admission/Acquire.antt =====
-- `Scheduler.Acquire` (internal/admission/scheduler.go): the tests before the mailbox, and what the
-- caller does for each way in which its selects may go. The channels and the context are what the
-- selects choose from: their choice is an argument.
use ssemaphore.Prelude.{
  ℕ, suc, ◌+◌, ◌-◌, Bool, true, false, ◌&&◌, not, Option, none, some, leb, ltb, if◌then◌else◌, u64,
}
use ssemaphore.Admission.Types.{
  ℤ, pos, negsuc, Admission, Decision, DecisionKind, undecided, invalid, canceled_queued,
  queue_expired, canceled_before_start, no_cause,
}
use ssemaphore.Admission.Config.{ValidatedConfig, validate_admission}
use ssemaphore.Admission.Entries.{
  Entry, EntryState, AccountingPhase, DeadlineSource, queue_deadline, client_deadline,
}
use ssemaphore.Admission.Owner.{decide, is_client}

-- now.Add(d)
abbrev pub add_time : ℕ → ℤ → ℕ
add_time now (pos n) = now + n
add_time now (negsuc n) = now - suc n

-- What the caller's context says: whether it has an error, and its deadline.
pub record CallerContext : Type 0 where
  pub failed : Bool
  pub deadline : Option ℕ

-- The deadline that comes first; the client's, if both are at the same instant.
unfoldable pub choose_deadline : Option ℕ → ℕ → ℕ × DeadlineSource
choose_deadline none deadline = (deadline, queue_deadline)
choose_deadline (some d) deadline =
    if leb d deadline then (d, client_deadline) else (deadline, queue_deadline)

pub data Prepared : Type 0 where
  refused : Decision → Prepared
  ready : Entry → Prepared

-- From the deadline on; `last_id` is the counter `nextID` before the request.
unfoldable pub make_entry : ℕ → ℕ → Admission → ℕ → DeadlineSource → Prepared
make_entry now last_id a deadline source =
    if ltb now deadline
    then ready (record {
      id = u64 (last_id + 1);
      sequence = 0;
      admission = a;
      deadline = deadline;
      deadline_source = source;
      state = EntryState.unset;
      phase = AccountingPhase.unset;
      tenant = 0;
      cancel_cause = no_cause;
    })
    else if is_client source
    then refused (decide canceled_queued)
    else refused (decide queue_expired)

abbrev pub is_undecided : DecisionKind → Bool
is_undecided undecided = true
is_undecided _ = false

-- Up to the mailbox; `none` is a nil context.
unfoldable pub prepare : ValidatedConfig → Option CallerContext → ℕ → ℕ → Admission → Prepared
prepare c none now last_id a = refused (decide invalid)
prepare c (some x) now last_id a =
    let decision = validate_admission c a in
    if not (is_undecided decision.kind)
    then refused decision
    else if x.failed
    then refused (decide canceled_queued)
    else let chosen = choose_deadline x.deadline (add_time now a.queue_timeout) in
      make_entry now last_id a chosen.0 chosen.1

-- What the result channel holds: whether a permit, and the decision.
pub record AcquireResult : Type 0 where
  pub permit : Bool
  pub decision : Decision

-- The select after the entry is canceled: the result, or the scheduler is done and the channel has
-- a result or not.
pub data Ending : Type 0 where
  late_answer : AcquireResult → Ending
  closed : Option AcquireResult → Ending

-- How the selects go: the mailbox does not take the command, or it does and the result comes, with
-- the context failed by then or not, the context ends first, or the scheduler does.
pub data Waiting : Type 0 where
  not_sent_context not_sent_done : Waiting
  answered : AcquireResult → Bool → Waiting
  context_done : Ending → Waiting
  scheduler_done : Option AcquireResult → Waiting

-- What the caller gets, and whether it canceled its entry and finished a permit on the way.
pub record Acquired : Type 0 where
  pub permit : Bool
  pub decision : Decision
  pub canceled : Bool
  pub finished : Bool

-- The result of an entry that was canceled: a permit is finished at once.
unfoldable pub give_up : AcquireResult → Acquired
give_up r =
    if r.permit
    then record {
      permit = false;
      decision = decide canceled_before_start;
      canceled = true;
      finished = true;
    }
    else record { permit = false; decision = r.decision; canceled = true; finished = false }

-- The entry is canceled before this select.
unfoldable pub ended : Ending → Acquired
ended (late_answer r) = give_up r
ended (closed (some r)) = give_up r
ended (closed none) = record {
  permit = false;
  decision = decide canceled_queued;
  canceled = true;
  finished = false;
}

abbrev pub returned_as_is : AcquireResult → Acquired
returned_as_is r = record {
  permit = r.permit;
  decision = r.decision;
  canceled = false;
  finished = false;
}

abbrev pub without_permit : DecisionKind → Acquired
without_permit k = record {
  permit = false;
  decision = decide k;
  canceled = false;
  finished = false;
}

-- From the mailbox on.
unfoldable pub await : Waiting → Acquired
await not_sent_context = without_permit canceled_queued
await not_sent_done = without_permit DecisionKind.draining
await (answered r failed) = if r.permit && failed then give_up r else returned_as_is r
await (context_done e) = ended e
await (scheduler_done (some r)) = returned_as_is r
await (scheduler_done none) = without_permit DecisionKind.draining
