-- ===== src/Admission/Commands.antt =====
-- internal/admission/owner.go: cancellation, the end of a permit, drain, forced cancellation,
-- the snapshot, and the dispatch of commands. `none` is a panic of the code.
use ssemaphore.Prelude.{
  ℕ, zero, suc, ◌+◌, ◌-◌, Bool, true, false, ◌&&◌, ◌||◌, not, Option, none, some, List, [], ◌∷◌,
  ◌==◌, if◌then◌else◌, length, get_elem?, set, u64, ◌>>=◌,
}
use ssemaphore.Admission.Types.{
  CancelCause, no_cause, client_cause, shutdown_cause, CancelResult, applied, already_requested,
  already_terminal, ServingOutcome, TerminalOutcome, TerminalResult, Snapshot, TenantSnapshot,
  DrainResult, ForceCancelResult, canceled_queued, shutdown,
}
use ssemaphore.Admission.Counters
use ssemaphore.Admission.Entries.{Entry, EntryState, is_inflight, find, put, delete}
use ssemaphore.Admission.Totals.{erase}
use ssemaphore.Admission.Expiry.{Slot}
use ssemaphore.Admission.State.{
  TenantState, OwnerState, Env, Signal, canceled_by_client, canceled_by_drain, request_finished,
  queue_length,
}
use ssemaphore.Admission.Owner.{observe, decide, drop_queued, admit}

unfoldable pub terminal_outcome : CancelCause → ServingOutcome → TerminalOutcome
terminal_outcome shutdown_cause o = TerminalOutcome.shutdown
terminal_outcome client_cause o = TerminalOutcome.canceled_inflight
terminal_outcome no_cause ServingOutcome.completed = TerminalOutcome.completed
terminal_outcome no_cause ServingOutcome.upstream_failed = TerminalOutcome.upstream_failed
terminal_outcome no_cause ServingOutcome.downstream_failed = TerminalOutcome.downstream_failed
terminal_outcome no_cause ServingOutcome.canceled = TerminalOutcome.canceled_inflight
terminal_outcome no_cause ServingOutcome.internal_failure = TerminalOutcome.internal_failure

abbrev pub state_queued : Entry → Bool
state_queued e = elim e.state [ EntryState.queued ↦ true | _ ↦ false ]

abbrev pub state_inflight : Entry → Bool
state_inflight e = elim e.state [ EntryState.inflight ↦ true | _ ↦ false ]

abbrev pub has_cause : CancelCause → Bool
has_cause no_cause = false
has_cause client_cause = true
has_cause shutdown_cause = true

-- item.cancelCause = cause; item.cancel(signal)
abbrev pub signal : Entry → CancelCause → Signal → OwnerState → OwnerState
signal e cause g s = record s {
  entries = put (record e { cancel_cause = cause }) s.entries;
  signals = (e.id, g) ∷ s.signals;
}

unfoldable pub cancel_entry : ℕ → OwnerState → Option (CancelResult × OwnerState)
cancel_entry id s = elim (find id s.entries) [
  | none ↦ some (already_terminal, s)
  | some e ↦
      if state_queued e
      then (drop_queued id (decide canceled_queued) s >>= λ s'. some (applied, s'))
      else if has_cause e.cancel_cause
      then some (already_requested, s)
      else some (applied, signal e client_cause canceled_by_client s)
]

-- The cause that `finish` reads: a client's cancellation counts though no command reported it.
unfoldable pub final_cause : Env → OwnerState → Entry → CancelCause
final_cause env s e =
    if has_cause e.cancel_cause
    then e.cancel_cause
    else if env.canceled s.reads e.id
    then client_cause
    else no_cause

abbrev pub internal_failure : TerminalResult
internal_failure = record {
  outcome = TerminalOutcome.internal_failure;
  accounting_released = false;
}

unfoldable pub release_inflight :
    Env → Entry → ServingOutcome → OwnerState → Option (TerminalResult × OwnerState)
release_inflight env e outcome s = get_elem? s.tenants e.tenant >>= λ t.
    (Counters.remove_inflight t.counters e.admission >>= λ c.
    (Counters.remove_inflight s.global e.admission >>= λ g. some (
      record {
        outcome = terminal_outcome (final_cause env s e) outcome;
        accounting_released = true;
      },
      record s {
        tenants = set s.tenants e.tenant (record t { counters = c });
        global = g;
        entries = delete e.id s.entries;
        inflight = erase e.id s.inflight;
        signals = (e.id, request_finished) ∷ s.signals;
        reads = s.reads + 1;
      },
    )))

unfoldable pub finish_entry :
    Env → ℕ → ServingOutcome → OwnerState → Option (TerminalResult × OwnerState)
finish_entry env id outcome s = elim (find id s.entries) [
  | none ↦ some (internal_failure, s)
  | some e ↦
      if state_inflight e && is_inflight e
      then release_inflight env e outcome s
      else some (internal_failure, s)
]

-- One round of the inner loop of beginDrain, for the head of a queue. The context is read after
-- the entry is off the queue, which changes no read.
unfoldable pub drain_head : Env → ℕ → OwnerState → ℕ → Option (OwnerState × ℕ)
drain_head env id s n =
    if env.canceled s.reads id
    then (drop_queued id (decide canceled_queued) (observe s) >>= λ s'. some (s', n))
    else (drop_queued id (decide shutdown) (observe s) >>= λ s'. some (s', u64 (n + 1)))

-- The inner loop: on fuel, for one tenant.
unfoldable pub drain_queue : Env → ℕ → ℕ → OwnerState × ℕ → Option (OwnerState × ℕ)
drain_queue env zero i (s, n) = none
drain_queue env (suc f) i (s, n) = get_elem? s.tenants i >>= λ t. elim t.queue [
  | [] ↦ some (s, n)
  | id ∷ q ↦ drain_head env id s n >>= drain_queue env f i
]

-- The outer loop: the rounds left and the tenant's index.
unfoldable pub drain_tenants : Env → ℕ → ℕ → OwnerState × ℕ → Option (OwnerState × ℕ)
drain_tenants env zero i (s, n) = some (s, n)
drain_tenants env (suc k) i (s, n) =
    drain_queue env (suc (queue_length s i)) i (s, n) >>= drain_tenants env k (suc i)

unfoldable pub begin_drain : Env → OwnerState → Option (DrainResult × OwnerState)
begin_drain env s =
    drain_tenants env (length s.tenants) 0 (record s { accepting = false }, 0) >>= λ r. some (
      record {
        queued_shutdown_canceled = r.1;
        in_flight_active_at_start = r.0.global.inflight_count;
      },
      r.0,
    )

-- One round of forceCancelInflight.
unfoldable pub force_one : Env → ℕ → OwnerState × ℕ → Option (OwnerState × ℕ)
force_one env id (s, n) = find id s.entries >>= λ e.
    (if has_cause e.cancel_cause
      then some (s, n)
      else if env.canceled s.reads id
      then some (signal e client_cause canceled_by_client (observe s), n)
      else some (signal e shutdown_cause canceled_by_drain (observe s), u64 (n + 1)))

unfoldable pub force_all : Env → List ℕ → OwnerState × ℕ → Option (OwnerState × ℕ)
force_all env [] r = some r
force_all env (id ∷ l) r = force_one env id r >>= force_all env l

unfoldable pub force_cancel_inflight : Env → OwnerState → Option (ForceCancelResult × OwnerState)
force_cancel_inflight env s =
    (if s.accepting then (begin_drain env s >>= λ r. some r.1) else some s) >>= λ s'.
    (force_all env s'.inflight (s', 0) >>= λ r.
    some (record { newly_shutdown_signaled = r.1 }, r.0))

unfoldable pub tenant_snapshots : List TenantState → List TenantSnapshot
tenant_snapshots [] = []
tenant_snapshots (t ∷ ts) =
    record { id = t.config.id; deficit = t.deficit; counters = t.counters } ∷ tenant_snapshots ts

unfoldable pub snapshot : OwnerState → Snapshot
snapshot s = record {
  accepting = s.accepting;
  global = s.global;
  tenants = tenant_snapshots s.tenants;
}

unfoldable pub is_drained : OwnerState → Bool
is_drained s = s.global.queued_count == 0 && s.global.inflight_count == 0

-- close(s.scheduler.drained)
unfoldable pub notify_drained : OwnerState → OwnerState
notify_drained s =
    if s.accepting || (not (is_drained s) || s.drain_notified)
    then s
    else record s { drain_notified = true }

-- How long the expiry timer is set to run, or `none` where it stays stopped.
unfoldable pub expiry_duration : ℕ → List Slot → Option ℕ
expiry_duration now [] = none
expiry_duration now (x ∷ q) = some (x.deadline - now)

pub data Command : Type 0 where
  admit_command : Entry → Command
  cancel_command : ℕ → Command
  finish_command : ℕ → ServingOutcome → Command
  snapshot_command drain_command force_cancel_command stop_command : Command

pub data Response : Type 0 where
  nothing stopped : Response
  cancel_result : CancelResult → Response
  terminal_result : TerminalResult → Response
  snapshot_result : Snapshot → Response
  drain_result : DrainResult → Response
  force_result : ForceCancelResult → Response

-- `stopped` is the result `true` of the code.
unfoldable pub handle : Env → Command → ℕ → OwnerState → Option (Response × OwnerState)
handle env (admit_command item) now s = admit env now item s >>= λ s'. some (nothing, s')
handle env (cancel_command id) now s = cancel_entry id s >>= λ r. some (cancel_result r.0, r.1)
handle env (finish_command id outcome) now s =
    finish_entry env id outcome s >>= λ r. some (terminal_result r.0, r.1)
handle env snapshot_command now s = some (snapshot_result (snapshot s), s)
handle env drain_command now s = begin_drain env s >>= λ r. some (drain_result r.0, r.1)
handle env force_cancel_command now s =
    force_cancel_inflight env s >>= λ r. some (force_result r.0, r.1)
handle env stop_command now s = if is_drained s then some (stopped, s) else none
