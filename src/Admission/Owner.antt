-- ===== src/Admission/Owner.antt =====
-- internal/admission/owner.go: the owner's transitions on one entry, and its commands but `pump`.
-- `none` is a panic of the code (an accounting underflow, an entry released or answered twice, a
-- nil pointer), or a loop that has run out of fuel.
use ssemaphore.Prelude.{
  ℕ, zero, suc, ◌+◌, Bool, true, false, ◌||◌, not, Option, none, some, [], ◌∷◌, ◌++◌, ◌==◌, ltb,
  if◌then◌else◌, length, get_elem?, set, u64, ◌>>=◌,
}
use ssemaphore.Admission.Types.{
  Admission, Decision, CancelCause, no_cause, client_cause, shutdown_cause, CancelResult, applied,
  already_requested, already_terminal, ServingOutcome, TerminalOutcome, TerminalResult, Snapshot,
  TenantSnapshot, DrainResult, ForceCancelResult, canceled_queued, queue_expired, tenant_rejected,
  global_rejected, invalid, no_resource, count_resource, bytes_resource, work_resource,
  ResourceKind, dispatched,
}
use ssemaphore.Admission.Types
use ssemaphore.Admission.Counters
use ssemaphore.Admission.Config.{lookup}
use ssemaphore.Admission.Entries.{
  Entry, EntryState, AccountingPhase, DeadlineSource, queue_deadline, client_deadline, is_queued,
  find, put, delete,
}
use ssemaphore.Admission.Totals.{erase}
use ssemaphore.Admission.Expiry.{Slot, slot_of}
use ssemaphore.Admission.Expiry
use ssemaphore.Admission.State.{TenantState, OwnerState, Env, answers}

abbrev pub observe : OwnerState → OwnerState
observe s = record s { reads = s.reads + 1 }

abbrev pub decide : Types.DecisionKind → Decision
decide k = record { kind = k; resource = no_resource }

-- A second send, on the closed channel, panics.
unfoldable pub resolve : ℕ → Bool → Decision → OwnerState → Option OwnerState
resolve id permit d s =
    if answers id s.replies == 0
    then some (record s { replies = record { id = id; permit = permit; decision = d } ∷ s.replies })
    else none

-- A tenant with an empty queue keeps no credit.
abbrev pub reset_idle : TenantState → TenantState
reset_idle t = elim t.queue [ [] ↦ record t { deficit = 0; visit_open = false } | _ ↦ t ]

unfoldable pub remove_queued : ℕ → OwnerState → Option OwnerState
remove_queued id s = find id s.entries >>= λ e.
    (get_elem? s.tenants e.tenant >>= λ t.
    (if is_queued e
      then (Counters.remove_queued t.counters e.admission >>= λ c.
          (Counters.remove_queued s.global e.admission >>= λ g. some (record s {
            tenants =
                set s.tenants e.tenant
                  (reset_idle (record t { queue = erase id t.queue; counters = c }));
            entries = put (record e { phase = AccountingPhase.unset }) s.entries;
            expiry = Expiry.remove (slot_of e) s.expiry;
            global = g;
          })))
      else none))

abbrev pub delete_entry : ℕ → OwnerState → OwnerState
delete_entry id s = record s { entries = delete id s.entries }

-- removeQueued, delete and resolve with no permit, as the code calls them in a row.
unfoldable pub drop_queued : ℕ → Decision → OwnerState → Option OwnerState
drop_queued id d s = remove_queued id s >>= λ s'. resolve id false d (delete_entry id s')

abbrev pub is_client : DeadlineSource → Bool
is_client client_deadline = true
is_client queue_deadline = false

-- The context is read first.
unfoldable pub deadline_decision : Env → OwnerState → Entry → Decision
deadline_decision env s e =
    if env.canceled s.reads e.id || is_client e.deadline_source
    then decide canceled_queued
    else decide queue_expired

unfoldable pub expire : Env → ℕ → OwnerState → Option OwnerState
expire env id s = find id s.entries >>= λ e. drop_queued id (deadline_decision env s e) (observe s)

-- The loop of expireReady, on fuel.
unfoldable pub expire_loop : Env → ℕ → ℕ → OwnerState → Option OwnerState
expire_loop env zero now s = none
expire_loop env (suc f) now s = elim s.expiry [
  | [] ↦ some s
  | x ∷ q ↦ if ltb now x.deadline then some s else (expire env x.id s >>= expire_loop env f now)
]

unfoldable pub expire_ready : Env → ℕ → OwnerState → Option OwnerState
expire_ready env now s = expire_loop env (suc (length s.expiry)) now s

-- The entry that joins its tenant's queue.
abbrev pub enqueued : OwnerState → ℕ → Entry → Entry
enqueued s i item = record item {
  sequence = u64 (s.sequence + 1);
  state = EntryState.queued;
  phase = AccountingPhase.queued;
  tenant = i;
}

unfoldable pub enqueue : ℕ → TenantState → Entry → OwnerState → OwnerState
enqueue i t item s =
    let e = enqueued s i item in
    record s {
      sequence = u64 (s.sequence + 1);
      tenants = set s.tenants i (record t {
        queue = t.queue ++ e.id ∷ [];
        counters = Counters.add_queued t.counters e.admission;
      });
      global = Counters.add_queued s.global e.admission;
      entries = put e s.entries;
      expiry = Expiry.push (slot_of e) s.expiry;
    }

-- The tenant's limits refuse an item before the global ones do.
unfoldable pub limit_decision : ResourceKind → ResourceKind → Option Decision
limit_decision no_resource no_resource = none
limit_decision no_resource r = some (record { kind = global_rejected; resource = r })
limit_decision r g = some (record { kind = tenant_rejected; resource = r })

-- What the tests of `admit` after the tenant was found refuse an item with.
unfoldable pub limit_failure : Env → ℕ → TenantState → Entry → OwnerState → Option Decision
limit_failure env now t item s =
    if ltb now item.deadline
    then limit_decision (Counters.queue_limit_failure t.counters item.admission t.config.queue)
        (Counters.queue_limit_failure s.global item.admission s.config.global_queue)
    else some (deadline_decision env s item)

-- The rest of `admit`, once the tenant's index is known. The context is read for the deadline's
-- decision only; the counter of reads is raised either way.
unfoldable pub admit_to : Env → ℕ → ℕ → Entry → OwnerState → Option OwnerState
admit_to env now i item s = get_elem? s.tenants i >>= λ t. elim (limit_failure env now t item s) [
  | none ↦ some (enqueue i t item s)
  | some d ↦ resolve item.id false d (observe s)
]

unfoldable pub admit : Env → ℕ → Entry → OwnerState → Option OwnerState
admit env now item s₀ =
    let s = record s₀ { received = item.id ∷ s₀.received } in
    if not s.accepting
    then resolve item.id false (decide Types.DecisionKind.draining) s
    else if env.canceled s.reads item.id
    then resolve item.id false (decide canceled_queued) (observe s)
    else elim (lookup item.admission.tenant s.config.tenant_by_id) [
      | none ↦ resolve item.id false (decide invalid) (observe s)
      | some i ↦ admit_to env now i item (observe s)
    ]
