-- ===== src/Admission/Guarantees.antt =====
-- internal/admission/owner.go: what each command gives its caller, case by case.
use ssemaphore.Prelude.{
  ℕ, ◌+◌, ◌≤◌, ◌≡◌, true, none, some, if◌then◌else◌, Ensures, Ensures-mono, List, [],
}
use ssemaphore.Prelude.Result.{ok}
use ssemaphore.Admission.Types.{Config, client_cause, applied, already_requested, ServingOutcome}
use ssemaphore.Admission.Config.{ValidatedConfig, validate_config}
use ssemaphore.Admission.Entries.{Entry, find, is_queued, is_inflight}
use ssemaphore.Admission.Totals.{count, hit}
use ssemaphore.Admission.Accounts.{Accounts, Within}
use ssemaphore.Admission.State.{OwnerState, Env, answers, new_owner_state}
use ssemaphore.Admission.Owner.{admit, enqueued}
use ssemaphore.Admission.Commands.{
  cancel_entry, finish_entry, has_cause, terminal_outcome, final_cause,
}
use ssemaphore.Admission.Run.{Wake, run}
use ssemaphore.Admission.Invariant.{Inv, everywhere}
use ssemaphore.Admission.Canceling.{Canceled, cancel_entry-Canceled}
use ssemaphore.Admission.Finishing.{Finished, finish_entry-Finished}
use ssemaphore.Admission.Admitting.{CanJoin, Admitted, admit-Admitted}
use ssemaphore.Admission.Rounding.{WakesOk, StopsOk}
use ssemaphore.Admission.Starting.{Words, run-new_owner_state}

-- In a sound state, an item with a new ID, at most the maximum work and all that it has to meet
-- (the owner accepts, its context is live, its tenant is known, its deadline is in the future and
-- both limits hold it) joins its tenant's queue with the next sequence number, is counted once
-- more in the global count of queued requests, and is not answered yet; the state stays sound.
pub admit-joins :
    (env : Env) (now : ℕ) (item : Entry) (s : OwnerState)
    → Inv s
    → count item.id s.received ≡ 0
    → item.admission.work_units ≤ s.config.max_request_units
    → (c : CanJoin env now item s)
    → Ensures (admit env now item s) (λ s'.
      Inv s'
      × (find item.id s'.entries ≡ some (enqueued s c.index item))
      × (s'.global.queued_count ≡ s.global.queued_count + 1)
      × (answers item.id s'.replies ≡ 0))
admit-joins env now item s v new work c =
    Ensures-mono (admit env now item s) (Admitted env now item s) _
      (admit-Admitted env now item s v new work)
      (λ s' a. let (joins, counted, waits) = a.joined c in (a.arrived.inv, joins, counted, waits))

-- In a sound state, an item with a new ID and at most the maximum work that fails any of what it
-- has to meet is answered once and leaves no entry, the global accounting is as it was, and the
-- state stays sound.
pub admit-refuses :
    (env : Env) (now : ℕ) (item : Entry) (s : OwnerState)
    → Inv s
    → count item.id s.received ≡ 0
    → item.admission.work_units ≤ s.config.max_request_units
    → ¬ CanJoin env now item s
    → Ensures (admit env now item s) (λ s'.
      Inv s'
      × (find item.id s'.entries ≡ none)
      × (s'.global ≡ s.global)
      × (answers item.id s'.replies ≡ 1))
admit-refuses env now item s v new work fails =
    Ensures-mono (admit env now item s) (Admitted env now item s) _
      (admit-Admitted env now item s v new work)
      (λ s' a. let (gone, same, once) = a.refused fails in (a.arrived.inv, gone, same, once))

-- In a sound state, the cancellation of an entry that waits applies: the entry is gone with one
-- answer, one request less is queued, as many are in flight, and the state stays sound.
pub cancel_entry-queued :
    (s : OwnerState) (id : ℕ) (e : Entry)
    → Inv s
    → find id s.entries ≡ some e
    → is_queued e ≡ true
    → Ensures (cancel_entry id s) (λ r.
      Inv r.1
      × (r.0 ≡ applied)
      × (find id r.1.entries ≡ none)
      × (r.1.global.queued_count + 1 ≡ s.global.queued_count)
      × (r.1.global.inflight_count ≡ s.global.inflight_count)
      × (answers id r.1.replies ≡ 1))
cancel_entry-queued s id e v found waits =
    Ensures-mono (cancel_entry id s) (λ r. Canceled id s r.0 r.1) _ (cancel_entry-Canceled s v id)
      (λ r c.
        let (applies, gone, fewer, running, once) = c.queued e found waits in
        (c.post.inv, applies, gone, fewer, running, once))

-- In a sound state, the cancellation of an entry in flight gives nothing back: the global
-- accounting and the permits are as they were. It applies where the entry had no cause, and the
-- entry then has the client's; otherwise it was already requested, and the cause stays.
pub cancel_entry-inflight :
    (s : OwnerState) (id : ℕ) (e : Entry)
    → Inv s
    → find id s.entries ≡ some e
    → is_inflight e ≡ true
    → Ensures (cancel_entry id s) (λ r.
      Inv r.1
      × (r.0 ≡ (if has_cause e.cancel_cause then already_requested else applied))
      × (r.1.global ≡ s.global)
      × (r.1.inflight ≡ s.inflight)
      × (find id r.1.entries
          ≡ some (record e {
            cancel_cause = if has_cause e.cancel_cause then e.cancel_cause else client_cause;
          })))
cancel_entry-inflight s id e v found runs =
    Ensures-mono (cancel_entry id s) (λ r. Canceled id s r.0 r.1) _ (cancel_entry-Canceled s v id)
      (λ r c.
        let (result, global, permits, marked) = c.inflight e found runs in
        (c.post.inv, result, global, permits, marked))

-- In a sound state, the end of an entry in flight reports the outcome for its cause of
-- cancellation and that its accounting is released: the count of requests in flight falls by one
-- and their work by the entry's, what is queued is as it was, the entry is gone, and the state
-- stays sound.
pub finish_entry-releases :
    (env : Env) (s : OwnerState) (id : ℕ) (o : ServingOutcome) (e : Entry)
    → Inv s
    → find id s.entries ≡ some e
    → is_inflight e ≡ true
    → Ensures (finish_entry env id o s) (λ r.
      Inv r.1
      × (r.0.outcome ≡ terminal_outcome (final_cause env s e) o)
      × (r.0.accounting_released ≡ true)
      × (r.1.global.inflight_count + 1 ≡ s.global.inflight_count)
      × (r.1.global.inflight_work + e.admission.work_units ≡ s.global.inflight_work)
      × (r.1.global.queued_count ≡ s.global.queued_count)
      × (find id r.1.entries ≡ none))
finish_entry-releases env s id o e v found runs =
    Ensures-mono (finish_entry env id o s) (λ r. Finished env id o s r.0 r.1) _
      (finish_entry-Finished env s v id o)
      (λ r f.
        let (outcome, released, fewer, less, waiting, gone) = f.released e found runs in
        (f.post.inv, outcome, released, fewer, less, waiting, gone))

-- From a configuration of 64-bit numbers that `validate_config` accepts, every run over wake-ups
-- whose admissions have IDs of their own and at most the maximum work, and whose stop commands
-- find the scheduler drained when the owner comes to them, ends in a state where an ID was
-- answered once if it was received and does not wait, and not at all otherwise: the answers and
-- the waiting entry of the ID make up how often it was received, which is at most once.
pub run-answers :
    (env : Env) (ws : List Wake) (c : Config) (v : ValidatedConfig) (id : ℕ)
    → Words c
    → validate_config c ≡ ok v
    → WakesOk ws v.max_request_units []
    → StopsOk env ws (new_owner_state v)
    → Ensures (run env ws (new_owner_state v)) (λ s.
      (answers id s.replies + hit is_queued (find id s.entries) ≡ count id s.received)
      × (count id s.received ≤ 1))
run-answers env ws c v id w h fresh stops =
    Ensures-mono (run env ws (new_owner_state v)) Inv _
      (run-new_owner_state env ws c v w h fresh stops) (λ s i. (i.answered id, i.once id))

-- From a configuration of 64-bit numbers that `validate_config` accepts, every run over wake-ups
-- whose admissions have IDs of their own and at most the maximum work, and whose stop commands
-- find the scheduler drained when the owner comes to them, ends in a state where the global
-- counters are the sums over the entries held, and lie within the global limits of its
-- configuration.
pub run-Within :
    (env : Env) (ws : List Wake) (c : Config) (v : ValidatedConfig)
    → Words c
    → validate_config c ≡ ok v
    → WakesOk ws v.max_request_units []
    → StopsOk env ws (new_owner_state v)
    → Ensures (run env ws (new_owner_state v)) (λ s.
      Accounts everywhere s.global s.entries
      × Within s.config.global_queue s.config.global_inflight s.global)
run-Within env ws c v w h fresh stops =
    Ensures-mono (run env ws (new_owner_state v)) Inv _
      (run-new_owner_state env ws c v w h fresh stops) (λ s i. (i.global, i.within))
