-- ===== src/Admission/Pump.antt =====
-- internal/admission/owner.go: `pump`, the weighted deficit round robin that dispatches queued
-- entries. Each loop recurs on fuel, and `none` is a panic of the code or fuel that ran out.
use ssemaphore.Prelude.{
  ℕ, zero, suc, ◌+◌, ◌-◌, ◌*◌, Bool, true, false, ◌&&◌, ◌||◌, not, Option, none, some, [], ◌∷◌,
  ◌++◌, ◌==◌, ltb, if◌then◌else◌, length, get_elem?, set, ◌>>=◌, List,
}
use ssemaphore.Admission.Types.{canceled_queued, dispatched}
use ssemaphore.Admission.Counters
use ssemaphore.Admission.Entries.{Entry, EntryState, AccountingPhase, find, put}
use ssemaphore.Admission.State.{TenantState, OwnerState, Env, queue_length}
use ssemaphore.Admission.Owner.{observe, decide, remove_queued, resolve, drop_queued, expire}

unfoldable pub advance : OwnerState → OwnerState
advance s = record s { cursor = if s.cursor + 1 == length s.tenants then 0 else s.cursor + 1 }

-- A permit is granted: the accounting goes from the queue to the in-flight counters.
unfoldable pub dispatch : ℕ → OwnerState → Option OwnerState
dispatch id s = find id s.entries >>= λ e.
    (remove_queued id s >>= λ s'.
    (get_elem? s'.tenants e.tenant >>= λ t. resolve id true (decide dispatched) (record s' {
      tenants =
          set s'.tenants e.tenant
            (record t { counters = Counters.add_inflight t.counters e.admission });
      global = Counters.add_inflight s'.global e.admission;
      entries =
          put (record e { state = EntryState.inflight; phase = AccountingPhase.inflight })
            s'.entries;
      inflight = s'.inflight ++ id ∷ [];
    })))

-- No more can be in flight.
unfoldable pub saturated : OwnerState → Bool
saturated s =
    s.global.inflight_count == s.config.global_inflight.count
    || s.global.inflight_work == s.config.global_inflight.work

-- What a test of a head comes to: it is canceled, expired or may go on.
pub data Check : Type 0 where
  gone kept : OwnerState → Check

-- Client cancellation, then the deadline: a head that fails leaves the queue.
unfoldable pub check_head : Env → Entry → OwnerState → Option Check
check_head env e s =
    if env.canceled s.reads e.id
    then (drop_queued e.id (decide canceled_queued) (observe s) >>= λ s'. some (gone s'))
    else if ltb (env.now (s.reads + 1)) e.deadline
    then some (kept (observe (observe s)))
    else (expire env e.id (observe (observe s)) >>= λ s'. some (gone s'))

-- The first inner loop: heads that are canceled or expired leave the queue of tenant `i`.
unfoldable pub prune : Env → ℕ → ℕ → OwnerState → Option OwnerState
prune env zero i s = none
prune env (suc f) i s = get_elem? s.tenants i >>= λ t. elim t.queue [
  | [] ↦ some s
  | id ∷ q ↦ find id s.entries >>= λ e.
      (check_head env e s >>= λ c. elim c [ gone s' ↦ prune env f i s' | kept s' ↦ some s' ])
]

-- How a loop over a tenant's queue goes on: `pump` returns, or the flags `dispatched` and
-- `needsFunding` are handed on.
pub data Flow : Type 0 where
  returned : OwnerState → Flow
  onward : OwnerState → Bool → Bool → Flow

abbrev pub set_tenant : ℕ → TenantState → OwnerState → OwnerState
set_tenant i t s = record s { tenants = set s.tenants i t }

abbrev pub close_visit : TenantState → TenantState
close_visit t = record t { deficit = 0; visit_open = false }

-- One round of the second inner loop, for the head `e` of tenant `i`. The loop goes on after
-- `again`, with the flag `dispatched` raised or not.
pub data Turn : Type 0 where
  again : OwnerState → Bool → Turn
  leave : OwnerState → Bool → Bool → Turn
  quit : OwnerState → Turn

-- What follows a dispatch from tenant `i`, whose queue is now `q`.
unfoldable pub settle_queue : ℕ → TenantState → List ℕ → OwnerState → Turn
settle_queue i t [] s =
    if saturated s
    then quit (advance (set_tenant i (close_visit t) s))
    else leave (set_tenant i (close_visit t) s) true false
settle_queue i t (_ ∷ _) s = if saturated s then quit s else again s true

unfoldable pub settle : ℕ → OwnerState → Option Turn
settle i s = get_elem? s.tenants i >>= λ t. some (settle_queue i t t.queue s)

-- The funded head is dispatched, if the global bounds have room for it; they are kept for it if
-- they have not.
unfoldable pub grant : ℕ → Entry → OwnerState → Option Turn
grant i e s =
    if Counters.inflight_fits s.global e.admission s.config.global_inflight
    then (get_elem? s.tenants i >>= λ t.
        (dispatch e.id (set_tenant i (record t { deficit = t.deficit - e.admission.work_units }) s)
          >>= settle i))
    else some (quit s)

unfoldable pub turn : Env → ℕ → TenantState → Entry → OwnerState → Option Turn
turn env i t e s =
    if Counters.inflight_fits t.counters e.admission t.config.inflight
    then if ltb t.deficit e.admission.work_units
      then some (leave (set_tenant i (record t { visit_open = false }) s) false true)
      else (check_head env e s >>= λ c. elim c [
        | gone s' ↦ some (again s' false)
        | kept s' ↦ grant i e s'
      ])
    else some (leave s false false)

-- The second inner loop serves the queue of tenant `i` on its credit.
unfoldable pub serve : Env → ℕ → ℕ → OwnerState → Bool → Bool → Option Flow
serve env zero i s d n = none
serve env (suc f) i s d n = get_elem? s.tenants i >>= λ t. elim t.queue [
  | [] ↦ some (onward s d n)
  | id ∷ q ↦ find id s.entries >>= λ e.
      (turn env i t e s >>= λ r. elim r [
        | again s' d' ↦ serve env f i s' (d || d') n
        | leave s' d' n' ↦ some (onward s' (d || d') (n || n'))
        | quit s' ↦ some (returned s')
      ])
]

-- The quantum is added once for each visit.
unfoldable pub fund : ℕ → TenantState → OwnerState → OwnerState
fund i t s =
    if t.visit_open
    then s
    else set_tenant i
        (record t {
          deficit = Counters.bounded_add t.deficit t.config.quantum s.config.deficit_cap;
          visit_open = true;
        })
        s

-- The cursor moves on, unless `pump` returns.
abbrev pub move_on : Flow → Flow
move_on (returned s) = returned s
move_on (onward s d n) = onward (advance s) d n

-- The tenant at the cursor, whose queue is `q` once it is pruned: an empty queue is passed over.
unfoldable pub visit_queue : Env → TenantState → List ℕ → OwnerState → Bool → Bool → Option Flow
visit_queue env t [] s d n = some (onward (advance (set_tenant s.cursor (close_visit t) s)) d n)
visit_queue env t (id ∷ q) s d n =
    serve env (suc (suc (length q))) s.cursor (fund s.cursor t s) d n >>= λ r. some (move_on r)

-- The body of the loop over the tenants.
unfoldable pub visit : Env → OwnerState → Bool → Bool → Option Flow
visit env s d n = prune env (suc (queue_length s s.cursor)) s.cursor s >>= λ s'.
    (get_elem? s'.tenants s'.cursor >>= λ t. visit_queue env t t.queue s' d n)

-- for range len(s.tenants), the rounds left.
unfoldable pub round : Env → ℕ → OwnerState → Bool → Bool → Option Flow
round env zero s d n = some (onward s d n)
round env (suc k) s d n = visit env s d n >>= λ r. elim r [
  | returned s' ↦ some (returned s')
  | onward s' d' n' ↦ round env k s' d' n'
]

-- for s.global.QueuedCount > 0, on fuel.
unfoldable pub rounds : Env → ℕ → OwnerState → Option OwnerState
rounds env zero s = none
rounds env (suc f) s =
    if s.global.queued_count == 0
    then some s
    else (round env (length s.tenants) s false false >>= λ r. elim r [
      | returned s' ↦ some s'
      | onward s' d n ↦
          if s'.global.queued_count == 0
          then some (record s' { cursor = 0 })
          else let rest = rounds env f s' in if not d && not n then some s' else rest
    ])

-- Enough rounds for any state: each takes an entry off a queue, or funds a tenant by a unit at
-- least while its credit is below the cap, or closes a visit.
unfoldable pub pump_fuel : OwnerState → ℕ
pump_fuel s = 2 + (s.global.queued_count + length s.tenants) * (2 * s.config.deficit_cap + 2)

unfoldable pub pump : Env → OwnerState → Option OwnerState
pump env s = if length s.tenants == 0 || saturated s then some s else rounds env (pump_fuel s) s
