-- ===== src/Admission/Invariant.antt =====
-- What holds of the owner's state between two transitions (internal/admission/owner.go).
use ssemaphore.Prelude.{
  ℕ, ◌+◌, ◌≤◌, ◌<◌, ◌≡◌, refl, ◌⊎◌, Bool, true, false, ◌&&◌, some, List, [], arith, ◌==◌, length,
  get_elem?,
}
use ssemaphore.Admission.Config.{ValidatedConfig, lookup}
use ssemaphore.Admission.Entries.{
  Entry, EntryState, AccountingPhase, is_queued, is_inflight, find, Distinct,
}
use ssemaphore.Admission.Totals.{ids, hit, count}
use ssemaphore.Admission.Accounts.{Accounts, Within, InRange, queued_in}
use ssemaphore.Admission.Expiry.{Slot, slot_of, slot_eq, IsOrdered}
use ssemaphore.Admission.Expiry
use ssemaphore.Admission.State.{TenantState, OwnerState, answers}

abbrev pub everywhere : Entry → Bool
everywhere e = true

abbrev pub at : ℕ → Entry → Bool
at i e = e.tenant == i

abbrev pub due_as : Slot → Entry → Bool
due_as x e = is_queued e && slot_eq (slot_of e) x

-- Its state and its accounting phase agree, its tenant exists and its work can be funded.
pub record EntryOk (n max_work : ℕ) (e : Entry) : Type 0 where
  pub tenant_lt : e.tenant < n
  pub work_le : e.admission.work_units ≤ max_work
  pub agree :
      ((e.state ≡ EntryState.queued) × (e.phase ≡ AccountingPhase.queued))
      ⊎ ((e.state ≡ EntryState.inflight) × (e.phase ≡ AccountingPhase.inflight))

-- The queue of tenant `i` holds its queued entries in the order of their arrival, and its counters
-- are the sums over its entries, within its limits.
pub record TenantOk (i cap : ℕ) (es : List Entry) (t : TenantState) : Type 0 where
  pub queue : t.queue ≡ ids (queued_in (at i)) es
  pub accounts : Accounts (at i) t.counters es
  pub within : Within t.config.queue t.config.inflight t.counters
  pub in_range : InRange t.config.queue t.config.inflight
  pub credit : t.deficit ≤ cap
  pub funding : 0 < t.config.quantum

-- A tenant with nothing queued has no credit and no open visit.
abbrev pub IsIdle : TenantState → Type 0
IsIdle t = t.queue ≡ [] → (t.deficit ≡ 0) × (t.visit_open ≡ false)

-- What the validation gives.
pub record ConfigOk (c : ValidatedConfig) (n : ℕ) : Type 0 where
  pub in_range : InRange c.global_queue c.global_inflight
  pub cap_range : c.deficit_cap < 18446744073709551616
  pub cap_work : c.max_request_units ≤ c.deficit_cap
  pub index : (id i : ℕ) → lookup id c.tenant_by_id ≡ some i → i < n

pub record Inv (s : OwnerState) : Type 0 where
  pub config : ConfigOk s.config (length s.tenants)
  pub distinct : Distinct s.entries
  pub entry :
      (id : ℕ) (e : Entry)
      → find id s.entries ≡ some e
      → EntryOk (length s.tenants) s.config.max_request_units e
  pub global : Accounts everywhere s.global s.entries
  pub within : Within s.config.global_queue s.config.global_inflight s.global
  pub tenant :
      (i : ℕ) (t : TenantState)
      → get_elem? s.tenants i ≡ some t
      → TenantOk i s.config.deficit_cap s.entries t
  pub idle : (i : ℕ) (t : TenantState) → get_elem? s.tenants i ≡ some t → IsIdle t
  pub expiry : (x : Slot) → Expiry.count x s.expiry ≡ hit (due_as x) (find x.id s.entries)
  pub ordered : IsOrdered s.expiry
  pub inflight : (id : ℕ) → count id s.inflight ≡ hit is_inflight (find id s.entries)
  pub once : (id : ℕ) → count id s.received ≤ 1
  pub answered :
      (id : ℕ) → answers id s.replies + hit is_queued (find id s.entries) ≡ count id s.received
  pub granted : (id : ℕ) → hit is_inflight (find id s.entries) ≤ answers id s.replies
  pub cursor : s.cursor < length s.tenants

-- What a transition leaves as it was: the configuration, the number of tenants and the IDs
-- received.
pub record Same (s s' : OwnerState) : Type 0 where
  pub config : s'.config ≡ s.config
  pub tenants : length s'.tenants ≡ length s.tenants
  pub received : s'.received ≡ s.received
  pub accepting : s'.accepting ≡ s.accepting

pub Same-refl : (s : OwnerState) → Same s s
Same-refl s = record { config = refl; tenants = refl; received = refl; accepting = refl }

pub Same-trans : (s t u : OwnerState) → Same s t → Same t u → Same s u
Same-trans s t u p q = ground arith

-- The outcome of a transition.
pub record Post (s s' : OwnerState) : Type 0 where
  pub inv : Inv s'
  pub same : Same s s'

pub Post-trans : (s t u : OwnerState) → Post s t → Post t u → Post s u
Post-trans s t u p q = record { inv = q.inv; same = Same-trans s t u p.same q.same }
