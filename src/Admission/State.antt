-- ===== src/Admission/State.antt =====
-- internal/admission/owner.go: the state that the owner goroutine keeps.
use ssemaphore.Prelude.{
  ℕ, suc, Bool, false, List, [], ◌∷◌, ◌==◌, if◌then◌else◌, true, length, get_elem?, none, some,
}
use ssemaphore.Admission.Types.{Decision, Counters}
use ssemaphore.Admission.Counters.{zero_counters}
use ssemaphore.Admission.Config.{ValidatedTenant, ValidatedConfig}
use ssemaphore.Admission.Entries.{Entry}
use ssemaphore.Admission.Expiry.{Slot}

pub record TenantState : Type 0 where
  pub config : ValidatedTenant
  pub queue : List ℕ
  pub deficit : ℕ
  pub visit_open : Bool
  pub counters : Counters

-- What an entry's result channel was sent: whether a permit, and the decision.
pub record Reply : Type 0 where
  pub id : ℕ
  pub permit : Bool
  pub decision : Decision

-- The causes that a permit's context is canceled with.
pub data Signal : Type 0 where
  canceled_by_client canceled_by_drain request_finished : Signal

-- The fields below `drain_notified` are not of the code: the IDs that `admit` was called with, what
-- the result channels and the permits' contexts were sent (newest first), and how often the owner
-- has read a client's context or the clock.
pub record OwnerState : Type 0 where
  pub config : ValidatedConfig
  pub tenants : List TenantState
  pub entries : List Entry
  pub expiry : List Slot
  pub inflight : List ℕ
  pub cursor : ℕ
  pub sequence : ℕ
  pub accepting : Bool
  pub global : Counters
  pub drain_notified : Bool
  pub received : List ℕ
  pub replies : List Reply
  pub signals : List (ℕ × Signal)
  pub reads : ℕ

-- How many entries wait in the queue of a tenant.
abbrev pub queue_length : OwnerState → ℕ → ℕ
queue_length s i = elim (get_elem? s.tenants i) [ none ↦ 0 | some t ↦ length t.queue ]

-- What the owner reads and does not control, by the number of the read: whether a client's context
-- has an error, and the time. Other goroutines may change both between any two reads.
pub record Env : Type 0 where
  pub canceled : ℕ → ℕ → Bool
  pub now : ℕ → ℕ

-- How often an entry was answered.
unfoldable pub answers : ℕ → List Reply → ℕ
answers id [] = 0
answers id (r ∷ rs) = let rest = answers id rs in if r.id == id then suc rest else rest

abbrev pub tenant_state : ValidatedTenant → TenantState
tenant_state t = record {
  config = t;
  queue = [];
  deficit = 0;
  visit_open = false;
  counters = zero_counters;
}

unfoldable pub tenant_states : List ValidatedTenant → List TenantState
tenant_states [] = []
tenant_states (t ∷ ts) = tenant_state t ∷ tenant_states ts

unfoldable pub new_owner_state : ValidatedConfig → OwnerState
unfolding tenant_states
new_owner_state c = record {
  config = c;
  tenants = tenant_states c.tenants;
  entries = [];
  expiry = [];
  inflight = [];
  cursor = 0;
  sequence = 0;
  accepting = true;
  global = zero_counters;
  drain_notified = false;
  received = [];
  replies = [];
  signals = [];
  reads = 0;
}
