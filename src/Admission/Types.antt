-- ===== src/Admission/Types.antt =====
-- internal/admission/types.go: the data that the scheduler's callers see. The widths of the
-- fields (uint64, uint32 for a tenant's ID) are hypotheses where a theorem needs them.
use ssemaphore.Prelude.{ℕ, List, Bool}

-- A duration or an instant in nanoseconds. `negsuc n` is -(n + 1).
pub data ℤ : Type 0 where
  pos : ℕ → ℤ
  negsuc : ℕ → ℤ

pub record QueueLimits : Type 0 where
  pub count : ℕ
  pub bytes : ℕ
  pub work : ℕ

pub record InflightLimits : Type 0 where
  pub count : ℕ
  pub work : ℕ

pub record TenantConfig : Type 0 where
  pub id : ℕ
  pub weight : ℕ
  pub queue : QueueLimits
  pub inflight : InflightLimits

pub record Config : Type 0 where
  pub max_body_bytes : ℕ
  pub max_request_units : ℕ
  pub base_quantum : ℕ
  pub deficit_cap : ℕ
  pub global_queue : QueueLimits
  pub global_inflight : InflightLimits
  pub tenants : List TenantConfig

pub record Admission : Type 0 where
  pub tenant : ℕ
  pub body_bytes : ℕ
  pub work_units : ℕ
  pub queue_timeout : ℤ

-- `undecided` is the zero value, which the code tests for.
pub data DecisionKind : Type 0 where
  undecided : DecisionKind
  dispatched tenant_rejected global_rejected queue_expired : DecisionKind
  canceled_queued canceled_before_start shutdown draining invalid : DecisionKind

pub data ResourceKind : Type 0 where
  no_resource count_resource bytes_resource work_resource : ResourceKind

pub record Decision : Type 0 where
  pub kind : DecisionKind
  pub resource : ResourceKind

-- `no_cause` is the zero value: no cancellation was requested.
pub data CancelCause : Type 0 where
  no_cause client_cause shutdown_cause : CancelCause

pub data CancelResult : Type 0 where
  applied already_requested already_terminal : CancelResult

pub data ServingOutcome : Type 0 where
  completed upstream_failed downstream_failed canceled internal_failure : ServingOutcome

pub data TerminalOutcome : Type 0 where
  completed upstream_failed downstream_failed canceled_inflight : TerminalOutcome
  shutdown internal_failure : TerminalOutcome

pub record TerminalResult : Type 0 where
  pub outcome : TerminalOutcome
  pub accounting_released : Bool

pub record Counters : Type 0 where
  pub queued_count : ℕ
  pub queued_bytes : ℕ
  pub queued_work : ℕ
  pub inflight_count : ℕ
  pub inflight_work : ℕ

pub record TenantSnapshot : Type 0 where
  pub id : ℕ
  pub deficit : ℕ
  pub counters : Counters

pub record Snapshot : Type 0 where
  pub accepting : Bool
  pub global : Counters
  pub tenants : List TenantSnapshot

pub record DrainResult : Type 0 where
  pub queued_shutdown_canceled : ℕ
  pub in_flight_active_at_start : ℕ

pub record ForceCancelResult : Type 0 where
  pub newly_shutdown_signaled : ℕ
