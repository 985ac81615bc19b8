-- ===== src/Admission/Closing.antt =====
-- `Scheduler.Close` and `TenantQueueLimits` (internal/admission/scheduler.go).
use ssemaphore.Prelude.{
  Bool, true, false, Option, none, some, if◌then◌else◌, ◌≢◌, ℕ, get_elem?, ◌>>=◌, arith,
}
use ssemaphore.Prelude.Result.{Result, ok, err}
use ssemaphore.Admission.Types.{QueueLimits, DrainResult}
use ssemaphore.Admission.Config.{ValidatedConfig, lookup}
use ssemaphore.Admission.Senders.{
  Caller, SendError, nil_context, context_error, scheduler_closed, Sending, Answer, send_mutating,
  begin_drain_call, Drain, wait_drained,
}

-- `none` where the ID is not configured; the index is in range.
unfoldable pub tenant_queue_limits : ValidatedConfig → ℕ → Option QueueLimits
tenant_queue_limits c id =
    lookup id c.tenant_by_id >>= λ i. (get_elem? c.tenants i >>= λ t. some t.queue)

-- How the tests and selects of one call go, in their order.
pub record CloseCourse : Type 0 where
  pub already_done : Bool
  pub done_at_drain : Bool
  pub drain_sending : Sending
  pub drain_answer : Answer DrainResult
  pub done_after_drain : Bool
  pub waiting : Drain
  pub done_at_stop : Bool
  pub stop_sending : Sending

-- The end, once the stop command is sent: that the scheduler is closed is no error.
unfoldable pub close_stop : Result SendError (Unit {0}) → Result SendError (Unit {0})
close_stop (ok u) = ok tt
close_stop (err scheduler_closed) = ok tt
close_stop (err nil_context) = err nil_context
close_stop (err context_error) = err context_error

-- The stop command is sent with the background context.
unfoldable pub close_wait : CloseCourse → Result SendError (Unit {0}) → Result SendError (Unit {0})
close_wait k (ok u) = close_stop (send_mutating (some (λ n. false)) k.done_at_stop k.stop_sending)
close_wait k (err e) = err e

unfoldable pub close_drained : Caller → CloseCourse → Result SendError (Unit {0})
close_drained ctx k =
    if k.done_after_drain then ok tt else close_wait k (wait_drained ctx k.waiting)

unfoldable pub close_drain :
    Caller → CloseCourse → Result SendError DrainResult → Result SendError (Unit {0})
close_drain ctx k (ok r) = close_drained ctx k
close_drain ctx k (err scheduler_closed) = close_drained ctx k
close_drain ctx k (err nil_context) = err nil_context
close_drain ctx k (err context_error) = err context_error

unfoldable pub close_call : Caller → CloseCourse → Result SendError (Unit {0})
close_call ctx k =
    if k.already_done
    then ok tt
    else close_drain ctx k (begin_drain_call ctx k.done_at_drain k.drain_sending k.drain_answer)

-- The error is none, or the caller's: the context's, or that it is nil.
abbrev pub IsCallers : Result SendError (Unit {0}) → Type 0
IsCallers r = r ≢ err scheduler_closed

close_stop-IsCallers : (r : Result SendError (Unit {0})) → IsCallers (close_stop r)
unfolding close_stop
close_stop-IsCallers (ok u) = λ h. absurd (ground arith)
close_stop-IsCallers (err scheduler_closed) = λ h. absurd (ground arith)
close_stop-IsCallers (err nil_context) = λ h. absurd (ground arith)
close_stop-IsCallers (err context_error) = λ h. absurd (ground arith)

wait_drained-IsCallers : (ctx : Caller) (w : Drain) → IsCallers (wait_drained ctx w)
unfolding wait_drained
wait_drained-IsCallers none w = λ h. absurd (ground arith)
wait_drained-IsCallers (some c) Drain.drained_at_once = λ h. absurd (ground arith)
wait_drained-IsCallers (some c) Drain.drained = λ h. absurd (ground arith)
wait_drained-IsCallers (some c) Drain.owner_ended = λ h. absurd (ground arith)
wait_drained-IsCallers (some c) (Drain.context_ended_when true) = λ h. absurd (ground arith)
wait_drained-IsCallers (some c) (Drain.context_ended_when false) = λ h. absurd (ground arith)

close_wait-IsCallers :
    (k : CloseCourse) (r : Result SendError (Unit {0})) → IsCallers r → IsCallers (close_wait k r)
unfolding close_wait
close_wait-IsCallers k (ok u) h =
    close_stop-IsCallers (send_mutating (some (λ n. false)) k.done_at_stop k.stop_sending)
close_wait-IsCallers k (err e) h = h

if-IsCallers :
    (b : Bool) (r : Result SendError (Unit {0})) → IsCallers r → IsCallers (if b then ok tt else r)
if-IsCallers true r h = λ e. absurd (ground arith)
if-IsCallers false r h = h

close_drained-IsCallers : (ctx : Caller) (k : CloseCourse) → IsCallers (close_drained ctx k)
unfolding close_drained
close_drained-IsCallers ctx k =
    if-IsCallers k.done_after_drain _
      (close_wait-IsCallers k (wait_drained ctx k.waiting) (wait_drained-IsCallers ctx k.waiting))

close_drain-IsCallers :
    (ctx : Caller) (k : CloseCourse) (r : Result SendError DrainResult)
    → IsCallers (close_drain ctx k r)
unfolding close_drain
close_drain-IsCallers ctx k (ok r) = close_drained-IsCallers ctx k
close_drain-IsCallers ctx k (err scheduler_closed) = close_drained-IsCallers ctx k
close_drain-IsCallers ctx k (err nil_context) = λ h. absurd (ground arith)
close_drain-IsCallers ctx k (err context_error) = λ h. absurd (ground arith)

-- Closing a scheduler that is closed, or that closes meanwhile, is no error: however the selects go,
-- the call does not report that the scheduler is closed.
pub close_call-IsCallers : (ctx : Caller) (k : CloseCourse) → IsCallers (close_call ctx k)
unfolding close_call
close_call-IsCallers ctx k = if-IsCallers k.already_done _ (
    close_drain-IsCallers ctx k
      (begin_drain_call ctx k.done_at_drain k.drain_sending k.drain_answer))
