-- ===== src/Admission/Senders.antt =====
-- internal/admission/scheduler.go: the callers that send the owner a command and wait for its
-- response. The way each select goes is an argument; a context is `none` where it is nil, and
-- otherwise tells at each ask, the first one 0, whether it has an error by then.
use ssemaphore.Prelude.{ℕ, arith, Bool, Option, none, some, ◌≡◌, ◌≢◌, refl, ap, ◌∙◌, true, false}
use ssemaphore.Prelude.Result.{Result, ok, err, unless, ◌>>=◌}
use ssemaphore.Admission.Types.{
  CancelResult, already_terminal, TerminalResult, Snapshot, DrainResult, ForceCancelResult,
}
use ssemaphore.Admission.Commands.{internal_failure}

pub data SendError : Type 0 where
  nil_context context_error scheduler_closed : SendError

-- The select of `send` and of `sendMutating`.
pub data Sending : Type 0 where
  taken context_ended owner_done : Sending

abbrev pub sending : Sending → Result SendError (Unit {0})
sending taken = ok tt
sending context_ended = err context_error
sending owner_done = err scheduler_closed

abbrev pub Caller : Type 0
Caller = Option (ℕ → Bool)

unfoldable pub send : Caller → Sending → Result SendError (Unit {0})
send none w = err nil_context
send (some ctx) w = sending w

-- `done` is the test of the scheduler's end before the select.
unfoldable pub send_mutating : Caller → Bool → Sending → Result SendError (Unit {0})
send_mutating none done w = err nil_context
send_mutating (some ctx) done w =
    unless done scheduler_closed (unless (ctx 0) context_error (sending w))

-- What happens while a caller waits for its response: its context ends before the rest, the
-- response comes, or the scheduler is done and the response is there or not.
pub data Answer (A : Type 0) : Type 0 where
  context_ends_then : Answer A → Answer A
  replied : A → Answer A
  done_then : Option A → Answer A

-- The select of `BeginDrain` and of `ForceCancelInflight`, which does not hear the context.
unfoldable pub answer : {A : Type 0} → Answer A → Result SendError A
answer (context_ends_then a) = answer a
answer (replied a) = ok a
answer (done_then (some a)) = ok a
answer (done_then none) = err scheduler_closed

-- The select of `Snapshot`, which hears it.
unfoldable pub snapshot_answer : Answer Snapshot → Result SendError Snapshot
snapshot_answer (context_ends_then a) = err context_error
snapshot_answer (replied r) = ok r
snapshot_answer (done_then (some r)) = ok r
snapshot_answer (done_then none) = err scheduler_closed

unfoldable pub snapshot_call : Caller → Sending → Answer Snapshot → Result SendError Snapshot
snapshot_call ctx w a = send ctx w >>= λ _. snapshot_answer a

unfoldable pub begin_drain_call :
    Caller → Bool → Sending → Answer DrainResult → Result SendError DrainResult
begin_drain_call ctx done w a = send_mutating ctx done w >>= λ _. answer a

unfoldable pub force_cancel_call :
    Caller → Bool → Sending → Answer ForceCancelResult → Result SendError ForceCancelResult
force_cancel_call ctx done w a = send_mutating ctx done w >>= λ _. answer a

-- `cancel` and `finish` have no context: the command is taken, or the scheduler is done.
unfoldable pub cancel_call : Option (Answer CancelResult) → CancelResult
cancel_call none = already_terminal
cancel_call (some (context_ends_then a)) = cancel_call (some a)
cancel_call (some (replied r)) = r
cancel_call (some (done_then (some r))) = r
cancel_call (some (done_then none)) = already_terminal

unfoldable pub finish_call : Option (Answer TerminalResult) → TerminalResult
finish_call none = internal_failure
finish_call (some (context_ends_then a)) = finish_call (some a)
finish_call (some (replied r)) = r
finish_call (some (done_then (some r))) = r
finish_call (some (done_then none)) = internal_failure

-- How the selects of `WaitDrained` go: drained at once or while it waits, the context ends with
-- the drain complete or not, or the scheduler is done.
pub data Drain : Type 0 where
  drained_at_once drained owner_ended : Drain
  context_ended_when : Bool → Drain

unfoldable pub wait_drained : Caller → Drain → Result SendError (Unit {0})
wait_drained none w = err nil_context
wait_drained (some ctx) drained_at_once = ok tt
wait_drained (some ctx) drained = ok tt
wait_drained (some ctx) owner_ended = ok tt
wait_drained (some ctx) (context_ended_when true) = ok tt
wait_drained (some ctx) (context_ended_when false) = err context_error

-- The same wait under a context that does not end.
unfoldable pub calm : {A : Type 0} → Answer A → Answer A
calm (context_ends_then a) = calm a
calm (replied a) = replied a
calm (done_then o) = done_then o

answer-calm : {A : Type 0} (a : Answer A) → answer a ≡ answer (calm a)
unfolding answer calm
answer-calm (context_ends_then a) = answer-calm a
answer-calm (replied a) = refl
answer-calm (done_then o) = refl

answer-committed : {A : Type 0} (a : Answer A) → answer a ≢ err context_error
unfolding answer
answer-committed (context_ends_then a) = answer-committed a
answer-committed (replied a) = λ h. cc
answer-committed (done_then (some a)) = λ h. cc
answer-committed (done_then none) = λ h. absurd (ground arith)

send_mutating-first :
    (ctx other : ℕ → Bool) (done : Bool) (w : Sending)
    → other 0 ≡ ctx 0
    → send_mutating (some other) done w ≡ send_mutating (some ctx) done w
unfolding send_mutating
send_mutating-first ctx other done w h =
    ap (λ failed. unless done scheduler_closed (unless failed context_error (sending w))) h

-- Once the owner has taken a drain command or a forced cancellation, the caller's context no longer
-- changes the result: it is that under any context that agreed at the test before the send, whatever
-- this one answers to a later ask and also if it ends, at any time and any number of times, while the
-- caller waits; and it is not the context's error.
pub mutating_calls-committed :
    (ctx other : ℕ → Bool) (done : Bool) (w : Sending) (a : Answer DrainResult)
    (b : Answer ForceCancelResult)
    → send_mutating (some ctx) done w ≡ ok tt
    → other 0 ≡ ctx 0
    → (begin_drain_call (some other) done w a ≡ begin_drain_call (some ctx) done w (calm a))
      × (begin_drain_call (some other) done w a ≢ err context_error)
      × (force_cancel_call (some other) done w b ≡ force_cancel_call (some ctx) done w (calm b))
      × (force_cancel_call (some other) done w b ≢ err context_error)
unfolding begin_drain_call force_cancel_call
mutating_calls-committed ctx other done w a b h first =
    let same : send_mutating (some other) done w ≡ ok tt =
      send_mutating-first ctx other done w first ∙ h in
    rw (same, h) (answer-calm a, answer-committed a, answer-calm b, answer-committed b)
