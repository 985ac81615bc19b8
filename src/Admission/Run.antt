-- ===== src/Admission/Run.antt =====
-- internal/admission/owner.go: the loop of `Scheduler.run`, one round for each command or for the
-- expiry timer. The timer and the reading of the clock that sets it are the environment's.
use ssemaphore.Prelude.{Bool, true, false, Option, some, List, [], ◌∷◌, ◌>>=◌, if◌then◌else◌}
use ssemaphore.Admission.State.{OwnerState, Env}
use ssemaphore.Admission.Owner.{observe, expire_ready}
use ssemaphore.Admission.Commands.{Command, Response, stopped, handle, notify_drained}
use ssemaphore.Admission.Pump.{pump}

-- What ends every round that does not stop the owner.
unfoldable pub finish_round : Env → OwnerState → Option OwnerState
finish_round env s = pump env s >>= λ s'. some (notify_drained s')

abbrev pub is_stopped : Response → Bool
is_stopped stopped = true
is_stopped _ = false

-- `stopped` ends the loop at once.
unfoldable pub settle_round : Env → Response × OwnerState → Option (Response × OwnerState)
settle_round env r =
    if is_stopped r.0 then some r else (finish_round env r.1 >>= λ s. some (r.0, s))

-- A command is taken from the mailbox.
unfoldable pub on_command : Env → Command → OwnerState → Option (Response × OwnerState)
on_command env c s =
    let now = env.now s.reads in
    expire_ready env now (observe s) >>= λ s'. handle env c now s' >>= settle_round env

-- The expiry timer fires.
unfoldable pub on_timer : Env → OwnerState → Option OwnerState
on_timer env s = expire_ready env (env.now s.reads) (observe s) >>= finish_round env

pub data Wake : Type 0 where
  command : Command → Wake
  timer : Wake

-- The loop over the wake-ups of one run, in the order in which the owner takes them.
unfoldable pub run : Env → List Wake → OwnerState → Option OwnerState
run env [] s = some s
run env (timer ∷ ws) s = on_timer env s >>= run env ws
run env (command c ∷ ws) s = on_command env c s >>= λ r.
    let rest = run env ws r.1 in if is_stopped r.0 then some r.1 else rest
