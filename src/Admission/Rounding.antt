-- ===== src/Admission/Rounding.antt =====
-- Whole runs of the owner (internal/admission/owner.go, `Scheduler.run`), a round at a time.
use ssemaphore.Prelude.{
  ℕ, ◌≤◌, ◌≡◌, sym, ◌∙◌, ap, Bool, true, false, Option, none, some, ◌>>=◌, List, [], ◌∷◌, arith,
  subst, Ensures, Ensures-mono, Ensures-bind, Ensures-if,
}
use ssemaphore.Admission.Totals.{count}
use ssemaphore.Admission.State.{OwnerState, Env}
use ssemaphore.Admission.Owner.{observe, expire_ready}
use ssemaphore.Admission.Commands.{
  Command, admit_command, cancel_command, finish_command, snapshot_command, drain_command,
  force_cancel_command, stop_command, Response, handle, is_drained,
}
use ssemaphore.Admission.Run.{
  Wake, command, timer, finish_round, on_command, on_timer, run, is_stopped, settle_round,
}
use ssemaphore.Admission.Invariant.{Inv}
use ssemaphore.Admission.Moves.{observe-Post}
use ssemaphore.Admission.Expiring.{Expired, expire_ready-Expired}
use ssemaphore.Admission.Handling.{
  adds, CommandOk, Handled, Handled-trans, handle-Handled, finish_round-Handled, Expired-drained,
  is_drained-observe,
}

CommandOk-after :
    (c : Command) (now : ℕ) (s s' : OwnerState)
    → Inv s
    → Expired now (observe s) s'
    → CommandOk c s
    → CommandOk c s'
CommandOk-after (admit_command item) now s s' v x (new, work) = (
  ap (count item.id) x.post.same.received ∙ new,
  omega (arith, work, ap (λ c. c.max_request_units) x.post.same.config),
)
CommandOk-after (cancel_command id) now s s' v x ok = tt
CommandOk-after (finish_command id o) now s s' v x ok = tt
CommandOk-after snapshot_command now s s' v x ok = tt
CommandOk-after drain_command now s s' v x ok = tt
CommandOk-after force_cancel_command now s s' v x ok = tt
CommandOk-after stop_command now s s' v x ok =
    Expired-drained now (observe s) s' (observe-Post s v).inv x (is_drained-observe s ∙ ok)

settle_round-Handled :
    (env : Env) (s : OwnerState) (l : List ℕ) (r : Response × OwnerState)
    → Handled l s r.1
    → Ensures (settle_round env r) (λ r'. Handled l s r'.1)
unfolding settle_round
settle_round-Handled env s l (r, s') h =
    Ensures-if (is_stopped r) _ _ (λ r'. Handled l s r'.1) (λ _. h)
      (λ _.
        Ensures-bind (finish_round env s') (λ u. some (r, u)) (Handled s'.received s')
          (λ r'. Handled l s r'.1) (finish_round-Handled env s' h.inv)
          (λ u k. Handled-trans l s s' u h k))

-- In a sound state, a round for a command that its caller may give (an admission has a new ID and
-- at most the maximum work, a stop finds the scheduler drained) goes through and leaves a sound
-- state with the same configuration, in which the IDs received are as before, with the admission's
-- added.
pub on_command-Handled :
    (env : Env) (c : Command) (s : OwnerState)
    → Inv s
    → CommandOk c s
    → Ensures (on_command env c s) (λ r. Handled (adds c s.received) s r.1)
unfolding on_command
on_command-Handled env c s v ok =
    let o = observe-Post s v in
    let now = env.now s.reads in
    Ensures-bind (expire_ready env now (observe s)) _ (Expired now (observe s))
      (λ r. Handled (adds c s.received) s r.1) (expire_ready-Expired env now (observe s) o.inv)
      (λ s' x.
        Ensures-bind (handle env c now s') (settle_round env)
          (λ r. Handled (adds c s'.received) s' r.1) (λ r. Handled (adds c s.received) s r.1)
          (handle-Handled env c now s' x.post.inv (CommandOk-after c now s s' v x ok))
          (λ r h. settle_round-Handled env s (adds c s.received) r (record {
            inv = h.inv;
            config = h.config ∙ x.post.same.config;
            received = h.received ∙ ap (adds c) x.post.same.received;
          })))

-- A round for the expiry timer.
pub on_timer-Handled :
    (env : Env) (s : OwnerState) → Inv s → Ensures (on_timer env s) (Handled s.received s)
unfolding on_timer
on_timer-Handled env s v =
    let o = observe-Post s v in
    Ensures-bind (expire_ready env (env.now s.reads) (observe s)) (finish_round env)
      (Expired (env.now s.reads) (observe s)) (Handled s.received s)
      (expire_ready-Expired env (env.now s.reads) (observe s) o.inv)
      (λ s' x.
        Ensures-mono (finish_round env s') (Handled s'.received s') (Handled s.received s)
          (finish_round-Handled env s' x.post.inv)
          (λ u h. record {
            inv = h.inv;
            config = h.config ∙ x.post.same.config;
            received = h.received ∙ x.post.same.received;
          }))

-- The wake-ups of a run: its items have IDs of their own, and work within the bound.
abbrev pub WakesOk : List Wake → ℕ → List ℕ → Type 0
WakesOk [] most l = Unit {0}
WakesOk (timer ∷ ws) most l = WakesOk ws most l
WakesOk (command (admit_command item) ∷ ws) most l =
    (count item.id l ≡ 0) × (item.admission.work_units ≤ most) × WakesOk ws most (item.id ∷ l)
WakesOk (command (cancel_command id) ∷ ws) most l = WakesOk ws most l
WakesOk (command (finish_command id o) ∷ ws) most l = WakesOk ws most l
WakesOk (command snapshot_command ∷ ws) most l = WakesOk ws most l
WakesOk (command drain_command ∷ ws) most l = WakesOk ws most l
WakesOk (command force_cancel_command ∷ ws) most l = WakesOk ws most l
WakesOk (command stop_command ∷ ws) most l = WakesOk ws most l

-- Of the outcome of a round, if there is one.
abbrev pub Upon : {A : Type 0} → Option A → (A → Type 0) → Type 0
Upon none P = Unit {0}
Upon (some a) P = P a

abbrev pub Unless : Bool → Type 0 → Type 0
Unless true A = Unit {0}
Unless false A = A

-- A stop command finds the scheduler drained; `handle` panics where it does not.
abbrev pub StopOk : Command → OwnerState → Type 0
StopOk (admit_command item) s = Unit {0}
StopOk (cancel_command id) s = Unit {0}
StopOk (finish_command id o) s = Unit {0}
StopOk snapshot_command s = Unit {0}
StopOk drain_command s = Unit {0}
StopOk force_cancel_command s = Unit {0}
StopOk stop_command s = is_drained s ≡ true

-- So does every stop command that a run comes to. The first one ends the run.
abbrev pub StopsOk : Env → List Wake → OwnerState → Type 0
StopsOk env [] s = Unit {0}
StopsOk env (timer ∷ ws) s = Upon (on_timer env s) (λ s'. StopsOk env ws s')
StopsOk env (command c ∷ ws) s =
    StopOk c s × Upon (on_command env c s) (λ r. Unless (is_stopped r.0) (StopsOk env ws r.1))

first_ok :
    (c : Command) (ws : List Wake) (s : OwnerState)
    → WakesOk (command c ∷ ws) s.config.max_request_units s.received
    → StopOk c s
    → CommandOk c s × WakesOk ws s.config.max_request_units (adds c s.received)
first_ok (admit_command item) ws s (new, work, rest) k = ((new, work), rest)
first_ok (cancel_command id) ws s rest k = (tt, rest)
first_ok (finish_command id o) ws s rest k = (tt, rest)
first_ok snapshot_command ws s rest k = (tt, rest)
first_ok drain_command ws s rest k = (tt, rest)
first_ok force_cancel_command ws s rest k = (tt, rest)
first_ok stop_command ws s rest k = (k, rest)

-- What holds upon a round is at hand where the round goes on.
Ensures-upon :
    {A B : Type 0} (m : Option A) (f : A → Option B) (K P : A → Type 0) (Q : B → Type 0)
    → Ensures m P
    → Upon m K
    → ((a : A) → P a → K a → Ensures (f a) Q)
    → Ensures (m >>= f) Q
Ensures-upon none f K P Q h k next = absurd h
Ensures-upon (some a) f K P Q h k next = next a h k

Unless-false : (b : Bool) (A : Type 0) → b ≡ false → Unless b A → A
Unless-false true A h a = absurd (cc h)
Unless-false false A h a = a

WakesOk-after :
    (ws : List Wake) (l : List ℕ) (s s' : OwnerState)
    → Handled l s s'
    → WakesOk ws s.config.max_request_units l
    → WakesOk ws s'.config.max_request_units s'.received
WakesOk-after ws l s s' h ok =
    subst (λ m. WakesOk ws m s'.received) (ap (λ c. c.max_request_units) (sym h.config))
      (subst (λ k. WakesOk ws s.config.max_request_units k) (sym h.received) ok)

pub run-Inv :
    (env : Env) (ws : List Wake) (s : OwnerState)
    → Inv s
    → WakesOk ws s.config.max_request_units s.received
    → StopsOk env ws s
    → Ensures (run env ws s) Inv
unfolding run
run-Inv env [] s v ok stops = v
run-Inv env (timer ∷ ws) s v ok stops =
    Ensures-upon (on_timer env s) (run env ws) (λ s'. StopsOk env ws s') (Handled s.received s) Inv
      (on_timer-Handled env s v) stops
      (λ s' h k. run-Inv env ws s' h.inv (WakesOk-after ws s.received s s' h ok) k)
run-Inv env (command c ∷ ws) s v ok (stop, later) =
    let (first, rest) = first_ok c ws s ok stop in
    Ensures-upon (on_command env c s) _ (λ r. Unless (is_stopped r.0) (StopsOk env ws r.1))
      (λ r. Handled (adds c s.received) s r.1) Inv (on_command-Handled env c s v first) later
      (λ r h k.
        Ensures-if (is_stopped r.0) (some r.1) (run env ws r.1) Inv (λ _. h.inv)
          (λ goes.
            run-Inv env ws r.1 h.inv (WakesOk-after ws (adds c s.received) s r.1 h rest)
              (Unless-false (is_stopped r.0) (StopsOk env ws r.1) goes k)))
