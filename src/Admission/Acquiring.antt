-- ===== src/Admission/Acquiring.antt =====
-- `Scheduler.Acquire` (internal/admission/scheduler.go): what is sent to the owner, and what becomes
-- of the permits that come back.
use ssemaphore.Prelude.{
  ℕ, ◌+◌, ◌≤◌, ◌<◌, ◌≡◌, refl, Bool, true, false, ◌&&◌, ◌||◌, Option, none, some, arith, u64,
}
use ssemaphore.Admission.Types.{Admission, DecisionKind, undecided}
use ssemaphore.Admission.Config.{ValidatedConfig, validate_admission}
use ssemaphore.Admission.Entries.{Entry, DeadlineSource}
use ssemaphore.Admission.Accepting.{Acceptable, validate_admission_iff}
use ssemaphore.Admission.Acquire.{
  add_time, CallerContext, choose_deadline, ready, make_entry, is_undecided, prepare, AcquireResult,
  Ending, late_answer, closed, Waiting, not_sent_context, not_sent_done, answered, context_done,
  scheduler_done, Acquired, give_up, ended, await,
}

-- The result that came back, if any, was a permit.
abbrev pub granted_end : Ending → Bool
granted_end (late_answer r) = r.permit
granted_end (closed (some r)) = r.permit
granted_end (closed none) = false

abbrev pub granted : Waiting → Bool
granted not_sent_context = false
granted not_sent_done = false
granted (answered r failed) = r.permit
granted (context_done e) = granted_end e
granted (scheduler_done (some r)) = r.permit
granted (scheduler_done none) = false

-- A permit is the caller's, or finished: one of the two if it was granted, and none otherwise.
abbrev pub Settled : Bool → Acquired → Type 0
Settled p a = ((a.permit || a.finished) ≡ p) × ((a.permit && a.finished) ≡ false)

give_up-Settled : (r : AcquireResult) → Settled r.permit (give_up r)
unfolding give_up
give_up-Settled r = ground arith

ended-Settled : (e : Ending) → Settled (granted_end e) (ended e)
unfolding ended
ended-Settled (late_answer r) = give_up-Settled r
ended-Settled (closed (some r)) = give_up-Settled r
ended-Settled (closed none) = (refl, refl)

-- However the selects go, a permit that the owner granted and the caller received is returned or
-- finished and never both, and where none was received neither happens.
pub await-Settled : (w : Waiting) → Settled (granted w) (await w)
unfolding await
await-Settled not_sent_context = (refl, refl)
await-Settled not_sent_done = (refl, refl)
await-Settled (answered r failed) = ground (arith, give_up-Settled r)
await-Settled (context_done e) = ended-Settled e
await-Settled (scheduler_done (some r)) = ground arith
await-Settled (scheduler_done none) = (refl, refl)

-- What an entry that goes to the mailbox has.
pub record Sent (c : ValidatedConfig) (x : CallerContext) (now last_id : ℕ) (a : Admission)
    (e : Entry) : Type 0 where
  pub acceptable : Acceptable c a
  pub admission : e.admission ≡ a
  pub id : e.id ≡ u64 (last_id + 1)
  pub live : x.failed ≡ false
  pub timely : now < e.deadline
  pub in_queue : e.deadline ≤ add_time now a.queue_timeout

chosen-le : (o : Option ℕ) (d : ℕ) → (choose_deadline o d).0 ≤ d
unfolding choose_deadline
chosen-le none d = omega arith
chosen-le (some k) d = ground arith

made_entry :
    (now last_id : ℕ) (a : Admission) (d : ℕ) (source : DeadlineSource) (e : Entry)
    → make_entry now last_id a d source ≡ ready e
    → (e.admission ≡ a) × (e.id ≡ u64 (last_id + 1)) × (now < d) × (e.deadline ≡ d)
unfolding make_entry
made_entry now last_id a d source e h = ground arith

decided : (k : DecisionKind) → is_undecided k ≡ true → k ≡ undecided
decided undecided h = refl
decided DecisionKind.dispatched h = absurd (ground arith)
decided DecisionKind.tenant_rejected h = absurd (ground arith)
decided DecisionKind.global_rejected h = absurd (ground arith)
decided DecisionKind.queue_expired h = absurd (ground arith)
decided DecisionKind.canceled_queued h = absurd (ground arith)
decided DecisionKind.canceled_before_start h = absurd (ground arith)
decided DecisionKind.shutdown h = absurd (ground arith)
decided DecisionKind.draining h = absurd (ground arith)
decided DecisionKind.invalid h = absurd (ground arith)

prepare_parts :
    (c : ValidatedConfig) (x : CallerContext) (now last_id : ℕ) (a : Admission) (e : Entry)
    → prepare c (some x) now last_id a ≡ ready e
    → (is_undecided (validate_admission c a).kind ≡ true)
      × (x.failed ≡ false)
      × (make_entry now last_id a
            (choose_deadline x.deadline (add_time now a.queue_timeout)).0
            (choose_deadline x.deadline (add_time now a.queue_timeout)).1
          ≡ ready e)
unfolding prepare
prepare_parts c x now last_id a e h = ground arith

-- An entry that the caller sends to the owner has the next ID and an acceptable admission (its work
-- within the maximum, its tenant configured), the context had no error, and its deadline is after
-- the present and at most the queue timeout ahead, whatever deadline the client has.
pub prepare-Sent :
    (c : ValidatedConfig) (x : CallerContext) (now last_id : ℕ) (a : Admission) (e : Entry)
    → prepare c (some x) now last_id a ≡ ready e
    → Sent c x now last_id a e
prepare-Sent c x now last_id a e h =
    let (passes, live, made) = prepare_parts c x now last_id a e h in
    let (admission, id, timely, deadline) = made_entry _ _ _ _ _ _ made in
    record {
      acceptable = (validate_admission_iff c a).0 (decided _ passes);
      admission = admission;
      id = id;
      live = live;
      timely = omega (arith, timely, deadline);
      in_queue = omega (arith, chosen-le x.deadline (add_time now a.queue_timeout), deadline);
    }
