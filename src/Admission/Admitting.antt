-- ===== src/Admission/Admitting.antt =====
-- `admit` (internal/admission/owner.go) on every branch: what an item has to meet.
use ssemaphore.Prelude.{
  ℕ, ◌+◌, ◌≤◌, ◌<◌, ◌≡◌, refl, ap, ◌⊎◌, inl, inr, ◌↔◌, true, false, not, none, some, arith, ltb,
  get_elem?, get_elem?-lt, lt-get_elem?, subst, Ensures, Ensures-if, Ensures-option, Bool-cases,
}
use ssemaphore.Admission.Types.{
  Admission, Counters, Decision, QueueLimits, no_resource, count_resource, bytes_resource,
  work_resource, ResourceKind, canceled_queued, invalid,
}
use ssemaphore.Admission.Types
use ssemaphore.Admission.Counters.{queue_limit_failure, add_queued}
use ssemaphore.Admission.Config.{lookup}
use ssemaphore.Admission.Entries.{Entry, find, find-put}
use ssemaphore.Admission.State.{TenantState, OwnerState, Env, answers}
use ssemaphore.Admission.Owner.{
  resolve, enqueue, enqueued, limit_failure, limit_decision, admit_to, admit, decide,
  deadline_decision,
}
use ssemaphore.Admission.Invariant.{Inv}
use ssemaphore.Admission.Moves.{relabel-Inv}
use ssemaphore.Admission.Arrival.{
  IsNew, Arrived, not_answered, not_found, receive, refused, refused-Arrived, resolve-eq,
  enqueue-Arrived,
}

-- One more admission keeps within the limits.
pub record Fits (c : Counters) (a : Admission) (l : QueueLimits) : Type 0 where
  pub count : c.queued_count + 1 ≤ l.count
  pub bytes : c.queued_bytes + a.body_bytes ≤ l.bytes
  pub work : c.queued_work + a.work_units ≤ l.work

-- The limit test finds no resource short exactly where the count, the bytes and the work with the
-- admission added, without wrap-around, are all within their limits.
pub Fits-iff :
    (c : Counters) (a : Admission) (l : QueueLimits)
    → (queue_limit_failure c a l ≡ no_resource) ↔ Fits c a l
unfolding queue_limit_failure
Fits-iff c a l = (λ h. ground arith, λ f. ground arith)

-- Everything that an item has to meet to join a queue.
pub record CanJoin (env : Env) (now : ℕ) (item : Entry) (s : OwnerState) : Type 0 where
  pub accepting : s.accepting ≡ true
  pub live : env.canceled s.reads item.id ≡ false
  pub index : ℕ
  pub tenant : TenantState
  pub known : lookup item.admission.tenant s.config.tenant_by_id ≡ some index
  pub owner : get_elem? s.tenants index ≡ some tenant
  pub timely : now < item.deadline
  pub fits_tenant : Fits tenant.counters item.admission tenant.config.queue
  pub fits_global : Fits s.global item.admission s.config.global_queue

pub record Admitted (env : Env) (now : ℕ) (item : Entry) (s s' : OwnerState) : Type 0 where
  pub arrived : Arrived item.id s s'
  pub joined :
      (c : CanJoin env now item s)
      → (find item.id s'.entries ≡ some (enqueued s c.index item))
        × (s'.global.queued_count ≡ s.global.queued_count + 1)
        × (answers item.id s'.replies ≡ 0)
  pub refused :
      (CanJoin env now item s → ⊥)
      → (find item.id s'.entries ≡ none) × (s'.global ≡ s.global) × (answers item.id s'.replies ≡ 1)

-- The state but for the number of reads.
abbrev pub after_reads : ℕ → OwnerState → OwnerState
after_reads r s = record s { reads = r }

after_reads-Inv : (r : ℕ) (s : OwnerState) → Inv s → Inv (after_reads r s)
after_reads-Inv r s v =
    subst (λ (u : OwnerState). Inv u) refl
      (relabel-Inv s.accepting s.drain_notified s.signals r s v)

refused_answers :
    (id : ℕ) (d : Decision) (s : OwnerState)
    → answers id s.replies ≡ 0
    → answers id (refused id d s).replies ≡ 1
unfolding answers
refused_answers id d s h = ground (arith, h)

limit_decision-cases :
    (a b : ResourceKind)
    → ((limit_decision a b ≡ none) × (a ≡ no_resource) × (b ≡ no_resource))
      ⊎ ((d : Decision) × (limit_decision a b ≡ some d) × (a ≡ no_resource → b ≡ no_resource → ⊥))
unfolding limit_decision
limit_decision-cases no_resource no_resource = inl (refl, refl, refl)
limit_decision-cases no_resource count_resource = inr (_, refl, λ p q. cc)
limit_decision-cases no_resource bytes_resource = inr (_, refl, λ p q. cc)
limit_decision-cases no_resource work_resource = inr (_, refl, λ p q. cc)
limit_decision-cases count_resource b = inr (_, refl, λ p q. cc)
limit_decision-cases bytes_resource b = inr (_, refl, λ p q. cc)
limit_decision-cases work_resource b = inr (_, refl, λ p q. cc)

module _ (env : Env) (now : ℕ) (item : Entry) (s : OwnerState) (v : Inv s)
    (new : IsNew item.id s) where
  -- An answer at once, for an item that cannot join.
  resolve-Admitted :
      (r : ℕ) (d : Decision)
      → (CanJoin env now item s → ⊥)
      → Ensures
          (resolve item.id false d (receive item.id (after_reads r s)))
          (Admitted env now item s)
  resolve-Admitted r d cannot =
      let v' = after_reads-Inv r s v in
      rw (resolve-eq (after_reads r s) v' item.id new d) (record {
        arrived =
            let a = refused-Arrived (after_reads r s) v' item.id new d in
            record {
              inv = a.inv;
              config = refl;
              tenants = refl;
              received = refl;
              accepting = refl;
            };
        joined = λ c. absurd (cannot c);
        refused = λ _. (
          not_found item.id s v new,
          refl,
          refused_answers item.id d s (not_answered item.id s v new),
        );
      })

  abbrev LimitCases : TenantState → ℕ → Type 0
  LimitCases t r =
      ((limit_failure env now t item (receive item.id (after_reads r s)) ≡ none)
        × (now < item.deadline)
        × Fits t.counters item.admission t.config.queue
        × Fits s.global item.admission s.config.global_queue)
      ⊎ ((d : Decision) × (limit_failure env now t item (receive item.id (after_reads r s))
            ≡ some d)
          × (now < item.deadline
              → Fits t.counters item.admission t.config.queue
              → Fits s.global item.admission s.config.global_queue
              → ⊥))

  limit_failure-cases : (t : TenantState) (r : ℕ) → LimitCases t r
  unfolding limit_failure
  limit_failure-cases t r =
      let ft = Fits-iff t.counters item.admission t.config.queue in
      let fg = Fits-iff s.global item.admission s.config.global_queue in
      elim (Bool-cases (ltb now item.deadline)) [
        | inr late ↦ rw late (
            inr (
              deadline_decision env (receive item.id (after_reads r s)) item,
              refl,
              λ p q w. ground arith,
            ))
        | inl timely ↦
            rw timely
              (elim (limit_decision-cases
                (queue_limit_failure t.counters item.admission t.config.queue)
                (queue_limit_failure s.global item.admission s.config.global_queue)) [
                  | inl (none_failed, a, b) ↦ inl (none_failed, ground arith, ft.0 a, fg.0 b)
                  | inr (d, failed, some_failed) ↦
                      inr (d, failed, λ p q w. some_failed (ft.1 q) (fg.1 w))
                ])
      ]

  enqueued_count :
      Fits s.global item.admission s.config.global_queue
      → (add_queued s.global item.admission).queued_count ≡ s.global.queued_count + 1
  unfolding add_queued
  enqueued_count f = omega (arith, f.count, v.config.in_range.queue_count)

  enqueue_joined :
      (c : CanJoin env now item s) (r : ℕ) (c' : CanJoin env now item s)
      → let s' = enqueue c.index c.tenant item (receive item.id (after_reads r s)) in
        (find item.id s'.entries ≡ some (enqueued s c'.index item))
        × (s'.global.queued_count ≡ s.global.queued_count + 1)
        × (answers item.id s'.replies ≡ 0)
  unfolding enqueue
  enqueue_joined c r c' =
      let same : c.index ≡ c'.index = ground (arith, c.known, c'.known) in
      (
        ground (arith, find-put item.id (enqueued s c.index item) s.entries, same),
        enqueued_count c.fits_global,
        not_answered item.id s v new,
      )

  enqueue-Admitted :
      (c : CanJoin env now item s) (r : ℕ)
      → item.admission.work_units ≤ s.config.max_request_units
      → Admitted env now item s (enqueue c.index c.tenant item (receive item.id (after_reads r s)))
  enqueue-Admitted c r work =
      let a =
        enqueue-Arrived (after_reads r s) (after_reads-Inv r s v) c.index c.tenant item new c.owner
          (lt-get_elem? s.tenants c.index c.owner) work
          ((Fits-iff c.tenant.counters item.admission c.tenant.config.queue).1 c.fits_tenant)
          ((Fits-iff s.global item.admission s.config.global_queue).1 c.fits_global) in
      record {
        arrived = record {
          inv = a.inv;
          config = a.config;
          tenants = a.tenants;
          received = a.received;
          accepting = a.accepting;
        };
        joined = enqueue_joined c r;
        refused = λ cannot. absurd (cannot c);
      }

  admit_to-Admitted :
      (i r : ℕ)
      → s.accepting ≡ true
      → env.canceled s.reads item.id ≡ false
      → lookup item.admission.tenant s.config.tenant_by_id ≡ some i
      → item.admission.work_units ≤ s.config.max_request_units
      → (t : TenantState) → get_elem? s.tenants i ≡ some t
      → Ensures
          (admit_to env now i item (receive item.id (after_reads r s)))
          (Admitted env now item s)
  unfolding admit_to
  admit_to-Admitted i r accepting live known work t owner = rw owner (
      Ensures-option (limit_failure env now t item (receive item.id (after_reads r s))) _ _
        (Admitted env now item s) (joins (limit_failure-cases t r))
        (λ d failed. resolve-Admitted (r + 1) d (refuses d failed (limit_failure-cases t r))))
    where
      joins :
          LimitCases t r
          → limit_failure env now t item (receive item.id (after_reads r s)) ≡ none
          → Admitted env now item s (enqueue i t item (receive item.id (after_reads r s)))
      joins (inr (d, failed, cannot)) passed = cc (failed, passed)
      joins (inl (_, timely, ft, fg)) passed =
          enqueue-Admitted
            (record {
              accepting = accepting;
              live = live;
              index = i;
              tenant = t;
              known = known;
              owner = owner;
              timely = timely;
              fits_tenant = ft;
              fits_global = fg;
            })
            r work

      refuses :
          (d : Decision)
          → limit_failure env now t item (receive item.id (after_reads r s)) ≡ some d
          → LimitCases t r
          → CanJoin env now item s
          → ⊥
      refuses d failed (inl (passed, _, _, _)) c = cc (failed, passed)
      refuses d failed (inr (_, _, cannot)) c =
          let same : c.index ≡ i = ground (arith, c.known, known) in
          let t' : c.tenant ≡ t = ground (arith, ap (get_elem? s.tenants) same, c.owner, owner) in
          cannot c.timely
            (subst (λ (u : TenantState). Fits u.counters item.admission u.config.queue) t'
              c.fits_tenant)
            c.fits_global

  pub admit-Admitted :
      item.admission.work_units ≤ s.config.max_request_units
      → Ensures (admit env now item s) (Admitted env now item s)
  unfolding admit
  admit-Admitted work =
      Ensures-if (not s.accepting) _ _ (Admitted env now item s)
        (λ closed.
          resolve-Admitted s.reads (decide Types.DecisionKind.draining)
            (λ c. absurd (ground (arith, closed, c.accepting))))
        (λ accepting.
          Ensures-if (env.canceled s.reads item.id) _ _ (Admitted env now item s)
            (λ gone.
              resolve-Admitted (s.reads + 1) (decide canceled_queued) (λ c. cc (gone, c.live)))
            (λ live.
              Ensures-option (lookup item.admission.tenant s.config.tenant_by_id) _ _
                (Admitted env now item s)
                (λ unknown.
                  resolve-Admitted (s.reads + 1) (decide invalid) (λ c. cc (unknown, c.known)))
                (λ i known.
                  let (t, owner) =
                    get_elem?-lt s.tenants i (v.config.index item.admission.tenant i known) in
                  admit_to-Admitted i (s.reads + 1) (ground (arith, accepting)) live known work t
                    owner)))
