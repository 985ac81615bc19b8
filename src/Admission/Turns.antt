-- ===== src/Admission/Turns.antt =====
-- The second inner loop of `pump` (internal/admission/owner.go): a tenant's queue is served on its
-- credit.
use ssemaphore.Prelude.{
  ℕ, ◌+◌, ◌-◌, ◌≤◌, ◌<◌, ◌≡◌, refl, sym, ◌∙◌, ap, ◌⊎◌, inl, inr, Bool, true, false, ◌||◌, some,
  List, [], ◌∷◌, arith, ltb, get_elem?, get_elem?-set_self, lt-get_elem?, subst, Ensures,
  Ensures-mono, Ensures-bind, Bool-cases,
}
use ssemaphore.Admission.Counters.{inflight_fits}
use ssemaphore.Admission.Entries.{Entry, is_queued, find, find-id}
use ssemaphore.Admission.Totals.{weigh, erase}
use ssemaphore.Admission.State.{TenantState, OwnerState, Env}
use ssemaphore.Admission.Pump.{
  advance, set_tenant, dispatch, saturated, gone, kept, check_head, close_visit, Turn, again, leave,
  quit, settle, settle_queue, grant, turn,
}
use ssemaphore.Admission.Invariant.{Inv, Post, Post-trans, Same-refl, IsIdle}
use ssemaphore.Admission.Dispatch.{served, granted, dispatch-eq, granted-Inv, granted-Same}
use ssemaphore.Admission.Moves.{credited, credited-Post, advance-Post}
use ssemaphore.Admission.Expiring.{found_self}
use ssemaphore.Admission.Measure.{
  lack, Drops, Drops-trans, measure-advance, measure-credited, measure-granted,
}
use ssemaphore.Admission.Pumping.{Checked, check_head-Checked, observed_twice}

-- A tenant's credit is set, and the measure does not grow.
pub credited-Drops :
    (n : ℕ) (s : OwnerState) (v : Inv s) (i : ℕ) (t : TenantState) (d : ℕ) (b : Bool)
    → get_elem? s.tenants i ≡ some t
    → d ≤ s.config.deficit_cap
    → IsIdle (credited d b t)
    → lack s.config.deficit_cap (credited d b t) + n ≤ lack s.config.deficit_cap t
    → Drops n s (set_tenant i (credited d b t) s)
credited-Drops n s v i t d b owner le idle less = record {
  post = credited-Post s v i t owner d b le idle;
  less = omega (arith, measure-credited s i t d b owner);
}

pub advance-Drops : (s : OwnerState) → Inv s → Drops 0 s (advance s)
advance-Drops s v = record { post = advance-Post s v; less = omega (arith, measure-advance s) }

-- The credit of a tenant with an empty queue is dropped already.
pub close_visit-Drops :
    (s : OwnerState) (v : Inv s) (i : ℕ) (t : TenantState)
    → get_elem? s.tenants i ≡ some t
    → t.queue ≡ []
    → Drops 0 s (set_tenant i (close_visit t) s)
unfolding lack
close_visit-Drops s v i t owner empty =
    let idle = v.idle i t owner empty in
    credited-Drops 0 s v i t 0 false owner (omega arith) (λ _. (refl, refl)) (ground (arith, idle))

-- How a turn of the second inner loop ends.
abbrev pub flag : Bool → Bool → ℕ
flag d n = weigh (d || n) 1

abbrev pub IsOpen : TenantState → Type 0
IsOpen t = (t.queue ≡ []) ⊎ (t.visit_open ≡ true)

abbrev pub Again : ℕ → List ℕ → OwnerState → Type 0
Again i q s = (t : TenantState) × (get_elem? s.tenants i ≡ some t) × (t.queue ≡ q) × IsOpen t

abbrev pub Turned : ℕ → List ℕ → OwnerState → Turn → Type 0
Turned i q s (again s' d) = Drops 1 s s' × Again i q s'
Turned i q s (leave s' d n) = Drops (flag d n) s s'
Turned i q s (quit s') = Post s s'

-- What follows a dispatch.
settle_queue-Turned :
    (i : ℕ) (s s' : OwnerState) (t : TenantState) (q q' : List ℕ)
    → Drops 1 s s'
    → get_elem? s'.tenants i ≡ some t
    → t.queue ≡ q'
    → t.queue ≡ q
    → IsOpen t
    → Turned i q s (settle_queue i t q' s')
unfolding settle_queue
settle_queue-Turned i s s' t q [] p owner h hq o =
    let closed = close_visit-Drops s' p.post.inv i t owner h in
    let u = set_tenant i (close_visit t) s' in
    let moved = advance-Post u closed.post.inv in
    elim (Bool-cases (saturated s')) [
      | inl full ↦
          rw full
            (Post-trans s s' (advance u) p.post (Post-trans s' u (advance u) closed.post moved))
      | inr room ↦ rw room (Drops-trans 1 0 s s' u p closed)
    ]
settle_queue-Turned i s s' t q (x ∷ q') p owner h hq o = elim (Bool-cases (saturated s')) [
  | inl full ↦ rw full p.post
  | inr room ↦ rw room (p, (t, owner, hq, o))
]

-- The head is dispatched on the credit, unless the global bounds are reserved for it.
module _ (s : OwnerState) (v : Inv s) (i : ℕ) (t : TenantState) (id : ℕ) (q : List ℕ) (e : Entry)
    (owner : get_elem? s.tenants i ≡ some t) (h : t.queue ≡ id ∷ q)
    (found : find id s.entries ≡ some e) (waits : is_queued e ≡ true) (ten : e.tenant ≡ i)
    (visiting : t.visit_open ≡ true)
    (fits_tenant : inflight_fits t.counters e.admission t.config.inflight ≡ true) where
  abbrev paid : TenantState
  paid = credited (t.deficit - e.admission.work_units) t.visit_open t

  abbrev charged : OwnerState
  charged = set_tenant i paid s

  charged-Post : Post s charged
  charged-Post =
      credited-Post s v i t owner (t.deficit - e.admission.work_units) t.visit_open
        (omega (arith, (v.tenant i t owner).credit)) (λ none_left. absurd (ground (arith, h)))

  paid_owner : get_elem? charged.tenants e.tenant ≡ some paid
  paid_owner =
      subst (λ j. get_elem? charged.tenants j ≡ some paid) (sym ten)
        (get_elem?-set_self s.tenants i paid (lt-get_elem? s.tenants i owner))

  served_queue : ((served e paid).queue ≡ q) × IsOpen (served e paid)
  unfolding erase
  served_queue = ground (arith, find-id id s.entries found)

  self : find e.id s.entries ≡ some e
  self = found_self id e s.entries found

  abbrev after_grant : OwnerState
  after_grant = granted e paid charged

  granted_eq : dispatch e.id charged ≡ some after_grant
  granted_eq = dispatch-eq charged charged-Post.inv e paid self waits paid_owner

  granted_owner : get_elem? after_grant.tenants i ≡ some (served e paid)
  granted_owner =
      subst (λ j. get_elem? after_grant.tenants j ≡ some (served e paid)) ten
        (get_elem?-set_self charged.tenants e.tenant (served e paid)
          (lt-get_elem? charged.tenants e.tenant paid_owner))

  granted-Drops :
      inflight_fits s.global e.admission s.config.global_inflight ≡ true → Drops 1 s after_grant
  granted-Drops room = record {
    post = Post-trans s charged after_grant charged-Post (record {
      inv = granted-Inv charged charged-Post.inv e paid self waits paid_owner fits_tenant room;
      same = granted-Same charged charged-Post.inv e paid self waits paid_owner fits_tenant room;
    });
    less = omega (
      arith,
      measure-granted charged charged-Post.inv e paid self waits paid_owner,
      measure-credited s i t (t.deficit - e.admission.work_units) t.visit_open owner,
    );
  }

  pub grant-Turned : Ensures (grant i e s) (Turned i q s)
  unfolding grant settle
  grant-Turned = elim (Bool-cases (inflight_fits s.global e.admission s.config.global_inflight)) [
    | inr full ↦ rw full (record { inv = v; same = Same-refl s })
    | inl room ↦
        rw (room, owner)
          (rw granted_eq (
            rw granted_owner (
              settle_queue-Turned i s after_grant (served e paid) q (served e paid).queue
                (granted-Drops room) granted_owner refl served_queue.0 served_queue.1)))
  ]

Turned-after :
    (i : ℕ) (q : List ℕ) (s s' : OwnerState) (r : Turn)
    → Drops 0 s s'
    → Turned i q s' r
    → Turned i q s r
Turned-after i q s s' (again u d) o (p, a) = (Drops-trans 0 1 s s' u o p, a)
Turned-after i q s s' (leave u d n) o p = record {
  post = Post-trans s s' u o.post p.post;
  less = omega (arith, o.less, p.less);
}
Turned-after i q s s' (quit u) o p = Post-trans s s' u o.post p

-- A head that its credit does not pay for: the visit is closed, so that the next one is funded.
unpaid-Drops :
    (s : OwnerState) (v : Inv s) (i : ℕ) (t : TenantState) (id : ℕ) (q : List ℕ) (e : Entry)
    → get_elem? s.tenants i ≡ some t
    → t.queue ≡ id ∷ q
    → find id s.entries ≡ some e
    → t.visit_open ≡ true
    → t.deficit < e.admission.work_units
    → Drops 1 s (set_tenant i (record t { visit_open = false }) s)
unfolding lack
unpaid-Drops s v i t id q e owner h found visiting short =
    credited-Drops 1 s v i t t.deficit false owner (v.tenant i t owner).credit
      (λ none_left. absurd (ground (arith, h)))
      (ground (arith, (v.entry id e found).work_le, v.config.cap_work))

pub turn-Turned :
    (env : Env) (s : OwnerState) (v : Inv s) (i : ℕ) (t : TenantState) (id : ℕ) (q : List ℕ)
    (e : Entry)
    → get_elem? s.tenants i ≡ some t
    → t.queue ≡ id ∷ q
    → find id s.entries ≡ some e
    → is_queued e ≡ true
    → e.tenant ≡ i
    → t.visit_open ≡ true
    → Ensures (turn env i t e s) (Turned i q s)
unfolding turn
turn-Turned env s v i t id q e owner h found waits ten visiting =
    elim (Bool-cases (inflight_fits t.counters e.admission t.config.inflight)) [
      | inr full ↦
          rw full (record { post = record { inv = v; same = Same-refl s }; less = omega arith })
      | inl room ↦ elim (Bool-cases (ltb t.deficit e.admission.work_units)) [
        | inl short ↦
            rw (room, short) (unpaid-Drops s v i t id q e owner h found visiting (ground arith))
        | inr pays ↦
            rw (room, pays)
              (Ensures-bind (check_head env e s) _ (Checked i q t s) (Turned i q s)
                (check_head-Checked env s v i t id q e owner h found waits ten)
                (elim [
                  | gone s' ↦ λ p. (
                    p.drops,
                    (p.tenant, p.owner, p.queue, ground (arith, p.open_visit visiting, p.queue)),
                  )
                  | kept s' ↦ λ same.
                      let o = subst (Drops 0 s) (sym same) (observed_twice s v) in
                      let tenants = ap (λ (x : OwnerState). x.tenants) same in
                      let entries = ap (λ (x : OwnerState). x.entries) same in
                      Ensures-mono (grant i e s') (Turned i q s') (Turned i q s)
                        (grant-Turned s' o.post.inv i t id q e
                          (ap (λ ts. get_elem? ts i) tenants ∙ owner) h
                          (ap (find id) entries ∙ found) waits ten visiting room)
                        (λ r. Turned-after i q s s' r o)
                ]))
      ]
    ]
