-- ===== src/Admission/Draining.antt =====
-- `beginDrain` (internal/admission/owner.go) and its two loops.
use ssemaphore.Prelude.{
  ℕ, zero, suc, ◌+◌, ◌≤◌, ◌<◌, ◌≡◌, refl, sym, ◌∙◌, ap, inl, inr, ◌≢◌, true, false, some, List, [],
  ◌∷◌, arith, ◌==◌, length, u64, get_elem?, set, get_elem?-lt, get_elem?-set_self, get_elem?-set_ne,
  lt-get_elem?, subst, Ensures, Ensures-mono, Ensures-bind, Bool-cases,
}
use ssemaphore.Admission.Types.{Decision, DrainResult, canceled_queued, shutdown}
use ssemaphore.Admission.Entries.{Entry, is_queued, find, find-id}
use ssemaphore.Admission.Totals.{total-pos, count, count-ids, le-total}
use ssemaphore.Admission.Accounts.{queued_in, one}
use ssemaphore.Admission.State.{TenantState, OwnerState, Env, queue_length}
use ssemaphore.Admission.Owner.{observe, drop_queued, decide}
use ssemaphore.Admission.Commands.{drain_head, drain_queue, drain_tenants, begin_drain}
use ssemaphore.Admission.Invariant.{Inv, Post, Post-trans, Same-refl, at, everywhere}
use ssemaphore.Admission.Removal.{taken, dropped}
use ssemaphore.Admission.Moves.{observe-Post, relabel-Inv}
use ssemaphore.Admission.Expiring.{drop_queued_lem, found_self}
use ssemaphore.Admission.Pumping.{head_entry, taken_queue}

-- What a drain leaves alone, and how the number of entries shut down goes with those queued.
pub record Sheds (s : OwnerState) (n : ℕ) (s' : OwnerState) (n' : ℕ) : Type 0 where
  pub post : Post s s'
  pub inflight : s'.inflight ≡ s.inflight
  pub inflight_count : s'.global.inflight_count ≡ s.global.inflight_count
  pub inflight_work : s'.global.inflight_work ≡ s.global.inflight_work
  pub shut : n' + s'.global.queued_count ≤ n + s.global.queued_count

pub Sheds-refl : (s : OwnerState) (n : ℕ) → Inv s → Sheds s n s n
Sheds-refl s n v = record {
  post = record { inv = v; same = Same-refl s };
  inflight = refl;
  inflight_count = refl;
  inflight_work = refl;
  shut = omega arith;
}

pub Sheds-trans : (s t u : OwnerState) (l m n : ℕ) → Sheds s l t m → Sheds t m u n → Sheds s l u n
Sheds-trans s t u l m n p q = record {
  post = Post-trans s t u p.post q.post;
  inflight = q.inflight ∙ p.inflight;
  inflight_count = q.inflight_count ∙ p.inflight_count;
  inflight_work = q.inflight_work ∙ p.inflight_work;
  shut = omega (arith, p.shut, q.shut);
}

-- Only the queue of tenant `i` changes.
abbrev pub Others : ℕ → OwnerState → OwnerState → Type 0
Others i s s' = (j : ℕ) → i ≢ j → get_elem? s'.tenants j ≡ get_elem? s.tenants j

record Headless (i : ℕ) (q : List ℕ) (s : OwnerState) (n : ℕ) (s' : OwnerState) (n' : ℕ)
    : Type 0 where
  sheds : Sheds s n s' n'
  others : Others i s s'
  tenant : TenantState
  owner : get_elem? s'.tenants i ≡ some tenant
  queue : tenant.queue ≡ q

pub some_queued_count :
    (s : OwnerState) (v : Inv s) (id : ℕ) (e : Entry)
    → find id s.entries ≡ some e
    → is_queued e ≡ true
    → 1 ≤ s.global.queued_count
some_queued_count s v id e found waits = ground (
  arith,
  v.global.queued_count,
  le-total (queued_in everywhere) one e.id e s.entries (found_self id e s.entries found),
)

module _ (s : OwnerState) (v : Inv s) (i : ℕ) (t : TenantState) (id : ℕ) (q : List ℕ) (e : Entry)
    (owner : get_elem? s.tenants i ≡ some t) (h : t.queue ≡ id ∷ q)
    (found : find id s.entries ≡ some e) (waits : is_queued e ≡ true) (ten : e.tenant ≡ i) where
  drop_drained :
      (d : Decision) (n n' : ℕ)
      → n' ≤ n + 1
      → Ensures (drop_queued id d (observe s)) (λ s'. Headless i q s n s' n')
  drop_drained d n n' le =
      let o = observe-Post s v in
      let (u, owner', eq, post) = drop_queued_lem (observe s) o.inv id e d found waits in
      let same : u ≡ t = ground (arith, ap (get_elem? s.tenants) ten) in
      let after =
        taken_queue e u id q (ap (λ (x : TenantState). x.queue) same ∙ h)
          (find-id id s.entries found) in
      rw eq (record {
        sheds = record {
          post = Post-trans s (observe s) (dropped e u d (observe s)) o post;
          inflight = refl;
          inflight_count = refl;
          inflight_work = refl;
          shut = omega (arith, some_queued_count s v id e found waits, le);
        };
        others = λ j ne. get_elem?-set_ne s.tenants (taken e u) (λ same'. ne (sym ten ∙ same'));
        tenant = taken e u;
        owner =
            subst (λ j. get_elem? (set s.tenants e.tenant (taken e u)) j ≡ some (taken e u)) ten
              (get_elem?-set_self s.tenants e.tenant (taken e u)
                (lt-get_elem? s.tenants e.tenant owner'));
        queue = after.0;
      })

  drain_head-Headless :
      (env : Env) (n : ℕ) → Ensures (drain_head env id s n) (λ r. Headless i q s n r.0 r.1)
  unfolding drain_head
  drain_head-Headless env n = elim (Bool-cases (env.canceled s.reads id)) [
    | inl c ↦ rw c (
        Ensures-bind (drop_queued id (decide canceled_queued) (observe s)) (λ s'. some (s', n))
          (λ s'. Headless i q s n s' n) (λ r. Headless i q s n r.0 r.1)
          (drop_drained (decide canceled_queued) n n (omega arith)) (λ s' p. p))
    | inr c ↦ rw c (
        Ensures-bind (drop_queued id (decide shutdown) (observe s)) (λ s'. some (s', u64 (n + 1)))
          (λ s'. Headless i q s n s' (u64 (n + 1))) (λ r. Headless i q s n r.0 r.1)
          (drop_drained (decide shutdown) n (u64 (n + 1)) (omega arith)) (λ s' p. p))
  ]

abbrev Emptied : ℕ → OwnerState → ℕ → OwnerState × ℕ → Type 0
Emptied i s n r = Headless i [] s n r.0 r.1

Emptied-after :
    (i : ℕ) (q : List ℕ) (s s' : OwnerState) (n n' : ℕ) (r : OwnerState × ℕ)
    → Headless i q s n s' n'
    → Emptied i s' n' r
    → Emptied i s n r
Emptied-after i q s s' n n' r p e = record {
  sheds = Sheds-trans s s' r.0 n n' r.1 p.sheds e.sheds;
  others = λ j ne. e.others j ne ∙ p.others j ne;
  tenant = e.tenant;
  owner = e.owner;
  queue = e.queue;
}

drain_queue-Emptied :
    (env : Env) (f i : ℕ) (s : OwnerState) (n : ℕ) (t : TenantState) (q : List ℕ)
    → Inv s
    → get_elem? s.tenants i ≡ some t
    → t.queue ≡ q
    → length q < f
    → Ensures (drain_queue env f i (s, n)) (Emptied i s n)
unfolding drain_queue
drain_queue-Emptied env zero i s n t q v owner h lt = absurd (omega arith)
drain_queue-Emptied env (suc f) i s n t [] v owner h lt =
    simp (owner, h, drain_queue)
      (record {
        sheds = Sheds-refl s n v;
        others = λ j ne. refl;
        tenant = t;
        owner = owner;
        queue = h;
      })
drain_queue-Emptied env (suc f) i s n t (id ∷ q) v owner h lt =
    let (e, found, waits, ten) = head_entry s v i t id q owner h in
    simp (owner, h, drain_queue)
      (Ensures-bind (drain_head env id s n) (drain_queue env f i) (λ r. Headless i q s n r.0 r.1)
        (Emptied i s n) (drain_head-Headless s v i t id q e owner h found waits ten env n)
        (λ (s', n') p.
          Ensures-mono (drain_queue env f i (s', n')) (Emptied i s' n') (Emptied i s n)
            (drain_queue-Emptied env f i s' n' p.tenant q p.sheds.post.inv p.owner p.queue
              (omega arith))
            (λ r. Emptied-after i q s s' n n' r p)))

-- The queues below `i` are empty.
abbrev pub EmptyBelow : ℕ → OwnerState → Type 0
EmptyBelow i s = (j : ℕ) (t : TenantState) → j < i → get_elem? s.tenants j ≡ some t → t.queue ≡ []

empty_next :
    (i : ℕ) (s : OwnerState) (n : ℕ) (r : OwnerState × ℕ)
    → EmptyBelow i s
    → Emptied i s n r
    → EmptyBelow (suc i) r.0
empty_next i s n r below e j t lt owner = elim (Bool-cases (i == j)) [
  | inl same ↦
      let p : i ≡ j = ground arith in
      let u : e.tenant ≡ t = ground (arith, ap (get_elem? r.0.tenants) p, e.owner) in
      ap (λ (x : TenantState). x.queue) (sym u) ∙ e.queue
  | inr differ ↦
      let ne : i ≢ j = ground arith in below j t (ground arith) (sym (e.others j ne) ∙ owner)
]

drain_tenants-Sheds :
    (env : Env) (k i : ℕ) (s : OwnerState) (n : ℕ)
    → Inv s
    → i + k ≡ length s.tenants
    → EmptyBelow i s
    → Ensures
        (drain_tenants env k i (s, n))
        (λ r. Sheds s n r.0 r.1 × EmptyBelow (length r.0.tenants) r.0)
unfolding drain_tenants
drain_tenants-Sheds env zero i s n v e below =
    (Sheds-refl s n v, λ j t lt owner. below j t (omega arith) owner)
drain_tenants-Sheds env (suc k) i s n v e below =
    let (t, owner) = get_elem?-lt s.tenants i (omega arith) in
    Ensures-bind (drain_queue env (suc (queue_length s i)) i (s, n)) (drain_tenants env k (suc i))
      (Emptied i s n) (λ r. Sheds s n r.0 r.1 × EmptyBelow (length r.0.tenants) r.0)
      (drain_queue-Emptied env (suc (queue_length s i)) i s n t t.queue v owner refl
        (ground (arith, owner)))
      (λ (s', n') p.
        Ensures-mono (drain_tenants env k (suc i) (s', n'))
          (λ r. Sheds s' n' r.0 r.1 × EmptyBelow (length r.0.tenants) r.0)
          (λ r. Sheds s n r.0 r.1 × EmptyBelow (length r.0.tenants) r.0)
          (drain_tenants-Sheds env k (suc i) s' n' p.sheds.post.inv
            (omega (arith, p.sheds.post.same.tenants)) (empty_next i s n (s', n') below p))
          (λ r (d, b). (Sheds-trans s s' r.0 n n' r.1 p.sheds d, b)))

-- The entry of a tenant that waits stands in its queue.
not_empty :
    (s : OwnerState) (v : Inv s) (e : Entry) (t : TenantState)
    → find e.id s.entries ≡ some e
    → is_queued e ≡ true
    → get_elem? s.tenants e.tenant ≡ some t
    → t.queue ≢ []
unfolding count
not_empty s v e t found waits owner h = ground (
  arith,
  ap (count e.id) (v.tenant e.tenant t owner).queue,
  ap (count e.id) h,
  count-ids (queued_in (at e.tenant)) e.id s.entries v.distinct,
)

-- With all queues empty nothing is queued.
pub none_waits :
    (s : OwnerState) (v : Inv s) (id : ℕ) (e : Entry)
    → EmptyBelow (length s.tenants) s
    → find id s.entries ≡ some e
    → is_queued e ≡ false
none_waits s v id e empty found = elim (Bool-cases (is_queued e)) [
  | inr passed ↦ passed
  | inl waits ↦
      let ten = (v.entry id e found).tenant_lt in
      let (t, owner) = get_elem?-lt s.tenants e.tenant ten in
      absurd (
        not_empty s v e t (found_self id e s.entries found) waits owner
          (empty e.tenant t ten owner))
]

pub none_queued :
    (s : OwnerState) → Inv s → EmptyBelow (length s.tenants) s → s.global.queued_count ≡ 0
none_queued s v empty = elim (Bool-cases (s.global.queued_count == 0)) [
  | inl zero_count ↦ ground arith
  | inr some_left ↦
      let (e, found, chosen) =
        total-pos (queued_in everywhere) s.entries v.distinct
          (ground (arith, v.global.queued_count)) in
      ground (arith, none_waits s v e.id e empty found)
]

-- A drain leaves no entry queued and admits no more; what is in flight is as before. It reports no
-- more entries than were queued, and what is in flight.
pub record Drained (s : OwnerState) (r : DrainResult) (s' : OwnerState) : Type 0 where
  pub inv : Inv s'
  pub config : s'.config ≡ s.config
  pub tenants : length s'.tenants ≡ length s.tenants
  pub received : s'.received ≡ s.received
  pub closed : s'.accepting ≡ false
  pub none_queued : s'.global.queued_count ≡ 0
  pub none_waits : (id : ℕ) (e : Entry) → find id s'.entries ≡ some e → is_queued e ≡ false
  pub inflight : s'.inflight ≡ s.inflight
  pub inflight_count : s'.global.inflight_count ≡ s.global.inflight_count
  pub inflight_work : s'.global.inflight_work ≡ s.global.inflight_work
  pub reported : r.queued_shutdown_canceled ≤ s.global.queued_count
  pub active : r.in_flight_active_at_start ≡ s.global.inflight_count

abbrev shut_off : OwnerState → OwnerState
shut_off s = record s { accepting = false }

-- In a sound state, a drain goes through: it leaves a sound state that admits no more and holds no
-- waiting entry, with the permits and the accounting in flight as before. It reports the requests
-- in flight, and no more canceled ones than were queued.
pub begin_drain-Drained :
    (env : Env) (s : OwnerState) → Inv s → Ensures (begin_drain env s) (λ r. Drained s r.0 r.1)
unfolding begin_drain
begin_drain-Drained env s v =
    Ensures-bind (drain_tenants env (length s.tenants) 0 (shut_off s, 0)) _
      (λ r. Sheds (shut_off s) 0 r.0 r.1 × EmptyBelow (length r.0.tenants) r.0)
      (λ r. Drained s r.0 r.1)
      (drain_tenants-Sheds env (length s.tenants) 0 (shut_off s) 0
        (relabel-Inv false s.drain_notified s.signals s.reads s v) (omega arith)
        (λ j t lt owner. elim lt [ ]))
      (λ (s', n) (d, empty). record {
        inv = d.post.inv;
        config = d.post.same.config;
        tenants = d.post.same.tenants;
        received = d.post.same.received;
        closed = d.post.same.accepting;
        none_queued = none_queued s' d.post.inv empty;
        none_waits = λ id e. none_waits s' d.post.inv id e empty;
        inflight = d.inflight;
        inflight_count = d.inflight_count;
        inflight_work = d.inflight_work;
        reported = omega (arith, d.shut);
        active = d.inflight_count;
      })
