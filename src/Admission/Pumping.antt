-- ===== src/Admission/Pumping.antt =====
-- The first inner loop of `pump` (internal/admission/owner.go): heads that are canceled or expired
-- leave their queue.
use ssemaphore.Prelude.{
  ℕ, zero, suc, ◌+◌, ◌<◌, ◌≡◌, refl, sym, ◌∙◌, ap, ◌⊎◌, inl, inr, true, some, List, [], ◌∷◌, arith,
  ltb, length, get_elem?, get_elem?-set_self, lt-get_elem?, subst, Ensures, Ensures-mono,
  Ensures-bind, Bool-cases,
}
use ssemaphore.Admission.Types.{Decision, canceled_queued}
use ssemaphore.Admission.Entries.{Entry, is_queued, find, find-id}
use ssemaphore.Admission.Totals.{hit-pos, count, count-ids, erase}
use ssemaphore.Admission.Accounts.{queued_in}
use ssemaphore.Admission.State.{TenantState, OwnerState, Env}
use ssemaphore.Admission.Owner.{observe, drop_queued, expire, decide, deadline_decision}
use ssemaphore.Admission.Pump.{Check, gone, kept, check_head, prune}
use ssemaphore.Admission.Invariant.{Inv, Same-refl, at}
use ssemaphore.Admission.Removal.{taken, dropped}
use ssemaphore.Admission.Moves.{observe-Post}
use ssemaphore.Admission.Expiring.{drop_queued_lem, found_self}
use ssemaphore.Admission.Measure.{Drops, Drops-trans, measure-observe, measure-dropped}

-- The head of a tenant's queue is a queued entry of the tenant.
pub head_entry :
    (s : OwnerState) (v : Inv s) (i : ℕ) (t : TenantState) (id : ℕ) (q : List ℕ)
    → get_elem? s.tenants i ≡ some t
    → t.queue ≡ id ∷ q
    → (e : Entry) × (find id s.entries ≡ some e) × (is_queued e ≡ true) × (e.tenant ≡ i)
unfolding count
head_entry s v i t id q owner h =
    let (e, found, chosen) = hit-pos (queued_in (at i)) (find id s.entries) (
      ground (
        arith,
        ap (count id) ((v.tenant i t owner).queue),
        ap (count id) h,
        count-ids (queued_in (at i)) id s.entries v.distinct,
      )) in
    (e, found, ground (arith, chosen), ground (arith, chosen))

-- A tenant's queue and whether its visit is open, if any entry waits.
abbrev pub Has : ℕ → List ℕ → OwnerState → Type 0
Has i q s = (t : TenantState) × (get_elem? s.tenants i ≡ some t) × (t.queue ≡ q)

-- What the removal of the head comes to.
pub record Popped (i : ℕ) (q : List ℕ) (t : TenantState) (s s' : OwnerState) : Type 0 where
  pub drops : Drops 1 s s'
  pub tenant : TenantState
  pub owner : get_elem? s'.tenants i ≡ some tenant
  pub queue : tenant.queue ≡ q
  pub open_visit : t.visit_open ≡ true → (q ≡ []) ⊎ (tenant.visit_open ≡ true)

pub observe-Drops : (s : OwnerState) → Inv s → Drops 0 s (observe s)
observe-Drops s v = record { post = observe-Post s v; less = omega (arith, measure-observe s) }

pub taken_queue :
    (e : Entry) (t : TenantState) (id : ℕ) (q : List ℕ)
    → t.queue ≡ id ∷ q
    → e.id ≡ id
    → ((taken e t).queue ≡ q) × (t.visit_open ≡ true → (q ≡ []) ⊎ ((taken e t).visit_open ≡ true))
unfolding erase
taken_queue e t id q h k = ground arith

-- The head is dropped, for whatever reason.
drop_head :
    (s : OwnerState) (v : Inv s) (i : ℕ) (t : TenantState) (id : ℕ) (q : List ℕ) (e : Entry)
    (d : Decision)
    → get_elem? s.tenants i ≡ some t
    → t.queue ≡ id ∷ q
    → find id s.entries ≡ some e
    → is_queued e ≡ true
    → e.tenant ≡ i
    → Ensures (drop_queued id d s) (Popped i q t s)
drop_head s v i t id q e d owner h found waits ten =
    let (u, owner', eq, post) = drop_queued_lem s v id e d found waits in
    let same : u ≡ t = ground (arith, ap (get_elem? s.tenants) ten) in
    let after =
      taken_queue e u id q (ap (λ (x : TenantState). x.queue) same ∙ h)
        (find-id id s.entries found) in
    rw eq (record {
      drops = record {
        post = post;
        less = measure-dropped s v e u (found_self id e s.entries found) waits owner' d;
      };
      tenant = taken e u;
      owner =
          subst (λ j. get_elem? (dropped e u d s).tenants j ≡ some (taken e u)) ten
            (get_elem?-set_self s.tenants e.tenant (taken e u)
              (lt-get_elem? s.tenants e.tenant owner'));
      queue = after.0;
      open_visit = λ o. after.1 (ap (λ (x : TenantState). x.visit_open) same ∙ o);
    })

-- Reads of the environment before the removal change nothing of it.
Popped-after :
    (i : ℕ) (q : List ℕ) (t : TenantState) (s s₁ s' : OwnerState)
    → Drops 0 s s₁
    → Popped i q t s₁ s'
    → Popped i q t s s'
Popped-after i q t s s₁ s' o p = record {
  drops = Drops-trans 0 1 s s₁ s' o p.drops;
  tenant = p.tenant;
  owner = p.owner;
  queue = p.queue;
  open_visit = p.open_visit;
}

pub Drops-weaken : (s u : OwnerState) → Drops 1 s u → Drops 0 s u
Drops-weaken s u d = record { post = d.post; less = omega (arith, d.less) }

pub observed_twice : (s : OwnerState) → Inv s → Drops 0 s (observe (observe s))
observed_twice s v =
    let o = observe-Drops s v in
    Drops-trans 0 0 s (observe s) (observe (observe s)) o (observe-Drops (observe s) o.post.inv)

-- A head that is tested is dropped, or the state is as before but for the reads.
abbrev pub Checked : ℕ → List ℕ → TenantState → OwnerState → Check → Type 0
Checked i q t s (gone s') = Popped i q t s s'
Checked i q t s (kept s') = s' ≡ observe (observe s)

module _ (env : Env) (s : OwnerState) (v : Inv s) (i : ℕ) (t : TenantState) (id : ℕ) (q : List ℕ)
    (e : Entry) (owner : get_elem? s.tenants i ≡ some t) (h : t.queue ≡ id ∷ q)
    (found : find id s.entries ≡ some e) (waits : is_queued e ≡ true) (ten : e.tenant ≡ i) where
  same_id : e.id ≡ id
  same_id = find-id id s.entries found

  drop_after :
      (s₁ : OwnerState) (d : Decision)
      → Drops 0 s s₁
      → s₁.tenants ≡ s.tenants
      → s₁.entries ≡ s.entries
      → Ensures (drop_queued e.id d s₁) (Popped i q t s)
  drop_after s₁ d o same_tenants same_entries =
      Ensures-mono (drop_queued e.id d s₁) (Popped i q t s₁) (Popped i q t s)
        (drop_head s₁ o.post.inv i t e.id q e d (ap (λ ts. get_elem? ts i) same_tenants ∙ owner)
          (h ∙ ap (λ x. x ∷ q) (sym same_id))
          (ap (find e.id) same_entries ∙ found_self id e s.entries found) waits ten)
        (λ s'. Popped-after i q t s s₁ s' o)

  observed : Drops 0 s (observe s)
  observed = observe-Drops s v

  expire_head : Ensures (expire env e.id (observe (observe s))) (Popped i q t s)
  unfolding expire
  expire_head =
      let self = found_self id e s.entries found in
      let s₂ = observe (observe s) in
      let o = observed_twice s v in
      rw self (
        drop_after (observe s₂) (deadline_decision env s₂ e)
          (Drops-trans 0 0 s s₂ (observe s₂) o (observe-Drops s₂ o.post.inv)) refl refl)

  -- The head may be dropped for its context, or for its deadline.
  pub check_head-Checked : Ensures (check_head env e s) (Checked i q t s)
  unfolding check_head
  check_head-Checked = elim (Bool-cases (env.canceled s.reads e.id)) [
    | inl c ↦ rw c (
        Ensures-bind (drop_queued e.id (decide canceled_queued) (observe s)) (λ s'. some (gone s'))
          (Popped i q t s) (Checked i q t s)
          (drop_after (observe s) (decide canceled_queued) observed refl refl) (λ s' p. p))
    | inr c ↦ elim (Bool-cases (ltb (env.now (s.reads + 1)) e.deadline)) [
      | inl l ↦ rw (c, l) refl
      | inr l ↦
          rw (c, l)
            (Ensures-bind (expire env e.id (observe (observe s))) (λ s'. some (gone s'))
              (Popped i q t s) (Checked i q t s) expire_head (λ s' p. p))
    ]
  ]

-- The first inner loop.
pub prune-Drops :
    (env : Env) (f : ℕ) (i : ℕ) (s : OwnerState) (t : TenantState) (q : List ℕ)
    → Inv s
    → get_elem? s.tenants i ≡ some t
    → t.queue ≡ q
    → length q < f
    → Ensures (prune env f i s) (Drops 0 s)
unfolding prune
prune-Drops env zero i s t q v owner h lt = absurd (omega arith)
prune-Drops env (suc f) i s t [] v owner h lt =
    simp (owner, h, prune)
      (record { post = record { inv = v; same = Same-refl s }; less = omega arith })
prune-Drops env (suc f) i s t (id ∷ q) v owner h lt =
    let (e, found, waits, ten) = head_entry s v i t id q owner h in
    simp (owner, h, found, prune)
      (Ensures-bind (check_head env e s) _ (Checked i q t s) (Drops 0 s)
        (check_head-Checked env s v i t id q e owner h found waits ten)
        (elim [
          | gone s' ↦ λ p.
              Ensures-mono (prune env f i s') (Drops 0 s') (Drops 0 s)
                (prune-Drops env f i s' p.tenant q p.drops.post.inv p.owner p.queue (omega arith))
                (λ u r. Drops-weaken s u (Drops-trans 1 0 s s' u p.drops r))
          | kept s' ↦ λ p. subst (Drops 0 s) (sym p) (observed_twice s v)
        ]))
