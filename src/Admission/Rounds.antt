-- ===== src/Admission/Rounds.antt =====
-- A round of `pump` (internal/admission/owner.go) over the tenants, and what it takes off the measure.
use ssemaphore.Prelude.{
  ℕ, zero, suc, ◌+◌, ◌≤◌, ◌<◌, ◌≡◌, refl, ◌⊎◌, inl, inr, Bool, true, false, ◌||◌, some, List, [],
  ◌∷◌, arith, length, get_elem?, get_elem?-lt, get_elem?-set_self, lt-get_elem?, Ensures,
  Ensures-mono, Ensures-bind, Bool-cases,
}
use ssemaphore.Admission.Counters.{bounded_add}
use ssemaphore.Admission.State.{TenantState, OwnerState, Env, queue_length}
use ssemaphore.Admission.Pump.{
  advance, set_tenant, prune, Flow, returned, onward, close_visit, again, leave, quit, turn, serve,
  fund, move_on, visit, visit_queue, round,
}
use ssemaphore.Admission.Invariant.{Inv, Post, Post-trans, Same-refl}
use ssemaphore.Admission.Moves.{credited}
use ssemaphore.Admission.Measure.{measure, lack, Drops, Drops-trans}
use ssemaphore.Admission.Pumping.{head_entry, prune-Drops}
use ssemaphore.Admission.Turns.{
  credited-Drops, advance-Drops, close_visit-Drops, flag, IsOpen, Turned, turn-Turned,
}

-- A loop goes on with an open account: a flag that was raised took a unit off the measure.
abbrev pub Flows : Bool → Bool → OwnerState → Flow → Type 0
Flows d n s (returned s') = Post s s'
Flows d n s (onward s' d' n') = Post s s' × (measure s' + flag d' n' ≤ measure s + flag d n)

stays : (d n : Bool) (s s' : OwnerState) → Drops 0 s s' → Flows d n s (onward s' d n)
stays d n s s' p = (p.post, omega (arith, p.less))

Flows-after :
    (d n : Bool) (s s' : OwnerState) (r : Flow) → Drops 0 s s' → Flows d n s' r → Flows d n s r
Flows-after d n s s' (returned u) p f = Post-trans s s' u p.post f
Flows-after d n s s' (onward u d' n') p (f, le) =
    (Post-trans s s' u p.post f, omega (arith, p.less))

Flows-again :
    (d d' n : Bool) (s s' : OwnerState) (r : Flow)
    → Drops 1 s s'
    → Flows (d || d') n s' r
    → Flows d n s r
Flows-again d d' n s s' (returned u) p f = Post-trans s s' u p.post f
Flows-again d d' n s s' (onward u d'' n'') p (f, le) =
    (Post-trans s s' u p.post f, ground (arith, p.less))

flag-leave : (d n d' n' : Bool) → flag (d || d') (n || n') ≤ flag d n + flag d' n'
flag-leave d n d' n' = ground arith

serve-Flows :
    (env : Env) (f i : ℕ) (s : OwnerState) (t : TenantState) (q : List ℕ) (d n : Bool)
    → Inv s
    → get_elem? s.tenants i ≡ some t
    → t.queue ≡ q
    → IsOpen t
    → length q < f
    → Ensures (serve env f i s d n) (Flows d n s)
unfolding serve
serve-Flows env zero i s t q d n v owner h o lt = absurd (omega arith)
serve-Flows env (suc f) i s t [] d n v owner h o lt =
    simp (owner, h, serve) (record { inv = v; same = Same-refl s }, omega arith)
serve-Flows env (suc f) i s t (id ∷ q) d n v owner h o lt =
    let (e, found, waits, ten) = head_entry s v i t id q owner h in
    simp (owner, h, found, serve)
      (Ensures-bind (turn env i t e s) _ (Turned i q s) (Flows d n s)
        (turn-Turned env s v i t id q e owner h found waits ten (ground (arith, h)))
        (elim [
          | again s' d' ↦ λ (p, (t', owner', h', o')).
              Ensures-mono (serve env f i s' (d || d') n) (Flows (d || d') n s') (Flows d n s)
                (serve-Flows env f i s' t' q (d || d') n p.post.inv owner' h' o' (omega arith))
                (λ r. Flows-again d d' n s s' r p)
          | leave s' d' n' ↦ λ p. (p.post, omega (arith, flag-leave d n d' n', p.less))
          | quit s' ↦ λ p. p
        ]))

bounded_add_lem :
    (value addition maximum : ℕ)
    → value ≤ maximum
    → maximum < 18446744073709551616
    → 0 < addition
    → (bounded_add value addition maximum ≤ maximum)
      × (((value ≡ maximum) × (bounded_add value addition maximum ≡ maximum))
          ⊎ (value < bounded_add value addition maximum))
unfolding bounded_add
bounded_add_lem value addition maximum h k p = ground arith

-- A visit that opens adds the quantum, as far as the cap.
opened-Drops :
    (s : OwnerState) (v : Inv s) (i : ℕ) (t : TenantState) (id : ℕ) (q : List ℕ)
    → get_elem? s.tenants i ≡ some t
    → t.queue ≡ id ∷ q
    → t.visit_open ≡ false
    → Drops 0 s (
        set_tenant i
          (credited (bounded_add t.deficit t.config.quantum s.config.deficit_cap) true t)
          s)
unfolding lack
opened-Drops s v i t id q owner h closed =
    let k = v.tenant i t owner in
    let sum =
      bounded_add_lem t.deficit t.config.quantum s.config.deficit_cap k.credit v.config.cap_range
        k.funding in
    credited-Drops 0 s v i t (bounded_add t.deficit t.config.quantum s.config.deficit_cap) true
      owner sum.0 (λ none_left. absurd (ground (arith, h))) (ground (arith, sum))

-- The tenant is funded once its queue is known not to be empty.
record Funded (i : ℕ) (s s' : OwnerState) (q : List ℕ) : Type 0 where
  drops : Drops 0 s s'
  tenant : TenantState
  owner : get_elem? s'.tenants i ≡ some tenant
  queue : tenant.queue ≡ q
  visiting : tenant.visit_open ≡ true

fund-Funded :
    (s : OwnerState) (v : Inv s) (i : ℕ) (t : TenantState) (id : ℕ) (q : List ℕ)
    → get_elem? s.tenants i ≡ some t
    → t.queue ≡ id ∷ q
    → Funded i s (fund i t s) (id ∷ q)
unfolding fund
fund-Funded s v i t id q owner h = elim (Bool-cases t.visit_open) [
  | inl already ↦
      simp (already, fund)
        (record {
          drops = record { post = record { inv = v; same = Same-refl s }; less = omega arith };
          tenant = t;
          owner = owner;
          queue = h;
          visiting = already;
        })
  | inr closed ↦
      simp (closed, fund)
        (record {
          drops = opened-Drops s v i t id q owner h closed;
          tenant = credited (bounded_add t.deficit t.config.quantum s.config.deficit_cap) true t;
          owner = get_elem?-set_self s.tenants i _ (lt-get_elem? s.tenants i owner);
          queue = h;
          visiting = refl;
        })
]

move_on-Flows : (d n : Bool) (s : OwnerState) (r : Flow) → Flows d n s r → Flows d n s (move_on r)
move_on-Flows d n s (returned u) p = p
move_on-Flows d n s (onward u d' n') (p, le) =
    let o = advance-Drops u p.inv in (Post-trans s u (advance u) p o.post, omega (arith, o.less))

visit_queue-Flows :
    (env : Env) (s : OwnerState) (t : TenantState) (q : List ℕ) (d n : Bool)
    → Inv s
    → get_elem? s.tenants s.cursor ≡ some t
    → t.queue ≡ q
    → Ensures (visit_queue env t q s d n) (Flows d n s)
unfolding visit_queue
visit_queue-Flows env s t [] d n v owner h =
    let closed = close_visit-Drops s v s.cursor t owner h in
    let u = set_tenant s.cursor (close_visit t) s in
    stays d n s (advance u)
      (Drops-trans 0 0 s u (advance u) closed (advance-Drops u closed.post.inv))
visit_queue-Flows env s t (id ∷ q) d n v owner h =
    let f = fund-Funded s v s.cursor t id q owner h in
    let u = fund s.cursor t s in
    Ensures-bind (serve env (suc (suc (length q))) s.cursor u d n) (λ r. some (move_on r))
      (Flows d n u) (Flows d n s)
      (serve-Flows env (suc (suc (length q))) s.cursor u f.tenant (id ∷ q) d n f.drops.post.inv
        f.owner f.queue (inr f.visiting) (omega arith))
      (λ r p. move_on-Flows d n s r (Flows-after d n s u r f.drops p))

visit-Flows :
    (env : Env) (s : OwnerState) (d n : Bool) → Inv s → Ensures (visit env s d n) (Flows d n s)
unfolding visit
visit-Flows env s d n v =
    let (t, owner) = get_elem?-lt s.tenants s.cursor v.cursor in
    Ensures-bind (prune env (suc (queue_length s s.cursor)) s.cursor s) _ (Drops 0 s) (Flows d n s)
      (prune-Drops env (suc (queue_length s s.cursor)) s.cursor s t t.queue v owner refl
        (ground (arith, owner)))
      (λ s' p.
        let (t', owner') = get_elem?-lt s'.tenants s'.cursor p.post.inv.cursor in
        rw owner' (
          Ensures-mono (visit_queue env t' t'.queue s' d n) (Flows d n s') (Flows d n s)
            (visit_queue-Flows env s' t' t'.queue d n p.post.inv owner' refl)
            (λ r. Flows-after d n s s' r p)))

pub round-Flows :
    (env : Env) (k : ℕ) (s : OwnerState) (d n : Bool)
    → Inv s
    → Ensures (round env k s d n) (Flows d n s)
unfolding round
round-Flows env zero s d n v = (record { inv = v; same = Same-refl s }, omega arith)
round-Flows env (suc k) s d n v =
    Ensures-bind (visit env s d n) _ (Flows d n s) (Flows d n s) (visit-Flows env s d n v) (elim [
      | returned s' ↦ λ p. p
      | onward s' d' n' ↦ λ (p, le).
          Ensures-mono (round env k s' d' n') (Flows d' n' s') (Flows d n s)
            (round-Flows env k s' d' n' p.inv) (Flows-then d n d' n' s s' p le)
    ])
  where
    Flows-then :
        (d n d' n' : Bool) (s s' : OwnerState)
        → Post s s'
        → measure s' + flag d' n' ≤ measure s + flag d n
        → (r : Flow) → Flows d' n' s' r
        → Flows d n s r
    Flows-then d n d' n' s s' p le (returned u) f = Post-trans s s' u p f
    Flows-then d n d' n' s s' p le (onward u d'' n'') (f, le') =
        (Post-trans s s' u p f, omega (arith, le, le'))
