-- ===== src/Admission/Expiring.antt =====
-- `expireReady` (internal/admission/owner.go) and its loop over the heap.
use ssemaphore.Prelude.{
  ℕ, zero, suc, ◌<◌, ◌≡◌, refl, sym, ap, inl, inr, true, false, some, List, [], ◌∷◌, arith, ltb,
  length, get_elem?, get_elem?-lt, subst, Ensures, Ensures-mono, Bool-cases,
}
use ssemaphore.Admission.Types.{Decision}
use ssemaphore.Admission.Entries.{Entry, is_queued, find, find-id, find-delete, delete}
use ssemaphore.Admission.Totals.{hit-pos}
use ssemaphore.Admission.Expiry.{Slot, slot_of, slot_eq, From, IsOrdered, le-first, count-empty}
use ssemaphore.Admission.Expiry
use ssemaphore.Admission.State.{TenantState, OwnerState, Env}
use ssemaphore.Admission.Owner.{
  observe, deadline_decision, drop_queued, expire, expire_loop, expire_ready,
}
use ssemaphore.Admission.Invariant.{Inv, Post, Post-trans, Same-refl, due_as}
use ssemaphore.Admission.Removal.{dropped, drop_queued-eq, dropped-Inv, dropped-Same}
use ssemaphore.Admission.Moves.{observe-Post}

pub found_self :
    (id : ℕ) (e : Entry) (es : List Entry) → find id es ≡ some e → find e.id es ≡ some e
found_self id e es h = subst (λ k. find k es ≡ some e) (sym (find-id id es h)) h

-- A queued entry is dropped without a panic; its tenant is in reach.
pub drop_queued_lem :
    (s : OwnerState) (v : Inv s) (id : ℕ) (e : Entry) (d : Decision)
    → find id s.entries ≡ some e
    → is_queued e ≡ true
    → (t : TenantState) × (get_elem? s.tenants e.tenant ≡ some t)
      × (drop_queued id d s ≡ some (dropped e t d s))
      × Post s (dropped e t d s)
drop_queued_lem s v id e d found waits =
    let (t, owner) = get_elem?-lt s.tenants e.tenant (v.entry id e found).tenant_lt in
    let self = found_self id e s.entries found in
    (
      t,
      owner,
      subst (λ k. drop_queued k d s ≡ some (dropped e t d s)) (find-id id s.entries found)
          (drop_queued-eq s v e t self waits owner d),
      record {
        inv = dropped-Inv s v e t self waits owner d;
        same = dropped-Same s v e t self waits owner d;
      },
    )

pub drop_queued-Post :
    (s : OwnerState) (v : Inv s) (id : ℕ) (e : Entry) (d : Decision)
    → find id s.entries ≡ some e
    → is_queued e ≡ true
    → Ensures (drop_queued id d s) (Post s)
drop_queued-Post s v id e d found waits =
    let (t, owner, eq, post) = drop_queued_lem s v id e d found waits in rw eq post

-- The first slot of the heap is that of a queued entry.
first_slot :
    (s : OwnerState) (v : Inv s) (x : Slot) (q : List Slot)
    → s.expiry ≡ x ∷ q
    → (e : Entry) × (find x.id s.entries ≡ some e) × (is_queued e ≡ true) × (slot_of e ≡ x)
unfolding Expiry.count
first_slot s v x q h =
    let (e, found, due) =
      hit-pos (due_as x) (find x.id s.entries)
        (ground (arith, v.expiry x, ap (Expiry.count x) h)) in
    (e, found, ground (arith, due), ground (arith, due))

-- What the loop leaves: the entries that were not due, and no others.
pub record Expired (now : ℕ) (s s' : OwnerState) : Type 0 where
  pub post : Post s s'
  pub late :
      (id : ℕ) (e : Entry) → find id s'.entries ≡ some e → is_queued e ≡ true → now < e.deadline
  pub kept :
      (id : ℕ) (e : Entry)
      → find id s.entries ≡ some e
      → (is_queued e ≡ true → now < e.deadline)
      → find id s'.entries ≡ some e
  pub old : (id : ℕ) (e : Entry) → find id s'.entries ≡ some e → find id s.entries ≡ some e

-- The heap is empty, or its first slot is not due: no queued entry is.
loop_done :
    (now : ℕ) (s : OwnerState) (v : Inv s)
    → ((x : Slot) → 0 < Expiry.count x s.expiry → now < x.deadline)
    → Expired now s s
loop_done now s v h = record {
  post = record { inv = v; same = Same-refl s };
  late = λ id e found waits.
      h (slot_of e) (ground (arith, v.expiry (slot_of e), found_self id e s.entries found));
  kept = λ id e found _. found;
  old = λ id e found. found;
}

remove_first : (x : Slot) (q : List Slot) → Expiry.remove x (x ∷ q) ≡ q
unfolding Expiry.remove
remove_first x q = ground arith

-- One round: the first slot's entry is dropped.
expire_lem :
    (env : Env) (s : OwnerState) (v : Inv s) (x : Slot) (q : List Slot)
    → s.expiry ≡ x ∷ q
    → (e : Entry) × (s' : OwnerState) × (expire env x.id s ≡ some s')
      × Post s s'
      × (s'.expiry ≡ q)
      × (s'.entries ≡ delete x.id s.entries)
      × (find x.id s.entries ≡ some e)
      × (is_queued e ≡ true)
      × (e.deadline ≡ x.deadline)
unfolding expire
expire_lem env s v x q h =
    let (e, found, waits, slot) = first_slot s v x q h in
    let o = observe-Post s v in
    let d = deadline_decision env s e in
    let (t, owner, eq, post) = drop_queued_lem (observe s) o.inv x.id e d found waits in
    (
      e,
      dropped e t d (observe s),
      rw (found, expire) eq,
      Post-trans s (observe s) (dropped e t d (observe s)) o post,
      rw (h, slot) (remove_first x q),
      rw (find-id x.id s.entries found),
      found,
      waits,
      ap (λ (y : Slot). y.deadline) slot,
    )

-- A round followed by the rest of the loop.
after_round :
    (now : ℕ) (s s' u : OwnerState) (x : Slot) (e : Entry)
    → Inv s
    → Post s s'
    → s'.entries ≡ delete x.id s.entries
    → find x.id s.entries ≡ some e
    → is_queued e ≡ true
    → e.deadline ≡ x.deadline
    → ltb now x.deadline ≡ false
    → Expired now s' u
    → Expired now s u
after_round now s s' u x e v post es found waits dl due r = record {
  post = Post-trans s s' u post r.post;
  late = r.late;
  kept = λ id y h late.
      r.kept id y (ground (arith, late, find-delete id x.id s.entries v.distinct, ap (find id) es))
        late;
  old = λ id y h.
      ground (arith, r.old id y h, find-delete id x.id s.entries v.distinct, ap (find id) es);
}

expire_loop-Expired :
    (env : Env) (f now : ℕ) (s : OwnerState) (q : List Slot)
    → Inv s
    → s.expiry ≡ q
    → length q < f
    → Ensures (expire_loop env f now s) (Expired now s)
unfolding expire_loop
expire_loop-Expired env zero now s q v h lt = absurd (omega arith)
expire_loop-Expired env (suc f) now s [] v h lt =
    simp (h, expire_loop)
      (loop_done now s v (λ x pos. absurd (omega (arith, ap (Expiry.count x) h, count-empty x))))
expire_loop-Expired env (suc f) now s (x ∷ q) v h lt = elim (Bool-cases (ltb now x.deadline)) [
  | inl later ↦
      simp (h, expire_loop, later)
        (loop_done now s v (λ y pos.
          let first =
            le-first y x q (subst IsOrdered h v.ordered).0
              (ground (arith, ap (Expiry.count y) h)) in
          ground (arith, first)))
  | inr due ↦
      let (e, s', eq, post, q', es, found, waits, dl) = expire_lem env s v x q h in
      simp (h, expire_loop, due, eq)
        (Ensures-mono (expire_loop env f now s') (Expired now s') (Expired now s)
          (expire_loop-Expired env f now s' q post.inv q' (omega arith))
          (λ u. after_round now s s' u x e v post es found waits dl due))
]

-- In a sound state, the expiry of what is due goes through: it leaves a sound state in which every
-- waiting entry has its deadline after `now`; an entry that does not wait, or is not due yet, is
-- still there and unchanged, and no entry is new.
pub expire_ready-Expired :
    (env : Env) (now : ℕ) (s : OwnerState)
    → Inv s
    → Ensures (expire_ready env now s) (Expired now s)
unfolding expire_ready
expire_ready-Expired env now s v =
    expire_loop-Expired env (suc (length s.expiry)) now s s.expiry v refl (omega arith)
