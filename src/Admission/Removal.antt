-- ===== src/Admission/Removal.antt =====
-- removeQueued, delete and resolve in a row (internal/admission/owner.go) never panic, and keep
-- the invariant.
use ssemaphore.Prelude.{
  ℕ, ◌+◌, ◌≤◌, ◌≡◌, refl, sym, ◌∙◌, ap, inl, inr, ◌≢◌, true, false, some, List, ◌∷◌, arith, length,
  get_elem?, set, length-set, get_elem?-set_cases, subst,
}
use ssemaphore.Admission.Types.{Decision}
use ssemaphore.Admission.Entries.{
  Entry, AccountingPhase, is_queued, is_inflight, find, put, delete, find-delete, delete-Distinct,
  delete-put,
}
use ssemaphore.Admission.Totals.{hit, count, erase, ids-delete, ids-delete_other}
use ssemaphore.Admission.Accounts.{
  minus_queued, remove_queued_lem, minus_queued-Moved, Accounts-delete, skip_delete-Moved,
  queued_in,
}
use ssemaphore.Admission.Expiry.{Slot, slot_of, slot_eq, remove-IsOrdered, count-remove}
use ssemaphore.Admission.Expiry
use ssemaphore.Admission.State.{TenantState, OwnerState, answers}
use ssemaphore.Admission.Owner.{remove_queued, resolve, drop_queued, reset_idle}
use ssemaphore.Admission.Invariant.{EntryOk, TenantOk, IsIdle, Inv, Same, everywhere, at}

abbrev pub without : Entry → TenantState → TenantState
without e t = record t {
  queue = erase e.id t.queue;
  counters = minus_queued t.counters e.admission;
}

abbrev pub taken : Entry → TenantState → TenantState
taken e t = reset_idle (without e t)

-- The state after `removeQueued`.
abbrev pub removed : Entry → TenantState → OwnerState → OwnerState
removed e t s = record s {
  tenants = set s.tenants e.tenant (taken e t);
  entries = put (record e { phase = AccountingPhase.unset }) s.entries;
  expiry = Expiry.remove (slot_of e) s.expiry;
  global = minus_queued s.global e.admission;
}

-- The state after the three calls.
abbrev pub dropped : Entry → TenantState → Decision → OwnerState → OwnerState
dropped e t d s = record s {
  tenants = set s.tenants e.tenant (taken e t);
  entries = delete e.id s.entries;
  expiry = Expiry.remove (slot_of e) s.expiry;
  global = minus_queued s.global e.admission;
  replies = record { id = e.id; permit = false; decision = d } ∷ s.replies;
}

pub reset_idle-TenantOk :
    (i cap : ℕ) (es : List Entry) (t : TenantState)
    → TenantOk i cap es t
    → TenantOk i cap es (reset_idle t)
reset_idle-TenantOk i cap es t v = ground arith

pub reset_idle-IsIdle : (t : TenantState) → IsIdle (reset_idle t)
reset_idle-IsIdle t h = ground arith

module _ (s : OwnerState) (v : Inv s) (e : Entry) (t : TenantState)
    (found : find e.id s.entries ≡ some e) (waits : is_queued e ≡ true)
    (owner : get_elem? s.tenants e.tenant ≡ some t) where
  pub owner_ok : TenantOk e.tenant s.config.deficit_cap s.entries t
  owner_ok = v.tenant e.tenant t owner

  pub at_self : at e.tenant e ≡ true
  at_self = ground arith

  pub remove_queued-eq : remove_queued e.id s ≡ some (removed e t s)
  unfolding remove_queued
  remove_queued-eq = ground (
    arith,
    remove_queued_lem (at e.tenant) t.counters s.entries e.id e owner_ok.accounts found at_self
        waits,
    remove_queued_lem everywhere s.global s.entries e.id e v.global found refl waits,
  )

  pub answers_zero : answers e.id s.replies ≡ 0
  answers_zero = ground (arith, v.answered e.id, v.once e.id)

  pub drop_queued-eq : (d : Decision) → drop_queued e.id d s ≡ some (dropped e t d s)
  unfolding drop_queued resolve
  drop_queued-eq d = rw remove_queued-eq (
      rw answers_zero
        (rw (delete-put (record e { phase = AccountingPhase.unset }) e s.entries found) refl))

  taken_core : TenantOk e.tenant s.config.deficit_cap (delete e.id s.entries) (without e t)
  taken_core = record {
    queue =
        ap (erase e.id) owner_ok.queue
        ∙ sym (ids-delete (queued_in (at e.tenant)) e.id s.entries v.distinct);
    accounts =
        Accounts-delete (at e.tenant) t.counters s.entries (minus_queued t.counters e.admission)
          e.id e owner_ok.accounts found
          (minus_queued-Moved (at e.tenant) t.counters s.entries e.id e owner_ok.accounts found
            at_self waits);
    within = ground (arith, owner_ok.within);
    in_range = owner_ok.in_range;
    credit = owner_ok.credit;
    funding = owner_ok.funding;
  }

  pub taken-TenantOk : TenantOk e.tenant s.config.deficit_cap (delete e.id s.entries) (taken e t)
  taken-TenantOk =
      reset_idle-TenantOk e.tenant s.config.deficit_cap (delete e.id s.entries) (without e t)
        taken_core

  pub other-TenantOk :
      (j : ℕ) (u : TenantState)
      → e.tenant ≢ j
      → TenantOk j s.config.deficit_cap s.entries u
      → TenantOk j s.config.deficit_cap (delete e.id s.entries) u
  other-TenantOk j u ne k = record {
    queue =
        k.queue ∙ sym (ids-delete_other (queued_in (at j)) e.id e s.entries found (ground arith));
    accounts =
        Accounts-delete (at j) u.counters s.entries u.counters e.id e k.accounts found
          (skip_delete-Moved (at j) u.counters e (ground arith));
    within = k.within;
    in_range = k.in_range;
    credit = k.credit;
    funding = k.funding;
  }

  dropped_tenant :
      (d : Decision) (j : ℕ) (u : TenantState)
      → get_elem? (dropped e t d s).tenants j ≡ some u
      → TenantOk j s.config.deficit_cap (delete e.id s.entries) u
  dropped_tenant d j u g = elim (get_elem?-set_cases s.tenants e.tenant j (taken e t) g) [
    | inl (i, w) ↦
        subst (λ i. TenantOk i s.config.deficit_cap (delete e.id s.entries) u) i
          (subst (TenantOk e.tenant s.config.deficit_cap (delete e.id s.entries)) w taken-TenantOk)
    | inr (ne, old) ↦ other-TenantOk j u ne (v.tenant j u old)
  ]

  dropped-IsIdle :
      (d : Decision) (j : ℕ) (u : TenantState)
      → get_elem? (dropped e t d s).tenants j ≡ some u
      → IsIdle u
  dropped-IsIdle d j u g = elim (get_elem?-set_cases s.tenants e.tenant j (taken e t) g) [
    | inl (i, w) ↦ subst IsIdle w (reset_idle-IsIdle (without e t))
    | inr (ne, old) ↦ v.idle j u old
  ]

  dropped_entry :
      (k : ℕ) (x : Entry)
      → find k (delete e.id s.entries) ≡ some x
      → EntryOk (length (set s.tenants e.tenant (taken e t))) s.config.max_request_units x
  dropped_entry k x h =
      rw (length-set s.tenants e.tenant (taken e t))
        (v.entry k x (ground (arith, find-delete k e.id s.entries v.distinct)))

  dropped_answered :
      (d : Decision) (k : ℕ)
      → answers k (dropped e t d s).replies + hit is_queued (find k (delete e.id s.entries))
        ≡ count k s.received
  unfolding answers
  dropped_answered d k = ground (arith, v.answered k, find-delete k e.id s.entries v.distinct)

  dropped_granted :
      (d : Decision) (k : ℕ)
      → hit is_inflight (find k (delete e.id s.entries)) ≤ answers k (dropped e t d s).replies
  unfolding answers
  dropped_granted d k = ground (arith, v.granted k, find-delete k e.id s.entries v.distinct)

  pub dropped-Inv : (d : Decision) → Inv (dropped e t d s)
  dropped-Inv d = record {
    config = rw (length-set s.tenants e.tenant (taken e t)) v.config;
    distinct = delete-Distinct e.id s.entries v.distinct;
    entry = dropped_entry;
    global =
        Accounts-delete everywhere s.global s.entries (minus_queued s.global e.admission) e.id e
          v.global found
          (minus_queued-Moved everywhere s.global s.entries e.id e v.global found refl waits);
    within = ground (arith, v.within);
    tenant = dropped_tenant d;
    idle = dropped-IsIdle d;
    expiry = λ x. ground (
      arith,
      count-remove x (slot_of e) s.expiry,
      v.expiry x,
      find-delete x.id e.id s.entries v.distinct,
    );
    ordered = remove-IsOrdered (slot_of e) s.expiry v.ordered;
    inflight = λ k. ground (arith, v.inflight k, find-delete k e.id s.entries v.distinct);
    once = v.once;
    answered = λ k. dropped_answered d k;
    granted = λ k. dropped_granted d k;
    cursor = rw (length-set s.tenants e.tenant (taken e t)) v.cursor;
  }

  pub dropped-Same : (d : Decision) → Same s (dropped e t d s)
  dropped-Same d = record {
    config = refl;
    tenants = length-set s.tenants e.tenant (taken e t);
    received = refl;
    accepting = refl;
  }
