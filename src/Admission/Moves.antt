-- ===== src/Admission/Moves.antt =====
-- The small changes of the owner's state keep the invariant: a read of the environment, the
-- cursor, a tenant's credit, and a cancellation of a permit (internal/admission/owner.go).
use ssemaphore.Prelude.{
  ℕ, ◌+◌, ◌≤◌, ◌<◌, ◌≡◌, refl, sym, ◌∙◌, inl, inr, Bool, some, List, arith, length, get_elem?, set,
  length-set, get_elem?-set_cases, subst,
}
use ssemaphore.Admission.Types.{CancelCause}
use ssemaphore.Admission.Entries.{Entry, is_queued, is_inflight, find, put, find-put, put-Distinct}
use ssemaphore.Admission.Totals.{hit, ids-put_same}
use ssemaphore.Admission.Accounts.{Accounts-put, same-Moved, queued_in}
use ssemaphore.Admission.State.{TenantState, OwnerState, Signal}
use ssemaphore.Admission.Owner.{observe}
use ssemaphore.Admission.Commands.{signal}
use ssemaphore.Admission.Pump.{advance, set_tenant}
use ssemaphore.Admission.Invariant.{EntryOk, TenantOk, IsIdle, Inv, Post, everywhere, at, due_as}

-- The fields that no part of the invariant names may change.
abbrev pub relabel : Bool → Bool → List (ℕ × Signal) → ℕ → OwnerState → OwnerState
relabel accepting notified signals reads s = record s {
  accepting = accepting;
  drain_notified = notified;
  signals = signals;
  reads = reads;
}

pub relabel-Inv :
    (a n : Bool) (g : List (ℕ × Signal)) (r : ℕ) (s : OwnerState) → Inv s → Inv (relabel a n g r s)
relabel-Inv a n g r s v = record {
  config = v.config;
  distinct = v.distinct;
  entry = v.entry;
  global = v.global;
  within = v.within;
  tenant = v.tenant;
  idle = v.idle;
  expiry = v.expiry;
  ordered = v.ordered;
  inflight = v.inflight;
  once = v.once;
  answered = v.answered;
  granted = v.granted;
  cursor = v.cursor;
}

pub observe-Post : (s : OwnerState) → Inv s → Post s (observe s)
observe-Post s v = record {
  inv = relabel-Inv s.accepting s.drain_notified s.signals (s.reads + 1) s v;
  same = record { config = refl; tenants = refl; received = refl; accepting = refl };
}

pub cursor-Inv :
    (k : ℕ) (s : OwnerState) → k < length s.tenants → Inv s → Inv (record s { cursor = k })
cursor-Inv k s h v = record {
  config = v.config;
  distinct = v.distinct;
  entry = v.entry;
  global = v.global;
  within = v.within;
  tenant = v.tenant;
  idle = v.idle;
  expiry = v.expiry;
  ordered = v.ordered;
  inflight = v.inflight;
  once = v.once;
  answered = v.answered;
  granted = v.granted;
  cursor = h;
}

pub advance-Post : (s : OwnerState) → Inv s → Post s (advance s)
unfolding advance
advance-Post s v = record {
  inv = cursor-Inv _ s (ground (arith, v.cursor)) v;
  same = record { config = refl; tenants = refl; received = refl; accepting = refl };
}

-- A tenant's credit and visit.
abbrev pub credited : ℕ → Bool → TenantState → TenantState
credited d b t = record t { deficit = d; visit_open = b }

module _ (s : OwnerState) (v : Inv s) (i : ℕ) (t : TenantState)
    (owner : get_elem? s.tenants i ≡ some t) (d : ℕ) (b : Bool) (le : d ≤ s.config.deficit_cap)
    (idle : IsIdle (credited d b t)) where
  credited-TenantOk :
      (j : ℕ) (u : TenantState)
      → get_elem? (set s.tenants i (credited d b t)) j ≡ some u
      → TenantOk j s.config.deficit_cap s.entries u
  credited-TenantOk j u g = elim (get_elem?-set_cases s.tenants i j (credited d b t) g) [
    | inl (e, w) ↦
        subst (λ j. TenantOk j s.config.deficit_cap s.entries u) e
          (subst (TenantOk i s.config.deficit_cap s.entries) w (
            let k = v.tenant i t owner in
            record {
              queue = k.queue;
              accounts = k.accounts;
              within = k.within;
              in_range = k.in_range;
              credit = le;
              funding = k.funding;
            }))
    | inr (ne, old) ↦ v.tenant j u old
  ]

  credited-IsIdle :
      (j : ℕ) (u : TenantState) → get_elem? (set s.tenants i (credited d b t)) j ≡ some u → IsIdle u
  credited-IsIdle j u g = elim (get_elem?-set_cases s.tenants i j (credited d b t) g) [
    | inl (e, w) ↦ subst IsIdle w idle
    | inr (ne, old) ↦ v.idle j u old
  ]

  credited-Inv : Inv (set_tenant i (credited d b t) s)
  credited-Inv = record {
    config = rw (length-set s.tenants i (credited d b t)) v.config;
    distinct = v.distinct;
    entry = rw (length-set s.tenants i (credited d b t)) v.entry;
    global = v.global;
    within = v.within;
    tenant = credited-TenantOk;
    idle = credited-IsIdle;
    expiry = v.expiry;
    ordered = v.ordered;
    inflight = v.inflight;
    once = v.once;
    answered = v.answered;
    granted = v.granted;
    cursor = rw (length-set s.tenants i (credited d b t)) v.cursor;
  }

  pub credited-Post : Post s (set_tenant i (credited d b t) s)
  credited-Post = record {
    inv = credited-Inv;
    same = record {
      config = refl;
      tenants = length-set s.tenants i (credited d b t);
      received = refl;
      accepting = refl;
    };
  }

-- A cancellation is noted in the entry and sent to its permit: no accounting changes.
module _ (s : OwnerState) (v : Inv s) (e : Entry) (found : find e.id s.entries ≡ some e)
    (cause : CancelCause) (g : Signal) where
  abbrev marked : Entry
  marked = record e { cancel_cause = cause }

  marked-TenantOk :
      (i : ℕ) (t : TenantState)
      → TenantOk i s.config.deficit_cap s.entries t
      → TenantOk i s.config.deficit_cap (put marked s.entries) t
  marked-TenantOk i t k = record {
    queue = k.queue ∙ sym (ids-put_same (queued_in (at i)) marked e s.entries found refl);
    accounts =
        Accounts-put (at i) t.counters s.entries t.counters marked e k.accounts found
          (same-Moved (at i) t.counters e marked refl refl refl);
    within = k.within;
    in_range = k.in_range;
    credit = k.credit;
    funding = k.funding;
  }

  marked-EntryOk : EntryOk (length s.tenants) s.config.max_request_units marked
  marked-EntryOk =
      let k = v.entry e.id e found in
      record { tenant_lt = k.tenant_lt; work_le = k.work_le; agree = k.agree }

  marked_entry :
      (k : ℕ) (x : Entry)
      → find k (put marked s.entries) ≡ some x
      → EntryOk (length s.tenants) s.config.max_request_units x
  marked_entry k x h = ground (arith, v.entry k x, find-put k marked s.entries, marked-EntryOk)

  pub hit-marked :
      (p : Entry → Bool) (k : ℕ)
      → p marked ≡ p e
      → hit p (find k (put marked s.entries)) ≡ hit p (find k s.entries)
  hit-marked p k same = ground (arith, find-put k marked s.entries, found)

  pub signal-Inv : Inv (signal e cause g s)
  signal-Inv = record {
    config = v.config;
    distinct = put-Distinct marked s.entries v.distinct;
    entry = marked_entry;
    global =
        Accounts-put everywhere s.global s.entries s.global marked e v.global found
          (same-Moved everywhere s.global e marked refl refl refl);
    within = v.within;
    tenant = λ i t h. marked-TenantOk i t (v.tenant i t h);
    idle = v.idle;
    expiry = λ x. v.expiry x ∙ sym (hit-marked (due_as x) x.id refl);
    ordered = v.ordered;
    inflight = λ k. v.inflight k ∙ sym (hit-marked is_inflight k refl);
    once = v.once;
    answered = λ k. rw (hit-marked is_queued k refl) (v.answered k);
    granted = λ k. rw (hit-marked is_inflight k refl) (v.granted k);
    cursor = v.cursor;
  }

  pub signal-Post : Post s (signal e cause g s)
  signal-Post = record {
    inv = signal-Inv;
    same = record { config = refl; tenants = refl; received = refl; accepting = refl };
  }
