-- ===== src/Admission/Arrival.antt =====
-- `admit` (internal/admission/owner.go): an item that arrives for the first time is answered or
-- joins its tenant's queue, and the invariant is kept.
use ssemaphore.Prelude.{
  ℕ, ◌+◌, ◌≤◌, ◌<◌, ◌≡◌, refl, inl, inr, ◌≢◌, false, none, some, List, [], ◌∷◌, ◌++◌, arith, length,
  get_elem?, set, length-set, get_elem?-set_cases, subst, Option-cases,
}
use ssemaphore.Admission.Types.{Decision, no_resource}
use ssemaphore.Admission.Counters.{add_queued, queue_limit_failure}
use ssemaphore.Admission.Entries.{Entry, is_queued, is_inflight, find, put, find-put, put-Distinct}
use ssemaphore.Admission.Totals.{hit, count, ids-put_new}
use ssemaphore.Admission.Accounts.{
  Accounts-put_new, enqueue-Moved, enqueue-Within, skip_new-Moved, queued_in,
}
use ssemaphore.Admission.Expiry.{slot_of, push-IsOrdered, count-push}
use ssemaphore.Admission.State.{TenantState, OwnerState, answers}
use ssemaphore.Admission.Owner.{resolve, enqueue, enqueued}
use ssemaphore.Admission.Invariant.{EntryOk, TenantOk, IsIdle, Inv, everywhere, at}

-- No item of this ID has come before.
abbrev pub IsNew : ℕ → OwnerState → Type 0
IsNew id s = count id s.received ≡ 0

-- What an admission leaves as it was, and what it adds to the IDs received.
pub record Arrived (id : ℕ) (s s' : OwnerState) : Type 0 where
  pub inv : Inv s'
  pub config : s'.config ≡ s.config
  pub tenants : length s'.tenants ≡ length s.tenants
  pub received : s'.received ≡ id ∷ s.received
  pub accepting : s'.accepting ≡ s.accepting

pub not_answered : (id : ℕ) (s : OwnerState) → Inv s → IsNew id s → answers id s.replies ≡ 0
not_answered id s v new = omega (arith, v.answered id)

pub not_found : (id : ℕ) (s : OwnerState) → Inv s → IsNew id s → find id s.entries ≡ none
not_found id s v new = elim (Option-cases (find id s.entries)) [
  | inl e ↦ e
  | inr (e, h) ↦ absurd (ground (arith, v.answered id, v.granted id, (v.entry id e h).agree))
]

abbrev pub receive : ℕ → OwnerState → OwnerState
receive id s = record s { received = id ∷ s.received }

abbrev pub refused : ℕ → Decision → OwnerState → OwnerState
refused id d s = record s {
  received = id ∷ s.received;
  replies = record { id = id; permit = false; decision = d } ∷ s.replies;
}

module _ (s : OwnerState) (v : Inv s) (id : ℕ) (new : IsNew id s) where
  pub receive_once : (k : ℕ) → count k (id ∷ s.received) ≤ 1
  unfolding count
  receive_once k = ground (arith, v.once k)

  refused_answered :
      (d : Decision) (k : ℕ)
      → answers k (refused id d s).replies + hit is_queued (find k s.entries)
        ≡ count k (id ∷ s.received)
  unfolding answers count
  refused_answered d k = ground (arith, v.answered k)

  refused_granted :
      (d : Decision) (k : ℕ)
      → hit is_inflight (find k s.entries) ≤ answers k (refused id d s).replies
  unfolding answers
  refused_granted d k = ground (arith, v.granted k)

  pub refused-Arrived : (d : Decision) → Arrived id s (refused id d s)
  refused-Arrived d = record {
    inv = record {
      config = v.config;
      distinct = v.distinct;
      entry = v.entry;
      global = v.global;
      within = v.within;
      tenant = v.tenant;
      idle = v.idle;
      expiry = v.expiry;
      ordered = v.ordered;
      inflight = v.inflight;
      once = receive_once;
      answered = refused_answered d;
      granted = refused_granted d;
      cursor = v.cursor;
    };
    config = refl;
    tenants = refl;
    received = refl;
    accepting = refl;
  }

  pub resolve-eq : (d : Decision) → resolve id false d (receive id s) ≡ some (refused id d s)
  unfolding resolve
  resolve-eq d = rw (not_answered id s v new)

module _ (s : OwnerState) (v : Inv s) (i : ℕ) (t : TenantState) (item : Entry)
    (new : IsNew item.id s) (owner : get_elem? s.tenants i ≡ some t) (lt : i < length s.tenants)
    (work : item.admission.work_units ≤ s.config.max_request_units)
    (fits_tenant : queue_limit_failure t.counters item.admission t.config.queue ≡ no_resource)
    (fits_global : queue_limit_failure s.global item.admission s.config.global_queue
      ≡ no_resource) where
  abbrev e : Entry
  e = enqueued s i item

  abbrev joined : TenantState
  joined = record t {
    queue = t.queue ++ item.id ∷ [];
    counters = add_queued t.counters item.admission;
  }

  absent : find item.id s.entries ≡ none
  absent = not_found item.id s v new

  joined-TenantOk : TenantOk i s.config.deficit_cap (put e s.entries) joined
  joined-TenantOk =
      let k = v.tenant i t owner in
      record {
        queue = ground (arith, k.queue, ids-put_new (queued_in (at i)) e s.entries absent);
        accounts = Accounts-put_new (at i) t.counters s.entries _ e k.accounts absent (
            enqueue-Moved (at i) t.counters e t.config.queue t.config.inflight (ground arith) refl
              k.in_range fits_tenant);
        within =
            enqueue-Within t.counters item.admission t.config.queue t.config.inflight k.within
              k.in_range fits_tenant;
        in_range = k.in_range;
        credit = k.credit;
        funding = k.funding;
      }

  other-TenantOk :
      (j : ℕ) (u : TenantState)
      → i ≢ j
      → TenantOk j s.config.deficit_cap s.entries u
      → TenantOk j s.config.deficit_cap (put e s.entries) u
  other-TenantOk j u ne k = record {
    queue = ground (arith, k.queue, ne, ids-put_new (queued_in (at j)) e s.entries absent);
    accounts =
        Accounts-put_new (at j) u.counters s.entries u.counters e k.accounts absent
          (skip_new-Moved (at j) u.counters e (ground arith));
    within = k.within;
    in_range = k.in_range;
    credit = k.credit;
    funding = k.funding;
  }

  enqueue_tenant :
      (j : ℕ) (u : TenantState)
      → get_elem? (set s.tenants i joined) j ≡ some u
      → TenantOk j s.config.deficit_cap (put e s.entries) u
  enqueue_tenant j u g = elim (get_elem?-set_cases s.tenants i j joined g) [
    | inl (p, w) ↦
        subst (λ i'. TenantOk i' s.config.deficit_cap (put e s.entries) u) p
          (subst (TenantOk i s.config.deficit_cap (put e s.entries)) w joined-TenantOk)
    | inr (ne, old) ↦ other-TenantOk j u ne (v.tenant j u old)
  ]

  joined-IsIdle : (q : List ℕ) → IsIdle (record joined { queue = q ++ item.id ∷ [] })
  joined-IsIdle [] h = absurd (ground arith)
  joined-IsIdle (x ∷ q) h = absurd (ground arith)

  enqueue-IsIdle :
      (j : ℕ) (u : TenantState) → get_elem? (set s.tenants i joined) j ≡ some u → IsIdle u
  enqueue-IsIdle j u g = elim (get_elem?-set_cases s.tenants i j joined g) [
    | inl (p, w) ↦ subst IsIdle w (joined-IsIdle t.queue)
    | inr (ne, old) ↦ v.idle j u old
  ]

  new-EntryOk : EntryOk (length s.tenants) s.config.max_request_units e
  new-EntryOk = record { tenant_lt = lt; work_le = work; agree = inl (refl, refl) }

  enqueue_entry :
      (k : ℕ) (x : Entry)
      → find k (put e s.entries) ≡ some x
      → EntryOk (length (set s.tenants i joined)) s.config.max_request_units x
  enqueue_entry k x h =
      rw (length-set s.tenants i joined)
        (ground (arith, v.entry k x, find-put k e s.entries, new-EntryOk))

  enqueue_answered :
      (k : ℕ)
      → answers k s.replies + hit is_queued (find k (put e s.entries))
        ≡ count k (item.id ∷ s.received)
  unfolding count
  enqueue_answered k = ground (arith, v.answered k, find-put k e s.entries, absent)

  pub enqueue-Arrived : Arrived item.id s (enqueue i t item (receive item.id s))
  unfolding enqueue
  enqueue-Arrived = record {
    inv = record {
      config = rw (length-set s.tenants i joined) v.config;
      distinct = put-Distinct e s.entries v.distinct;
      entry = enqueue_entry;
      global = Accounts-put_new everywhere s.global s.entries _ e v.global absent (
          enqueue-Moved everywhere s.global e s.config.global_queue s.config.global_inflight refl
            refl v.config.in_range fits_global);
      within =
          enqueue-Within s.global item.admission s.config.global_queue s.config.global_inflight
            v.within v.config.in_range fits_global;
      tenant = enqueue_tenant;
      idle = enqueue-IsIdle;
      expiry = λ x.
          ground (
            arith,
            count-push x (slot_of e) s.expiry,
            v.expiry x,
            find-put x.id e s.entries,
            absent,
          );
      ordered = push-IsOrdered (slot_of e) s.expiry v.ordered;
      inflight = λ k. ground (arith, v.inflight k, find-put k e s.entries, absent);
      once = receive_once s v item.id new;
      answered = enqueue_answered;
      granted = λ k. ground (arith, v.granted k, find-put k e s.entries, absent);
      cursor = rw (length-set s.tenants i joined) v.cursor;
    };
    config = refl;
    tenants = length-set s.tenants i joined;
    received = refl;
    accepting = refl;
  }
