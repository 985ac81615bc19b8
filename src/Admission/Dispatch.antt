-- ===== src/Admission/Dispatch.antt =====
-- `dispatch` (internal/admission/owner.go) never panics, and keeps the invariant where the bounds
-- of the tenant and of the scheduler have room for the entry.
use ssemaphore.Prelude.{
  ℕ, ◌+◌, ◌≤◌, ◌≡◌, refl, sym, ◌∙◌, ap, inl, inr, ◌≢◌, true, some, [], ◌∷◌, ◌++◌, arith, length,
  get_elem?, set, length-set, get_elem?-set_cases, get_elem?-set_self, lt-get_elem?, set-set, subst,
}
use ssemaphore.Admission.Types.{dispatched}
use ssemaphore.Admission.Counters.{add_inflight, inflight_fits}
use ssemaphore.Admission.Entries.{
  Entry, EntryState, AccountingPhase, is_queued, is_inflight, find, put, find-put, put-Distinct,
  put-put,
}
use ssemaphore.Admission.Totals.{hit, count, erase, ids-put_drop, ids-put_same, count-append}
use ssemaphore.Admission.Accounts.{
  minus_queued, dispatch-Moved, Accounts-put, skip-Moved, queued_in, dispatch-Within,
}
use ssemaphore.Admission.Expiry.{slot_of, remove-IsOrdered, count-remove}
use ssemaphore.Admission.Expiry
use ssemaphore.Admission.State.{TenantState, OwnerState, answers}
use ssemaphore.Admission.Owner.{resolve, decide, reset_idle}
use ssemaphore.Admission.Pump.{dispatch}
use ssemaphore.Admission.Invariant.{EntryOk, TenantOk, IsIdle, Inv, Same, everywhere, at}
use ssemaphore.Admission.Removal.{
  without, taken, removed, remove_queued-eq, answers_zero, reset_idle-TenantOk, reset_idle-IsIdle,
  owner_ok,
}

abbrev pub running : Entry → Entry
running e = record e { state = EntryState.inflight; phase = AccountingPhase.inflight }

abbrev pub served : Entry → TenantState → TenantState
served e t =
    let u = without e t in reset_idle (record u { counters = add_inflight u.counters e.admission })

-- The state after `dispatch`.
abbrev pub granted : Entry → TenantState → OwnerState → OwnerState
granted e t s = record s {
  tenants = set s.tenants e.tenant (served e t);
  entries = put (running e) s.entries;
  expiry = Expiry.remove (slot_of e) s.expiry;
  inflight = s.inflight ++ e.id ∷ [];
  global = add_inflight (minus_queued s.global e.admission) e.admission;
  replies = record { id = e.id; permit = true; decision = decide dispatched } ∷ s.replies;
}

served_eq :
    (e : Entry) (t : TenantState)
    → record (taken e t) { counters = add_inflight (taken e t).counters e.admission } ≡ served e t
served_eq e t = ground arith

module _ (s : OwnerState) (v : Inv s) (e : Entry) (t : TenantState)
    (found : find e.id s.entries ≡ some e) (waits : is_queued e ≡ true)
    (owner : get_elem? s.tenants e.tenant ≡ some t) where
  taken_back : get_elem? (removed e t s).tenants e.tenant ≡ some (taken e t)
  taken_back =
      get_elem?-set_self s.tenants e.tenant (taken e t) (lt-get_elem? s.tenants e.tenant owner)

  pub dispatch-eq : dispatch e.id s ≡ some (granted e t s)
  unfolding dispatch resolve
  dispatch-eq =
      rw (found, dispatch)
        (rw (remove_queued-eq s v e t found waits owner) (
          rw taken_back (
            rw (answers_zero s v e t found waits owner) (
              rw
                (
                  set-set s.tenants e.tenant (taken e t) _,
                  put-put (running e) (record e { phase = AccountingPhase.unset }) s.entries refl,
                  served_eq e t,
                )
                refl))))

  module _ (fits_tenant : inflight_fits t.counters e.admission t.config.inflight ≡ true)
      (fits_global : inflight_fits s.global e.admission s.config.global_inflight ≡ true) where
    served_core :
        TenantOk e.tenant s.config.deficit_cap
          (put (running e) s.entries)
          (let u = without e t in record u { counters = add_inflight u.counters e.admission })
    served_core =
        let k = owner_ok s v e t found waits owner in
        record {
          queue =
              ap (erase e.id) k.queue
              ∙ sym (
                  ids-put_drop (queued_in (at e.tenant)) (running e) e s.entries found v.distinct
                    (ground arith));
          accounts =
              Accounts-put (at e.tenant) t.counters s.entries _ (running e) e k.accounts found (
                dispatch-Moved (at e.tenant) t.counters s.entries e.id e k.accounts found
                  (ground arith) (running e) t.config.queue t.config.inflight waits refl refl
                  (ground arith) k.within k.in_range fits_tenant);
          within =
              dispatch-Within t.counters e.admission t.config.queue t.config.inflight k.within
                k.in_range fits_tenant;
          in_range = k.in_range;
          credit = k.credit;
          funding = k.funding;
        }

    other-TenantOk :
        (j : ℕ) (u : TenantState)
        → e.tenant ≢ j
        → TenantOk j s.config.deficit_cap s.entries u
        → TenantOk j s.config.deficit_cap (put (running e) s.entries) u
    other-TenantOk j u ne k = record {
      queue =
          k.queue
          ∙ sym (ids-put_same (queued_in (at j)) (running e) e s.entries found (ground arith));
      accounts =
          Accounts-put (at j) u.counters s.entries u.counters (running e) e k.accounts found
            (skip-Moved (at j) u.counters e (running e) (ground arith) (ground arith));
      within = k.within;
      in_range = k.in_range;
      credit = k.credit;
      funding = k.funding;
    }

    granted_tenant :
        (j : ℕ) (u : TenantState)
        → get_elem? (granted e t s).tenants j ≡ some u
        → TenantOk j s.config.deficit_cap (put (running e) s.entries) u
    granted_tenant j u g = elim (get_elem?-set_cases s.tenants e.tenant j (served e t) g) [
      | inl (i, w) ↦
          subst (λ i. TenantOk i s.config.deficit_cap (put (running e) s.entries) u) i
            (subst (TenantOk e.tenant s.config.deficit_cap (put (running e) s.entries)) w (
              reset_idle-TenantOk e.tenant s.config.deficit_cap (put (running e) s.entries) _
                served_core))
      | inr (ne, old) ↦ other-TenantOk j u ne (v.tenant j u old)
    ]

    granted-IsIdle :
        (j : ℕ) (u : TenantState) → get_elem? (granted e t s).tenants j ≡ some u → IsIdle u
    granted-IsIdle j u g = elim (get_elem?-set_cases s.tenants e.tenant j (served e t) g) [
      | inl (i, w) ↦ subst IsIdle w (
          reset_idle-IsIdle
            (let u = without e t in record u { counters = add_inflight u.counters e.admission }))
      | inr (ne, old) ↦ v.idle j u old
    ]

    running-EntryOk : EntryOk (length s.tenants) s.config.max_request_units (running e)
    running-EntryOk =
        let k = v.entry e.id e found in
        record { tenant_lt = k.tenant_lt; work_le = k.work_le; agree = inr (refl, refl) }

    granted_entry :
        (k : ℕ) (x : Entry)
        → find k (put (running e) s.entries) ≡ some x
        → EntryOk (length (set s.tenants e.tenant (served e t))) s.config.max_request_units x
    granted_entry k x h =
        rw (length-set s.tenants e.tenant (served e t))
          (ground (arith, v.entry k x, find-put k (running e) s.entries, running-EntryOk))

    granted_answered :
        (k : ℕ)
        → answers k (granted e t s).replies + hit is_queued (find k (put (running e) s.entries))
          ≡ count k s.received
    unfolding answers
    granted_answered k = ground (arith, v.answered k, find-put k (running e) s.entries)

    granted_granted :
        (k : ℕ)
        → hit is_inflight (find k (put (running e) s.entries)) ≤ answers k (granted e t s).replies
    unfolding answers
    granted_granted k = ground (arith, v.granted k, find-put k (running e) s.entries)

    granted_inflight :
        (k : ℕ)
        → count k (s.inflight ++ e.id ∷ []) ≡ hit is_inflight (find k (put (running e) s.entries))
    unfolding count
    granted_inflight k = ground (
      arith,
      v.inflight k,
      find-put k (running e) s.entries,
      count-append k s.inflight (e.id ∷ []),
    )

    pub granted-Inv : Inv (granted e t s)
    granted-Inv = record {
      config = rw (length-set s.tenants e.tenant (served e t)) v.config;
      distinct = put-Distinct (running e) s.entries v.distinct;
      entry = granted_entry;
      global = Accounts-put everywhere s.global s.entries _ (running e) e v.global found (
          dispatch-Moved everywhere s.global s.entries e.id e v.global found refl (running e)
            s.config.global_queue s.config.global_inflight waits refl refl refl v.within
            v.config.in_range fits_global);
      within =
          dispatch-Within s.global e.admission s.config.global_queue s.config.global_inflight
            v.within v.config.in_range fits_global;
      tenant = granted_tenant;
      idle = granted-IsIdle;
      expiry = λ x. ground (
        arith,
        count-remove x (slot_of e) s.expiry,
        v.expiry x,
        find-put x.id (running e) s.entries,
      );
      ordered = remove-IsOrdered (slot_of e) s.expiry v.ordered;
      inflight = granted_inflight;
      once = v.once;
      answered = granted_answered;
      granted = granted_granted;
      cursor = rw (length-set s.tenants e.tenant (served e t)) v.cursor;
    }

    pub granted-Same : Same s (granted e t s)
    granted-Same = record {
      config = refl;
      tenants = length-set s.tenants e.tenant (served e t);
      received = refl;
      accepting = refl;
    }
