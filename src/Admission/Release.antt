-- ===== src/Admission/Release.antt =====
-- The end of a permit (internal/admission/owner.go, `finishEntry`) releases its accounting without
-- a panic, and keeps the invariant.
use ssemaphore.Prelude.{
  ℕ, ◌+◌, ◌≡◌, refl, sym, ◌∙◌, inl, inr, ◌≢◌, true, some, ◌∷◌, arith, length, get_elem?, set,
  length-set, get_elem?-set_cases, subst,
}
use ssemaphore.Admission.Types.{ServingOutcome}
use ssemaphore.Admission.Entries.{Entry, is_inflight, find, delete, find-delete, delete-Distinct}
use ssemaphore.Admission.Totals.{erase, ids-delete_other, count-erase}
use ssemaphore.Admission.Accounts.{
  Accounts-delete, minus_inflight, minus_inflight-Moved, remove_inflight_lem, skip_delete-Moved,
  queued_in,
}
use ssemaphore.Admission.State.{TenantState, OwnerState, Env, request_finished}
use ssemaphore.Admission.Commands.{release_inflight, terminal_outcome, final_cause}
use ssemaphore.Admission.Invariant.{EntryOk, TenantOk, IsIdle, Inv, Post, everywhere, at}

abbrev pub relieved : Entry → TenantState → TenantState
relieved e t = record t { counters = minus_inflight t.counters e.admission }

-- The state after the release.
abbrev pub released : Entry → TenantState → OwnerState → OwnerState
released e t s = record s {
  tenants = set s.tenants e.tenant (relieved e t);
  global = minus_inflight s.global e.admission;
  entries = delete e.id s.entries;
  inflight = erase e.id s.inflight;
  signals = (e.id, request_finished) ∷ s.signals;
  reads = s.reads + 1;
}

module _ (s : OwnerState) (v : Inv s) (e : Entry) (t : TenantState)
    (found : find e.id s.entries ≡ some e) (runs : is_inflight e ≡ true)
    (owner : get_elem? s.tenants e.tenant ≡ some t) where
  pub release_inflight-eq :
      (env : Env) (o : ServingOutcome)
      → release_inflight env e o s
        ≡ some (
          record { outcome = terminal_outcome (final_cause env s e) o; accounting_released = true },
          released e t s,
        )
  unfolding release_inflight
  release_inflight-eq env o = rw owner (
      rw
        (
          remove_inflight_lem (at e.tenant) t.counters s.entries e.id e
              (v.tenant e.tenant t owner).accounts found (ground arith) runs,
          remove_inflight_lem everywhere s.global s.entries e.id e v.global found refl runs,
        )
        refl)

  relieved-TenantOk : TenantOk e.tenant s.config.deficit_cap (delete e.id s.entries) (relieved e t)
  relieved-TenantOk =
      let k = v.tenant e.tenant t owner in
      record {
        queue =
            k.queue
            ∙ sym
                (ids-delete_other (queued_in (at e.tenant)) e.id e s.entries found (ground arith));
        accounts =
            Accounts-delete (at e.tenant) t.counters s.entries
              (minus_inflight t.counters e.admission) e.id e k.accounts found
              (minus_inflight-Moved (at e.tenant) t.counters s.entries e.id e k.accounts found
                (ground arith) runs);
        within = ground (arith, k.within);
        in_range = k.in_range;
        credit = k.credit;
        funding = k.funding;
      }

  other-TenantOk :
      (j : ℕ) (u : TenantState)
      → e.tenant ≢ j
      → TenantOk j s.config.deficit_cap s.entries u
      → TenantOk j s.config.deficit_cap (delete e.id s.entries) u
  other-TenantOk j u ne k = record {
    queue =
        k.queue ∙ sym (ids-delete_other (queued_in (at j)) e.id e s.entries found (ground arith));
    accounts =
        Accounts-delete (at j) u.counters s.entries u.counters e.id e k.accounts found
          (skip_delete-Moved (at j) u.counters e (ground arith));
    within = k.within;
    in_range = k.in_range;
    credit = k.credit;
    funding = k.funding;
  }

  released_tenant :
      (j : ℕ) (u : TenantState)
      → get_elem? (released e t s).tenants j ≡ some u
      → TenantOk j s.config.deficit_cap (delete e.id s.entries) u
  released_tenant j u g = elim (get_elem?-set_cases s.tenants e.tenant j (relieved e t) g) [
    | inl (i, w) ↦
        subst (λ i. TenantOk i s.config.deficit_cap (delete e.id s.entries) u) i
          (subst (TenantOk e.tenant s.config.deficit_cap (delete e.id s.entries)) w
            relieved-TenantOk)
    | inr (ne, old) ↦ other-TenantOk j u ne (v.tenant j u old)
  ]

  released-IsIdle :
      (j : ℕ) (u : TenantState) → get_elem? (released e t s).tenants j ≡ some u → IsIdle u
  released-IsIdle j u g = elim (get_elem?-set_cases s.tenants e.tenant j (relieved e t) g) [
    | inl (i, w) ↦ subst IsIdle w (v.idle e.tenant t owner)
    | inr (ne, old) ↦ v.idle j u old
  ]

  released_entry :
      (k : ℕ) (x : Entry)
      → find k (delete e.id s.entries) ≡ some x
      → EntryOk (length (set s.tenants e.tenant (relieved e t))) s.config.max_request_units x
  released_entry k x h =
      rw (length-set s.tenants e.tenant (relieved e t))
        (v.entry k x (ground (arith, find-delete k e.id s.entries v.distinct)))

  pub released-Inv : Inv (released e t s)
  released-Inv = record {
    config = rw (length-set s.tenants e.tenant (relieved e t)) v.config;
    distinct = delete-Distinct e.id s.entries v.distinct;
    entry = released_entry;
    global =
        Accounts-delete everywhere s.global s.entries (minus_inflight s.global e.admission) e.id e
          v.global found
          (minus_inflight-Moved everywhere s.global s.entries e.id e v.global found refl runs);
    within = ground (arith, v.within);
    tenant = released_tenant;
    idle = released-IsIdle;
    expiry = λ x. ground (arith, v.expiry x, find-delete x.id e.id s.entries v.distinct);
    ordered = v.ordered;
    inflight = λ k. ground (
      arith,
      count-erase k e.id s.inflight,
      v.inflight k,
      find-delete k e.id s.entries v.distinct,
    );
    once = v.once;
    answered = λ k. ground (arith, v.answered k, find-delete k e.id s.entries v.distinct);
    granted = λ k. ground (arith, v.granted k, find-delete k e.id s.entries v.distinct);
    cursor = rw (length-set s.tenants e.tenant (relieved e t)) v.cursor;
  }

  pub released-Post : Post s (released e t s)
  released-Post = record {
    inv = released-Inv;
    same = record {
      config = refl;
      tenants = length-set s.tenants e.tenant (relieved e t);
      received = refl;
      accepting = refl;
    };
  }
