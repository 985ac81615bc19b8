-- ===== src/Admission/Finishing.antt =====
-- `finishEntry` (internal/admission/owner.go) on every branch.
use ssemaphore.Prelude.{
  ℕ, ◌+◌, ◌≤◌, ◌≡◌, refl, ap, inl, inr, true, false, ◌&&◌, none, some, arith, get_elem?,
  get_elem?-lt, Ensures, Option-cases,
}
use ssemaphore.Admission.Types.{ServingOutcome, TerminalResult}
use ssemaphore.Admission.Entries.{Entry, is_inflight, find, find-id, find-delete}
use ssemaphore.Admission.Totals.{le-total}
use ssemaphore.Admission.Accounts.{inflight_in, one, work_of}
use ssemaphore.Admission.State.{TenantState, OwnerState, Env}
use ssemaphore.Admission.Commands.{
  finish_entry, final_cause, terminal_outcome, internal_failure, state_inflight,
}
use ssemaphore.Admission.Invariant.{Inv, Post, Same-refl, everywhere}
use ssemaphore.Admission.Release.{released, release_inflight-eq, released-Post}
use ssemaphore.Admission.Expiring.{found_self}
use ssemaphore.Admission.Canceling.{phase_of_state}

-- What the end of a permit does: one in flight gives back its count and its work and is forgotten;
-- any other call changes nothing and reports that nothing was released.
pub record Finished (env : Env) (id : ℕ) (o : ServingOutcome) (s : OwnerState) (r : TerminalResult)
    (s' : OwnerState) : Type 0 where
  pub post : Post s s'
  pub released :
      (e : Entry)
      → find id s.entries ≡ some e
      → is_inflight e ≡ true
      → (r.outcome ≡ terminal_outcome (final_cause env s e) o)
        × (r.accounting_released ≡ true)
        × (s'.global.inflight_count + 1 ≡ s.global.inflight_count)
        × (s'.global.inflight_work + e.admission.work_units ≡ s.global.inflight_work)
        × (s'.global.queued_count ≡ s.global.queued_count)
        × (find id s'.entries ≡ none)
  pub ignored :
      ((e : Entry) → find id s.entries ≡ some e → is_inflight e ≡ false)
      → (r ≡ internal_failure) × (s' ≡ s)

held :
    (s : OwnerState) (v : Inv s) (id : ℕ) (e : Entry)
    → find id s.entries ≡ some e
    → is_inflight e ≡ true
    → (1 ≤ s.global.inflight_count) × (e.admission.work_units ≤ s.global.inflight_work)
held s v id e found runs = ground (
  arith,
  v.global.inflight_count,
  v.global.inflight_work,
  le-total (inflight_in everywhere) one id e s.entries found,
  le-total (inflight_in everywhere) work_of id e s.entries found,
)

finish_running :
    (env : Env) (s : OwnerState) (v : Inv s) (id : ℕ) (o : ServingOutcome) (e : Entry)
    (t : TenantState)
    → find id s.entries ≡ some e
    → is_inflight e ≡ true
    → get_elem? s.tenants e.tenant ≡ some t
    → Finished env id o s
        (record { outcome = terminal_outcome (final_cause env s e) o; accounting_released = true })
        (released e t s)
finish_running env s v id o e t found runs owner = record {
  post = released-Post s v e t (found_self id e s.entries found) runs owner;
  released = λ x h w.
      let p : e ≡ x = ground (arith, found, h) in
      (
        ap (λ (y : Entry). terminal_outcome (final_cause env s y) o) p,
        refl,
        omega (arith, held s v id e found runs),
        omega (arith, held s v id e found runs, ap work_of p),
        refl,
        ground (arith, find-delete id e.id s.entries v.distinct, find-id id s.entries found),
      );
  ignored = λ h. absurd (ground (arith, h e found));
}

pub finish_entry-Finished :
    (env : Env) (s : OwnerState) (v : Inv s) (id : ℕ) (o : ServingOutcome)
    → Ensures (finish_entry env id o s) (λ r. Finished env id o s r.0 r.1)
unfolding finish_entry
finish_entry-Finished env s v id o = elim (Option-cases (find id s.entries)) [
  | inl absent ↦
      simp (absent, finish_entry)
        (record {
          post = record { inv = v; same = Same-refl s };
          released = λ e h. cc (absent, h);
          ignored = λ h. (refl, refl);
        })
  | inr (e, found) ↦ elim (phase_of_state s v id e found) [
    | inl (sq, waits) ↦
        let si : state_inflight e && is_inflight e ≡ false = ground arith in
        simp (found, si, finish_entry)
          (record {
            post = record { inv = v; same = Same-refl s };
            released = λ x h w. absurd (ground (arith, found, h));
            ignored = λ h. (refl, refl);
          })
    | inr (sq, si, passed, runs) ↦
        let (t, owner) = get_elem?-lt s.tenants e.tenant (v.entry id e found).tenant_lt in
        let self = found_self id e s.entries found in
        simp (found, si, runs, finish_entry)
          (rw (release_inflight-eq s v e t self runs owner env o)
            (finish_running env s v id o e t found runs owner))
  ]
]
