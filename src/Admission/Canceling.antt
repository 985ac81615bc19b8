-- ===== src/Admission/Canceling.antt =====
-- `cancelEntry` (internal/admission/owner.go) on every branch.
use ssemaphore.Prelude.{
  ℕ, ◌+◌, ◌≡◌, refl, ◌⊎◌, inl, inr, true, false, none, some, arith, if◌then◌else◌, get_elem?, subst,
  Ensures, Ensures-bind, Bool-cases, Option-cases,
}
use ssemaphore.Admission.Types.{
  CancelResult, applied, already_requested, already_terminal, client_cause, canceled_queued,
}
use ssemaphore.Admission.Entries.{
  Entry, is_queued, is_inflight, find, find-put, find-id, find-delete,
}
use ssemaphore.Admission.State.{TenantState, OwnerState, canceled_by_client, answers}
use ssemaphore.Admission.Owner.{drop_queued, decide}
use ssemaphore.Admission.Commands.{cancel_entry, has_cause, state_queued, state_inflight, signal}
use ssemaphore.Admission.Invariant.{Inv, Post, Same-refl}
use ssemaphore.Admission.Removal.{dropped, answers_zero}
use ssemaphore.Admission.Moves.{signal-Post}
use ssemaphore.Admission.Expiring.{drop_queued_lem, found_self}
use ssemaphore.Admission.Draining.{some_queued_count}

-- What a cancellation does: an entry that waits leaves with an answer, and one in flight keeps its
-- accounting.
pub record Canceled (id : ℕ) (s : OwnerState) (r : CancelResult) (s' : OwnerState) : Type 0 where
  pub post : Post s s'
  pub absent : find id s.entries ≡ none → (r ≡ already_terminal) × (s' ≡ s)
  pub queued :
      (e : Entry)
      → find id s.entries ≡ some e
      → is_queued e ≡ true
      → (r ≡ applied)
        × (find id s'.entries ≡ none)
        × (s'.global.queued_count + 1 ≡ s.global.queued_count)
        × (s'.global.inflight_count ≡ s.global.inflight_count)
        × (answers id s'.replies ≡ 1)
  pub inflight :
      (e : Entry)
      → find id s.entries ≡ some e
      → is_inflight e ≡ true
      → (r ≡ (if has_cause e.cancel_cause then already_requested else applied))
        × (s'.global ≡ s.global)
        × (s'.inflight ≡ s.inflight)
        × (find id s'.entries
            ≡ some (record e {
              cancel_cause = if has_cause e.cancel_cause then e.cancel_cause else client_cause;
            }))

-- The state and the phase of an entry agree.
pub phase_of_state :
    (s : OwnerState) (v : Inv s) (id : ℕ) (e : Entry)
    → find id s.entries ≡ some e
    → ((state_queued e ≡ true) × (is_queued e ≡ true))
      ⊎ ((state_queued e ≡ false)
          × (state_inflight e ≡ true)
          × (is_queued e ≡ false)
          × (is_inflight e ≡ true))
phase_of_state s v id e found = ground (arith, (v.entry id e found).agree)

answers-dropped :
    (s : OwnerState) (v : Inv s) (e : Entry) (t : TenantState)
    → find e.id s.entries ≡ some e
    → is_queued e ≡ true
    → get_elem? s.tenants e.tenant ≡ some t
    → answers e.id (dropped e t (decide canceled_queued) s).replies ≡ 1
unfolding answers
answers-dropped s v e t found waits owner = ground (arith, answers_zero s v e t found waits owner)

cancel_queued :
    (s : OwnerState) (v : Inv s) (id : ℕ) (e : Entry)
    → find id s.entries ≡ some e
    → is_queued e ≡ true
    → Ensures (drop_queued id (decide canceled_queued) s) (Canceled id s applied)
cancel_queued s v id e found waits =
    let d = decide canceled_queued in
    let (t, owner, eq, post) = drop_queued_lem s v id e d found waits in
    let self = found_self id e s.entries found in
    let same = find-id id s.entries found in
    rw eq (record {
      post = post;
      absent = λ none_found. cc (found, none_found);
      queued = λ x h w. (
        refl,
        ground (arith, find-delete id e.id s.entries v.distinct, same),
        omega (arith, some_queued_count s v id e found waits),
        refl,
        subst (λ k. answers k (dropped e t d s).replies ≡ 1) same
            (answers-dropped s v e t self waits owner),
      );
      inflight = λ x h w. absurd (ground (arith, found, h));
    })

cancel_running :
    (s : OwnerState) (v : Inv s) (id : ℕ) (e : Entry)
    → find id s.entries ≡ some e
    → is_inflight e ≡ true
    → has_cause e.cancel_cause ≡ false
    → Canceled id s applied (signal e client_cause canceled_by_client s)
cancel_running s v id e found runs fresh = record {
  post = signal-Post s v e (found_self id e s.entries found) client_cause canceled_by_client;
  absent = λ none_found. cc (found, none_found);
  queued = λ x h w. absurd (ground (arith, found, h));
  inflight = λ x h w. (
    ground (arith, found, h),
    refl,
    refl,
    ground (
      arith,
      found,
      h,
      find-id id s.entries found,
      find-put id (record e { cancel_cause = client_cause }) s.entries,
    ),
  );
}

pub cancel_entry-Canceled :
    (s : OwnerState) (v : Inv s) (id : ℕ) → Ensures (cancel_entry id s) (λ r. Canceled id s r.0 r.1)
unfolding cancel_entry
cancel_entry-Canceled s v id = elim (Option-cases (find id s.entries)) [
  | inl absent ↦
      simp (absent, cancel_entry)
        (record {
          post = record { inv = v; same = Same-refl s };
          absent = λ h. (refl, refl);
          queued = λ e h. cc (absent, h);
          inflight = λ e h. cc (absent, h);
        })
  | inr (e, found) ↦ elim (phase_of_state s v id e found) [
    | inl (sq, waits) ↦
        simp (found, sq, cancel_entry)
          (Ensures-bind (drop_queued id (decide canceled_queued) s) (λ s'. some (applied, s'))
            (Canceled id s applied) (λ r. Canceled id s r.0 r.1)
            (cancel_queued s v id e found waits) (λ s' p. p))
    | inr (sq, si, passed, runs) ↦ elim (Bool-cases (has_cause e.cancel_cause)) [
      | inl caused ↦
          simp (found, sq, caused, cancel_entry)
            (record {
              post = record { inv = v; same = Same-refl s };
              absent = λ h. cc (found, h);
              queued = λ x h w. absurd (ground (arith, found, h));
              inflight = λ x h w. (ground (arith, found, h), refl, refl, ground (arith, found, h));
            })
      | inr fresh ↦ simp (found, sq, fresh, cancel_entry) (cancel_running s v id e found runs fresh)
    ]
  ]
]
