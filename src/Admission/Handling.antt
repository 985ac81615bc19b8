-- ===== src/Admission/Handling.antt =====
-- `handle` and what ends a round of `Scheduler.run` (internal/admission/owner.go), for every command.
use ssemaphore.Prelude.{
  ℕ, ◌≤◌, ◌≡◌, refl, ◌∙◌, inl, inr, ◌↔◌, true, ◌&&◌, ◌||◌, not, none, List, ◌∷◌, arith, ◌==◌,
  Ensures, Ensures-bind, Bool-cases, Option-cases,
}
use ssemaphore.Admission.Entries.{find}
use ssemaphore.Admission.Totals.{total-pos, le-total}
use ssemaphore.Admission.Accounts.{queued_in, inflight_in, one}
use ssemaphore.Admission.State.{OwnerState, Env}
use ssemaphore.Admission.Owner.{observe, admit}
use ssemaphore.Admission.Commands.{
  Command, admit_command, cancel_command, finish_command, snapshot_command, drain_command,
  force_cancel_command, stop_command, handle, is_drained, notify_drained, cancel_entry,
  finish_entry, begin_drain, force_cancel_inflight,
}
use ssemaphore.Admission.Pump.{pump}
use ssemaphore.Admission.Run.{finish_round}
use ssemaphore.Admission.Invariant.{Inv, Post, everywhere}
use ssemaphore.Admission.Moves.{relabel-Inv}
use ssemaphore.Admission.Expiring.{Expired}
use ssemaphore.Admission.Termination.{pump-Post}
use ssemaphore.Admission.Draining.{Drained, begin_drain-Drained}
use ssemaphore.Admission.Canceling.{Canceled, cancel_entry-Canceled}
use ssemaphore.Admission.Finishing.{Finished, finish_entry-Finished}
use ssemaphore.Admission.Forcing.{Forced, force_cancel_inflight-Forced}
use ssemaphore.Admission.Arrival.{IsNew}
use ssemaphore.Admission.Admitting.{Admitted, admit-Admitted}

-- The IDs that a command adds to those received.
abbrev pub adds : Command → List ℕ → List ℕ
adds (admit_command item) l = item.id ∷ l
adds (cancel_command id) l = l
adds (finish_command id o) l = l
adds snapshot_command l = l
adds drain_command l = l
adds force_cancel_command l = l
adds stop_command l = l

-- What the callers of the owner see to: `Acquire` gives every item an ID of its own and checks its
-- work against the bound, and `Close` asks for a stop only once the scheduler is drained.
abbrev pub CommandOk : Command → OwnerState → Type 0
CommandOk (admit_command item) s =
    IsNew item.id s × (item.admission.work_units ≤ s.config.max_request_units)
CommandOk (cancel_command id) s = Unit {0}
CommandOk (finish_command id o) s = Unit {0}
CommandOk snapshot_command s = Unit {0}
CommandOk drain_command s = Unit {0}
CommandOk force_cancel_command s = Unit {0}
CommandOk stop_command s = is_drained s ≡ true

-- The state is sound, with the configuration that it had; `l` are the IDs received.
pub record Handled (l : List ℕ) (s s' : OwnerState) : Type 0 where
  pub inv : Inv s'
  pub config : s'.config ≡ s.config
  pub received : s'.received ≡ l

-- In a sound state, the scheduler is drained exactly when the owner holds no entry.
pub is_drained_iff :
    (s : OwnerState) → Inv s → (is_drained s ≡ true) ↔ ((id : ℕ) → find id s.entries ≡ none)
unfolding is_drained
is_drained_iff s v = (no_entry, no_count)
  where
    no_entry :
        (s.global.queued_count == 0 && s.global.inflight_count == 0) ≡ true
        → (id : ℕ) → find id s.entries ≡ none
    no_entry h id = elim (Option-cases (find id s.entries)) [
      | inl absent ↦ absent
      | inr (e, found) ↦ absurd (
          ground (
            arith,
            (v.entry id e found).agree,
            v.global.queued_count,
            v.global.inflight_count,
            le-total (queued_in everywhere) one id e s.entries found,
            le-total (inflight_in everywhere) one id e s.entries found,
          ))
    ]

    no_count :
        ((id : ℕ) → find id s.entries ≡ none)
        → (s.global.queued_count == 0 && s.global.inflight_count == 0) ≡ true
    no_count none_found =
        elim (Bool-cases (s.global.queued_count == 0 && s.global.inflight_count == 0)) [
          | inl drained ↦ drained
          | inr left ↦ elim (Bool-cases (s.global.queued_count == 0)) [
            | inr some_queued ↦
                let (e, found, _) =
                  total-pos (queued_in everywhere) s.entries v.distinct
                    (ground (arith, v.global.queued_count)) in
                cc (found, none_found e.id)
            | inl none_queued ↦
                let (e, found, _) =
                  total-pos (inflight_in everywhere) s.entries v.distinct
                    (ground (arith, v.global.inflight_count)) in
                cc (found, none_found e.id)
          ]
        ]

pub is_drained-observe : (s : OwnerState) → is_drained (observe s) ≡ is_drained s
unfolding is_drained
is_drained-observe s = refl

pub Expired-drained :
    (now : ℕ) (s s' : OwnerState)
    → Inv s
    → Expired now s s'
    → is_drained s ≡ true
    → is_drained s' ≡ true
Expired-drained now s s' v x h = (is_drained_iff s' x.post.inv).1 (λ id.
    elim (Option-cases (find id s'.entries)) [
      | inl absent ↦ absent
      | inr (e, found) ↦ cc (x.old id e found, (is_drained_iff s v).0 h id)
    ])

-- A command that its caller may give is handled without a panic.
pub handle-Handled :
    (env : Env) (c : Command) (now : ℕ) (s : OwnerState)
    → Inv s
    → CommandOk c s
    → Ensures (handle env c now s) (λ r. Handled (adds c s.received) s r.1)
unfolding handle
handle-Handled env (admit_command item) now s v (new, work) =
    Ensures-bind (admit env now item s) _ (Admitted env now item s) _
      (admit-Admitted env now item s v new work)
      (λ s' a. record {
        inv = a.arrived.inv;
        config = a.arrived.config;
        received = a.arrived.received;
      })
handle-Handled env (cancel_command id) now s v ok =
    Ensures-bind (cancel_entry id s) _ (λ r. Canceled id s r.0 r.1) _ (cancel_entry-Canceled s v id)
      (λ r c. record {
        inv = c.post.inv;
        config = c.post.same.config;
        received = c.post.same.received;
      })
handle-Handled env (finish_command id o) now s v ok =
    Ensures-bind (finish_entry env id o s) _ (λ r. Finished env id o s r.0 r.1) _
      (finish_entry-Finished env s v id o)
      (λ r f. record {
        inv = f.post.inv;
        config = f.post.same.config;
        received = f.post.same.received;
      })
handle-Handled env snapshot_command now s v ok = record { inv = v; config = refl; received = refl }
handle-Handled env drain_command now s v ok =
    Ensures-bind (begin_drain env s) _ (λ r. Drained s r.0 r.1) _ (begin_drain-Drained env s v)
      (λ r d. record { inv = d.inv; config = d.config; received = d.received })
handle-Handled env force_cancel_command now s v ok =
    Ensures-bind (force_cancel_inflight env s) _ (λ r. Forced s r.0 r.1) _
      (force_cancel_inflight-Forced env s v)
      (λ r f. record { inv = f.inv; config = f.config; received = f.received })
handle-Handled env stop_command now s v ok =
    rw ok (record { inv = v; config = refl; received = refl })

notify_drained-Handled : (s : OwnerState) → Inv s → Handled s.received s (notify_drained s)
unfolding notify_drained
notify_drained-Handled s v =
    elim (Bool-cases (s.accepting || (not (is_drained s) || s.drain_notified))) [
      | inl silent ↦ simp silent (record { inv = v; config = refl; received = refl })
      | inr tell ↦ simp tell (record {
        inv = relabel-Inv s.accepting true s.signals s.reads s v;
        config = refl;
        received = refl;
      })
    ]

pub finish_round-Handled :
    (env : Env) (s : OwnerState) → Inv s → Ensures (finish_round env s) (Handled s.received s)
unfolding finish_round
finish_round-Handled env s v =
    Ensures-bind (pump env s) _ (Post s) (Handled s.received s) (pump-Post env s v) (λ s' p.
      let h = notify_drained-Handled s' p.inv in
      record {
        inv = h.inv;
        config = h.config ∙ p.same.config;
        received = h.received ∙ p.same.received;
      })

pub Handled-trans :
    (l : List ℕ) (s s' u : OwnerState) → Handled l s s' → Handled s'.received s' u → Handled l s u
Handled-trans l s s' u p q = record {
  inv = q.inv;
  config = q.config ∙ p.config;
  received = q.received ∙ p.received;
}
