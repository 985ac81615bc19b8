-- ===== src/Admission/Forcing.antt =====
-- `forceCancelInflight` (internal/admission/owner.go) and its loop over the permits.
use ssemaphore.Prelude.{
  ℕ, ◌+◌, ◌≤◌, ◌<◌, ◌≡◌, refl, ◌∙◌, ap, ◌⊎◌, inl, inr, true, false, some, List, [], ◌∷◌, arith,
  ◌==◌, if◌then◌else◌, length, subst, u64, Ensures, Ensures-mono, Ensures-bind, ◌>>=◌, Bool-cases,
}
use ssemaphore.Admission.Types.{CancelCause, ForceCancelResult, client_cause, shutdown_cause}
use ssemaphore.Admission.Entries.{Entry, is_inflight, find, put, find-put, find-id}
use ssemaphore.Admission.Totals.{count, hit-pos}
use ssemaphore.Admission.State.{OwnerState, Env, Signal, canceled_by_client, canceled_by_drain}
use ssemaphore.Admission.Owner.{observe}
use ssemaphore.Admission.Commands.{
  force_one, force_all, force_cancel_inflight, begin_drain, has_cause, signal,
}
use ssemaphore.Admission.Invariant.{Inv, Post, Post-trans, Same-refl}
use ssemaphore.Admission.Moves.{signal-Post, observe-Post}
use ssemaphore.Admission.Expiring.{found_self}
use ssemaphore.Admission.Draining.{Drained, begin_drain-Drained}

-- The entry is there, and a cause of cancellation is noted in it.
abbrev pub Caused : ℕ → OwnerState → Type 0
Caused k s = (e : Entry) × (find k s.entries ≡ some e) × (has_cause e.cancel_cause ≡ true)

abbrev pub Present : ℕ → OwnerState → Type 0
Present k s = (e : Entry) × (find k s.entries ≡ some e)

record Marks (s : OwnerState) (n : ℕ) (s' : OwnerState) (n' : ℕ) : Type 0 where
  post : Post s s'
  global : s'.global ≡ s.global
  inflight : s'.inflight ≡ s.inflight
  present : (k : ℕ) → Present k s → Present k s'
  caused : (k : ℕ) → Caused k s → Caused k s'
  signaled : n' ≤ n + 1

Marks-signal :
    (s : OwnerState) (v : Inv s) (id : ℕ) (e : Entry) (c : CancelCause) (g : Signal) (n n' : ℕ)
    → find id s.entries ≡ some e
    → has_cause c ≡ true
    → n' ≤ n + 1
    → Marks s n (signal e c g (observe s)) n' × Caused id (signal e c g (observe s))
Marks-signal s v id e c g n n' found noted le =
    let o = observe-Post s v in
    let e' : Entry = record e { cancel_cause = c } in
    let look = λ (k : ℕ). find-put k e' s.entries in
    let same = find-id id s.entries found in
    (
      record {
        post =
            Post-trans s (observe s) (signal e c g (observe s)) o
              (signal-Post (observe s) o.inv e (found_self id e s.entries found) c g);
        global = refl;
        inflight = refl;
        present = λ k (x, h). present_put k e' x s.entries h;
        caused = λ k (x, h, w). caused_put k e' x s.entries noted h w;
        signaled = le;
      },
      (e', ground (arith, look id, same), noted),
    )
  where
    present_put :
        (k : ℕ) (e' x : Entry) (es : List Entry)
        → find k es ≡ some x
        → (y : Entry) × (find k (put e' es) ≡ some y)
    present_put k e' x es h = elim (Bool-cases (e'.id == k)) [
      | inl hit_it ↦ (e', rw (find-put k e' es, hit_it))
      | inr miss ↦ (x, rw (find-put k e' es, miss) h)
    ]

    caused_put :
        (k : ℕ) (e' x : Entry) (es : List Entry)
        → has_cause e'.cancel_cause ≡ true
        → find k es ≡ some x
        → has_cause x.cancel_cause ≡ true
        → (y : Entry) × (find k (put e' es) ≡ some y) × (has_cause y.cancel_cause ≡ true)
    caused_put k e' x es noted h w = elim (Bool-cases (e'.id == k)) [
      | inl hit_it ↦ (e', rw (find-put k e' es, hit_it), noted)
      | inr miss ↦ (x, rw (find-put k e' es, miss) h, w)
    ]

force_one-Marks :
    (env : Env) (s : OwnerState) (v : Inv s) (id : ℕ) (n : ℕ)
    → Present id s
    → Ensures (force_one env id (s, n)) (λ r. Marks s n r.0 r.1 × Caused id r.0)
unfolding force_one
force_one-Marks env s v id n (e, found) = elim (Bool-cases (has_cause e.cancel_cause)) [
  | inl noted ↦
      simp (found, noted, force_one)
        (
          record {
            post = record { inv = v; same = Same-refl s };
            global = refl;
            inflight = refl;
            present = λ k p. p;
            caused = λ k p. p;
            signaled = omega arith;
          },
          (e, refl, noted),
        )
  | inr fresh ↦ elim (Bool-cases (env.canceled s.reads id)) [
    | inl gone ↦
        simp (found, fresh, gone, force_one)
          (Marks-signal s v id e client_cause canceled_by_client n n found refl (omega arith))
    | inr live ↦
        simp (found, fresh, live, force_one)
          (Marks-signal s v id e shutdown_cause canceled_by_drain n (u64 (n + 1)) found refl
            (omega arith))
  ]
]

-- The whole list is gone through.
record Forces (l : List ℕ) (s : OwnerState) (n : ℕ) (s' : OwnerState) (n' : ℕ) : Type 0 where
  post : Post s s'
  global : s'.global ≡ s.global
  inflight : s'.inflight ≡ s.inflight
  caused : (k : ℕ) → Caused k s → Caused k s'
  all_caused : (k : ℕ) → 0 < count k l → Caused k s'
  signaled : n' ≤ n + length l

count-head : (k id : ℕ) (l : List ℕ) → 0 < count k (id ∷ l) → (id ≡ k) ⊎ (0 < count k l)
unfolding count
count-head k id l h = ground arith

Forces-cons :
    (id : ℕ) (l : List ℕ) (s s' u : OwnerState) (n n' m : ℕ)
    → Marks s n s' n'
    → Caused id s'
    → Forces l s' n' u m
    → Forces (id ∷ l) s n u m
Forces-cons id l s s' u n n' m p c f = record {
  post = Post-trans s s' u p.post f.post;
  global = f.global ∙ p.global;
  inflight = f.inflight ∙ p.inflight;
  caused = λ k h. f.caused k (p.caused k h);
  all_caused = λ k h. elim (count-head k id l h) [
    | inl same ↦ subst (λ j. Caused j u) same (f.caused id c)
    | inr rest ↦ f.all_caused k rest
  ];
  signaled = omega (arith, p.signaled, f.signaled);
}

force_all-Forces :
    (env : Env) (l : List ℕ) (s : OwnerState) (n : ℕ)
    → Inv s
    → ((k : ℕ) → 0 < count k l → Present k s)
    → Ensures (force_all env l (s, n)) (λ r. Forces l s n r.0 r.1)
unfolding force_all count
force_all-Forces env [] s n v p = record {
  post = record { inv = v; same = Same-refl s };
  global = refl;
  inflight = refl;
  caused = λ k h. h;
  all_caused = λ k h. absurd (omega arith);
  signaled = omega arith;
}
force_all-Forces env (id ∷ l) s n v p =
    Ensures-bind (force_one env id (s, n)) (force_all env l)
      (λ r. Marks s n r.0 r.1 × Caused id r.0) (λ r. Forces (id ∷ l) s n r.0 r.1)
      (force_one-Marks env s v id n (p id (ground arith)))
      (λ (s', n') (m, c).
        Ensures-mono (force_all env l (s', n')) (λ r. Forces l s' n' r.0 r.1)
          (λ r. Forces (id ∷ l) s n r.0 r.1)
          (force_all-Forces env l s' n' m.post.inv (λ k h. m.present k (p k (ground arith))))
          (λ r f. Forces-cons id l s s' r.0 n n' r.1 m c f))

-- After a forced cancellation admission is closed, every permit in flight has a cause of
-- cancellation, and the accounting of all of them is still held.
pub record Forced (s : OwnerState) (r : ForceCancelResult) (s' : OwnerState) : Type 0 where
  pub inv : Inv s'
  pub config : s'.config ≡ s.config
  pub tenants : length s'.tenants ≡ length s.tenants
  pub received : s'.received ≡ s.received
  pub closed : s'.accepting ≡ false
  pub caused :
      (k : ℕ) (e : Entry)
      → find k s'.entries ≡ some e
      → is_inflight e ≡ true
      → has_cause e.cancel_cause ≡ true
  pub inflight : s'.inflight ≡ s.inflight
  pub inflight_count : s'.global.inflight_count ≡ s.global.inflight_count
  pub inflight_work : s'.global.inflight_work ≡ s.global.inflight_work
  pub signaled : r.newly_shutdown_signaled ≤ length s.inflight

-- What the loop over the permits starts from.
record Ready (s s' : OwnerState) : Type 0 where
  inv : Inv s'
  config : s'.config ≡ s.config
  tenants : length s'.tenants ≡ length s.tenants
  received : s'.received ≡ s.received
  closed : s'.accepting ≡ false
  inflight : s'.inflight ≡ s.inflight
  inflight_count : s'.global.inflight_count ≡ s.global.inflight_count
  inflight_work : s'.global.inflight_work ≡ s.global.inflight_work

Forced-from :
    (s s' u : OwnerState) (n : ℕ)
    → Ready s s'
    → Forces s'.inflight s' 0 u n
    → Forced s (record { newly_shutdown_signaled = n }) u
Forced-from s s' u n p f = record {
  inv = f.post.inv;
  config = f.post.same.config ∙ p.config;
  tenants = f.post.same.tenants ∙ p.tenants;
  received = f.post.same.received ∙ p.received;
  closed = f.post.same.accepting ∙ p.closed;
  caused = λ k e found runs.
      let (x, h, w) =
        f.all_caused k (ground (arith, f.post.inv.inflight k, ap (count k) f.inflight, found)) in
      ground (arith, found, h, w);
  inflight = f.inflight ∙ p.inflight;
  inflight_count = ap (λ c. c.inflight_count) f.global ∙ p.inflight_count;
  inflight_work = ap (λ c. c.inflight_work) f.global ∙ p.inflight_work;
  signaled = omega (arith, f.signaled, ap length p.inflight);
}

-- In a sound state, a forced cancellation goes through: it leaves a sound state that admits no
-- more, where every entry in flight has a cause of cancellation and the accounting in flight is as
-- before. It reports no more signals than there are permits.
pub force_cancel_inflight-Forced :
    (env : Env) (s : OwnerState)
    → Inv s
    → Ensures (force_cancel_inflight env s) (λ r. Forced s r.0 r.1)
unfolding force_cancel_inflight
force_cancel_inflight-Forced env s v =
    Ensures-bind (if s.accepting then (begin_drain env s >>= λ r. some r.1) else some s) _ (Ready s)
      (λ r. Forced s r.0 r.1) ready
      (λ s' p.
        Ensures-bind (force_all env s'.inflight (s', 0)) _ (λ r. Forces s'.inflight s' 0 r.0 r.1)
          (λ r. Forced s r.0 r.1)
          (force_all-Forces env s'.inflight s' 0 p.inv (λ k h.
            let (e, found, runs) =
              hit-pos is_inflight (find k s'.entries) (ground (arith, p.inv.inflight k)) in
            (e, found)))
          (λ r f. Forced-from s s' r.0 r.1 p f))
  where
    ready :
        Ensures (if s.accepting then (begin_drain env s >>= λ r. some r.1) else some s) (Ready s)
    ready = elim (Bool-cases s.accepting) [
      | inl accepting ↦ simp accepting (
          Ensures-bind (begin_drain env s) (λ r. some r.1) (λ r. Drained s r.0 r.1) (Ready s)
            (begin_drain-Drained env s v)
            (λ r d. record {
              inv = d.inv;
              config = d.config;
              tenants = d.tenants;
              received = d.received;
              closed = d.closed;
              inflight = d.inflight;
              inflight_count = d.inflight_count;
              inflight_work = d.inflight_work;
            }))
      | inr closed ↦ simp closed (record {
        inv = v;
        config = refl;
        tenants = refl;
        received = refl;
        closed = closed;
        inflight = refl;
        inflight_count = refl;
        inflight_work = refl;
      })
    ]
