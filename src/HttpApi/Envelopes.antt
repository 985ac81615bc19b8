-- ===== src/HttpApi/Envelopes.antt =====
-- `validateHandlerConfig` (internal/httpapi/config.go): the requests that may wait with their bodies
-- in memory, against the scheduler's queues.
use ssemaphore.Prelude.{
  ℕ, ◌*◌, ◌≤◌, ◌<◌, ◌≡◌, refl, true, false, Option, none, some, List, [], ◌∷◌, arith, get_elem?,
  suc, zero, subst, ap, sym, ◌∙◌,
}
use ssemaphore.Prelude.Result.{ok, >>=-eq-ok, unless-eq-ok}
use ssemaphore.Admission.Types.{QueueLimits}
use ssemaphore.Admission.Validation.{low_word}
use ssemaphore.HttpApi.Limits.{exceeds, validate_pre_dispatch_envelope}
use ssemaphore.HttpApi.Config.{
  HttpConfig, ParserPolicy, SchedulerPolicy, TenantPreDispatchLimit, StoredCredential,
  ValidatedHandler, check_queue, check_limit, check_limits, check_bounds, check_covered,
  check_timeouts, check_credentials, has_tenant, validate_handler,
}

-- So many requests of the maximum size fit in the queue.
pub record Enveloped (n : ℕ) (queue : QueueLimits) (p : ParserPolicy) : Type 0 where
  pub count : n ≤ queue.count
  pub bytes : n * p.max_body_bytes ≤ queue.bytes
  pub work : n * p.max_request_units ≤ queue.work

exceeds-le : (n each limit : ℕ) → exceeds n each limit ≡ false → n * each ≤ limit
unfolding exceeds
exceeds-le n each limit h =
    let (word, small) = low_word (n * each) (ground (arith, h)) in ground (arith, h, word)

Enveloped-from :
    (n : ℕ) (q : QueueLimits) (p : ParserPolicy)
    → validate_pre_dispatch_envelope n q p.max_body_bytes p.max_request_units ≡ false
    → Enveloped n q p
unfolding validate_pre_dispatch_envelope
Enveloped-from n q p h = record {
  count = ground (arith, h);
  bytes = exceeds-le n p.max_body_bytes q.bytes (ground (arith, h));
  work = exceeds-le n p.max_request_units q.work (ground (arith, h));
}

-- A tenant's limit is positive, at most the global one, and fits in the tenant's queue.
pub record Reserved (p : ParserPolicy) (s : SchedulerPolicy) (global : ℕ)
    (l : TenantPreDispatchLimit) : Type 0 where
  pub named : 0 < l.tenant
  pub some_slot : 0 < l.count
  pub below : l.count ≤ global
  pub queue : QueueLimits
  pub known : s.tenant_queue l.tenant ≡ some queue
  pub envelope : Enveloped l.count queue p

check_queue-Enveloped :
    (p : ParserPolicy) (l : TenantPreDispatchLimit) (o : Option QueueLimits)
    (slots slots' : List (ℕ × ℕ))
    → check_queue p l o slots ≡ ok slots'
    → (queue : QueueLimits) × (o ≡ some queue) × Enveloped l.count queue p
unfolding check_queue
check_queue-Enveloped p l none slots slots' h = cc
check_queue-Enveloped p l (some queue) slots slots' h =
    (queue, refl, Enveloped-from l.count queue p (unless-eq-ok _ _ _ h).0)

check_limit-Reserved :
    (p : ParserPolicy) (s : SchedulerPolicy) (global : ℕ) (l : TenantPreDispatchLimit)
    (slots slots' : List (ℕ × ℕ))
    → check_limit p s global l slots ≡ ok slots'
    → Reserved p s global l
unfolding check_limit
check_limit-Reserved p s global l slots slots' h =
    let (named, h₁) = unless-eq-ok _ _ _ h in
    let (bounds, h₂) = unless-eq-ok _ _ _ h₁ in
    let (fresh, h₃) = unless-eq-ok _ _ _ h₂ in
    let (queue, known, envelope) = check_queue-Enveloped p l _ slots slots' h₃ in
    record {
      named = ground (arith, named);
      some_slot = ground (arith, bounds);
      below = ground (arith, bounds);
      queue = queue;
      known = known;
      envelope = envelope;
    }

check_limits-Reserved :
    (p : ParserPolicy) (s : SchedulerPolicy) (global : ℕ) (ls : List TenantPreDispatchLimit)
    (slots slots' : List (ℕ × ℕ))
    → check_limits p s global ls slots ≡ ok slots'
    → (i : ℕ) (l : TenantPreDispatchLimit) → get_elem? ls i ≡ some l
    → Reserved p s global l
unfolding check_limits
check_limits-Reserved p s global [] slots slots' h i l e = absurd (ground arith)
check_limits-Reserved p s global (x ∷ ls) slots slots' h zero l e =
    let (next, first, rest) = >>=-eq-ok (check_limit p s global x slots) _ h in
    subst (Reserved p s global) (ground (arith, e))
      (check_limit-Reserved p s global x slots next first)
check_limits-Reserved p s global (x ∷ ls) slots slots' h (suc i) l e =
    let (next, first, rest) = >>=-eq-ok (check_limit p s global x slots) _ h in
    check_limits-Reserved p s global ls next slots' rest i l e

check_covered-has_tenant :
    (ls : List TenantPreDispatchLimit) (stored stored' : List StoredCredential)
    → check_covered ls stored ≡ ok stored'
    → (i : ℕ) (l : TenantPreDispatchLimit) → get_elem? ls i ≡ some l
    → has_tenant l.tenant stored ≡ true
unfolding check_covered
check_covered-has_tenant [] stored stored' h i l e = absurd (ground arith)
check_covered-has_tenant (x ∷ ls) stored stored' h zero l e =
    let (covered, rest) = unless-eq-ok _ _ _ h in
    let same : x ≡ l = ground (arith, e) in
    ap (λ (k : TenantPreDispatchLimit). has_tenant k.tenant stored) (sym same)
    ∙ ground (arith, covered)
check_covered-has_tenant (x ∷ ls) stored stored' h (suc i) l e =
    let (covered, rest) = unless-eq-ok _ _ _ h in
    check_covered-has_tenant ls stored stored' rest i l e

-- In an accepted HTTP policy, the `i`-th limit on a tenant's requests before dispatch names a tenant
-- of the scheduler, is positive and at most the global limit; so many requests of the maximum size
-- fit in that tenant's queue, with the products of body bytes and work exact; and some stored
-- credential is the tenant's.
pub validate_handler-Reserved :
    (sha256 : List ℕ → ℕ) (c : HttpConfig) (p : ParserPolicy) (s : SchedulerPolicy)
    (v : ValidatedHandler) (i : ℕ) (l : TenantPreDispatchLimit)
    → validate_handler sha256 c p s ≡ ok v
    → get_elem? c.tenant_pre_dispatch i ≡ some l
    → Reserved p s c.global_pre_dispatch_limit l × (has_tenant l.tenant v.credentials ≡ true)
unfolding validate_handler
validate_handler-Reserved sha256 c p s v i l h e =
    let (_, timeouts, h₁) = >>=-eq-ok (check_timeouts c p s) _ h in
    let (_, bounds, h₂) = >>=-eq-ok (check_bounds c p s) _ h₁ in
    let (slots, limits, h₃) =
      >>=-eq-ok (check_limits p s c.global_pre_dispatch_limit c.tenant_pre_dispatch []) _ h₂ in
    let (stored, credentials, h₄) =
      >>=-eq-ok (check_credentials sha256 slots c.credentials []) _ h₃ in
    let (_, covered, h₅) = >>=-eq-ok (check_covered c.tenant_pre_dispatch stored) _ h₄ in
    let kept : stored ≡ v.credentials = ground (arith, h₅) in
    (
      check_limits-Reserved p s c.global_pre_dispatch_limit c.tenant_pre_dispatch [] slots limits i
          l e,
      ap (has_tenant l.tenant) (sym kept)
          ∙ check_covered-has_tenant c.tenant_pre_dispatch stored _ covered i l e,
    )

-- In an accepted HTTP policy, the global number of requests before dispatch, all of the maximum
-- size, fits in the scheduler's global queue, with the products exact.
pub validate_handler-Enveloped :
    (sha256 : List ℕ → ℕ) (c : HttpConfig) (p : ParserPolicy) (s : SchedulerPolicy)
    (v : ValidatedHandler)
    → validate_handler sha256 c p s ≡ ok v
    → Enveloped c.global_pre_dispatch_limit s.global_queue p
unfolding validate_handler check_bounds
validate_handler-Enveloped sha256 c p s v h =
    let (_, timeouts, h₁) = >>=-eq-ok (check_timeouts c p s) _ h in
    let (_, bounds, h₂) = >>=-eq-ok (check_bounds c p s) _ h₁ in
    let (_, b₁) = unless-eq-ok _ _ _ bounds in
    let (_, b₂) = unless-eq-ok _ _ _ b₁ in
    let (_, b₃) = unless-eq-ok _ _ _ b₂ in
    let (_, b₄) = unless-eq-ok _ _ _ b₃ in
    let (_, b₅) = unless-eq-ok _ _ _ b₄ in
    Enveloped-from c.global_pre_dispatch_limit s.global_queue p (unless-eq-ok _ _ _ b₅).0
