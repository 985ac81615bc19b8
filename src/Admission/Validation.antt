-- ===== src/Admission/Validation.antt =====
-- `validateConfig` (internal/admission/config.go): its tests on a tenant and its loop.
use ssemaphore.Prelude.{
  ℕ, suc, ◌+◌, ◌*◌, ◌/◌, ◌≤◌, ◌<◌, ◌≡◌, refl, sym, ◌∙◌, ap, inl, inr, ◌≢◌, Bool, true, false,
  Option, none, some, List, [], ◌∷◌, ◌++◌, max, min, arith, ◌==◌, ltb, if◌then◌else◌, length,
  length-append, get_elem?, u64, u64_mod, Bool-cases, subst, get_elem?-append_one,
  get_elem?-append_old, get_elem?-append_last, map, append_assoc, append_nil,
}
use ssemaphore.Prelude.Result.{Result, ok, unless, >>=-eq-ok}
use ssemaphore.Admission.Types.{QueueLimits, InflightLimits, TenantConfig, Config}
use ssemaphore.Admission.Config.{
  ValidatedTenant, ConfigError, Progress, lookup, is_some, validate_queue_limits,
  validate_inflight_limits, validate_tenant, validate_tenants, above_queue, above_inflight, start,
}

-- The limits are at most the global ones, and hold one maximum request.
pub record LimitsOk (c : Config) (q : QueueLimits) (f : InflightLimits) : Type 0 where
  pub some_queued : 0 < q.count
  pub body_fits : c.max_body_bytes ≤ q.bytes
  pub work_fits : c.max_request_units ≤ q.work
  pub some_inflight : 0 < f.count
  pub units_fit : c.max_request_units ≤ f.work
  pub queue_count : q.count ≤ c.global_queue.count
  pub queue_bytes : q.bytes ≤ c.global_queue.bytes
  pub queue_work : q.work ≤ c.global_queue.work
  pub inflight_count : f.count ≤ c.global_inflight.count
  pub inflight_work : f.work ≤ c.global_inflight.work

-- What `validateConfig` makes of a tenant: its limits as they are, and its quantum without a wrap.
abbrev pub made : Config → TenantConfig → ValidatedTenant
made c t = record {
  id = t.id;
  quantum = c.base_quantum * t.weight;
  queue = t.queue;
  inflight = t.inflight;
}

-- What one round of the loop has checked, and what it adds.
pub record Checked (c : Config) (index : ℕ) (t : TenantConfig) (p p' : Progress) : Type 0 where
  pub id : t.id ≢ 0
  pub fresh : lookup t.id p.tenant_by_id ≡ none
  pub in_range : c.base_quantum * t.weight < u64_mod
  pub funded : 0 < c.base_quantum * t.weight
  pub limits : LimitsOk c t.queue t.inflight
  pub tenants : p'.tenants ≡ p.tenants ++ made c t ∷ []
  pub tenant_by_id : p'.tenant_by_id ≡ (t.id, index) ∷ p.tenant_by_id
  pub maximum : p'.maximum_quantum ≡ max p.maximum_quantum (c.base_quantum * t.weight)
  pub minimum : p'.minimum_quantum ≡ min p.minimum_quantum (c.base_quantum * t.weight)

not_known : (o : Option ℕ) → is_some o ≡ false → o ≡ none
unfolding is_some
not_known none h = refl
not_known (some i) h = absurd (ground arith)

-- The high word of a product is 0 when the product fits.
pub low_word : (n : ℕ) → ltb 0 (n / u64_mod) ≡ false → (u64 n ≡ n) × (n < u64_mod)
low_word n h = let small : n / u64_mod ≡ 0 = ground arith in (omega arith, omega arith)

pub unless-ok :
    {A : Type 0} (b : Bool) (e : ConfigError) (r : Result ConfigError A) {a : A}
    → unless b e r ≡ ok a
    → (b ≡ false) × (r ≡ ok a)
unfolding unless
unless-ok true e r h = absurd (ground arith)
unless-ok false e r h = (refl, h)

pub LimitsOk-from :
    (c : Config) (q : QueueLimits) (f : InflightLimits)
    → validate_queue_limits q c.max_body_bytes c.max_request_units ≡ false
    → above_queue q c.global_queue ≡ false
    → validate_inflight_limits f c.max_request_units ≡ false
    → above_inflight f c.global_inflight ≡ false
    → LimitsOk c q f
unfolding validate_queue_limits validate_inflight_limits
LimitsOk-from c q f h₁ h₂ h₃ h₄ = ground arith

validate_tenant-Checked :
    (c : Config) (index : ℕ) (t : TenantConfig) (p p' : Progress)
    → validate_tenant c index t p ≡ ok p'
    → Checked c index t p p'
unfolding validate_tenant
validate_tenant-Checked c index t p p' h =
    let (id, h₁) = unless-ok _ _ _ h in
    let (fresh, h₂) = unless-ok _ _ _ h₁ in
    let (weight, h₃) = unless-ok _ _ _ h₂ in
    let (range, h₄) = unless-ok _ _ _ h₃ in
    let (queue, h₅) = unless-ok _ _ _ h₄ in
    let (queue_bound, h₆) = unless-ok _ _ _ h₅ in
    let (inflight, h₇) = unless-ok _ _ _ h₆ in
    let (inflight_bound, h₈) = unless-ok _ _ _ h₇ in
    let (word, small) = low_word (c.base_quantum * t.weight) (ground (arith, range)) in
    record {
      id = ground (arith, id);
      fresh = not_known (lookup t.id p.tenant_by_id) fresh;
      in_range = small;
      funded = ground (arith, range, word);
      limits = LimitsOk-from c t.queue t.inflight queue queue_bound inflight inflight_bound;
      tenants = ground (arith, h₈, word);
      tenant_by_id = ground (arith, h₈);
      maximum = ground (arith, h₈, word);
      minimum = ground (arith, h₈, word);
    }

-- A tenant that the loop has taken: its quantum did not wrap and lies between the least and the
-- greatest, and the map leads from its ID to its index.
pub record EachOk (c : Config) (p : Progress) (i : ℕ) (t : ValidatedTenant) : Type 0 where
  pub id : t.id ≢ 0
  pub funded : 0 < t.quantum
  pub in_range : t.quantum < u64_mod
  pub limits : LimitsOk c t.queue t.inflight
  pub least : p.minimum_quantum ≤ t.quantum
  pub greatest : t.quantum ≤ p.maximum_quantum
  pub known : lookup t.id p.tenant_by_id ≡ some i

-- What the loop keeps, after `k` tenants.
pub record ProgressOk (c : Config) (k : ℕ) (p : Progress) : Type 0 where
  pub count : length p.tenants ≡ k
  pub index :
      (id i : ℕ)
      → lookup id p.tenant_by_id ≡ some i
      → (t : ValidatedTenant) × (get_elem? p.tenants i ≡ some t) × (t.id ≡ id)
  pub each : (i : ℕ) (t : ValidatedTenant) → get_elem? p.tenants i ≡ some t → EachOk c p i t

pub start-ProgressOk : (c : Config) → ProgressOk c 0 start
unfolding lookup
start-ProgressOk c = record {
  count = refl;
  index = λ id i h. absurd (ground arith);
  each = λ i t h. absurd (ground arith);
}

module _ (c : Config) (k : ℕ) (t : TenantConfig) (p p' : Progress) (h : Checked c k t p p')
    (v : ProgressOk c k p) where
  lookup-next :
      (id : ℕ)
      → lookup id p'.tenant_by_id ≡ (if t.id == id then some k else lookup id p.tenant_by_id)
  unfolding lookup
  lookup-next id = ap (lookup id) h.tenant_by_id

  next_index :
      (id i : ℕ)
      → lookup id p'.tenant_by_id ≡ some i
      → (u : ValidatedTenant) × (get_elem? p'.tenants i ≡ some u) × (u.id ≡ id)
  next_index id i e = elim (Bool-cases (t.id == id)) [
    | inl same ↦
        let at_end : k ≡ i = ground (arith, lookup-next id, e) in
        (
          made c t,
          ap (λ l. get_elem? l i) h.tenants
              ∙ ap (get_elem? (p.tenants ++ made c t ∷ [])) (sym at_end ∙ sym v.count)
              ∙ get_elem?-append_last p.tenants (made c t),
          ground arith,
        )
    | inr differ ↦
        let (u, owner, named) = v.index id i (ground (arith, lookup-next id, e)) in
        (
          u,
          ap (λ l. get_elem? l i) h.tenants ∙ get_elem?-append_old p.tenants (made c t) u i owner,
          named,
        )
  ]

  old-EachOk : (i : ℕ) (u : ValidatedTenant) → EachOk c p i u → EachOk c p' i u
  old-EachOk i u e = record {
    id = e.id;
    funded = e.funded;
    in_range = e.in_range;
    limits = e.limits;
    least = omega (arith, e.least, h.minimum);
    greatest = omega (arith, e.greatest, h.maximum);
    known = elim (Bool-cases (t.id == u.id)) [
      | inl same ↦
          let q : t.id ≡ u.id = ground arith in
          cc (h.fresh, ap (λ n. lookup n p.tenant_by_id) q, e.known)
      | inr differ ↦ ground (arith, lookup-next u.id, e.known)
    ];
  }

  made-EachOk : EachOk c p' k (made c t)
  made-EachOk = record {
    id = h.id;
    funded = h.funded;
    in_range = h.in_range;
    limits = h.limits;
    least = omega (arith, h.minimum);
    greatest = omega (arith, h.maximum);
    known = ground (arith, lookup-next t.id);
  }

  next_each : (i : ℕ) (u : ValidatedTenant) → get_elem? p'.tenants i ≡ some u → EachOk c p' i u
  next_each i u e =
      elim (get_elem?-append_one p.tenants (made c t) i
        (ap (λ l. get_elem? l i) (sym h.tenants) ∙ e)) [
          | inl (lt, owner) ↦ old-EachOk i u (v.each i u owner)
          | inr (last, same) ↦
              subst (EachOk c p' i) same
                (subst (λ j. EachOk c p' j (made c t)) (sym v.count ∙ sym last) made-EachOk)
        ]

  next-ProgressOk : ProgressOk c (k + 1) p'
  next-ProgressOk = record {
    count = omega (arith, ap length h.tenants, length-append p.tenants (made c t ∷ []), v.count);
    index = next_index;
    each = next_each;
  }

pub validate_tenants-ProgressOk :
    (c : Config) (k : ℕ) (ts : List TenantConfig) (p p' : Progress)
    → ProgressOk c k p
    → validate_tenants c k ts p ≡ ok p'
    → ProgressOk c (k + length ts) p'
unfolding validate_tenants
validate_tenants-ProgressOk c k [] p p' v h =
    let same : p ≡ p' = ground arith in
    let n : k ≡ k + 0 = omega arith in
    subst (λ m. ProgressOk c m p') n (subst (ProgressOk c k) same v)
validate_tenants-ProgressOk c k (t ∷ ts) p p' v h =
    let (q, first, rest) =
      >>=-eq-ok (validate_tenant c k t p) (λ q. validate_tenants c (k + 1) ts q) h in
    let n : k + 1 + length ts ≡ k + suc (length ts) = omega arith in
    subst (λ m. ProgressOk c m p') n
      (validate_tenants-ProgressOk c (k + 1) ts q p'
        (next-ProgressOk c k t p q (validate_tenant-Checked c k t p q first) v) rest)

-- The loop makes one tenant of each, in their order.
pub validate_tenants-made :
    (c : Config) (k : ℕ) (ts : List TenantConfig) (p p' : Progress)
    → validate_tenants c k ts p ≡ ok p'
    → p'.tenants ≡ p.tenants ++ map (made c) ts
unfolding validate_tenants
validate_tenants-made c k [] p p' h =
    let same : p ≡ p' = ground arith in ap (λ q. q.tenants) (sym same) ∙ sym (append_nil p.tenants)
validate_tenants-made c k (t ∷ ts) p p' h =
    let (q, first, rest) =
      >>=-eq-ok (validate_tenant c k t p) (λ q. validate_tenants c (k + 1) ts q) h in
    validate_tenants-made c (k + 1) ts q p' rest
    ∙ ap (λ l. l ++ map (made c) ts) (validate_tenant-Checked c k t p q first).tenants
    ∙ append_assoc p.tenants (made c t ∷ []) (map (made c) ts)
