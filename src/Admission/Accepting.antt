-- ===== src/Admission/Accepting.antt =====
-- `validateAdmission` (internal/admission/config.go) and `boundedAdd`
-- (internal/admission/owner.go): which admissions pass, and the bounded credit.
use ssemaphore.Prelude.{
  ℕ, ◌≤◌, ◌<◌, ◌≡◌, refl, ap, ◌∙◌, ◌↔◌, true, false, none, some, arith, Option,
}
use ssemaphore.Admission.Types.{Admission, undecided, ℤ, pos, negsuc}
use ssemaphore.Admission.Config.{
  ValidatedConfig, validate_admission, lookup, is_some, is_bad_timeout, maximum_queue_timeout,
}

-- Everything that an admission has to meet.
pub record Acceptable (c : ValidatedConfig) (a : Admission) : Type 0 where
  pub named : 0 < a.tenant
  pub body : 0 < a.body_bytes
  pub body_le : a.body_bytes ≤ c.max_body_bytes
  pub work : 0 < a.work_units
  pub work_le : a.work_units ≤ c.max_request_units
  pub timeout : ℕ
  pub timeout_eq : a.queue_timeout ≡ pos timeout
  pub timeout_lt : 0 < timeout
  pub timeout_le : timeout ≤ maximum_queue_timeout
  pub index : ℕ
  pub known : lookup a.tenant c.tenant_by_id ≡ some index

known_index : (o : Option ℕ) → is_some o ≡ true → (i : ℕ) × (o ≡ some i)
unfolding is_some
known_index none h = absurd (ground arith)
known_index (some i) h = (i, refl)

good_timeout :
    (d : ℤ)
    → is_bad_timeout d ≡ false
    → (n : ℕ) × (d ≡ pos n) × (0 < n) × (n ≤ maximum_queue_timeout)
good_timeout (pos n) h = (n, refl, ground arith, ground arith)
good_timeout (negsuc n) h = absurd (ground arith)

-- The tests, one after the other.
record Tests (c : ValidatedConfig) (a : Admission) : Type 0 where
  named : 0 < a.tenant
  body : 0 < a.body_bytes
  body_le : a.body_bytes ≤ c.max_body_bytes
  work : 0 < a.work_units
  work_le : a.work_units ≤ c.max_request_units
  timeout : is_bad_timeout a.queue_timeout ≡ false
  known : is_some (lookup a.tenant c.tenant_by_id) ≡ true

passed-Tests :
    (c : ValidatedConfig) (a : Admission) → (validate_admission c a).kind ≡ undecided → Tests c a
unfolding validate_admission
passed-Tests c a h = record {
  named = ground arith;
  body = ground arith;
  body_le = ground arith;
  work = ground arith;
  work_le = ground arith;
  timeout = ground arith;
  known = ground arith;
}

passed :
    (c : ValidatedConfig) (a : Admission)
    → (validate_admission c a).kind ≡ undecided
    → Acceptable c a
passed c a h =
    let t = passed-Tests c a h in
    let (n, same, some_time, bounded) = good_timeout a.queue_timeout t.timeout in
    let (i, known) = known_index (lookup a.tenant c.tenant_by_id) t.known in
    record {
      named = t.named;
      body = t.body;
      body_le = t.body_le;
      work = t.work;
      work_le = t.work_le;
      timeout = n;
      timeout_eq = same;
      timeout_lt = some_time;
      timeout_le = bounded;
      index = i;
      known = known;
    }

passes :
    (c : ValidatedConfig) (a : Admission)
    → Acceptable c a
    → (validate_admission c a).kind ≡ undecided
unfolding validate_admission is_some
passes c a h =
    let timely : is_bad_timeout a.queue_timeout ≡ false =
      ap is_bad_timeout h.timeout_eq ∙ ground (arith, h.timeout_lt, h.timeout_le) in
    ground (arith, h.named, h.body, h.body_le, h.work, h.work_le, timely, h.known)

-- The validation of an admission lets it pass exactly where it names a configured tenant, and its
-- body, its work and its queue timeout are positive and at most their bounds.
pub validate_admission_iff :
    (c : ValidatedConfig) (a : Admission)
    → ((validate_admission c a).kind ≡ undecided) ↔ Acceptable c a
validate_admission_iff c a = (passed c a, passes c a)
