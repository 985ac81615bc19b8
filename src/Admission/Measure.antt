-- ===== src/Admission/Measure.antt =====
-- The measure by which `pump` (internal/admission/owner.go) ends: entries that wait, and credit
-- that the tenants can still be given.
use ssemaphore.Prelude.{
  ℕ, zero, suc, ◌+◌, ◌-◌, ◌*◌, ◌≤◌, ◌≡◌, refl, ap, Bool, true, ◌&&◌, some, List, [], ◌∷◌, arith,
  ltb, length, get_elem?, set,
}
use ssemaphore.Admission.Types.{Decision}
use ssemaphore.Admission.Counters.{add_inflight}
use ssemaphore.Admission.Entries.{Entry, is_queued, find}
use ssemaphore.Admission.Totals.{weigh, le-total}
use ssemaphore.Admission.Accounts.{queued_in, one}
use ssemaphore.Admission.State.{TenantState, OwnerState}
use ssemaphore.Admission.Owner.{observe}
use ssemaphore.Admission.Pump.{advance, set_tenant}
use ssemaphore.Admission.Invariant.{Inv, Post, Post-trans, everywhere}
use ssemaphore.Admission.Removal.{taken, dropped}
use ssemaphore.Admission.Dispatch.{served, granted}
use ssemaphore.Admission.Moves.{credited}

-- What a tenant's credit lacks to the cap, twice, and one more for a visit that is open below it.
unfoldable pub lack : ℕ → TenantState → ℕ
lack top t = 2 * (top - t.deficit) + weigh (t.visit_open && ltb t.deficit top) 1

pub lacks : ℕ → List TenantState → ℕ
lacks top [] = 0
lacks top (t ∷ ts) = lack top t + lacks top ts

abbrev pub price : ℕ → ℕ
price top = 2 * top + 2

pub measure : OwnerState → ℕ
measure s =
    s.global.queued_count * price s.config.deficit_cap + lacks s.config.deficit_cap s.tenants

lacks-set :
    (top : ℕ) (ts : List TenantState) (i : ℕ) (t u : TenantState)
    → get_elem? ts i ≡ some t
    → lacks top (set ts i u) + lack top t ≡ lacks top ts + lack top u
unfolding lacks
lacks-set top [] i t u h = absurd (ground arith)
lacks-set top (x ∷ ts) zero t u h = let e : x ≡ t = ground arith in omega (arith, ap (lack top) e)
lacks-set top (x ∷ ts) (suc i) t u h = omega (arith, lacks-set top ts i t u h)

lack-le : (top : ℕ) (t : TenantState) → lack top t ≤ 2 * top + 1
unfolding lack
lack-le top t = ground arith

lacks-le : (top : ℕ) (ts : List TenantState) → lacks top ts ≤ length ts * price top
unfolding lacks
lacks-le top [] = omega arith
lacks-le top (t ∷ ts) = omega (arith, lacks-le top ts, lack-le top t)

pub measure-le :
    (s : OwnerState)
    → measure s ≤ (s.global.queued_count + length s.tenants) * (2 * s.config.deficit_cap + 2)
unfolding measure
measure-le s = omega (arith, lacks-le s.config.deficit_cap s.tenants)

-- A transition that keeps the invariant and takes `n` off the measure.
pub record Drops (n : ℕ) (s s' : OwnerState) : Type 0 where
  pub post : Post s s'
  pub less : measure s' + n ≤ measure s

pub Drops-trans : (m n : ℕ) (s t u : OwnerState) → Drops m s t → Drops n t u → Drops (m + n) s u
Drops-trans m n s t u p q = record { post = Post-trans s t u p.post q.post; less = omega arith }

pub measure-observe : (s : OwnerState) → measure (observe s) ≡ measure s
unfolding measure
measure-observe s = refl

pub measure-advance : (s : OwnerState) → measure (advance s) ≡ measure s
unfolding measure advance
measure-advance s = refl

pub measure-credited :
    (s : OwnerState) (i : ℕ) (t : TenantState) (d : ℕ) (b : Bool)
    → get_elem? s.tenants i ≡ some t
    → measure (set_tenant i (credited d b t) s) + lack s.config.deficit_cap t
      ≡ measure s + lack s.config.deficit_cap (credited d b t)
unfolding measure
measure-credited s i t d b h =
    omega (arith, lacks-set s.config.deficit_cap s.tenants i t (credited d b t) h)

-- One entry fewer waits, and one tenant may lack all its credit.
one_fewer :
    (q q' k c c' l l' : ℕ)
    → q ≡ q' + 1
    → c' + l ≡ c + l'
    → l' + 1 ≤ l + k
    → q' * k + c' + 1 ≤ q * k + c
one_fewer q q' k c c' l l' e f g = omega (arith, ap (λ (n : ℕ). n * k) e)

one_fewer_all :
    (q q' k c c' l l' : ℕ)
    → q ≡ q' + 1
    → c' + l ≡ c + l'
    → l' + 1 ≤ k
    → q' * k + c' + l + 1 ≤ q * k + c
one_fewer_all q q' k c c' l l' e f g = omega (arith, ap (λ (n : ℕ). n * k) e)

lack-taken :
    (top : ℕ) (e : Entry) (t : TenantState) → lack top (taken e t) + 1 ≤ lack top t + price top
unfolding lack
lack-taken top e t = ground arith

module _ (s : OwnerState) (v : Inv s) (e : Entry) (t : TenantState)
    (found : find e.id s.entries ≡ some e) (waits : is_queued e ≡ true)
    (owner : get_elem? s.tenants e.tenant ≡ some t) where
  queued_pos : 1 ≤ s.global.queued_count
  queued_pos =
      ground
        (arith, v.global.queued_count, le-total (queued_in everywhere) one e.id e s.entries found)

  pub measure-dropped : (d : Decision) → measure (dropped e t d s) + 1 ≤ measure s
  unfolding measure
  measure-dropped d =
      one_fewer s.global.queued_count (s.global.queued_count - 1) (price s.config.deficit_cap)
        (lacks s.config.deficit_cap s.tenants) _ (lack s.config.deficit_cap t)
        (lack s.config.deficit_cap (taken e t)) (omega (arith, queued_pos))
        (lacks-set s.config.deficit_cap s.tenants e.tenant t (taken e t) owner)
        (lack-taken s.config.deficit_cap e t)

  pub measure-granted : measure (granted e t s) + lack s.config.deficit_cap t + 1 ≤ measure s
  unfolding measure add_inflight
  measure-granted =
      one_fewer_all s.global.queued_count (s.global.queued_count - 1) (price s.config.deficit_cap)
        (lacks s.config.deficit_cap s.tenants) _ (lack s.config.deficit_cap t)
        (lack s.config.deficit_cap (served e t)) (omega (arith, queued_pos))
        (lacks-set s.config.deficit_cap s.tenants e.tenant t (served e t) owner)
        (omega (arith, lack-le s.config.deficit_cap (served e t)))
