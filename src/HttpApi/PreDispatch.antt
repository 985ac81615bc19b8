-- ===== src/HttpApi/PreDispatch.antt =====
-- internal/httpapi/handler.go: the slots that a request holds while its body is parsed. A buffered channel
-- is the number of its tokens; the handlers' leases move one at a time, in any order.
use ssemaphore.Prelude.{
  ℕ, ◌+◌, ◌-◌, ◌≤◌, ◌<◌, ◌≡◌, refl, Bool, true, false, List, [], ◌∷◌, ◌++◌, ◌==◌, ltb, arith,
  if◌then◌else◌, Bool-cases, inl, inr, if-split, subst, sym,
}

pub record Slots : Type 0 where
  pub tenant : ℕ → ℕ
  pub global : ℕ

-- Where a lease stands: before its first select, between its two, past a second one that found the global
-- channel full but with its tenant's token still, refused (and whether by the tenant's limit), held, with
-- its global token given back, and released.
pub data Lease : Type 0 where
  fresh tenant_taken global_full held global_returned : ℕ → Lease
  refused : Bool → Lease
  released : Lease

abbrev pub add_tenant : ℕ → Slots → Slots
add_tenant t s = record s { tenant = λ u. if u == t then s.tenant u + 1 else s.tenant u }

abbrev pub drop_tenant : ℕ → Slots → Slots
drop_tenant t s = record s { tenant = λ u. if u == t then s.tenant u - 1 else s.tenant u }

-- One step of a lease, where `caps` are the channels' capacities: one select or one receive of
-- `acquirePreDispatch` or of `release`.
unfoldable pub take_tenant : Slots → ℕ → Slots → Slots × Lease
take_tenant caps t s =
    if ltb (s.tenant t) (caps.tenant t) then (add_tenant t s, tenant_taken t) else (s, refused true)

unfoldable pub take_global : Slots → ℕ → Slots → Slots × Lease
take_global caps t s =
    if ltb s.global caps.global
    then (record s { global = s.global + 1 }, held t)
    else (s, global_full t)

unfoldable pub move_lease : Slots → Lease → Slots → Slots × Lease
unfolding take_tenant take_global
move_lease caps (fresh t) s = take_tenant caps t s
move_lease caps (tenant_taken t) s = take_global caps t s
move_lease caps (global_full t) s = (drop_tenant t s, refused false)
move_lease caps (held t) s = (record s { global = s.global - 1 }, global_returned t)
move_lease caps (global_returned t) s = (drop_tenant t s, released)
move_lease caps (refused b) s = (s, refused b)
move_lease caps released s = (s, released)

-- The runs of the handlers from empty channels: a request comes, or a lease makes a step.
pub data Reach (caps : Slots) : Slots → List Lease → Type 0 where
  idle : Reach caps (record { tenant = λ t. 0; global = 0 }) []
  arrive : (s : Slots) (ls : List Lease) (t : ℕ) → Reach caps s ls → Reach caps s (fresh t ∷ ls)
  step :
      (s : Slots) (before : List Lease) (l : Lease) (ls : List Lease)
      → Reach caps s (before ++ (l ∷ ls))
      → Reach caps (move_lease caps l s).0 (before ++ ((move_lease caps l s).1 ∷ ls))

-- The tokens that a lease has in a channel.
abbrev pub tenant_tokens : ℕ → Lease → ℕ
tenant_tokens u (fresh t) = 0
tenant_tokens u (tenant_taken t) = if u == t then 1 else 0
tenant_tokens u (global_full t) = if u == t then 1 else 0
tenant_tokens u (held t) = if u == t then 1 else 0
tenant_tokens u (global_returned t) = if u == t then 1 else 0
tenant_tokens u (refused b) = 0
tenant_tokens u released = 0

abbrev pub global_tokens : Lease → ℕ
global_tokens (fresh t) = 0
global_tokens (tenant_taken t) = 0
global_tokens (global_full t) = 0
global_tokens (held t) = 1
global_tokens (global_returned t) = 0
global_tokens (refused b) = 0
global_tokens released = 0

abbrev pub total : (Lease → ℕ) → List Lease → ℕ
total f [] = 0
total f (l ∷ ls) = f l + total f ls

total-append :
    (f : Lease → ℕ) (before : List Lease) (l : Lease) (ls : List Lease)
    → total f (before ++ (l ∷ ls)) ≡ total f before + f l + total f ls
total-append f [] l ls = omega arith
total-append f (b ∷ bs) l ls = omega (arith, total-append f bs l ls)

-- A step moves as many tokens in the tenant's channel as the lease gains or loses, within the capacity.
abbrev TenantMoves : Slots → ℕ → Slots → Lease → Slots × Lease → Type 0
TenantMoves caps u s l (s', l') =
    (rest : ℕ)
    → s.tenant u ≡ rest + tenant_tokens u l
    → s.tenant u ≤ caps.tenant u
    → (s'.tenant u ≡ rest + tenant_tokens u l') × (s'.tenant u ≤ caps.tenant u)

abbrev GlobalMoves : Slots → Slots → Lease → Slots × Lease → Type 0
GlobalMoves caps s l (s', l') =
    (rest : ℕ)
    → s.global ≡ rest + global_tokens l
    → s.global ≤ caps.global
    → (s'.global ≡ rest + global_tokens l') × (s'.global ≤ caps.global)

add-Moves :
    (caps : Slots) (u t : ℕ) (s : Slots)
    → s.tenant t < caps.tenant t
    → TenantMoves caps u s (fresh t) (add_tenant t s, tenant_taken t)
add-Moves caps u t s room rest h k = elim (Bool-cases (u == t)) [
  | inl same ↦
      let alike : u ≡ t = ground arith in
      let fits = subst (λ x. s.tenant x < caps.tenant x) (sym alike) room in
      rw same (omega arith, omega arith)
  | inr other ↦ rw other (h, k)
]

drop-Moves :
    (caps : Slots) (u t : ℕ) (s : Slots) (rest : ℕ)
    → s.tenant u ≡ rest + (if u == t then 1 else 0)
    → s.tenant u ≤ caps.tenant u
    → ((drop_tenant t s).tenant u ≡ rest + 0) × ((drop_tenant t s).tenant u ≤ caps.tenant u)
drop-Moves caps u t s rest h k = go (u == t) h
  where
    go :
        (b : Bool)
        → s.tenant u ≡ rest + (if b then 1 else 0)
        → ((if b then s.tenant u - 1 else s.tenant u) ≡ rest + 0)
          × ((if b then s.tenant u - 1 else s.tenant u) ≤ caps.tenant u)
    go true e = (omega arith, omega arith)
    go false e = (e, k)

move_lease-TenantMoves :
    (caps : Slots) (u : ℕ) (s : Slots) (l : Lease) → TenantMoves caps u s l (move_lease caps l s)
unfolding move_lease take_tenant take_global
move_lease-TenantMoves caps u s (fresh t) =
    if-split (TenantMoves caps u s (fresh t)) (ltb (s.tenant t) (caps.tenant t)) _ _
      (λ room. add-Moves caps u t s (ground arith)) (λ full rest h k. (h, k))
move_lease-TenantMoves caps u s (tenant_taken t) =
    if-split (TenantMoves caps u s (tenant_taken t)) (ltb s.global caps.global) _ _
      (λ room rest h k. (h, k)) (λ full rest h k. (h, k))
move_lease-TenantMoves caps u s (global_full t) = drop-Moves caps u t s
move_lease-TenantMoves caps u s (held t) = λ rest h k. (h, k)
move_lease-TenantMoves caps u s (global_returned t) = drop-Moves caps u t s
move_lease-TenantMoves caps u s (refused b) = λ rest h k. (h, k)
move_lease-TenantMoves caps u s released = λ rest h k. (h, k)

move_lease-GlobalMoves : (caps s : Slots) (l : Lease) → GlobalMoves caps s l (move_lease caps l s)
unfolding move_lease take_tenant take_global
move_lease-GlobalMoves caps s (fresh t) =
    if-split (GlobalMoves caps s (fresh t)) (ltb (s.tenant t) (caps.tenant t)) _ _
      (λ room rest h k. (h, k)) (λ full rest h k. (h, k))
move_lease-GlobalMoves caps s (tenant_taken t) =
    if-split (GlobalMoves caps s (tenant_taken t)) (ltb s.global caps.global) _ _
      (λ room rest h k. (omega arith, ground arith)) (λ full rest h k. (h, k))
move_lease-GlobalMoves caps s (global_full t) = λ rest h k. (h, k)
move_lease-GlobalMoves caps s (held t) = λ rest h k. (omega arith, omega arith)
move_lease-GlobalMoves caps s (global_returned t) = λ rest h k. (h, k)
move_lease-GlobalMoves caps s (refused b) = λ rest h k. (h, k)
move_lease-GlobalMoves caps s released = λ rest h k. (h, k)

-- Each channel holds exactly the leases' tokens, within its capacity.
abbrev pub Balanced : Slots → Slots → List Lease → Type 0
Balanced caps s ls =
    ((u : ℕ) → (s.tenant u ≡ total (tenant_tokens u) ls) × (s.tenant u ≤ caps.tenant u))
    × (s.global ≡ total global_tokens ls)
    × (s.global ≤ caps.global)

move_lease-Balanced :
    (caps s : Slots) (before : List Lease) (l : Lease) (ls : List Lease)
    → Balanced caps s (before ++ (l ∷ ls))
    → Balanced caps (move_lease caps l s).0 (before ++ ((move_lease caps l s).1 ∷ ls))
move_lease-Balanced caps s before l ls (tenants, all, most) =
    let l' = (move_lease caps l s).1 in
    let (x, y) =
      move_lease-GlobalMoves caps s l (total global_tokens before + total global_tokens ls)
        (omega (arith, total-append global_tokens before l ls)) most in
    (
      λ u.
          let (exact, low) = tenants u in
          let (a, b) =
            move_lease-TenantMoves caps u s l
              (total (tenant_tokens u) before + total (tenant_tokens u) ls)
              (omega (arith, total-append (tenant_tokens u) before l ls)) low in
          (omega (arith, total-append (tenant_tokens u) before l' ls), b),
      omega (arith, total-append global_tokens before l' ls),
      y,
    )

-- Whatever requests come and in whatever order their leases make their steps, each channel holds
-- exactly the tokens of the leases that have not given theirs back, and no more than its capacity.
pub Reach-Balanced : (caps s : Slots) (ls : List Lease) → Reach caps s ls → Balanced caps s ls
Reach-Balanced caps _ _ idle = (λ u. (refl, omega arith), refl, omega arith)
Reach-Balanced caps _ _ (arrive s ls t r) =
    let (tenants, all, most) = Reach-Balanced caps s ls r in
    (λ u. let (exact, low) = tenants u in (omega arith, low), omega arith, most)
Reach-Balanced caps _ _ (step s before l ls r) =
    move_lease-Balanced caps s before l ls (Reach-Balanced caps s (before ++ (l ∷ ls)) r)
