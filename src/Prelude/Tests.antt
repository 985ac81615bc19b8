-- ===== src/Prelude/Tests.antt =====
-- Boolean tests on the native numbers, the conditional, and chains of `Option`.
use Prim.Native.Nat.{ℕ, ◌%◌, compare, Ordering}
use mathlib.Core.Path.{◌≡◌, refl}
use mathlib.Core.Logic.{◌⊎◌, inl, inr}
use mathlib.Core.Bool.{Bool, true, false}
use mathlib.Core.Option.{Option, none, some}

abbrev pub ltb : ℕ → ℕ → Bool
ltb a b = elim (compare a b) [ Ordering.lt ↦ true | _ ↦ false ]

abbrev pub leb : ℕ → ℕ → Bool
leb a b = elim (compare a b) [ Ordering.gt ↦ false | _ ↦ true ]

infix 50 ◌==◌
abbrev pub ◌==◌ : ℕ → ℕ → Bool
a == b = elim (compare a b) [ Ordering.eq ↦ true | _ ↦ false ]

infix 1 if◌then◌else◌
abbrev pub if◌then◌else◌ {ℓ} : {A : Type ℓ} → Bool → A → A → A
if true then x else y = x
if false then x else y = y

-- To split on a computed value and keep the equation.
pub Bool-cases : (b : Bool) → (b ≡ true) ⊎ (b ≡ false)
Bool-cases true = inl refl
Bool-cases false = inr refl

pub Option-cases {ℓ} : {A : Type ℓ} (o : Option A) → (o ≡ none) ⊎ ((a : A) × (o ≡ some a))
Option-cases none = inl refl
Option-cases (some a) = inr (a, refl)

infixl 5 ◌>>=◌
abbrev pub ◌>>=◌ {ℓ κ} : {A : Type ℓ} {B : Type κ} → Option A → (A → Option B) → Option B
none >>= f = none
some a >>= f = f a

-- The outcome exists and satisfies `P`: no panic, and enough fuel.
abbrev pub Ensures {ℓ} : {A : Type ℓ} → Option A → (A → Type 0) → Type 0
Ensures none P = ⊥
Ensures (some a) P = P a

-- The modulus of a uint64.
abbrev pub u64_mod : ℕ
u64_mod = 18446744073709551616

abbrev pub u64 : ℕ → ℕ
u64 n = n % u64_mod

pub Ensures-some {ℓ} :
    {A : Type ℓ} (m : Option A) (P : A → Type 0) → Ensures m P → (a : A) × (m ≡ some a) × P a
Ensures-some none P h = absurd h
Ensures-some (some a) P h = (a, refl, h)

pub Ensures-bind {ℓ κ} :
    {A : Type ℓ} {B : Type κ} (m : Option A) (f : A → Option B) (P : A → Type 0) (Q : B → Type 0)
    → Ensures m P
    → ((a : A) → P a → Ensures (f a) Q)
    → Ensures (m >>= f) Q
Ensures-bind none f P Q h k = absurd h
Ensures-bind (some a) f P Q h k = k a h

pub Ensures-mono {ℓ} :
    {A : Type ℓ} (m : Option A) (P Q : A → Type 0)
    → Ensures m P
    → ((a : A) → P a → Q a)
    → Ensures m Q
Ensures-mono none P Q h k = absurd h
Ensures-mono (some a) P Q h k = k a h

-- A branch at a time, each with the outcome of the test.
pub Ensures-if {ℓ} :
    {A : Type ℓ} (b : Bool) (x y : Option A) (P : A → Type 0)
    → (b ≡ true → Ensures x P)
    → (b ≡ false → Ensures y P)
    → Ensures (if b then x else y) P
Ensures-if true x y P h k = h refl
Ensures-if false x y P h k = k refl

pub Ensures-option {ℓ κ} :
    {A : Type ℓ} {B : Type κ} (o : Option A) (x : Option B) (f : A → Option B) (P : B → Type 0)
    → (o ≡ none → Ensures x P)
    → ((a : A) → o ≡ some a → Ensures (f a) P)
    → Ensures (elim o [ none ↦ x | some a ↦ f a ]) P
Ensures-option none x f P h k = h refl
Ensures-option (some a) x f P h k = k a refl

-- As `Ensures-if`, of a value of any kind.
pub if-split {ℓ} :
    {A : Type ℓ} (P : A → Type 0) (b : Bool) (x y : A)
    → (b ≡ true → P x)
    → (b ≡ false → P y)
    → P (if b then x else y)
if-split P true x y h k = h refl
if-split P false x y h k = k refl
