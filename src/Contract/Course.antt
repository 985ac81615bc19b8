-- ===== src/Contract/Course.antt =====
-- Fallible code of internal/contract over a state: steps that come to a value or an error, and the two
-- kinds of postcondition that proofs about them use.
use ssemaphore.Prelude.{◌≡◌, refl, Bool, true, false, Option, none, some, if◌then◌else◌}

-- A step comes to a value or an error.
pub data Step (E A : Type 0) : Type 0 where
  ok : A → Step E A
  fail : E → Step E A

-- `none` is fuel that ran out, or a panic.
abbrev pub Course : Type 0 → Type 0 → Type 0 → Type 0
Course E T A = T → Option (Step E A × T)

abbrev pub after : {E T A B : Type 0} → (A → Course E T B) → Step E A → Course E T B
after f (ok a) s = f a s
after f (fail e) s = some (fail e, s)

infixl 5 ◌>>=◌
abbrev pub ◌>>=◌ : {E T A B : Type 0} → Course E T A → (A → Course E T B) → Course E T B
◌>>=◌ m f s = elim (m s) [ none ↦ none | some (r, s') ↦ after f r s' ]

abbrev pub pure : {E T A : Type 0} → A → Course E T A
pure a s = some (ok a, s)

abbrev pub refuse : {E T A : Type 0} → E → Course E T A
refuse e s = some (fail e, s)

-- One step whose outcome is `o`.
abbrev pub or_fail : {E T A : Type 0} → E → Option A → Course E T A
or_fail e none s = some (fail e, s)
or_fail e (some a) s = some (ok a, s)

-- The same outcome with an error of another kind.
abbrev pub relabel : {D E T A : Type 0} → (D → E) → Option (Step D A × T) → Option (Step E A × T)
relabel f none = none
relabel f (some (ok a, s)) = some (ok a, s)
relabel f (some (fail e, s)) = some (fail (f e), s)

-- The outcome exists, `P` holds of a value with the state after it, and `D` of an error.
abbrev pub Holds :
    {E T A : Type 0} → Option (Step E A × T) → (A → T → Type 0) → (E → T → Type 0) → Type 0
Holds none P D = ⊥
Holds (some (ok a, s)) P D = P a s
Holds (some (fail e, s)) P D = D e s

pub Holds-bind :
    {E T A B : Type 0} (m : Option (Step E A × T)) (f : A → Course E T B) (P : A → T → Type 0)
    (Q : B → T → Type 0) (C D : E → T → Type 0)
    → Holds m P C
    → ((e : E) (s : T) → C e s → D e s)
    → ((a : A) (s : T) → P a s → Holds (f a s) Q D)
    → Holds (elim m [ none ↦ none | some (r, s) ↦ after f r s ]) Q D
Holds-bind none f P Q C D h l k = h
Holds-bind (some (ok a, s)) f P Q C D h l k = k a s h
Holds-bind (some (fail e, s)) f P Q C D h l k = l e s h

pub Holds-if :
    {E T A : Type 0} (b : Bool) (x y : Course E T A) (s : T) (P : A → T → Type 0)
    (D : E → T → Type 0)
    → (b ≡ true → Holds (x s) P D)
    → (b ≡ false → Holds (y s) P D)
    → Holds ((if b then x else y) s) P D
Holds-if true x y s P D h k = h refl
Holds-if false x y s P D h k = k refl

-- As `Holds-if`, where the test stands on outcomes.
pub Holds-test :
    {E T A : Type 0} (b : Bool) (x y : Option (Step E A × T)) (P : A → T → Type 0)
    (D : E → T → Type 0)
    → (b ≡ true → Holds x P D)
    → (b ≡ false → Holds y P D)
    → Holds (if b then x else y) P D
Holds-test true x y P D h k = h refl
Holds-test false x y P D h k = k refl

pub Holds-mono :
    {E T A : Type 0} (m : Option (Step E A × T)) (P Q : A → T → Type 0) (C D : E → T → Type 0)
    → Holds m P C
    → ((a : A) (s : T) → P a s → Q a s)
    → ((e : E) (s : T) → C e s → D e s)
    → Holds m Q D
Holds-mono none P Q C D h k l = h
Holds-mono (some (ok a, s)) P Q C D h k l = k a s h
Holds-mono (some (fail e, s)) P Q C D h k l = l e s h

-- As `Holds`, with nothing said of an error.
abbrev pub Comes : {E T A : Type 0} → Option (Step E A × T) → (A → T → Type 0) → Type 0
Comes m P = Holds m P (λ e s. Unit {0})

pub Comes-bind :
    {E T A B : Type 0} (m : Option (Step E A × T)) (f : A → Course E T B) (P : A → T → Type 0)
    (Q : B → T → Type 0)
    → Comes m P
    → ((a : A) (s : T) → P a s → Comes (f a s) Q)
    → Comes (elim m [ none ↦ none | some (r, s) ↦ after f r s ]) Q
Comes-bind m f P Q h k = Holds-bind m f P Q _ _ h (λ e s l. l) k

pub Comes-if :
    {E T A : Type 0} (b : Bool) (x y : Course E T A) (s : T) (P : A → T → Type 0)
    → (b ≡ true → Comes (x s) P)
    → (b ≡ false → Comes (y s) P)
    → Comes ((if b then x else y) s) P
Comes-if b x y s P h k = Holds-if b x y s P _ h k

pub Comes-mono :
    {E T A : Type 0} (m : Option (Step E A × T)) (P Q : A → T → Type 0)
    → Comes m P
    → ((a : A) (s : T) → P a s → Q a s)
    → Comes m Q
Comes-mono m P Q h k = Holds-mono m P Q _ _ h k (λ e s l. l)

pub Holds-relabel :
    {C E T A : Type 0} (f : C → E) (m : Option (Step C A × T)) (P : A → T → Type 0)
    (B : C → T → Type 0) (D : E → T → Type 0)
    → Holds m P B
    → ((e : C) (s : T) → B e s → D (f e) s)
    → Holds (relabel f m) P D
Holds-relabel f none P B D h l = h
Holds-relabel f (some (ok a, s)) P B D h l = h
Holds-relabel f (some (fail e, s)) P B D h l = l e s h

pub Comes-relabel :
    {C E T A : Type 0} (f : C → E) (m : Option (Step C A × T)) (P : A → T → Type 0)
    → Comes m P
    → Comes (relabel f m) P
Comes-relabel f m P h = Holds-relabel f m P _ _ h (λ e s l. l)
