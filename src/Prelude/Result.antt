-- ===== src/Prelude/Result.antt =====
-- A value or an error: Go's pair of a result and an `error`.
use mathlib.Core.Bool.{Bool, true, false}
use mathlib.Core.Path.{◌≡◌, refl}

pub data Result {ℓ} (E A : Type ℓ) : Type ℓ where
  ok : A → Result E A
  err : E → Result E A

infixl 5 ◌>>=◌
abbrev pub ◌>>=◌ {ℓ} : {E A B : Type ℓ} → Result E A → (A → Result E B) → Result E B
err e >>= rest = err e
ok x >>= rest = rest x

-- if failed { return e }, and the rest.
unfoldable pub unless {ℓ} : {E A : Type ℓ} → Bool → E → Result E A → Result E A
unless true e rest = err e
unless false e rest = rest

-- A chain that succeeds has a first step that does.
pub >>=-eq-ok {ℓ} :
    {E A B : Type ℓ} {last : B} (first : Result E A) (rest : A → Result E B)
    → (first >>= rest) ≡ ok last
    → (x : A) × (first ≡ ok x) × (rest x ≡ ok last)
>>=-eq-ok (err e) rest done = cc
>>=-eq-ok (ok x) rest done = (x, refl, done)

-- A chain of tests that succeeds passes its first.
pub unless-eq-ok {ℓ} :
    {E A : Type ℓ} (failed : Bool) (e : E) (rest : Result E A) {last : A}
    → unless failed e rest ≡ ok last
    → (failed ≡ false) × (rest ≡ ok last)
unfolding unless
unless-eq-ok true e rest done = cc
unless-eq-ok false e rest done = (refl, done)

pub unless-pass {ℓ} :
    {E A : Type ℓ} {failed : Bool} (e : E) (rest : Result E A)
    → failed ≡ false
    → unless failed e rest ≡ rest
unfolding unless
unless-pass e rest h = rw h refl
