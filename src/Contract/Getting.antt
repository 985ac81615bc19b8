-- ===== src/Contract/Getting.antt =====
-- internal/contract: the equality of texts, and what holds of the value of a scan, where it gives one.
use ssemaphore.Prelude.{
  ℕ, ◌≡◌, ◌≢◌, refl, ap, Bool, true, false, Option, none, some, List, [], ◌∷◌, arith, if◌then◌else◌,
}
use ssemaphore.Contract.Reason.{Reason}
use ssemaphore.Contract.Course.{Course, Step, ok, fail, after, relabel}
use ssemaphore.Contract.Decoding.{Scan, bytes_eq}
use ssemaphore.Contract.Scanning.{Meets}
use ssemaphore.Contract.Verdict.{verdict}

pub bytes_eq-true : (xs ys : List ℕ) → bytes_eq xs ys ≡ true → xs ≡ ys
unfolding bytes_eq
bytes_eq-true [] [] h = refl
bytes_eq-true [] (y ∷ ys) h = absurd (ground arith)
bytes_eq-true (x ∷ xs) [] h = absurd (ground arith)
bytes_eq-true (x ∷ xs) (y ∷ ys) h =
    let tail : xs ≡ ys = bytes_eq-true xs ys (ground arith) in let head : x ≡ y = ground arith in cc

bytes_eq_refl : (xs : List ℕ) → bytes_eq xs xs ≡ true
unfolding bytes_eq
bytes_eq_refl [] = refl
bytes_eq_refl (x ∷ xs) = ground (arith, bytes_eq_refl xs)

pub bytes_eq-false : (xs ys : List ℕ) → bytes_eq xs ys ≡ false → xs ≢ ys
bytes_eq-false xs ys h e = absurd (cc (bytes_eq_refl ys, h, ap (λ l. bytes_eq l ys) e))

-- `P` holds of the value with the state after it, where there is one.
abbrev pub Gets : {S E A : Type 0} → Option (Step E A × Scan S) → (A → Scan S → Type 0) → Type 0
Gets none P = Unit {0}
Gets (some (ok a, s)) P = P a s
Gets (some (fail e, s)) P = Unit {0}

pub Gets-bind :
    {S E A B : Type 0} (m : Option (Step E A × Scan S)) (f : A → Course E (Scan S) B)
    (P : A → Scan S → Type 0) (Q : B → Scan S → Type 0)
    → Gets m P
    → ((a : A) (s : Scan S) → P a s → Gets (f a s) Q)
    → Gets (elim m [ none ↦ none | some (r, s) ↦ after f r s ]) Q
Gets-bind none f P Q h k = tt
Gets-bind (some (ok a, s)) f P Q h k = k a s h
Gets-bind (some (fail e, s)) f P Q h k = tt

pub Gets-if :
    {S E A : Type 0} (b : Bool) (x y : Course E (Scan S) A) (s : Scan S) (P : A → Scan S → Type 0)
    → (b ≡ true → Gets (x s) P)
    → (b ≡ false → Gets (y s) P)
    → Gets ((if b then x else y) s) P
Gets-if true x y s P h k = h refl
Gets-if false x y s P h k = k refl

pub Gets-mono :
    {S E A : Type 0} (m : Option (Step E A × Scan S)) (P Q : A → Scan S → Type 0)
    → Gets m P
    → ((a : A) (s : Scan S) → P a s → Q a s)
    → Gets m Q
Gets-mono none P Q h k = tt
Gets-mono (some (ok a, s)) P Q h k = k a s h
Gets-mono (some (fail e, s)) P Q h k = tt

pub Meets-Gets :
    {S E A : Type 0} (f : Reason → E) (m : Option (Step Reason A × Scan S))
    (P : A → Scan S → Type 0) (D : Reason → Type 0)
    → Meets m P D
    → Gets (relabel f m) P
Meets-Gets f none P D h = tt
Meets-Gets f (some (ok a, s)) P D h = h
Meets-Gets f (some (fail e, s)) P D h = tt

pub Gets-verdict :
    {S E A : Type 0} (Q : Type 0) (m : Option (Step E A × Scan S))
    → verdict m ≡ some none
    → Gets m (λ a s. Q)
    → Q
Gets-verdict Q none h k = absurd (cc h)
Gets-verdict Q (some (ok a, s)) h k = k
Gets-verdict Q (some (fail e, s)) h k = absurd (ground arith)
