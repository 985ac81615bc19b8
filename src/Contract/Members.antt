-- ===== src/Contract/Members.antt =====
-- internal/contract: what scans of a body come to, and the end of the check on an object's field `object`.
use ssemaphore.Prelude.{
  ℕ, not, ◌≡◌, refl, zero, suc, ◌+◌, ◌*◌, ◌<◌, Bool, true, false, Option, none, some, List, arith,
}
use ssemaphore.Contract.Course.{
  Step, ok, fail, pure, refuse, Comes, Comes-bind, Comes-if, Comes-mono, Comes-relabel,
}
use ssemaphore.Contract.Decoding.{
  JsonDecoder, Consumes, Scan, token, more, close, as_text, bytes_eq, is_delim,
}
use ssemaphore.Contract.Json.{max_json_depth, scan_value}
use ssemaphore.Contract.Ending.{
  Less, NoMore, token-Less, more-NoMore, as_text-NoMore, close-Less, scan_value-Less,
}
use ssemaphore.Contract.Verdict.{verdict}
use ssemaphore.Contract.Objects.{
  scanned, ObjectReasons, object_key, read_string, count_reads, object_value, skip_value,
  object_fields, validate_object,
}

pub count_reads-Comes :
    {S E A : Type 0} (P : A → Type 0) (o : Option (Step E A × Scan S))
    → Comes o (λ a s. P a)
    → Comes (count_reads o) (λ a n. P a)
count_reads-Comes P none h = h
count_reads-Comes P (some (ok a, s)) h = h
count_reads-Comes P (some (fail e, s)) h = tt

pub not-false : (b : Bool) → not b ≡ false → b ≡ true
not-false true h = refl
not-false false h = absurd (cc h)

-- Of the value of a scan.
abbrev pub StepAll : {E A : Type 0} → (A → Type 0) → Step E A → Type 0
StepAll P (ok a) = P a
StepAll P (fail r) = Unit {0}

pub scanned-Comes :
    {S E A : Type 0} (F : Type 0) (P : A → Type 0) (o : Option (Step E A × Scan S))
    → Comes o (λ a s. P a)
    → Comes (scanned {F = F} o) (λ r n. StepAll P r)
scanned-Comes F P none h = h
scanned-Comes F P (some (ok a, s)) h = h
scanned-Comes F P (some (fail e, s)) h = tt

-- What follows from the scan's acceptance holds where it gives a value.
pub scanned-verdict :
    {S E A : Type 0} (F Q : Type 0) (o : Option (Step E A × Scan S))
    → (verdict o ≡ some none → Q)
    → Comes o (λ a s. Unit {0})
    → Comes (scanned {F = F} o) (λ r n. StepAll (λ a. Q) r)
scanned-verdict F Q none h k = k
scanned-verdict F Q (some (ok a, s)) h k = h refl
scanned-verdict F Q (some (fail e, s)) h k = tt

module _ {S : Type 0} (j : JsonDecoder S) (size : S → ℕ) (law : Consumes j size)
    (ctx : ℕ → Bool) where
  pub read_string-Less :
      {E : Type 0} (malformed wrong : E) (s : Scan S)
      → Comes (read_string j ctx malformed wrong s) (Less j size law ctx s)
  read_string-Less malformed wrong s =
      Comes-bind (token j ctx malformed s) _ (Less j size law ctx s) _
        (token-Less j size law ctx malformed s)
        (λ t s₁ h.
          Comes-mono (as_text wrong t s₁) (NoMore j size law ctx s₁) _
            (as_text-NoMore j size law ctx wrong t s₁) (λ k s₂ h₂. omega arith))

  module _ {E : Type 0} (e : ObjectReasons E) (expected : List ℕ) where
    object_value-NoMore :
        (s : Scan S) → Comes (object_value j ctx e expected s) (NoMore j size law ctx s)
    object_value-NoMore s =
        Comes-bind (read_string j ctx e.malformed e.wrong_type s) _ (Less j size law ctx s) _
          (read_string-Less e.malformed e.wrong_type s)
          (λ v s₁ h.
            Comes-if (bytes_eq v expected) (pure tt) (refuse e.unsupported) s₁ _ (λ _. omega arith)
              (λ _. tt))

    skip_value-NoMore :
        (f : ℕ) (s : Scan S)
        → 2 * size s.decoder < f
        → Comes (skip_value j ctx e expected f s) (NoMore j size law ctx s)
    skip_value-NoMore f s h = Comes-relabel e.from_json (scan_value j ctx max_json_depth f 2 s) _ (
        Comes-mono (scan_value j ctx max_json_depth f 2 s) (Less j size law ctx s) _
          (scan_value-Less j size law ctx max_json_depth f 2 s h) (λ u s₁ k. omega arith))

    object_fields-Comes :
        (f : ℕ) (object_set : Bool) (s : Scan S)
        → 2 * size s.decoder + 1 < f
        → Comes (object_fields j ctx e expected f object_set s) (λ b s. Unit {0})
    unfolding object_fields
    object_fields-Comes zero object_set s h = absurd (omega arith)
    object_fields-Comes (suc f) object_set s h =
        Comes-bind (more j ctx s) _ (NoMore j size law ctx s) _ (more-NoMore j size law ctx E s)
          (λ m s₁ h₁.
            Comes-if m _ _ s₁ _
              (λ _.
                Comes-bind (token j ctx e.malformed s₁) _ (Less j size law ctx s₁) _
                  (token-Less j size law ctx e.malformed s₁)
                  (λ t s₂ h₂.
                    Comes-bind (as_text e.malformed t s₂) _ (NoMore j size law ctx s₂) _
                      (as_text-NoMore j size law ctx e.malformed t s₂)
                      (λ k s₃ h₃.
                        Comes-if (bytes_eq k object_key) _ _ s₃ _
                          (λ _.
                            Comes-bind (object_value j ctx e expected s₃) _
                              (NoMore j size law ctx s₃) _ (object_value-NoMore s₃)
                              (λ u s₄ h₄. object_fields-Comes f true s₄ (omega arith)))
                          (λ _.
                            Comes-bind (skip_value j ctx e expected f s₃) _
                              (NoMore j size law ctx s₃) _ (skip_value-NoMore f s₃ (omega arith))
                              (λ u s₄ h₄. object_fields-Comes f object_set s₄ (omega arith))))))
              (λ _.
                Comes-bind (close j ctx e.malformed b'}' s₁) _ (Less j size law ctx s₁) _
                  (close-Less j size law ctx e.malformed b'}' s₁) (λ u s₂ h₂. tt)))

    pub validate_object-Comes :
        (f : ℕ) (s : Scan S)
        → 2 * size s.decoder < f
        → Comes (validate_object j ctx e expected f s) (λ u s. Unit {0})
    unfolding validate_object
    validate_object-Comes f s h =
        Comes-bind (token j ctx e.malformed s) _ (Less j size law ctx s) _
          (token-Less j size law ctx e.malformed s)
          (λ t s₁ h₁.
            Comes-if (is_delim b'{' t) _ (refuse e.not_object) s₁ _
              (λ _.
                Comes-bind (object_fields j ctx e expected f false s₁) _ (λ b s. Unit {0}) _
                  (object_fields-Comes f false s₁ (omega arith))
                  (λ b s₂ _. Comes-if b (pure tt) (refuse e.missing) s₂ _ (λ _. tt) (λ _. tt)))
              (λ _. tt))
