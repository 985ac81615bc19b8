-- ===== src/Contract/Ending.antt =====
-- internal/contract/jsonscan.go: the scan within its fuel, whatever the decoder and the context give.
use ssemaphore.Prelude.{
  ℕ, zero, suc, ◌+◌, ◌*◌, ◌≤◌, ◌<◌, ◌≡◌, refl, Bool, Option, none, some, List, [], ◌∷◌, arith, ◌==◌,
  ltb, length, inl, inr, Bool-cases,
}
use ssemaphore.Contract.Reason.{Reason, malformed_json, duplicate_key, nesting_limit}
use ssemaphore.Contract.Decoding.{
  JsonToken, delim, text, number, flag, null, JsonDecoder, Consumes, Scan, M, has_key, as_text,
  token, more, close, raw_token, settle_token, is_delim,
}
use ssemaphore.Contract.Course.{pure, refuse, or_fail, Comes, Comes-bind, Comes-if, Comes-mono}
use ssemaphore.Contract.Json.{
  scan_rest, scan_value, scan_fields, scan_items, Tail, eof, error, another, end_document, end_scan,
  tail_of, validate_json_document,
}

module _ {S : Type 0} (j : JsonDecoder S) (size : S → ℕ) (law : Consumes j size)
    (ctx : ℕ → Bool) where
  -- A value takes some of what is left.
  abbrev pub Less : {A : Type 0} → Scan S → A → Scan S → Type 0
  Less s a s' = size s'.decoder < size s.decoder

  abbrev pub NoMore : {A : Type 0} → Scan S → A → Scan S → Type 0
  NoMore s a s' = size s'.decoder ≤ size s.decoder

  settled :
      {E : Type 0} (e : E) (n : ℕ) (s : Scan S) (o : Option JsonToken) (d : S)
      → ((t : JsonToken) → o ≡ some t → size d < size s.decoder)
      → Comes (or_fail e (settle_token j ctx n o d).0 (settle_token j ctx n o d).1) (Less s)
  unfolding settle_token
  settled e n s none d h = tt
  settled e n s (some t) d h = elim (Bool-cases (ctx n)) [
    | inl gone ↦ rw gone tt
    | inr live ↦ rw live (h t refl)
  ]

  pub token-Less : {E : Type 0} (e : E) (s : Scan S) → Comes (token j ctx e s) (Less s)
  unfolding token
  token-Less e s = elim (Bool-cases (ctx s.reads)) [
    | inl gone ↦ rw gone tt
    | inr live ↦ rw live (
        settled e (s.reads + 1) s (j.token s.decoder).0 (j.token s.decoder).1
          (λ t h. law.token_lt s.decoder t h))
  ]

  pub more-NoMore : (E : Type 0) (s : Scan S) → Comes {E = E} (more j ctx s) (NoMore s)
  unfolding more
  more-NoMore E s = omega arith

  pub as_text-NoMore :
      {E : Type 0} (e : E) (t : JsonToken) (s : Scan S) → Comes (as_text e t s) (NoMore s)
  as_text-NoMore e (text k) s = omega arith
  as_text-NoMore e (delim c) s = tt
  as_text-NoMore e (number n) s = tt
  as_text-NoMore e (flag b) s = tt
  as_text-NoMore e null s = tt

  pub close-Less : {E : Type 0} (e : E) (c : ℕ) (s : Scan S) → Comes (close j ctx e c s) (Less s)
  unfolding close
  close-Less e c s =
      Comes-bind (token j ctx e s) _ (Less s) (Less s) (token-Less e s)
        (λ t s' h. Comes-if (is_delim c t) (pure tt) (refuse e) s' (Less s) (λ _. h) (λ _. tt))

  scan_rest-Less :
      (t : JsonToken) (fields items : M S (Unit {0})) (s s₀ : Scan S)
      → size s.decoder < size s₀.decoder
      → Comes (fields s) (NoMore s)
      → Comes (items s) (NoMore s)
      → Comes (scan_rest t fields items s) (Less s₀)
  scan_rest-Less (delim c) fields items s s₀ h x y =
      Comes-if (c == b'{') fields _ s (Less s₀)
        (λ _. Comes-mono (fields s) (NoMore s) (Less s₀) x (λ u s' k. omega arith))
        (λ _.
          Comes-if (c == b'[') items (refuse malformed_json) s (Less s₀)
            (λ _. Comes-mono (items s) (NoMore s) (Less s₀) y (λ u s' k. omega arith)) (λ _. tt))
  scan_rest-Less (text t) fields items s s₀ h x y = h
  scan_rest-Less (number t) fields items s s₀ h x y = h
  scan_rest-Less (flag t) fields items s s₀ h x y = h
  scan_rest-Less null fields items s s₀ h x y = h

  module _ (maximum : ℕ) where
    mutual
      unfolding scan_value

      value-Less :
          (f depth : ℕ) (s : Scan S)
          → 2 * size s.decoder < f
          → Comes (scan_value j ctx maximum f depth s) (Less s)
      value-Less zero depth s h = absurd (omega arith)
      value-Less (suc f) depth s h =
          Comes-if (ltb maximum depth) (refuse nesting_limit) _ s (Less s) (λ _. tt)
            (λ _.
              Comes-bind (token j ctx malformed_json s) _ (Less s) (Less s)
                (token-Less malformed_json s)
                (λ t s' k.
                  scan_rest-Less t _ _ s' s k (fields-NoMore f depth [] s' (omega arith))
                    (items-NoMore f depth s' (omega arith))))

      fields-NoMore :
          (f depth : ℕ) (keys : List (List ℕ)) (s : Scan S)
          → 2 * size s.decoder + 1 < f
          → Comes (scan_fields j ctx maximum f depth keys s) (NoMore s)
      fields-NoMore zero depth keys s h = absurd (omega arith)
      fields-NoMore (suc f) depth keys s h =
          Comes-bind (more j ctx s) _ (NoMore s) (NoMore s) (more-NoMore Reason s) (λ m s₁ h₁.
            Comes-if m _ (close j ctx malformed_json b'}') s₁ (NoMore s)
              (λ _.
                Comes-bind (token j ctx malformed_json s₁) _ (Less s₁) (NoMore s)
                  (token-Less malformed_json s₁)
                  (λ t s₂ h₂.
                    Comes-bind (as_text malformed_json t s₂) _ (NoMore s₂) (NoMore s)
                      (as_text-NoMore malformed_json t s₂)
                      (λ k s₃ h₃.
                        Comes-if (has_key k keys) (refuse duplicate_key) _ s₃ (NoMore s) (λ _. tt)
                          (λ _.
                            Comes-bind (scan_value j ctx maximum f (depth + 1) s₃) _ (Less s₃)
                              (NoMore s) (value-Less f (depth + 1) s₃ (omega arith))
                              (λ u s₄ h₄.
                                Comes-mono (scan_fields j ctx maximum f depth (k ∷ keys) s₄)
                                  (NoMore s₄) (NoMore s)
                                  (fields-NoMore f depth (k ∷ keys) s₄ (omega arith))
                                  (λ u s₅ h₅. omega arith))))))
              (λ _.
                Comes-mono (close j ctx malformed_json b'}' s₁) (Less s₁) (NoMore s)
                  (close-Less malformed_json b'}' s₁) (λ u s₂ h₂. omega arith)))

      items-NoMore :
          (f depth : ℕ) (s : Scan S)
          → 2 * size s.decoder + 1 < f
          → Comes (scan_items j ctx maximum f depth s) (NoMore s)
      items-NoMore zero depth s h = absurd (omega arith)
      items-NoMore (suc f) depth s h =
          Comes-bind (more j ctx s) _ (NoMore s) (NoMore s) (more-NoMore Reason s) (λ m s₁ h₁.
            Comes-if m _ (close j ctx malformed_json b']') s₁ (NoMore s)
              (λ _.
                Comes-bind (scan_value j ctx maximum f (depth + 1) s₁) _ (Less s₁) (NoMore s)
                  (value-Less f (depth + 1) s₁ (omega arith))
                  (λ u s₂ h₂.
                    Comes-mono (scan_items j ctx maximum f depth s₂) (NoMore s₂) (NoMore s)
                      (items-NoMore f depth s₂ (omega arith)) (λ u s₃ h₃. omega arith)))
              (λ _.
                Comes-mono (close j ctx malformed_json b']' s₁) (Less s₁) (NoMore s)
                  (close-Less malformed_json b']' s₁) (λ u s₂ h₂. omega arith)))

    pub scan_value-Less :
        (f depth : ℕ) (s : Scan S)
        → 2 * size s.decoder < f
        → Comes (scan_value j ctx maximum f depth s) (Less s)
    scan_value-Less f depth s h = value-Less f depth s h

  -- The scan of a document ends within its fuel, whatever the context says and whatever tokens the
  -- decoder gives, if each token takes some of what is left and no more than the body is left at the
  -- start.
  pub validate_json_document_total :
      (maximum : ℕ) (body : List ℕ) (reads : ℕ)
      → Comes (validate_json_document j ctx maximum body reads) (λ u s. Unit {0})
  unfolding validate_json_document end_scan
  validate_json_document_total maximum body reads =
      let first : Scan S = record { decoder = j.start body; reads = reads } in
      Comes-bind (scan_value j ctx maximum (suc (2 * length body)) 1 first) _ (Less first)
        (λ u s. Unit {0})
        (scan_value-Less maximum (suc (2 * length body)) 1 first (omega (arith, law.start_le body)))
        (λ u s h. ends (tail_of j ctx s) (raw_token j ctx s).1)
    where
      ends : (t : Tail) (s : Scan S) → Comes (end_document t s) (λ u s. Unit {0})
      ends eof s = tt
      ends (another t) s = tt
      ends error s = tt
