-- ===== src/Contract/Completing.antt =====
-- internal/contract: what the check on an object's field `object` (response.go, sse.go) finds on the tokens
-- of a document, while the context gives no error.
use ssemaphore.Prelude.{
  ℕ, ◌+◌, zero, suc, ◌≡◌, ◌≢◌, ◌⊎◌, inl, inr, refl, ap, ◌∙◌, Bool, true, false, List, ◌∷◌, arith,
  Bool-cases,
}
use ssemaphore.Contract.Course.{pure, refuse}
use ssemaphore.Contract.Decoding.{
  JsonToken, delim, JsonDecoder, Scan, token, more, close, raw_token, settle_token, as_text,
  bytes_eq, is_delim,
}
use ssemaphore.Contract.Documents.{
  Value, Fields, text, number, flag, null, array, object, end, field, tokens, field_tokens, Gives,
}
use ssemaphore.Contract.Json.{max_json_depth, scan_value}
use ssemaphore.Contract.Scanning.{scan-value}
use ssemaphore.Contract.Getting.{
  Gets, Gets-bind, Gets-if, Gets-mono, Meets-Gets, bytes_eq-true, bytes_eq-false,
}
use ssemaphore.Contract.Objects.{
  ObjectReasons, object_key, read_string, object_value, skip_value, object_fields, validate_object,
}

-- Every field under the key `object` is the expected text.
abbrev pub EachNamed : List ℕ → Fields → Type 0
EachNamed expected end = Unit {0}
EachNamed expected (field k v fs) = ((k ≢ object_key) ⊎ (v ≡ text expected)) × EachNamed expected fs

-- Some field is the expected text under the key `object`.
abbrev pub SomeNamed : List ℕ → Fields → Type 0
SomeNamed expected end = ⊥
SomeNamed expected (field k v fs) = ((k ≡ object_key) × (v ≡ text expected)) ⊎ SomeNamed expected fs

-- A document that is an object with the expected text under the key `object`, and no other value there.
abbrev pub Named : List ℕ → Value → Type 0
Named expected v = (fs : Fields) × (v ≡ object fs) × EachNamed expected fs × SomeNamed expected fs

module _ {S E : Type 0} (j : JsonDecoder S) (ctx : ℕ → Bool) (calm : (n : ℕ) → ctx n ≡ false)
    (e : ObjectReasons E) (expected : List ℕ) where
  token-Gets :
      (r : E) (t : JsonToken) (ts : List JsonToken) (s : Scan S)
      → Gives j s.decoder (t ∷ ts)
      → Gets (token j ctx r s) (λ t' s'. (t' ≡ t) × Gives j s'.decoder ts)
  unfolding token raw_token settle_token
  token-Gets r t ts s (g, m, k) = rw (calm s.reads, g, calm (s.reads + 1)) (refl, k)

  more-Gets :
      (b : Bool) (ts : List JsonToken) (s : Scan S)
      → j.more s.decoder ≡ b
      → Gives j s.decoder ts
      → Gets {E = E} (more j ctx s) (λ m s'. (m ≡ b) × Gives j s'.decoder ts)
  unfolding more
  more-Gets b ts s h g = (rw (calm s.reads, h) refl, g)

  close-Gets :
      (c : ℕ) (ts : List JsonToken) (s : Scan S)
      → is_delim c (delim c) ≡ true
      → Gives j s.decoder (delim c ∷ ts)
      → Gets (close j ctx e.malformed c s) (λ u s'. Gives j s'.decoder ts)
  unfolding close
  close-Gets c ts s h g =
      Gets-bind (token j ctx e.malformed s) _ _ _ (token-Gets e.malformed (delim c) ts s g)
        (λ t s' (same, k). rw (same, h) k)

  as_text-Gets :
      (r : E) (t : JsonToken) (ts : List JsonToken) (s : Scan S)
      → Gives j s.decoder ts
      → Gets (as_text r t s) (λ k s'. (t ≡ JsonToken.text k) × Gives j s'.decoder ts)
  as_text-Gets r (JsonToken.text k) ts s g = (refl, g)
  as_text-Gets r (delim c) ts s g = tt
  as_text-Gets r (JsonToken.number n) ts s g = tt
  as_text-Gets r (JsonToken.flag b) ts s g = tt
  as_text-Gets r JsonToken.null ts s g = tt

  first_text :
      (t : JsonToken) (ts : List JsonToken) (s : Scan S)
      → Gives j s.decoder (t ∷ ts)
      → Gets
          (object_value j ctx e expected s)
          (λ u s'. (t ≡ JsonToken.text expected) × Gives j s'.decoder ts)
  first_text t ts s g =
      Gets-bind (read_string j ctx e.malformed e.wrong_type s) _
        (λ k s'. (t ≡ JsonToken.text k) × Gives j s'.decoder ts) _
        (Gets-bind (token j ctx e.malformed s) _ _ _ (token-Gets e.malformed t ts s g)
          (λ t' s' (same, w). rw same (as_text-Gets e.wrong_type t ts s' w)))
        (λ k s' (same, w).
          Gets-if (bytes_eq k expected) (pure tt) (refuse e.unsupported) s' _
            (λ h. (same ∙ ap JsonToken.text (bytes_eq-true k expected h), w)) (λ h. tt))

  object_value-Gets :
      (v : Value) (rest : List JsonToken) (s : Scan S)
      → Gives j s.decoder (tokens v rest)
      → Gets
          (object_value j ctx e expected s)
          (λ u s'. (v ≡ text expected) × Gives j s'.decoder rest)
  unfolding tokens
  object_value-Gets (text t) rest s g =
      Gets-mono (object_value j ctx e expected s) _ _ (first_text _ _ s g)
        (λ u s' (h, w). (ap text (ground (arith, h)), w))
  object_value-Gets (number n) rest s g =
      Gets-mono (object_value j ctx e expected s) _ _ (first_text _ _ s g)
        (λ u s' (h, w). absurd (ground (arith, h)))
  object_value-Gets (flag b) rest s g =
      Gets-mono (object_value j ctx e expected s) _ _ (first_text _ _ s g)
        (λ u s' (h, w). absurd (ground (arith, h)))
  object_value-Gets null rest s g =
      Gets-mono (object_value j ctx e expected s) _ _ (first_text _ _ s g)
        (λ u s' (h, w). absurd (ground (arith, h)))
  object_value-Gets (array xs) rest s g =
      Gets-mono (object_value j ctx e expected s) _ _ (first_text _ _ s g)
        (λ u s' (h, w). absurd (ground (arith, h)))
  object_value-Gets (object fs) rest s g =
      Gets-mono (object_value j ctx e expected s) _ _ (first_text _ _ s g)
        (λ u s' (h, w). absurd (ground (arith, h)))

  skip_value-Gets :
      (f : ℕ) (v : Value) (rest : List JsonToken) (s : Scan S)
      → Gives j s.decoder (tokens v rest)
      → Gets (skip_value j ctx e expected f s) (λ u s'. Gives j s'.decoder rest)
  skip_value-Gets f v rest s g =
      Gets-mono (skip_value j ctx e expected f s) _ _
        (Meets-Gets e.from_json (scan_value j ctx max_json_depth f 2 s) _ _
          (scan-value j ctx calm max_json_depth v f 2 rest s g))
        (λ u s' (z, w). w)

  -- What the loop finds in the fields left, where `object` was found before them or not.
  object_fields-Gets :
      (fs : Fields) (f : ℕ) (object_set : Bool) (rest : List JsonToken) (s : Scan S)
      → Gives j s.decoder (field_tokens fs rest)
      → Gets (object_fields j ctx e expected f object_set s) (λ b s'.
        EachNamed expected fs × ((b ≡ false) ⊎ (object_set ≡ true) ⊎ SomeNamed expected fs))
  unfolding object_fields tokens
  object_fields-Gets fs zero object_set rest s g = tt
  object_fields-Gets end (suc f) object_set rest s g =
      Gets-bind (more j ctx s) _ _ _ (more-Gets false (field_tokens end rest) s g.1 g)
        (λ m s' (m_false, k). rw m_false (
          Gets-bind (close j ctx e.malformed b'}' s') _ _ _ (close-Gets b'}' rest s' refl k)
            (λ u s'' _.
              (tt, elim (Bool-cases object_set) [ inl h ↦ inr (inl h) | inr h ↦ inl h ]))))
  object_fields-Gets (field key v fs) (suc f) object_set rest s g =
      Gets-bind (more j ctx s) _ _ _ (more-Gets true (field_tokens (field key v fs) rest) s g.1 g)
        (λ m s' (m_true, k). rw m_true (
          Gets-bind (token j ctx e.malformed s') _ _ _
            (token-Gets e.malformed (JsonToken.text key) _ s' k)
            (λ t s₁ (t_key, w). rw t_key (
              Gets-if (bytes_eq key object_key) _ _ s₁ _
                (λ is_object.
                  Gets-bind (object_value j ctx e expected s₁) _ _ _
                    (object_value-Gets v (field_tokens fs rest) s₁ w)
                    (λ u s₂ (v_text, w₂).
                      Gets-mono (object_fields j ctx e expected f true s₂) _ _
                        (object_fields-Gets fs f true rest s₂ w₂)
                        (λ b s₃ (each, some_named). (
                          (inr v_text, each),
                          inr (inr (inl (bytes_eq-true key object_key is_object, v_text))),
                        ))))
                (λ other.
                  Gets-bind (skip_value j ctx e expected f s₁) _ _ _
                    (skip_value-Gets f v (field_tokens fs rest) s₁ w)
                    (λ u s₂ w₂.
                      Gets-mono (object_fields j ctx e expected f object_set s₂) _ _
                        (object_fields-Gets fs f object_set rest s₂ w₂)
                        (λ b s₃ (each, some_named). (
                          (inl (bytes_eq-false key object_key other), each),
                          elim some_named [
                            | inl h ↦ inl h
                            | inr (inl h) ↦ inr (inl h)
                            | inr (inr h) ↦ inr (inr (inr h))
                          ],
                        ))))))))

  not_object :
      (f : ℕ) (t : JsonToken) (ts : List JsonToken) (s : Scan S) (P : Unit {0} → Scan S → Type 0)
      → is_delim b'{' t ≡ false
      → Gives j s.decoder (t ∷ ts)
      → Gets (validate_object j ctx e expected f s) P
  unfolding validate_object
  not_object f t ts s P other g =
      Gets-bind (token j ctx e.malformed s) _ _ _ (token-Gets e.malformed t ts s g)
        (λ t' s' (same, w). rw (same, other) tt)

  -- A document that the check accepts is an object with the expected text under `object`.
  pub validate_object-Named :
      (v : Value) (f : ℕ) (rest : List JsonToken) (s : Scan S)
      → Gives j s.decoder (tokens v rest)
      → Gets (validate_object j ctx e expected f s) (λ u s'. Named expected v)
  unfolding validate_object tokens
  validate_object-Named (text t) f rest s g = not_object f _ _ s _ refl g
  validate_object-Named (number n) f rest s g = not_object f _ _ s _ refl g
  validate_object-Named (flag b) f rest s g = not_object f _ _ s _ refl g
  validate_object-Named null f rest s g = not_object f _ _ s _ refl g
  validate_object-Named (array xs) f rest s g = not_object f _ _ s _ refl g
  validate_object-Named (object fs) f rest s g =
      Gets-bind (token j ctx e.malformed s) _ _ _ (token-Gets e.malformed (delim b'{') _ s g)
        (λ t s₁ (same, w). rw same (
          Gets-bind (object_fields j ctx e expected f false s₁) _ _ _
            (object_fields-Gets fs f false rest s₁ w)
            (λ b s₂ (each, some_named).
              Gets-if b (pure tt) (refuse e.missing) s₂ _
                (λ set. elim some_named [
                  | inl h ↦ absurd (ground (arith, h, set))
                  | inr (inl h) ↦ absurd (ground arith)
                  | inr (inr h) ↦ (fs, refl, each, h)
                ])
                (λ h. tt))))
