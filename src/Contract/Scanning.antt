-- ===== src/Contract/Scanning.antt =====
-- internal/contract/jsonscan.go: what the scan answers on the tokens of a document, while the context
-- gives no error.
use ssemaphore.Prelude.{
  ℕ, zero, suc, ◌+◌, ◌≡◌, refl, Bool, true, false, Option, none, some, List, [], ◌∷◌, ltb,
  if◌then◌else◌,
}
use ssemaphore.Contract.Reason.{Reason, malformed_json, duplicate_key, nesting_limit}
use ssemaphore.Contract.Decoding.{
  JsonToken, delim, JsonDecoder, Consumes, Scan, M, has_key, as_text, token, more, close, raw_token,
  settle_token, is_delim,
}
use ssemaphore.Contract.Course.{Step, ok, fail, after, pure, refuse}
use ssemaphore.Contract.Decoding
use ssemaphore.Contract.Json.{scan_rest, scan_value, scan_fields, scan_items}
use ssemaphore.Contract.Documents.{
  Value, Items, Fields, text, number, flag, null, array, object, nil, cons, end, field, tokens,
  item_tokens, field_tokens, Gives, fault, fault_items, fault_fields,
}

-- Of an outcome within the fuel: `P` of a value with the state after it, and `E` of a reason.
abbrev pub Meets :
    {S A : Type 0}
    → Option (Step Reason A × Scan S)
    → (A → Scan S → Type 0)
    → (Reason → Type 0)
    → Type 0
Meets none P E = Unit {0}
Meets (some (ok a, s)) P E = P a s
Meets (some (fail e, s)) P E = E e

pub Meets-bind :
    {S A B : Type 0} (m : Option (Step Reason A × Scan S)) (f : A → M S B) (P : A → Scan S → Type 0)
    (Q : B → Scan S → Type 0) (D E : Reason → Type 0)
    → Meets m P D
    → ((e : Reason) → D e → E e)
    → ((a : A) (s : Scan S) → P a s → Meets (f a s) Q E)
    → Meets (elim m [ none ↦ none | some (r, s) ↦ after f r s ]) Q E
Meets-bind none f P Q D E h l k = tt
Meets-bind (some (ok a, s)) f P Q D E h l k = k a s h
Meets-bind (some (fail e, s)) f P Q D E h l k = l e h

pub Meets-if :
    {S A : Type 0} (b : Bool) (x y : M S A) (s : Scan S) (P : A → Scan S → Type 0)
    (E : Reason → Type 0)
    → (b ≡ true → Meets (x s) P E)
    → (b ≡ false → Meets (y s) P E)
    → Meets ((if b then x else y) s) P E
Meets-if true x y s P E h k = h refl
Meets-if false x y s P E h k = k refl

pub Meets-mono :
    {S A : Type 0} (m : Option (Step Reason A × Scan S)) (P Q : A → Scan S → Type 0)
    (D E : Reason → Type 0)
    → Meets m P D
    → ((a : A) (s : Scan S) → P a s → Q a s)
    → ((e : Reason) → D e → E e)
    → Meets m Q E
Meets-mono none P Q D E h k l = tt
Meets-mono (some (ok a, s)) P Q D E h k l = k a s h
Meets-mono (some (fail e, s)) P Q D E h k l = l e h

abbrev Never : Reason → Type 0
Never e = ⊥

module _ {S : Type 0} (j : JsonDecoder S) (ctx : ℕ → Bool) (calm : (n : ℕ) → ctx n ≡ false) where
  token-Gives :
      (e : Reason) (t : JsonToken) (ts : List JsonToken) (s : Scan S)
      → Gives j s.decoder (t ∷ ts)
      → Meets (token j ctx e s) (λ t' s'. (t' ≡ t) × Gives j s'.decoder ts) Never
  unfolding token raw_token settle_token
  token-Gives e t ts s (g, m, k) = rw (calm s.reads, g, calm (s.reads + 1)) (refl, k)

  more-Gives :
      (b : Bool) (ts : List JsonToken) (s : Scan S)
      → j.more s.decoder ≡ b
      → Gives j s.decoder ts
      → Meets (more j ctx s) (λ m s'. (m ≡ b) × Gives j s'.decoder ts) Never
  unfolding more
  more-Gives b ts s h g = (rw (calm s.reads, h) refl, g)

  close-Gives :
      (c : ℕ) (ts : List JsonToken) (s : Scan S)
      → is_delim c (delim c) ≡ true
      → Gives j s.decoder (delim c ∷ ts)
      → Meets (close j ctx malformed_json c s) (λ u s'. Gives j s'.decoder ts) Never
  unfolding close
  close-Gives c ts s h g =
      Meets-bind (token j ctx malformed_json s) _ _ _ Never Never
        (token-Gives malformed_json (delim c) ts s g) (λ e k. k) (λ t s' (e, k). rw (e, h) k)

  pub more-value :
      (v : Value) (rest : List JsonToken) (d : S) → Gives j d (tokens v rest) → j.more d ≡ true
  unfolding tokens
  more-value (text t) rest d (a, b, c) = b
  more-value (number t) rest d (a, b, c) = b
  more-value (flag t) rest d (a, b, c) = b
  more-value null rest d (a, b, c) = b
  more-value (array t) rest d (a, b, c) = b
  more-value (object t) rest d (a, b, c) = b

  module _ (maximum : ℕ) where
    if-fault :
        (b : Bool) (r : Reason) (e : Option Reason) → b ≡ true → (if b then some r else e) ≡ some r
    if-fault b r e h = rw h refl

    later-fault :
        (b : Bool) (r : Reason) (e x : Option Reason)
        → b ≡ false
        → e ≡ x
        → (if b then some r else e) ≡ x
    later-fault b r e x h k = rw h k

    abbrev Faults : Option Reason → Reason → Type 0
    Faults o e = o ≡ some e

    abbrev Rests : {A : Type 0} → Option Reason → List JsonToken → A → Scan S → Type 0
    Rests o rest a s = (o ≡ none) × Gives j s.decoder rest

    leaf :
        (f d : ℕ) (t : JsonToken) (rest : List JsonToken) (s : Scan S) (o : Option Reason)
        → Gives j s.decoder (t ∷ rest)
        → ((x y : M S (Unit {0})) → scan_rest t x y ≡ pure tt)
        → (ltb maximum d ≡ true → o ≡ some nesting_limit)
        → (ltb maximum d ≡ false → o ≡ none)
        → Meets (scan_value j ctx maximum f d s) (Rests o rest) (Faults o)
    unfolding scan_value
    leaf zero d t rest s o g p x y = tt
    leaf (suc f) d t rest s o g p x y =
        Meets-if (ltb maximum d) (refuse nesting_limit) _ s _ _ x (λ shallow.
          Meets-bind (token j ctx malformed_json s) _ _ _ Never (Faults o)
            (token-Gives malformed_json t rest s g) (λ e k. absurd k)
            (λ t' s' (e, k).
              rw (e, p (scan_fields j ctx maximum f d []) (scan_items j ctx maximum f d))
                (y shallow, k)))

    mutual
      unfolding scan_value tokens fault

      pub scan-value :
          (v : Value) (f d : ℕ) (rest : List JsonToken) (s : Scan S)
          → Gives j s.decoder (tokens v rest)
          → Meets
              (scan_value j ctx maximum f d s)
              (Rests (fault maximum d v) rest)
              (Faults (fault maximum d v))
      scan-value (text t) f d rest s g =
          leaf f d (Decoding.JsonToken.text t) rest s _ g (λ x y. refl) (λ h. rw h refl)
            (λ h. rw h refl)
      scan-value (number t) f d rest s g =
          leaf f d (Decoding.JsonToken.number t) rest s _ g (λ x y. refl) (λ h. rw h refl)
            (λ h. rw h refl)
      scan-value (flag t) f d rest s g =
          leaf f d (Decoding.JsonToken.flag t) rest s _ g (λ x y. refl) (λ h. rw h refl)
            (λ h. rw h refl)
      scan-value null f d rest s g =
          leaf f d Decoding.JsonToken.null rest s _ g (λ x y. refl) (λ h. rw h refl)
            (λ h. rw h refl)
      scan-value (array xs) zero d rest s g = tt
      scan-value (array xs) (suc f) d rest s g =
          Meets-if (ltb maximum d) (refuse nesting_limit) _ s _ _ (λ h. if-fault _ _ _ h)
            (λ shallow.
              Meets-bind (token j ctx malformed_json s) _ _ _ Never _
                (token-Gives malformed_json (delim b'[') (item_tokens xs rest) s g)
                (λ e k. absurd k)
                (λ t' s' (e, k). rw e (
                  Meets-mono (scan_items j ctx maximum f d s') _ _ _ _ (scan-items xs f d rest s' k)
                    (λ u s'' (z, w). (later-fault _ _ _ _ shallow z, w))
                    (λ e z. later-fault _ _ _ _ shallow z))))
      scan-value (object fs) zero d rest s g = tt
      scan-value (object fs) (suc f) d rest s g =
          Meets-if (ltb maximum d) (refuse nesting_limit) _ s _ _ (λ h. if-fault _ _ _ h)
            (λ shallow.
              Meets-bind (token j ctx malformed_json s) _ _ _ Never _
                (token-Gives malformed_json (delim b'{') (field_tokens fs rest) s g)
                (λ e k. absurd k)
                (λ t' s' (e, k). rw e (
                  Meets-mono (scan_fields j ctx maximum f d [] s') _ _ _ _
                    (scan-fields fs f d [] rest s' k)
                    (λ u s'' (z, w). (later-fault _ _ _ _ shallow z, w))
                    (λ e z. later-fault _ _ _ _ shallow z))))

      scan-items :
          (xs : Items) (f d : ℕ) (rest : List JsonToken) (s : Scan S)
          → Gives j s.decoder (item_tokens xs rest)
          → Meets
              (scan_items j ctx maximum f d s)
              (Rests (fault_items maximum (d + 1) xs) rest)
              (Faults (fault_items maximum (d + 1) xs))
      scan-items xs zero d rest s g = tt
      scan-items nil (suc f) d rest s g =
          Meets-bind (more j ctx s) _ _ _ Never _ (more-Gives false (item_tokens nil rest) s g.1 g)
            (λ e k. absurd k)
            (λ m s' (e, k). rw e (
              Meets-mono (close j ctx malformed_json b']' s') _ _ _ _
                (close-Gives b']' rest s' refl k) (λ u s'' z. (refl, z)) (λ e z. absurd z)))
      scan-items (cons v xs) (suc f) d rest s g =
          Meets-bind (more j ctx s) _ _ _ Never _
            (more-Gives true (item_tokens (cons v xs) rest) s (more-value v _ s.decoder g) g)
            (λ e k. absurd k)
            (λ m s' (e, k). rw e (
              Meets-bind (scan_value j ctx maximum f (d + 1) s') _ _ _ _ _
                (scan-value v f (d + 1) (item_tokens xs rest) s' k) (λ e z. rw z refl)
                (λ u s'' (z, w). rw z (scan-items xs f d rest s'' w))))

      scan-fields :
          (fs : Fields) (f d : ℕ) (keys : List (List ℕ)) (rest : List JsonToken) (s : Scan S)
          → Gives j s.decoder (field_tokens fs rest)
          → Meets
              (scan_fields j ctx maximum f d keys s)
              (Rests (fault_fields maximum (d + 1) keys fs) rest)
              (Faults (fault_fields maximum (d + 1) keys fs))
      scan-fields fs zero d keys rest s g = tt
      scan-fields end (suc f) d keys rest s g =
          Meets-bind (more j ctx s) _ _ _ Never _ (more-Gives false (field_tokens end rest) s g.1 g)
            (λ e k. absurd k)
            (λ m s' (e, k). rw e (
              Meets-mono (close j ctx malformed_json b'}' s') _ _ _ _
                (close-Gives b'}' rest s' refl k) (λ u s'' z. (refl, z)) (λ e z. absurd z)))
      scan-fields (field key v fs) (suc f) d keys rest s g =
          Meets-bind (more j ctx s) _ _ _ Never _
            (more-Gives true (field_tokens (field key v fs) rest) s g.1 g) (λ e k. absurd k)
            (λ m s' (e, k). rw e (
              Meets-bind (token j ctx malformed_json s') _ _ _ Never _
                (token-Gives malformed_json (Decoding.JsonToken.text key) _ s' k) (λ e k. absurd k)
                (λ t' s₁ (e, k). rw e (
                  Meets-if (has_key key keys) (refuse duplicate_key) _ s₁ _ _
                    (λ h. if-fault _ _ _ h)
                    (λ fresh. rw fresh (
                      Meets-bind (scan_value j ctx maximum f (d + 1) s₁) _ _ _ _ _
                        (scan-value v f (d + 1) (field_tokens fs rest) s₁ k) (λ e z. rw z refl)
                        (λ u s₂ (z, w). rw z (scan-fields fs f d (key ∷ keys) rest s₂ w))))))))
