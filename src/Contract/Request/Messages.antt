-- ===== src/Contract/Request/Messages.antt =====
-- internal/contract/decode.go: the messages of a request keep to their limits, and reading them ends.
use ssemaphore.Prelude.{
  ℕ, zero, suc, ◌+◌, ◌≤◌, ◌<◌, ◌≡◌, refl, Bool, Option, none, some, List, [], ◌∷◌, ◌++◌, ◌==◌, leb,
  arith, length, length-append,
}
use ssemaphore.Contract.Reason.{
  Reason, malformed_json, unknown_field, missing_field, wrong_type, unsupported_value,
  message_count_limit, message_bytes_limit,
}
use ssemaphore.Contract.Course.{
  Course, ◌>>=◌, refuse, or_fail, Comes, Comes-bind, Comes-if, Comes-mono,
}
use ssemaphore.Contract.Decoding.{
  JsonToken, delim, text, number, flag, null, JsonDecoder, Consumes, Scan, token, more, close,
  as_text, bytes_eq, is_delim,
}
use ssemaphore.Contract.Ending.{Less, NoMore, token-Less, more-NoMore, as_text-NoMore, close-Less}
use ssemaphore.Contract.Objects.{read_string}
use ssemaphore.Contract.Members.{read_string-Less}
use ssemaphore.Contract.Sse.Wire.{over}
use ssemaphore.Contract.Sse.Lines.{over-exact}
use ssemaphore.Contract.Request.Types.{Limits, Message, role_key, content_key}
use ssemaphore.Contract.Request.Reading.{
  as_flag, as_unsigned, parse_unsigned, parse_role, MessageDraft, message_of, read_boolean,
  read_unsigned_integer, message_field, message_fields, read_message, message_items, read_messages,
}

abbrev pub text_bytes : List Message → ℕ
text_bytes [] = 0
text_bytes (m ∷ ms) = length m.content + text_bytes ms

text_bytes-append_one :
    (ms : List Message) (m : Message)
    → text_bytes (ms ++ (m ∷ [])) ≡ text_bytes ms + length m.content
text_bytes-append_one [] m = omega arith
text_bytes-append_one (x ∷ xs) m = omega (arith, text_bytes-append_one xs m)

-- The messages and the bytes that their texts were counted for.
abbrev pub WithinLimits : Limits → List Message → ℕ → Type 0
WithinLimits limits messages bytes =
    (length messages ≤ limits.max_message_count)
    × (bytes ≡ text_bytes messages)
    × (bytes ≤ limits.max_message_text_bytes)

pub or_fail-Comes :
    {E T A : Type 0} (e : E) (o : Option A) (s : T) (P : A → T → Type 0)
    → ((a : A) → o ≡ some a → P a s)
    → Comes (or_fail e o s) P
or_fail-Comes e none s P h = tt
or_fail-Comes e (some a) s P h = h a refl

module _ {S : Type 0} (j : JsonDecoder S) (size : S → ℕ) (law : Consumes j size)
    (ctx : ℕ → Bool) where
  abbrev Shrinks : {A : Type 0} → Scan S → A → Scan S → Type 0
  Shrinks s a s' = Less j size law ctx s a s'

  abbrev Stays : {A : Type 0} → Scan S → A → Scan S → Type 0
  Stays s a s' = NoMore j size law ctx s a s'

  as_flag-Stays : (t : JsonToken) (s : Scan S) → Comes (as_flag t s) (Stays s)
  as_flag-Stays (flag b) s = omega arith
  as_flag-Stays (delim c) s = tt
  as_flag-Stays (text t) s = tt
  as_flag-Stays (number n) s = tt
  as_flag-Stays null s = tt

  as_unsigned-Stays : (t : JsonToken) (s : Scan S) → Comes (as_unsigned t s) (Stays s)
  as_unsigned-Stays (number n) s =
      or_fail-Comes wrong_type (parse_unsigned n) s (Stays s) (λ a e. omega arith)
  as_unsigned-Stays (flag b) s = tt
  as_unsigned-Stays (delim c) s = tt
  as_unsigned-Stays (text t) s = tt
  as_unsigned-Stays null s = tt

  pub read_boolean-Less : (s : Scan S) → Comes (read_boolean j ctx s) (Shrinks s)
  unfolding read_boolean
  read_boolean-Less s =
      Comes-bind (token j ctx malformed_json s) _ (Shrinks s) _
        (token-Less j size law ctx malformed_json s)
        (λ t s₁ h.
          Comes-mono (as_flag t s₁) (Stays s₁) _ (as_flag-Stays t s₁) (λ b s₂ k. omega arith))

  pub read_unsigned_integer-Less : (s : Scan S) → Comes (read_unsigned_integer j ctx s) (Shrinks s)
  unfolding read_unsigned_integer
  read_unsigned_integer-Less s =
      Comes-bind (token j ctx malformed_json s) _ (Shrinks s) _
        (token-Less j size law ctx malformed_json s)
        (λ t s₁ h.
          Comes-mono (as_unsigned t s₁) (Stays s₁) _ (as_unsigned-Stays t s₁)
            (λ b s₂ k. omega arith))

  -- A key of an object that is open.
  pub key-Less :
      (s : Scan S) {B : Type 0} (f : List ℕ → Course Reason (Scan S) B) (Q : B → Scan S → Type 0)
      → ((k : List ℕ) (s' : Scan S) → size s'.decoder < size s.decoder → Comes (f k s') Q)
      → Comes ((token j ctx malformed_json >>= λ t. (as_text malformed_json t >>= f)) s) Q
  key-Less s f Q h =
      Comes-bind (token j ctx malformed_json s) _ (Shrinks s) Q
        (token-Less j size law ctx malformed_json s)
        (λ t s₁ h₁.
          Comes-bind (as_text malformed_json t s₁) f (Stays s₁) Q
            (as_text-NoMore j size law ctx malformed_json t s₁) (λ k s₂ h₂. h k s₂ (omega arith)))

  message_field-Stays :
      (key : List ℕ) (draft : MessageDraft) (s : Scan S)
      → Comes (message_field j ctx key draft s) (Stays s)
  unfolding message_field
  message_field-Stays key draft s =
      Comes-if (bytes_eq key role_key) _ _ s _
        (λ _.
          Comes-bind (read_string j ctx malformed_json wrong_type s) _ (Shrinks s) _
            (read_string-Less j size law ctx malformed_json wrong_type s)
            (λ v s₁ h₁.
              Comes-bind (or_fail unsupported_value (parse_role v) s₁) _ (Stays s₁) _
                (or_fail-Comes unsupported_value (parse_role v) s₁ (Stays s₁) (λ a e. omega arith))
                (λ r s₂ h₂. omega arith)))
        (λ _.
          Comes-if (bytes_eq key content_key) _ (refuse unknown_field) s _
            (λ _.
              Comes-bind (read_string j ctx malformed_json wrong_type s) _ (Shrinks s) _
                (read_string-Less j size law ctx malformed_json wrong_type s)
                (λ v s₁ h₁. omega arith))
            (λ _. tt))

  message_fields-Stays :
      (f : ℕ) (draft : MessageDraft) (s : Scan S)
      → size s.decoder < f
      → Comes (message_fields j ctx f draft s) (Stays s)
  unfolding message_fields
  message_fields-Stays zero draft s h = absurd (omega arith)
  message_fields-Stays (suc f) draft s h =
      Comes-bind (more j ctx s) _ (Stays s) _ (more-NoMore j size law ctx Reason s) (λ m s₁ h₁.
        Comes-if m _ _ s₁ _
          (λ _. key-Less s₁ _ (Stays s) (λ key s₂ h₂.
            Comes-bind (message_field j ctx key draft s₂) _ (Stays s₂) _
              (message_field-Stays key draft s₂)
              (λ draft' s₃ h₃.
                Comes-mono (message_fields j ctx f draft' s₃) (Stays s₃) _
                  (message_fields-Stays f draft' s₃ (omega arith)) (λ a s₄ h₄. omega arith))))
          (λ _.
            Comes-bind (close j ctx malformed_json b'}' s₁) _ (Shrinks s₁) _
              (close-Less j size law ctx malformed_json b'}' s₁)
              (λ u s₂ h₂.
                or_fail-Comes missing_field (message_of draft.draft_role draft.draft_content) s₂
                  (Stays s) (λ a e. omega arith))))

  read_message-Less :
      (f : ℕ) (s : Scan S) → size s.decoder ≤ f → Comes (read_message j ctx f s) (Shrinks s)
  unfolding read_message
  read_message-Less f s h =
      Comes-bind (token j ctx wrong_type s) _ (Shrinks s) _ (token-Less j size law ctx wrong_type s)
        (λ t s₁ h₁.
          Comes-if (is_delim b'{' t) _ (refuse wrong_type) s₁ _
            (λ _.
              Comes-mono (message_fields j ctx f _ s₁) (Stays s₁) _
                (message_fields-Stays f _ s₁ (omega arith)) (λ a s₂ h₂. omega arith))
            (λ _. tt))

  module _ (limits : Limits) where
    -- At least one message, within the limits, and some of the input taken.
    abbrev pub Gathered : Scan S → List Message × ℕ → Scan S → Type 0
    Gathered s (messages, bytes) s' =
        (0 < length messages)
        × WithinLimits limits messages bytes
        × (size s'.decoder ≤ size s.decoder)

    message_items-Gathered :
        (f : ℕ) (messages : List Message) (bytes : ℕ) (s : Scan S)
        → size s.decoder < f
        → WithinLimits limits messages bytes
        → Comes (message_items j ctx limits f messages bytes s) (Gathered s)
    unfolding message_items
    message_items-Gathered zero messages bytes s h within = absurd (omega arith)
    message_items-Gathered (suc f) messages bytes s h (few, exact, short) =
        Comes-bind (more j ctx s) _ (Stays s) _ (more-NoMore j size law ctx Reason s) (λ m s₁ h₁.
          Comes-if m _ _ s₁ _
            (λ _.
              Comes-if (leb limits.max_message_count (length messages)) (refuse message_count_limit)
                _ s₁ _ (λ _. tt)
                (λ room.
                  Comes-bind (read_message j ctx f s₁) _ (Shrinks s₁) _
                    (read_message-Less f s₁ (omega arith))
                    (λ message s₂ h₂.
                      Comes-if (over limits.max_message_text_bytes bytes (length message.content))
                        (refuse message_bytes_limit) _ s₂ _ (λ _. tt)
                        (λ fits.
                          let (sum, low) =
                            over-exact limits.max_message_text_bytes bytes (length message.content)
                              fits in
                          let one_more : length (messages ++ (message ∷ [])) ≡ length messages + 1 =
                            length-append messages (message ∷ []) in
                          let longer = text_bytes-append_one messages message in
                          Comes-mono (message_items j ctx limits f _ _ s₂) (Gathered s₂) _
                            (message_items-Gathered f _ _ s₂ (omega arith)
                              (ground arith, omega arith, omega arith))
                            (λ a s₃ (x, y, z). (x, y, omega arith))))))
            (λ _.
              Comes-bind (close j ctx malformed_json b']' s₁) _ (Shrinks s₁) _
                (close-Less j size law ctx malformed_json b']' s₁)
                (λ u s₂ h₂.
                  Comes-if (length messages == 0) (refuse unsupported_value) _ s₂ _ (λ _. tt)
                    (λ some_message. (ground arith, (few, exact, short), omega arith)))))

    pub read_messages-Gathered :
        (f : ℕ) (s : Scan S)
        → size s.decoder ≤ f
        → Comes (read_messages j ctx limits f s) (Gathered s)
    unfolding read_messages
    read_messages-Gathered f s h =
        Comes-bind (token j ctx wrong_type s) _ (Shrinks s) _
          (token-Less j size law ctx wrong_type s)
          (λ t s₁ h₁.
            Comes-if (is_delim b'[' t) _ (refuse wrong_type) s₁ _
              (λ _.
                Comes-mono (message_items j ctx limits f [] 0 s₁) (Gathered s₁) _
                  (message_items-Gathered f [] 0 s₁ (omega arith) (omega arith, refl, omega arith))
                  (λ a s₂ (x, y, z). (x, y, omega arith)))
              (λ _. tt))
