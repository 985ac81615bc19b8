-- ===== src/Contract/Request/Fields.antt =====
-- internal/contract/decode.go: what a decoded request satisfies, and that decoding ends.
use ssemaphore.Prelude.{
  ℕ, zero, suc, ◌≤◌, ◌<◌, ◌≡◌, refl, ap, Bool, true, false, ◌&&◌, ◌||◌, Option, none, some, List,
  [], ◌∷◌, ◌==◌, ltb, arith, length,
}
use ssemaphore.Contract.Reason.{
  Reason, malformed_json, root_not_object, unknown_field, missing_field, wrong_type,
  unsupported_value, completion_limit,
}
use ssemaphore.Contract.Course.{pure, refuse, or_fail, Comes, Comes-bind, Comes-if}
use ssemaphore.Contract.Decoding.{
  JsonDecoder, Consumes, Scan, token, more, close, bytes_eq, is_delim,
}
use ssemaphore.Contract.Ending.{Less, NoMore, token-Less, more-NoMore, close-Less}
use ssemaphore.Contract.Objects.{read_string}
use ssemaphore.Contract.Members.{read_string-Less}
use ssemaphore.Contract.Request.Types.{
  Parser, Message, RequestMode, Decoded, model_key, messages_key, max_completion_tokens_key,
  stream_key, stream_options_key, count_key,
}
use ssemaphore.Contract.Request.Reading.{
  RequestDraft, request_of, read_boolean, read_unsigned_integer, read_messages, request_field,
  request_fields, decode_request,
}
use ssemaphore.Contract.Request.Messages.{
  WithinLimits, Gathered, key-Less, read_boolean-Less, read_unsigned_integer-Less,
  read_messages-Gathered,
}

both : (b c : Bool) → (b && c) ≡ true → (b ≡ true) × (c ≡ true)
both true c h = (refl, h)
both false c h = absurd (cc h)

bytes_eq_sound : (xs ys : List ℕ) → bytes_eq xs ys ≡ true → xs ≡ ys
unfolding bytes_eq
bytes_eq_sound [] [] h = refl
bytes_eq_sound [] (y ∷ ys) h = absurd (cc h)
bytes_eq_sound (x ∷ xs) [] h = absurd (cc h)
bytes_eq_sound (x ∷ xs) (y ∷ ys) h =
    let (a, b) = both (x == y) (bytes_eq xs ys) h in
    let head : x ≡ y = ground arith in rw head (ap (λ zs. y ∷ zs) (bytes_eq_sound xs ys b))

abbrev All : {A : Type 0} → (A → Type 0) → Option A → Type 0
All P none = Unit {0}
All P (some a) = P a

module _ (p : Parser) where
  abbrev GoodMessages : List Message × ℕ → Type 0
  GoodMessages (messages, bytes) = (0 < length messages) × WithinLimits p.limits messages bytes

  abbrev GoodTokens : ℕ → Type 0
  GoodTokens tokens = (0 < tokens) × (tokens ≤ p.limits.max_completion_tokens)

  abbrev GoodDraft : RequestDraft → Type 0
  GoodDraft draft =
      All (λ v. v ≡ p.public_model) draft.draft_model
      × All GoodMessages draft.draft_messages
      × All GoodTokens draft.draft_tokens

  -- The public model, messages within their limits and one at least, and completion tokens within theirs.
  abbrev pub Decent : Decoded → Type 0
  Decent d =
      (d.model ≡ p.public_model)
      × (0 < length d.messages)
      × WithinLimits p.limits d.messages d.message_text_bytes
      × (0 < d.max_completion_tokens)
      × (d.max_completion_tokens ≤ p.limits.max_completion_tokens)

  request_of-Decent :
      (model : Option (List ℕ)) (messages : Option (List Message × ℕ)) (tokens : Option ℕ)
      (mode : RequestMode)
      → All (λ v. v ≡ p.public_model) model
      → All GoodMessages messages
      → All GoodTokens tokens
      → All Decent (request_of model messages tokens mode)
  request_of-Decent (some model) (some (messages, bytes)) (some tokens) mode x (a, b) (c, d) =
      (x, a, b, c, d)
  request_of-Decent (some model) (some m) none mode x y z = tt
  request_of-Decent (some model) none tokens mode x y z = tt
  request_of-Decent none messages tokens mode x y z = tt

  or_fail-All :
      {A T : Type 0} (e : Reason) (P : A → Type 0) (Q : A → T → Type 0) (o : Option A) (s : T)
      → All P o
      → ((a : A) → P a → Q a s)
      → Comes (or_fail e o s) Q
  or_fail-All e P Q none s h k = tt
  or_fail-All e P Q (some a) s h k = k a h

  module _ {S : Type 0} (j : JsonDecoder S) (size : S → ℕ) (law : Consumes j size)
      (ctx : ℕ → Bool) where
    abbrev Shrinks : {A : Type 0} → Scan S → A → Scan S → Type 0
    Shrinks s a s' = Less j size law ctx s a s'

    abbrev Drafted : Scan S → RequestDraft → Scan S → Type 0
    Drafted s draft s' = GoodDraft draft × (size s'.decoder ≤ size s.decoder)

    request_field-Drafted :
        (f : ℕ) (key : List ℕ) (draft : RequestDraft) (s : Scan S)
        → size s.decoder ≤ f
        → GoodDraft draft
        → Comes (request_field j ctx p f key draft s) (Drafted s)
    unfolding request_field
    request_field-Drafted f key draft s h (x, y, z) =
        Comes-if (bytes_eq key model_key) _ _ s _
          (λ _.
            Comes-bind (read_string j ctx malformed_json wrong_type s) _ (Shrinks s) _
              (read_string-Less j size law ctx malformed_json wrong_type s)
              (λ v s₁ h₁.
                Comes-if (bytes_eq v p.public_model) _ (refuse unsupported_value) s₁ _
                  (λ same. ((bytes_eq_sound v p.public_model same, y, z), omega arith)) (λ _. tt)))
          (λ _.
            Comes-if (bytes_eq key messages_key) _ _ s _
              (λ _.
                Comes-bind (read_messages j ctx p.limits f s) _ (Gathered j size law ctx p.limits s)
                  _ (read_messages-Gathered j size law ctx p.limits f s h)
                  (λ (messages, bytes) s₁ (a, b, c). ((x, (a, b), z), c)))
              (λ _.
                Comes-if (bytes_eq key max_completion_tokens_key) _ _ s _
                  (λ _.
                    Comes-bind (read_unsigned_integer j ctx s) _ (Shrinks s) _
                      (read_unsigned_integer-Less j size law ctx s)
                      (λ value s₁ h₁.
                        Comes-if (value == 0 || ltb p.limits.max_completion_tokens value)
                          (refuse completion_limit) _ s₁ _ (λ _. tt)
                          (λ fits. ((x, y, (ground arith, ground arith)), omega arith))))
                  (λ _.
                    Comes-if (bytes_eq key stream_key) _ _ s _
                      (λ _.
                        Comes-bind (read_boolean j ctx s) _ (Shrinks s) _
                          (read_boolean-Less j size law ctx s)
                          (λ b s₁ h₁. ((x, y, z), omega arith)))
                      (λ _.
                        Comes-if (bytes_eq key stream_options_key) (refuse unsupported_value) _ s _
                          (λ _. tt)
                          (λ _.
                            Comes-if (bytes_eq key count_key) _ (refuse unknown_field) s _
                              (λ _.
                                Comes-bind (read_unsigned_integer j ctx s) _ (Shrinks s) _
                                  (read_unsigned_integer-Less j size law ctx s)
                                  (λ value s₁ h₁.
                                    Comes-if (value == 1) (pure draft) (refuse unsupported_value) s₁
                                      _ (λ _. ((x, y, z), omega arith)) (λ _. tt)))
                              (λ _. tt))))))

    request_fields-Decent :
        (f : ℕ) (draft : RequestDraft) (s : Scan S)
        → size s.decoder < f
        → GoodDraft draft
        → Comes (request_fields j ctx p f draft s) (λ d s'. Decent d)
    unfolding request_fields
    request_fields-Decent zero draft s h good = absurd (omega arith)
    request_fields-Decent (suc f) draft s h (x, y, z) =
        Comes-bind (more j ctx s) _ (NoMore j size law ctx s) _
          (more-NoMore j size law ctx Reason s)
          (λ m s₁ h₁.
            Comes-if m _ _ s₁ _
              (λ _.
                key-Less j size law ctx s₁ _ (λ d s'. Decent d)
                  (λ key s₂ h₂.
                    Comes-bind (request_field j ctx p f key draft s₂) _ (Drafted s₂) _
                      (request_field-Drafted f key draft s₂ (omega arith) (x, y, z))
                      (λ draft' s₃ (good, h₃).
                        request_fields-Decent f draft' s₃ (omega arith) good)))
              (λ _.
                Comes-bind (close j ctx malformed_json b'}' s₁) _ (Shrinks s₁) _
                  (close-Less j size law ctx malformed_json b'}' s₁)
                  (λ u s₂ h₂.
                    or_fail-All missing_field Decent (λ d s'. Decent d) _ s₂
                      (request_of-Decent draft.draft_model draft.draft_messages draft.draft_tokens
                        draft.draft_mode x y z)
                      (λ d good. good))))

    pub decode_request-Decent :
        (f : ℕ) (s : Scan S)
        → size s.decoder ≤ f
        → Comes (decode_request j ctx p f s) (λ d s'. Decent d)
    unfolding decode_request
    decode_request-Decent f s h =
        Comes-bind (token j ctx root_not_object s) _ (Shrinks s) _
          (token-Less j size law ctx root_not_object s)
          (λ t s₁ h₁.
            Comes-if (is_delim b'{' t) _ (refuse root_not_object) s₁ _
              (λ _. request_fields-Decent f _ s₁ (omega arith) (tt, tt, tt)) (λ _. tt))
