-- ===== src/Contract/Response/Validated.antt =====
-- internal/contract/response.go: what a validated response satisfies, and that `Parse` answers.
use ssemaphore.Prelude.{
  ℕ, suc, ◌+◌, ◌*◌, ◌≤◌, ◌≡◌, refl, Bool, true, false, not, none, some, List, [], subst, ltb, arith,
  length, if◌then◌else◌,
}
use ssemaphore.Contract.Course.{
  Course, Step, ok, fail, ◌>>=◌, refuse, Comes, Comes-bind, Comes-if, Comes-mono,
}
use ssemaphore.Contract.Decoding.{JsonToken, JsonDecoder, Consumes}
use ssemaphore.Contract.Ending.{validate_json_document_total}
use ssemaphore.Contract.Escapes.{valid_unicode_escapes}
use ssemaphore.Contract.Escaping.{valid_unicode_escapes-Comes}
use ssemaphore.Contract.Json.{max_json_depth, validate_json_document}
use ssemaphore.Contract.Verdict.{verdict, validate_json_document_accepts}
use ssemaphore.Contract.Documents.{Value, Gives, tokens, height, Distinct}
use ssemaphore.Contract.Getting.{Gets-verdict}
use ssemaphore.Contract.Completing.{Named, validate_object-Named}
use ssemaphore.Contract.Objects.{scanned}
use ssemaphore.Contract.Members.{not-false, StepAll, scanned-verdict, validate_object-Comes}
use ssemaphore.Contract.Response.{
  ResponseReason, ResponseFailure, context_error, response_error, body_bytes_limit,
  body_read_failure, invalid_utf8, invalid_unicode_escape, response_reason_from_json,
  response_reasons, chat_completion_object, validate_chat_completion_object, check, unless_refused,
  document, completion, validate_response, parse_response,
}

-- A document, and what follows it, that is the whole of a completion.
abbrev pub IsCompletion : Value → List JsonToken → Type 0
IsCompletion v rest =
    ((height v ≤ max_json_depth) × Distinct v × (rest ≡ [])) × Named chat_completion_object v

module _ {S : Type 0} (j : JsonDecoder S) (size : S → ℕ) (law : Consumes j size)
    (utf8_valid : List ℕ → Bool) (ctx : ℕ → Bool) where
  -- The scan of the body's JSON accepts it, and so does the scan for its field `object`.
  abbrev pub Strict : List ℕ → Type 0
  Strict body = (k : ℕ) × (verdict (validate_json_document j ctx max_json_depth body k) ≡ some none)

  abbrev pub Completion : List ℕ → Type 0
  Completion body =
      (k : ℕ) × (verdict (
          validate_chat_completion_object j ctx (suc (2 * length body))
            (record { decoder = j.start body; reads = k }))
        ≡ some none)

  abbrev pub Valid : List ℕ → Type 0
  Valid body = (utf8_valid body ≡ true) × Strict body × Completion body

  failing :
      (b : Bool) (n : ℕ)
      → Comes {E = ResponseFailure}
          (some (if b then fail context_error else ok tt, n))
          (λ u m. Unit {0})
  failing true n = tt
  failing false n = tt

  checked :
      {B : Type 0} (f : Course ResponseFailure ℕ B) (n : ℕ) (Q : B → ℕ → Type 0)
      → ((m : ℕ) → Comes (f m) Q)
      → Comes ((check j utf8_valid ctx >>= λ _. f) n) Q
  unfolding check
  checked f n Q h =
      Comes-bind (check j utf8_valid ctx n) (λ _. f) (λ u m. Unit {0}) Q (failing (ctx n) (n + 1))
        (λ u m _. h m)

  unless_refused-Comes :
      {E : Type 0} (Q : Type 0) (reason : E → ResponseReason) (r : Step E (Unit {0})) (n : ℕ)
      → StepAll (λ u. Q) r
      → Comes (unless_refused j utf8_valid ctx reason r n) (λ u m. Q)
  unfolding check
  unless_refused-Comes Q reason (ok u) n q =
      Comes-mono (check j utf8_valid ctx n) _ _ (failing (ctx n) (n + 1)) (λ u m _. q)
  unless_refused-Comes Q reason (fail r) n q =
      checked (refuse (response_error (reason r))) n _ (λ m. tt)

  document-Strict :
      (body : List ℕ) (n : ℕ) → Comes (document j utf8_valid ctx body n) (λ u m. Strict body)
  unfolding document
  document-Strict body n =
      Comes-bind (scanned (validate_json_document j ctx max_json_depth body n)) _
        (λ r m. StepAll (λ u. Strict body) r) _
        (scanned-verdict ResponseFailure (Strict body)
          (validate_json_document j ctx max_json_depth body n) (λ accepts. (n, accepts))
          (validate_json_document_total j size law ctx max_json_depth body n))
        (λ r m strict. unless_refused-Comes (Strict body) response_reason_from_json r m strict)

  completion-Completion :
      (body : List ℕ) (n : ℕ) → Comes (completion j utf8_valid ctx body n) (λ u m. Completion body)
  unfolding completion validate_chat_completion_object
  completion-Completion body n =
      Comes-bind
        (scanned (
          validate_chat_completion_object j ctx (suc (2 * length body))
            (record { decoder = j.start body; reads = n })))
        _ (λ r m. StepAll (λ u. Completion body) r) _
        (scanned-verdict ResponseFailure (Completion body)
          (validate_chat_completion_object j ctx (suc (2 * length body))
            (record { decoder = j.start body; reads = n }))
          (λ accepts. (n, accepts))
          (validate_object-Comes j size law ctx response_reasons chat_completion_object
            (suc (2 * length body)) _ (omega (arith, law.start_le body))))
        (λ r m done. unless_refused-Comes (Completion body) (λ reason. reason) r m done)

  validate_response-Valid :
      (body : List ℕ) (n : ℕ)
      → Comes (validate_response j utf8_valid ctx body n) (λ u m. Valid body)
  unfolding validate_response
  validate_response-Valid body n =
      Comes-if (not (utf8_valid body)) (refuse (response_error invalid_utf8)) _ n _ (λ _. tt)
        (λ utf8. checked _ n _ (λ n₁.
          Comes-bind (valid_unicode_escapes ctx body n₁) _ (λ b m. Unit {0}) _
            (valid_unicode_escapes-Comes ctx body ResponseFailure n₁)
            (λ valid n₂ _.
              Comes-if (not valid) _ _ n₂ _
                (λ _. checked (refuse (response_error invalid_unicode_escape)) n₂ _ (λ m. tt))
                (λ _. checked _ n₂ _ (λ n₃.
                  Comes-bind (document j utf8_valid ctx body n₃) _ (λ u m. Strict body) _
                    (document-Strict body n₃)
                    (λ u n₄ strict.
                      Comes-mono (completion j utf8_valid ctx body n₄) _ _
                        (completion-Completion body n₄)
                        (λ u m done. (not-false (utf8_valid body) utf8, strict, done))))))))

  -- `Parse` comes to a response or a refusal, within the fuel of its loops, whatever the reader, the decoder
  -- and the context give, if a token takes some of what is left of the body. A response holds the body
  -- exactly as it was read, which is no longer than the limit, is valid UTF-8, and passes the two scans.
  pub parse_response-Valid :
      (max_body_bytes : ℕ) (read_all : ℕ → List ℕ × Bool) (n : ℕ)
      → Comes (parse_response j utf8_valid ctx max_body_bytes read_all n) (λ response m.
        (response.body ≡ (read_all (max_body_bytes + 1)).0)
        × (length response.body ≤ max_body_bytes)
        × Valid response.body)
  unfolding parse_response
  parse_response-Valid max_body_bytes read_all n =
      let body = (read_all (max_body_bytes + 1)).0 in
      Comes-if (ltb max_body_bytes (length body)) (refuse (response_error body_bytes_limit)) _ n _
        (λ _. tt)
        (λ fits. checked _ n _ (λ n₁.
          Comes-if (read_all (max_body_bytes + 1)).1 (refuse (response_error body_read_failure)) _
            n₁ _ (λ _. tt)
            (λ _.
              Comes-bind (validate_response j utf8_valid ctx body n₁) _ (λ u m. Valid body) _
                (validate_response-Valid body n₁) (λ u n₂ valid. (refl, ground arith, valid)))))

  Valid-Completion :
      (calm : (n : ℕ) → ctx n ≡ false) (body : List ℕ) (v : Value) (rest : List JsonToken)
      → Gives j (j.start body) (tokens v rest)
      → Valid body
      → IsCompletion v rest
  unfolding validate_chat_completion_object
  Valid-Completion calm body v rest g (utf8, (k, strict), (n, completes)) = (
    (validate_json_document_accepts j ctx calm size law max_json_depth body k v rest g).0 strict,
    Gets-verdict (Named chat_completion_object v) _ completes
        (validate_object-Named j ctx calm response_reasons chat_completion_object v _ rest _ g),
  )

  -- For a decoder whose every token takes some of the input, while the context gives no error, and where
  -- the tokens of the body that was read are those of a document and then `rest`: `Parse` comes to a
  -- response or a refusal, within the fuel of its loops. An accepted response holds that body exactly,
  -- which is no longer than the limit and valid UTF-8; nothing follows the document, which nests at most
  -- 32 deep, no object of which has a key twice, and which is an object with a field `object` that is
  -- the text `chat.completion`, and with no other value under that key.
  pub parse_response-Completion :
      (calm : (n : ℕ) → ctx n ≡ false) (max_body_bytes : ℕ) (read_all : ℕ → List ℕ × Bool) (n : ℕ)
      (v : Value) (rest : List JsonToken)
      → Gives j (j.start (read_all (max_body_bytes + 1)).0) (tokens v rest)
      → Comes (parse_response j utf8_valid ctx max_body_bytes read_all n) (λ response m.
        (response.body ≡ (read_all (max_body_bytes + 1)).0)
        × (length response.body ≤ max_body_bytes)
        × (utf8_valid response.body ≡ true)
        × IsCompletion v rest)
  parse_response-Completion calm max_body_bytes read_all n v rest g =
      Comes-mono (parse_response j utf8_valid ctx max_body_bytes read_all n) _ _
        (parse_response-Valid max_body_bytes read_all n)
        (λ response m (same, fits, valid).
          let body = (read_all (max_body_bytes + 1)).0 in
          (same, fits, valid.0, Valid-Completion calm body v rest g (subst Valid same valid)))
