-- ===== src/Contract/Request/Accepted.antt =====
-- internal/contract/request.go: what an accepted request satisfies, and that `Parse` answers.
use ssemaphore.Prelude.{
  ℕ, suc, ◌+◌, ◌*◌, ◌/◌, ◌≤◌, ◌<◌, ◌≡◌, refl, Bool, true, false, ◌||◌, not, none, some, List, ◌==◌,
  leb, ltb, arith, length, if◌then◌else◌, if-split, u64, u64_mod,
}
use ssemaphore.Contract.Reason.{
  Reason, invalid_request, request_too_large, body_read_failure, body_bytes_limit, read_failure,
  invalid_utf8, invalid_unicode_escape,
}
use ssemaphore.Contract.Course.{
  Course, Step, ok, fail, ◌>>=◌, pure, refuse, Comes, Comes-bind, Comes-if, Comes-mono,
}
use ssemaphore.Contract.Decoding.{JsonDecoder, Consumes}
use ssemaphore.Contract.Ending.{validate_json_document_total}
use ssemaphore.Contract.Escapes.{valid_unicode_escapes}
use ssemaphore.Contract.Verdict.{verdict}
use ssemaphore.Contract.Json.{max_json_depth, validate_json_document}
use ssemaphore.Contract.Escaping.{valid_unicode_escapes-Comes}
use ssemaphore.Contract.Sse.Wire.{add64}
use ssemaphore.Contract.Objects.{scanned}
use ssemaphore.Contract.Members.{not-false, StepAll, scanned-Comes, scanned-verdict}
use ssemaphore.Contract.Request.Types.{
  Parser, ParseFailure, context_error, parse_error, Decoded, Request,
}
use ssemaphore.Contract.Request.Reading.{decode_request}
use ssemaphore.Contract.Request.Parsing.{
  reservation_units, with_units, check, open_body, unless_refused, validate_body, reserve,
  decode_body, parse_body, parse,
}
use ssemaphore.Contract.Request.Fields.{Decent, decode_request-Decent}
use ssemaphore.HttpApi.Limits.{multiply}

-- The reservation is the exact sum, positive and within the maximum.
abbrev pub Reserved : ℕ → ℕ → ℕ → ℕ → Step Reason ℕ → Type 0
Reserved body_bytes tokens weight maximum (ok units) =
    (units ≡ body_bytes + weight * tokens) × (0 < units) × (units ≤ maximum)
Reserved body_bytes tokens weight maximum (fail r) = Unit {0}

reservation_units-Reserved :
    (body_bytes tokens weight maximum : ℕ)
    → Reserved body_bytes tokens weight maximum (reservation_units body_bytes tokens weight maximum)
unfolding reservation_units multiply add64
reservation_units-Reserved body_bytes tokens weight maximum =
    if-split (Reserved body_bytes tokens weight maximum) (ltb 0 ((weight * tokens) / u64_mod)) _ _
      (λ _. tt)
      (λ low.
        let small : (weight * tokens) / u64_mod ≡ 0 = ground arith in
        let word : u64 (weight * tokens) ≡ weight * tokens = omega arith in
        if-split (Reserved body_bytes tokens weight maximum)
          (leb u64_mod (body_bytes + u64 (weight * tokens))
            || u64 (body_bytes + u64 (weight * tokens)) == 0)
          _ _ (λ _. tt)
          (λ nonzero.
            let carried : body_bytes + u64 (weight * tokens) < u64_mod = ground arith in
            let sum : u64 (body_bytes + u64 (weight * tokens)) ≡ body_bytes + weight * tokens =
              omega arith in
            if-split (Reserved body_bytes tokens weight maximum)
              (ltb maximum (u64 (body_bytes + u64 (weight * tokens)))) _ _ (λ _. tt)
              (λ fits. (sum, ground arith, ground arith))))

module _ (p : Parser) where
  -- A request that holds the body as it was read, within every limit of the parser.
  abbrev pub Accepted : List ℕ → Request → Type 0
  Accepted body r =
      (r.body ≡ body)
      × (r.body_bytes ≡ length body)
      × (length body ≤ p.limits.max_body_bytes)
      × Decent p r.decoded
      × (r.reservation_units
          ≡ length body + p.limits.completion_weight * r.decoded.max_completion_tokens)
      × (0 < r.reservation_units)
      × (r.reservation_units ≤ p.limits.max_request_units)

  with_units-Accepted :
      (d : Decoded) (body : List ℕ) (r : Step Reason ℕ) (n : ℕ)
      → length body ≤ p.limits.max_body_bytes
      → Decent p d
      → Reserved
          (length body)
          d.max_completion_tokens
          p.limits.completion_weight
          p.limits.max_request_units
          r
      → Comes (with_units d body r n) (λ request m. Accepted body request)
  with_units-Accepted d body (ok units) n short decent (exact, some_unit, fits) =
      (refl, refl, short, decent, exact, some_unit, fits)
  with_units-Accepted d body (fail r) n short decent reserved = tt

  module _ {S : Type 0} (j : JsonDecoder S) (size : S → ℕ) (law : Consumes j size)
      (utf8_valid : List ℕ → Bool) (read_all : ℕ → List ℕ × Bool) (ctx : ℕ → Bool) where
    failing :
        (b : Bool) (n : ℕ)
        → Comes {E = ParseFailure}
            (some (if b then fail context_error else ok tt, n))
            (λ u m. Unit {0})
    failing true n = tt
    failing false n = tt

    check-Comes : (n : ℕ) → Comes (check j utf8_valid read_all ctx p n) (λ u m. Unit {0})
    unfolding check
    check-Comes n = failing (ctx n) (n + 1)

    checked :
        {B : Type 0} (f : Course ParseFailure ℕ B) (n : ℕ) (Q : B → ℕ → Type 0)
        → ((m : ℕ) → Comes (f m) Q)
        → Comes ((check j utf8_valid read_all ctx p >>= λ _. f) n) Q
    checked f n Q h =
        Comes-bind (check j utf8_valid read_all ctx p n) (λ _. f) (λ u m. Unit {0}) Q
          (check-Comes n) (λ u m _. h m)

    -- The body is valid UTF-8, and the scan of its JSON accepted it.
    abbrev pub Strict : List ℕ → Type 0
    Strict body =
        (utf8_valid body ≡ true)
        × ((k : ℕ) × (verdict (validate_json_document j ctx max_json_depth body k) ≡ some none))

    unless_refused-Strict :
        (Q : Type 0) (r : Step Reason (Unit {0})) (n : ℕ)
        → StepAll (λ u. Q) r
        → Comes (unless_refused j utf8_valid read_all ctx p r n) (λ u m. Q)
    unless_refused-Strict Q (ok u) n q =
        Comes-mono (check j utf8_valid read_all ctx p n) _ _ (check-Comes n) (λ u m _. q)
    unless_refused-Strict Q (fail r) n q =
        checked (refuse (parse_error invalid_request r)) n _ (λ m. tt)

    validate_body-Strict :
        (body : List ℕ) (n : ℕ)
        → Comes (validate_body j utf8_valid read_all ctx p body n) (λ u m. Strict body)
    unfolding validate_body
    validate_body-Strict body n =
        Comes-if (not (utf8_valid body)) (refuse (parse_error invalid_request invalid_utf8)) _ n _
          (λ _. tt)
          (λ utf8. checked _ n _ (λ n₁.
            Comes-bind (valid_unicode_escapes ctx body n₁) _ (λ b m. Unit {0}) _
              (valid_unicode_escapes-Comes ctx body ParseFailure n₁)
              (λ valid n₂ _.
                Comes-if (not valid) _ _ n₂ _
                  (λ _.
                    checked (refuse (parse_error invalid_request invalid_unicode_escape)) n₂ _
                      (λ m. tt))
                  (λ _. checked _ n₂ _ (λ n₃.
                    Comes-bind (scanned (validate_json_document j ctx max_json_depth body n₃)) _
                      (λ r m. StepAll (λ u. Strict body) r) _
                      (scanned-verdict ParseFailure (Strict body)
                        (validate_json_document j ctx max_json_depth body n₃)
                        (λ accepts. (not-false (utf8_valid body) utf8, (n₃, accepts)))
                        (validate_json_document_total j size law ctx max_json_depth body n₃))
                      (λ r n₄ strict. unless_refused-Strict (Strict body) r n₄ strict))))))

    reserve-Accepted :
        (body : List ℕ) (r : Step Reason Decoded) (n : ℕ)
        → length body ≤ p.limits.max_body_bytes
        → StepAll (Decent p) r
        → Comes (reserve j utf8_valid read_all ctx p body r n) (λ request m. Accepted body request)
    reserve-Accepted body (fail r) n short h = tt
    reserve-Accepted body (ok d) n short decent =
        Comes-bind (with_units d body _ n) _ (λ request m. Accepted body request) _
          (with_units-Accepted d body _ n short decent (
            reservation_units-Reserved (length body) d.max_completion_tokens
              p.limits.completion_weight p.limits.max_request_units))
          (λ request m accepted. checked (pure request) m _ (λ _. accepted))

    decode_body-Accepted :
        (body : List ℕ) (n : ℕ)
        → length body ≤ p.limits.max_body_bytes
        → Comes
            (decode_body j utf8_valid read_all ctx p body n)
            (λ request m. Accepted body request)
    unfolding decode_body
    decode_body-Accepted body n short =
        Comes-bind
          (scanned (
            decode_request j ctx p (suc (length body))
              (open_body j utf8_valid read_all ctx p body n)))
          _ (λ r m. StepAll (Decent p) r) _
          (scanned-Comes ParseFailure (Decent p)
            (decode_request j ctx p (suc (length body))
              (open_body j utf8_valid read_all ctx p body n))
            (decode_request-Decent p j size law ctx (suc (length body)) _
              (omega (arith, law.start_le body))))
          (λ r n₁ decent.
            checked (reserve j utf8_valid read_all ctx p body r) n₁ _
              (λ n₂. reserve-Accepted body r n₂ short decent))

    parse_body-Accepted :
        (body : List ℕ) (read_error : Bool) (n : ℕ)
        → Comes
            (parse_body j utf8_valid read_all ctx p body read_error n)
            (λ request m. Accepted body request × Strict body)
    unfolding parse_body
    parse_body-Accepted body read_error n =
        Comes-if (ltb p.limits.max_body_bytes (length body))
          (refuse (parse_error request_too_large body_bytes_limit)) _ n _ (λ _. tt)
          (λ fits. checked _ n _ (λ n₁.
            Comes-if read_error (refuse (parse_error body_read_failure read_failure)) _ n₁ _
              (λ _. tt)
              (λ _.
                Comes-bind (validate_body j utf8_valid read_all ctx p body n₁) _
                  (λ u m. Strict body) _ (validate_body-Strict body n₁)
                  (λ u n₂ strict.
                    Comes-mono (decode_body j utf8_valid read_all ctx p body n₂) _ _
                      (decode_body-Accepted body n₂ (ground arith))
                      (λ request m accepted. (accepted, strict))))))

    -- `Parse` comes to a request or a refusal, within the fuel of its loops, whatever the reader, the
    -- decoder and the context give, if a token takes some of what is left of the body. A request holds
    -- the body exactly as it was read, which is valid UTF-8, passes the scan of its JSON and is no longer
    -- than the limit; it is for the public model, has one message at least and keeps to the limits on
    -- messages, on the bytes of their texts and on completion tokens, and reserves the body's bytes and
    -- the weighted completion tokens exactly, more than none and at most the maximum.
    pub parse-Accepted :
        (n : ℕ)
        → Comes (parse j utf8_valid read_all ctx p n) (λ request m.
          Accepted (read_all (p.limits.max_body_bytes + 1)).0 request
          × Strict (read_all (p.limits.max_body_bytes + 1)).0)
    unfolding parse
    parse-Accepted n =
        parse_body-Accepted (read_all (p.limits.max_body_bytes + 1)).0
          (read_all (p.limits.max_body_bytes + 1)).1 n
