-- ===== src/Contract/Response.antt =====
-- internal/contract/response.go: the validation of a response, `Parse`. io.ReadAll on the limited reader is a
-- parameter, with the bytes it gives and whether it gives an error, and so is `utf8.Valid`.
mod Examples
pub mod Validated
use ssemaphore.Prelude.{
  ℕ, suc, ◌+◌, ◌*◌, Bool, true, false, not, Option, none, some, List, [], ◌∷◌, ltb, if◌then◌else◌,
  length,
}
use ssemaphore.Contract.Reason.{Reason}
use ssemaphore.Contract.Reason
use ssemaphore.Contract.Course.{Course, Step, ok, fail, after, ◌>>=◌, pure, refuse}
use ssemaphore.Contract.Decoding.{JsonDecoder, Scan}
use ssemaphore.Contract.Escapes.{valid_unicode_escapes}
use ssemaphore.Contract.Json.{max_json_depth, validate_json_document}
use ssemaphore.Contract.Objects.{ObjectReasons, scanned, validate_object}

pub data ResponseReason : Type 0 where
  body_bytes_limit body_read_failure invalid_utf8 invalid_unicode_escape : ResponseReason
  malformed_json trailing_json duplicate_key nesting_limit : ResponseReason
  root_not_object missing_object wrong_object_type unsupported_object : ResponseReason

-- What a refused response is told: the context's error, or a reason.
pub data ResponseFailure : Type 0 where
  context_error : ResponseFailure
  response_error : ResponseReason → ResponseFailure

-- `ValidatedResponse`, of which only the body is kept.
pub record ValidatedResponse : Type 0 where
  pub body : List ℕ

abbrev pub response_reason_from_json : Reason → ResponseReason
response_reason_from_json Reason.trailing_json = trailing_json
response_reason_from_json Reason.duplicate_key = duplicate_key
response_reason_from_json Reason.nesting_limit = nesting_limit
response_reason_from_json _ = malformed_json

abbrev pub response_reasons : ObjectReasons ResponseReason
response_reasons = record {
  malformed = malformed_json;
  not_object = root_not_object;
  missing = missing_object;
  wrong_type = wrong_object_type;
  unsupported = unsupported_object;
  from_json = response_reason_from_json;
}

abbrev pub chat_completion_object : List ℕ
chat_completion_object =
    b'c' ∷ b'h' ∷ b'a' ∷ b't' ∷ b'.' ∷ b'c' ∷ b'o' ∷ b'm' ∷ b'p' ∷ b'l' ∷ b'e' ∷ b't' ∷ b'i' ∷ b'o'
    ∷ b'n' ∷ []

module _ {S : Type 0} (j : JsonDecoder S) where
  unfoldable pub validate_chat_completion_object :
      (ℕ → Bool) → ℕ → Course ResponseReason (Scan S) (Unit {0})
  validate_chat_completion_object ctx f =
      validate_object j ctx response_reasons chat_completion_object f

  module _ (utf8_valid : List ℕ → Bool) (ctx : ℕ → Bool) where
    unfoldable pub check : Course ResponseFailure ℕ (Unit {0})
    check n = some (if ctx n then fail context_error else ok tt, n + 1)

    -- The refusal of a scan, unless the context was its cause, and the context's error after it.
    abbrev pub unless_refused :
        {E : Type 0}
        → (E → ResponseReason)
        → Step E (Unit {0})
        → Course ResponseFailure ℕ (Unit {0})
    unless_refused reason (ok u) = check
    unless_refused reason (fail r) = check >>= λ _. refuse (response_error (reason r))

    -- The two scans of the body.
    unfoldable pub document : List ℕ → Course ResponseFailure ℕ (Unit {0})
    unfolding check
    document body = (λ n. scanned (validate_json_document j ctx max_json_depth body n)) >>= λ r.
        unless_refused response_reason_from_json r

    unfoldable pub completion : List ℕ → Course ResponseFailure ℕ (Unit {0})
    unfolding check validate_chat_completion_object
    completion body =
        (λ n. scanned (
          validate_chat_completion_object ctx (suc (2 * length body))
            (record { decoder = j.start body; reads = n })))
        >>= λ r. unless_refused (λ reason. reason) r

    unfoldable pub validate_response : List ℕ → Course ResponseFailure ℕ (Unit {0})
    unfolding document completion
    validate_response body =
        if not (utf8_valid body)
        then refuse (response_error invalid_utf8)
        else (check >>= λ _.
            (valid_unicode_escapes ctx body >>= λ valid.
            if not valid
            then (check >>= λ _. refuse (response_error invalid_unicode_escape))
            else (check >>= λ _. (document body >>= λ _. completion body))))

    unfoldable pub parse_response :
        ℕ → (ℕ → List ℕ × Bool) → Course ResponseFailure ℕ ValidatedResponse
    unfolding validate_response
    parse_response max_body_bytes read_all =
        let read = read_all (max_body_bytes + 1) in
        if ltb max_body_bytes (length read.0)
        then refuse (response_error body_bytes_limit)
        else (check >>= λ _.
            if read.1
            then refuse (response_error body_read_failure)
            else (validate_response read.0 >>= λ _. pure (record { body = read.0 })))
