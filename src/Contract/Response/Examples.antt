-- ===== src/Contract/Response/Examples.antt =====
-- internal/contract/response.go: a response with its field `object` alone.
use ssemaphore.Prelude.{some, refl, ℕ, ◌≤◌, ◌≡◌, true, false, List, [], ◌∷◌, length}
use ssemaphore.Contract.Course.{Comes, ok}
use ssemaphore.Contract.Decoding.{bytes_eq, close, has_key, more, raw_token, settle_token, token}
use ssemaphore.Contract.Documents.{Value, Gives, object, field, text, end, tokens}
use ssemaphore.Contract.Escapes.{polled, escapes, valid_unicode_escapes}
use ssemaphore.Contract.Json.{end_scan, scan_value, tail_of, validate_json_document}
use ssemaphore.Contract.Objects.{object_key, object_fields, validate_object}
use ssemaphore.Contract.Scenes.{letters, letters-Consumes}
use ssemaphore.Contract.Response.{
  chat_completion_object, parse_response, validate_response, document, completion,
  validate_chat_completion_object, check,
}
use ssemaphore.Contract.Response.Validated.{IsCompletion, parse_response-Completion}

abbrev body : List ℕ
body = b'{' ∷ b'o' ∷ b'k' ∷ b'}' ∷ []

abbrev completion_document : Value
completion_document = object (field object_key (text chat_completion_object) end)

completion-Gives : Gives letters (letters.start body) (tokens completion_document [])
unfolding tokens
completion-Gives = (refl, refl, (refl, refl, (refl, refl, (refl, refl, (refl, refl)))))

parse_response-Completion_example :
    Comes (parse_response letters (λ b. true) (λ n. false) 10 (λ n. (body, false)) 0) (λ response m.
      (response.body ≡ body)
      × (length response.body ≤ 10)
      × (true ≡ true)
      × IsCompletion completion_document [])
parse_response-Completion_example =
    parse_response-Completion letters _ letters-Consumes (λ b. true) (λ n. false) (λ n. refl) 10
      (λ n. (body, false)) 0 completion_document [] completion-Gives

-- The response is accepted.
accepts_body :
    parse_response letters (λ b. true) (λ n. false) 10 (λ n. (body, false)) 0
    ≡ some (ok (record { body = body }), 27)
unfolding parse_response validate_response document completion validate_chat_completion_object check
    object_fields validate_object bytes_eq close has_key more raw_token settle_token token polled
    escapes valid_unicode_escapes end_scan scan_value tail_of validate_json_document
accepts_body = refl
