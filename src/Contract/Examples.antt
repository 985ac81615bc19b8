-- ===== src/Contract/Examples.antt =====
-- internal/contract: an escape of four digits, `00E9`, and a document with one key, `{a[]}`.
use ssemaphore.Prelude.{List, ℕ, [], ◌∷◌, ◌≡◌, ◌≤◌, ◌↔◌, refl, some, none, true, false, arith}
use ssemaphore.Contract.Decoding.{JsonToken}
use ssemaphore.Contract.Documents.{
  Value, Gives, object, field, array, nil, end, tokens, first, fault, height, Distinct,
}
use ssemaphore.Contract.Json.{validate_json_document, max_json_depth}
use ssemaphore.Contract.Course.{Comes}
use ssemaphore.Contract.Ending.{validate_json_document_total}
use ssemaphore.Contract.Verdict.{
  verdict, verdict-validate_json_document, validate_json_document_accepts,
}
use ssemaphore.Contract.Scenes.{letters, letters-Consumes}
use ssemaphore.Contract.Hex.{hex_char, decode_hex_quad, decode_hex_quad-exact}

abbrev digits : List ℕ
digits = b'0' ∷ b'0' ∷ b'E' ∷ b'9' ∷ []

decode_hex_quad-exact_example : decode_hex_quad digits 0 ≡ some 233
unfolding hex_char
decode_hex_quad-exact_example =
    decode_hex_quad-exact digits 0 0 0 14 9 true true true true (omega arith) (omega arith)
      (omega arith) (omega arith) refl refl refl refl

abbrev body : List ℕ
body = b'{' ∷ b'a' ∷ b'[' ∷ b']' ∷ b'}' ∷ []

abbrev document : Value
document = object (field (b'a' ∷ []) (array nil) end)

body-Gives : Gives letters (letters.start body) (tokens document [])
unfolding tokens
body-Gives = (refl, refl, (refl, refl, (refl, refl, (refl, refl, (refl, refl, (refl, refl))))))

validate_json_document_total_example :
    Comes (validate_json_document letters (λ n. false) max_json_depth body 0) (λ u s. Unit {0})
validate_json_document_total_example =
    validate_json_document_total letters _ letters-Consumes (λ n. false) max_json_depth body 0

verdict-validate_json_document_example :
    verdict (validate_json_document letters (λ n. false) max_json_depth body 0)
    ≡ some (first (fault max_json_depth 1 document) none)
verdict-validate_json_document_example =
    verdict-validate_json_document letters (λ n. false) (λ n. refl) _ letters-Consumes
      max_json_depth body 0 document [] body-Gives

validate_json_document_accepts_example :
    verdict (validate_json_document letters (λ n. false) max_json_depth body 0) ≡ some none
    ↔ ((height document ≤ max_json_depth) × Distinct document × (◌≡◌ {A = List JsonToken} [] []))
validate_json_document_accepts_example =
    validate_json_document_accepts letters (λ n. false) (λ n. refl) _ letters-Consumes
      max_json_depth body 0 document [] body-Gives
