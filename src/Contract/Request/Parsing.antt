-- ===== src/Contract/Request/Parsing.antt =====
-- internal/contract/request.go: `NewParser` and `Parse`. io.ReadAll on the limited reader is a parameter,
-- with the bytes it gives and whether it gives an error, and so are the runes of a text and `utf8.Valid`.
use ssemaphore.Prelude.{
  ℕ, suc, ◌+◌, Bool, true, false, ◌&&◌, ◌||◌, not, Option, none, some, List, [], ◌∷◌, ◌==◌, leb,
  ltb, if◌then◌else◌, length,
}
use ssemaphore.Contract.Reason.{
  Reason, ErrorClass, invalid_request, request_too_large, body_read_failure, body_bytes_limit,
  read_failure, invalid_utf8, invalid_unicode_escape, message_count_limit, message_bytes_limit,
  reservation_overflow, reservation_limit,
}
use ssemaphore.Contract.Course.{Course, Step, ok, fail, ◌>>=◌, pure, refuse}
use ssemaphore.Contract.Decoding.{JsonDecoder, Scan}
use ssemaphore.Contract.Escapes.{valid_unicode_escapes}
use ssemaphore.Contract.Json.{max_json_depth, validate_json_document}
use ssemaphore.Contract.Sse.Wire.{add64}
use ssemaphore.Contract.Request.Types.{
  Limits, Parser, ParseFailure, context_error, parse_error, Decoded, Request,
}
use ssemaphore.Contract.Objects.{scanned}
use ssemaphore.Contract.Request.Reading.{decode_request}
use ssemaphore.HttpApi.Limits.{multiply, max_int}

abbrev pub absolute_max_body_bytes : ℕ
absolute_max_body_bytes = 16777216

abbrev pub absolute_max_model_bytes : ℕ
absolute_max_model_bytes = 1024

unfoldable pub reservation_units : ℕ → ℕ → ℕ → ℕ → Step Reason ℕ
unfolding multiply add64
reservation_units body_bytes completion_tokens completion_weight maximum =
    let product = multiply completion_weight completion_tokens in
    let units = add64 body_bytes product.0 in
    if product.1
    then fail reservation_overflow
    else if units.1 || units.0 == 0
    then fail reservation_overflow
    else if ltb maximum units.0
    then fail reservation_limit
    else ok units.0

-- utf8.RuneLen on the runes of a valid text, and the bytes that JSON takes for one.
abbrev pub rune_len : ℕ → ℕ
rune_len r = if ltb r 128 then 1 else if ltb r 2048 then 2 else if ltb r 65536 then 3 else 4

abbrev pub rune_bytes : ℕ → ℕ
rune_bytes r =
    if r == b'"' || r == b'\\' || r == 8 || r == 12 || r == 10 || r == 13 || r == 9
    then 2
    else if ltb r 32
    then 6
    else rune_len r

unfoldable pub minimum_json_string_bytes : List ℕ → ℕ
minimum_json_string_bytes [] = 2
minimum_json_string_bytes (r ∷ rs) = rune_bytes r + minimum_json_string_bytes rs

abbrev pub is_ok : {E A : Type 0} → Step E A → Bool
is_ok (ok a) = true
is_ok (fail e) = false

-- The length of the smallest request less its model.
abbrev pub smallest_request_bytes : ℕ
smallest_request_bytes = 78

-- Whether the configuration is refused.
unfoldable pub bad_limits : Limits → Bool
bad_limits l =
    l.max_body_bytes == 0
    || ltb absolute_max_body_bytes l.max_body_bytes
    || leb max_int l.max_body_bytes
    || l.max_message_count == 0
    || ltb max_int l.max_message_count
    || l.max_message_text_bytes == 0
    || l.max_completion_tokens == 0
    || l.completion_weight == 0
    || l.max_request_units == 0

unfoldable pub can_overflow : Limits → Bool
unfolding multiply add64
can_overflow l =
    (multiply l.completion_weight l.max_completion_tokens).1
    || (add64 l.max_body_bytes (multiply l.completion_weight l.max_completion_tokens).0).1

unfoldable pub smallest_fits : ℕ → Limits → Bool
unfolding reservation_units
smallest_fits minimum_body_bytes l =
    not (ltb l.max_body_bytes minimum_body_bytes)
    && is_ok (reservation_units minimum_body_bytes 1 l.completion_weight l.max_request_units)

unfoldable pub new_parser : (List ℕ → Bool) → (List ℕ → List ℕ) → List ℕ → Limits → Option Parser
unfolding bad_limits can_overflow smallest_fits minimum_json_string_bytes
new_parser utf8_valid runes public_model limits =
    if length public_model == 0
      || not (utf8_valid public_model)
      || ltb absolute_max_model_bytes (length public_model)
    then none
    else if bad_limits limits || can_overflow limits
    then none
    else if not (
        smallest_fits (minimum_json_string_bytes (runes public_model) + smallest_request_bytes)
          limits)
    then none
    else some (record { public_model = public_model; limits = limits })

-- A refusal of the decoding.
abbrev pub class_of : Reason → ErrorClass
class_of message_count_limit = request_too_large
class_of message_bytes_limit = request_too_large
class_of _ = invalid_request

-- What `Parse` adds to a decoded request.
abbrev pub with_units : Decoded → List ℕ → Step Reason ℕ → Course ParseFailure ℕ Request
with_units d body (ok units) =
    pure (record { decoded = d; body_bytes = length body; reservation_units = units; body = body })
with_units d body (fail r) = refuse (parse_error invalid_request r)

module _ {S : Type 0} (j : JsonDecoder S) (utf8_valid : List ℕ → Bool)
    (read_all : ℕ → List ℕ × Bool) (ctx : ℕ → Bool) (p : Parser) where
  unfoldable pub check : Course ParseFailure ℕ (Unit {0})
  check n = some (if ctx n then fail context_error else ok tt, n + 1)

  abbrev pub open_body : List ℕ → ℕ → Scan S
  open_body body n = record { decoder = j.start body; reads = n }

  -- The refusal of a scan, unless the context was its cause, and the context's error after it.
  abbrev pub unless_refused : Step Reason (Unit {0}) → Course ParseFailure ℕ (Unit {0})
  unless_refused (ok u) = check
  unless_refused (fail r) = check >>= λ _. refuse (parse_error invalid_request r)

  unfoldable pub validate_body : List ℕ → Course ParseFailure ℕ (Unit {0})
  unfolding check
  validate_body body =
      if not (utf8_valid body)
      then refuse (parse_error invalid_request invalid_utf8)
      else (check >>= λ _.
          (valid_unicode_escapes ctx body >>= λ valid.
          if not valid
          then (check >>= λ _. refuse (parse_error invalid_request invalid_unicode_escape))
          else (check >>= λ _.
              ((λ n. scanned (validate_json_document j ctx max_json_depth body n)) >>= λ r.
              unless_refused r))))

  -- The reservation of a decoded request.
  abbrev pub reserve : List ℕ → Step Reason Decoded → Course ParseFailure ℕ Request
  reserve body (fail r) = refuse (parse_error (class_of r) r)
  reserve body (ok d) =
      with_units d body (
        reservation_units (length body) d.max_completion_tokens p.limits.completion_weight
          p.limits.max_request_units)
      >>= λ request. (check >>= λ _. pure request)

  unfoldable pub decode_body : List ℕ → Course ParseFailure ℕ Request
  unfolding check
  decode_body body =
      (λ n. scanned (decode_request j ctx p (suc (length body)) (open_body body n))) >>= λ r.
      (check >>= λ _. reserve body r)

  unfoldable pub parse_body : List ℕ → Bool → Course ParseFailure ℕ Request
  unfolding validate_body decode_body
  parse_body body read_error =
      if ltb p.limits.max_body_bytes (length body)
      then refuse (parse_error request_too_large body_bytes_limit)
      else (check >>= λ _.
          if read_error
          then refuse (parse_error body_read_failure read_failure)
          else (validate_body body >>= λ _. decode_body body))

  -- The limit on what is read is a byte above that of a body.
  unfoldable pub parse : Course ParseFailure ℕ Request
  unfolding parse_body
  parse =
      parse_body (read_all (p.limits.max_body_bytes + 1)).0
        (read_all (p.limits.max_body_bytes + 1)).1
