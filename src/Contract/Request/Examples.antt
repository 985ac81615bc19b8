-- ===== src/Contract/Request/Examples.antt =====
-- internal/contract/request.go: a request with one message.
use ssemaphore.Prelude.{ℕ, ◌≡◌, refl, arith, true, false, some, List, [], ◌∷◌}
use ssemaphore.Contract.Course.{ok, Comes}
use ssemaphore.Contract.Request.Parsing.{
  parse, check, validate_body, decode_body, parse_body, reservation_units, new_parser, bad_limits,
  can_overflow, smallest_fits, minimum_json_string_bytes,
}
use ssemaphore.Contract.Request.Reading.{
  decode_request, request_fields, request_field, read_unsigned_integer, parse_unsigned,
  read_messages, message_items, read_message, message_fields, message_field, parse_role,
}
use ssemaphore.Contract.Sse.Wire.{over, add64}
use ssemaphore.Contract.Decoding.{bytes_eq, close, has_key, more, raw_token, settle_token, token}
use ssemaphore.Contract.Escapes.{polled, escapes, valid_unicode_escapes}
use ssemaphore.Contract.Json.{end_scan, scan_value, tail_of, validate_json_document}
use ssemaphore.Contract.Scenes.{letters, letters-Consumes}
use ssemaphore.Contract.Request.Types.{Limits, Parser, user, non_streaming, Request}
use ssemaphore.Contract.Request.Accepted.{Accepted, Strict, parse-Accepted}
use ssemaphore.Contract.Request.Reserving.{reservation_units-exact}
use ssemaphore.HttpApi.Limits.{multiply}

abbrev body : List ℕ
body =
    b'{' ∷ b'm' ∷ b'v' ∷ b's' ∷ b'[' ∷ b'{' ∷ b'r' ∷ b'u' ∷ b'w' ∷ b'v' ∷ b'}' ∷ b']' ∷ b't' ∷ b'1'
    ∷ b'}' ∷ []

abbrev model : List ℕ
model = b'v' ∷ []

abbrev limits : Limits
limits = record {
  max_body_bytes = 200;
  max_message_count = 2;
  max_message_text_bytes = 10;
  max_completion_tokens = 5;
  completion_weight = 3;
  max_request_units = 300;
}

abbrev parser : Parser
parser = record { public_model = model; limits = limits }

abbrev request : Request
request = record {
  decoded = record {
    model = model;
    messages = record { role = user; content = model } ∷ [];
    mode = non_streaming;
    max_completion_tokens = 1;
    message_text_bytes = 1;
  };
  body_bytes = 15;
  reservation_units = 18;
  body = body;
}

-- The request is accepted.
parses :
    parse letters (λ b. true) (λ n. (body, false)) (λ n. false) parser 0 ≡ some (ok request, 86)
unfolding parse check validate_body decode_body parse_body reservation_units decode_request
    request_fields request_field read_unsigned_integer parse_unsigned read_messages message_items
    read_message message_fields message_field parse_role over add64 bytes_eq close has_key more
    raw_token settle_token token polled escapes valid_unicode_escapes end_scan scan_value tail_of
    validate_json_document multiply
parses = refl

parse-Accepted_example :
    Comes (parse letters (λ b. true) (λ n. (body, false)) (λ n. false) parser 0) (λ request m.
      Accepted parser body request
      × Strict parser letters _ letters-Consumes (λ b. true) (λ n. (body, false)) (λ n. false) body)
parse-Accepted_example =
    parse-Accepted parser letters _ letters-Consumes (λ b. true) (λ n. (body, false)) (λ n. false) 0

accepts_parser : new_parser (λ b. true) (λ b. b) model limits ≡ some parser
unfolding new_parser bad_limits can_overflow smallest_fits minimum_json_string_bytes
    reservation_units multiply add64
accepts_parser = refl

reservation_units-exact_example : reservation_units 15 1 3 300 ≡ ok 18
reservation_units-exact_example =
    reservation_units-exact (λ b. true) (λ b. b) model limits parser 15 1 accepts_parser
      (omega arith) (omega arith) (omega arith)
