-- ===== src/Contract/Request/Types.antt =====
-- internal/contract/request.go: the data of a request, the limits on it, and the words that decode.go
-- looks for.
use ssemaphore.Prelude.{ℕ, List, [], ◌∷◌}
use ssemaphore.Contract.Reason.{ErrorClass, Reason}

pub record Limits : Type 0 where
  pub max_body_bytes : ℕ
  pub max_message_count : ℕ
  pub max_message_text_bytes : ℕ
  pub max_completion_tokens : ℕ
  pub completion_weight : ℕ
  pub max_request_units : ℕ

pub record Parser : Type 0 where
  pub public_model : List ℕ
  pub limits : Limits

-- What a refused request is told: the context's error, or a class with a reason.
pub data ParseFailure : Type 0 where
  context_error : ParseFailure
  parse_error : ErrorClass → Reason → ParseFailure

pub data Role : Type 0 where
  developer system user assistant : Role

pub record Message : Type 0 where
  pub role : Role
  pub content : List ℕ

pub data RequestMode : Type 0 where
  non_streaming streaming : RequestMode

-- A request as `decodeRequest` leaves it, and the fields that `Parse` adds.
pub record Decoded : Type 0 where
  pub model : List ℕ
  pub messages : List Message
  pub mode : RequestMode
  pub max_completion_tokens : ℕ
  pub message_text_bytes : ℕ

pub record Request : Type 0 where
  pub decoded : Decoded
  pub body_bytes : ℕ
  pub reservation_units : ℕ
  pub body : List ℕ

abbrev pub model_key : List ℕ
model_key = b'm' ∷ b'o' ∷ b'd' ∷ b'e' ∷ b'l' ∷ []

abbrev pub messages_key : List ℕ
messages_key = b'm' ∷ b'e' ∷ b's' ∷ b's' ∷ b'a' ∷ b'g' ∷ b'e' ∷ b's' ∷ []

abbrev pub max_completion_tokens_key : List ℕ
max_completion_tokens_key =
    b'm' ∷ b'a' ∷ b'x' ∷ b'_' ∷ b'c' ∷ b'o' ∷ b'm' ∷ b'p' ∷ b'l' ∷ b'e' ∷ b't' ∷ b'i' ∷ b'o' ∷ b'n'
    ∷ b'_' ∷ b't' ∷ b'o' ∷ b'k' ∷ b'e' ∷ b'n' ∷ b's' ∷ []

abbrev pub stream_key : List ℕ
stream_key = b's' ∷ b't' ∷ b'r' ∷ b'e' ∷ b'a' ∷ b'm' ∷ []

abbrev pub stream_options_key : List ℕ
stream_options_key =
    b's' ∷ b't' ∷ b'r' ∷ b'e' ∷ b'a' ∷ b'm' ∷ b'_' ∷ b'o' ∷ b'p' ∷ b't' ∷ b'i' ∷ b'o' ∷ b'n' ∷ b's'
    ∷ []

abbrev pub count_key : List ℕ
count_key = b'n' ∷ []

abbrev pub role_key : List ℕ
role_key = b'r' ∷ b'o' ∷ b'l' ∷ b'e' ∷ []

abbrev pub content_key : List ℕ
content_key = b'c' ∷ b'o' ∷ b'n' ∷ b't' ∷ b'e' ∷ b'n' ∷ b't' ∷ []

abbrev pub developer_role : List ℕ
developer_role = b'd' ∷ b'e' ∷ b'v' ∷ b'e' ∷ b'l' ∷ b'o' ∷ b'p' ∷ b'e' ∷ b'r' ∷ []

abbrev pub system_role : List ℕ
system_role = b's' ∷ b'y' ∷ b's' ∷ b't' ∷ b'e' ∷ b'm' ∷ []

abbrev pub user_role : List ℕ
user_role = b'u' ∷ b's' ∷ b'e' ∷ b'r' ∷ []

abbrev pub assistant_role : List ℕ
assistant_role = b'a' ∷ b's' ∷ b's' ∷ b'i' ∷ b's' ∷ b't' ∷ b'a' ∷ b'n' ∷ b't' ∷ []
