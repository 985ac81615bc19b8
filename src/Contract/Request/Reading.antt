-- ===== src/Contract/Request/Reading.antt =====
-- internal/contract/decode.go: the decoding of a request. A value with the flag that it was set is an
-- option, and the loops recur on fuel.
use ssemaphore.Prelude.{
  ℕ, zero, suc, ◌+◌, ◌-◌, ◌*◌, Bool, true, false, ◌&&◌, ◌||◌, not, Option, none, some, List, [],
  ◌∷◌, ◌++◌, ◌==◌, leb, ltb, if◌then◌else◌, length, u64_mod,
}
use ssemaphore.Contract.Reason.{
  malformed_json, root_not_object, unknown_field, missing_field, wrong_type, unsupported_value,
  message_count_limit, message_bytes_limit, completion_limit,
}
use ssemaphore.Contract.Course.{◌>>=◌, pure, refuse, or_fail}
use ssemaphore.Contract.Decoding.{
  JsonToken, delim, text, number, flag, null, JsonDecoder, M, token, more, close, as_text, bytes_eq,
  is_delim,
}
use ssemaphore.Contract.Objects.{read_string}
use ssemaphore.Contract.Sse.Wire.{over, add64}
use ssemaphore.Contract.Request.Types.{
  Limits, Parser, Role, developer, system, user, assistant, Message, RequestMode, non_streaming,
  streaming, Decoded, model_key, messages_key, max_completion_tokens_key, stream_key,
  stream_options_key, count_key, role_key, content_key, developer_role, system_role, user_role,
  assistant_role,
}

abbrev pub as_flag : {S : Type 0} → JsonToken → M S Bool
as_flag (flag b) = pure b
as_flag (delim c) = refuse wrong_type
as_flag (text t) = refuse wrong_type
as_flag (number n) = refuse wrong_type
as_flag null = refuse wrong_type

-- strconv.ParseUint on decimal digits: the number, unless it takes more than 64 bits.
abbrev pub is_digit : ℕ → Bool
is_digit c = leb b'0' c && leb c b'9'

abbrev pub all_digits : List ℕ → Bool
all_digits [] = true
all_digits (c ∷ cs) = is_digit c && all_digits cs

abbrev pub decimal : ℕ → List ℕ → ℕ
decimal value [] = value
decimal value (c ∷ cs) = decimal (value * 10 + (c - b'0')) cs

abbrev pub is_empty : List ℕ → Bool
is_empty [] = true
is_empty (c ∷ cs) = false

unfoldable pub parse_unsigned : List ℕ → Option ℕ
parse_unsigned digits =
    if is_empty digits || not (all_digits digits)
    then none
    else if leb u64_mod (decimal 0 digits)
    then none
    else some (decimal 0 digits)

abbrev pub as_unsigned : {S : Type 0} → JsonToken → M S ℕ
as_unsigned (number n) = or_fail wrong_type (parse_unsigned n)
as_unsigned (delim c) = refuse wrong_type
as_unsigned (text t) = refuse wrong_type
as_unsigned (flag b) = refuse wrong_type
as_unsigned null = refuse wrong_type

unfoldable pub parse_role : List ℕ → Option Role
parse_role value =
    if bytes_eq value developer_role
    then some developer
    else if bytes_eq value system_role
    then some system
    else if bytes_eq value user_role
    then some user
    else if bytes_eq value assistant_role
    then some assistant
    else none

-- A message and a request in the course of being read.
pub record MessageDraft : Type 0 where
  pub draft_role : Option Role
  pub draft_content : Option (List ℕ)

pub record RequestDraft : Type 0 where
  pub draft_model : Option (List ℕ)
  pub draft_messages : Option (List Message × ℕ)
  pub draft_tokens : Option ℕ
  pub draft_mode : RequestMode

abbrev pub message_of : Option Role → Option (List ℕ) → Option Message
message_of (some role) (some content) = some (record { role = role; content = content })
message_of (some role) none = none
message_of none content = none

abbrev pub request_of :
    Option (List ℕ) → Option (List Message × ℕ) → Option ℕ → RequestMode → Option Decoded
request_of (some model) (some (messages, bytes)) (some tokens) mode = some (record {
  model = model;
  messages = messages;
  mode = mode;
  max_completion_tokens = tokens;
  message_text_bytes = bytes;
})
request_of (some model) (some m) none mode = none
request_of (some model) none tokens mode = none
request_of none messages tokens mode = none

module _ {S : Type 0} (j : JsonDecoder S) (ctx : ℕ → Bool) where
  unfoldable pub read_boolean : M S Bool
  read_boolean = token j ctx malformed_json >>= λ t. as_flag t

  unfoldable pub read_unsigned_integer : M S ℕ
  read_unsigned_integer = token j ctx malformed_json >>= λ t. as_unsigned t

  -- The field of a message under a key.
  unfoldable pub message_field : List ℕ → MessageDraft → M S MessageDraft
  message_field key draft =
      if bytes_eq key role_key
      then (read_string j ctx malformed_json wrong_type >>= λ v.
          (or_fail unsupported_value (parse_role v) >>= λ role.
          pure (record draft { draft_role = some role })))
      else if bytes_eq key content_key
      then (read_string j ctx malformed_json wrong_type >>= λ v.
          pure (record draft { draft_content = some v }))
      else refuse unknown_field

  unfoldable pub message_fields : ℕ → MessageDraft → M S Message
  message_fields zero draft = λ s. none
  message_fields (suc f) draft = more j ctx >>= λ m.
      if m
      then (token j ctx malformed_json >>= λ t.
          (as_text malformed_json t >>= λ key.
          (message_field key draft >>= λ draft'. message_fields f draft')))
      else (close j ctx malformed_json b'}' >>= λ _.
          or_fail missing_field (message_of draft.draft_role draft.draft_content))

  unfoldable pub read_message : ℕ → M S Message
  read_message f = token j ctx wrong_type >>= λ t.
      if is_delim b'{' t
      then message_fields f (record { draft_role = none; draft_content = none })
      else refuse wrong_type

  module _ (limits : Limits) where
    -- The loop over the messages, with their number and the bytes of their text.
    unfoldable pub message_items : ℕ → List Message → ℕ → M S (List Message × ℕ)
    message_items zero messages bytes = λ s. none
    message_items (suc f) messages bytes = more j ctx >>= λ m.
        if m
        then if leb limits.max_message_count (length messages)
          then refuse message_count_limit
          else (read_message f >>= λ message.
              if over limits.max_message_text_bytes bytes (length message.content)
              then refuse message_bytes_limit
              else message_items f (messages ++ (message ∷ []))
                  (add64 bytes (length message.content)).0)
        else (close j ctx malformed_json b']' >>= λ _.
            if length messages == 0 then refuse unsupported_value else pure (messages, bytes))

    unfoldable pub read_messages : ℕ → M S (List Message × ℕ)
    read_messages f = token j ctx wrong_type >>= λ t.
        if is_delim b'[' t then message_items f [] 0 else refuse wrong_type

  module _ (p : Parser) where
    -- The field of a request under a key.
    unfoldable pub request_field : ℕ → List ℕ → RequestDraft → M S RequestDraft
    request_field f key draft =
        if bytes_eq key model_key
        then (read_string j ctx malformed_json wrong_type >>= λ v.
            if bytes_eq v p.public_model
            then pure (record draft { draft_model = some v })
            else refuse unsupported_value)
        else if bytes_eq key messages_key
        then (read_messages p.limits f >>= λ messages.
            pure (record draft { draft_messages = some messages }))
        else if bytes_eq key max_completion_tokens_key
        then (read_unsigned_integer >>= λ value.
            if value == 0 || ltb p.limits.max_completion_tokens value
            then refuse completion_limit
            else pure (record draft { draft_tokens = some value }))
        else if bytes_eq key stream_key
        then (read_boolean >>= λ stream.
            pure (record draft { draft_mode = if stream then streaming else draft.draft_mode }))
        else if bytes_eq key stream_options_key
        then refuse unsupported_value
        else if bytes_eq key count_key
        then (read_unsigned_integer >>= λ value.
            if value == 1 then pure draft else refuse unsupported_value)
        else refuse unknown_field

    unfoldable pub request_fields : ℕ → RequestDraft → M S Decoded
    request_fields zero draft = λ s. none
    request_fields (suc f) draft = more j ctx >>= λ m.
        if m
        then (token j ctx malformed_json >>= λ t.
            (as_text malformed_json t >>= λ key.
            (request_field f key draft >>= λ draft'. request_fields f draft')))
        else (close j ctx malformed_json b'}' >>= λ _.
            or_fail missing_field (
              request_of draft.draft_model draft.draft_messages draft.draft_tokens
                draft.draft_mode))

    unfoldable pub decode_request : ℕ → M S Decoded
    unfolding request_fields
    decode_request f = token j ctx root_not_object >>= λ t.
        if is_delim b'{' t
        then request_fields f (record {
          draft_model = none;
          draft_messages = none;
          draft_tokens = none;
          draft_mode = non_streaming;
        })
        else refuse root_not_object
