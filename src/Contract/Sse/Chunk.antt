-- ===== src/Contract/Sse/Chunk.antt =====
-- internal/contract/sse.go: the JSON of one event, `validateSSEChunk`.
use ssemaphore.Prelude.{
  ℕ, suc, ◌*◌, Bool, not, Option, none, some, List, [], ◌∷◌, if◌then◌else◌, length,
}
use ssemaphore.Contract.Reason.{Reason}
use ssemaphore.Contract.Course.{Course, Step, ok, fail, ◌>>=◌, pure, refuse}
use ssemaphore.Contract.Decoding.{JsonDecoder, Scan}
use ssemaphore.Contract.Json.{max_json_depth, validate_json_document}
use ssemaphore.Contract.Objects.{ObjectReasons, count_reads, validate_object}
use ssemaphore.Contract.Escapes.{asked, valid_unicode_escapes}

pub data SseReason : Type 0 where
  total_bytes_limit event_bytes_limit event_count_limit body_read_failure : SseReason
  invalid_utf8 invalid_line_ending empty_event unsupported_field multiple_fields : SseReason
  empty_data invalid_unicode_escape malformed_json trailing_json duplicate_key : SseReason
  nesting_limit root_not_object missing_object wrong_object_type : SseReason
  unsupported_object done_before_chunk truncated_event missing_done trailing_data : SseReason

abbrev pub sse_reason_from_json : Reason → SseReason
sse_reason_from_json Reason.trailing_json = trailing_json
sse_reason_from_json Reason.duplicate_key = duplicate_key
sse_reason_from_json Reason.nesting_limit = nesting_limit
sse_reason_from_json _ = malformed_json

abbrev pub chat_completion_chunk_object : List ℕ
chat_completion_chunk_object =
    b'c' ∷ b'h' ∷ b'a' ∷ b't' ∷ b'.' ∷ b'c' ∷ b'o' ∷ b'm' ∷ b'p' ∷ b'l' ∷ b'e' ∷ b't' ∷ b'i' ∷ b'o'
    ∷ b'n' ∷ b'.' ∷ b'c' ∷ b'h' ∷ b'u' ∷ b'n' ∷ b'k' ∷ []

abbrev pub sse_reasons : ObjectReasons SseReason
sse_reasons = record {
  malformed = malformed_json;
  not_object = root_not_object;
  missing = missing_object;
  wrong_type = wrong_object_type;
  unsupported = unsupported_object;
  from_json = sse_reason_from_json;
}

module _ {S : Type 0} (j : JsonDecoder S) (ctx : ℕ → Bool) where
  unfoldable pub validate_sse_chunk_object : ℕ → Course SseReason (Scan S) (Unit {0})
  validate_sse_chunk_object f = validate_object j ctx sse_reasons chat_completion_chunk_object f

  -- No reason is given for what may be due to the context: the caller asks it again.
  abbrev pub unless_gone : SseReason → Course SseReason ℕ (Unit {0})
  unless_gone r = asked ctx >>= λ gone. if gone then pure tt else refuse r

  abbrev pub json_reason :
      List ℕ → Option (Step Reason (Unit {0}) × ℕ) → Option (Step SseReason (Unit {0}) × ℕ)
  json_reason body none = none
  json_reason body (some (fail r, n)) = unless_gone (sse_reason_from_json r) n
  json_reason body (some (ok u, n)) = count_reads (
      validate_sse_chunk_object (suc (2 * length body))
        (record { decoder = j.start body; reads = n }))

  unfoldable pub validate_sse_chunk : (List ℕ → Bool) → List ℕ → Course SseReason ℕ (Unit {0})
  unfolding validate_sse_chunk_object
  validate_sse_chunk utf8_valid body =
      if not (utf8_valid body)
      then refuse invalid_utf8
      else (valid_unicode_escapes ctx body >>= λ valid.
          if not valid then unless_gone invalid_unicode_escape else (λ n.
            json_reason body (count_reads (validate_json_document j ctx max_json_depth body n))))
