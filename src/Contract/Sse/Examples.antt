-- ===== src/Contract/Sse/Examples.antt =====
-- internal/contract/sse.go: a stream of one chunk and the terminal event.
use ssemaphore.Prelude.{
  ℕ, ◌≤◌, ◌≡◌, refl, Bool, true, false, Option, none, some, List, [], ◌∷◌, ◌++◌, length,
}
use ssemaphore.Contract.Readers.{take}
use ssemaphore.Contract.Documents.{Value, Gives, object, field, text, end, tokens}
use ssemaphore.Contract.Course.{Step, ok, Comes}
use ssemaphore.Contract.Objects.{object_key}
use ssemaphore.Contract.Sse.Chunk.{chat_completion_chunk_object}
use ssemaphore.Contract.Sse.Completions.{IsChunk, validate_sse_chunk-IsChunk}
use ssemaphore.Contract.Sse.Streams.{call}
use ssemaphore.Contract.Sse.Decoder.{
  next, checked_line, chunk_reason, cut_colon, finish_event, first_line, frame_of, read_event,
  second_line, settle_event, trailing_byte, verify_eof, with_frame, sse_data_value,
}
use ssemaphore.Contract.Sse.Wire.{
  check_context, read_sse_line, line_loop, read_fragment, take_slice, account_bytes, over,
  append_raw, append_sse_bytes, line_of, add64, partial_line, because,
}
use ssemaphore.Contract.Decoding.{bytes_eq, close, has_key, more, raw_token, settle_token, token}
use ssemaphore.Contract.Escapes.{polled, escapes, valid_unicode_escapes}
use ssemaphore.Contract.Json.{end_scan, scan_value, tail_of, validate_json_document}
use ssemaphore.Contract.Objects.{object_fields, validate_object}
use ssemaphore.Contract.Sse.Chunk.{validate_sse_chunk_object, validate_sse_chunk, missing_done}
use ssemaphore.HttpApi.Limits.{validate_sse_limits}
use ssemaphore.Contract.Course.{fail}
use ssemaphore.Contract.Scenes.{letters, letters-Consumes}
use ssemaphore.Contract.Sse.Decoder.{
  SseDecoder, ValidatedSseEvent, chunk_event, done_event, decoder_open, decoder_verified,
  decoder_failed, failed, Limited, new_sse_decoder,
}
use ssemaphore.Contract.Sse.Streams.{bodies, Fit, Complete, Stream, calls}
use ssemaphore.Contract.Sse.Scenes.{
  lines, given, lines-Laws, limits, chunk_bytes, done_bytes, reading,
}
use ssemaphore.Contract.Sse.Delivery.{calls_total, calls-prefix, calls-verified, next-refused}

abbrev wire : List ℕ
wire = chunk_bytes ++ done_bytes

abbrev fresh : SseDecoder (List ℕ)
fresh = record { reader = wire; state = decoder_open; total_bytes = 0; events = 0; chunks = 0 }

abbrev verified : SseDecoder (List ℕ)
verified = record {
  reader = [];
  state = decoder_verified;
  total_bytes = 26;
  events = 2;
  chunks = 1;
}

abbrev given_events : List ValidatedSseEvent
given_events =
    record { kind = chunk_event; body = chunk_bytes }
    ∷ record { kind = done_event; body = done_bytes }
    ∷ []

-- The reader of the wire up to a limit.
abbrev limited : Limited (List ℕ)
limited n size = take n wire

new_fresh : new_sse_decoder (some limited) limits ≡ some fresh
unfolding new_sse_decoder validate_sse_limits
new_fresh = refl

read_whole :
    calls lines (λ n. n) (λ b. true) letters limits reading ([], fresh)
    ≡ some (given_events, verified)
unfolding calls call next checked_line chunk_reason cut_colon finish_event first_line frame_of
    read_event second_line settle_event trailing_byte verify_eof with_frame sse_data_value
    check_context read_sse_line line_loop read_fragment take_slice account_bytes over append_raw
    append_sse_bytes line_of add64 bytes_eq close has_key more raw_token settle_token token polled
    escapes valid_unicode_escapes end_scan scan_value tail_of validate_json_document object_fields
    validate_object validate_sse_chunk_object validate_sse_chunk
read_whole = refl

calls_total_example :
    (s : Stream lines (λ n. n) (λ b. true) letters limits) × (calls lines
        (λ n. n)
        (λ b. true)
        letters
        limits
        reading
        ([], fresh)
      ≡ some s)
calls_total_example =
    calls_total lines (λ n. n) (λ b. true) letters limits _ letters-Consumes given lines-Laws
      limited fresh reading new_fresh

calls-prefix_example :
    ((rest : List ℕ) × (bodies given_events ++ rest ≡ wire))
    × Fit 50 given_events
    × (26 ≤ 100)
    × (2 ≤ 4)
    × (1 ≤ 2)
calls-prefix_example =
    calls-prefix lines (λ n. n) (λ b. true) letters limits _ letters-Consumes given lines-Laws
      limited fresh reading given_events verified new_fresh read_whole

calls-verified_example :
    (bodies given_events ≡ wire)
    × Complete given_events
    × (length wire ≤ 100)
    × (length given_events ≤ 4)
calls-verified_example =
    calls-verified lines (λ n. n) (λ b. true) letters limits _ letters-Consumes given lines-Laws
      limited fresh reading given_events verified new_fresh read_whole refl

abbrev cut_short : SseDecoder (List ℕ)
cut_short = record { reader = []; state = decoder_open; total_bytes = 0; events = 0; chunks = 0 }

abbrev spoilt : SseDecoder (List ℕ)
spoilt = record cut_short { state = decoder_failed (because missing_done) }

next_spoils :
    next lines (λ n. n) (λ b. true) letters limits (λ n. false) cut_short
    ≡ some (fail (failed (because missing_done)), spoilt)
unfolding next partial_line checked_line chunk_reason cut_colon finish_event first_line frame_of
    read_event second_line settle_event with_frame sse_data_value check_context read_sse_line
    line_loop read_fragment take_slice account_bytes over append_raw append_sse_bytes line_of add64
    bytes_eq close has_key more raw_token settle_token token polled escapes valid_unicode_escapes
    end_scan scan_value tail_of validate_json_document object_fields validate_object
    validate_sse_chunk_object validate_sse_chunk
next_spoils = refl

next-refused_example :
    (calls lines (λ n. n) (λ b. true) letters limits reading ([], spoilt) ≡ some ([], spoilt))
    × (next lines (λ n. n) (λ b. true) letters limits (λ n. true) spoilt
        ≡ some (fail (failed (because missing_done)), spoilt))
next-refused_example =
    next-refused lines (λ n. n) (λ b. true) letters limits (λ n. false) (λ n. true) cut_short spoilt
      (because missing_done) reading [] next_spoils

-- The data of an event with its field `object` alone.
abbrev payload : List ℕ
payload = b'{' ∷ b'o' ∷ b'c' ∷ b'}' ∷ []

abbrev chunk_document : Value
chunk_document = object (field object_key (text chat_completion_chunk_object) end)

chunk-Gives : Gives letters (letters.start payload) (tokens chunk_document [])
unfolding tokens
chunk-Gives = (refl, refl, (refl, refl, (refl, refl, (refl, refl, (refl, refl)))))

validate_sse_chunk-IsChunk_example :
    Comes
      (validate_sse_chunk letters (λ n. false) (λ b. true) payload 0)
      (λ u m. (true ≡ true) × IsChunk chunk_document [])
validate_sse_chunk-IsChunk_example =
    validate_sse_chunk-IsChunk letters _ letters-Consumes (λ n. false) (λ n. refl) payload
      chunk_document [] chunk-Gives (λ b. true) 0

abbrev verdict_of : {E A : Type 0} → Option (Step E A × ℕ) → Bool
verdict_of none = false
verdict_of (some (ok a, n)) = true
verdict_of (some (fail e, n)) = false

-- The data is accepted.
accepts_data : verdict_of (validate_sse_chunk letters (λ n. false) (λ b. true) payload 0) ≡ true
unfolding validate_sse_chunk validate_sse_chunk_object bytes_eq close has_key more raw_token
    settle_token token polled escapes valid_unicode_escapes end_scan scan_value tail_of
    validate_json_document object_fields validate_object
accepts_data = refl
