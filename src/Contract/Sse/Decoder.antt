-- ===== src/Contract/Sse/Decoder.antt =====
-- internal/contract/sse.go: `SSEDecoder`, its `Next` and its `VerifyEOF`. The field `failure` is part of the
-- failed state, in which alone it is read. A context is one for each call, and never nil.
use ssemaphore.Prelude.{
  ℕ, ◌+◌, Bool, true, false, not, Option, none, some, List, [], ◌∷◌, ◌==◌, leb, if◌then◌else◌, min,
}
use ssemaphore.Contract.Course.{Course, Step, ok, fail, ◌>>=◌, pure, refuse, or_fail, relabel}
use ssemaphore.Contract.Decoding.{JsonDecoder, bytes_eq}
use ssemaphore.Contract.Sse.Chunk.{
  SseReason, event_count_limit, body_read_failure, invalid_utf8, invalid_line_ending, empty_event,
  unsupported_field, multiple_fields, empty_data, done_before_chunk, truncated_event, missing_done,
  trailing_data, total_bytes_limit, validate_sse_chunk,
}
use ssemaphore.Contract.Sse.Wire.{
  ReadEnd, found, at_eof, buffer_full, broken, WireReader, SseFailure, context_error, because,
  LineError, line_eof, line_failed, Frame, add64, over, check_context, read_sse_line,
}
use ssemaphore.HttpApi.Limits.{SseLimits, validate_sse_limits}

abbrev pub sse_read_buffer_bytes : ℕ
sse_read_buffer_bytes = 4096

pub data SseEventKind : Type 0 where
  chunk_event done_event : SseEventKind

pub record ValidatedSseEvent : Type 0 where
  pub kind : SseEventKind
  pub body : List ℕ

pub data SseDecoderState : Type 0 where
  decoder_open decoder_done_returned decoder_verified : SseDecoderState
  decoder_failed : SseFailure → SseDecoderState

pub record SseDecoder (R : Type 0) : Type 0 where
  pub reader : R
  pub state : SseDecoderState
  pub total_bytes : ℕ
  pub events : ℕ
  pub chunks : ℕ

-- The errors of a call: io.EOF, that of a stream whose end is still to be verified, and a failure.
pub data NextError : Type 0 where
  end_of_stream verify_eof_required : NextError
  failed : SseFailure → NextError

-- bufio.NewReaderSize on io.LimitReader of the caller's reader, as a parameter: what it is for a limit and
-- for the size of its buffer.
abbrev pub Limited : Type 0 → Type 0
Limited R = ℕ → ℕ → R

-- The reader of a new decoder: the wire up to one byte past the limit on all of it.
abbrev pub wire_reader : {R : Type 0} → Limited R → SseLimits → R
wire_reader limited limits =
    limited (limits.max_total_bytes + 1)
      (min sse_read_buffer_bytes (min (limits.max_event_bytes + 1) (limits.max_total_bytes + 1)))

abbrev pub fresh_decoder : {R : Type 0} → R → SseDecoder R
fresh_decoder reader = record {
  reader = reader;
  state = decoder_open;
  total_bytes = 0;
  events = 0;
  chunks = 0;
}

-- `NewSSEDecoder`, where `none` is a nil reader.
unfoldable pub new_sse_decoder :
    {R : Type 0} → Option (Limited R) → SseLimits → Option (SseDecoder R)
new_sse_decoder none limits = none
new_sse_decoder (some limited) limits =
    if validate_sse_limits limits then none else some (fresh_decoder (wire_reader limited limits))

-- bytes.Cut at the first colon.
abbrev pub before_colon : ℕ → Option (List ℕ × List ℕ) → Option (List ℕ × List ℕ)
before_colon c none = none
before_colon c (some (field, value)) = some (c ∷ field, value)

unfoldable pub cut_colon : List ℕ → Option (List ℕ × List ℕ)
cut_colon [] = none
cut_colon (c ∷ cs) =
    let rest = cut_colon cs in if c == b':' then some ([], cs) else before_colon c rest

abbrev pub drop_space : List ℕ → List ℕ
drop_space [] = []
drop_space (c ∷ cs) = if c == b' ' then cs else c ∷ cs

abbrev pub data_field : List ℕ
data_field = b'd' ∷ b'a' ∷ b't' ∷ b'a' ∷ []

abbrev pub done_marker : List ℕ
done_marker = b'[' ∷ b'D' ∷ b'O' ∷ b'N' ∷ b'E' ∷ b']' ∷ []

abbrev pub value_of : Option (List ℕ × List ℕ) → Option (List ℕ)
value_of none = none
value_of (some (field, value)) = if bytes_eq field data_field then some (drop_space value) else none

unfoldable pub sse_data_value : List ℕ → Option (List ℕ)
unfolding cut_colon
sse_data_value line = value_of (cut_colon line)

abbrev pub is_empty : List ℕ → Bool
is_empty [] = true
is_empty (c ∷ cs) = false

-- The failure of a line whose input ends before it.
abbrev pub eof_as : SseReason → LineError → SseFailure
eof_as r line_eof = because r
eof_as r (line_failed e) = e

-- The frame of a call, and the decoder after it.
unfoldable pub frame_of : {R : Type 0} → SseLimits → SseDecoder R → Frame R
frame_of limits d = record {
  reader = d.reader;
  reads = 0;
  total_bytes = d.total_bytes;
  events = d.events;
  chunks = d.chunks;
  raw = [];
  capacity = min limits.max_event_bytes sse_read_buffer_bytes;
  event_bytes = 0;
}

unfoldable pub with_frame : {R : Type 0} → Frame R → SseDecoderState → SseDecoder R
with_frame fr state = record {
  reader = fr.reader;
  state = state;
  total_bytes = fr.total_bytes;
  events = fr.events;
  chunks = fr.chunks;
}

abbrev pub next_state : SseEventKind → SseDecoderState
next_state chunk_event = decoder_open
next_state done_event = decoder_done_returned

unfoldable pub settle_event :
    {R : Type 0}
    → Option (Step SseFailure ValidatedSseEvent × Frame R)
    → Option (Step NextError ValidatedSseEvent × SseDecoder R)
unfolding with_frame
settle_event none = none
settle_event (some (ok event, fr)) = some (ok event, with_frame fr (next_state event.kind))
settle_event (some (fail e, fr)) = some (fail (failed e), with_frame fr (decoder_failed e))

module _ {R S : Type 0} (w : WireReader R) (growth : ℕ → ℕ) (utf8_valid : List ℕ → Bool)
    (j : JsonDecoder S) (limits : SseLimits) where
  module _ (ctx : ℕ → Bool) where
    abbrev pub Event : Type 0 → Type 0
    Event A = Course SseFailure (Frame R) A

    abbrev pub get : Event (Frame R)
    get fr = some (ok fr, fr)

    -- A line, with the checks on it that both lines of an event have.
    unfoldable pub checked_line : SseReason → Event (List ℕ)
    checked_line at_end =
        (λ fr. relabel (eof_as at_end) (read_sse_line w growth limits ctx fr)) >>= λ line.
        (get >>= λ fr.
        if not (utf8_valid fr.raw)
        then refuse (because invalid_utf8)
        else if line.invalid_ending
        then refuse (because invalid_line_ending)
        else pure line.content)

    abbrev pub count_event : Event (Unit {0})
    count_event fr = some (ok tt, record fr { events = fr.events + 1 })

    abbrev pub count_chunk : Event (Unit {0})
    count_chunk fr = some (ok tt, record fr { chunks = fr.chunks + 1 })

    abbrev pub reason_in :
        Frame R
        → Option (Step SseReason (Unit {0}) × ℕ)
        → Option (Step SseFailure (Option SseReason) × Frame R)
    reason_in fr none = none
    reason_in fr (some (ok u, n)) = some (ok none, record fr { reads = n })
    reason_in fr (some (fail r, n)) = some (ok (some r), record fr { reads = n })

    unfoldable pub chunk_reason : List ℕ → Event (Option SseReason)
    chunk_reason payload fr = reason_in fr (validate_sse_chunk j ctx utf8_valid payload fr.reads)

    abbrev pub unless_reason : Option SseReason → Event (Unit {0})
    unless_reason none = pure tt
    unless_reason (some r) = check_context ctx context_error >>= λ _. refuse (because r)

    unfoldable pub finish_event : List ℕ → Event ValidatedSseEvent
    unfolding chunk_reason
    finish_event payload = get >>= λ fr.
        if bytes_eq payload done_marker
        then if fr.chunks == 0
          then refuse (because done_before_chunk)
          else pure (record { kind = done_event; body = fr.raw })
        else (chunk_reason payload >>= λ reason.
            (unless_reason reason >>= λ _.
            (check_context ctx context_error >>= λ _.
            (count_chunk >>= λ _. pure (record { kind = chunk_event; body = fr.raw })))))

    unfoldable pub second_line : List ℕ → Event ValidatedSseEvent
    unfolding finish_event checked_line
    second_line payload = checked_line truncated_event >>= λ content.
        if not (is_empty content)
        then refuse (because multiple_fields)
        else if is_empty payload
        then refuse (because empty_data)
        else (count_event >>= λ _. finish_event payload)

    unfoldable pub first_line : Event (List ℕ)
    unfolding checked_line
    first_line = checked_line missing_done >>= λ content.
        if is_empty content
        then refuse (because empty_event)
        else or_fail (because unsupported_field) (sse_data_value content)

    -- One event of an open decoder.
    unfoldable pub read_event : Event ValidatedSseEvent
    unfolding first_line second_line
    read_event = check_context ctx context_error >>= λ _.
        (get >>= λ fr.
        if leb limits.max_events fr.events
        then refuse (because event_count_limit)
        else (first_line >>= λ payload. second_line payload))

    abbrev pub next_in : SseDecoderState → Course NextError (SseDecoder R) ValidatedSseEvent
    next_in decoder_open d = settle_event (read_event (frame_of limits d))
    next_in decoder_done_returned d = some (fail verify_eof_required, d)
    next_in decoder_verified d = some (fail end_of_stream, d)
    next_in (decoder_failed e) d = some (fail (failed e), d)

    unfoldable pub next : Course NextError (SseDecoder R) ValidatedSseEvent
    unfolding read_event settle_event frame_of
    next d = next_in d.state d

    -- `fail` on the decoder.
    abbrev pub fail_with : SseFailure → Course NextError (SseDecoder R) (Unit {0})
    fail_with e d = some (fail (failed e), record d { state = decoder_failed e })

    -- A byte after the terminal event: `accountBytes` of it alone, and then the refusal.
    unfoldable pub trailing_byte : Course NextError (SseDecoder R) (Unit {0})
    trailing_byte d =
        if over limits.max_total_bytes d.total_bytes 1
        then fail_with (because total_bytes_limit) d
        else (let counted = record d { total_bytes = (add64 d.total_bytes 1).0 } in
            if ctx 1
            then fail_with context_error counted
            else fail_with (because trailing_data) counted)

    abbrev pub verify_read : ReadEnd → Course NextError (SseDecoder R) (Unit {0})
    verify_read found d = trailing_byte d
    verify_read at_eof d =
        if ctx 1
        then fail_with context_error d
        else some (ok tt, record d { state = decoder_verified })
    verify_read buffer_full d =
        if ctx 1 then fail_with context_error d else fail_with (because body_read_failure) d
    verify_read broken d =
        if ctx 1 then fail_with context_error d else fail_with (because body_read_failure) d

    abbrev pub verify_in : SseDecoderState → Course NextError (SseDecoder R) (Unit {0})
    verify_in decoder_verified d = some (ok tt, d)
    verify_in (decoder_failed e) d = some (fail (failed e), d)
    verify_in decoder_open d = fail_with (because missing_done) d
    verify_in decoder_done_returned d =
        if ctx 0
        then fail_with context_error d
        else verify_read (w.read_byte d.reader).0 (record d { reader = (w.read_byte d.reader).1 })

    unfoldable pub verify_eof : Course NextError (SseDecoder R) (Unit {0})
    unfolding trailing_byte
    verify_eof d = verify_in d.state d
