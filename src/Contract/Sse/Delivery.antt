-- ===== src/Contract/Sse/Delivery.antt =====
-- internal/contract/sse.go: what a reader of a stream can rely on, from `NewSSEDecoder` on.
use ssemaphore.Prelude.{
  ℕ, ◌≤◌, ◌≡◌, refl, ap, subst, ◌∙◌, Bool, true, false, Option, none, some, List, [], ◌∷◌, ◌++◌,
  arith, length, Ensures, Ensures-some, some-injective, if◌then◌else◌,
}
use ssemaphore.Contract.Course.{Step, ok, fail}
use ssemaphore.Contract.Decoding.{JsonDecoder, Consumes}
use ssemaphore.Contract.Sse.Wire.{WireReader, SseFailure, Frame}
use ssemaphore.Contract.Sse.Decoder.{
  ValidatedSseEvent, SseDecoderState, decoder_open, decoder_done_returned, decoder_verified,
  decoder_failed, SseDecoder, NextError, end_of_stream, verify_eof_required, failed, Limited,
  wire_reader, fresh_decoder, new_sse_decoder, next, next_in, verify_eof, settle_event, with_frame,
}
use ssemaphore.Contract.Sse.Lines.{WireLaws}
use ssemaphore.Contract.Sse.Streams.{
  Call, bodies, Fit, Complete, Stream, calls, call, append_nil, next_call, verify_call,
}
use ssemaphore.Contract.Sse.Transcripts.{Sound, InState, calls-Sound}
use ssemaphore.HttpApi.Limits.{SseLimits, validate_sse_limits}

module _ {R S : Type 0} (w : WireReader R) (growth : ℕ → ℕ) (utf8_valid : List ℕ → Bool)
    (j : JsonDecoder S) (limits : SseLimits) (size : S → ℕ) (law : Consumes j size)
    (remaining : R → List ℕ) (laws : WireLaws w remaining) (limited : Limited R) where
  -- What the decoder reads.
  abbrev reader : R
  reader = wire_reader limited limits

  abbrev Fine : Stream w growth utf8_valid j limits → Type 0
  Fine = Sound w growth utf8_valid j limits size law remaining laws (remaining reader)

  new-Sound : (d : SseDecoder R) → new_sse_decoder (some limited) limits ≡ some d → Fine ([], d)
  unfolding new_sse_decoder
  new-Sound d h = go (validate_sse_limits limits) h
    where
      go : (b : Bool) → (if b then none else some (fresh_decoder reader)) ≡ some d → Fine ([], d)
      go true k = absurd (cc)
      go false k =
          subst (λ x. Fine ([], x)) (some-injective _ _ k)
            (((refl, tt, (refl, refl, refl)), (omega arith, omega arith, omega arith)), tt)

  -- For a reader and a token decoder that keep their laws, every sequence of calls on a new decoder is
  -- answered: no loop runs out of fuel, and no allocation panics.
  pub calls_total :
      (d : SseDecoder R) (cs : List Call)
      → new_sse_decoder (some limited) limits ≡ some d
      → (s : Stream w growth utf8_valid j limits) × (calls w growth utf8_valid j limits cs ([], d)
          ≡ some s)
  calls_total d cs h =
      let (s, e, _) = Ensures-some (calls w growth utf8_valid j limits cs ([], d)) Fine (
        calls-Sound w growth utf8_valid j limits size law remaining laws (remaining reader) cs
          ([], d) (new-Sound d h)) in
      (s, e)

  calls-Fine :
      (d : SseDecoder R) (cs : List Call) (s : Stream w growth utf8_valid j limits)
      → new_sse_decoder (some limited) limits ≡ some d
      → calls w growth utf8_valid j limits cs ([], d) ≡ some s
      → Fine s
  calls-Fine d cs s h e =
      subst (λ o. Ensures o Fine) e
        (calls-Sound w growth utf8_valid j limits size law remaining laws (remaining reader) cs
          ([], d) (new-Sound d h))

  prefix :
      (es : List ValidatedSseEvent) (d : SseDecoder R) (st : SseDecoderState)
      → InState w growth utf8_valid j limits size law remaining laws (remaining reader) es st d
      → (rest : List ℕ) × (bodies es ++ rest ≡ remaining reader)
  prefix es d decoder_open (bytes, all, counts) = (remaining d.reader, bytes)
  prefix es d decoder_done_returned (bytes, full, total, count) = (remaining d.reader, bytes)
  prefix es d decoder_verified (bytes, full, total, count) = ([], append_nil (bodies es) ∙ bytes)
  prefix es d (decoder_failed e) inside = inside

  -- For a reader and a token decoder that keep their laws: after any calls on a new decoder, the bytes
  -- of the events given are a prefix of what its limited reader had to give, each event keeps to the limit on
  -- one, and the counters to theirs.
  pub calls-prefix :
      (d : SseDecoder R) (cs : List Call) (es : List ValidatedSseEvent) (d' : SseDecoder R)
      → new_sse_decoder (some limited) limits ≡ some d
      → calls w growth utf8_valid j limits cs ([], d) ≡ some (es, d')
      → ((rest : List ℕ) × (bodies es ++ rest ≡ remaining reader))
        × Fit limits.max_event_bytes es
        × (d'.total_bytes ≤ limits.max_total_bytes)
        × (d'.events ≤ limits.max_events)
        × (d'.chunks ≤ d'.events)
  calls-prefix d cs es d' h e =
      let ((inside, (a, b, c)), fit) = calls-Fine d cs (es, d') h e in
      (prefix es d' d'.state inside, fit, a, b, c)

  -- For a reader and a token decoder that keep their laws: where calls on a new decoder bring it to
  -- the verified state, the events given are, byte for byte, all that its limited reader had to give, they
  -- keep to the limits on bytes and events, and they are one chunk or more and then the terminal
  -- event.
  pub calls-verified :
      (d : SseDecoder R) (cs : List Call) (es : List ValidatedSseEvent) (d' : SseDecoder R)
      → new_sse_decoder (some limited) limits ≡ some d
      → calls w growth utf8_valid j limits cs ([], d) ≡ some (es, d')
      → d'.state ≡ decoder_verified
      → (bodies es ≡ remaining reader)
        × Complete es
        × (length (remaining reader) ≤ limits.max_total_bytes)
        × (length es ≤ limits.max_events)
  calls-verified d cs es d' h e is =
      let ((inside, (a, b, c)), fit) = calls-Fine d cs (es, d') h e in
      let (bytes, full, total, count) =
        subst
          (λ st.
            InState w growth utf8_valid j limits size law remaining laws (remaining reader) es st
              d')
          is inside in
      let long : length (bodies es) ≡ length (remaining reader) = ap length bytes in
      (bytes, full, omega arith, omega arith)

module _ {R S : Type 0} (w : WireReader R) (growth : ℕ → ℕ) (utf8_valid : List ℕ → Bool)
    (j : JsonDecoder S) (limits : SseLimits) where
  -- A failure that is given is that of the state.
  abbrev Remembers : Option (Step NextError ValidatedSseEvent × SseDecoder R) → Type 0
  Remembers none = Unit {0}
  Remembers (some (ok event, d)) = Unit {0}
  Remembers (some (fail end_of_stream, d)) = Unit {0}
  Remembers (some (fail verify_eof_required, d)) = Unit {0}
  Remembers (some (fail (failed e), d)) = d.state ≡ decoder_failed e

  settled : (o : Option (Step SseFailure ValidatedSseEvent × Frame R)) → Remembers (settle_event o)
  unfolding settle_event with_frame
  settled none = tt
  settled (some (ok event, fr)) = tt
  settled (some (fail e, fr)) = refl

  next-Remembers :
      (ctx : ℕ → Bool) (st : SseDecoderState) (d : SseDecoder R)
      → d.state ≡ st
      → Remembers (next_in w growth utf8_valid j limits ctx st d)
  next-Remembers ctx decoder_open d is = settled _
  next-Remembers ctx decoder_done_returned d is = tt
  next-Remembers ctx decoder_verified d is = tt
  next-Remembers ctx (decoder_failed e) d is = is

  call-failed :
      (c : Call) (es : List ValidatedSseEvent) (d : SseDecoder R) (e : SseFailure)
      → d.state ≡ decoder_failed e
      → call w growth utf8_valid j limits c (es, d) ≡ some (es, d)
  unfolding call next verify_eof
  call-failed (next_call ctx) es d e is = rw is refl
  call-failed (verify_call ctx) es d e is = rw is refl

  calls-failed :
      (cs : List Call) (es : List ValidatedSseEvent) (d : SseDecoder R) (e : SseFailure)
      → d.state ≡ decoder_failed e
      → calls w growth utf8_valid j limits cs (es, d) ≡ some (es, d)
  unfolding calls
  calls-failed [] es d e is = refl
  calls-failed (c ∷ cs) es d e is = rw (call-failed c es d e is) (calls-failed cs es d e is)

  -- Where `Next` gives a failure, no later sequence of calls gives an event or changes anything, and
  -- each later `Next` gives the same failure again.
  pub next-refused :
      (ctx ctx' : ℕ → Bool) (d d' : SseDecoder R) (e : SseFailure) (cs : List Call)
      (es : List ValidatedSseEvent)
      → next w growth utf8_valid j limits ctx d ≡ some (fail (failed e), d')
      → (calls w growth utf8_valid j limits cs (es, d') ≡ some (es, d'))
        × (next w growth utf8_valid j limits ctx' d' ≡ some (fail (failed e), d'))
  unfolding next
  next-refused ctx ctx' d d' e cs es h =
      let is : d'.state ≡ decoder_failed e =
        subst Remembers h (next-Remembers ctx d.state d refl) in
      (calls-failed cs es d' e is, rw is refl)
