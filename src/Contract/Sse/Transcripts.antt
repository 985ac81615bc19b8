-- ===== src/Contract/Sse/Transcripts.antt =====
-- internal/contract/sse.go: what holds of a stream after any calls, proved a call at a time.
use ssemaphore.Prelude.{
  ℕ, ◌+◌, ◌≤◌, ◌≡◌, refl, sym, ap, subst, ◌∙◌, Bool, true, false, Option, none, some, List, [], ◌∷◌,
  ◌++◌, arith, if◌then◌else◌, length, length-append, Ensures, Ensures-bind,
}
use ssemaphore.Contract.Course.{Step, ok, fail, Holds}
use ssemaphore.Contract.Decoding.{JsonDecoder, Consumes}
use ssemaphore.Contract.Sse.Wire.{
  WireReader, ReadEnd, found, at_eof, buffer_full, broken, SseFailure, Frame, over,
}
use ssemaphore.Contract.Sse.Decoder.{
  SseEventKind, chunk_event, done_event, ValidatedSseEvent, SseDecoderState, decoder_open,
  decoder_done_returned, decoder_verified, decoder_failed, SseDecoder, NextError, frame_of,
  with_frame, settle_event, next_state, next_in, next, verify_in, verify_read, verify_eof,
  trailing_byte,
}
use ssemaphore.Contract.Sse.Lines.{WireLaws, over-exact}
use ssemaphore.Contract.Sse.Events.{Finished, Slack, Counts, read_event-Finished}
use ssemaphore.HttpApi.Limits.{SseLimits}
use ssemaphore.Contract.Sse.Streams.{
  Call, next_call, verify_call, bodies, AllChunks, Fit, Complete, append_nil, bodies-append,
  bodies-append_one, AllChunks-append_one, Fit-append_one, Stream, collect, keep, call, calls,
}

module _ {R S : Type 0} (w : WireReader R) (growth : ℕ → ℕ) (utf8_valid : List ℕ → Bool)
    (j : JsonDecoder S) (limits : SseLimits) (size : S → ℕ) (law : Consumes j size)
    (remaining : R → List ℕ) (laws : WireLaws w remaining) (wire : List ℕ) where
  -- The counters are those of the events given.
  abbrev Counted : List ValidatedSseEvent → ℕ → SseDecoder R → Type 0
  Counted es front d =
      (d.total_bytes ≡ length (bodies es)) × (d.events ≡ length es) × (d.chunks ≡ front)

  abbrev pub InState : List ValidatedSseEvent → SseDecoderState → SseDecoder R → Type 0
  InState es decoder_open d =
      (bodies es ++ remaining d.reader ≡ wire) × AllChunks es × Counted es (length es) d
  InState es decoder_done_returned d =
      (bodies es ++ remaining d.reader ≡ wire)
      × Complete es
      × (d.total_bytes ≡ length (bodies es))
      × (d.events ≡ length es)
  InState es decoder_verified d =
      (bodies es ≡ wire)
      × Complete es
      × (d.total_bytes ≡ length (bodies es))
      × (d.events ≡ length es)
  InState es (decoder_failed e) d = (rest : List ℕ) × (bodies es ++ rest ≡ wire)

  abbrev pub Limited : SseDecoder R → Type 0
  Limited d =
      (d.total_bytes ≤ limits.max_total_bytes)
      × (d.events ≤ limits.max_events)
      × (d.chunks ≤ d.events)

  -- A stream in its state, and within its limits.
  abbrev Kept : Stream w growth utf8_valid j limits → Type 0
  Kept (es, d) = InState es d.state d × Limited d

  abbrev pub Sound : Stream w growth utf8_valid j limits → Type 0
  Sound (es, d) = Kept (es, d) × Fit limits.max_event_bytes es

  settle_event-Kept :
      (es : List ValidatedSseEvent) (d : SseDecoder R) (event : ValidatedSseEvent) (fr : Frame R)
      (k : SseEventKind)
      → event.kind ≡ k
      → InState es decoder_open d
      → event.body ++ remaining fr.reader ≡ remaining d.reader
      → fr.total_bytes ≡ d.total_bytes + length event.body
      → fr.total_bytes ≤ limits.max_total_bytes
      → fr.events ≤ limits.max_events
      → Counts w growth utf8_valid j limits size law remaining laws d.events d.chunks k fr
      → Kept (es ++ (event ∷ []), with_frame fr (next_state k))
  unfolding with_frame
  settle_event-Kept es d event fr k is_k (bytes, all, (total, count, chunks)) bytes' total' most top
        counts =
      let joined : bodies (es ++ (event ∷ [])) ++ remaining fr.reader ≡ wire =
        bodies-append_one es event (remaining fr.reader)
        ∙ ap (λ x. bodies es ++ x) bytes'
        ∙ bytes in
      let longer : length (bodies (es ++ (event ∷ []))) ≡ length (bodies es) + length event.body =
        ap length (bodies-append es (event ∷ []))
        ∙ length-append (bodies es) (event.body ++ [])
        ∙ ap (λ n. length (bodies es) + n) (length-append event.body [] ∙ omega arith) in
      let one_more : length (es ++ (event ∷ [])) ≡ length es + 1 = length-append es (event ∷ []) in
      go k is_k counts joined longer one_more
    where
      go :
          (k : SseEventKind)
          → event.kind ≡ k
          → Counts w growth utf8_valid j limits size law remaining laws d.events d.chunks k fr
          → bodies (es ++ (event ∷ [])) ++ remaining fr.reader ≡ wire
          → length (bodies (es ++ (event ∷ []))) ≡ length (bodies es) + length event.body
          → length (es ++ (event ∷ [])) ≡ length es + 1
          → Kept (es ++ (event ∷ []), with_frame fr (next_state k))
      go chunk_event is_k (ev, ch) joined longer one_more = (
        (joined, AllChunks-append_one es event all is_k, (omega arith, omega arith, omega arith)),
        (most, top, omega arith),
      )
      go done_event is_k (ev, ch, some_chunk) joined longer one_more = (
        (joined, (es, event, refl, all, omega arith, is_k), omega arith, omega arith),
        (most, top, omega arith),
      )

  settle-Sound :
      (es : List ValidatedSseEvent) (d : SseDecoder R) (ctx : ℕ → Bool) (few : d.chunks ≤ d.events)
      (o : Option (Step SseFailure ValidatedSseEvent × Frame R))
      → InState es decoder_open d
      → d.events ≤ limits.max_events
      → Fit limits.max_event_bytes es
      → Holds o
          (Finished w growth utf8_valid j limits size law remaining laws ctx
            (remaining d.reader)
            d.total_bytes
            d.events
            d.chunks
            few)
          (Slack w growth utf8_valid j limits size law remaining laws)
      → Ensures (collect w growth utf8_valid j limits es (settle_event o)) Sound
  unfolding settle_event with_frame
  settle-Sound es d ctx few none inside high fit h = h
  settle-Sound es d ctx few (some (fail e, fr)) (bytes, all, (total, count, chunks)) high fit h =
      (((remaining d.reader, bytes), h), fit)
  settle-Sound es d ctx few (some (ok event, fr)) inside high fit
        (bytes, total, most, long, top, counts) =
      (
        settle_event-Kept es d event fr event.kind refl inside bytes total most top counts,
        Fit-append_one limits.max_event_bytes es event fit long,
      )

  next-Sound :
      (ctx : ℕ → Bool) (es : List ValidatedSseEvent) (d : SseDecoder R) (st : SseDecoderState)
      → d.state ≡ st
      → InState es st d
      → Limited d
      → Fit limits.max_event_bytes es
      → Ensures
          (collect w growth utf8_valid j limits es (next_in w growth utf8_valid j limits ctx st d))
          Sound
  unfolding frame_of
  next-Sound ctx es d decoder_open is inside (a, b, c) fit =
      settle-Sound es d ctx c _ inside b fit (
        read_event-Finished w growth utf8_valid j limits size law remaining laws ctx
          (remaining d.reader) d.total_bytes d.events d.chunks c (frame_of limits d)
          (refl, refl, (omega arith, omega arith, omega arith), (a, refl, refl)) b)
  next-Sound ctx es d decoder_done_returned is inside limited fit = ((rw is inside, limited), fit)
  next-Sound ctx es d decoder_verified is inside limited fit = ((rw is inside, limited), fit)
  next-Sound ctx es d (decoder_failed e) is inside limited fit = ((rw is inside, limited), fit)

  keep-if :
      (es : List ValidatedSseEvent) (b : Bool)
      (x y : Option (Step NextError (Unit {0}) × SseDecoder R))
      → (b ≡ true → Ensures (keep w growth utf8_valid j limits es x) Sound)
      → (b ≡ false → Ensures (keep w growth utf8_valid j limits es y) Sound)
      → Ensures (keep w growth utf8_valid j limits es (if b then x else y)) Sound
  keep-if es true x y h k = h refl
  keep-if es false x y h k = k refl

  module _ (ctx : ℕ → Bool) (es : List ValidatedSseEvent)
      (fit : Fit limits.max_event_bytes es) where
    trailing_byte-Sound :
        (d : SseDecoder R)
        → ((rest : List ℕ) × (bodies es ++ rest ≡ wire))
        → Limited d
        → Ensures
            (keep w growth utf8_valid j limits es
              (trailing_byte w growth utf8_valid j limits ctx d))
            Sound
    unfolding trailing_byte
    trailing_byte-Sound d prefix (a, b, c) =
        keep-if es (over limits.max_total_bytes d.total_bytes 1) _ _
          (λ _. ((prefix, (a, b, c)), fit))
          (λ fits.
            let (exact, low) = over-exact limits.max_total_bytes d.total_bytes 1 fits in
            keep-if es (ctx 1) _ _ (λ _. ((prefix, (omega arith, b, c)), fit))
              (λ _. ((prefix, (omega arith, b, c)), fit)))

    verify_read-Sound :
        (ending : ReadEnd) (d : SseDecoder R)
        → ((rest : List ℕ) × (bodies es ++ rest ≡ wire))
        → Limited d
        → (ending ≡ at_eof → InState es decoder_verified d)
        → Ensures
            (keep w growth utf8_valid j limits es
              (verify_read w growth utf8_valid j limits ctx ending d))
            Sound
    verify_read-Sound found d prefix limited h = trailing_byte-Sound d prefix limited
    verify_read-Sound at_eof d prefix limited h =
        keep-if es (ctx 1) _ _ (λ _. ((prefix, limited), fit)) (λ _. ((h refl, limited), fit))
    verify_read-Sound buffer_full d prefix limited h =
        keep-if es (ctx 1) _ _ (λ _. ((prefix, limited), fit)) (λ _. ((prefix, limited), fit))
    verify_read-Sound broken d prefix limited h =
        keep-if es (ctx 1) _ _ (λ _. ((prefix, limited), fit)) (λ _. ((prefix, limited), fit))

    verify-Sound :
        (d : SseDecoder R) (st : SseDecoderState)
        → d.state ≡ st
        → InState es st d
        → Limited d
        → Ensures
            (keep w growth utf8_valid j limits es (verify_in w growth utf8_valid j limits ctx st d))
            Sound
    verify-Sound d decoder_open is (bytes, all, counts) limited =
        (((remaining d.reader, bytes), limited), fit)
    verify-Sound d decoder_verified is inside limited = ((rw is inside, limited), fit)
    verify-Sound d (decoder_failed e) is inside limited = ((rw is inside, limited), fit)
    verify-Sound d decoder_done_returned is (bytes, full, total, count) limited =
        keep-if es (ctx 0) _ _ (λ _. (((remaining d.reader, bytes), limited), fit))
          (λ _.
            verify_read-Sound (w.read_byte d.reader).0
              (record d { reader = (w.read_byte d.reader).1 }) (remaining d.reader, bytes) limited
              (λ ends. (
                sym (append_nil (bodies es))
                    ∙ subst (λ x. bodies es ++ x ≡ wire) (laws.eof_none d.reader ends) bytes,
                full,
                total,
                count,
              )))

  call-Sound :
      (c : Call) (s : Stream w growth utf8_valid j limits)
      → Sound s
      → Ensures (call w growth utf8_valid j limits c s) Sound
  unfolding call next verify_eof
  call-Sound (next_call ctx) (es, d) ((inside, limited), fit) =
      next-Sound ctx es d d.state refl inside limited fit
  call-Sound (verify_call ctx) (es, d) ((inside, limited), fit) =
      verify-Sound ctx es fit d d.state refl inside limited

  pub calls-Sound :
      (cs : List Call) (s : Stream w growth utf8_valid j limits)
      → Sound s
      → Ensures (calls w growth utf8_valid j limits cs s) Sound
  unfolding calls
  calls-Sound [] s h = h
  calls-Sound (c ∷ cs) s h =
      Ensures-bind (call w growth utf8_valid j limits c s) _ Sound Sound (call-Sound c s h)
        (calls-Sound cs)
