-- ===== src/Contract/Sse/Events.antt =====
-- internal/contract/sse.go: one event of an open decoder, byte for byte and within the limits.
use ssemaphore.Prelude.{
  ℕ, ◌+◌, ◌≤◌, ◌<◌, ◌≡◌, refl, subst, Bool, not, Option, none, some, List, ◌++◌, ◌==◌, leb, arith,
  length,
}
use ssemaphore.Contract.Course.{
  Step, ok, fail, pure, refuse, or_fail, relabel, Holds, Holds-bind, Holds-if, Holds-relabel, Comes,
}
use ssemaphore.Contract.Decoding.{JsonDecoder, Consumes, bytes_eq}
use ssemaphore.Contract.Sse.Chunk.{
  SseReason, event_count_limit, invalid_utf8, empty_event, unsupported_field, multiple_fields,
  empty_data, done_before_chunk, truncated_event, missing_done,
}
use ssemaphore.Contract.Sse.Wire.{
  WireReader, SseFailure, context_error, because, Frame, check_context, read_sse_line,
}
use ssemaphore.Contract.Sse.Decoder.{
  SseEventKind, chunk_event, done_event, ValidatedSseEvent, sse_data_value, done_marker, is_empty,
  eof_as, checked_line, reason_in, chunk_reason, unless_reason, finish_event, second_line,
  first_line, read_event,
}
use ssemaphore.Contract.Sse.Checks.{validate_sse_chunk-Comes}
use ssemaphore.Contract.Sse.Lines.{WireLaws, Kept, read_sse_line-Kept, check_context-Holds}
use ssemaphore.HttpApi.Limits.{SseLimits}

module _ {R S : Type 0} (w : WireReader R) (growth : ℕ → ℕ) (utf8_valid : List ℕ → Bool)
    (j : JsonDecoder S) (limits : SseLimits) (size : S → ℕ) (law : Consumes j size)
    (remaining : R → List ℕ) (laws : WireLaws w remaining) where
  -- The counters within their limits.
  abbrev pub Slack : {E : Type 0} → E → Frame R → Type 0
  Slack e fr =
      (fr.total_bytes ≤ limits.max_total_bytes)
      × (fr.events ≤ limits.max_events)
      × (fr.chunks ≤ fr.events)

  -- How an event leaves the counters, which were `events` and `chunks` before it.
  abbrev pub Counts : ℕ → ℕ → SseEventKind → Frame R → Type 0
  Counts events chunks chunk_event fr = (fr.events ≡ events + 1) × (fr.chunks ≡ chunks + 1)
  Counts events chunks done_event fr =
      (fr.events ≡ events + 1) × (fr.chunks ≡ chunks) × (0 < chunks)

  module _ (ctx : ℕ → Bool) (wire : List ℕ) (base events chunks : ℕ) (few : chunks ≤ events) where
    abbrev Keeps : ℕ → Frame R → Type 0
    Keeps n = Kept w growth limits ctx remaining laws wire base n chunks

    checked_line-Keeps :
        (n : ℕ) (at_end : SseReason) (fr : Frame R)
        → chunks ≤ n
        → n ≤ limits.max_events
        → Keeps n fr
        → Holds
            (checked_line w growth utf8_valid j limits ctx at_end fr)
            (λ c fr'. Keeps n fr')
            Slack
    unfolding checked_line
    checked_line-Keeps n at_end fr low high kept =
        Holds-bind (relabel (eof_as at_end) (read_sse_line w growth limits ctx fr)) _
          (λ l fr'. Keeps n fr') _ Slack Slack
          (Holds-relabel (eof_as at_end) (read_sse_line w growth limits ctx fr) _ _ _
            (read_sse_line-Kept w growth limits ctx remaining laws wire base n chunks fr kept)
            (λ e s (a, b, c). (a, omega arith, omega arith)))
          (λ e s l. l)
          (λ line s (bytes, long, exact, (a, b, c)).
            let slack : Slack (because invalid_utf8) s = (a, omega arith, omega arith) in
            Holds-if (not (utf8_valid s.raw)) _ _ s _ Slack (λ _. slack)
              (λ _.
                Holds-if line.invalid_ending _ (pure line.content) s _ Slack (λ _. slack)
                  (λ _. (bytes, long, exact, (a, b, c)))))

    reason_in-Holds :
        (fr : Frame R) (o : Option (Step SseReason (Unit {0}) × ℕ)) (P : Frame R → Type 0)
        → Comes o (λ u n. Unit {0})
        → ((n : ℕ) → P (record fr { reads = n }))
        → Holds (reason_in w growth utf8_valid j limits ctx fr o) (λ r fr'. P fr') Slack
    reason_in-Holds fr none P h k = h
    reason_in-Holds fr (some (ok u, n)) P h k = k n
    reason_in-Holds fr (some (fail r, n)) P h k = k n

    abbrev pub Finished : ValidatedSseEvent → Frame R → Type 0
    Finished event fr =
        (event.body ++ remaining fr.reader ≡ wire)
        × (fr.total_bytes ≡ base + length event.body)
        × (fr.total_bytes ≤ limits.max_total_bytes)
        × (length event.body ≤ limits.max_event_bytes)
        × (fr.events ≤ limits.max_events)
        × Counts events chunks event.kind fr

    -- After the event was counted, with its bytes.
    abbrev Late : List ℕ → Frame R → Type 0
    Late body fr = Keeps (events + 1) fr × (fr.raw ≡ body)

    module _ (room : events < limits.max_events) where
      Late-Slack : (body : List ℕ) (e : SseFailure) (fr : Frame R) → Late body fr → Slack e fr
      Late-Slack body e fr ((bytes, long, exact, (a, b, c)), same) = (a, omega arith, omega arith)

      unless_reason-Late :
          (o : Option SseReason) (body : List ℕ) (fr : Frame R)
          → Late body fr
          → Holds
              (unless_reason w growth utf8_valid j limits ctx o fr)
              (λ u fr'. Late body fr')
              Slack
      unless_reason-Late none body fr late = late
      unless_reason-Late (some r) body fr late =
          Holds-bind (check_context ctx context_error fr) _ (λ u fr'. Late body fr') _ Slack Slack
            (check_context-Holds ctx context_error fr (Late body) Slack late
              (Late-Slack body context_error fr late))
            (λ e s l. l) (λ u s late'. Late-Slack body (because r) s late')

      counted-Finished :
          (body : List ℕ) (fr : Frame R)
          → Late body fr
          → Finished
              (record { kind = chunk_event; body = body })
              (record fr { chunks = fr.chunks + 1 })
      counted-Finished body fr ((bytes, long, (total, most, fits), (a, b, c)), same) =
          let size : length body ≡ fr.event_bytes =
            subst (λ x. length x ≡ fr.event_bytes) same long in
          (
            subst (λ x. x ++ remaining fr.reader ≡ wire) same bytes,
            omega arith,
            a,
            omega arith,
            omega arith,
            (b, omega arith),
          )

      finish_event-Finished :
          (payload : List ℕ) (fr : Frame R)
          → Keeps (events + 1) fr
          → Holds (finish_event w growth utf8_valid j limits ctx payload fr) Finished Slack
      unfolding finish_event chunk_reason
      finish_event-Finished payload fr (bytes, long, (total, most, fits), (a, b, c)) =
          Holds-if (bytes_eq payload done_marker) _ _ fr Finished Slack
            (λ _.
              Holds-if (fr.chunks == 0) (refuse (because done_before_chunk)) _ fr Finished Slack
                (λ _. (a, omega arith, omega arith))
                (λ some_chunk.
                  (bytes, omega arith, a, omega arith, omega arith, (b, c, ground arith))))
            (λ _.
              Holds-bind (chunk_reason w growth utf8_valid j limits ctx payload fr) _
                (λ r s. Late fr.raw s) _ Slack Slack
                (reason_in-Holds fr _ (Late fr.raw)
                  (validate_sse_chunk-Comes j size law ctx utf8_valid payload fr.reads)
                  (λ n. ((bytes, long, (total, most, fits), (a, b, c)), refl)))
                (λ e s l. l)
                (λ r s₁ late₁.
                  Holds-bind (unless_reason w growth utf8_valid j limits ctx r s₁) _
                    (λ u s. Late fr.raw s) _ Slack Slack (unless_reason-Late r fr.raw s₁ late₁)
                    (λ e s l. l)
                    (λ u s₂ late₂.
                      Holds-bind (check_context ctx context_error s₂) _ (λ u s. Late fr.raw s) _
                        Slack Slack
                        (check_context-Holds ctx context_error s₂ (Late fr.raw) Slack late₂
                          (Late-Slack fr.raw context_error s₂ late₂))
                        (λ e s l. l) (λ u s₃ late₃. counted-Finished fr.raw s₃ late₃))))

      second_line-Finished :
          (payload : List ℕ) (fr : Frame R)
          → Keeps events fr
          → Holds (second_line w growth utf8_valid j limits ctx payload fr) Finished Slack
      unfolding second_line
      second_line-Finished payload fr kept =
          Holds-bind (checked_line w growth utf8_valid j limits ctx truncated_event fr) _
            (λ c s. Keeps events s) _ Slack Slack
            (checked_line-Keeps events truncated_event fr few (omega arith) kept) (λ e s l. l)
            (λ content s (bytes, long, exact, (a, b, c)).
              let slack : Slack (because empty_data) s = (a, omega arith, omega arith) in
              Holds-if (not (is_empty content)) (refuse (because multiple_fields)) _ s Finished
                Slack (λ _. slack)
                (λ _.
                  Holds-if (is_empty payload) (refuse (because empty_data)) _ s Finished Slack
                    (λ _. slack)
                    (λ _.
                      finish_event-Finished payload (record s { events = s.events + 1 })
                        (bytes, long, exact, (a, omega arith, c)))))

      or_fail-Keeps :
          (o : Option (List ℕ)) (fr : Frame R)
          → Keeps events fr
          → Holds (or_fail (because unsupported_field) o fr) (λ p s. Keeps events s) Slack
      or_fail-Keeps none fr (bytes, long, exact, (a, b, c)) = (a, omega arith, omega arith)
      or_fail-Keeps (some p) fr kept = kept

      first_line-Keeps :
          (fr : Frame R)
          → Keeps events fr
          → Holds (first_line w growth utf8_valid j limits ctx fr) (λ p s. Keeps events s) Slack
      unfolding first_line
      first_line-Keeps fr kept =
          Holds-bind (checked_line w growth utf8_valid j limits ctx missing_done fr) _
            (λ c s. Keeps events s) _ Slack Slack
            (checked_line-Keeps events missing_done fr few (omega arith) kept) (λ e s l. l)
            (λ content s (bytes, long, exact, (a, b, c)).
              Holds-if (is_empty content) (refuse (because empty_event)) _ s _ Slack
                (λ _. (a, omega arith, omega arith))
                (λ _. or_fail-Keeps (sse_data_value content) s (bytes, long, exact, (a, b, c))))

    pub read_event-Finished :
        (fr : Frame R)
        → Keeps events fr
        → events ≤ limits.max_events
        → Holds (read_event w growth utf8_valid j limits ctx fr) Finished Slack
    unfolding read_event
    read_event-Finished fr (bytes, long, exact, (a, b, c)) high =
        let slack : Slack context_error fr = (a, omega arith, omega arith) in
        Holds-bind (check_context ctx context_error fr) _ (λ u s. Keeps events s) _ Slack Slack
          (check_context-Holds ctx context_error fr (Keeps events) Slack
            (bytes, long, exact, (a, b, c)) slack)
          (λ e s l. l)
          (λ u s (bytes', long', exact', (a', b', c')).
            Holds-if (leb limits.max_events s.events) (refuse (because event_count_limit)) _ s
              Finished Slack (λ _. (a', omega arith, omega arith))
              (λ under.
                let room : events < limits.max_events = ground arith in
                Holds-bind (first_line w growth utf8_valid j limits ctx s) _ (λ p s. Keeps events s)
                  _ Slack Slack (first_line-Keeps room s (bytes', long', exact', (a', b', c')))
                  (λ e s l. l) (λ payload s₁ kept. second_line-Finished room payload s₁ kept)))
