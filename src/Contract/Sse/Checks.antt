-- ===== src/Contract/Sse/Checks.antt =====
-- internal/contract/sse.go: the checks on the JSON of one event come to an answer, whatever the decoder
-- and the context give.
use ssemaphore.Prelude.{ℕ, suc, ◌+◌, ◌*◌, Bool, not, Option, none, some, List, arith, length}
use ssemaphore.Contract.Reason.{Reason}
use ssemaphore.Contract.Course.{Step, ok, fail, pure, refuse, Comes, Comes-bind, Comes-if}
use ssemaphore.Contract.Decoding.{JsonDecoder, Consumes}
use ssemaphore.Contract.Json.{max_json_depth, validate_json_document}
use ssemaphore.Contract.Ending.{validate_json_document_total}
use ssemaphore.Contract.Escapes.{valid_unicode_escapes}
use ssemaphore.Contract.Sse.Chunk.{
  sse_reasons, SseReason, sse_reason_from_json, chat_completion_chunk_object,
  validate_sse_chunk_object, unless_gone, json_reason, validate_sse_chunk, invalid_utf8,
  invalid_unicode_escape,
}
use ssemaphore.Contract.Escaping.{valid_unicode_escapes-Comes}
use ssemaphore.Contract.Members.{count_reads-Comes, validate_object-Comes}

module _ {S : Type 0} (j : JsonDecoder S) (size : S → ℕ) (law : Consumes j size)
    (ctx : ℕ → Bool) where
  unless_gone-Comes : (r : SseReason) (n : ℕ) → Comes (unless_gone j ctx r n) (λ u m. Unit {0})
  unless_gone-Comes r n = Comes-if (ctx n) (pure tt) (refuse r) (n + 1) _ (λ _. tt) (λ _. tt)

  json_reason-Comes :
      (body : List ℕ) (o : Option (Step Reason (Unit {0}) × ℕ))
      → Comes o (λ u n. Unit {0})
      → Comes (json_reason j ctx body o) (λ u n. Unit {0})
  unfolding validate_sse_chunk_object
  json_reason-Comes body none h = h
  json_reason-Comes body (some (fail r, n)) h = unless_gone-Comes (sse_reason_from_json r) n
  json_reason-Comes body (some (ok u, n)) h =
      count_reads-Comes (λ u. Unit {0})
        (validate_sse_chunk_object j ctx (suc (2 * length body))
          (record { decoder = j.start body; reads = n }))
        (validate_object-Comes j size law ctx sse_reasons chat_completion_chunk_object
          (suc (2 * length body)) _ (omega (arith, law.start_le body)))

  pub validate_sse_chunk-Comes :
      (utf8_valid : List ℕ → Bool) (body : List ℕ) (n : ℕ)
      → Comes (validate_sse_chunk j ctx utf8_valid body n) (λ u m. Unit {0})
  unfolding validate_sse_chunk
  validate_sse_chunk-Comes utf8_valid body n =
      Comes-if (not (utf8_valid body)) (refuse invalid_utf8) _ n _ (λ _. tt)
        (λ _.
          Comes-bind (valid_unicode_escapes ctx body n) _ (λ b m. Unit {0}) _
            (valid_unicode_escapes-Comes ctx body SseReason n)
            (λ valid m _.
              Comes-if (not valid) _ _ m _ (λ _. unless_gone-Comes invalid_unicode_escape m)
                (λ _. json_reason-Comes body _ (
                  count_reads-Comes (λ u. Unit {0})
                    (validate_json_document j ctx max_json_depth body m)
                    (validate_json_document_total j size law ctx max_json_depth body m)))))
