-- ===== src/Contract/Sse/Completions.antt =====
-- internal/contract/sse.go: what the JSON of an event that `validateSSEChunk` accepts is.
use ssemaphore.Prelude.{
  ℕ, suc, ◌*◌, ◌≤◌, ◌≡◌, refl, Bool, true, false, not, Option, none, some, List, [], arith, length,
}
use ssemaphore.Contract.Reason.{Reason}
use ssemaphore.Contract.Course.{Step, ok, fail, refuse, Comes, Comes-bind, Comes-if, Comes-mono}
use ssemaphore.Contract.Decoding.{JsonToken, JsonDecoder, Consumes, Scan}
use ssemaphore.Contract.Documents.{Value, Gives, tokens, height, Distinct}
use ssemaphore.Contract.Json.{max_json_depth, validate_json_document}
use ssemaphore.Contract.Ending.{validate_json_document_total}
use ssemaphore.Contract.Verdict.{verdict, validate_json_document_accepts}
use ssemaphore.Contract.Getting.{Gets}
use ssemaphore.Contract.Completing.{Named, validate_object-Named}
use ssemaphore.Contract.Escapes.{valid_unicode_escapes}
use ssemaphore.Contract.Escaping.{valid_unicode_escapes-Comes}
use ssemaphore.Contract.Members.{not-false, validate_object-Comes}
use ssemaphore.Contract.Objects.{count_reads}
use ssemaphore.Contract.Sse.Chunk.{
  SseReason, sse_reasons, sse_reason_from_json, chat_completion_chunk_object,
  validate_sse_chunk_object, unless_gone, json_reason, validate_sse_chunk, invalid_utf8,
  invalid_unicode_escape,
}

-- A document, and what follows it, that is the whole of a chunk.
abbrev pub IsChunk : Value → List JsonToken → Type 0
IsChunk v rest =
    ((height v ≤ max_json_depth) × Distinct v × (rest ≡ [])) × Named chat_completion_chunk_object v

-- A value that comes has what is got with every value.
count_reads-Gets :
    {S E A : Type 0} (Q : Type 0) (o : Option (Step E A × Scan S))
    → Comes o (λ a s. Unit {0})
    → Gets o (λ a s. Q)
    → Comes (count_reads o) (λ a n. Q)
count_reads-Gets Q none h g = h
count_reads-Gets Q (some (ok a, s)) h g = g
count_reads-Gets Q (some (fail e, s)) h g = tt

module _ {S : Type 0} (j : JsonDecoder S) (size : S → ℕ) (law : Consumes j size) (ctx : ℕ → Bool)
    (calm : (n : ℕ) → ctx n ≡ false) (body : List ℕ) (v : Value) (rest : List JsonToken)
    (g : Gives j (j.start body) (tokens v rest)) where
  unless_gone-refuses :
      (Q : Unit {0} → ℕ → Type 0) (r : SseReason) (n : ℕ) → Comes (unless_gone j ctx r n) Q
  unless_gone-refuses Q r n = rw (calm n) tt

  json_reason-IsChunk :
      (D : Type 0) (o : Option (Step Reason (Unit {0}) × Scan S))
      → Comes o (λ u s. Unit {0})
      → (verdict o ≡ some none → D)
      → Comes
          (json_reason j ctx body (count_reads o))
          (λ u n. D × Named chat_completion_chunk_object v)
  unfolding validate_sse_chunk_object
  json_reason-IsChunk D none h k = h
  json_reason-IsChunk D (some (fail r, s)) h k =
      unless_gone-refuses _ (sse_reason_from_json r) s.reads
  json_reason-IsChunk D (some (ok u, s)) h k =
      Comes-mono
        (count_reads (
          validate_sse_chunk_object j ctx (suc (2 * length body))
            (record { decoder = j.start body; reads = s.reads })))
        (λ u n. Named chat_completion_chunk_object v) _
        (count_reads-Gets (Named chat_completion_chunk_object v)
          (validate_sse_chunk_object j ctx (suc (2 * length body))
            (record { decoder = j.start body; reads = s.reads }))
          (validate_object-Comes j size law ctx sse_reasons chat_completion_chunk_object
            (suc (2 * length body)) _ (omega (arith, law.start_le body)))
          (validate_object-Named j ctx calm sse_reasons chat_completion_chunk_object v
            (suc (2 * length body)) rest _ g))
        (λ u n named. (k refl, named))

  -- For a decoder whose every token takes some of the input, while the context gives no error, and where
  -- the tokens of an event's data are those of a document and then `rest`: the validation of the data
  -- ends within the fuel of its loops. Data that it accepts is valid UTF-8; nothing follows its document,
  -- which nests at most 32 deep, no object of which has a key twice, and which is an object with a field
  -- `object` that is the text `chat.completion.chunk`, and with no other value under that key.
  pub validate_sse_chunk-IsChunk :
      (utf8_valid : List ℕ → Bool) (n : ℕ)
      → Comes
          (validate_sse_chunk j ctx utf8_valid body n)
          (λ u m. (utf8_valid body ≡ true) × IsChunk v rest)
  unfolding validate_sse_chunk
  validate_sse_chunk-IsChunk utf8_valid n =
      Comes-if (not (utf8_valid body)) (refuse invalid_utf8) _ n _ (λ _. tt)
        (λ utf8.
          Comes-bind (valid_unicode_escapes ctx body n) _ (λ b m. Unit {0}) _
            (valid_unicode_escapes-Comes ctx body SseReason n)
            (λ valid m _.
              Comes-if (not valid) _ _ m _ (λ _. unless_gone-refuses _ invalid_unicode_escape m)
                (λ _.
                  Comes-mono
                    (json_reason j ctx body
                      (count_reads (validate_json_document j ctx max_json_depth body m)))
                    (λ u k. IsChunk v rest) _
                    (json_reason-IsChunk ((height v ≤ max_json_depth) × Distinct v × (rest ≡ []))
                      (validate_json_document j ctx max_json_depth body m)
                      (validate_json_document_total j size law ctx max_json_depth body m)
                      (validate_json_document_accepts j ctx calm size law max_json_depth body m v
                        rest g).0)
                    (λ u k chunk. (not-false (utf8_valid body) utf8, chunk)))))
