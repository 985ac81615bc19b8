-- ===== src/Contract/Sse/Streams.antt =====
-- internal/contract/sse.go: a stream as its reader sees it, call by call.
use ssemaphore.Prelude.{
  ℕ, ◌≤◌, ◌<◌, ◌≡◌, refl, sym, ap, ◌∙◌, Bool, Option, none, some, List, [], ◌∷◌, ◌++◌, length,
  append_assoc, ◌>>=◌,
}
use ssemaphore.Contract.Course.{Step, ok, fail}
use ssemaphore.Contract.Decoding.{JsonDecoder}
use ssemaphore.Contract.Sse.Wire.{WireReader}
use ssemaphore.Contract.Sse.Decoder.{
  chunk_event, done_event, ValidatedSseEvent, SseDecoder, NextError, next, verify_eof,
}
use ssemaphore.HttpApi.Limits.{SseLimits}

-- A call of a stream's reader, with its context.
pub data Call : Type 0 where
  next_call verify_call : (ℕ → Bool) → Call

-- All bytes of the events.
abbrev pub bodies : List ValidatedSseEvent → List ℕ
bodies [] = []
bodies (e ∷ es) = e.body ++ bodies es

abbrev pub AllChunks : List ValidatedSseEvent → Type 0
AllChunks [] = Unit {0}
AllChunks (e ∷ es) = (e.kind ≡ chunk_event) × AllChunks es

-- Every event keeps to the limit on one.
abbrev pub Fit : ℕ → List ValidatedSseEvent → Type 0
Fit limit [] = Unit {0}
Fit limit (e ∷ es) = (length e.body ≤ limit) × Fit limit es

pub Fit-append_one :
    (limit : ℕ) (es : List ValidatedSseEvent) (e : ValidatedSseEvent)
    → Fit limit es
    → length e.body ≤ limit
    → Fit limit (es ++ (e ∷ []))
Fit-append_one limit [] e h k = (k, tt)
Fit-append_one limit (x ∷ xs) e (a, b) k = (a, Fit-append_one limit xs e b k)

-- One chunk or more, and then the terminal event.
abbrev pub Complete : List ValidatedSseEvent → Type 0
Complete es =
    (front : List ValidatedSseEvent) × (last : ValidatedSseEvent) × (es ≡ front ++ (last ∷ []))
    × AllChunks front
    × (0 < length front)
    × (last.kind ≡ done_event)

pub append_nil : (xs : List ℕ) → xs ++ [] ≡ xs
append_nil [] = refl
append_nil (x ∷ xs) = ap (λ ys. x ∷ ys) (append_nil xs)

pub bodies-append : (es fs : List ValidatedSseEvent) → bodies (es ++ fs) ≡ bodies es ++ bodies fs
bodies-append [] fs = refl
bodies-append (e ∷ es) fs =
    ap (λ x. e.body ++ x) (bodies-append es fs) ∙ sym (append_assoc e.body (bodies es) (bodies fs))

pub bodies-append_one :
    (es : List ValidatedSseEvent) (e : ValidatedSseEvent) (rest : List ℕ)
    → bodies (es ++ (e ∷ [])) ++ rest ≡ bodies es ++ (e.body ++ rest)
bodies-append_one [] e rest = append_assoc e.body [] rest
bodies-append_one (x ∷ xs) e rest =
    append_assoc x.body (bodies (xs ++ (e ∷ []))) rest
    ∙ ap (λ y. x.body ++ y) (bodies-append_one xs e rest)
    ∙ sym (append_assoc x.body (bodies xs) (e.body ++ rest))

pub AllChunks-append_one :
    (es : List ValidatedSseEvent) (e : ValidatedSseEvent)
    → AllChunks es
    → e.kind ≡ chunk_event
    → AllChunks (es ++ (e ∷ []))
AllChunks-append_one [] e h k = (k, tt)
AllChunks-append_one (x ∷ xs) e (a, b) k = (a, AllChunks-append_one xs e b k)

module _ {R S : Type 0} (w : WireReader R) (growth : ℕ → ℕ) (utf8_valid : List ℕ → Bool)
    (j : JsonDecoder S) (limits : SseLimits) where
  -- The events given so far, and the decoder.
  abbrev pub Stream : Type 0
  Stream = List ValidatedSseEvent × SseDecoder R

  abbrev pub collect :
      List ValidatedSseEvent
      → Option (Step NextError ValidatedSseEvent × SseDecoder R)
      → Option Stream
  collect es none = none
  collect es (some (ok e, d)) = some (es ++ (e ∷ []), d)
  collect es (some (fail r, d)) = some (es, d)

  abbrev pub keep :
      List ValidatedSseEvent → Option (Step NextError (Unit {0}) × SseDecoder R) → Option Stream
  keep es none = none
  keep es (some (r, d)) = some (es, d)

  unfoldable pub call : Call → Stream → Option Stream
  call (next_call ctx) (es, d) = collect es (next w growth utf8_valid j limits ctx d)
  call (verify_call ctx) (es, d) = keep es (verify_eof w growth utf8_valid j limits ctx d)

  unfoldable pub calls : List Call → Stream → Option Stream
  calls [] s = some s
  calls (c ∷ cs) s = call c s >>= λ s'. calls cs s'
