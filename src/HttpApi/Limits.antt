-- ===== src/HttpApi/Limits.antt =====
-- The bounds that the HTTP policy is made of: those on responses and event streams
-- (internal/contract), the pre-dispatch envelope and the bearer tokens (internal/httpapi/config.go).
-- `maxInt` is that of a 64-bit architecture, and a token is the list of its bytes.
use ssemaphore.Prelude.{
  ℕ, ◌*◌, ◌/◌, Bool, true, false, ◌&&◌, ◌||◌, not, List, [], ◌∷◌, ◌==◌, leb, ltb, if◌then◌else◌,
  length, u64, u64_mod,
}
use ssemaphore.Admission.Types.{QueueLimits}

abbrev pub absolute_max_response_body_bytes : ℕ
absolute_max_response_body_bytes = 16777216

abbrev pub absolute_max_sse_total_bytes : ℕ
absolute_max_sse_total_bytes = 1073741824

abbrev pub absolute_max_sse_events : ℕ
absolute_max_sse_events = 1048576

abbrev pub max_int : ℕ
max_int = 9223372036854775807

-- The length of the smallest chunk event, `data: {"object":"chat.completion.chunk"}` and two line
-- ends; the terminal event is shorter.
abbrev pub minimum_event_bytes : ℕ
minimum_event_bytes = 42

-- A chunk event and the terminal event.
abbrev pub minimum_total_bytes : ℕ
minimum_total_bytes = 56

pub record SseLimits : Type 0 where
  pub max_total_bytes : ℕ
  pub max_event_bytes : ℕ
  pub max_events : ℕ

-- Whether the limits of a response are refused.
unfoldable pub new_response_validator : ℕ → Bool
new_response_validator max_body_bytes =
    max_body_bytes == 0 || ltb absolute_max_response_body_bytes max_body_bytes

-- Whether the limits of a stream are refused.
unfoldable pub validate_sse_limits : SseLimits → Bool
validate_sse_limits l =
    l.max_total_bytes == 0
    || (ltb absolute_max_sse_total_bytes l.max_total_bytes || leb max_int l.max_total_bytes)
    || l.max_event_bytes == 0
    || (ltb absolute_max_response_body_bytes l.max_event_bytes || leb max_int l.max_event_bytes)
    || ltb l.max_total_bytes l.max_event_bytes
    || ltb l.max_events 2
    || (ltb absolute_max_sse_events l.max_events || ltb max_int l.max_events)
    || ltb l.max_event_bytes minimum_event_bytes
    || ltb l.max_total_bytes minimum_total_bytes

-- The low word, and whether the product overflows.
unfoldable pub multiply : ℕ → ℕ → ℕ × Bool
multiply left right = (u64 (left * right), ltb 0 ((left * right) / u64_mod))

-- Whether the product overflows or exceeds the limit.
unfoldable pub exceeds : ℕ → ℕ → ℕ → Bool
unfolding multiply
exceeds count each limit = let p = multiply count each in p.1 || ltb limit p.0

-- Whether the envelope is refused.
unfoldable pub validate_pre_dispatch_envelope : ℕ → QueueLimits → ℕ → ℕ → Bool
validate_pre_dispatch_envelope count queue max_body_bytes max_request_units =
    ltb queue.count count
    || (exceeds count max_body_bytes queue.bytes || exceeds count max_request_units queue.work)

abbrev pub within : ℕ → ℕ → ℕ → Bool
within low high c = leb low c && leb c high

unfoldable pub bearer_token_character : ℕ → Bool
bearer_token_character c =
    within 97 122 c
    || (within 65 90 c
        || (within 48 57 c
            || (c == 45 || (c == 46 || (c == 95 || (c == 126 || (c == 43 || c == 47)))))))

-- The loop, with what it has seen: padding, and a character that is none. 61 is `=`.
unfoldable pub token_loop : List ℕ → Bool → Bool → Bool
token_loop [] padding non_padding = non_padding
token_loop (c ∷ cs) padding non_padding =
    let padded = token_loop cs true non_padding in
    let rest = token_loop cs padding true in
    if c == 61 then padded else if padding || not (bearer_token_character c) then false else rest

unfoldable pub valid_bearer_token : List ℕ → Bool
valid_bearer_token token =
    if length token == 0 || ltb 4096 (length token) then false else token_loop token false false
