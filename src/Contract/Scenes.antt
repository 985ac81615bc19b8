-- ===== src/Contract/Scenes.antt =====
-- A decoder for examples: each byte is a token, a delimiter, a digit or a letter, which stands for a
-- text; some letters stand for the words that the code looks for.
use ssemaphore.Prelude.{
  ℕ, ◌≤◌, ◌<◌, ◌≡◌, Bool, true, false, ◌||◌, not, Option, none, some, List, [], ◌∷◌, map, arith,
  ◌==◌, leb, ◌&&◌, if◌then◌else◌, length,
}
use ssemaphore.Contract.Decoding.{JsonToken, JsonDecoder, Consumes, delim, text, number}
use ssemaphore.Contract.Objects.{object_key}
use ssemaphore.Contract.Sse.Chunk.{chat_completion_chunk_object}
use ssemaphore.Contract.Response.{chat_completion_object}
use ssemaphore.Contract.Request.Types.{
  model_key, messages_key, max_completion_tokens_key, role_key, content_key, user_role,
}
use ssemaphore.Contract.Documents.{is_closing}

abbrev pub word : ℕ → JsonToken
word c =
    if c == b'o'
    then text object_key
    else if c == b'c'
    then text chat_completion_chunk_object
    else if c == b'm'
    then text model_key
    else if c == b's'
    then text messages_key
    else if c == b't'
    then text max_completion_tokens_key
    else if c == b'r'
    then text role_key
    else if c == b'u'
    then text user_role
    else if c == b'w'
    then text content_key
    else if c == b'k'
    then text chat_completion_object
    else text (c ∷ [])

abbrev pub letter : ℕ → JsonToken
letter c =
    if c == b'{' || c == b'}' || c == b'[' || c == b']'
    then delim c
    else if leb b'0' c && leb c b'9'
    then number (c ∷ [])
    else word c

abbrev pub next_letter : List JsonToken → Option JsonToken × List JsonToken
next_letter [] = (none, [])
next_letter (t ∷ ts) = (some t, ts)

abbrev pub more_letters : List JsonToken → Bool
more_letters [] = false
more_letters (t ∷ ts) = not (is_closing t)

abbrev pub no_letters : List JsonToken → Bool
no_letters [] = true
no_letters (t ∷ ts) = false

abbrev pub letters : JsonDecoder (List JsonToken)
letters = record {
  start = map letter;
  token = next_letter;
  more = more_letters;
  at_end = no_letters;
}

pub letters-Consumes : Consumes letters length
letters-Consumes = record { start_le = starts; token_lt = takes }
  where
    starts : (body : List ℕ) → length (map letter body) ≤ length body
    starts [] = omega arith
    starts (c ∷ cs) = omega (arith, starts cs)

    takes :
        (ts : List JsonToken) (t : JsonToken)
        → (next_letter ts).0 ≡ some t
        → length (next_letter ts).1 < length ts
    takes [] t h = absurd (cc)
    takes (u ∷ ts) t h = omega arith
