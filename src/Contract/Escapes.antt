-- ===== src/Contract/Escapes.antt =====
-- internal/contract/jsonscan.go: `validUnicodeEscapes`, whether the escapes in the strings of a body pair
-- their surrogates. The state is how often the context was asked.
use ssemaphore.Prelude.{
  ℕ, zero, suc, ◌+◌, ◌%◌, Bool, true, false, ◌&&◌, ◌||◌, not, Option, none, some, List, ◌==◌, leb,
  ltb, if◌then◌else◌, length, get_elem?,
}
use ssemaphore.Contract.Course.{Course, ok, ◌>>=◌, pure}
use ssemaphore.Contract.Hex.{decode_hex_quad}

-- What one escape comes to: an answer for the body, or the index of its last byte.
pub data Escape : Type 0 where
  rejects accepts : Escape
  ends_at : ℕ → Escape

abbrev pub byte_is : List ℕ → ℕ → ℕ → Bool
byte_is body index c = elim (get_elem? body index) [ none ↦ false | some b ↦ b == c ]

abbrev pub low_from : ℕ → Option ℕ → Escape
low_from index none = rejects
low_from index (some low) = if ltb low 56320 || ltb 57343 low then rejects else ends_at (index + 6)

-- The second half of a pair, after a first half that ends at `index`.
abbrev pub low_half : List ℕ → ℕ → Escape
low_half body index =
    if leb (length body) (index + 6)
      || not (byte_is body (index + 1) b'\\')
      || not (byte_is body (index + 2) b'u')
    then rejects
    else low_from index (decode_hex_quad body (index + 3))

abbrev pub quad_from : List ℕ → ℕ → Option ℕ → Escape
quad_from body index none = accepts
quad_from body index (some value) =
    if leb 56320 value && leb value 57343
    then rejects
    else if leb 55296 value && leb value 56319
    then low_half body (index + 4)
    else ends_at (index + 4)

-- The escape whose backslash stands just before `index`.
unfoldable pub escape : List ℕ → ℕ → Escape
escape body index =
    if leb (length body) index
    then accepts
    else if not (byte_is body index b'u')
    then ends_at index
    else quad_from body index (decode_hex_quad body (index + 1))

abbrev pub follow : {E : Type 0} → Escape → (ℕ → Course E ℕ Bool) → Course E ℕ Bool
follow rejects go = pure false
follow accepts go = pure true
follow (ends_at i) go = go i

-- The context's answer.
abbrev pub asked : {E : Type 0} → (ℕ → Bool) → Course E ℕ Bool
asked ctx n = some (ok (ctx n), n + 1)

-- Asked at every 1024th index that the loop comes to.
unfoldable pub polled : {E : Type 0} → (ℕ → Bool) → ℕ → Course E ℕ Bool
polled ctx index = if index % 1024 == 0 then asked ctx else pure false

module _ (ctx : ℕ → Bool) (body : List ℕ) where
  unfoldable pub escapes : {E : Type 0} → ℕ → ℕ → Bool → Course E ℕ Bool
  escapes zero index in_string = λ n. none
  escapes (suc f) index in_string =
      if leb (length body) index
      then pure true
      else (polled ctx index >>= λ gone.
          if gone
          then pure false
          else if byte_is body index b'"'
          then escapes f (index + 1) (not in_string)
          else if byte_is body index b'\\' && in_string
          then follow (escape body (index + 1)) (λ i. escapes f (i + 1) in_string)
          else escapes f (index + 1) in_string)

  -- Each turn of the loop moves on by a byte at least.
  unfoldable pub valid_unicode_escapes : {E : Type 0} → Course E ℕ Bool
  unfolding escapes
  valid_unicode_escapes = escapes (suc (length body)) 0 false
