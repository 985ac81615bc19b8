-- ===== src/Contract/Readers.antt =====
-- internal/contract: the readers of a body. `contextReader` (request.go) asks the context around each read of
-- another reader; the readers that give out the body of a request, of a response and of an event again
-- (request.go, response.go and sse.go) are the same code.
use ssemaphore.Prelude.{
  ℕ, zero, suc, ◌+◌, ◌≤◌, ◌<◌, ◌≡◌, refl, ap, Bool, Option, none, some, List, [], ◌∷◌, ◌++◌, leb,
  arith, if◌then◌else◌, length, Bool-cases, inl, inr,
}
use ssemaphore.Contract.Sse.Wire.{drop}

-- The error of a read.
pub data ReadError : Type 0 where
  context_error end_of_file other_error : ReadError

pub record ReadResult : Type 0 where
  pub bytes : List ℕ
  pub error : Option ReadError

-- The context is asked again after a read without an error.
abbrev pub after_read : (ℕ → Bool) → ℕ → List ℕ → Option ReadError → ReadResult × ℕ
after_read ctx n bytes (some e) = (record { bytes = bytes; error = some e }, n)
after_read ctx n bytes none =
    (record { bytes = bytes; error = if ctx n then some context_error else none }, n + 1)

-- `contextReader.Read`, with what the other reader gives where it is asked, and how often the context was.
unfoldable pub context_read : (ℕ → Bool) → ReadResult → ℕ → ReadResult × ℕ
context_read ctx inner n =
    if ctx n
    then (record { bytes = []; error = some context_error }, n + 1)
    else after_read ctx (n + 1) inner.bytes inner.error

pub record BodyReader : Type 0 where
  pub body : List ℕ
  pub offset : ℕ

abbrev pub take : ℕ → List ℕ → List ℕ
take zero xs = []
take (suc n) [] = []
take (suc n) (x ∷ xs) = x ∷ take n xs

-- `Read` of a body's reader, into a destination of `size` bytes.
unfoldable pub read_body : ℕ → BodyReader → ReadResult × BodyReader
read_body size r =
    if leb (length r.body) r.offset
    then (record { bytes = []; error = some end_of_file }, r)
    else (let part = take size (drop r.offset r.body) in
        (record { bytes = part; error = none }, record r { offset = r.offset + length part }))

-- The reads until one gives an error, and all their bytes.
abbrev pub join_read : List ℕ → Option ReadError → Option (List ℕ) → Option (List ℕ)
join_read bytes (some e) rest = some bytes
join_read bytes none none = none
join_read bytes none (some more) = some (bytes ++ more)

unfoldable pub read_to_end : ℕ → ℕ → BodyReader → Option (List ℕ)
unfolding read_body
read_to_end zero size r = none
read_to_end (suc f) size r =
    join_read (read_body size r).0.bytes (read_body size r).0.error
      (read_to_end f size (read_body size r).1)

take-drop :
    (size o k : ℕ) (body : List ℕ)
    → k ≡ o + length (take size (drop o body))
    → take size (drop o body) ++ drop k body ≡ drop o body
take-drop zero zero zero body h = refl
take-drop zero zero (suc k) body h = absurd (omega arith)
take-drop (suc n) zero zero [] h = refl
take-drop (suc n) zero (suc k) [] h = absurd (omega arith)
take-drop (suc n) zero zero (x ∷ xs) h = absurd (omega arith)
take-drop (suc n) zero (suc k) (x ∷ xs) h = ap (λ ys. x ∷ ys) (take-drop n zero k xs (omega arith))
take-drop size (suc o) zero body h = absurd (omega arith)
take-drop zero (suc o) (suc k) [] h = refl
take-drop (suc n) (suc o) (suc k) [] h = refl
take-drop size (suc o) (suc k) (x ∷ xs) h = take-drop size o k xs (omega arith)

drop-all : (o : ℕ) (body : List ℕ) → length body ≤ o → drop o body ≡ []
drop-all zero [] h = refl
drop-all zero (x ∷ xs) h = absurd (omega arith)
drop-all (suc o) [] h = refl
drop-all (suc o) (x ∷ xs) h = drop-all o xs (omega arith)

take-some :
    (size o : ℕ) (body : List ℕ) → 0 < size → o < length body → 0 < length (take size (drop o body))
take-some zero o body h k = absurd (omega arith)
take-some (suc n) zero [] h k = absurd (omega arith)
take-some (suc n) zero (x ∷ xs) h k = omega arith
take-some (suc n) (suc o) [] h k = absurd (omega arith)
take-some (suc n) (suc o) (x ∷ xs) h k = take-some (suc n) o xs h (omega arith)

-- The reads of a body from an offset, into a destination that is not empty, give what is left of the
-- body, within a read for each byte left and one more.
pub read_to_end-drop :
    (f size : ℕ) (body : List ℕ) (offset : ℕ)
    → 0 < size
    → length body < f + offset
    → 0 < f
    → read_to_end f size (record { body = body; offset = offset }) ≡ some (drop offset body)
unfolding read_to_end read_body
read_to_end-drop zero size body offset h k l = absurd (omega arith)
read_to_end-drop (suc f) size body offset h k l = elim (Bool-cases (leb (length body) offset)) [
  | inl done ↦ rw (done, drop-all offset body (ground arith)) refl
  | inr left ↦
      let more = take-some size offset body h (ground arith) in
      let part = length (take size (drop offset body)) in
      rw (left, read_to_end-drop f size body (offset + part) h (omega arith) (ground arith))
        (ap some (take-drop size offset (offset + part) body refl))
]
