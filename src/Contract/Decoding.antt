-- ===== src/Contract/Decoding.antt =====
-- internal/contract/jsonscan.go: `contextDecoder`, as a monad over the decoder's state. The decoder of
-- encoding/json and the context are parameters: what each call gives is theirs to choose.
use ssemaphore.Prelude.{
  ℕ, ◌+◌, ◌≤◌, ◌<◌, ◌≡◌, Bool, true, false, ◌&&◌, ◌||◌, not, Option, none, some, List, [], ◌∷◌,
  ◌==◌, if◌then◌else◌, length,
}
use ssemaphore.Contract.Reason.{Reason}
use ssemaphore.Contract.Course.{Course, ok, ◌>>=◌, pure, refuse, or_fail}

-- json.Token, with numbers as their text. Text is a list of bytes, and a delimiter its byte.
pub data JsonToken : Type 0 where
  delim : ℕ → JsonToken
  text : List ℕ → JsonToken
  number : List ℕ → JsonToken
  flag : Bool → JsonToken
  null : JsonToken

-- json.Decoder over a state `S`: `NewDecoder` on a body, `Token` (`none` is an error,
-- which is io.EOF where `at_end` says so) and `More`.
pub record JsonDecoder (S : Type 0) : Type 0 where
  pub start : List ℕ → S
  pub token : S → Option JsonToken × S
  pub more : S → Bool
  pub at_end : S → Bool

-- What the code relies on: a token takes some of the input, of which there is no more than the body.
pub record Consumes {S : Type 0} (j : JsonDecoder S) (size : S → ℕ) : Type 0 where
  pub start_le : (body : List ℕ) → size (j.start body) ≤ length body
  pub token_lt : (s : S) (t : JsonToken) → (j.token s).0 ≡ some t → size (j.token s).1 < size s

-- The decoder, and how often the context was asked for an error.
pub record Scan (S : Type 0) : Type 0 where
  pub decoder : S
  pub reads : ℕ

abbrev pub M : Type 0 → Type 0 → Type 0
M S A = Course Reason (Scan S) A

unfoldable pub bytes_eq : List ℕ → List ℕ → Bool
bytes_eq [] [] = true
bytes_eq [] (y ∷ ys) = false
bytes_eq (x ∷ xs) [] = false
bytes_eq (x ∷ xs) (y ∷ ys) = x == y && bytes_eq xs ys

unfoldable pub has_key : List ℕ → List (List ℕ) → Bool
has_key k [] = false
has_key k (x ∷ xs) = bytes_eq x k || has_key k xs

abbrev pub is_delim : ℕ → JsonToken → Bool
is_delim c (delim d) = d == c
is_delim c (text t) = false
is_delim c (number t) = false
is_delim c (flag b) = false
is_delim c null = false

module _ {S : Type 0} (j : JsonDecoder S) (ctx : ℕ → Bool) where
  -- What `Token` gives once the decoder has been called: the context is asked again after a token.
  unfoldable pub settle_token : ℕ → Option JsonToken → S → Option JsonToken × Scan S
  settle_token n none d = (none, record { decoder = d; reads = n })
  settle_token n (some t) d =
      (if ctx n then none else some t, record { decoder = d; reads = n + 1 })

  unfoldable pub raw_token : Scan S → Option JsonToken × Scan S
  unfolding settle_token
  raw_token s =
      if ctx s.reads
      then (none, record s { reads = s.reads + 1 })
      else settle_token (s.reads + 1) (j.token s.decoder).0 (j.token s.decoder).1

  -- A token, or the reason that the caller has for an error.
  unfoldable pub token : {E : Type 0} → E → Course E (Scan S) JsonToken
  unfolding raw_token
  token e s = or_fail e (raw_token s).0 (raw_token s).1

  unfoldable pub more : {E : Type 0} → Course E (Scan S) Bool
  more s = some (ok (not (ctx s.reads) && j.more s.decoder), record s { reads = s.reads + 1 })

  -- The closing delimiter.
  unfoldable pub close : {E : Type 0} → E → ℕ → Course E (Scan S) (Unit {0})
  unfolding token
  close e c = token e >>= λ t. if is_delim c t then pure tt else refuse e

-- token.(string)
abbrev pub as_text : {E S : Type 0} → E → JsonToken → Course E (Scan S) (List ℕ)
as_text e (text k) = pure k
as_text e (delim c) = refuse e
as_text e (number n) = refuse e
as_text e (flag b) = refuse e
as_text e null = refuse e
