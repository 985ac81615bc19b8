-- ===== src/Contract/Objects.antt =====
-- internal/contract: an object whose field `object` must have one text, and any others. The validation of
-- a response (response.go) and that of an event (sse.go) run this code, each with reasons of its own.
use ssemaphore.Prelude.{
  ℕ, zero, suc, Bool, true, false, Option, none, some, List, [], ◌∷◌, if◌then◌else◌,
}
use ssemaphore.Contract.Reason.{Reason}
use ssemaphore.Contract.Course.{Course, Step, ok, ◌>>=◌, pure, refuse, relabel}
use ssemaphore.Contract.Decoding.{
  JsonDecoder, Scan, token, more, close, as_text, bytes_eq, is_delim,
}
use ssemaphore.Contract.Json.{max_json_depth, scan_value}

abbrev pub object_key : List ℕ
object_key = b'o' ∷ b'b' ∷ b'j' ∷ b'e' ∷ b'c' ∷ b't' ∷ []

-- `readString` (decode.go), with the errors that the caller has for no token and for another type.
abbrev pub read_string :
    {S E : Type 0} → JsonDecoder S → (ℕ → Bool) → E → E → Course E (Scan S) (List ℕ)
read_string j ctx malformed wrong = token j ctx malformed >>= λ t. as_text wrong t

-- The reasons of one of the two.
pub record ObjectReasons (E : Type 0) : Type 0 where
  pub malformed : E
  pub not_object : E
  pub missing : E
  pub wrong_type : E
  pub unsupported : E
  pub from_json : Reason → E

-- A scan of a body from its start, where the state is how often the context was asked.
abbrev pub count_reads : {S E A : Type 0} → Option (Step E A × Scan S) → Option (Step E A × ℕ)
count_reads none = none
count_reads (some (r, s)) = some (r, s.reads)

-- As `count_reads`, where a refusal is not yet that of the caller.
abbrev pub scanned :
    {S E F A : Type 0} → Option (Step E A × Scan S) → Option (Step F (Step E A) × ℕ)
scanned none = none
scanned (some (r, s)) = some (ok r, s.reads)

module _ {S E : Type 0} (j : JsonDecoder S) (ctx : ℕ → Bool) (e : ObjectReasons E)
    (expected : List ℕ) where
  -- The value under any other key.
  abbrev pub skip_value : ℕ → Course E (Scan S) (Unit {0})
  skip_value f s = relabel e.from_json (scan_value j ctx max_json_depth f 2 s)

  -- The value of `object`.
  abbrev pub object_value : Course E (Scan S) (Unit {0})
  object_value = read_string j ctx e.malformed e.wrong_type >>= λ v.
      if bytes_eq v expected then pure tt else refuse e.unsupported

  -- The loop over the keys, and whether `object` was among them.
  unfoldable pub object_fields : ℕ → Bool → Course E (Scan S) Bool
  object_fields zero object_set = λ s. none
  object_fields (suc f) object_set = more j ctx >>= λ m.
      if m
      then (token j ctx e.malformed >>= λ t.
          (as_text e.malformed t >>= λ k.
          if bytes_eq k object_key
          then (object_value >>= λ _. object_fields f true)
          else (skip_value f >>= λ _. object_fields f object_set)))
      else (close j ctx e.malformed b'}' >>= λ _. pure object_set)

  unfoldable pub validate_object : ℕ → Course E (Scan S) (Unit {0})
  unfolding object_fields
  validate_object f = token j ctx e.malformed >>= λ t.
      if is_delim b'{' t
      then (object_fields f false >>= λ object_set.
          if object_set then pure tt else refuse e.missing)
      else refuse e.not_object
