-- ===== src/Contract/Json.antt =====
-- internal/contract/jsonscan.go: the strict scan of one JSON document. The loops recur on fuel.
use ssemaphore.Prelude.{
  ℕ, zero, suc, ◌+◌, ◌*◌, Bool, true, false, Option, none, some, List, [], ◌∷◌, ◌==◌, ltb,
  if◌then◌else◌, length,
}
use ssemaphore.Contract.Reason.{Reason, malformed_json, trailing_json, duplicate_key, nesting_limit}
use ssemaphore.Contract.Decoding.{
  JsonToken, delim, text, number, flag, null, JsonDecoder, Scan, M, has_key, as_text, token, more,
  close, raw_token,
}
use ssemaphore.Contract.Course.{Step, ◌>>=◌, pure, refuse}

abbrev pub max_json_depth : ℕ
max_json_depth = 32

-- What follows the first token of a value, given the loops over an object and an array.
abbrev pub scan_rest : {S : Type 0} → JsonToken → M S (Unit {0}) → M S (Unit {0}) → M S (Unit {0})
scan_rest (delim c) fields items =
    if c == b'{' then fields else if c == b'[' then items else refuse malformed_json
scan_rest (text t) fields items = pure tt
scan_rest (number n) fields items = pure tt
scan_rest (flag b) fields items = pure tt
scan_rest null fields items = pure tt

module _ {S : Type 0} (j : JsonDecoder S) (ctx : ℕ → Bool) (maximum : ℕ) where
  unfoldable mutual
    pub scan_value : ℕ → ℕ → M S (Unit {0})
    scan_value zero depth = λ s. none
    scan_value (suc f) depth =
        if ltb maximum depth
        then refuse nesting_limit
        else (token j ctx malformed_json >>= λ t.
            scan_rest t (scan_fields f depth []) (scan_items f depth))

    -- The loop over an object, with the keys seen.
    pub scan_fields : ℕ → ℕ → List (List ℕ) → M S (Unit {0})
    scan_fields zero depth keys = λ s. none
    scan_fields (suc f) depth keys = more j ctx >>= λ m.
        if m
        then (token j ctx malformed_json >>= λ t.
            (as_text malformed_json t >>= λ k.
            if has_key k keys
            then refuse duplicate_key
            else (scan_value f (depth + 1) >>= λ _. scan_fields f depth (k ∷ keys))))
        else close j ctx malformed_json b'}'

    -- The loop over an array.
    pub scan_items : ℕ → ℕ → M S (Unit {0})
    scan_items zero depth = λ s. none
    scan_items (suc f) depth = more j ctx >>= λ m.
        if m
        then (scan_value f (depth + 1) >>= λ _. scan_items f depth)
        else close j ctx malformed_json b']'

-- How a document ends, after its one value: `eof` is io.EOF, and `error` any other.
pub data Tail : Type 0 where
  eof error : Tail
  another : JsonToken → Tail

-- The error of a call is io.EOF where the context was not the cause and the input was at its end.
abbrev pub tail_from : Option JsonToken → Bool → Bool → Tail
tail_from (some t) gone at_end = another t
tail_from none true at_end = error
tail_from none false true = eof
tail_from none false false = error

abbrev pub end_document : {S : Type 0} → Tail → M S (Unit {0})
end_document eof = pure tt
end_document (another t) = refuse trailing_json
end_document error = refuse malformed_json

module _ {S : Type 0} (j : JsonDecoder S) (ctx : ℕ → Bool) where
  unfoldable pub tail_of : Scan S → Tail
  unfolding raw_token
  tail_of s = tail_from (raw_token j ctx s).0 (ctx s.reads) (j.at_end s.decoder)

  unfoldable pub end_scan : M S (Unit {0})
  unfolding tail_of
  end_scan s = end_document (tail_of s) (raw_token j ctx s).1

  -- Each token takes a byte at least, and two steps at most are made between two tokens.
  unfoldable pub validate_json_document : ℕ → List ℕ → ℕ → Option (Step Reason (Unit {0}) × Scan S)
  unfolding end_scan
  validate_json_document maximum body reads =
      let s : Scan S = record { decoder = j.start body; reads = reads } in
      (scan_value j ctx maximum (suc (2 * length body)) 1 >>= λ _. end_scan) s
