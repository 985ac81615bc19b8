-- ===== src/Contract/Verdict.antt =====
-- internal/contract/jsonscan.go: the verdict of the scan on a whole document.
use ssemaphore.Prelude.{
  ℕ, suc, ◌+◌, ◌*◌, ◌≤◌, ◌≡◌, refl, Bool, true, false, Option, none, some, List, [], ◌∷◌, arith,
  length, some-injective, ap, ◌↔◌,
}
use ssemaphore.Contract.Reason.{Reason, trailing_json}
use ssemaphore.Contract.Decoding.{JsonToken, JsonDecoder, Consumes, Scan, raw_token, settle_token}
use ssemaphore.Contract.Course.{Step, ok, fail, Comes}
use ssemaphore.Contract.Json.{scan_value, eof, another, end_scan, tail_of, validate_json_document}
use ssemaphore.Contract.Documents.{
  Value, tokens, Gives, height, Distinct, first, fault, fault_iff, first-none, first-both,
}
use ssemaphore.Contract.Ending.{validate_json_document_total}
use ssemaphore.Contract.Scanning.{Meets, Meets-bind, scan-value}

-- Whether the scan ends, and the reason it gives, where it refuses.
abbrev pub verdict : {S E A : Type 0} → Option (Step E A × Scan S) → Option (Option E)
verdict none = none
verdict (some (ok a, s)) = some none
verdict (some (fail e, s)) = some (some e)

-- The fault of tokens after a document.
abbrev pub trailing : List JsonToken → Option Reason
trailing [] = none
trailing (t ∷ ts) = some trailing_json

verdict-Meets :
    {S A : Type 0} (o : Option (Step Reason A × Scan S)) (x : Option Reason)
    → Comes o (λ a s. Unit {0})
    → Meets o (λ a s. x ≡ none) (λ e. x ≡ some e)
    → verdict o ≡ some x
verdict-Meets none x h k = absurd h
verdict-Meets (some (ok a, s)) x h k = rw k refl
verdict-Meets (some (fail e, s)) x h k = rw k refl

module _ {S : Type 0} (j : JsonDecoder S) (ctx : ℕ → Bool) (calm : (n : ℕ) → ctx n ≡ false) where
  tail_of-eof :
      (s : Scan S)
      → (j.token s.decoder).0 ≡ none
      → j.at_end s.decoder ≡ true
      → tail_of j ctx s ≡ eof
  unfolding tail_of raw_token settle_token
  tail_of-eof s g k = rw (calm s.reads, g, k) refl

  tail_of-another :
      (s : Scan S) (t : JsonToken) → (j.token s.decoder).0 ≡ some t → tail_of j ctx s ≡ another t
  unfolding tail_of raw_token settle_token
  tail_of-another s t g = rw (calm s.reads, g, calm (s.reads + 1)) refl

  end_scan-Gives :
      (rest : List JsonToken) (s : Scan S)
      → Gives j s.decoder rest
      → Meets (end_scan j ctx s) (λ u s. trailing rest ≡ none) (λ e. trailing rest ≡ some e)
  unfolding end_scan
  end_scan-Gives [] s (g, k) = rw (tail_of-eof s g k) refl
  end_scan-Gives (t ∷ ts) s (g, m, k) = rw (tail_of-another s t g) refl

  -- For a decoder whose every token takes some of the input, on a body whose tokens are those of a
  -- document and then `rest`, and while the context gives no error, the scan ends, and gives the first
  -- fault of the document in reading order, or else refuses tokens that follow it, or else accepts.
  pub verdict-validate_json_document :
      (size : S → ℕ) (law : Consumes j size) (maximum : ℕ) (body : List ℕ) (reads : ℕ) (v : Value)
      (rest : List JsonToken)
      → Gives j (j.start body) (tokens v rest)
      → verdict (validate_json_document j ctx maximum body reads)
        ≡ some (first (fault maximum 1 v) (trailing rest))
  unfolding validate_json_document
  verdict-validate_json_document size law maximum body reads v rest g =
      verdict-Meets (validate_json_document j ctx maximum body reads) _
        (validate_json_document_total j size law ctx maximum body reads)
        (Meets-bind (scan_value j ctx maximum (suc (2 * length body)) 1 _) _ _ _ _ _
          (scan-value j ctx calm maximum v (suc (2 * length body)) 1 rest _ g) (λ e z. rw z refl)
          (λ u s (z, w). rw z (end_scan-Gives rest s w)))

  clear_iff :
      (m : ℕ) (v : Value) (rest : List JsonToken)
      → first (fault m 1 v) (trailing rest) ≡ none ↔ ((height v ≤ m) × Distinct v × (rest ≡ []))
  clear_iff m v [] = (
    λ h.
        let (a, b) = (fault_iff m 1 v).0 (first-none (fault m 1 v) none h).0 in
        (omega arith, b, refl),
    λ (a, b, c). first-both (fault m 1 v) none ((fault_iff m 1 v).1 (omega arith, b)) refl,
  )
  clear_iff m v (t ∷ ts) = (
    λ h. absurd (cc (first-none (fault m 1 v) (some trailing_json) h).1),
    λ (a, b, c). absurd (cc),
  )

  -- For a decoder whose every token takes some of the input, on a body whose tokens are those of a
  -- document and then `rest`, and while the context gives no error, the scan accepts exactly where the
  -- document nests no deeper than the maximum, no object of it has a key twice, and nothing follows
  -- it.
  pub validate_json_document_accepts :
      (size : S → ℕ) (law : Consumes j size) (maximum : ℕ) (body : List ℕ) (reads : ℕ) (v : Value)
      (rest : List JsonToken)
      → Gives j (j.start body) (tokens v rest)
      → verdict (validate_json_document j ctx maximum body reads) ≡ some none
        ↔ ((height v ≤ maximum) × Distinct v × (rest ≡ []))
  validate_json_document_accepts size law maximum body reads v rest g =
      rw (verdict-validate_json_document size law maximum body reads v rest g) (
        λ h. (clear_iff maximum v rest).0 (some-injective _ _ h),
        λ h. ap some ((clear_iff maximum v rest).1 h),
      )
