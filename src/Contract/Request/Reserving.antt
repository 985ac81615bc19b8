-- ===== src/Contract/Request/Reserving.antt =====
-- internal/contract/request.go: the limits that `NewParser` accepts, and the reservations under them.
use ssemaphore.Prelude.{
  ℕ, ◌+◌, ◌*◌, ◌/◌, ◌≤◌, ◌<◌, ◌≡◌, refl, Bool, true, false, ◌||◌, Option, none, some, List, ◌==◌,
  leb, ltb, arith, if◌then◌else◌, u64, u64_mod,
}
use ssemaphore.Contract.Reason.{reservation_limit}
use ssemaphore.Contract.Course.{ok, fail}
use ssemaphore.Contract.Sse.Wire.{add64}
use ssemaphore.Contract.Request.Types.{Limits, Parser}
use ssemaphore.Contract.Request.Parsing.{reservation_units, bad_limits, can_overflow, new_parser}
use ssemaphore.HttpApi.Limits.{multiply}
use native.Mathlib.Nat.{mul-le-mul_left, mul-pos}

abbrev Roomy : Limits → Type 0
Roomy l =
    (0 < l.completion_weight)
    × (l.max_body_bytes + l.completion_weight * l.max_completion_tokens < u64_mod)

Roomy-of : (l : Limits) → bad_limits l ≡ false → can_overflow l ≡ false → Roomy l
unfolding bad_limits can_overflow multiply add64
Roomy-of l h k =
    let word : (l.completion_weight * l.max_completion_tokens) / u64_mod ≡ 0 = ground arith in
    let same : u64 (l.completion_weight * l.max_completion_tokens)
        ≡ l.completion_weight * l.max_completion_tokens =
      omega arith in
    let low : l.max_body_bytes + u64 (l.completion_weight * l.max_completion_tokens) < u64_mod =
      ground arith in
    (ground arith, omega arith)

passed :
    (b : Bool) (x : Option Parser) (p : Parser)
    → (if b then none else x) ≡ some p
    → (b ≡ false) × (x ≡ some p)
passed true x p h = absurd (cc h)
passed false x p h = (refl, h)

neither : (b c : Bool) → (b || c) ≡ false → (b ≡ false) × (c ≡ false)
neither true c h = absurd (cc h)
neither false c h = (refl, h)

accepted-Roomy :
    (utf8_valid : List ℕ → Bool) (runes : List ℕ → List ℕ) (model : List ℕ) (l : Limits)
    (p : Parser)
    → new_parser utf8_valid runes model l ≡ some p
    → Roomy l
unfolding new_parser
accepted-Roomy utf8_valid runes model l p h =
    let (a, b) = passed _ _ p h in
    let (c, d) = passed (bad_limits l || can_overflow l) _ p b in
    let (e, f) = neither (bad_limits l) (can_overflow l) c in Roomy-of l e f

-- A reservation under limits that a parser accepted never overflows: for a body and completion tokens
-- within them, it is the body's bytes and the weighted tokens, or more than the maximum.
pub reservation_units-exact :
    (utf8_valid : List ℕ → Bool) (runes : List ℕ → List ℕ) (model : List ℕ) (l : Limits)
    (p : Parser) (body_bytes tokens : ℕ)
    → new_parser utf8_valid runes model l ≡ some p
    → body_bytes ≤ l.max_body_bytes
    → 0 < tokens
    → tokens ≤ l.max_completion_tokens
    → reservation_units body_bytes tokens l.completion_weight l.max_request_units ≡ (
        if ltb l.max_request_units (body_bytes + l.completion_weight * tokens)
        then fail reservation_limit
        else ok (body_bytes + l.completion_weight * tokens))
unfolding reservation_units multiply add64
reservation_units-exact utf8_valid runes model l p body_bytes tokens h short some_token few =
    let (some_weight, room) = accepted-Roomy utf8_valid runes model l p h in
    let less : l.completion_weight * tokens ≤ l.completion_weight * l.max_completion_tokens =
      mul-le-mul_left l.completion_weight few in
    let more : 0 < l.completion_weight * tokens = mul-pos some_weight some_token in
    let word : ltb 0 ((l.completion_weight * tokens) / u64_mod) ≡ false = ground arith in
    let same : u64 (l.completion_weight * tokens) ≡ l.completion_weight * tokens = omega arith in
    let sum : u64 (body_bytes + l.completion_weight * tokens)
        ≡ body_bytes + l.completion_weight * tokens =
      omega arith in
    let kept : (leb u64_mod (body_bytes + l.completion_weight * tokens)
          || (body_bytes + l.completion_weight * tokens) == 0)
        ≡ false =
      ground arith in
    rw (word, same, sum, kept) refl
