-- ===== src/Contract/Escaping.antt =====
-- internal/contract/jsonscan.go: the loop over the escapes of a body ends.
use ssemaphore.Prelude.{
  ℕ, zero, suc, ◌+◌, ◌-◌, ◌%◌, ◌≤◌, ◌<◌, Bool, true, false, ◌&&◌, not, Option, none, some, List,
  ◌==◌, leb, arith, if◌then◌else◌, length,
}
use ssemaphore.Contract.Course.{Course, pure, Comes, Comes-bind, Comes-if}
use ssemaphore.Contract.Hex.{decode_hex_quad}
use ssemaphore.Contract.Escapes.{
  Escape, rejects, accepts, ends_at, byte_is, low_from, quad_from, escape, follow, asked, polled,
  escapes, valid_unicode_escapes,
}

if-either {ℓ} :
    {A : Type ℓ} (P : A → Type 0) (b : Bool) (x y : A) → P x → P y → P (if b then x else y)
if-either P true x y h k = h
if-either P false x y h k = k

-- An escape ends no earlier than at `k`.
abbrev Reaches : ℕ → Escape → Type 0
Reaches k rejects = Unit {0}
Reaches k accepts = Unit {0}
Reaches k (ends_at i) = k ≤ i

low_from-Reaches : (k index : ℕ) (o : Option ℕ) → k ≤ index → Reaches k (low_from index o)
low_from-Reaches k index none h = tt
low_from-Reaches k index (some low) h =
    if-either (Reaches k) (_) rejects (ends_at (index + 6)) tt (omega arith)

quad_from-Reaches : (body : List ℕ) (k : ℕ) (o : Option ℕ) → Reaches k (quad_from body k o)
quad_from-Reaches body k none = tt
quad_from-Reaches body k (some value) =
    if-either (Reaches k) (leb 56320 value && leb value 57343) _ _ tt (
      if-either (Reaches k) (leb 55296 value && leb value 56319) _ _
        (if-either (Reaches k) _ rejects (low_from (k + 4) (decode_hex_quad body (k + 4 + 3))) tt
          (low_from-Reaches k (k + 4) (decode_hex_quad body (k + 4 + 3)) (omega arith)))
        (omega arith))

escape-Reaches : (body : List ℕ) (k : ℕ) → Reaches k (escape body k)
unfolding escape
escape-Reaches body k = if-either (Reaches k) (leb (length body) k) _ _ tt (
    if-either (Reaches k) (not (byte_is body k b'u')) _ _ (omega arith)
      (quad_from-Reaches body k (decode_hex_quad body (k + 1))))

follow-Comes :
    {E : Type 0} (k : ℕ) (e : Escape) (go : ℕ → Course E ℕ Bool) (n : ℕ)
    → Reaches k e
    → ((i : ℕ) → k ≤ i → Comes (go i n) (λ b m. Unit {0}))
    → Comes (follow e go n) (λ b m. Unit {0})
follow-Comes k rejects go n h l = tt
follow-Comes k accepts go n h l = tt
follow-Comes k (ends_at i) go n h l = l i h

module _ (ctx : ℕ → Bool) (body : List ℕ) where
  polled-Comes : (E : Type 0) (index n : ℕ) → Comes {E = E} (polled ctx index n) (λ b m. Unit {0})
  unfolding polled
  polled-Comes E index n =
      Comes-if (index % 1024 == 0) (asked ctx) (pure false) n (λ b m. Unit {0}) (λ _. tt) (λ _. tt)

  escapes-Comes :
      (E : Type 0) (f index : ℕ) (in_string : Bool) (n : ℕ)
      → length body - index < f
      → Comes {E = E} (escapes ctx body f index in_string n) (λ b m. Unit {0})
  unfolding escapes
  escapes-Comes E zero index in_string n h = absurd (omega arith)
  escapes-Comes E (suc f) index in_string n h =
      Comes-if (leb (length body) index) (pure true) _ n _ (λ _. tt)
        (λ inside.
          let left : length body - (index + 1) < f = ground arith in
          Comes-bind (polled ctx index n) _ (λ b m. Unit {0}) _ (polled-Comes E index n)
            (λ gone m _.
              Comes-if gone (pure false) _ m _ (λ _. tt)
                (λ _.
                  Comes-if (byte_is body index b'"') _ _ m _
                    (λ _. escapes-Comes E f (index + 1) (not in_string) m left)
                    (λ _.
                      Comes-if (byte_is body index b'\\' && in_string) _ _ m _
                        (λ _.
                          follow-Comes (index + 1) (escape body (index + 1)) _ m
                            (escape-Reaches body (index + 1))
                            (λ i k. escapes-Comes E f (i + 1) in_string m (omega arith)))
                        (λ _. escapes-Comes E f (index + 1) in_string m left)))))

  pub valid_unicode_escapes-Comes :
      (E : Type 0) (n : ℕ) → Comes {E = E} (valid_unicode_escapes ctx body n) (λ b m. Unit {0})
  unfolding valid_unicode_escapes
  valid_unicode_escapes-Comes E n = escapes-Comes E (suc (length body)) 0 false n (omega arith)
