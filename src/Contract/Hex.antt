-- ===== src/Contract/Hex.antt =====
-- `decodeHexQuad` (internal/contract/jsonscan.go): the four hexadecimal digits of an escape, in a
-- body of bytes.
use ssemaphore.Prelude.{
  ℕ, zero, suc, ◌+◌, ◌-◌, ◌*◌, ◌%◌, ◌<◌, ◌≡◌, Bool, ◌&&◌, Option, none, some, List, arith, leb, ltb,
  if◌then◌else◌, length, get_elem?, lt-get_elem?, ◌>>=◌, ap,
}

-- The value of a digit, in either case.
unfoldable pub hex_digit : ℕ → Option ℕ
hex_digit c =
    if leb 48 c && leb c 57
    then some (c - 48)
    else if leb 97 c && leb c 102
    then some (c - 97 + 10)
    else if leb 65 c && leb c 70
    then some (c - 65 + 10)
    else none

-- value << 4 on a uint16, whose low four bits are 0, so that `|` adds the digit.
abbrev pub shift_in : ℕ → ℕ → ℕ
shift_in value digit = (value * 16) % 65536 + digit

-- The loop over the digits left, from the given index.
unfoldable pub read_digits : ℕ → List ℕ → ℕ → ℕ → Option ℕ
read_digits zero body index value = some value
read_digits (suc k) body index value = get_elem? body index >>= λ c.
    (hex_digit c >>= λ d. read_digits k body (index + 1) (shift_in value d))

-- An index is never negative here.
unfoldable pub decode_hex_quad : List ℕ → ℕ → Option ℕ
decode_hex_quad body start =
    if ltb (length body) (start + 4) then none else read_digits 4 body start 0

-- The character that writes a value below 16: `0` to `9`, then `A` to `F` or `a` to `f`.
unfoldable pub hex_char : Bool → ℕ → ℕ
hex_char upper v = if ltb v 10 then 48 + v else if upper then 65 + v - 10 else 97 + v - 10

hex_digit-hex_char : (upper : Bool) (v : ℕ) → v < 16 → hex_digit (hex_char upper v) ≡ some v
unfolding hex_digit hex_char
hex_digit-hex_char Bool.true v h = ground arith
hex_digit-hex_char Bool.false v h = ground arith

-- The four characters that write the values w, x, y and z below 16 in hexadecimal, each in upper or
-- lower case, decode to w * 4096 + x * 256 + y * 16 + z, with no bit lost.
pub decode_hex_quad-exact :
    (body : List ℕ) (start w x y z : ℕ) (u₁ u₂ u₃ u₄ : Bool)
    → w < 16
    → x < 16
    → y < 16
    → z < 16
    → get_elem? body start ≡ some (hex_char u₁ w)
    → get_elem? body (start + 1) ≡ some (hex_char u₂ x)
    → get_elem? body (start + 1 + 1) ≡ some (hex_char u₃ y)
    → get_elem? body (start + 1 + 1 + 1) ≡ some (hex_char u₄ z)
    → decode_hex_quad body start ≡ some (w * 4096 + x * 256 + y * 16 + z)
unfolding decode_hex_quad read_digits
decode_hex_quad-exact body start w x y z u₁ u₂ u₃ u₄ l₁ l₂ l₃ l₄ e₁ e₂ e₃ e₄ =
    let room : ltb (length body) (start + 4) ≡ Bool.false =
      ground (arith, lt-get_elem? body (start + 1 + 1 + 1) e₄) in
    let value : shift_in (shift_in (shift_in (shift_in 0 w) x) y) z
        ≡ w * 4096 + x * 256 + y * 16 + z =
      omega (arith, l₁, l₂, l₃, l₄) in
    let f₁ = hex_digit-hex_char u₁ w l₁ in
    let f₂ = hex_digit-hex_char u₂ x l₂ in
    let f₃ = hex_digit-hex_char u₃ y l₃ in
    let f₄ = hex_digit-hex_char u₄ z l₄ in
    simp (room, e₁, f₁, e₂, f₂, e₃, f₃, e₄, f₄) (ap some value)
