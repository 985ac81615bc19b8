-- ===== src/Contract/Documents.antt =====
-- The JSON documents that the scan of internal/contract/jsonscan.go is about, as trees: their tokens,
-- their height, and when no object of theirs repeats a key.
use ssemaphore.Prelude.{
  ℕ, ◌+◌, ◌≤◌, ◌≡◌, refl, Bool, true, false, not, Option, none, some, List, [], ◌∷◌, max, arith,
  ltb, if◌then◌else◌, ◌↔◌, ◌||◌,
}
use ssemaphore.Contract.Reason.{Reason, duplicate_key, nesting_limit}
use ssemaphore.Contract.Decoding.{JsonToken, delim, JsonDecoder, has_key, is_delim}

mutual
  pub data Value : Type 0 where
    text : List ℕ → Value
    number : List ℕ → Value
    flag : Bool → Value
    null : Value
    array : Items → Value
    object : Fields → Value

  pub data Items : Type 0 where
    nil : Items
    cons : Value → Items → Items

  pub data Fields : Type 0 where
    end : Fields
    field : List ℕ → Value → Fields → Fields

-- The tokens of a document, before those that follow it.
unfoldable mutual
  pub tokens : Value → List JsonToken → List JsonToken
  tokens (text t) rest = JsonToken.text t ∷ rest
  tokens (number n) rest = JsonToken.number n ∷ rest
  tokens (flag b) rest = JsonToken.flag b ∷ rest
  tokens null rest = JsonToken.null ∷ rest
  tokens (array xs) rest = delim b'[' ∷ item_tokens xs rest
  tokens (object fs) rest = delim b'{' ∷ field_tokens fs rest

  pub item_tokens : Items → List JsonToken → List JsonToken
  item_tokens nil rest = delim b']' ∷ rest
  item_tokens (cons v xs) rest = tokens v (item_tokens xs rest)

  pub field_tokens : Fields → List JsonToken → List JsonToken
  field_tokens end rest = delim b'}' ∷ rest
  field_tokens (field k v fs) rest = JsonToken.text k ∷ tokens v (field_tokens fs rest)

-- What a decoder that has these tokens to come does: `More` is false before a closing delimiter
-- alone, and the input ends after the last token.
abbrev pub is_closing : JsonToken → Bool
is_closing (delim c) = is_delim b'}' (delim c) || is_delim b']' (delim c)
is_closing (JsonToken.text t) = false
is_closing (JsonToken.number n) = false
is_closing (JsonToken.flag b) = false
is_closing JsonToken.null = false

abbrev pub Gives : {S : Type 0} → JsonDecoder S → S → List JsonToken → Type 0
Gives j s [] = ((j.token s).0 ≡ none) × (j.at_end s ≡ true)
Gives j s (t ∷ ts) =
    ((j.token s).0 ≡ some t) × (j.more s ≡ not (is_closing t)) × Gives j (j.token s).1 ts

-- How deep a document nests.
unfoldable mutual
  pub height : Value → ℕ
  height (text t) = 1
  height (number n) = 1
  height (flag b) = 1
  height null = 1
  height (array xs) = 1 + height_items xs
  height (object fs) = 1 + height_fields fs

  pub height_items : Items → ℕ
  height_items nil = 0
  height_items (cons v xs) = max (height v) (height_items xs)

  pub height_fields : Fields → ℕ
  height_fields end = 0
  height_fields (field k v fs) = max (height v) (height_fields fs)

-- No object has one key twice, nor one of `keys`.
abbrev mutual
  pub Distinct : Value → Type 0
  Distinct (text t) = Unit {0}
  Distinct (number n) = Unit {0}
  Distinct (flag b) = Unit {0}
  Distinct null = Unit {0}
  Distinct (array xs) = DistinctItems xs
  Distinct (object fs) = DistinctFields [] fs

  pub DistinctItems : Items → Type 0
  DistinctItems nil = Unit {0}
  DistinctItems (cons v xs) = Distinct v × DistinctItems xs

  pub DistinctFields : List (List ℕ) → Fields → Type 0
  DistinctFields keys end = Unit {0}
  DistinctFields keys (field k v fs) =
      (has_key k keys ≡ false) × Distinct v × DistinctFields (k ∷ keys) fs

-- The first fault of a document in reading order, from depth `d`.
abbrev pub first : Option Reason → Option Reason → Option Reason
first none e = e
first (some r) e = some r

unfoldable mutual
  pub fault : ℕ → ℕ → Value → Option Reason
  fault m d (text t) = if ltb m d then some nesting_limit else none
  fault m d (number n) = if ltb m d then some nesting_limit else none
  fault m d (flag b) = if ltb m d then some nesting_limit else none
  fault m d null = if ltb m d then some nesting_limit else none
  fault m d (array xs) = if ltb m d then some nesting_limit else fault_items m (d + 1) xs
  fault m d (object fs) = if ltb m d then some nesting_limit else fault_fields m (d + 1) [] fs

  pub fault_items : ℕ → ℕ → Items → Option Reason
  fault_items m d nil = none
  fault_items m d (cons v xs) = first (fault m d v) (fault_items m d xs)

  pub fault_fields : ℕ → ℕ → List (List ℕ) → Fields → Option Reason
  fault_fields m d keys end = none
  fault_fields m d keys (field k v fs) =
      if has_key k keys
      then some duplicate_key
      else first (fault m d v) (fault_fields m d (k ∷ keys) fs)

pub first-none : (e e' : Option Reason) → first e e' ≡ none → (e ≡ none) × (e' ≡ none)
first-none none e' h = (refl, h)
first-none (some r) e' h = absurd (cc)

pub first-both : (e e' : Option Reason) → e ≡ none → e' ≡ none → first e e' ≡ none
first-both none e' h k = k
first-both (some r) e' h k = h

if-none :
    (b : Bool) (r : Reason) (e : Option Reason)
    → (if b then some r else e) ≡ none
    → (b ≡ false) × (e ≡ none)
if-none true r e h = absurd (cc)
if-none false r e h = (refl, h)

-- A document is free of faults exactly where it is no higher than the depth left, and no key repeats.
mutual
  unfolding fault height

  sound : (m d : ℕ) (v : Value) → fault m d v ≡ none → (d + height v ≤ m + 1) × Distinct v
  sound m d (text t) h = (ground arith, tt)
  sound m d (number t) h = (ground arith, tt)
  sound m d (flag t) h = (ground arith, tt)
  sound m d null h = (ground arith, tt)
  sound m d (array xs) h =
      let (shallow, deep) = if-none (ltb m d) nesting_limit (fault_items m (d + 1) xs) h in
      let (a, b) = sound_items m (d + 1) xs (ground arith) deep in (omega arith, b)
  sound m d (object fs) h =
      let (shallow, deep) = if-none (ltb m d) nesting_limit (fault_fields m (d + 1) [] fs) h in
      let (a, b) = sound_fields m (d + 1) [] fs (ground arith) deep in (omega arith, b)

  sound_items :
      (m d : ℕ) (xs : Items)
      → d ≤ m + 1
      → fault_items m d xs ≡ none
      → (d + height_items xs ≤ m + 1) × DistinctItems xs
  sound_items m d nil k h = (omega arith, tt)
  sound_items m d (cons v xs) k h =
      let (a, b) = first-none (fault m d v) (fault_items m d xs) h in
      let (x, y) = sound m d v a in let (z, w) = sound_items m d xs k b in (omega arith, (y, w))

  sound_fields :
      (m d : ℕ) (keys : List (List ℕ)) (fs : Fields)
      → d ≤ m + 1
      → fault_fields m d keys fs ≡ none
      → (d + height_fields fs ≤ m + 1) × DistinctFields keys fs
  sound_fields m d keys end k h = (omega arith, tt)
  sound_fields m d keys (field key v fs) k h =
      let (fresh, h') = if-none (has_key key keys) duplicate_key _ h in
      let (a, b) = first-none (fault m d v) (fault_fields m d (key ∷ keys) fs) h' in
      let (x, y) = sound m d v a in
      let (z, w) = sound_fields m d (key ∷ keys) fs k b in (omega arith, (fresh, y, w))

if-clear :
    (b : Bool) (r : Reason) (e : Option Reason)
    → b ≡ false
    → e ≡ none
    → (if b then some r else e) ≡ none
if-clear true r e h k = absurd (cc)
if-clear false r e h k = k

within : (m d h : ℕ) → d + (1 + h) ≤ m + 1 → ltb m d ≡ false
within m d h k = ground arith

mutual
  unfolding fault height

  complete : (m d : ℕ) (v : Value) → d + height v ≤ m + 1 → Distinct v → fault m d v ≡ none
  complete m d (text t) h k = ground arith
  complete m d (number t) h k = ground arith
  complete m d (flag t) h k = ground arith
  complete m d null h k = ground arith
  complete m d (array xs) h k =
      if-clear (ltb m d) nesting_limit _ (within m d (height_items xs) h)
        (complete_items m (d + 1) xs (omega arith) k)
  complete m d (object fs) h k =
      if-clear (ltb m d) nesting_limit _ (within m d (height_fields fs) h)
        (complete_fields m (d + 1) [] fs (omega arith) k)

  complete_items :
      (m d : ℕ) (xs : Items)
      → d + height_items xs ≤ m + 1
      → DistinctItems xs
      → fault_items m d xs ≡ none
  complete_items m d nil h k = refl
  complete_items m d (cons v xs) h (a, b) =
      first-both (fault m d v) (fault_items m d xs) (complete m d v (omega arith) a)
        (complete_items m d xs (omega arith) b)

  complete_fields :
      (m d : ℕ) (keys : List (List ℕ)) (fs : Fields)
      → d + height_fields fs ≤ m + 1
      → DistinctFields keys fs
      → fault_fields m d keys fs ≡ none
  complete_fields m d keys end h k = refl
  complete_fields m d keys (field key v fs) h (fresh, a, b) =
      if-clear (has_key key keys) duplicate_key _ fresh (
        first-both (fault m d v) (fault_fields m d (key ∷ keys) fs) (complete m d v (omega arith) a)
          (complete_fields m d (key ∷ keys) fs (omega arith) b))

pub fault_iff : (m d : ℕ) (v : Value) → fault m d v ≡ none ↔ ((d + height v ≤ m + 1) × Distinct v)
fault_iff m d v = (sound m d v, λ h. complete m d v h.0 h.1)
