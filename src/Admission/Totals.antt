-- ===== src/Admission/Totals.antt =====
-- Sums and ID lists over the entries, in which the owner's accounting is stated.
use ssemaphore.Prelude.{
  ap, inl, inr, ◌<◌, ℕ, ◌+◌, ◌-◌, ◌≤◌, ◌≡◌, refl, Bool, true, false, Option, none, some, List, [],
  ◌∷◌, ◌++◌, arith, ◌==◌, if◌then◌else◌, length, Bool-cases,
}
use ssemaphore.Admission.Entries.{Entry, find, put, delete, Distinct}

abbrev pub weigh : Bool → ℕ → ℕ
weigh true n = n
weigh false n = 0

-- What the chosen entries sum up to.
unfoldable pub total : (Entry → Bool) → (Entry → ℕ) → List Entry → ℕ
total p w [] = 0
total p w (e ∷ es) = weigh (p e) (w e) + total p w es

-- The IDs of the chosen entries, in order.
unfoldable pub ids : (Entry → Bool) → List Entry → List ℕ
ids p [] = []
ids p (e ∷ es) = let rest = ids p es in if p e then e.id ∷ rest else rest

-- Whether an entry is there and chosen, as a number.
abbrev pub hit : (Entry → Bool) → Option Entry → ℕ
hit p none = 0
hit p (some e) = weigh (p e) 1

unfoldable pub erase : ℕ → List ℕ → List ℕ
erase a [] = []
erase a (x ∷ xs) = if x == a then xs else x ∷ erase a xs

unfoldable pub count : ℕ → List ℕ → ℕ
count a [] = 0
count a (x ∷ xs) = weigh (x == a) 1 + count a xs

pub count-erase : (a b : ℕ) (xs : List ℕ) → count a (erase b xs) ≡ count a xs - weigh (b == a) 1
unfolding count erase
count-erase a b [] = ground arith
count-erase a b (x ∷ xs) = ground (arith, count-erase a b xs)

pub count-append : (a : ℕ) (xs ys : List ℕ) → count a (xs ++ ys) ≡ count a xs + count a ys
unfolding count
count-append a [] ys = omega arith
count-append a (x ∷ xs) ys = omega (arith, count-append a xs ys)

module _ (p : Entry → Bool) (w : Entry → ℕ) where
  pub total-empty : total p w [] ≡ 0
  unfolding total
  total-empty = refl

  pub total-put :
      (e old : Entry) (es : List Entry)
      → find e.id es ≡ some old
      → total p w (put e es) + weigh (p old) (w old) ≡ total p w es + weigh (p e) (w e)
  unfolding total put find
  total-put e old [] h = absurd (ground arith)
  total-put e old (x ∷ es) h = ground (arith, total-put e old es)

  pub total-put_new :
      (e : Entry) (es : List Entry)
      → find e.id es ≡ none
      → total p w (put e es) ≡ total p w es + weigh (p e) (w e)
  unfolding total put find
  total-put_new e [] h = omega arith
  total-put_new e (x ∷ es) h = ground (arith, total-put_new e es)

  pub total-delete :
      (k : ℕ) (e : Entry) (es : List Entry)
      → find k es ≡ some e
      → total p w (delete k es) + weigh (p e) (w e) ≡ total p w es
  unfolding total delete find
  total-delete k e [] h = absurd (ground arith)
  total-delete k e (x ∷ es) h = ground (arith, total-delete k e es)

  pub le-total :
      (k : ℕ) (e : Entry) (es : List Entry) → find k es ≡ some e → weigh (p e) (w e) ≤ total p w es
  unfolding total find
  le-total k e [] h = absurd (ground arith)
  le-total k e (x ∷ es) h = ground (arith, le-total k e es)

module _ (p : Entry → Bool) where
  pub count-ids : (a : ℕ) (es : List Entry) → Distinct es → count a (ids p es) ≡ hit p (find a es)
  unfolding count ids find
  count-ids a [] d = refl
  count-ids a (x ∷ es) d = ground (arith, count-ids a es d.1, Bool-cases (p x))

  pub length-ids : (es : List Entry) → length (ids p es) ≡ total p (λ _. 1) es
  unfolding ids total
  length-ids [] = refl
  length-ids (x ∷ es) = ground (arith, length-ids es)

  -- Same ID, and chosen as before.
  pub ids-put_same :
      (e old : Entry) (es : List Entry)
      → find e.id es ≡ some old
      → p old ≡ p e
      → ids p (put e es) ≡ ids p es
  unfolding ids put find
  ids-put_same e old [] h s = absurd (ground arith)
  ids-put_same e old (x ∷ es) h s = ground (arith, ids-put_same e old es)

  erase_absent : (a : ℕ) (es : List Entry) → find a es ≡ none → erase a (ids p es) ≡ ids p es
  unfolding ids find erase
  erase_absent a [] h = refl
  erase_absent a (x ∷ es) h = ground (arith, erase_absent a es)

  pub ids-put_drop :
      (e : Entry) (old : Entry) (es : List Entry)
      → find e.id es ≡ some old
      → Distinct es
      → p e ≡ false
      → ids p (put e es) ≡ erase e.id (ids p es)
  unfolding ids put find erase
  ids-put_drop e old [] h d s = absurd (ground arith)
  ids-put_drop e old (x ∷ es) h d s =
      ground (arith, ids-put_drop e old es, erase_absent e.id es, d.0)

  pub ids-delete :
      (k : ℕ) (es : List Entry) → Distinct es → ids p (delete k es) ≡ erase k (ids p es)
  unfolding ids delete find erase
  ids-delete k [] d = refl
  ids-delete k (x ∷ es) d = ground (arith, ids-delete k es d.1, erase_absent k es, d.0)

  pub ids-delete_other :
      (k : ℕ) (e : Entry) (es : List Entry)
      → find k es ≡ some e
      → p e ≡ false
      → ids p (delete k es) ≡ ids p es
  unfolding ids delete find
  ids-delete_other k e [] h s = refl
  ids-delete_other k e (x ∷ es) h s = ground (arith, ids-delete_other k e es)

  pub ids-put_new :
      (e : Entry) (es : List Entry)
      → find e.id es ≡ none
      → ids p (put e es) ≡ (if p e then ids p es ++ e.id ∷ [] else ids p es)
  unfolding ids put find
  ids-put_new e [] h = ground arith
  ids-put_new e (x ∷ es) h = ground (arith, ids-put_new e es)

pub hit-pos :
    (p : Entry → Bool) (o : Option Entry) → 0 < hit p o → (e : Entry) × (o ≡ some e) × (p e ≡ true)
hit-pos p none h = absurd (omega arith)
hit-pos p (some e) h = (e, refl, ground arith)

beyond :
    (x e : Entry) (es : List Entry)
    → find x.id es ≡ none
    → find e.id es ≡ some e
    → find e.id (x ∷ es) ≡ some e
unfolding find
beyond x e es absent found = elim (Bool-cases (x.id == e.id)) [
  | inl same ↦ let p : x.id ≡ e.id = ground arith in cc (absent, ap (λ k. find k es) p, found)
  | inr differ ↦ rw differ found
]

-- A count that is not 0 has an entry behind it.
pub total-pos :
    (p : Entry → Bool) (es : List Entry)
    → Distinct es
    → 0 < total p (λ _. 1) es
    → (e : Entry) × (find e.id es ≡ some e) × (p e ≡ true)
unfolding total find
total-pos p [] d h = absurd (omega arith)
total-pos p (x ∷ es) d h = elim (Bool-cases (p x)) [
  | inl chosen ↦ (x, ground arith, chosen)
  | inr passed ↦
      let (e, found, chosen) = total-pos p es d.1 (ground arith) in
      (e, beyond x e es d.0 found, chosen)
]
