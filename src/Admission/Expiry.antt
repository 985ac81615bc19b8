-- ===== src/Admission/Expiry.antt =====
-- internal/admission/expiry.go: the heap of queued entries, by deadline and then by sequence.
-- `Less` is a strict order on the entries in it, so what container/heap shows at index 0 does not
-- depend on the heap's layout: the heap is modelled by the list in that order. A slot holds what
-- `Less` reads of an entry, which does not change while the entry is in the heap.
use ssemaphore.Prelude.{
  ℕ, ◌+◌, ◌-◌, ◌≤◌, ◌<◌, ◌≡◌, refl, Bool, ◌&&◌, List, [], ◌∷◌, arith, ◌==◌, ltb, if◌then◌else◌,
}
use ssemaphore.Admission.Entries.{Entry}
use ssemaphore.Admission.Totals.{weigh}

pub record Slot : Type 0 where
  pub id : ℕ
  pub deadline : ℕ
  pub sequence : ℕ

abbrev pub slot_of : Entry → Slot
slot_of e = record { id = e.id; deadline = e.deadline; sequence = e.sequence }

unfoldable pub less : Slot → Slot → Bool
less x y = if x.deadline == y.deadline then ltb x.sequence y.sequence else ltb x.deadline y.deadline

abbrev pub slot_eq : Slot → Slot → Bool
slot_eq x y = x.id == y.id && (x.deadline == y.deadline && x.sequence == y.sequence)

-- heap.Push
unfoldable pub push : Slot → List Slot → List Slot
unfolding less
push x [] = x ∷ []
push x (y ∷ q) = if less y x then y ∷ push x q else x ∷ y ∷ q

-- `expiryQueue.remove`: nothing happens if the item is not in the heap.
unfoldable pub remove : Slot → List Slot → List Slot
remove x [] = []
remove x (y ∷ q) = if slot_eq y x then q else y ∷ remove x q

unfoldable pub count : Slot → List Slot → ℕ
count a [] = 0
count a (x ∷ q) = weigh (slot_eq x a) 1 + count a q

pub count-empty : (a : Slot) → count a [] ≡ 0
unfolding count
count-empty a = refl

pub count-push :
    (a x : Slot) (q : List Slot) → count a (push x q) ≡ count a q + weigh (slot_eq x a) 1
unfolding count push
count-push a x [] = omega arith
count-push a x (y ∷ q) = ground (arith, count-push a x q)

pub count-remove :
    (a x : Slot) (q : List Slot) → count a (remove x q) ≡ count a q - weigh (slot_eq x a) 1
unfolding count remove
count-remove a x [] = ground arith
count-remove a x (y ∷ q) = ground (arith, count-remove a x q)

-- No slot is due before `d`.
abbrev pub From : ℕ → List Slot → Type 0
From d [] = Unit {0}
From d (x ∷ q) = (d ≤ x.deadline) × From d q

-- The earliest deadline comes first.
abbrev pub IsOrdered : List Slot → Type 0
IsOrdered [] = Unit {0}
IsOrdered (x ∷ q) = From x.deadline q × IsOrdered q

From-mono : (d d' : ℕ) (q : List Slot) → d ≤ d' → From d' q → From d q
From-mono d d' [] h f = tt
From-mono d d' (x ∷ q) h f = (omega arith, From-mono d d' q h f.1)

push-From : (d : ℕ) (x : Slot) (q : List Slot) → d ≤ x.deadline → From d q → From d (push x q)
unfolding push
push-From d x [] h f = (h, tt)
push-From d x (y ∷ q) h f = ground (arith, push-From d x q h f.1)

remove-From : (d : ℕ) (x : Slot) (q : List Slot) → From d q → From d (remove x q)
unfolding remove
remove-From d x [] f = tt
remove-From d x (y ∷ q) f = ground (arith, remove-From d x q f.1)

pub push-IsOrdered : (x : Slot) (q : List Slot) → IsOrdered q → IsOrdered (push x q)
unfolding push
push-IsOrdered x [] o = (tt, tt)
push-IsOrdered x (y ∷ q) o =
    ground
      (arith, push-From y.deadline x q, push-IsOrdered x q o.1, From-mono x.deadline y.deadline q)

pub remove-IsOrdered : (x : Slot) (q : List Slot) → IsOrdered q → IsOrdered (remove x q)
unfolding remove
remove-IsOrdered x [] o = tt
remove-IsOrdered x (y ∷ q) o =
    ground (arith, remove-From y.deadline x q o.0, remove-IsOrdered x q o.1)

-- A slot in an ordered heap is not due before its first.
pub le-first :
    (a x : Slot) (q : List Slot) → From x.deadline q → 0 < count a (x ∷ q) → x.deadline ≤ a.deadline
unfolding count
le-first a x [] f h = ground arith
le-first a x (y ∷ q) f h = ground (arith, le-first a (record y { deadline = x.deadline }) q, f)
