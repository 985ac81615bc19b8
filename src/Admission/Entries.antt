-- ===== src/Admission/Entries.antt =====
-- internal/admission/owner.go: the entries that the owner holds, and its map from an ID to the
-- entry. A pointer to an entry is its ID, and the entry is what the map holds under it.
use ssemaphore.Prelude.{
  ℕ, ◌≡◌, refl, Bool, true, false, Option, none, some, List, [], ◌∷◌, arith, ◌==◌, if◌then◌else◌,
}
use ssemaphore.Admission.Types.{Admission, CancelCause}

-- `unset` is the zero value of both.
pub data EntryState : Type 0 where
  unset queued inflight : EntryState

pub data AccountingPhase : Type 0 where
  unset queued inflight : AccountingPhase

pub data DeadlineSource : Type 0 where
  queue_deadline client_deadline : DeadlineSource

pub record Entry : Type 0 where
  pub id : ℕ
  pub sequence : ℕ
  pub admission : Admission
  pub deadline : ℕ
  pub deadline_source : DeadlineSource
  pub state : EntryState
  pub phase : AccountingPhase
  pub tenant : ℕ
  pub cancel_cause : CancelCause

abbrev pub is_queued : Entry → Bool
is_queued e = elim e.phase [ queued ↦ true | _ ↦ false ]

abbrev pub is_inflight : Entry → Bool
is_inflight e = elim e.phase [ inflight ↦ true | _ ↦ false ]

-- entries[id]
unfoldable pub find : ℕ → List Entry → Option Entry
find id [] = none
find id (e ∷ es) = if e.id == id then some e else find id es

-- entries[e.id] = e: in place, or last if the map has no such key.
unfoldable pub put : Entry → List Entry → List Entry
put e [] = e ∷ []
put e (x ∷ es) = if x.id == e.id then e ∷ es else x ∷ put e es

-- delete(entries, id)
unfoldable pub delete : ℕ → List Entry → List Entry
delete id [] = []
delete id (e ∷ es) = if e.id == id then es else e ∷ delete id es

-- No two entries have one ID.
abbrev pub Distinct : List Entry → Type 0
Distinct [] = Unit {0}
Distinct (e ∷ es) = (find e.id es ≡ none) × Distinct es

pub find-put :
    (id : ℕ) (e : Entry) (es : List Entry)
    → find id (put e es) ≡ (if e.id == id then some e else find id es)
unfolding find put
find-put id e [] = refl
find-put id e (x ∷ es) = ground (arith, find-put id e es)

pub find-delete :
    (id k : ℕ) (es : List Entry)
    → Distinct es
    → find id (delete k es) ≡ (if k == id then none else find id es)
unfolding find delete
find-delete id k [] d = ground arith
find-delete id k (x ∷ es) d = ground (arith, find-delete id k es d.1)

pub put-Distinct : (e : Entry) (es : List Entry) → Distinct es → Distinct (put e es)
unfolding put find
put-Distinct e [] d = (refl, tt)
put-Distinct e (x ∷ es) d = ground (arith, put-Distinct e es d.1, find-put x.id e es)

pub delete-Distinct : (k : ℕ) (es : List Entry) → Distinct es → Distinct (delete k es)
unfolding delete find
delete-Distinct k [] d = tt
delete-Distinct k (x ∷ es) d = ground (arith, delete-Distinct k es d.1, find-delete x.id k es d.1)

pub find-id : (id : ℕ) (es : List Entry) {e : Entry} → find id es ≡ some e → e.id ≡ id
unfolding find
find-id id [] h = absurd (ground arith)
find-id id (x ∷ es) {e} h = ground (arith, find-id id es {e = e})

pub delete-put :
    (e old : Entry) (es : List Entry)
    → find e.id es ≡ some old
    → delete e.id (put e es) ≡ delete e.id es
unfolding find delete put
delete-put e old [] h = absurd (ground arith)
delete-put e old (x ∷ es) h = ground (arith, delete-put e old es)

pub put-put : (e e' : Entry) (es : List Entry) → e'.id ≡ e.id → put e (put e' es) ≡ put e es
unfolding put
put-put e e' [] h = ground arith
put-put e e' (x ∷ es) h = ground (arith, put-put e e' es)
