-- ===== src/Admission/Accounts.antt =====
-- The accounting of internal/admission/owner.go stated exactly: what counters say of the entries,
-- and how they follow an entry that comes, goes or changes its phase.
use ssemaphore.Prelude.{
  ℕ, ◌+◌, ◌-◌, ◌≤◌, ◌<◌, ◌≡◌, refl, Bool, true, false, ◌&&◌, Option, none, some, List, [], arith,
  u64_mod,
}
use ssemaphore.Admission.Types.{Admission, Counters, QueueLimits, InflightLimits}
use ssemaphore.Admission.Counters.{
  remove_queued, remove_inflight, add_queued, add_inflight, queue_limit_failure, inflight_fits,
  zero_counters,
}
use ssemaphore.Admission.Types.{no_resource}
use ssemaphore.Admission.Entries.{Entry, is_queued, is_inflight, find, put, delete}
use ssemaphore.Admission.Totals.{weigh, total, total-put, total-put_new, total-delete, le-total}

abbrev pub one : Entry → ℕ
one e = 1

abbrev pub bytes_of : Entry → ℕ
bytes_of e = e.admission.body_bytes

abbrev pub work_of : Entry → ℕ
work_of e = e.admission.work_units

abbrev pub queued_in : (Entry → Bool) → Entry → Bool
queued_in sel e = sel e && is_queued e

abbrev pub inflight_in : (Entry → Bool) → Entry → Bool
inflight_in sel e = sel e && is_inflight e

-- The counters are the sums over the entries that `sel` chooses.
pub record Accounts (sel : Entry → Bool) (c : Counters) (es : List Entry) : Type 0 where
  pub queued_count : c.queued_count ≡ total (queued_in sel) one es
  pub queued_bytes : c.queued_bytes ≡ total (queued_in sel) bytes_of es
  pub queued_work : c.queued_work ≡ total (queued_in sel) work_of es
  pub inflight_count : c.inflight_count ≡ total (inflight_in sel) one es
  pub inflight_work : c.inflight_work ≡ total (inflight_in sel) work_of es

-- The counters keep within the limits, and those within a uint64.
pub record Within (q : QueueLimits) (f : InflightLimits) (c : Counters) : Type 0 where
  pub queued_count : c.queued_count ≤ q.count
  pub queued_bytes : c.queued_bytes ≤ q.bytes
  pub queued_work : c.queued_work ≤ q.work
  pub inflight_count : c.inflight_count ≤ f.count
  pub inflight_work : c.inflight_work ≤ f.work

pub record InRange (q : QueueLimits) (f : InflightLimits) : Type 0 where
  pub queue_count : q.count < u64_mod
  pub queue_bytes : q.bytes < u64_mod
  pub queue_work : q.work < u64_mod
  pub inflight_count : f.count < u64_mod
  pub inflight_work : f.work < u64_mod

-- What an entry, or none, adds to a sum.
abbrev pub share : (Entry → Bool) → (Entry → ℕ) → Option Entry → ℕ
share p w none = 0
share p w (some e) = weigh (p e) (w e)

-- The counters go from `c` to `c'` as an entry goes from `o` to `n`.
pub record Moved (sel : Entry → Bool) (o n : Option Entry) (c c' : Counters) : Type 0 where
  pub queued_count :
      c'.queued_count + share (queued_in sel) one o ≡ c.queued_count + share (queued_in sel) one n
  pub queued_bytes :
      c'.queued_bytes + share (queued_in sel) bytes_of o
      ≡ c.queued_bytes + share (queued_in sel) bytes_of n
  pub queued_work :
      c'.queued_work + share (queued_in sel) work_of o
      ≡ c.queued_work + share (queued_in sel) work_of n
  pub inflight_count :
      c'.inflight_count + share (inflight_in sel) one o
      ≡ c.inflight_count + share (inflight_in sel) one n
  pub inflight_work :
      c'.inflight_work + share (inflight_in sel) work_of o
      ≡ c.inflight_work + share (inflight_in sel) work_of n

module _ (sel : Entry → Bool) (c : Counters) (es : List Entry) where
  pub Accounts-delete :
      (c' : Counters) (k : ℕ) (e : Entry)
      → Accounts sel c es
      → find k es ≡ some e
      → Moved sel (some e) none c c'
      → Accounts sel c' (delete k es)
  Accounts-delete c' k e a h m = record {
    queued_count = omega (arith, total-delete (queued_in sel) one k e es h);
    queued_bytes = omega (arith, total-delete (queued_in sel) bytes_of k e es h);
    queued_work = omega (arith, total-delete (queued_in sel) work_of k e es h);
    inflight_count = omega (arith, total-delete (inflight_in sel) one k e es h);
    inflight_work = omega (arith, total-delete (inflight_in sel) work_of k e es h);
  }

  pub Accounts-put :
      (c' : Counters) (e old : Entry)
      → Accounts sel c es
      → find e.id es ≡ some old
      → Moved sel (some old) (some e) c c'
      → Accounts sel c' (put e es)
  Accounts-put c' e old a h m = record {
    queued_count = omega (arith, total-put (queued_in sel) one e old es h);
    queued_bytes = omega (arith, total-put (queued_in sel) bytes_of e old es h);
    queued_work = omega (arith, total-put (queued_in sel) work_of e old es h);
    inflight_count = omega (arith, total-put (inflight_in sel) one e old es h);
    inflight_work = omega (arith, total-put (inflight_in sel) work_of e old es h);
  }

  pub Accounts-put_new :
      (c' : Counters) (e : Entry)
      → Accounts sel c es
      → find e.id es ≡ none
      → Moved sel none (some e) c c'
      → Accounts sel c' (put e es)
  Accounts-put_new c' e a h m = record {
    queued_count = omega (arith, total-put_new (queued_in sel) one e es h);
    queued_bytes = omega (arith, total-put_new (queued_in sel) bytes_of e es h);
    queued_work = omega (arith, total-put_new (queued_in sel) work_of e es h);
    inflight_count = omega (arith, total-put_new (inflight_in sel) one e es h);
    inflight_work = omega (arith, total-put_new (inflight_in sel) work_of e es h);
  }

pub zero-Accounts : (sel : Entry → Bool) → Accounts sel zero_counters []
unfolding zero_counters total
zero-Accounts sel = record {
  queued_count = refl;
  queued_bytes = refl;
  queued_work = refl;
  inflight_count = refl;
  inflight_work = refl;
}

abbrev pub minus_queued : Counters → Admission → Counters
minus_queued c a = record c {
  queued_count = c.queued_count - 1;
  queued_bytes = c.queued_bytes - a.body_bytes;
  queued_work = c.queued_work - a.work_units;
}

abbrev pub minus_inflight : Counters → Admission → Counters
minus_inflight c a = record c {
  inflight_count = c.inflight_count - 1;
  inflight_work = c.inflight_work - a.work_units;
}

-- An entry that the counters account for.
module _ (sel : Entry → Bool) (c : Counters) (es : List Entry) (k : ℕ) (e : Entry)
    (a : Accounts sel c es) (h : find k es ≡ some e) (chosen : sel e ≡ true) where
  queued_shares :
      is_queued e ≡ true
      → (1 ≤ c.queued_count)
        × (e.admission.body_bytes ≤ c.queued_bytes)
        × (e.admission.work_units ≤ c.queued_work)
  queued_shares q = ground (
    arith,
    chosen,
    le-total (queued_in sel) one k e es h,
    le-total (queued_in sel) bytes_of k e es h,
    le-total (queued_in sel) work_of k e es h,
  )

  inflight_shares :
      is_inflight e ≡ true → (1 ≤ c.inflight_count) × (e.admission.work_units ≤ c.inflight_work)
  inflight_shares q = ground (
    arith,
    chosen,
    le-total (inflight_in sel) one k e es h,
    le-total (inflight_in sel) work_of k e es h,
  )

  -- So its release does not panic,
  pub remove_queued_lem :
      is_queued e ≡ true → remove_queued c e.admission ≡ some (minus_queued c e.admission)
  unfolding remove_queued
  remove_queued_lem q = ground (arith, queued_shares q)

  pub remove_inflight_lem :
      is_inflight e ≡ true → remove_inflight c e.admission ≡ some (minus_inflight c e.admission)
  unfolding remove_inflight
  remove_inflight_lem q = ground (arith, inflight_shares q)

  -- and the counters follow.
  pub minus_queued-Moved :
      is_queued e ≡ true → Moved sel (some e) none c (minus_queued c e.admission)
  minus_queued-Moved q = ground (arith, chosen, queued_shares q)

  pub minus_inflight-Moved :
      is_inflight e ≡ true → Moved sel (some e) none c (minus_inflight c e.admission)
  minus_inflight-Moved q = ground (arith, chosen, inflight_shares q)

  pub dispatch-Moved :
      (e' : Entry) (q : QueueLimits) (f : InflightLimits)
      → is_queued e ≡ true
      → is_inflight e' ≡ true
      → e'.admission ≡ e.admission
      → sel e' ≡ true
      → Within q f c
      → InRange q f
      → inflight_fits c e.admission f ≡ true
      → Moved sel (some e) (some e') c (add_inflight (minus_queued c e.admission) e.admission)
  unfolding add_inflight inflight_fits
  dispatch-Moved e' q f hq hf ha hs w r fit = ground (arith, chosen, queued_shares hq)

-- An entry that the counters do not account for.
pub skip-Moved :
    (sel : Entry → Bool) (c : Counters) (o n : Entry)
    → sel o ≡ false
    → sel n ≡ false
    → Moved sel (some o) (some n) c c
skip-Moved sel c o n ho hn = ground arith

pub skip_delete-Moved :
    (sel : Entry → Bool) (c : Counters) (o : Entry) → sel o ≡ false → Moved sel (some o) none c c
skip_delete-Moved sel c o ho = ground arith

pub skip_new-Moved :
    (sel : Entry → Bool) (c : Counters) (n : Entry) → sel n ≡ false → Moved sel none (some n) c c
skip_new-Moved sel c n hn = ground arith

-- A change that leaves the choice, the phase and the admission alone.
pub same-Moved :
    (sel : Entry → Bool) (c : Counters) (o n : Entry)
    → sel n ≡ sel o
    → n.phase ≡ o.phase
    → n.admission ≡ o.admission
    → Moved sel (some o) (some n) c c
same-Moved sel c o n hs hp ha = ground arith

pub enqueue-Moved :
    (sel : Entry → Bool) (c : Counters) (e : Entry) (q : QueueLimits) (f : InflightLimits)
    → sel e ≡ true
    → is_queued e ≡ true
    → InRange q f
    → queue_limit_failure c e.admission q ≡ no_resource
    → Moved sel none (some e) c (add_queued c e.admission)
unfolding add_queued queue_limit_failure
enqueue-Moved sel c e q f hs hq r fit = ground arith

pub enqueue-Within :
    (c : Counters) (a : Admission) (q : QueueLimits) (f : InflightLimits)
    → Within q f c
    → InRange q f
    → queue_limit_failure c a q ≡ no_resource
    → Within q f (add_queued c a)
unfolding add_queued queue_limit_failure
enqueue-Within c a q f w r fit = ground arith

pub dispatch-Within :
    (c : Counters) (a : Admission) (q : QueueLimits) (f : InflightLimits)
    → Within q f c
    → InRange q f
    → inflight_fits c a f ≡ true
    → Within q f (add_inflight (minus_queued c a) a)
unfolding add_inflight inflight_fits
dispatch-Within c a q f w r fit = ground arith
