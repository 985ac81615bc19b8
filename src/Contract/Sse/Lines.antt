-- ===== src/Contract/Sse/Lines.antt =====
-- internal/contract/sse.go: the lines of a stream within their limits, byte for byte.
use ssemaphore.Prelude.{
  ℕ, zero, suc, ◌+◌, ◌*◌, ◌≤◌, ◌<◌, ◌≡◌, refl, sym, ap, ◌∙◌, Bool, true, false, some, List, [],
  ◌++◌, leb, ltb, if◌then◌else◌, length, min, max, u64, u64_mod, arith, length-append, append_assoc,
  Bool-cases, inl, inr,
}
use ssemaphore.Contract.Course.{Course, ok, fail, Holds, Holds-bind, Holds-test}
use ssemaphore.Contract.Sse.Wire.{
  ReadEnd, found, buffer_full, at_eof, broken, Slice, WireReader, LineError, line_failed,
  context_error, Frame, SseLine, add64, over, append_sse_bytes, check_context, take_slice,
  account_bytes, append_raw, read_fragment, line_end, line_loop, read_sse_line,
}
use ssemaphore.HttpApi.Limits.{SseLimits}

-- What is relied on of the reader: `remaining` is what it still gives before it ends or breaks. A slice
-- comes off its front, a full buffer holds something, and the end of the input leaves nothing.
pub record WireLaws {R : Type 0} (w : WireReader R) (remaining : R → List ℕ) : Type 0 where
  pub slice_splits :
      (r : R) → remaining r ≡ (w.read_slice r).0.fragment ++ remaining (w.read_slice r).1
  pub full_some :
      (r : R) → (w.read_slice r).0.ending ≡ buffer_full → 0 < length (w.read_slice r).0.fragment
  pub eof_none : (r : R) → (w.read_byte r).0 ≡ at_eof → remaining r ≡ []

pub over-exact :
    (limit counter count : ℕ)
    → over limit counter count ≡ false
    → ((add64 counter count).0 ≡ counter + count) × (counter + count ≤ limit)
unfolding over add64
over-exact limit counter count h =
    let fits : counter + count < u64_mod = ground arith in
    let same : u64 (counter + count) ≡ counter + count = omega arith in (same, ground arith)

failing :
    {R E : Type 0} (b : Bool) (e : E) (fr : Frame R) (P : Frame R → Type 0)
    (D : E → Frame R → Type 0)
    → P fr
    → D e fr
    → Holds (some (if b then fail e else ok tt, fr)) (λ u fr'. P fr') D
failing true e fr P D h k = k
failing false e fr P D h k = h

-- The context is asked once, and nothing else changes.
pub check_context-Holds :
    {R E : Type 0} (ctx : ℕ → Bool) (e : E) (fr : Frame R) (P : Frame R → Type 0)
    (D : E → Frame R → Type 0)
    → P (record fr { reads = fr.reads + 1 })
    → D e (record fr { reads = fr.reads + 1 })
    → Holds (check_context ctx e fr) (λ u fr'. P fr') D
unfolding check_context
check_context-Holds ctx e fr P D h k = failing (ctx fr.reads) e _ P D h k

-- The growth of the event's bytes: within the limit nothing panics, and the capacity stays within it.
append_sse_bytes-kept :
    (growth : ℕ → ℕ) (destination : List ℕ) (capacity : ℕ) (source : List ℕ) (maximum : ℕ)
    → length destination + length source ≤ maximum
    → capacity ≤ maximum
    → (c : ℕ) × (append_sse_bytes growth destination capacity source maximum
        ≡ some (destination ++ source, c))
      × (c ≤ maximum)
      × (length destination + length source ≤ c)
unfolding append_sse_bytes
append_sse_bytes-kept growth destination capacity source maximum h k =
    let needed = length destination + length source in
    let wanted = min (max (capacity * 2) needed) maximum in
    let no_panic : ltb wanted (length destination) ≡ false = ground arith in
    let holds : leb needed wanted ≡ true = ground arith in
    elim (Bool-cases (leb needed capacity)) [
      | inl fits ↦ (capacity, rw fits refl, k, ground arith)
      | inr grows ↦ (wanted, rw (grows, no_panic, holds) refl, omega arith, ground arith)
    ]

module _ {R : Type 0} (w : WireReader R) (growth : ℕ → ℕ) (limits : SseLimits) (ctx : ℕ → Bool)
    (remaining : R → List ℕ) (laws : WireLaws w remaining) (wire : List ℕ)
    (base events chunks : ℕ) where
  -- The counters of a frame, which a line leaves in this call's range.
  abbrev pub Spent : Frame R → Type 0
  Spent fr = (fr.total_bytes ≤ limits.max_total_bytes) × (fr.events ≡ events) × (fr.chunks ≡ chunks)

  -- The event's bytes are all that was taken off the stream, they are counted exactly, and they and
  -- the memory that they take keep to the limits.
  abbrev Exact : Frame R → Type 0
  Exact fr =
      (fr.total_bytes ≡ base + fr.event_bytes)
      × (fr.event_bytes ≤ limits.max_event_bytes)
      × (fr.capacity ≤ limits.max_event_bytes)

  abbrev pub Kept : Frame R → Type 0
  Kept fr =
      (fr.raw ++ remaining fr.reader ≡ wire)
      × (length fr.raw ≡ fr.event_bytes)
      × Exact fr
      × Spent fr

  -- A slice was taken, and then counted.
  abbrev Taken : Slice → Frame R → Type 0
  Taken slice fr =
      (fr.raw ++ (slice.fragment ++ remaining fr.reader) ≡ wire)
      × (length fr.raw ≡ fr.event_bytes)
      × Exact fr
      × Spent fr

  abbrev Counted : Slice → Frame R → Type 0
  Counted slice fr =
      (fr.raw ++ (slice.fragment ++ remaining fr.reader) ≡ wire)
      × (length fr.raw + length slice.fragment ≡ fr.event_bytes)
      × Exact fr
      × Spent fr

  abbrev Lost : LineError → Frame R → Type 0
  Lost e fr = Spent fr

  take_slice-Taken :
      (fr : Frame R)
      → Kept fr
      → Holds
          (take_slice w growth limits ctx fr)
          (λ slice fr'.
            Taken slice fr'
            × (fr'.event_bytes ≡ fr.event_bytes)
            × (slice.ending ≡ buffer_full → 0 < length slice.fragment))
          Lost
  unfolding take_slice
  take_slice-Taken fr (bytes, size, exact, spent) = (
    (ap (λ x. fr.raw ++ x) (sym (laws.slice_splits fr.reader)) ∙ bytes, size, exact, spent),
    refl,
    laws.full_some fr.reader,
  )

  account_bytes-Counted :
      (slice : Slice) (fr : Frame R)
      → Taken slice fr
      → Holds
          (account_bytes w growth limits ctx (length slice.fragment) fr)
          (λ u fr'. Counted slice fr' × (fr'.event_bytes ≡ fr.event_bytes + length slice.fragment))
          Lost
  unfolding account_bytes
  account_bytes-Counted slice fr (bytes, size, (total, most, room), (low, ev, ch)) =
      Holds-test (over limits.max_total_bytes fr.total_bytes (length slice.fragment)) _ _ _ _
        (λ _. (low, ev, ch))
        (λ fits.
          let (a, b) =
            over-exact limits.max_total_bytes fr.total_bytes (length slice.fragment) fits in
          Holds-test (over limits.max_event_bytes fr.event_bytes (length slice.fragment)) _ _ _ _
            (λ _. (low, ev, ch))
            (λ fits'.
              let (c, d) =
                over-exact limits.max_event_bytes fr.event_bytes (length slice.fragment) fits' in
              ((bytes, omega arith, (omega arith, omega arith, room), (omega arith, ev, ch)), c)))

  append_raw-Kept :
      (slice : Slice) (fr : Frame R)
      → Counted slice fr
      → Holds
          (append_raw w growth limits ctx slice.fragment fr)
          (λ u fr'. Kept fr' × (fr'.event_bytes ≡ fr.event_bytes))
          Lost
  unfolding append_raw
  append_raw-Kept slice fr (bytes, size, (total, most, room), spent) =
      let (c, e, k, l) =
        append_sse_bytes-kept growth fr.raw fr.capacity slice.fragment limits.max_event_bytes
          (omega arith) room in
      rw e (
        (
          append_assoc fr.raw slice.fragment (remaining fr.reader) ∙ bytes,
          length-append fr.raw slice.fragment ∙ size,
          (total, most, k),
          spent,
        ),
        refl,
      )

  read_fragment-Kept :
      (fr : Frame R)
      → Kept fr
      → Holds
          (read_fragment w growth limits ctx fr)
          (λ ending fr'. Kept fr' × (ending ≡ buffer_full → fr.event_bytes < fr'.event_bytes))
          Lost
  unfolding read_fragment
  read_fragment-Kept fr (bytes, size, exact, spent) =
      Holds-bind (check_context ctx (line_failed context_error) fr) _
        (λ u s. Kept s × (s.event_bytes ≡ fr.event_bytes)) _ Lost Lost
        (check_context-Holds ctx (line_failed context_error) fr
          (λ s. Kept s × (s.event_bytes ≡ fr.event_bytes)) Lost ((bytes, size, exact, spent), refl)
          spent)
        (λ e s l. l)
        (λ u s₁ (k₁, e₁).
          Holds-bind (take_slice w growth limits ctx s₁) _ _ _ Lost Lost (take_slice-Taken s₁ k₁)
            (λ e s l. l)
            (λ slice s₂ (k₂, e₂, full).
              Holds-bind (account_bytes w growth limits ctx (length slice.fragment) s₂) _ _ _ Lost
                Lost (account_bytes-Counted slice s₂ k₂) (λ e s l. l)
                (λ u s₃ ((bytes₃, size₃, exact₃, spent₃), e₃).
                  Holds-bind (check_context ctx (line_failed context_error) s₃) _
                    (λ u s. Counted slice s × (s.event_bytes ≡ s₃.event_bytes)) _ Lost Lost
                    (check_context-Holds ctx (line_failed context_error) s₃
                      (λ s. Counted slice s × (s.event_bytes ≡ s₃.event_bytes)) Lost
                      ((bytes₃, size₃, exact₃, spent₃), refl) spent₃)
                    (λ e s l. l)
                    (λ u s₄ (k₄, e₄).
                      Holds-bind (append_raw w growth limits ctx slice.fragment s₄) _ _ _ Lost Lost
                        (append_raw-Kept slice s₄ k₄) (λ e s l. l)
                        (λ u s₅ (k₅, e₅). (k₅, λ h. omega (arith, full h)))))))

  line_end-Kept :
      (start : ℕ) (loop : Course LineError (Frame R) SseLine) (ending : ReadEnd) (fr : Frame R)
      → Kept fr
      → (ending ≡ buffer_full → Holds (loop fr) (λ l fr'. Kept fr') Lost)
      → Holds (line_end w growth limits ctx start loop ending fr) (λ l fr'. Kept fr') Lost
  line_end-Kept start loop found fr kept h = kept
  line_end-Kept start loop buffer_full fr kept h = h refl
  line_end-Kept start loop at_eof fr (bytes, size, exact, spent) h = spent
  line_end-Kept start loop broken fr (bytes, size, exact, spent) h = spent

  line_loop-Kept :
      (f start : ℕ) (fr : Frame R)
      → Kept fr
      → limits.max_event_bytes < f + fr.event_bytes
      → Holds (line_loop w growth limits ctx f start fr) (λ l fr'. Kept fr') Lost
  unfolding line_loop
  line_loop-Kept zero start fr (bytes, size, (total, most, room), spent) h = absurd (omega arith)
  line_loop-Kept (suc f) start fr kept h =
      Holds-bind (read_fragment w growth limits ctx fr) _ _ _ Lost Lost (read_fragment-Kept fr kept)
        (λ e s l. l)
        (λ ending fr' (k, more).
          line_end-Kept start (line_loop w growth limits ctx f start) ending fr' k
            (λ full. line_loop-Kept f start fr' k (omega (arith, more full))))

  pub read_sse_line-Kept :
      (fr : Frame R)
      → Kept fr
      → Holds (read_sse_line w growth limits ctx fr) (λ l fr'. Kept fr') Lost
  unfolding read_sse_line
  read_sse_line-Kept fr kept =
      line_loop-Kept (suc limits.max_event_bytes) (length fr.raw) fr kept (omega arith)
