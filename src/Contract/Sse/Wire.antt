-- ===== src/Contract/Sse/Wire.antt =====
-- internal/contract/sse.go: the lines of an event stream. The buffered reader is a parameter: it reads at
-- most a byte more than the stream's limit, and `utf8.Valid` is one too.
use ssemaphore.Prelude.{
  ℕ, zero, suc, ◌+◌, ◌*◌, Bool, false, ◌||◌, Option, none, some, List, [], ◌∷◌, ◌++◌, ◌==◌, leb,
  ltb, if◌then◌else◌, length, min, max, u64, u64_mod,
}
use ssemaphore.Contract.Course.{Course, Step, ok, fail, ◌>>=◌, pure}
use ssemaphore.Contract.Sse.Chunk.{
  SseReason, total_bytes_limit, event_bytes_limit, body_read_failure, invalid_line_ending,
  truncated_event,
}
use ssemaphore.HttpApi.Limits.{SseLimits}

-- Why `ReadSlice` and `ReadByte` stop: at the byte asked for, or with bufio.ErrBufferFull, io.EOF or
-- another error.
pub data ReadEnd : Type 0 where
  found buffer_full at_eof broken : ReadEnd

pub record Slice : Type 0 where
  pub fragment : List ℕ
  pub ending : ReadEnd

-- bufio.Reader over a state `R`: `ReadSlice('\n')`, and `ReadByte` with the byte it gives, if any.
pub record WireReader (R : Type 0) : Type 0 where
  pub read_slice : R → Slice × R
  pub read_byte : R → ReadEnd × R

-- context.Context's error, which is one value here, or a reason.
pub data SseFailure : Type 0 where
  context_error : SseFailure
  because : SseReason → SseFailure

-- The error of a line: io.EOF before its first byte, or a failure.
pub data LineError : Type 0 where
  line_eof : LineError
  line_failed : SseFailure → LineError

-- What the decoder and one call of `Next` keep: the decoder's reader and counters, how often a context
-- was asked, and the bytes of the event with the capacity that holds them.
pub record Frame (R : Type 0) : Type 0 where
  pub reader : R
  pub reads : ℕ
  pub total_bytes : ℕ
  pub events : ℕ
  pub chunks : ℕ
  pub raw : List ℕ
  pub capacity : ℕ
  pub event_bytes : ℕ

pub record SseLine : Type 0 where
  pub content : List ℕ
  pub invalid_ending : Bool

-- bits.Add64: the low word, and whether there is a carry.
unfoldable pub add64 : ℕ → ℕ → ℕ × Bool
add64 a b = (u64 (a + b), leb u64_mod (a + b))

-- Whether a counter and `count` bytes more exceed the limit.
unfoldable pub over : ℕ → ℕ → ℕ → Bool
unfolding add64
over limit counter count = (add64 counter count).1 || ltb limit (add64 counter count).0

-- `append` of Go where the capacity is enough, and its growth, which is a parameter, where it is not.
abbrev pub append_grown : (ℕ → ℕ) → List ℕ → ℕ → List ℕ → List ℕ × ℕ
append_grown growth destination capacity source =
    let needed = length destination + length source in
    (destination ++ source, if leb needed capacity then capacity else growth needed)

-- `make` panics where the length exceeds the capacity.
unfoldable pub append_sse_bytes : (ℕ → ℕ) → List ℕ → ℕ → List ℕ → ℕ → Option (List ℕ × ℕ)
append_sse_bytes growth destination capacity source maximum =
    let needed = length destination + length source in
    let wanted = min (max (capacity * 2) needed) maximum in
    if leb needed capacity
    then some (append_grown growth destination capacity source)
    else if ltb wanted (length destination)
    then none
    else some (append_grown growth destination wanted source)

abbrev pub has_cr : List ℕ → Bool
has_cr [] = false
has_cr (c ∷ cs) = c == 13 || has_cr cs

abbrev pub drop : ℕ → List ℕ → List ℕ
drop zero xs = xs
drop (suc n) [] = []
drop (suc n) (x ∷ xs) = drop n xs

-- A line less its last byte, and less a carriage return before that.
abbrev pub drop_last : List ℕ → List ℕ
drop_last [] = []
drop_last (x ∷ []) = []
drop_last (x ∷ y ∷ ys) = x ∷ drop_last (y ∷ ys)

abbrev pub drop_cr : List ℕ → List ℕ
drop_cr [] = []
drop_cr (x ∷ []) = if x == 13 then [] else x ∷ []
drop_cr (x ∷ y ∷ ys) = x ∷ drop_cr (y ∷ ys)

unfoldable pub line_of : List ℕ → SseLine
line_of line = record {
  content = drop_cr (drop_last line);
  invalid_ending = has_cr (drop_cr (drop_last line));
}

-- Where the input ends inside a line.
unfoldable pub partial_line : List ℕ → LineError
partial_line [] = line_eof
partial_line (c ∷ cs) =
    if has_cr (c ∷ cs)
    then line_failed (because invalid_line_ending)
    else line_failed (because truncated_event)

unfoldable pub check_context : {R E : Type 0} → (ℕ → Bool) → E → Course E (Frame R) (Unit {0})
check_context ctx e fr =
    some (if ctx fr.reads then fail e else ok tt, record fr { reads = fr.reads + 1 })

module _ {R : Type 0} (w : WireReader R) (growth : ℕ → ℕ) (limits : SseLimits)
    (ctx : ℕ → Bool) where
  unfoldable pub take_slice : {E : Type 0} → Course E (Frame R) Slice
  take_slice fr =
      some (ok (w.read_slice fr.reader).0, record fr { reader = (w.read_slice fr.reader).1 })

  -- `accountBytes` with an event counter. A counter is written only where both keep their limits.
  unfoldable pub account_bytes : ℕ → Course LineError (Frame R) (Unit {0})
  account_bytes count fr =
      if over limits.max_total_bytes fr.total_bytes count
      then some (fail (line_failed (because total_bytes_limit)), fr)
      else if over limits.max_event_bytes fr.event_bytes count
      then some (fail (line_failed (because event_bytes_limit)), fr)
      else some (
        ok tt,
        record fr {
          total_bytes = (add64 fr.total_bytes count).0;
          event_bytes = (add64 fr.event_bytes count).0;
        },
      )

  abbrev pub with_raw : Frame R → Option (List ℕ × ℕ) → Option (Step LineError (Unit {0}) × Frame R)
  with_raw fr none = none
  with_raw fr (some (raw, capacity)) = some (ok tt, record fr { raw = raw; capacity = capacity })

  unfoldable pub append_raw : List ℕ → Course LineError (Frame R) (Unit {0})
  append_raw fragment fr =
      with_raw fr (append_sse_bytes growth fr.raw fr.capacity fragment limits.max_event_bytes)

  -- One turn of the loop of `readSSELine`, up to its switch.
  unfoldable pub read_fragment : Course LineError (Frame R) ReadEnd
  unfolding check_context
  read_fragment = check_context ctx (line_failed context_error) >>= λ _.
      (take_slice >>= λ slice.
      (account_bytes (length slice.fragment) >>= λ _.
      (check_context ctx (line_failed context_error) >>= λ _.
      (append_raw slice.fragment >>= λ _. pure slice.ending))))

  -- The switch, given the loop.
  abbrev pub line_end :
      ℕ → Course LineError (Frame R) SseLine → ReadEnd → Course LineError (Frame R) SseLine
  line_end start loop found fr = some (ok (line_of (drop start fr.raw)), fr)
  line_end start loop buffer_full fr = loop fr
  line_end start loop at_eof fr = some (fail (partial_line (drop start fr.raw)), fr)
  line_end start loop broken fr = some (fail (line_failed (because body_read_failure)), fr)

  unfoldable pub line_loop : ℕ → ℕ → Course LineError (Frame R) SseLine
  line_loop zero start = λ fr. none
  line_loop (suc f) start = read_fragment >>= λ ending. line_end start (line_loop f start) ending

  -- Each turn but the last accounts for a byte at least.
  unfoldable pub read_sse_line : Course LineError (Frame R) SseLine
  read_sse_line fr = line_loop (suc limits.max_event_bytes) (length fr.raw) fr
