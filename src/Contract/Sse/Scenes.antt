-- ===== src/Contract/Sse/Scenes.antt =====
-- A reader for examples, of a list of bytes, which gives each line as one slice.
use ssemaphore.Prelude.{
  ℕ, ◌≡◌, refl, ap, Bool, true, false, List, [], ◌∷◌, ◌++◌, ◌==◌, if◌then◌else◌,
}
use ssemaphore.Contract.Sse.Wire.{ReadEnd, found, buffer_full, at_eof, Slice, WireReader}
use ssemaphore.Contract.Sse.Lines.{WireLaws}
use ssemaphore.Contract.Sse.Streams.{Call, next_call, verify_call}
use ssemaphore.HttpApi.Limits.{SseLimits}

abbrev pub with_byte : ℕ → Slice × List ℕ → Slice × List ℕ
with_byte c (s, rest) = (record s { fragment = c ∷ s.fragment }, rest)

abbrev pub line_slice : List ℕ → Slice × List ℕ
line_slice [] = (record { fragment = []; ending = at_eof }, [])
line_slice (c ∷ cs) =
    let rest = line_slice cs in
    if c == 10 then (record { fragment = c ∷ []; ending = found }, cs) else with_byte c rest

abbrev pub one_byte : List ℕ → ReadEnd × List ℕ
one_byte [] = (at_eof, [])
one_byte (c ∷ cs) = (found, cs)

abbrev pub lines : WireReader (List ℕ)
lines = record { read_slice = line_slice; read_byte = one_byte }

abbrev pub given : List ℕ → List ℕ
given r = r

splits : (r : List ℕ) → r ≡ (line_slice r).0.fragment ++ (line_slice r).1
splits [] = refl
splits (c ∷ cs) = go (splits cs) (c == 10)
  where
    go :
        cs ≡ (line_slice cs).0.fragment ++ (line_slice cs).1
        → (b : Bool)
        → c ∷ cs
          ≡ (if b
              then (record { fragment = c ∷ []; ending = found }, cs)
              else with_byte c (line_slice cs)).0.fragment
            ++ (if b
                then (record { fragment = c ∷ []; ending = found }, cs)
                else with_byte c (line_slice cs)).1
    go h true = refl
    go h false = ap (λ x. c ∷ x) h

unfilled : (r : List ℕ) → (line_slice r).0.ending ≡ buffer_full → ⊥
unfilled [] h = cc h
unfilled (c ∷ cs) h = go (unfilled cs) (c == 10) h
  where
    go :
        ((line_slice cs).0.ending ≡ buffer_full → ⊥)
        → (b : Bool)
        → (if b
            then (record { fragment = c ∷ []; ending = found }, cs)
            else with_byte c (line_slice cs)).0.ending
          ≡ buffer_full
        → ⊥
    go f true k = cc k
    go f false k = f k

pub lines-Laws : WireLaws lines given
lines-Laws = record {
  slice_splits = splits;
  full_some = λ r h. absurd (unfilled r h);
  eof_none = ends;
}
  where
    ends : (r : List ℕ) → (one_byte r).0 ≡ at_eof → r ≡ []
    ends [] h = refl
    ends (c ∷ cs) h = absurd (cc h)

abbrev pub limits : SseLimits
limits = record { max_total_bytes = 100; max_event_bytes = 50; max_events = 4 }

abbrev pub chunk_bytes : List ℕ
chunk_bytes = b'd' ∷ b'a' ∷ b't' ∷ b'a' ∷ b':' ∷ b' ' ∷ b'{' ∷ b'o' ∷ b'c' ∷ b'}' ∷ 10 ∷ 10 ∷ []

abbrev pub done_bytes : List ℕ
done_bytes =
    b'd' ∷ b'a' ∷ b't' ∷ b'a' ∷ b':' ∷ b' ' ∷ b'[' ∷ b'D' ∷ b'O' ∷ b'N' ∷ b'E' ∷ b']' ∷ 10 ∷ 10 ∷ []

-- Both events are read, and then the end is verified.
abbrev pub reading : List Call
reading = next_call (λ n. false) ∷ next_call (λ n. false) ∷ verify_call (λ n. false) ∷ []
