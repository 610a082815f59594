-- ===== src/Buffer/Read/Loops.antt =====
-- Peek and ReadUntilBufferFull of pkg/tools/buffer/buffer.go: both loops end, and what they take
-- of the unread stream.
use skywalking_rover.Common.{
  ℕ, zero, suc, ◌+◌, ◌-◌, ◌≤◌, ◌<◌, ◌≡◌, refl, sym, ap, subst, ◌∙◌, false, List, [], ◌++◌,
  append-nil, append_assoc, none, some, arith, take, drop, length, length-append, take-append_add,
  drop-append_add, length-drop, Option-cases, inl, inr,
}
use skywalking_rover.Buffer.Elements.{from_element, length-from_element, length-rest_of}
use skywalking_rover.Buffer.State.{Buffer, Position}
use skywalking_rover.Buffer.Read.{
  ReadResult, got, eof, not_complete, fault, out_of_fuel, read, read_rounds, peek_round, peek_loop,
  peek, restore, copy, full_round, full_loop, read_until_buffer_full,
}
use skywalking_rover.Buffer.Read.Stream.{
  unread, IsReadable, IsAt-current, left_behind-at, left_behind, SameBut, ReadOutcome, read-outcome,
}

-- What the loop of Peek promises, from `left` bytes to go.
abbrev PeekLoop : Buffer → ℕ → List ℕ → Buffer × ReadResult → Type 0
PeekLoop r left acc (r', got bytes) =
    (bytes ≡ acc ++ take left (unread r)) × (left ≤ length (unread r)) × SameBut r r'
PeekLoop r left acc (r', eof) = (length (unread r) < left) × SameBut r r'
PeekLoop r left acc (r', not_complete) = (r.validated ≡ false) × SameBut r r'
PeekLoop r left acc (r', fault) = ⊥
PeekLoop r left acc (r', out_of_fuel) = ⊥

SameBut-trans : (r s t : Buffer) → SameBut r s → SameBut s t → SameBut r t
SameBut-trans r s t p q = q ∙ ap (λ (x : Buffer). record x { current = t.current }) p

SameBut-validated : (r s : Buffer) → SameBut r s → s.validated ≡ r.validated
SameBut-validated r s p = ap (λ (x : Buffer). x.validated) p

module _ (r s : Buffer) (n : ℕ) (bytes : List ℕ) (o : ReadOutcome r (suc n) (s, got bytes)) where
  length-unread : length (unread r) ≡ length bytes + length (unread s)
  length-unread = ap length o.0 ∙ length-append bytes (unread s)

  room : suc n ≡ length bytes + (suc n - length bytes)
  room = omega (arith, o.1)

  take-unread : take (suc n) (unread r) ≡ bytes ++ take (suc n - length bytes) (unread s)
  take-unread =
      ap (take (suc n)) o.0
      ∙ ap (λ k. take k (bytes ++ unread s)) room
      ∙ take-append_add (suc n - length bytes) bytes (unread s)

  drop-unread : drop (suc n) (unread r) ≡ drop (suc n - length bytes) (unread s)
  drop-unread =
      ap (drop (suc n)) o.0
      ∙ ap (λ k. drop k (bytes ++ unread s)) room
      ∙ drop-append_add (suc n - length bytes) bytes (unread s)

SameBut-of_eq : (r s : Buffer) → s ≡ r → SameBut r s
SameBut-of_eq r s e = rw e

-- A round that read `bytes`, and then the rest.
PeekLoop-step :
    (r s : Buffer) (n : ℕ) (acc bytes : List ℕ) (x : Buffer × ReadResult)
    → ReadOutcome r (suc n) (s, got bytes)
    → PeekLoop s (suc n - length bytes) (acc ++ bytes) x
    → PeekLoop r (suc n) acc x
PeekLoop-step r s n acc bytes (t, got all) o l = (
  l.0
      ∙ append_assoc acc bytes (take (suc n - length bytes) (unread s))
      ∙ ap (◌++◌ acc) (sym (take-unread r s n bytes o)),
  omega (arith, length-unread r s n bytes o, l.1),
  SameBut-trans r s t o.4 l.2,
)
PeekLoop-step r s n acc bytes (t, eof) o l =
    (omega (arith, length-unread r s n bytes o, l.0), SameBut-trans r s t o.4 l.1)
PeekLoop-step r s n acc bytes (t, not_complete) o l =
    (sym (SameBut-validated r s o.4) ∙ l.0, SameBut-trans r s t o.4 l.1)
PeekLoop-step r s n acc bytes (t, fault) o l = absurd l
PeekLoop-step r s n acc bytes (t, out_of_fuel) o l = absurd l

PeekLoop-round :
    (r : Buffer) (n : ℕ) (acc : List ℕ) (loop : Buffer → ℕ → List ℕ → Buffer × ReadResult)
    (x : Buffer × ReadResult)
    → ReadOutcome r (suc n) x
    → ((s : Buffer) (bytes : List ℕ)
        → ReadOutcome r (suc n) (s, got bytes)
        → PeekLoop s
            (suc n - length bytes)
            (acc ++ bytes)
            (loop s (suc n - length bytes) (acc ++ bytes)))
    → PeekLoop r (suc n) acc (peek_round loop (suc n) acc x)
unfolding peek_round
PeekLoop-round r n acc loop (s, got bytes) o ih = PeekLoop-step r s n acc bytes _ o (ih s bytes o)
PeekLoop-round r n acc loop (s, eof) o ih = (omega (arith, ap length o.0), SameBut-of_eq r s o.1)
PeekLoop-round r n acc loop (s, not_complete) o ih = (o.0, SameBut-of_eq r s o.2)
PeekLoop-round r n acc loop (s, fault) o ih = absurd o
PeekLoop-round r n acc loop (s, out_of_fuel) o ih = absurd o

peek_loop-PeekLoop :
    (fuel : ℕ) (r : Buffer) (left : ℕ) (acc : List ℕ)
    → IsReadable r
    → left + left_behind r < fuel
    → PeekLoop r left acc (peek_loop fuel r left acc)
unfolding peek_loop
peek_loop-PeekLoop zero r left acc c h = absurd (omega arith)
peek_loop-PeekLoop (suc fuel) r zero acc c h = (sym (append-nil acc), omega arith, refl)
peek_loop-PeekLoop (suc fuel) r (suc n) acc c h =
    PeekLoop-round r n acc (peek_loop fuel) (read r (suc n))
      (read-outcome r (suc n) c (omega arith))
      λ s bytes o.
        peek_loop-PeekLoop fuel s (suc n - length bytes) (acc ++ bytes) o.2
          (omega (arith, o.1, o.3))

left_behind-none : (r : Buffer) → r.current ≡ none → left_behind r ≡ 0
unfolding left_behind
left_behind-none r at = rw (at, left_behind)

left_behind-length : (r : Buffer) → IsReadable r → left_behind r ≤ length r.data_events
left_behind-length r c = elim (Option-cases r.current) [
  | inl at ↦ omega (arith, left_behind-none r at)
  | inr (p, at) ↦
      let (e, on, held, bound) = IsAt-current r p c at in
      omega (
        arith,
        left_behind-at r p e at on,
        length-rest_of (from_element e.ref r.data_events),
        length-from_element e.ref r.data_events,
      )
]

-- The rounds of both loops are enough.
rounds_enough : (r : Buffer) (n : ℕ) → IsReadable r → n + left_behind r < read_rounds r n
unfolding read_rounds
rounds_enough r n c = omega (arith, left_behind-length r c)

SameBut-restore :
    (r s : Buffer) (p : Position)
    → r.current ≡ some p
    → SameBut r s
    → record s { current = some p } ≡ r
SameBut-restore r s p at e = ap (λ (x : Buffer). record x { current = some p }) e ∙ ground arith

abbrev pub PeekOutcome : Buffer → ℕ → Buffer × ReadResult → Type 0
PeekOutcome r n (r', got bytes) = (bytes ≡ take n (unread r)) × (n ≤ length (unread r)) × (r' ≡ r)
PeekOutcome r n (r', eof) = (length (unread r) < n) × (r' ≡ r)
PeekOutcome r n (r', not_complete) = (r.validated ≡ false) × (r' ≡ r)
PeekOutcome r n (r', fault) = ⊥
PeekOutcome r n (r', out_of_fuel) = ⊥

restore-PeekOutcome :
    (r : Buffer) (p : Position) (n : ℕ) (x : Buffer × ReadResult)
    → r.current ≡ some p
    → PeekLoop r n [] x
    → PeekOutcome r n (restore p x)
unfolding restore
restore-PeekOutcome r p n (s, got bytes) at o = (o.0, o.1, SameBut-restore r s p at o.2)
restore-PeekOutcome r p n (s, eof) at o = (o.0, SameBut-restore r s p at o.1)
restore-PeekOutcome r p n (s, not_complete) at o = (o.0, SameBut-restore r s p at o.1)
restore-PeekOutcome r p n (s, fault) at o = absurd o
restore-PeekOutcome r p n (s, out_of_fuel) at o = absurd o

peek-at :
    (r : Buffer) (p : Position) (n : ℕ)
    → r.current ≡ some p
    → peek r n ≡ restore p (peek_loop (read_rounds r n) r n [])
unfolding peek
peek-at r p n at = ground arith

-- Peek at a valid position of valid events moves nothing. It returns the next `n` unread bytes, and then there
-- are as many; io.EOF means that there are fewer, and ErrNotComplete that the buffer is not
-- validated. There is no other end: the loop terminates and does not panic.
pub peek-outcome :
    (r : Buffer) (p : Position) (n : ℕ)
    → IsReadable r
    → r.current ≡ some p
    → PeekOutcome r n (peek r n)
peek-outcome r p n c at = subst (PeekOutcome r n) (sym (peek-at r p n at)) (
    restore-PeekOutcome r p n _ at
      (peek_loop-PeekLoop (read_rounds r n) r n [] c (rounds_enough r n c)))

-- What the loop of ReadUntilBufferFull promises, from `left` bytes to go.
abbrev pub FullOutcome : Buffer → ℕ → List ℕ → Buffer × ReadResult → Type 0
FullOutcome r left content (r', got filled) =
    (left ≤ length (unread r))
    × (unread r' ≡ drop left (unread r))
    × (length filled ≡ length content)
    × IsReadable r'
    × SameBut r r'
FullOutcome r left content (r', eof) = (length (unread r) < left) × SameBut r r'
FullOutcome r left content (r', not_complete) = (r.validated ≡ false) × SameBut r r'
FullOutcome r left content (r', fault) = ⊥
FullOutcome r left content (r', out_of_fuel) = ⊥

length-copy :
    (content bytes : List ℕ)
    → length bytes ≤ length content
    → length (copy content bytes) ≡ length content
length-copy content bytes h =
    omega
      (arith, length-append bytes (drop (length bytes) content), length-drop (length bytes) content)

FullOutcome-step :
    (r s : Buffer) (n : ℕ) (content bytes : List ℕ) (x : Buffer × ReadResult)
    → suc n ≤ length content
    → ReadOutcome r (suc n) (s, got bytes)
    → FullOutcome s (suc n - length bytes) (copy content bytes) x
    → FullOutcome r (suc n) content x
FullOutcome-step r s n content bytes (t, got filled) h o l = (
  omega (arith, length-unread r s n bytes o, l.0),
  l.1 ∙ sym (drop-unread r s n bytes o),
  l.2 ∙ length-copy content bytes (omega (arith, o.1)),
  l.3,
  SameBut-trans r s t o.4 l.4,
)
FullOutcome-step r s n content bytes (t, eof) h o l =
    (omega (arith, length-unread r s n bytes o, l.0), SameBut-trans r s t o.4 l.1)
FullOutcome-step r s n content bytes (t, not_complete) h o l =
    (sym (SameBut-validated r s o.4) ∙ l.0, SameBut-trans r s t o.4 l.1)
FullOutcome-step r s n content bytes (t, fault) h o l = absurd l
FullOutcome-step r s n content bytes (t, out_of_fuel) h o l = absurd l

FullOutcome-round :
    (r : Buffer) (n : ℕ) (content : List ℕ) (loop : Buffer → ℕ → List ℕ → Buffer × ReadResult)
    (x : Buffer × ReadResult)
    → suc n ≤ length content
    → ReadOutcome r (suc n) x
    → ((s : Buffer) (bytes : List ℕ)
        → ReadOutcome r (suc n) (s, got bytes)
        → FullOutcome s
            (suc n - length bytes)
            (copy content bytes)
            (loop s (suc n - length bytes) (copy content bytes)))
    → FullOutcome r (suc n) content (full_round loop (suc n) content x)
unfolding full_round
FullOutcome-round r n content loop (s, got bytes) h o ih =
    FullOutcome-step r s n content bytes _ h o (ih s bytes o)
FullOutcome-round r n content loop (s, eof) h o ih =
    (omega (arith, ap length o.0), SameBut-of_eq r s o.1)
FullOutcome-round r n content loop (s, not_complete) h o ih = (o.0, SameBut-of_eq r s o.2)
FullOutcome-round r n content loop (s, fault) h o ih = absurd o
FullOutcome-round r n content loop (s, out_of_fuel) h o ih = absurd o

full_loop-FullOutcome :
    (fuel : ℕ) (r : Buffer) (left : ℕ) (content : List ℕ)
    → IsReadable r
    → left ≤ length content
    → left + left_behind r < fuel
    → FullOutcome r left content (full_loop fuel r left content)
unfolding full_loop
full_loop-FullOutcome zero r left content c b h = absurd (omega arith)
full_loop-FullOutcome (suc fuel) r zero content c b h = (omega arith, refl, refl, c, refl)
full_loop-FullOutcome (suc fuel) r (suc n) content c b h =
    FullOutcome-round r n content (full_loop fuel) (read r (suc n)) b
      (read-outcome r (suc n) c (omega arith))
      λ s bytes o.
        full_loop-FullOutcome fuel s (suc n - length bytes) (copy content bytes) o.2
          (omega (arith, length-copy content bytes (omega (arith, o.1)))) (omega (arith, o.1, o.3))

-- At a valid position of valid events, ReadUntilBufferFull takes exactly `len(data)` bytes off the unread stream, over as many events
-- as it needs, and fails with io.EOF only if there are fewer, and with ErrNotComplete only on a
-- buffer that is not validated. It terminates and does not panic.
pub read_until_buffer_full-outcome :
    (r : Buffer) (content : List ℕ)
    → IsReadable r
    → FullOutcome r (length content) content (read_until_buffer_full r content)
unfolding read_until_buffer_full
read_until_buffer_full-outcome r content c =
    full_loop-FullOutcome (read_rounds r (length content)) r (length content) content c
      (omega arith) (rounds_enough r (length content) c)
