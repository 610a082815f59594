-- ===== src/Buffer/Read/Stream.antt =====
-- One Read of pkg/tools/buffer/buffer.go against the byte stream that is still unread.
use skywalking_rover.Common.{
  ℕ, zero, suc, ◌+◌, ◌-◌, ◌≤◌, ◌<◌, min, ◌≡◌, refl, sym, ap, subst, ◌∙◌, true, false, List, [], ◌∷◌,
  ◌++◌, append_assoc, Option, none, some, arith, ltb, take, drop, length, All, take-append-drop,
  length-take, length-drop, drop-length_le, drop-drop, Bool-cases, Option-cases, inl, inr,
}
use skywalking_rover.Buffer.Events.{
  SocketDataBuffer, IsValid, buffer_data, buffer_len, length-buffer_data,
}
use skywalking_rover.Buffer.Elements.{
  Element, from_element, next, rest_of, Holds, Distinct, All-from_element, from_element-next,
}
use skywalking_rover.Buffer.State.{Buffer, Position}
use skywalking_rover.Buffer.Read.{
  ReadResult, got, eof, not_complete, fault, out_of_fuel, move_to, should_read, read0,
  read_from_current, read_element, read,
}

-- The bytes of a run of events.
abbrev pub bytes_of : List (Element SocketDataBuffer) → List ℕ
bytes_of [] = []
bytes_of (x ∷ xs) = buffer_data x.value ++ bytes_of xs

-- The elements behind a position's element.
abbrev pub behind :
    List (Element SocketDataBuffer) → Element SocketDataBuffer → List (Element SocketDataBuffer)
behind es e = rest_of (from_element e.ref es)

unfoldable pub unread_at : List (Element SocketDataBuffer) → Element SocketDataBuffer → ℕ → List ℕ
unread_at es e index = drop index (buffer_data e.value) ++ bytes_of (behind es e)

-- The bytes that the reader has before it.
unfoldable pub unread : Buffer → List ℕ
unfolding unread_at
unread r = elim r.current [
  | none ↦ []
  | some p ↦ elim p.element [ none ↦ [] | some e ↦ unread_at r.data_events e p.buf_index ]
]

-- The position stands on an element of the list, within its data.
abbrev pub IsAt : List (Element SocketDataBuffer) → Option Position → Type 0
IsAt es none = Unit
IsAt es (some p) =
    (e : Element SocketDataBuffer) × (p.element ≡ some e)
    × Holds es e
    × (p.buf_index ≤ buffer_len e.value)

pub record IsReadable (r : Buffer) : Type 0 where
  pub valid : All (λ x. IsValid x.value) r.data_events
  pub distinct : Distinct r.data_events
  pub at : IsAt r.data_events r.current

-- How many elements are behind the current one.
unfoldable pub left_behind : Buffer → ℕ
left_behind r = elim r.current [
  | none ↦ 0
  | some p ↦ elim p.element [ none ↦ 0 | some e ↦ length (behind r.data_events e) ]
]

-- Only the current position of the buffer differs.
abbrev pub SameBut : Buffer → Buffer → Type 0
SameBut r r' = r' ≡ record r { current = r'.current }

-- What one Read with room for `n` bytes promises.
abbrev pub ReadOutcome : Buffer → ℕ → Buffer × ReadResult → Type 0
ReadOutcome r n (r', got bytes) =
    (unread r ≡ bytes ++ unread r')
    × (length bytes ≤ n)
    × IsReadable r'
    × (left_behind r' < left_behind r + length bytes)
    × SameBut r r'
ReadOutcome r n (r', eof) = (unread r ≡ []) × (r' ≡ r)
ReadOutcome r n (r', not_complete) = (r.validated ≡ false) × (0 < left_behind r) × (r' ≡ r)
ReadOutcome r n (r', fault) = ⊥
ReadOutcome r n (r', out_of_fuel) = ⊥

pub unread-move_to :
    (r : Buffer) (e : Element SocketDataBuffer) (index : ℕ)
    → unread (move_to r e index) ≡ unread_at r.data_events e index
unfolding unread move_to
unread-move_to r e index = refl

left_behind-move_to :
    (r : Buffer) (e : Element SocketDataBuffer) (index : ℕ)
    → left_behind (move_to r e index) ≡ length (behind r.data_events e)
unfolding left_behind move_to
left_behind-move_to r e index = refl

move_to-IsReadable :
    (r : Buffer) (e : Element SocketDataBuffer) (index : ℕ)
    → All (λ x. IsValid x.value) r.data_events
    → Distinct r.data_events
    → Holds r.data_events e
    → index ≤ buffer_len e.value
    → IsReadable (move_to r e index)
unfolding move_to
move_to-IsReadable r e index v d h b = record { valid = v; distinct = d; at = (e, refl, h, b) }

pub unread_at-held :
    (es : List (Element SocketDataBuffer)) (e : Element SocketDataBuffer) (index : ℕ)
    (rest : List (Element SocketDataBuffer))
    → from_element e.ref es ≡ e ∷ rest
    → unread_at es e index ≡ drop index (buffer_data e.value) ++ bytes_of rest
unfolding unread_at
unread_at-held es e index rest h = rw h

-- Splitting the bytes behind an index in two.
drop_split :
    (k index : ℕ) (xs ys : List ℕ)
    → drop index xs ++ ys ≡ take k (drop index xs) ++ (drop (index + k) xs ++ ys)
drop_split k index xs ys =
    ap (λ zs. zs ++ ys) (sym (take-append-drop k (drop index xs)))
    ∙ append_assoc (take k (drop index xs)) (drop k (drop index xs)) ys
    ∙ ap (λ zs. take k (drop index xs) ++ (zs ++ ys)) (drop-drop index k xs)

IsValid-at :
    (es : List (Element SocketDataBuffer)) (e : Element SocketDataBuffer)
    (rest : List (Element SocketDataBuffer))
    → All (λ x. IsValid x.value) es
    → from_element e.ref es ≡ e ∷ rest
    → IsValid e.value × All (λ x. IsValid x.value) rest
IsValid-at es e rest v h =
    subst (All (λ x. IsValid x.value)) h (All-from_element (λ x. IsValid x.value) e.ref es v)

module _ (r : Buffer) (e : Element SocketDataBuffer) (index n : ℕ)
    (v : All (λ x. IsValid x.value) r.data_events) (d : Distinct r.data_events)
    (here : unread r ≡ unread_at r.data_events e index)
    (count : left_behind r ≡ length (behind r.data_events e)) where
  read_element_within :
      Holds r.data_events e
      → ltb index (buffer_len e.value) ≡ true
      → ReadOutcome r (suc n) (read_element r e index (suc n))
  unfolding read_element unread_at read_from_current
  read_element_within h more =
      let k = min (suc n) (buffer_len e.value - index) in
      let size = length-buffer_data e.value (IsValid-at r.data_events e _ v h).0 in
      let chunk = length-take k (drop index (buffer_data e.value)) in
      let tail = length-drop index (buffer_data e.value) in
      rw (more, read_element)
        (
          here
              ∙ drop_split k index (buffer_data e.value) (bytes_of (behind r.data_events e))
              ∙ ap (◌++◌ (take k (drop index (buffer_data e.value))))
                  (sym (unread-move_to r e (index + k))),
          omega (arith, chunk),
          move_to-IsReadable r e (index + k) v d h (ground arith),
          ground (arith, count, left_behind-move_to r e (index + k), chunk, tail, size),
          refl,
        )

  -- At the end of an event nothing of it is unread.
  unread_rest :
      (rest : List (Element SocketDataBuffer))
      → from_element e.ref r.data_events ≡ e ∷ rest
      → ltb index (buffer_len e.value) ≡ false
      → unread r ≡ bytes_of rest
  unfolding unread_at
  unread_rest rest h done =
      let size = length-buffer_data e.value (IsValid-at r.data_events e rest v h).0 in
      here ∙ rw (h, drop-length_le index (buffer_data e.value) (ground (arith, size, done)))

  read0-outcome :
      (m : Element SocketDataBuffer) (rest : List (Element SocketDataBuffer))
      → from_element e.ref r.data_events ≡ e ∷ m ∷ rest
      → ltb index (buffer_len e.value) ≡ false
      → ReadOutcome r (suc n) (read0 r m (suc n))
  unfolding read0
  read0-outcome m rest h done =
      let k = min (suc n) (buffer_len m.value) in
      let held = from_element-next r.data_events e.ref e m rest d h in
      let holds : Holds r.data_events m = rw held in
      let size = length-buffer_data m.value (IsValid-at r.data_events m rest v held).0 in
      let chunk = length-take k (buffer_data m.value) in
      let after : unread (move_to r m k) ≡ drop k (buffer_data m.value) ++ bytes_of rest =
        unread-move_to r m k ∙ unread_at-held r.data_events m k rest held in
      (
        unread_rest (m ∷ rest) h done
            ∙ ap (λ zs. zs ++ bytes_of rest) (sym (take-append-drop k (buffer_data m.value)))
            ∙ append_assoc (take k (buffer_data m.value)) (drop k (buffer_data m.value))
                (bytes_of rest)
            ∙ ap (◌++◌ (take k (buffer_data m.value))) (sym after),
        omega (arith, chunk),
        move_to-IsReadable r m k v d holds (omega arith),
        ground (arith, count, left_behind-move_to r m k, held, h),
        refl,
      )

  read_element_beyond :
      (rest : List (Element SocketDataBuffer))
      → from_element e.ref r.data_events ≡ e ∷ rest
      → ltb index (buffer_len e.value) ≡ false
      → ReadOutcome r (suc n) (read_element r e index (suc n))
  unfolding read_element next should_read
  read_element_beyond [] h done = rw (done, h, read_element) (unread_rest [] h done, refl)
  read_element_beyond (m ∷ rest) h done = elim (Bool-cases (should_read r index e.value m.value)) [
    | inl ready ↦ rw (done, h, ready, read_element) (read0-outcome m rest h done)
    | inr apart ↦
        rw (done, h, apart, read_element) (ground (arith, apart), ground (arith, count, h), refl)
  ]

module _ (r : Buffer) (p : Position) (e : Element SocketDataBuffer) (at : r.current ≡ some p)
    (on : p.element ≡ some e) where
  read-at : (n : ℕ) → read r (suc n) ≡ read_element r e p.buf_index (suc n)
  unfolding read
  read-at n = rw (at, on, read)

  pub unread-at : unread r ≡ unread_at r.data_events e p.buf_index
  unfolding unread
  unread-at = rw (at, on, unread)

  pub left_behind-at : left_behind r ≡ length (behind r.data_events e)
  unfolding left_behind
  left_behind-at = rw (at, on, left_behind)

pub IsAt-current :
    (r : Buffer) (p : Position) → IsReadable r → r.current ≡ some p → IsAt r.data_events (some p)
IsAt-current r p c at = subst (IsAt r.data_events) at c.at

read-none : (r : Buffer) (n : ℕ) → r.current ≡ none → (unread r ≡ []) × (read r (suc n) ≡ (r, eof))
unfolding read unread
read-none r n at = (rw (at, unread), ground arith)

read-some-outcome :
    (r : Buffer) (p : Position) (e : Element SocketDataBuffer) (n : ℕ)
    → IsReadable r
    → r.current ≡ some p
    → p.element ≡ some e
    → Holds r.data_events e
    → p.buf_index ≤ buffer_len e.value
    → ReadOutcome r (suc n) (read r (suc n))
read-some-outcome r p e n c at on held bound =
    let here = unread-at r p e at on in
    let count = left_behind-at r p e at on in
    subst (ReadOutcome r (suc n)) (sym (read-at r p e at on n))
      (elim (Bool-cases (ltb p.buf_index (buffer_len e.value))) [
        | inl more ↦ read_element_within r e p.buf_index n c.valid c.distinct here count held more
        | inr done ↦
            read_element_beyond r e p.buf_index n c.valid c.distinct here count
              (behind r.data_events e) held done
      ])

-- Read with room for `n` bytes, at least one, at a valid position of valid events: it hands over
-- the next bytes of the unread stream, at most `n`, moves past them, and gets closer to the end of
-- the buffer; io.EOF means that nothing is unread; ErrNotComplete comes only on a buffer that is
-- not validated and has a further event. An end without bytes moves nothing, and there is no other
-- end.
pub read-outcome : (r : Buffer) (n : ℕ) → IsReadable r → 0 < n → ReadOutcome r n (read r n)
read-outcome r zero c h = absurd (omega arith)
read-outcome r (suc n) c h = elim (Option-cases r.current) [
  | inl at ↦
      let ended = read-none r n at in subst (ReadOutcome r (suc n)) (sym ended.1) (ended.0, refl)
  | inr (p, at) ↦
      let (e, on, held, bound) = IsAt-current r p c at in
      read-some-outcome r p e n c at on held bound
]
