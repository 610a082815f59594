-- ===== src/Buffer/Cycle/Remove.antt =====
-- RemoveReadElements and PrepareForReading of pkg/tools/buffer/buffer.go between two messages:
-- the elements that were read go, and the stream behind the new head is what was unread.
use skywalking_rover.Common.{
  ℕ, ◌≤◌, ◌≡◌, refl, sym, ap, subst, ◌∙◌, Bool, true, false, List, [], ◌∷◌, ◌++◌, append_assoc,
  Option, none, some, arith, ◌==◌, if◌then◌else◌, length, length-append, head?, Bool-cases, inl,
  inr, drop, drop-length_le,
}
use skywalking_rover.Buffer.Events.{
  SocketDataBuffer, IsValid, buffer_data, buffer_len, length-buffer_data,
}
use skywalking_rover.Buffer.Elements.{Element, from_element, next, remove, NotIn, Distinct}
use skywalking_rover.Buffer.State.{Buffer, Position}
use skywalking_rover.Buffer.Read.Stream.{bytes_of, unread, unread_at-held, unread-at}
use skywalking_rover.Buffer.Cycle.{
  remove_until, remove_details, is_at, finish_removing, remove_read_elements,
}
use skywalking_rover.Buffer.Cycle.Lists.{
  Distinct-before, Distinct-apart, Distinct-remove, remove-middle, from_element-middle, next-middle,
  remove_until-middle,
}

-- The reader started at `h`, the first element of `mid ++ e ∷ rest`, and stands at `c` on `e`.
pub record IsBetween (r : Buffer) (h c : Position) (before mid : List (Element SocketDataBuffer))
    (e : Element SocketDataBuffer) (rest : List (Element SocketDataBuffer)) : Type 0 where
  pub events : r.data_events ≡ before ++ (mid ++ e ∷ rest)
  pub head : r.head ≡ some h
  pub current : r.current ≡ some c
  pub from_head : h.element ≡ head? (mid ++ e ∷ rest)
  pub on : c.element ≡ some e
  pub distinct : Distinct (before ++ (mid ++ e ∷ rest))
  pub valid : IsValid e.value
  pub within : c.buf_index ≤ buffer_len e.value

abbrev pub kept :
    Position
    → Element SocketDataBuffer
    → List (Element SocketDataBuffer)
    → List (Element SocketDataBuffer)
kept c e rest = if buffer_len e.value == c.buf_index then rest else e ∷ rest

-- What the next message is read from.
abbrev pub stream_of_head : Buffer → List ℕ
stream_of_head r = unread (record r { current = r.head })

remove_until-at :
    (es : List (Element SocketDataBuffer)) (from to : Option (Element SocketDataBuffer))
    (before mid : List (Element SocketDataBuffer)) (e : Element SocketDataBuffer)
    (rest : List (Element SocketDataBuffer))
    → es ≡ before ++ (mid ++ e ∷ rest)
    → from ≡ head? (mid ++ e ∷ rest)
    → to ≡ some e
    → Distinct (before ++ (mid ++ e ∷ rest))
    → remove_until (length es) es from to ≡ (before ++ e ∷ rest, some e)
remove_until-at es from to before mid e rest p q s d =
    rw (p, q, s)
      (remove_until-middle (length (before ++ (mid ++ e ∷ rest))) before mid e rest d
        (omega (arith, length-append before (mid ++ e ∷ rest), length-append mid (e ∷ rest))))

-- Without a round of the loop the head stays on its element, which is the current one.
new_head :
    (before mid : List (Element SocketDataBuffer)) (e : Element SocketDataBuffer)
    (rest : List (Element SocketDataBuffer)) (from to : Option (Element SocketDataBuffer))
    → from ≡ head? (mid ++ e ∷ rest)
    → to ≡ some e
    → Distinct (before ++ (mid ++ e ∷ rest))
    → (if is_at from to then from else some e) ≡ some e
new_head before [] e rest from to p q d = rw (p, q) (ground arith)
new_head before (m ∷ mid) e rest from to p q d =
    rw (p, q) (ground (arith, Distinct-apart before m mid e rest d))

-- The two ends of the removal, from the buffer `b` that has the rest of the state.
abbrev Removed :
    Buffer
    → List (Element SocketDataBuffer)
    → List (Element SocketDataBuffer)
    → List ℕ
    → Buffer × Bool
    → Type 0
Removed b before left stream (r', done) =
    (done ≡ false) × (r'.data_events ≡ before ++ left) × (stream_of_head r' ≡ stream)

stream_of_head-here :
    (b : Buffer) (h : Position) (e : Element SocketDataBuffer)
    (before rest : List (Element SocketDataBuffer))
    → NotIn e.ref before
    → b.data_events ≡ before ++ e ∷ rest
    → b.head ≡ some h
    → h.element ≡ some e
    → stream_of_head b ≡ drop h.buf_index (buffer_data e.value) ++ bytes_of rest
stream_of_head-here b h e before rest ahead events at on =
    unread-at (record b { current = b.head }) h e at on
    ∙ unread_at-held b.data_events e h.buf_index rest
        (ap (from_element e.ref) events ∙ from_element-middle before e rest ahead)

stream_of_head-nil :
    (b : Buffer) (h : Position) → b.head ≡ some h → h.element ≡ none → stream_of_head b ≡ []
unfolding unread
stream_of_head-nil b h at on = rw (at, on, unread)

-- The state after the current element went as well.
next_message :
    (b : Buffer) (before : List (Element SocketDataBuffer)) (e : Element SocketDataBuffer)
    (rest : List (Element SocketDataBuffer))
    → Distinct (before ++ e ∷ rest)
    → stream_of_head (record b {
      data_events = remove e.ref (before ++ e ∷ rest);
      head = some (record { element = next (before ++ e ∷ rest) e; buf_index = 0 });
    })
      ≡ bytes_of rest
next_message b before e [] d =
    stream_of_head-nil
      (record b {
        data_events = remove e.ref (before ++ e ∷ []);
        head = some (record { element = next (before ++ e ∷ []) e; buf_index = 0 });
      })
      (record { element = next (before ++ e ∷ []) e; buf_index = 0 }) refl
      (next-middle before e [] (Distinct-before before e [] d))
next_message b before e (n ∷ ns) d =
    let ahead = Distinct-before before e (n ∷ ns) d in
    stream_of_head-here
      (record b {
        data_events = remove e.ref (before ++ e ∷ (n ∷ ns));
        head = some (record { element = next (before ++ e ∷ (n ∷ ns)) e; buf_index = 0 });
      })
      (record { element = next (before ++ e ∷ (n ∷ ns)) e; buf_index = 0 }) n before ns
      (Distinct-before before n ns (Distinct-remove before e (n ∷ ns) d))
      (remove-middle before e (n ∷ ns) ahead) refl (next-middle before e (n ∷ ns) ahead)

module _ (b : Buffer) (h c : Position) (before : List (Element SocketDataBuffer))
    (e : Element SocketDataBuffer) (rest : List (Element SocketDataBuffer))
    (d : Distinct (before ++ e ∷ rest)) where
  finish_reading :
      buffer_len e.value == c.buf_index ≡ true
      → Removed b before rest (bytes_of rest) (finish_removing b h c (before ++ e ∷ rest, some e))
  unfolding finish_removing
  finish_reading done =
      rw (done, finish_removing)
        (
          refl,
          remove-middle before e rest (Distinct-before before e rest d),
          next_message b before e rest d,
        )

  keep_reading :
      buffer_len e.value == c.buf_index ≡ false
      → (if is_at h.element c.element then h.element else some e) ≡ some e
      → Removed b before
          (e ∷ rest)
          (drop c.buf_index (buffer_data e.value) ++ bytes_of rest)
          (finish_removing b h c (before ++ e ∷ rest, some e))
  unfolding finish_removing
  keep_reading more at =
      let h' : Position = record {
        element = if is_at h.element c.element then h.element else some e;
        buf_index = c.buf_index;
      } in
      rw (more, finish_removing)
        (
          refl,
          refl,
          stream_of_head-here (record b { data_events = before ++ e ∷ rest; head = some h' }) h' e
              before rest (Distinct-before before e rest d) refl refl at,
        )

-- The buffer that RemoveReadElements ends its loop with: its details are cleaned, if asked for.
abbrev cleaned : Bool → Buffer → Position → Position → Buffer
cleaned include_details r h c = record r {
  detail_events = if include_details then remove_details r h c else r.detail_events;
}

remove_read_elements-at :
    (include_details : Bool) (r : Buffer) (h c : Position)
    → r.head ≡ some h
    → r.current ≡ some c
    → remove_read_elements include_details r
      ≡ some (
          finish_removing
            (cleaned include_details r h c)
            h
            c
            (remove_until (length r.data_events) r.data_events h.element c.element))
unfolding remove_read_elements
remove_read_elements-at include_details r h c p q = ground arith

-- The elements up to the current one, and none of those before the head.
Distinct-kept :
    (before mid : List (Element SocketDataBuffer)) (e : Element SocketDataBuffer)
    (rest : List (Element SocketDataBuffer))
    → Distinct (before ++ (mid ++ e ∷ rest))
    → Distinct (before ++ e ∷ rest)
Distinct-kept before [] e rest d = d
Distinct-kept before (m ∷ mid) e rest d =
    Distinct-kept before mid e rest (Distinct-remove before m (mid ++ e ∷ rest) d)

module _ (include_details : Bool) (r : Buffer) (h c : Position)
    (before mid : List (Element SocketDataBuffer)) (e : Element SocketDataBuffer)
    (rest : List (Element SocketDataBuffer)) (i : IsBetween r h c before mid e rest) where
  stream_here : unread r ≡ drop c.buf_index (buffer_data e.value) ++ bytes_of rest
  stream_here =
      unread-at r c e i.current i.on
      ∙ unread_at-held r.data_events e c.buf_index rest (
          ap (from_element e.ref) (i.events ∙ sym (append_assoc before mid (e ∷ rest)))
          ∙ from_element-middle (before ++ mid) e rest (
              Distinct-before (before ++ mid) e rest
                (subst Distinct (sym (append_assoc before mid (e ∷ rest))) i.distinct)))

  stream_finished : buffer_len e.value == c.buf_index ≡ true → unread r ≡ bytes_of rest
  stream_finished done =
      stream_here
      ∙ ap (λ l. l ++ bytes_of rest)
          (drop-length_le c.buf_index (buffer_data e.value)
            (ground (arith, length-buffer_data e.value i.valid, done)))

  abbrev finished : Buffer × Bool
  finished = finish_removing (cleaned include_details r h c) h c (before ++ e ∷ rest, some e)

  removed : Removed (cleaned include_details r h c) before (kept c e rest) (unread r) finished
  removed =
      let d = Distinct-kept before mid e rest i.distinct in
      let b = cleaned include_details r h c in
      elim (Bool-cases (buffer_len e.value == c.buf_index)) [
        | inl done ↦
            let f = finish_reading b h c before e rest d done in
            (f.0, rw done f.1, f.2 ∙ sym (stream_finished done))
        | inr more ↦
            let f =
              keep_reading b h c before e rest d more
                (new_head before mid e rest h.element c.element i.from_head i.on i.distinct) in
            (f.0, rw more f.1, f.2 ∙ sym stream_here)
      ]

  -- RemoveReadElements, called where the reader began at its head and stands `mid` elements
  -- further on, succeeds and does not say that reading is over. It removes exactly the elements
  -- that were read to their end, keeps those that an earlier skip left before the head, and the
  -- stream behind the new head is the stream that was unread.
  pub remove_read_elements-stream :
      (r' : Buffer) × (remove_read_elements include_details r ≡ some (r', false))
      × (r'.data_events ≡ before ++ kept c e rest)
      × (stream_of_head r' ≡ unread r)
  remove_read_elements-stream = (
    finished.0,
    remove_read_elements-at include_details r h c i.head i.current
        ∙ ap (λ x. some (finish_removing (cleaned include_details r h c) h c x))
            (remove_until-at r.data_events h.element c.element before mid e rest i.events
              i.from_head i.on i.distinct)
        ∙ ap (λ f. some (finished.0, f)) removed.0,
    removed.1,
    removed.2,
  )
