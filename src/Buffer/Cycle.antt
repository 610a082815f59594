-- ===== src/Buffer/Cycle.antt =====
-- PrepareForReading, SkipCurrentElement, RemoveReadElements, ResetForLoopReading, Clean and
-- IsCurrentPacketReadFinished of pkg/tools/buffer/buffer.go: how an analyzer goes through a
-- buffer, message by message. `none` is a nil dereference.
pub mod Lists
pub mod Remove
use skywalking_rover.Common.{
  ℕ, zero, suc, Bool, true, false, ◌&&◌, ◌||◌, not, List, [], ◌∷◌, Option, none, some, ltb, leb,
  ◌==◌, if◌then◌else◌, length,
}
use skywalking_rover.Buffer.Events.{SocketDataBuffer, SocketDataDetail, buffer_len, data_id}
use skywalking_rover.Buffer.Elements.{Element, next, remove}
use skywalking_rover.Buffer.State.{Buffer, Position}

unfoldable pub reset_for_loop_reading : Buffer → Buffer
reset_for_loop_reading r = record r { head = none; current = none }

unfoldable pub clean : Buffer → Buffer
clean r = record r {
  data_events = [];
  detail_events = [];
  head = none;
  current = none;
  end_position = none;
}

-- The head to read from: the front element, if there is none yet.
unfoldable pub place_head : Element SocketDataBuffer → Option Position → Position
place_head front none = record { element = some front; buf_index = 0 }
place_head front (some h) = elim h.element [
  | none ↦ record { element = some front; buf_index = 0 }
  | some e ↦ h
]

unfoldable pub start_reading : Buffer → Element SocketDataBuffer → Buffer
unfolding place_head
start_reading r front =
    let h = place_head front r.head in record r { head = some h; current = some h }

-- The call of itself after a reset goes the other way, since the flag is down.
unfoldable pub prepare_for_reading : Buffer → Buffer × Bool
unfolding start_reading reset_for_loop_reading
prepare_for_reading r = elim r.data_events [
  | [] ↦ (r, false)
  | front ∷ _ ↦ (
    start_reading
        (if r.should_reset_position
          then record (reset_for_loop_reading r) { should_reset_position = false }
          else r)
        front,
    true,
  )
]

unfoldable pub is_current_packet_read_finished : Buffer → Option Bool
is_current_packet_read_finished r = elim r.current [
  | none ↦ none
  | some p ↦ elim p.element [ none ↦ none | some e ↦ some (p.buf_index == buffer_len e.value) ]
]

-- nextElement(e), which is nil at nil.
unfoldable pub next_element :
    List (Element SocketDataBuffer)
    → Option (Element SocketDataBuffer)
    → Option (Element SocketDataBuffer)
next_element es none = none
next_element es (some e) = next es e

abbrev pub is_nil {ℓ} : {A : Type ℓ} → Option A → Bool
is_nil none = true
is_nil (some a) = false

unfoldable pub skip_current_element : Buffer → Option (Buffer × Bool)
unfolding next_element
skip_current_element r = elim r.head [
  | none ↦ none
  | some h ↦ elim r.current [
    | none ↦ none
    | some c ↦
        let n = next_element r.data_events c.element in
        some (
          record r {
            head = some (record h { element = n });
            current = some (record c { buf_index = 0 });
          },
          is_nil n,
        )
  ]
]

-- Deleting the details of the data ids that were read: from the first detail within the range on,
-- up to the first one past it.
unfoldable pub delete_read_details : ℕ → ℕ → Bool → List SocketDataDetail → List SocketDataDetail
delete_read_details first last started [] = []
delete_read_details first last started (d ∷ ds) =
    let starts = started || leb first d.data_id && leb d.data_id last in
    let kept = delete_read_details first last starts ds in
    if started && ltb last d.data_id then d ∷ ds else if starts then kept else d ∷ kept

unfoldable pub remove_details : Buffer → Position → Position → List SocketDataDetail
unfolding delete_read_details
remove_details r h c = elim h.element [
  | none ↦ r.detail_events
  | some first ↦ elim c.element [
    | none ↦ r.detail_events
    | some last ↦
        if data_id first.value == data_id last.value && not (buffer_len last.value == c.buf_index)
        then r.detail_events
        else delete_read_details (data_id first.value) (data_id last.value) false r.detail_events
  ]
]

-- e == r.current.element, as pointers.
abbrev pub is_element {ℓ} : {A : Type ℓ} → Element A → Option (Element A) → Bool
is_element e none = false
is_element e (some c) = e.ref == c.ref

-- The loop that removes the elements from the head up to the current one. Each round removes one.
unfoldable pub remove_until {ℓ} :
    {A : Type ℓ}
    → ℕ
    → List (Element A)
    → Option (Element A)
    → Option (Element A)
    → List (Element A) × Option (Element A)
remove_until zero es n cur = (es, n)
remove_until (suc fuel) es none cur = (es, none)
remove_until (suc fuel) es (some e) cur =
    let rest = remove_until fuel (remove e.ref es) (next es e) cur in
    if is_element e cur then (es, some e) else rest

abbrev pub is_at {ℓ} : {A : Type ℓ} → Option (Element A) → Option (Element A) → Bool
is_at none cur = true
is_at (some e) cur = is_element e cur

-- What follows the loop: `n` is the element it ended on.
unfoldable pub finish_removing :
    Buffer
    → Position
    → Position
    → List (Element SocketDataBuffer) × Option (Element SocketDataBuffer)
    → Buffer × Bool
finish_removing r h c (es, none) =
    if is_at h.element c.element
    then (record r { data_events = es; head = some (record h { buf_index = c.buf_index }) }, false)
    else (record r { data_events = es }, true)
finish_removing r h c (es, some e) =
    if buffer_len e.value == c.buf_index
    then (
      record r {
        data_events = remove e.ref es;
        head = some (record { element = next es e; buf_index = 0 });
      },
      false,
    )
    else (
      record r {
        data_events = es;
        head = some (record {
          element = if is_at h.element c.element then h.element else some e;
          buf_index = c.buf_index;
        });
      },
      false,
    )

unfoldable pub remove_read_elements : Bool → Buffer → Option (Buffer × Bool)
unfolding remove_details remove_until finish_removing
remove_read_elements include_details r = elim r.head [
  | none ↦ none
  | some h ↦ elim r.current [
    | none ↦ none
    | some c ↦ some (
        finish_removing
          (record r {
            detail_events = if include_details then remove_details r h c else r.detail_events;
          })
          h c (remove_until (length r.data_events) r.data_events h.element c.element))
  ]
]
