-- ===== src/Buffer/Append.antt =====
-- AppendDetailEvent, AppendDataEvent and Merge of pkg/tools/buffer/buffer.go.
pub mod Sorted
pub mod Order
pub mod Arrival
use skywalking_rover.Common.{
  ℕ, suc, ◌+◌, Bool, true, false, ◌&&◌, ◌||◌, List, [], ◌∷◌, ◌++◌, Option, none, some, ltb, ◌==◌,
  if◌then◌else◌, last?,
}
use skywalking_rover.Buffer.Events.{SocketDataBuffer, SocketDataDetail, data_id, data_sequence}
use skywalking_rover.Buffer.Elements.{Element, values}
use skywalking_rover.Buffer.State.{Buffer, Position}

module _ {ℓ} {A : Type ℓ} (stops : A → Bool) where
  -- The loop of both appends: insert before the first element that stops it, or push back.
  unfoldable pub insert_before_first : A → List A → List A
  insert_before_first x [] = x ∷ []
  insert_before_first x (y ∷ ys) = if stops y then x ∷ (y ∷ ys) else y ∷ insert_before_first x ys

unfoldable pub insert_detail : SocketDataDetail → List SocketDataDetail → List SocketDataDetail
unfolding insert_before_first
insert_detail event events = elim (last? events) [
  | none ↦ event ∷ []
  | some back ↦
      if ltb back.data_id event.data_id
      then events ++ event ∷ []
      else insert_before_first (λ exist. ltb event.data_id exist.data_id) event events
]

unfoldable pub append_detail_event : Buffer → SocketDataDetail → Buffer
unfolding insert_detail
append_detail_event r event = record r { detail_events = insert_detail event r.detail_events }

-- The two tests that set `beenAdded`.
unfoldable pub comes_after : SocketDataBuffer → SocketDataBuffer → Bool
comes_after exist event =
    ltb (data_id event) (data_id exist)
    || data_id exist == data_id event && ltb (data_sequence event) (data_sequence exist)

unfoldable pub insert_data :
    Element SocketDataBuffer → List (Element SocketDataBuffer) → List (Element SocketDataBuffer)
unfolding insert_before_first comes_after
insert_data event events = elim (last? events) [
  | none ↦ event ∷ []
  | some back ↦
      if ltb (data_id back.value) (data_id event.value)
      then events ++ event ∷ []
      else insert_before_first (λ exist. comes_after exist.value event.value) event events
]

-- The deferred test: the reader stands past the new event. A position with a nil element panics
-- in the source; here it is not past.
unfoldable pub is_reading_past : Option Position → SocketDataBuffer → Bool
is_reading_past none event = false
is_reading_past (some p) event = elim p.element [
  | none ↦ false
  | some e ↦ ltb (data_id event) (data_id e.value)
]

abbrev is_empty {ℓ} : {A : Type ℓ} → List A → Bool
is_empty [] = true
is_empty (x ∷ xs) = false

unfoldable pub append_data_event : Buffer → SocketDataBuffer → Buffer
unfolding insert_data is_reading_past
append_data_event r event = record r {
  data_events = insert_data (record { ref = r.next_ref; value = event }) r.data_events;
  next_ref = suc r.next_ref;
  should_reset_position =
      r.should_reset_position || is_empty r.data_events || is_reading_past r.current event;
}

unfoldable pub append_data_events : Buffer → List SocketDataBuffer → Buffer
append_data_events r [] = r
append_data_events r (e ∷ es) = append_data_events (append_data_event r e) es

unfoldable pub append_detail_events : Buffer → List SocketDataDetail → Buffer
append_detail_events r [] = r
append_detail_events r (e ∷ es) = append_detail_events (append_detail_event r e) es

-- `none` is the nil buffer.
unfoldable pub merge : Buffer → Option Buffer → Buffer
unfolding append_data_events append_detail_events
merge r none = r
merge r (some other) =
    append_detail_events (append_data_events r (values other.data_events)) other.detail_events
