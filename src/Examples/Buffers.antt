-- ===== src/Examples/Buffers.antt =====
-- Runs of the theorems on a buffer of two events, that hold the bytes 10 20 30 and 40 50.
use skywalking_rover.Common.{ℕ, ◌≡◌, refl, true, false, List, [], ◌∷◌, some, none, arith, length}
use mathlib.Core.List.{Permᴰ}
use skywalking_rover.Buffer.Events.{
  SocketDataBuffer, upload, SocketDataDetail, data_id, data_sequence, buffer_len,
}
use skywalking_rover.Buffer.Elements.{Element, values, Distinct, from_element}
use skywalking_rover.Buffer.State.{Buffer, Position, new_buffer}
use skywalking_rover.Buffer.Append.{append_data_events, comes_after}
use skywalking_rover.Buffer.Append.Sorted.{Apart}
use skywalking_rover.Buffer.Append.Order.{IsOrdered}
use skywalking_rover.Buffer.Append.Arrival.{append_data_events-arrival}
use skywalking_rover.Buffer.Read.{read, peek, read_until_buffer_full}
use skywalking_rover.Buffer.Read.Stream.{IsReadable, ReadOutcome, read-outcome, unread}
use skywalking_rover.Buffer.Read.Loops.{
  PeekOutcome, FullOutcome, peek-outcome, read_until_buffer_full-outcome,
}
use skywalking_rover.Buffer.Cycle.{remove_read_elements}
use skywalking_rover.Buffer.Cycle.Remove.{
  IsBetween, kept, stream_of_head, remove_read_elements-stream,
}

abbrev event : ℕ → ℕ → List ℕ → SocketDataBuffer
event id seq bytes = upload record {
  data_id = id;
  prev_data_id = 0;
  sequence = seq;
  finished = 0;
  have_reduce = 0;
  data_len = length bytes;
  start_time = id;
  buffer = bytes;
}

abbrev first_event : SocketDataBuffer
first_event = event 1 0 (10 ∷ 20 ∷ 30 ∷ [])

abbrev second_event : SocketDataBuffer
second_event = event 1 1 (40 ∷ 50 ∷ [])

abbrev first_element : Element SocketDataBuffer
first_element = record { ref = 0; value = first_event }

abbrev second_element : Element SocketDataBuffer
second_element = record { ref = 1; value = second_event }

abbrev detail : ℕ → SocketDataDetail
detail id = record { data_id = id; time = 0 }

abbrev at_start : Position
at_start = record { element = some first_element; buf_index = 0 }

abbrev in_second : Position
in_second = record { element = some second_element; buf_index = 1 }

abbrev two_events : Buffer
two_events = record {
  data_events = first_element ∷ second_element ∷ [];
  next_ref = 2;
  detail_events = detail 1 ∷ [];
  validated = true;
  should_reset_position = false;
  head = some at_start;
  current = some at_start;
  latest_expired_data_id = 0;
  end_position = none;
}

abbrev half_read : Buffer
half_read = record two_events { current = some in_second }

two_events-IsOrdered : IsOrdered two_events
unfolding comes_after data_id data_sequence
two_events-IsOrdered = ((refl, tt), (tt, tt))

new_buffer-IsOrdered : IsOrdered new_buffer
unfolding new_buffer
new_buffer-IsOrdered = tt

events-Apart : Apart comes_after (second_event ∷ first_event ∷ [])
unfolding comes_after data_id data_sequence
events-Apart = (((λ e. cc), tt), (tt, tt))

append_data_events_example :
    values (append_data_events new_buffer (second_event ∷ first_event ∷ [])).data_events
    ≡ values (append_data_events new_buffer (first_event ∷ second_event ∷ [])).data_events
append_data_events_example =
    append_data_events-arrival new_buffer (second_event ∷ first_event ∷ [])
      (first_event ∷ second_event ∷ []) new_buffer-IsOrdered events-Apart (Permᴰ.swap refl refl)

two_events-Distinct : Distinct two_events.data_events
two_events-Distinct = (((λ e. omega arith), tt), (tt, tt))

two_events-IsReadable : IsReadable two_events
unfolding buffer_len from_element
two_events-IsReadable = record {
  valid = (omega arith, (omega arith, tt));
  distinct = two_events-Distinct;
  at = (first_element, refl, refl, omega arith);
}

read_example : ReadOutcome two_events 5 (read two_events 5)
read_example = read-outcome two_events 5 two_events-IsReadable (omega arith)

half_read-IsBetween :
    IsBetween half_read at_start in_second [] (first_element ∷ []) second_element []
unfolding buffer_len
half_read-IsBetween = record {
  events = refl;
  head = refl;
  current = refl;
  from_head = refl;
  on = refl;
  distinct = two_events-Distinct;
  valid = omega arith;
  within = omega arith;
}

remove_read_elements_example :
    (r' : Buffer) × (remove_read_elements true half_read ≡ some (r', false))
    × (r'.data_events ≡ kept in_second second_element [])
    × (stream_of_head r' ≡ unread half_read)
remove_read_elements_example =
    remove_read_elements-stream true half_read at_start in_second [] (first_element ∷ [])
      second_element [] half_read-IsBetween

peek_example : PeekOutcome two_events 4 (peek two_events 4)
peek_example = peek-outcome two_events at_start 4 two_events-IsReadable refl

read_until_buffer_full_example :
    FullOutcome two_events 4
      (0 ∷ 0 ∷ 0 ∷ 0 ∷ [])
      (read_until_buffer_full two_events (0 ∷ 0 ∷ 0 ∷ 0 ∷ []))
read_until_buffer_full_example =
    read_until_buffer_full-outcome two_events (0 ∷ 0 ∷ 0 ∷ 0 ∷ []) two_events-IsReadable
