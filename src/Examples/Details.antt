-- ===== src/Examples/Details.antt =====
-- Runs of the theorems on the details of a buffer that was read to the end of its event 1.
use skywalking_rover.Common.{ℕ, ◌≡◌, refl, true, false, List, [], ◌∷◌, Option, some, none}
use skywalking_rover.Buffer.Events.{SocketDataBuffer, upload, SocketDataDetail, data_id, buffer_len}
use skywalking_rover.Buffer.Elements.{Element}
use skywalking_rover.Buffer.State.{Buffer, Position}
use skywalking_rover.Buffer.Append.Sorted.{IsSorted}
use skywalking_rover.Buffer.Append.Order.{later}
use skywalking_rover.Buffer.Ranges.{DataIdRange, build_total_data_id_range}

abbrev detail_of : ℕ → SocketDataDetail
detail_of id = record { data_id = id; time = id }

abbrev details : List SocketDataDetail
details = detail_of 1 ∷ detail_of 2 ∷ detail_of 3 ∷ []

abbrev unfinished : DataIdRange
unfinished = record { from_id = 1; to_id = 2; is_to_buffer_read_finished = false }

details-IsSorted : IsSorted later details
details-IsSorted = ((refl, (refl, tt)), ((refl, tt), (tt, tt)))

abbrev only_event : SocketDataBuffer
only_event = upload record {
  data_id = 1;
  prev_data_id = 0;
  sequence = 0;
  finished = 1;
  have_reduce = 0;
  data_len = 1;
  start_time = 1;
  buffer = 10 ∷ [];
}

abbrev only_element : Element SocketDataBuffer
only_element = record { ref = 0; value = only_event }

abbrev at_index : ℕ → Option Position
at_index i = some (record { element = some only_element; buf_index = i })

abbrev read_out : Buffer
read_out = record {
  data_events = only_element ∷ [];
  next_ref = 1;
  detail_events = details;
  validated = true;
  should_reset_position = false;
  head = at_index 0;
  current = at_index 1;
  latest_expired_data_id = 0;
  end_position = none;
}

abbrev event_range : DataIdRange
event_range = record { from_id = 1; to_id = 1; is_to_buffer_read_finished = true }

read_out-range : build_total_data_id_range read_out ≡ some (some event_range)
unfolding build_total_data_id_range data_id buffer_len
read_out-range = refl

abbrev same_time : ℕ → ℕ
same_time t = t
