-- ===== src/Buffer/State.antt =====
-- The state of a Buffer of pkg/tools/buffer/buffer.go. `next_ref` is the model's supply of
-- element identities; the lock is not part of the state, since each operation runs under it.
use skywalking_rover.Common.{ℕ, Bool, false, List, [], Option, none}
use skywalking_rover.Buffer.Events.{SocketDataBuffer, SocketDataDetail}
use skywalking_rover.Buffer.Elements.{Element}

pub record Position : Type 0 where
  pub element : Option (Element SocketDataBuffer)
  pub buf_index : ℕ

pub record Buffer : Type 0 where
  pub data_events : List (Element SocketDataBuffer)
  pub next_ref : ℕ
  pub detail_events : List SocketDataDetail
  pub validated : Bool
  pub should_reset_position : Bool
  pub head : Option Position
  pub current : Option Position
  pub latest_expired_data_id : ℕ
  pub end_position : Option Position

unfoldable pub new_buffer : Buffer
new_buffer = record {
  data_events = [];
  next_ref = 0;
  detail_events = [];
  validated = false;
  should_reset_position = false;
  head = none;
  current = none;
  latest_expired_data_id = 0;
  end_position = none;
}
