-- ===== src/Buffer/Events.antt =====
-- The socket data events that a buffer holds: SocketDataUploadEvent of
-- pkg/accesslog/events/data.go, and SocketDataEventLimited of pkg/tools/buffer/buffer.go, the two
-- implementations of the interface SocketDataBuffer; and the socket details by the two methods
-- that the buffer calls. A byte slice is the list of its bytes.
use skywalking_rover.Common.{
  ℕ, ◌-◌, ◌≤◌, ◌≡◌, Bool, List, take, drop, length, arith, ◌==◌, length-take, length-drop,
}

pub record SocketDataUploadEvent : Type 0 where
  pub data_id : ℕ
  pub prev_data_id : ℕ
  pub sequence : ℕ
  pub finished : ℕ
  pub have_reduce : ℕ
  pub data_len : ℕ
  pub start_time : ℕ
  pub buffer : List ℕ

pub data SocketDataBuffer : Type 0 where
  upload : SocketDataUploadEvent → SocketDataBuffer
  limited : (inner : SocketDataBuffer) (from size : ℕ) → SocketDataBuffer

-- `inner.BufferData()[From:Size]`; where the interface does not override a method, the embedded
-- event answers.
unfoldable pub buffer_data : SocketDataBuffer → List ℕ
buffer_data (upload e) = take e.data_len e.buffer
buffer_data (limited b from size) = drop from (take size (buffer_data b))

unfoldable pub buffer_len : SocketDataBuffer → ℕ
buffer_len (upload e) = e.data_len
buffer_len (limited b from size) = size - from

unfoldable pub buffer_start_position : SocketDataBuffer → ℕ
buffer_start_position (upload e) = 0
buffer_start_position (limited b from size) = from

abbrev uploaded : SocketDataBuffer → SocketDataUploadEvent
uploaded (upload e) = e
uploaded (limited b from size) = uploaded b

unfoldable pub data_id : SocketDataBuffer → ℕ
data_id b = (uploaded b).data_id

unfoldable pub prev_data_id : SocketDataBuffer → ℕ
prev_data_id b = (uploaded b).prev_data_id

unfoldable pub data_sequence : SocketDataBuffer → ℕ
data_sequence b = (uploaded b).sequence

unfoldable pub start_time : SocketDataBuffer → ℕ
start_time b = (uploaded b).start_time

unfoldable pub is_start : SocketDataBuffer → Bool
unfolding data_sequence
is_start b = data_sequence b == 0

unfoldable pub is_finished : SocketDataBuffer → Bool
is_finished b = (uploaded b).finished == 1

unfoldable pub have_reduce_data_after_chunk : SocketDataBuffer → Bool
have_reduce_data_after_chunk b = (uploaded b).have_reduce == 1

-- The slice expressions of `BufferData` are in range.
abbrev pub IsValid : SocketDataBuffer → Type 0
IsValid (upload e) = e.data_len ≤ length e.buffer
IsValid (limited b from size) = (from ≤ size) × (size ≤ buffer_len b) × IsValid b

-- A valid event holds as many bytes as `BufferLen` says.
pub length-buffer_data : (b : SocketDataBuffer) → IsValid b → length (buffer_data b) ≡ buffer_len b
unfolding buffer_data buffer_len
length-buffer_data (upload e) v = omega (arith, length-take e.data_len e.buffer)
length-buffer_data (limited b from size) v = omega (
  arith,
  length-drop from (take size (buffer_data b)),
  length-take size (buffer_data b),
  length-buffer_data b v.2,
)

pub record SocketDataDetail : Type 0 where
  pub data_id : ℕ
  pub time : ℕ
