-- ===== src/Buffer/Read.antt =====
-- Read, ReadFromCurrent, read0, Peek and ReadUntilBufferFull of pkg/tools/buffer/buffer.go.
-- A call gets the length of the slice `p` and hands back the bytes that it copied into it.
pub mod Stream
pub mod Loops
use skywalking_rover.Common.{
  ℕ, zero, suc, ◌+◌, ◌-◌, min, Bool, ◌&&◌, ◌||◌, List, [], ◌++◌, Option, none, some, ltb, leb, ◌==◌,
  if◌then◌else◌, take, drop, length,
}
use skywalking_rover.Buffer.Events.{
  SocketDataBuffer, buffer_data, buffer_len, buffer_start_position, data_id, data_sequence,
  is_start, is_finished,
}
use skywalking_rover.Buffer.Elements.{Element, next}
use skywalking_rover.Buffer.State.{Buffer, Position}

-- The bytes, io.EOF, ErrNotComplete, a nil dereference, or the fuel of the model running out.
pub data ReadResult : Type 0 where
  got : List ℕ → ReadResult
  eof not_complete fault out_of_fuel : ReadResult

unfoldable pub move_to : Buffer → Element SocketDataBuffer → ℕ → Buffer
move_to r e index = record r { current = some (record { element = some e; buf_index = index }) }

-- The condition under which the next event continues the current one.
unfoldable pub should_read : Buffer → ℕ → SocketDataBuffer → SocketDataBuffer → Bool
should_read r index cur nxt =
    r.validated
    || (data_id cur == data_id nxt && data_sequence cur + 1 == data_sequence nxt
        || is_start nxt && is_finished cur
        || data_id cur == data_id nxt
          && data_sequence cur == data_sequence nxt
          && leb index (buffer_start_position nxt))

unfoldable pub read0 : Buffer → Element SocketDataBuffer → ℕ → Buffer × ReadResult
unfolding move_to
read0 r e n =
    let read_len = min n (buffer_len e.value) in
    (move_to r e read_len, got (take read_len (buffer_data e.value)))

-- What is left of the current event, as far as it fits.
unfoldable pub read_from_current : Element SocketDataBuffer → ℕ → ℕ → List ℕ
read_from_current e index n =
    take (min n (buffer_len e.value - index)) (drop index (buffer_data e.value))

unfoldable pub read_element : Buffer → Element SocketDataBuffer → ℕ → ℕ → Buffer × ReadResult
unfolding move_to read_from_current read0
read_element r e index n =
    if ltb index (buffer_len e.value)
    then (
      move_to r e (index + min n (buffer_len e.value - index)),
      got (read_from_current e index n),
    )
    else elim (next r.data_events e) [
      | none ↦ (r, eof)
      | some m ↦ if should_read r index e.value m.value then read0 r m n else (r, not_complete)
    ]

unfoldable pub read : Buffer → ℕ → Buffer × ReadResult
unfolding read_element
read r zero = (r, got [])
read r (suc n) = elim r.current [
  | none ↦ (r, eof)
  | some p ↦ elim p.element [ none ↦ (r, eof) | some e ↦ read_element r e p.buf_index (suc n) ]
]

-- Each round reads some bytes or goes on by one event.
unfoldable pub read_rounds : Buffer → ℕ → ℕ
read_rounds r n = suc (n + length r.data_events)

-- One round of Peek's loop, after its Read: `acc` is `p[:readIndex]`, `left` is
-- `len(p) - readIndex`.
unfoldable pub peek_round :
    (Buffer → ℕ → List ℕ → Buffer × ReadResult)
    → ℕ
    → List ℕ
    → Buffer × ReadResult
    → Buffer × ReadResult
peek_round loop left acc (r, got bytes) = loop r (left - length bytes) (acc ++ bytes)
peek_round loop left acc (r, failed) = (r, failed)

unfoldable pub peek_loop : ℕ → Buffer → ℕ → List ℕ → Buffer × ReadResult
unfolding peek_round
peek_loop fuel r zero acc = (r, got acc)
peek_loop zero r (suc left) acc = (r, out_of_fuel)
peek_loop (suc fuel) r (suc left) acc =
    peek_round (peek_loop fuel) (suc left) acc (read r (suc left))

-- The deferred `r.current = tmpPosition`.
unfoldable pub restore : Position → Buffer × ReadResult → Buffer × ReadResult
restore tmp_position (r, result) = (record r { current = some tmp_position }, result)

unfoldable pub peek : Buffer → ℕ → Buffer × ReadResult
unfolding peek_loop read_rounds restore
peek r n = elim r.current [
  | none ↦ (r, fault)
  | some tmp_position ↦ restore tmp_position (peek_loop (read_rounds r n) r n [])
]

-- copy(data, bytes)
abbrev pub copy : List ℕ → List ℕ → List ℕ
copy dest bytes = bytes ++ drop (length bytes) dest

-- One round of ReadUntilBufferFull's loop, after its Read: every round reads into
-- `data[:reduceLen]`. The result carries `data` as the loop leaves it.
unfoldable pub full_round :
    (Buffer → ℕ → List ℕ → Buffer × ReadResult)
    → ℕ
    → List ℕ
    → Buffer × ReadResult
    → Buffer × ReadResult
full_round loop reduce_len content (r, got bytes) =
    loop r (reduce_len - length bytes) (copy content bytes)
full_round loop reduce_len content (r, failed) = (r, failed)

unfoldable pub full_loop : ℕ → Buffer → ℕ → List ℕ → Buffer × ReadResult
unfolding full_round
full_loop fuel r zero content = (r, got content)
full_loop zero r (suc reduce_len) content = (r, out_of_fuel)
full_loop (suc fuel) r (suc reduce_len) content =
    full_round (full_loop fuel) (suc reduce_len) content (read r (suc reduce_len))

unfoldable pub read_until_buffer_full : Buffer → List ℕ → Buffer × ReadResult
unfolding full_loop read_rounds
read_until_buffer_full r content =
    full_loop (read_rounds r (length content)) r (length content) content
