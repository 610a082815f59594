-- ===== src/Buffer/Ranges.antt =====
-- pkg/tools/buffer/buffer.go: the range of data ids that a message covers, the details that belong
-- to it, and the expiry of events. `none` stands for the nil dereference of a position that is nil
-- or has no element.
pub mod Laws
use skywalking_rover.Common.{
  ℕ, zero, suc, ◌+◌, Bool, true, false, ◌&&◌, ◌||◌, not, List, [], ◌∷◌, map, Option, none, some,
  ltb, leb, ◌==◌, if◌then◌else◌,
}
use skywalking_rover.Buffer.Events.{
  SocketDataBuffer, SocketDataDetail, data_id, buffer_len, start_time,
}
use skywalking_rover.Buffer.Elements.{Element}
use skywalking_rover.Buffer.State.{Buffer, Position}

pub record DataIdRange : Type 0 where
  pub from_id : ℕ
  pub to_id : ℕ
  pub is_to_buffer_read_finished : Bool

abbrev pub is_in : ℕ → ℕ → ℕ → Bool
is_in from_id to_id id = leb from_id id && leb id to_id

abbrev all_in : DataIdRange → List SocketDataDetail → Bool
all_in i [] = true
all_in i (d ∷ ds) = is_in i.from_id i.to_id d.data_id && all_in i ds

unfoldable pub is_include_all_details : DataIdRange → List SocketDataDetail → Bool
is_include_all_details i [] = false
is_include_all_details i (d ∷ ds) = all_in i (d ∷ ds)

unfoldable pub append_range : DataIdRange → DataIdRange → DataIdRange
append_range i other = record {
  from_id = if ltb other.from_id i.from_id then other.from_id else i.from_id;
  to_id = if ltb i.to_id other.to_id then other.to_id else i.to_id;
  is_to_buffer_read_finished = other.is_to_buffer_read_finished;
}

-- DeleteDetails, on the details of one buffer.
unfoldable pub delete_details : DataIdRange → List SocketDataDetail → List SocketDataDetail
delete_details i [] = []
delete_details i (d ∷ ds) =
    let rest = delete_details i ds in
    if is_in i.from_id i.to_id d.data_id
    then (if not i.is_to_buffer_read_finished && (d.data_id == i.to_id) then d ∷ ds else rest)
    else d ∷ rest

-- p.DataID(), and whether the position is at the end of its element.
unfoldable pub position_end : Option Position → Option (ℕ × Bool)
position_end none = none
position_end (some p) = elim p.element [
  | none ↦ none
  | some e ↦ some (data_id e.value, p.buf_index == buffer_len e.value)
]

-- The end position, or the current one if there is none.
unfoldable pub last_position : Buffer → Option Position
last_position r = elim r.end_position [ none ↦ r.current | some p ↦ some p ]

unfoldable pub range_of :
    List (Element SocketDataBuffer)
    → Option (ℕ × Bool)
    → Option (ℕ × Bool)
    → Option (Option DataIdRange)
range_of [] last first = some none
range_of (e ∷ es) none first = none
range_of (e ∷ es) (some l) none = none
range_of (e ∷ es) (some (to_id, finished)) (some (from_id, f)) =
    some (some (record { from_id = from_id; to_id = to_id; is_to_buffer_read_finished = finished }))

-- BuildTotalDataIDRange; the inner `none` is the nil range of an empty buffer.
unfoldable pub build_total_data_id_range : Buffer → Option (Option DataIdRange)
unfolding range_of position_end last_position
build_total_data_id_range r =
    range_of r.data_events (position_end (last_position r)) (position_end r.head)

unfoldable pub details_between : ℕ → ℕ → List SocketDataDetail → List SocketDataDetail
details_between from_id to_id [] = []
details_between from_id to_id (d ∷ ds) =
    let rest = details_between from_id to_id ds in
    if is_in from_id to_id d.data_id then d ∷ rest else rest

unfoldable pub details_of :
    Option (ℕ × Bool) → Option (ℕ × Bool) → List SocketDataDetail → Option (List SocketDataDetail)
unfolding details_between
details_of none last original = none
details_of (some f) none original = none
details_of (some (from_id, f)) (some (to_id, finished)) original =
    some (details_between from_id to_id original)

-- BuildDetails, for a buffer with the details of its original buffer, if it has one.
unfoldable pub build_details :
    Option (List SocketDataDetail) → Buffer → Option (List SocketDataDetail)
unfolding details_of position_end last_position
build_details none r = some r.detail_events
build_details (some original) r =
    details_of (position_end r.head) (position_end (last_position r)) original

unfoldable pub find_first_data_buffer :
    ℕ → List (Element SocketDataBuffer) → Option SocketDataBuffer
find_first_data_buffer id [] = none
find_first_data_buffer id (e ∷ es) =
    if data_id e.value == id then some e.value else find_first_data_buffer id es

-- What deleteEventsWithJudgement leaves of the data events, the last data id that it deleted, and
-- how many it deleted. `host_time` is the conversion of a kernel time.
unfoldable pub delete_data_events :
    (ℕ → ℕ) → ℕ → List (Element SocketDataBuffer) → ℕ → List (Element SocketDataBuffer) × ℕ × ℕ
delete_data_events host_time expire_time [] latest = ([], latest, 0)
delete_data_events host_time expire_time (e ∷ es) latest =
    let r = delete_data_events host_time expire_time es (data_id e.value) in
    if ltb (host_time (start_time e.value)) expire_time
    then (r.0, r.1, suc r.2)
    else (e ∷ es, latest, 0)

unfoldable pub is_delete : (ℕ → ℕ) → ℕ → ℕ → SocketDataDetail → Bool
is_delete host_time expire_time latest d =
    ltb 0 latest && leb d.data_id latest || ltb 0 d.time && ltb (host_time d.time) expire_time

unfoldable pub delete_detail_events :
    (SocketDataDetail → Bool) → List SocketDataDetail → List SocketDataDetail × ℕ
delete_detail_events check [] = ([], 0)
delete_detail_events check (d ∷ ds) =
    let r = delete_detail_events check ds in if check d then (r.0, suc r.1) else (d ∷ ds, 0)

unfoldable pub delete_expire_events : (ℕ → ℕ) → ℕ → Buffer → Buffer × ℕ
unfolding delete_data_events delete_detail_events is_delete
delete_expire_events host_time expire_time r =
    let d = delete_data_events host_time expire_time r.data_events r.latest_expired_data_id in
    let t = delete_detail_events (is_delete host_time expire_time d.1) r.detail_events in
    (record r { data_events = d.0; latest_expired_data_id = d.1; detail_events = t.0 }, d.2 + t.1)
