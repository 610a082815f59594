-- ===== src/Connections/Upkeep.antt =====
-- What other parts of the agent do to the connections of pkg/accesslog/common/connection.go: the
-- downgrade of a protocol, the push of a resolution, the latency of resolutions, and the cleaning of
-- the map of active connections. Times are nanoseconds; a connection that was not created has no
-- duration and is no entry here.
pub mod Downgraded
pub mod Cleaned
pub mod Buckets
use skywalking_rover.Common.{
  ℕ, suc, ◌+◌, ◌/◌, Bool, true, false, ◌&&◌, ◌||◌, not, List, [], ◌∷◌, Option, none, some, ltb,
  ◌==◌, if◌then◌else◌, lookup, put,
}
use skywalking_rover.Connections.Tracking.{ConnectionRole, role_unknown, role_client, role_server}
use skywalking_rover.Connections.Handling.{
  ConnectionInfo, Connections, connection_key, set_break, attach,
}

-- The fields of a connection in the map of the kernel that are read or written.
pub record ActiveConnection : Type 0 where
  pub active_random_id : ℕ
  pub active_pid : ℕ
  pub skip_data_upload : Bool

-- The connection is broken, or the cache remembers that it will be.
abbrev pub break_protocol : ℕ → Option ConnectionInfo → Connections → Connections
break_protocol key none t = record t { break_calls = set_break key ∷ t.break_calls }
break_protocol key (some c) t = record t {
  connections = put key (record c { protocol_break = true }) t.connections;
}

abbrev pub skip_upload :
    (connection_id random_id : ℕ)
    → (update_fails : Bool) → Option ActiveConnection
    → List (ℕ × ActiveConnection)
    → List (ℕ × ActiveConnection)
skip_upload connection_id random_id update_fails none m = m
skip_upload connection_id random_id update_fails (some a) m =
    if not (a.active_random_id == random_id) || update_fails
    then m
    else put connection_id (record a { skip_data_upload = true }) m

-- A lookup that fails is one that finds nothing.
unfoldable pub skip_all_data_analyze_and_downgrade_protocol :
    (connection_id random_id : ℕ)
    → (lookup_fails update_fails : Bool) → Connections × List (ℕ × ActiveConnection)
    → Connections × List (ℕ × ActiveConnection)
skip_all_data_analyze_and_downgrade_protocol connection_id random_id lookup_fails update_fails
      (t, m) =
    let key = connection_key connection_id random_id in
    (
      break_protocol key (lookup key t.connections) t,
      skip_upload connection_id random_id update_fails
          (if lookup_fails then none else lookup connection_id m) m,
    )

abbrev pub is_client : ConnectionRole → Bool
is_client role_client = true
is_client _ = false

abbrev pub offer :
    (ready : ConnectionInfo → Option ℕ)
    → (src_ip src_port : ℕ) → ConnectionInfo
    → Option ℕ
    → ConnectionInfo
offer ready src_ip src_port c (some a) = c
offer ready src_ip src_port c none =
    if is_client c.socket.role && c.socket.src_ip == src_ip && c.socket.src_port == src_port
    then attach c (ready c)
    else c

-- The connections, after the listeners saw the clients of the source that have no attachment.
unfoldable pub retro_resolve_by_src :
    (ready : ConnectionInfo → Option ℕ)
    → (src_ip src_port : ℕ) → List (ℕ × ConnectionInfo)
    → List (ℕ × ConnectionInfo)
retro_resolve_by_src ready src_ip src_port [] = []
retro_resolve_by_src ready src_ip src_port ((key, c) ∷ m) =
    (key, offer ready src_ip src_port c c.rpc_connection.attachment)
    ∷ retro_resolve_by_src ready src_ip src_port m

pub record Latencies : Type 0 where
  pub under_1s : ℕ
  pub from_1_to_5s : ℕ
  pub from_5_to_15s : ℕ
  pub over_15s : ℕ
  pub max_milli : ℕ

abbrev pub second : ℕ
second = 1_000_000_000

abbrev pub count_latency : ℕ → Latencies → Latencies
count_latency d l =
    if ltb d second
    then record l { under_1s = suc l.under_1s }
    else if ltb d 5_000_000_000
    then record l { from_1_to_5s = suc l.from_1_to_5s }
    else if ltb d 15_000_000_000
    then record l { from_5_to_15s = suc l.from_5_to_15s }
    else record l { over_15s = suc l.over_15s }

unfoldable pub record_resolution_latency : ℕ → Latencies → Latencies
record_resolution_latency d l =
    let milli = d / 1_000_000 in
    if ltb l.max_milli milli
    then record (count_latency d l) { max_milli = milli }
    else count_latency d l

-- A connection that the cleaning deleted, as its close event.
pub record CloseEvent : Type 0 where
  pub close_connection_id : ℕ
  pub close_random_id : ℕ
  pub close_pid : ℕ

pub data Deletion : Type 0 where
  deleted_now key_not_exist delete_failed : Deletion

abbrev pub after_deletion :
    ℕ
    → ActiveConnection
    → Deletion
    → List (ℕ × ActiveConnection) × List CloseEvent
    → List (ℕ × ActiveConnection) × List CloseEvent
after_deletion id a deleted_now (m, es) = (
  m,
  record {
    close_connection_id = id;
    close_random_id = a.active_random_id;
    close_pid = a.active_pid;
  }
      ∷ es,
)
after_deletion id a key_not_exist (m, es) = (m, es)
after_deletion id a delete_failed (m, es) = ((id, a) ∷ m, es)

-- One round: what the kernel has afterwards, and the close events for the queue.
unfoldable pub clean_active_connections :
    (fd_exists : ℕ → Bool)
    → (ℕ → Deletion)
    → List (ℕ × ActiveConnection)
    → List (ℕ × ActiveConnection) × List CloseEvent
clean_active_connections fd_exists delete [] = ([], [])
clean_active_connections fd_exists delete ((id, a) ∷ rest) =
    let (m, es) = clean_active_connections fd_exists delete rest in
    if fd_exists id then ((id, a) ∷ m, es) else after_deletion id a (delete id) (m, es)
