-- ===== src/Connections/Handling.antt =====
-- The connections of pkg/accesslog/common/connection.go and what an event does to them. The key of a
-- connection, a string of two numbers, is one number here. The listeners of the flush may attach
-- a destination: `ready` is the attachment that they leave. What the cache of broken protocols
-- answers is an argument, and its calls are kept. Times are nanoseconds.
pub mod Protocol
pub mod Found
use skywalking_rover.Common.{
  ℕ, ◌+◌, ◌*◌, ◌/◌, ◌%◌, ◌^◌, Bool, true, false, ◌&&◌, ◌||◌, not, List, [], ◌∷◌, Option, none, some,
  ◌==◌, if◌then◌else◌, lookup, put,
}
use skywalking_rover.Connections.Monitor.{ConnectionManager}
use skywalking_rover.Connections.Tracking.{
  ConnectionRole, role_unknown, role_client, role_server, SocketPair, Session,
}
use skywalking_rover.Connections.Addresses.{
  ConnectionAddress, build_local_address, Remotes, build_remote_address,
}

pub data ProtocolType : Type 0 where
  tcp http_1 http_2 : ProtocolType

pub data TlsMode : Type 0 where
  plain tls : TlsMode

pub data DetectPoint : Type 0 where
  point_client point_server : DetectPoint

pub record AccessLogConnection : Type 0 where
  pub local : ConnectionAddress
  pub remote : ConnectionAddress
  pub detect_point : DetectPoint
  pub tls_mode : TlsMode
  pub protocol : ProtocolType
  pub attachment : Option ℕ

pub record ConnectionInfo : Type 0 where
  pub connection_id : ℕ
  pub random_id : ℕ
  pub rpc_connection : AccessLogConnection
  pub mark_deletable : Bool
  pub connection_pid : ℕ
  pub socket : SocketPair
  pub last_check_exist_time : ℕ
  pub delete_after : Option ℕ
  pub protocol_break : Bool
  pub created_at : ℕ

-- A connect event has a socket pair if one was found.
pub data Event : Type 0 where
  close_event other_event : Event
  socket_detail : (ssl protocol : ℕ) → Event
  connect_event : (pid : ℕ) → Option SocketPair → Event

-- ConnectionProtocolHTTP and ConnectionProtocolHTTP2.
abbrev pub known_protocol : ℕ → Option ProtocolType
known_protocol p = if p == 1 then some http_1 else if p == 2 then some http_2 else none

abbrev pub detail_tls : ℕ → TlsMode → TlsMode
detail_tls ssl tls = tls
detail_tls ssl plain = if ssl == 1 then tls else plain

abbrev pub or_tcp : Option ProtocolType → ProtocolType
or_tcp none = tcp
or_tcp (some p) = p

-- The protocol after a detail, of a broken connection or another one.
abbrev pub detail_protocol : Bool → ℕ → ProtocolType → ProtocolType
detail_protocol true protocol p = tcp
detail_protocol false protocol tcp = or_tcp (known_protocol protocol)
detail_protocol false protocol p = p

unfoldable pub rebuild_rpc_connection : ConnectionInfo → TlsMode → ProtocolType → ConnectionInfo
rebuild_rpc_connection c t p = record c {
  rpc_connection = record c.rpc_connection { tls_mode = t; protocol = p };
}

abbrev pub handle_event : ConnectionInfo → Event → ConnectionInfo
handle_event c close_event = record c { mark_deletable = true }
handle_event c (socket_detail ssl protocol) =
    rebuild_rpc_connection c (detail_tls ssl c.rpc_connection.tls_mode)
      (detail_protocol c.protocol_break protocol c.rpc_connection.protocol)
handle_event c _ = c

abbrev pub attach : ConnectionInfo → Option ℕ → ConnectionInfo
attach c a = record c { rpc_connection = record c.rpc_connection { attachment = a } }

module _ (ready : ConnectionInfo → Option ℕ) where
  unfoldable pub connection_post_handle : ConnectionInfo → Event → ConnectionInfo
  unfolding rebuild_rpc_connection
  connection_post_handle c e = attach (handle_event c e) (ready (handle_event c e))

pub data BreakCall : Type 0 where
  set_break delete_break : ℕ → BreakCall

pub record Connections : Type 0 where
  pub connections : List (ℕ × ConnectionInfo)
  pub break_calls : List BreakCall
  pub remotes : Remotes

abbrev pub connection_key : (connection_id random_id : ℕ) → ℕ
connection_key connection_id random_id = connection_id * 2 ^ 64 + random_id

abbrev pub or_false : Option Bool → Bool
or_false none = false
or_false (some b) = b

abbrev pub delete_found : ℕ → Option Bool → List BreakCall → List BreakCall
delete_found key none calls = calls
delete_found key (some b) calls = delete_break key ∷ calls

-- The zero value of the point, for an unknown role, is the client.
abbrev pub detect_point_of : ConnectionRole → DetectPoint
detect_point_of role_server = point_server
detect_point_of _ = point_client

-- `broken` is the cache's answer at the key.
unfoldable pub build_connection :
    (now connection_id random_id pid : ℕ)
    → SocketPair
    → (local remote : ConnectionAddress) → (broken : Option Bool) → ConnectionInfo
build_connection now connection_id random_id pid socket local remote broken = record {
  connection_id = connection_id;
  random_id = random_id;
  rpc_connection = record {
    local = local;
    remote = remote;
    detect_point = detect_point_of socket.role;
    tls_mode = plain;
    protocol = tcp;
    attachment = none;
  };
  mark_deletable = false;
  connection_pid = pid;
  socket = socket;
  last_check_exist_time = now;
  delete_after = none;
  protocol_break = or_false broken;
  created_at = now;
}

-- What Find reads: the clock, the addresses of the host, the sessions of the kernel, the cache's
-- answer at the key, and the listeners.
pub record Surroundings : Type 0 where
  pub now : ℕ
  pub is_local_host_address : ℕ → Bool
  pub sessions : Option (List Session)
  pub broken : Option Bool
  pub ready : ConnectionInfo → Option ℕ

-- An event with the ids that it gets its connection by.
pub record Incoming : Type 0 where
  pub incoming_connection_id : ℕ
  pub incoming_random_id : ℕ
  pub event : Event

-- The upper 32 bits of a connection's id.
abbrev pub pid_of_connection : ℕ → ℕ
pid_of_connection id = id / 2 ^ 32 % 2 ^ 32

abbrev pub post_handled :
    Surroundings
    → ℕ
    → ConnectionInfo
    → Event
    → Connections
    → Option (Connections × Option ConnectionInfo)
post_handled w key c e t =
    let d = connection_post_handle w.ready c e in
    some (record t { connections = put key d t.connections }, some d)

-- A connection that is not there yet, when its remote address is built; `none` is a panic there.
unfoldable pub with_remote :
    Surroundings
    → ConnectionManager
    → Incoming
    → (pid : ℕ) → SocketPair
    → (local : ConnectionAddress) → Option (Remotes × SocketPair × Option ConnectionAddress)
    → Connections
    → Option (Connections × Option ConnectionInfo)
unfolding connection_post_handle build_connection
with_remote w s i pid socket local none t = none
with_remote w s i pid socket local (some (r, tracked, none)) t =
    some (record t { remotes = r }, none)
with_remote w s i pid socket local (some (r, tracked, some remote)) t =
    let key = connection_key i.incoming_connection_id i.incoming_random_id in
    post_handled w key
      (build_connection w.now i.incoming_connection_id i.incoming_random_id pid tracked local remote
        w.broken)
      i.event (record t { remotes = r; break_calls = delete_found key w.broken t.break_calls })

abbrev pub find_new :
    Surroundings
    → ConnectionManager
    → Incoming
    → Event
    → Connections
    → Option (Connections × Option ConnectionInfo)
find_new w s i (connect_event pid (some socket)) t =
    with_remote w s i pid socket
      (build_local_address (pid_of_connection i.incoming_connection_id) socket.src_port socket s)
      (build_remote_address w.is_local_host_address w.sessions socket s t.remotes) t
find_new w s i _ t = some (t, none)

abbrev pub find_at :
    Surroundings
    → ConnectionManager
    → Incoming
    → Option ConnectionInfo
    → Connections
    → Option (Connections × Option ConnectionInfo)
find_at w s i (some c) t =
    post_handled w (connection_key i.incoming_connection_id i.incoming_random_id) c i.event t
find_at w s i none t = find_new w s i i.event t

unfoldable pub find :
    Surroundings
    → ConnectionManager
    → Incoming
    → Connections
    → Option (Connections × Option ConnectionInfo)
unfolding with_remote connection_post_handle build_remote_address build_local_address
find w s i t =
    let key = connection_key i.incoming_connection_id i.incoming_random_id in
    find_at w s i (lookup key t.connections) t
