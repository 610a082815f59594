-- ===== src/Connections/Addresses.antt =====
-- The addresses of a connection in pkg/accesslog/common/connection.go.
pub mod Remote
use skywalking_rover.Common.{
  ℕ, suc, Bool, true, false, ◌&&◌, not, List, [], ◌∷◌, Option, none, some, ◌==◌, if◌then◌else◌,
  lookup,
}
use skywalking_rover.Connections.{DetectedBy, kubernetes_process, other_process, Process}
use skywalking_rover.Connections.Monitor.{ConnectionManager, monitoring}
use skywalking_rover.Connections.Tracking.{SocketPair, Session, ConnTrack, update_real_peer_address}

pub record KubernetesAddress : Type 0 where
  pub service_name : List ℕ
  pub pod_name : List ℕ
  pub container_name : List ℕ
  pub process_name : List ℕ
  pub kubernetes_port : ℕ

pub data ConnectionAddress : Type 0 where
  kubernetes_address : KubernetesAddress → ConnectionAddress
  ip_address : (host port : ℕ) → ConnectionAddress

-- The address of a process of Kubernetes; `later` is that of the following processes.
abbrev pub process_address :
    Process → DetectedBy → ℕ → (later : ConnectionAddress) → ConnectionAddress
process_address p other_process port later = later
process_address p (kubernetes_process container) port later = kubernetes_address (record {
  service_name = p.entity.service_name;
  pod_name = container.pod_name;
  container_name = container.container_name;
  process_name = p.entity.process_name;
  kubernetes_port = port;
})

abbrev pub first_address : List Process → ℕ → SocketPair → ConnectionAddress
first_address [] port socket = ip_address socket.src_ip port
first_address (p ∷ ps) port socket =
    process_address p p.detect_process port (first_address ps port socket)

unfoldable pub build_local_address : ℕ → ℕ → SocketPair → ConnectionManager → ConnectionAddress
build_local_address pid port socket s =
    first_address (monitoring pid s.monitoring_processes) port socket

abbrev pub build_address_from_remote : ℕ → ℕ → ConnectionAddress
build_address_from_remote host port = ip_address host port

-- What the build of a remote address reads and counts; there is no tracker if it could not be created.
pub record Remotes : Type 0 where
  pub conn_track : Option ConnTrack
  pub remote_address_build_count : ℕ

abbrev pub known_remote : Option ℕ → SocketPair → ConnectionManager → ConnectionAddress
known_remote none socket s = build_address_from_remote socket.dest_ip socket.dest_port
known_remote (some pid) socket s =
    if not (pid == 0)
    then build_local_address pid socket.dest_port socket s
    else build_address_from_remote socket.dest_ip socket.dest_port

abbrev pub updated : ConnTrack × SocketPair → Option ConnTrack × SocketPair
updated (c, socket) = (some c, socket)

-- The tracked socket, if it needs that; `none` is the panic of a nil tracker.
abbrev pub track :
    (local : ℕ → Bool)
    → Option (List Session)
    → Option ConnTrack
    → SocketPair
    → Option (Option ConnTrack × SocketPair)
track local sessions none socket = if socket.need_conn_track then none else some (none, socket)
track local sessions (some c) socket =
    if socket.need_conn_track
    then some (updated (update_real_peer_address local sessions c socket))
    else some (some c, socket)

abbrev pub tracked_remote :
    ConnectionManager
    → Remotes
    → Option (Option ConnTrack × SocketPair)
    → Option (Remotes × SocketPair × Option ConnectionAddress)
tracked_remote s r none = none
tracked_remote s r (some (c, tracked)) = some (
  record { conn_track = c; remote_address_build_count = suc r.remote_address_build_count },
  tracked,
  some (known_remote (lookup tracked.dest_ip s.local_ip_with_pid) tracked s),
)

-- The socket pair is changed in place; there is no address for a remote side on the same host.
unfoldable pub build_remote_address :
    (local : ℕ → Bool)
    → Option (List Session)
    → SocketPair
    → ConnectionManager
    → Remotes
    → Option (Remotes × SocketPair × Option ConnectionAddress)
unfolding build_local_address update_real_peer_address
build_remote_address local sessions socket s r =
    if local socket.dest_ip
    then some (r, socket, none)
    else tracked_remote s r (track local sessions r.conn_track socket)
