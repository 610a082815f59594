-- ===== src/Connections/Handling/Found.antt =====
-- Find of pkg/accesslog/common/connection.go over the table of the connections.
use skywalking_rover.Common.{
  ℕ, ◌≡◌, refl, ap, false, List, Option, none, some, ◌==◌, lookup, put, lookup-put, arith,
}
use skywalking_rover.Connections.Monitor.{ConnectionManager}
use skywalking_rover.Connections.Tracking.{SocketPair}
use skywalking_rover.Connections.Addresses.{
  ConnectionAddress, Remotes, build_local_address, build_remote_address,
}
use skywalking_rover.Connections.Handling.{
  ConnectionInfo, Event, close_event, other_event, socket_detail, connect_event, Connections,
  connection_key, Surroundings, Incoming, with_remote, find_new, find_at, find,
  connection_post_handle, pid_of_connection,
}

-- If there is no panic: the connection that was found is in the table, or none was and the connections
-- stay; the others stay in any case.
abbrev pub Finds : ℕ → Connections → Option (Connections × Option ConnectionInfo) → Type 0
Finds key t none = Unit
Finds key t (some (u, none)) = u.connections ≡ t.connections
Finds key t (some (u, some c)) =
    (lookup key u.connections ≡ some c)
    × ((k : ℕ) → (key == k) ≡ false → lookup k u.connections ≡ lookup k t.connections)

put-Finds :
    (key : ℕ) (c : ConnectionInfo) (m : List (ℕ × ConnectionInfo))
    → (lookup key (put key c m) ≡ some c)
      × ((k : ℕ) → (key == k) ≡ false → lookup k (put key c m) ≡ lookup k m)
put-Finds key c m =
    (ground (arith, lookup-put key key c m), λ k other. ground (arith, lookup-put k key c m, other))

with_remote-Finds :
    (w : Surroundings) (s : ConnectionManager) (i : Incoming) (pid : ℕ) (socket : SocketPair)
    (local : ConnectionAddress) (o : Option (Remotes × SocketPair × Option ConnectionAddress))
    (t : Connections)
    → Finds
        (connection_key i.incoming_connection_id i.incoming_random_id)
        t
        (with_remote w s i pid socket local o t)
unfolding with_remote
with_remote-Finds w s i pid socket local none t = tt
with_remote-Finds w s i pid socket local (some (r, tracked, none)) t = refl
with_remote-Finds w s i pid socket local (some (r, tracked, some remote)) t =
    put-Finds (connection_key i.incoming_connection_id i.incoming_random_id) _ t.connections

find_new-Finds :
    (w : Surroundings) (s : ConnectionManager) (i : Incoming) (e : Event) (t : Connections)
    → Finds (connection_key i.incoming_connection_id i.incoming_random_id) t (find_new w s i e t)
find_new-Finds w s i close_event t = refl
find_new-Finds w s i other_event t = refl
find_new-Finds w s i (socket_detail ssl protocol) t = refl
find_new-Finds w s i (connect_event pid none) t = refl
find_new-Finds w s i (connect_event pid (some socket)) t =
    with_remote-Finds w s i pid socket
      (build_local_address (pid_of_connection i.incoming_connection_id) socket.src_port socket s)
      (build_remote_address w.is_local_host_address w.sessions socket s t.remotes) t

find_at-Finds :
    (w : Surroundings) (s : ConnectionManager) (i : Incoming) (o : Option ConnectionInfo)
    (t : Connections)
    → Finds (connection_key i.incoming_connection_id i.incoming_random_id) t (find_at w s i o t)
find_at-Finds w s i none t = find_new-Finds w s i i.event t
find_at-Finds w s i (some c) t =
    put-Finds (connection_key i.incoming_connection_id i.incoming_random_id) _ t.connections

-- Find, unless it panics, returns the connection that the table then has at the event's key, or none
-- and leaves the connections as they were; it changes no other one. It returns one, and does not
-- panic, for each key of the table.
pub find-Finds :
    (w : Surroundings) (s : ConnectionManager) (i : Incoming) (t : Connections)
    → let key = connection_key i.incoming_connection_id i.incoming_random_id in
      Finds key t (find w s i t)
      × ((c : ConnectionInfo)
          → lookup key t.connections ≡ some c
          → (u : Connections) × (find w s i t
              ≡ some (u, some (connection_post_handle w.ready c i.event))))
unfolding find
find-Finds w s i t =
    let key = connection_key i.incoming_connection_id i.incoming_random_id in
    (find_at-Finds w s i (lookup key t.connections) t, λ c e. (_, ap (λ o. find_at w s i o t) e))
