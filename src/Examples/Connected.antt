-- ===== src/Examples/Connected.antt =====
-- Runs of the theorems on one connection of the manager, from the address 3 to the address 9.
use skywalking_rover.Common.{
  ◌&&◌, ℕ, length, ltb, ◌&&◌, ◌+◌, ◌*◌, ◌<◌, ◌≡◌, ◌⊎◌, refl, true, false, List, [], ◌∷◌, Option,
  none, some, lookup, ◌==◌, if◌then◌else◌, arith,
}
use skywalking_rover.AccessLog.Resolution.{connection_delete_delay_time}
use skywalking_rover.Connections.Monitor.{ConnectionManager}
use skywalking_rover.Connections.Tracking.{
  SocketPair, Session, ConnTrack, role_client, update_real_peer_address,
}
use skywalking_rover.Connections.Tracking.Counters.{
  IsBalanced, Resolves, update_real_peer_address-Resolves,
}
use skywalking_rover.Connections.Addresses.{ip_address, Remotes, track, build_remote_address}
use skywalking_rover.Connections.Addresses.Remote.{
  LacksTracker, BuildsPeer, build_remote_address-IsPeer,
}
use skywalking_rover.Connections.Handling.{
  ConnectionInfo, Event, close_event, socket_detail, point_client, plain, tcp,
}
use skywalking_rover.Connections.Handling.Protocol.{handle_all, IsHandled, handle_all-IsHandled}
use skywalking_rover.Connections.Table.{
  Cycle, ActiveLookup, not_exist, lookup_error, active, event, cycle, live,
  on_build_connection_log_finished,
}
use skywalking_rover.Connections.Table.Life.{is_gone, any_after, live-deleted}
use skywalking_rover.Connections.Table.Timer.{Started, live-timed}
use skywalking_rover.Connections.Table.Deleted.{
  after_cycle, deleted_of, record_all, on_build_connection_log_finished-lookup,
}
use skywalking_rover.Connections.Unresolved.{Resolutions, sort_by_count}
use skywalking_rover.Connections.Unresolved.Top.{IsTop, sort_by_count-IsTop}
use skywalking_rover.Connections.Unresolved.Accounted.{
  deleted, reported, raw_count, IsAccounted, resolve_all, resolve_all-IsAccounted,
}
use skywalking_rover.Connections.Upkeep.{
  ActiveConnection, skip_all_data_analyze_and_downgrade_protocol,
}
use skywalking_rover.Connections.Upkeep.Downgraded.{
  Downgrades, skip_all_data_analyze_and_downgrade_protocol-Downgrades,
}
use skywalking_rover.Connections.Handling.{Connections, connection_key}
use skywalking_rover.Examples.Managed.{some_filter, world, empty_manager, server}
use skywalking_rover.Connections.Monitor.{new_process, run_changes}
use skywalking_rover.Connections.Monitor.Changes.{run_changes-Sound}

abbrev client_socket : SocketPair
client_socket = record {
  role = role_client;
  src_ip = 3;
  src_port = 4000;
  dest_ip = 20;
  dest_port = 80;
  need_conn_track = true;
  conn_track_resolved = false;
}

-- The service 20 is the pod 9.
abbrev some_sessions : List Session
some_sessions =
    record {
      origin = some (record { src = 3; dst = 20; tuple_src_port = 4000; tuple_dst_port = 80 });
      reply = some (record { src = 9; dst = 3; tuple_src_port = 8080; tuple_dst_port = 4000 });
    }
    ∷ []

abbrev no_queries : ConnTrack
no_queries = record { query_count = 0; resolved_count = 0; not_found_count = 0; ignored_count = 0 }

session_example :
    Resolves
      (λ a. false)
      (some some_sessions)
      no_queries
      client_socket
      (update_real_peer_address (λ a. false) (some some_sessions) no_queries client_socket)
    × IsBalanced
        (update_real_peer_address (λ a. false) (some some_sessions) no_queries client_socket).0
session_example =
    update_real_peer_address-Resolves (λ a. false) (some some_sessions) no_queries client_socket
      refl

abbrev with_server : ConnectionManager
with_server = run_changes some_filter (new_process world 7 (server 7 ∷ []) ∷ []) empty_manager

abbrev no_remotes : Remotes
no_remotes = record { conn_track = some no_queries; remote_address_build_count = 0 }

remote_example :
    (LacksTracker no_remotes.conn_track client_socket
      × (build_remote_address (λ a. false) (some some_sessions) client_socket with_server no_remotes
          ≡ none))
    ⊎ BuildsPeer with_server no_remotes
        (track (λ b. false) (some some_sessions) no_remotes.conn_track client_socket)
        (build_remote_address
          (λ a. false)
          (some some_sessions)
          client_socket
          with_server
          no_remotes)
remote_example =
    build_remote_address-IsPeer some_filter (λ a. false) (some some_sessions) client_socket
      with_server no_remotes
      (run_changes-Sound some_filter (new_process world 7 (server 7 ∷ []) ∷ []) empty_manager
        (tt, tt, λ host pid e. cc))
      refl

abbrev client : ConnectionInfo
client = record {
  connection_id = 1;
  random_id = 2;
  rpc_connection = record {
    local = ip_address 3 4000;
    remote = ip_address 9 80;
    detect_point = point_client;
    tls_mode = plain;
    protocol = tcp;
    attachment = none;
  };
  mark_deletable = false;
  connection_pid = 7;
  socket = client_socket;
  last_check_exist_time = 0;
  delete_after = none;
  protocol_break = false;
  created_at = 0;
}

abbrev some_events : List (Event × (ConnectionInfo → Option ℕ))
some_events =
    (socket_detail 1 0, λ c. none)
    ∷ (socket_detail 0 2, λ c. none)
    ∷ (socket_detail 0 1, λ c. some 4)
    ∷ []

events_example : IsHandled client some_events (handle_all client some_events)
events_example = handle_all-IsHandled client some_events

abbrev closed_client : ConnectionInfo
closed_client = record client { mark_deletable = true }

abbrev at : ℕ → ActiveLookup → Cycle
at seconds found = record {
  now = seconds * 1_000_000_000;
  process_is_monitored = λ pid. true;
  lookup_active = λ id. found;
}

deleted_example :
    is_gone (
      live
        (cycle (at 5 not_exist) ∷ cycle (at 10 not_exist) ∷ cycle (at 31 not_exist) ∷ [])
        (some closed_client))
    ≡ any_after
        ((at 5 not_exist).now + connection_delete_delay_time)
        (cycle (at 10 not_exist) ∷ cycle (at 31 not_exist) ∷ [])
deleted_example =
    live-deleted closed_client (at 5 not_exist)
      (cycle (at 10 not_exist) ∷ cycle (at 31 not_exist) ∷ []) refl refl

abbrev timed_client : ConnectionInfo
timed_client = record closed_client { delete_after = some 30_000_000_000 }

timed_example :
    (x : ℕ) × Started closed_client (cycle (at 5 not_exist) ∷ []) x × (x < (at 31 not_exist).now)
unfolding live
timed_example =
    live-timed closed_client timed_client (cycle (at 5 not_exist) ∷ []) (at 31 not_exist) refl refl
      refl

abbrev no_resolutions : Resolutions
no_resolutions = record {
  unresolved_remote_count = 0;
  ztunnel_resolved_remote_count = 0;
  conntrack_resolved_remote_count = 0;
  unresolved_remotes = [];
  unresolved_by_reason = [];
  finalized = [];
}

table_example :
    let t =
      on_build_connection_log_finished
        (λ c. [])
        (λ c. [])
        (at 31 not_exist)
        ((1, timed_client) ∷ (2, client) ∷ [])
        no_resolutions in
    ((k : ℕ)
      → lookup k t.0
        ≡ after_cycle (at 31 not_exist) (lookup k ((1, timed_client) ∷ (2, client) ∷ [])))
    × (t.1
        ≡ record_all
            (λ c. [])
            (λ c. [])
            (deleted_of (at 31 not_exist) ((1, timed_client) ∷ (2, client) ∷ []))
            no_resolutions)
table_example =
    on_build_connection_log_finished-lookup (λ c. []) (λ c. []) (at 31 not_exist)
      ((1, timed_client) ∷ (2, client) ∷ []) no_resolutions (refl, (refl, tt))

counters_example :
    let (q, total) =
      resolve_all
        (λ c. [])
        (λ c. [])
        (deleted client ∷ reported ∷ deleted client ∷ [])
        (no_resolutions, 0) in
    IsAccounted (0 + raw_count (deleted client ∷ reported ∷ deleted client ∷ [])) total q
counters_example =
    resolve_all-IsAccounted (λ c. []) (λ c. []) (deleted client ∷ reported ∷ deleted client ∷ []) 0
      0 no_resolutions (refl, refl, omega arith)

-- A lookup that fails starts a timer, which nothing stops when the connection is found again: closed
-- an hour later, it is deleted by the next cycle.
stale_test :
    is_gone (
      live
        (cycle (at 40 lookup_error)
          ∷ cycle (at 80 (active 2))
          ∷ event close_event (λ c. none)
          ∷ cycle (at 3600 not_exist)
          ∷ [])
        (some client))
    ≡ true
unfolding live
stale_test = refl

abbrev some_connections : Connections
some_connections = record {
  connections = (connection_key 1 2, client) ∷ [];
  break_calls = [];
  remotes = no_remotes;
}

abbrev some_active : ActiveConnection
some_active = record { active_random_id = 2; active_pid = 7; skip_data_upload = false }

downgrade_example :
    let (u, n) =
      skip_all_data_analyze_and_downgrade_protocol 1 2 false false
        (some_connections, (1, some_active) ∷ []) in
    Downgrades (lookup (connection_key 1 2) u.connections)
    × ((k : ℕ)
        → (connection_key 1 2 == k) ≡ false
        → lookup k u.connections ≡ lookup k some_connections.connections)
    × ((k : ℕ)
        → lookup k n ≡ (
            if 1 == k
            then some (record some_active { skip_data_upload = true })
            else lookup k ((1, some_active) ∷ [])))
downgrade_example =
    skip_all_data_analyze_and_downgrade_protocol-Downgrades 1 2 some_connections
      ((1, some_active) ∷ []) client some_active refl refl refl

report_example :
    IsTop
      ((b'a' ∷ [], 1) ∷ (b'b' ∷ [], 3) ∷ [])
      (sort_by_count ((b'a' ∷ [], 1) ∷ (b'b' ∷ [], 3) ∷ []) 1)
    × (length (sort_by_count ((b'a' ∷ [], 1) ∷ (b'b' ∷ [], 3) ∷ []) 1) ≡ (
        if ltb 0 1 && ltb 1 (length {A = List ℕ × ℕ} ((b'a' ∷ [], 1) ∷ (b'b' ∷ [], 3) ∷ []))
        then 1
        else length {A = List ℕ × ℕ} ((b'a' ∷ [], 1) ∷ (b'b' ∷ [], 3) ∷ [])))
report_example = sort_by_count-IsTop ((b'a' ∷ [], 1) ∷ (b'b' ∷ [], 3) ∷ []) 1
