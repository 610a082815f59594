-- ===== src/Connections/Addresses/Remote.antt =====
-- The remote address of a connection in pkg/accesslog/common/connection.go.
use skywalking_rover.Common.{
  ℕ, suc, ◌≡◌, refl, sym, ap, subst, ◌⊎◌, inl, inr, Bool, true, false, List, [], ◌∷◌, Option, none,
  some, ◌==◌, contains, lookup, All, Bool-cases, some_injective, if_some, ==_iff, arith,
}
use skywalking_rover.Connections.{
  DetectedBy, PodContainer, kubernetes_process, other_process, Process, MonitorFilter, includes,
}
use skywalking_rover.Connections.Monitor.{ConnectionManager, monitoring, processes_at, hosts_of}
use skywalking_rover.Connections.Monitor.Locals.{IsIncluded}
use skywalking_rover.Connections.Monitor.Changes.{Sound}
use skywalking_rover.Connections.Tracking.{SocketPair, Session, ConnTrack, update_real_peer_address}
use skywalking_rover.Connections.Addresses.{
  ConnectionAddress, kubernetes_address, ip_address, build_local_address, known_remote, Remotes,
  track, build_remote_address, first_address, process_address,
}

-- The address of the first process of a pid that has the destination of the socket, or this itself.
abbrev pub IsPeer : ConnectionManager → SocketPair → ConnectionAddress → Type 0
IsPeer s t (kubernetes_address k) =
    (pid : ℕ) × (p : Process) × (ps : List Process) × (c : PodContainer) × (monitoring pid
        s.monitoring_processes
      ≡ p ∷ ps)
    × (contains t.dest_ip (hosts_of (p ∷ ps)) ≡ true)
    × (p.detect_process ≡ kubernetes_process c)
    × (kubernetes_address k ≡ process_address p (kubernetes_process c) t.dest_port (ip_address 0 0))
IsPeer s t (ip_address host port) = (host ≡ t.dest_ip) × (port ≡ t.dest_port)

IsIncluded-lookup :
    (f : MonitorFilter) (pid : ℕ) (ps : List Process) (m : List (ℕ × List Process))
    → All (IsIncluded f) m
    → lookup pid m ≡ some ps
    → IsIncluded f (pid, ps)
IsIncluded-lookup f pid ps [] a e = cc
IsIncluded-lookup f pid ps ((k, v) ∷ m) (h, a) e =
    elim (if_some (k == pid) (some v) (lookup pid m) ps e) [
      | inl (same, found) ↦
          subst (λ j. IsIncluded f (j, ps)) ((==_iff k pid).0 same)
            (subst (λ x. IsIncluded f (k, x)) (some_injective found) h)
      | inr (other, later) ↦ IsIncluded-lookup f pid ps m a later
    ]

includes-kubernetes :
    (f : MonitorFilter) (p : Process) (d : DetectedBy)
    → p.detect_process ≡ d
    → includes f p ≡ true
    → (c : PodContainer) × (p.detect_process ≡ kubernetes_process c)
unfolding includes
includes-kubernetes f p (kubernetes_process c) e i = (c, e)
includes-kubernetes f p other_process e i = absurd (ground (arith, e, i))

processes-IsPeer :
    (f : MonitorFilter) (s : ConnectionManager) (t : SocketPair) (pid : ℕ)
    (o : Option (List Process))
    → All (IsIncluded f) s.monitoring_processes
    → lookup pid s.monitoring_processes ≡ o
    → contains t.dest_ip (hosts_of (processes_at o)) ≡ true
    → IsPeer s t (first_address (processes_at o) t.dest_port t)
processes-IsPeer f s t pid none a e h = cc
processes-IsPeer f s t pid (some []) a e h =
    absurd (IsIncluded-lookup f pid [] s.monitoring_processes a e)
processes-IsPeer f s t pid (some (p ∷ ps)) a e h =
    let included = IsIncluded-lookup f pid (p ∷ ps) s.monitoring_processes a e in
    let (c, k) = includes-kubernetes f p p.detect_process refl included.0 in
    subst (λ d. IsPeer s t (process_address p d t.dest_port (first_address ps t.dest_port t)))
      (sym k) (pid, p, ps, c, ap processes_at e, h, k, refl)

known_remote-IsPeer :
    (f : MonitorFilter) (s : ConnectionManager) (t : SocketPair) (o : Option ℕ)
    → Sound f s
    → lookup t.dest_ip s.local_ip_with_pid ≡ o
    → IsPeer s t (known_remote o t s)
unfolding build_local_address
known_remote-IsPeer f s t none sound e = (refl, refl)
known_remote-IsPeer f s t (some pid) (u, a, l) e = elim (Bool-cases (pid == 0)) [
  | inl z ↦ rw z (refl, refl)
  | inr z ↦
      rw z
        (processes-IsPeer f s t pid (lookup pid s.monitoring_processes) a refl (l t.dest_ip pid e))
]

-- There is no tracker for a socket pair that needs one.
abbrev pub LacksTracker : Option ConnTrack → SocketPair → Type 0
LacksTracker c socket = (c ≡ none) × (socket.need_conn_track ≡ true)

track-LacksTracker :
    (local : ℕ → Bool) (sessions : Option (List Session)) (c : Option ConnTrack)
    (socket : SocketPair)
    → (LacksTracker c socket × (track local sessions c socket ≡ none))
      ⊎ ((d : Option ConnTrack) × (t : SocketPair) × (track local sessions c socket ≡ some (d, t)))
track-LacksTracker local sessions none socket = elim (Bool-cases socket.need_conn_track) [
  | inl e ↦ inl ((refl, e), rw e)
  | inr e ↦ inr (none, socket, rw e)
]
track-LacksTracker local sessions (some c) socket = elim (Bool-cases socket.need_conn_track) [
  | inl e ↦ let (d, t) = update_real_peer_address local sessions c socket in inr (some d, t, rw e)
  | inr e ↦ inr (some c, socket, rw e)
]

-- What the build of a remote address has as its result.
abbrev pub BuildsPeer :
    ConnectionManager
    → Remotes
    → Option (Option ConnTrack × SocketPair)
    → Option (Remotes × SocketPair × Option ConnectionAddress)
    → Type 0
BuildsPeer s r tracked o =
    (q : Remotes) × (t : SocketPair) × (a : ConnectionAddress) × (o ≡ some (q, t, some a))
    × (tracked ≡ some (q.conn_track, t))
    × IsPeer s t a
    × (q.remote_address_build_count ≡ suc r.remote_address_build_count)

-- Of a manager whose monitored processes went through the filter, and whose local addresses lead to
-- them, for a remote side that is not on the same host: either the socket pair needs a tracker and
-- there is none, and the build of the address panics; or there is an address, and it is counted. This
-- is the one of Kubernetes of the first process of a monitored pid that has the destination, as the
-- sessions of the kernel left it, or the destination itself; it is never made of the source of the
-- socket pair.
pub build_remote_address-IsPeer :
    (f : MonitorFilter) (local : ℕ → Bool) (sessions : Option (List Session)) (socket : SocketPair)
    (s : ConnectionManager) (r : Remotes)
    → Sound f s
    → local socket.dest_ip ≡ false
    → (LacksTracker r.conn_track socket × (build_remote_address local sessions socket s r ≡ none))
      ⊎ BuildsPeer s r
          (track local sessions r.conn_track socket)
          (build_remote_address local sessions socket s r)
unfolding build_remote_address
build_remote_address-IsPeer f local sessions socket s r sound e =
    elim (track-LacksTracker local sessions r.conn_track socket) [
      | inl (lacks, panics) ↦ inl (lacks, rw (e, panics))
      | inr (c, t, same) ↦
          rw (e, same)
            (inr (
              record {
                conn_track = c;
                remote_address_build_count = suc r.remote_address_build_count;
              },
              t,
              known_remote (lookup t.dest_ip s.local_ip_with_pid) t s,
              refl,
              refl,
              known_remote-IsPeer f s t (lookup t.dest_ip s.local_ip_with_pid) sound refl,
              refl,
            ))
    ]
