-- ===== src/Connections/Tracking.antt =====
-- pkg/tools/ip/conntrack.go: the real peer of a socket pair, from the sessions that the kernel tracks.
-- Its answer is an argument, `none` for an error. A tuple with nil parts is `none`.
-- An address is a number here: two texts of one address are not told apart.
pub mod Counters
use skywalking_rover.Common.{
  ℕ, suc, Bool, true, false, ◌&&◌, not, List, [], ◌∷◌, Option, none, some, ◌==◌, if◌then◌else◌,
}

pub data ConnectionRole : Type 0 where
  role_unknown role_client role_server : ConnectionRole

pub record SocketPair : Type 0 where
  pub role : ConnectionRole
  pub src_ip : ℕ
  pub src_port : ℕ
  pub dest_ip : ℕ
  pub dest_port : ℕ
  pub need_conn_track : Bool
  pub conn_track_resolved : Bool

pub record IpTuple : Type 0 where
  pub src : ℕ
  pub dst : ℕ
  pub tuple_src_port : ℕ
  pub tuple_dst_port : ℕ

pub record Session : Type 0 where
  pub origin : Option IpTuple
  pub reply : Option IpTuple

pub record ConnTrack : Type 0 where
  pub query_count : ℕ
  pub resolved_count : ℕ
  pub not_found_count : ℕ
  pub ignored_count : ℕ

abbrev pub ip_tuples_equal : IpTuple → IpTuple → Bool
ip_tuples_equal a b =
    a.src == b.src
    && a.dst == b.dst
    && a.tuple_src_port == b.tuple_src_port
    && a.tuple_dst_port == b.tuple_dst_port

abbrev pub parse_socket_to_tuple : SocketPair → IpTuple
parse_socket_to_tuple s = record {
  src = s.src_ip;
  dst = s.dest_ip;
  tuple_src_port = s.src_port;
  tuple_dst_port = s.dest_port;
}

-- A session whose tuples are valid.
abbrev pub valid_reply : IpTuple → Option IpTuple → Option IpTuple → Option IpTuple → Option IpTuple
valid_reply o (some origin) (some reply) later =
    if ip_tuples_equal o origin then some reply else later
valid_reply o _ _ later = later

unfoldable pub filter_validate_reply : List Session → IpTuple → Option IpTuple
filter_validate_reply [] o = none
filter_validate_reply (s ∷ ss) o = valid_reply o s.origin s.reply (filter_validate_reply ss o)

-- The port that istio-proxy listens on.
abbrev pub istio_port : ℕ
istio_port = 15001

-- `local` tells the addresses of the host.
abbrev pub should_ignore_conntrack : (local : ℕ → Bool) → ℕ → ℕ → ℕ → Bool
should_ignore_conntrack local original ip port =
    port == istio_port && local ip && not (local original)

abbrev pub with_reply :
    (local : ℕ → Bool) → Option IpTuple → ConnTrack → SocketPair → ConnTrack × SocketPair
with_reply local none c s = (record c { not_found_count = suc c.not_found_count }, s)
with_reply local (some r) c s =
    if should_ignore_conntrack local s.dest_ip r.src r.tuple_src_port
    then (record c { ignored_count = suc c.ignored_count }, s)
    else (
      record c { resolved_count = suc c.resolved_count },
      record s { dest_ip = r.src; need_conn_track = false; conn_track_resolved = true },
    )

abbrev pub with_sessions :
    (local : ℕ → Bool) → Option (List Session) → ConnTrack → SocketPair → ConnTrack × SocketPair
with_sessions local none c s = (record c { not_found_count = suc c.not_found_count }, s)
with_sessions local (some sessions) c s =
    with_reply local (filter_validate_reply sessions (parse_socket_to_tuple s)) c s

unfoldable pub update_real_peer_address :
    (local : ℕ → Bool) → Option (List Session) → ConnTrack → SocketPair → ConnTrack × SocketPair
unfolding filter_validate_reply
update_real_peer_address local sessions c s =
    with_sessions local sessions (record c { query_count = suc c.query_count }) s
