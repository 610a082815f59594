-- ===== src/Connections/Tracking/Counters.antt =====
-- The counters and the answer of pkg/tools/ip/conntrack.go.
use skywalking_rover.Common.{
  ℕ, suc, ◌+◌, ◌≡◌, refl, ◌⊎◌, inl, inr, Bool, true, false, List, [], ◌∷◌, Option, none, some, sym,
  ◌∙◌, subst, Bool-cases, some_injective, arith, All,
}
use skywalking_rover.Connections.Tracking.{
  SocketPair, IpTuple, Session, ConnTrack, ip_tuples_equal, parse_socket_to_tuple, valid_reply,
  filter_validate_reply, should_ignore_conntrack, with_reply, update_real_peer_address,
}

abbrev pub IsBalanced : ConnTrack → Type 0
IsBalanced c = c.query_count ≡ c.resolved_count + c.not_found_count + c.ignored_count

-- The session has both tuples, and its origin is the socket pair.
abbrev pub Matches : SocketPair → Session → Type 0
Matches s x =
    (q : IpTuple) × (r : IpTuple) × (x.origin ≡ some q)
    × (x.reply ≡ some r)
    × (q.src ≡ s.src_ip)
    × (q.dst ≡ s.dest_ip)
    × (q.tuple_src_port ≡ s.src_port)
    × (q.tuple_dst_port ≡ s.dest_port)

-- The reply of the first session that matches; there is none if no session does.
abbrev pub FirstReply : SocketPair → List Session → Option IpTuple → Type 0
FirstReply s ss none = All (λ x. Matches s x → ⊥) ss
FirstReply s [] (some r) = ⊥
FirstReply s (x ∷ ss) (some r) =
    (Matches s x × (x.reply ≡ some r)) ⊎ ((Matches s x → ⊥) × FirstReply s ss (some r))

-- The reply is that of istio-proxy on this host, for a destination that is not on it.
abbrev pub IsIgnored : (ℕ → Bool) → SocketPair → IpTuple → Type 0
IsIgnored local s r = (r.tuple_src_port ≡ 15001) × (local r.src ≡ true) × (local s.dest_ip ≡ false)

-- One query, and its result in the other three counts.
abbrev pub Counted : (resolved not_found ignored : ℕ) → ConnTrack → ConnTrack → Type 0
Counted resolved not_found ignored c d =
    (d.query_count ≡ c.query_count + 1)
    × (d.resolved_count ≡ c.resolved_count + resolved)
    × (d.not_found_count ≡ c.not_found_count + not_found)
    × (d.ignored_count ≡ c.ignored_count + ignored)

-- What is left of a socket pair and the counts by the first reply, if there is one.
abbrev pub Answers :
    (ℕ → Bool) → ConnTrack → SocketPair → Option IpTuple → ConnTrack × SocketPair → Type 0
Answers local c s none (d, t) = Counted 0 1 0 c d × (t ≡ s)
Answers local c s (some r) (d, t) =
    (IsIgnored local s r × Counted 0 0 1 c d × (t ≡ s))
    ⊎ ((IsIgnored local s r → ⊥)
        × Counted 1 0 0 c d
        × (t ≡ record s { dest_ip = r.src; need_conn_track = false; conn_track_resolved = true }))

abbrev pub Resolves :
    (ℕ → Bool) → Option (List Session) → ConnTrack → SocketPair → ConnTrack × SocketPair → Type 0
Resolves local none c s u = Answers local c s none u
Resolves local (some ss) c s u = (o : Option IpTuple) × FirstReply s ss o × Answers local c s o u

unmatched-FirstReply :
    (s : SocketPair) (x : Session) (ss : List Session) (later : Option IpTuple)
    → (Matches s x → ⊥)
    → FirstReply s ss later
    → FirstReply s (x ∷ ss) later
unmatched-FirstReply s x ss none n h = (n, h)
unmatched-FirstReply s x ss (some r) n h = inr (n, h)

equal-Matches :
    (s : SocketPair) (x : Session) (q p : IpTuple)
    → x.origin ≡ some q
    → x.reply ≡ some p
    → ip_tuples_equal (parse_socket_to_tuple s) q ≡ true
    → Matches s x
equal-Matches s x q p ea eb t =
    (q, p, ea, eb, ground (arith, t), ground (arith, t), ground (arith, t), ground (arith, t))

Matches-equal :
    (s : SocketPair) (x : Session) (q : IpTuple)
    → x.origin ≡ some q
    → ip_tuples_equal (parse_socket_to_tuple s) q ≡ false
    → Matches s x
    → ⊥
Matches-equal s x q ea t (o, r, eo, er, a, b, c, d) =
    let same : q ≡ o = some_injective (sym ea ∙ eo) in
    let u : ip_tuples_equal (parse_socket_to_tuple s) o ≡ false =
      subst (λ k. ip_tuples_equal (parse_socket_to_tuple s) k ≡ false) same t in
    ground (arith, a, b, c, d, u)

valid_reply-FirstReply :
    (s : SocketPair) (x : Session) (ss : List Session) (a b later : Option IpTuple)
    → x.origin ≡ a
    → x.reply ≡ b
    → FirstReply s ss later
    → FirstReply s (x ∷ ss) (valid_reply (parse_socket_to_tuple s) a b later)
valid_reply-FirstReply s x ss (some q) (some p) later ea eb h =
    elim (Bool-cases (ip_tuples_equal (parse_socket_to_tuple s) q)) [
      | inl t ↦ rw t (inl (equal-Matches s x q p ea eb t, eb))
      | inr t ↦ rw t (unmatched-FirstReply s x ss later (Matches-equal s x q ea t) h)
    ]
valid_reply-FirstReply s x ss none b later ea eb h =
    unmatched-FirstReply s x ss later (λ m. cc (m.2, ea)) h
valid_reply-FirstReply s x ss (some q) none later ea eb h =
    unmatched-FirstReply s x ss later (λ m. cc (m.3, eb)) h

filter_validate_reply-FirstReply :
    (s : SocketPair) (ss : List Session)
    → FirstReply s ss (filter_validate_reply ss (parse_socket_to_tuple s))
unfolding filter_validate_reply
filter_validate_reply-FirstReply s [] = tt
filter_validate_reply-FirstReply s (x ∷ ss) =
    valid_reply-FirstReply s x ss x.origin x.reply
      (filter_validate_reply ss (parse_socket_to_tuple s)) refl refl
      (filter_validate_reply-FirstReply s ss)

should_ignore_conntrack-IsIgnored :
    (local : ℕ → Bool) (s : SocketPair) (r : IpTuple)
    → should_ignore_conntrack local s.dest_ip r.src r.tuple_src_port ≡ true
    → IsIgnored local s r
should_ignore_conntrack-IsIgnored local s r e =
    (ground (arith, e), ground (arith, e), ground (arith, e))

IsIgnored-should_ignore_conntrack :
    (local : ℕ → Bool) (s : SocketPair) (r : IpTuple)
    → should_ignore_conntrack local s.dest_ip r.src r.tuple_src_port ≡ false
    → IsIgnored local s r
    → ⊥
IsIgnored-should_ignore_conntrack local s r e (p, l, d) = ground (arith, e, p, l, d)

with_reply-Answers :
    (local : ℕ → Bool) (found : Option IpTuple) (c : ConnTrack) (s : SocketPair)
    → Answers local c s found
        (with_reply local found (record c { query_count = suc c.query_count }) s)
with_reply-Answers local none c s = (omega arith, refl)
with_reply-Answers local (some r) c s =
    elim (Bool-cases (should_ignore_conntrack local s.dest_ip r.src r.tuple_src_port)) [
      | inl e ↦ rw e (inl (should_ignore_conntrack-IsIgnored local s r e, omega arith, refl))
      | inr e ↦ rw e (inr (IsIgnored-should_ignore_conntrack local s r e, omega arith, refl))
    ]

Answers-IsBalanced :
    (local : ℕ → Bool) (c : ConnTrack) (s : SocketPair) (o : Option IpTuple)
    (u : ConnTrack × SocketPair)
    → IsBalanced c
    → Answers local c s o u
    → IsBalanced u.0
Answers-IsBalanced local c s none (d, t) h (e, same) = omega (arith, h, e)
Answers-IsBalanced local c s (some r) (d, t) h (inl (i, e, same)) = omega (arith, h, e)
Answers-IsBalanced local c s (some r) (d, t) h (inr (i, e, same)) = omega (arith, h, e)

-- Each query of the kernel's sessions is counted, with one result. After an error, or if no session
-- has both tuples and the socket pair as its origin, it is counted as not found; if the reply of the
-- first such session is that of istio-proxy on this host, port 15001, and the destination is not
-- on it, as ignored; the socket pair stays in both cases. Otherwise it is counted as resolved, and
-- the destination becomes the source of that reply. So the queries stay the sum of the other counts.
pub update_real_peer_address-Resolves :
    (local : ℕ → Bool) (sessions : Option (List Session)) (c : ConnTrack) (s : SocketPair)
    → IsBalanced c
    → Resolves local sessions c s (update_real_peer_address local sessions c s)
      × IsBalanced (update_real_peer_address local sessions c s).0
unfolding update_real_peer_address
update_real_peer_address-Resolves local none c s h =
    let a = with_reply-Answers local none c s in (a, Answers-IsBalanced local c s none _ h a)
update_real_peer_address-Resolves local (some ss) c s h =
    let o = filter_validate_reply ss (parse_socket_to_tuple s) in
    let a = with_reply-Answers local o c s in
    ((o, filter_validate_reply-FirstReply s ss, a), Answers-IsBalanced local c s o _ h a)
