-- ===== src/Connections/Handling/Protocol.antt =====
-- A connection's protocol, its TLS mode and its end in pkg/accesslog/common/connection.go, after any
-- events.
use skywalking_rover.Common.{
  ℕ, ◌≡◌, refl, sym, ◌∙◌, Bool, true, false, ◌||◌, List, [], ◌∷◌, Option, none, some, ◌==◌,
  if◌then◌else◌, arith, Bool-cases, inl, inr,
}
use skywalking_rover.Connections.Handling.{
  ProtocolType, tcp, http_1, http_2, TlsMode, plain, tls, ConnectionInfo, Event, close_event,
  other_event, socket_detail, connect_event, known_protocol, detail_tls, or_tcp, detail_protocol,
  rebuild_rpc_connection, connection_post_handle,
}

-- The listeners may attach something else at each event.
unfoldable pub handle_all :
    ConnectionInfo → List (Event × (ConnectionInfo → Option ℕ)) → ConnectionInfo
unfolding connection_post_handle
handle_all c [] = c
handle_all c ((e, ready) ∷ es) = handle_all (connection_post_handle ready c e) es

abbrev pub is_close : Event → Bool
is_close close_event = true
is_close _ = false

abbrev pub is_detail : Event → Bool
is_detail (socket_detail ssl protocol) = true
is_detail _ = false

abbrev pub is_ssl : Event → Bool
is_ssl (socket_detail ssl protocol) = ssl == 1
is_ssl _ = false

abbrev pub any_event : (Event → Bool) → List (Event × (ConnectionInfo → Option ℕ)) → Bool
any_event test [] = false
any_event test ((e, ready) ∷ es) = test e || any_event test es

abbrev pub protocol_of : Event → Option ProtocolType
protocol_of (socket_detail ssl protocol) = known_protocol protocol
protocol_of _ = none

abbrev pub first_of : Option ProtocolType → Option ProtocolType → Option ProtocolType
first_of none later = later
first_of (some p) later = some p

-- The first protocol that a detail knows.
abbrev pub first_protocol : List (Event × (ConnectionInfo → Option ℕ)) → Option ProtocolType
first_protocol [] = none
first_protocol ((e, ready) ∷ es) = first_of (protocol_of e) (first_protocol es)

abbrev pub final_protocol :
    (broken detail : Bool) → ProtocolType → Option ProtocolType → ProtocolType
final_protocol true true p first = tcp
final_protocol true false p first = p
final_protocol false detail tcp first = or_tcp first
final_protocol false detail p first = p

abbrev pub final_tls : Bool → TlsMode → TlsMode
final_tls ssl tls = tls
final_tls ssl plain = if ssl then tls else plain

final_protocol-later :
    (broken detail : Bool) (protocol : ℕ) (p : ProtocolType) (first : Option ProtocolType)
    → final_protocol broken detail (detail_protocol broken protocol p) first
      ≡ final_protocol broken true p (first_of (known_protocol protocol) first)
final_protocol-later true true protocol p first = refl
final_protocol-later true false protocol p first = refl
final_protocol-later false detail protocol tcp first = elim (Bool-cases (protocol == 1)) [
  | inl e ↦ rw e refl
  | inr e ↦ elim (Bool-cases (protocol == 2)) [ inl g ↦ rw (e, g) refl | inr g ↦ rw (e, g) refl ]
]
final_protocol-later false detail protocol http_1 first = refl
final_protocol-later false detail protocol http_2 first = refl

final_tls-later :
    (now : ℕ) (b : Bool) (t : TlsMode)
    → final_tls b (detail_tls now t) ≡ final_tls (now == 1 || b) t
final_tls-later now b plain = ground arith
final_tls-later now b tls = refl

final_protocol-none : (broken : Bool) (p : ProtocolType) → final_protocol broken false p none ≡ p
final_protocol-none true p = refl
final_protocol-none false tcp = refl
final_protocol-none false http_1 = refl
final_protocol-none false http_2 = refl

final_tls-none : (t : TlsMode) → final_tls false t ≡ t
final_tls-none plain = refl
final_tls-none tls = refl

abbrev pub IsHandled :
    ConnectionInfo → List (Event × (ConnectionInfo → Option ℕ)) → ConnectionInfo → Type 0
IsHandled c es d =
    (d.rpc_connection.protocol
      ≡ final_protocol c.protocol_break (any_event is_detail es) c.rpc_connection.protocol
          (first_protocol es))
    × (d.rpc_connection.tls_mode ≡ final_tls (any_event is_ssl es) c.rpc_connection.tls_mode)
    × (d.mark_deletable ≡ (c.mark_deletable || any_event is_close es))
    × (d.protocol_break ≡ c.protocol_break)
    × (d.rpc_connection.local ≡ c.rpc_connection.local)
    × (d.rpc_connection.remote ≡ c.rpc_connection.remote)

IsHandled-later :
    (c d : ConnectionInfo) (e : Event) (ready : ConnectionInfo → Option ℕ)
    (es : List (Event × (ConnectionInfo → Option ℕ)))
    → IsHandled (connection_post_handle ready c e) es d
    → IsHandled c ((e, ready) ∷ es) d
unfolding connection_post_handle rebuild_rpc_connection
IsHandled-later c d close_event ready es (p, t, m, b, l, r) = (p, t, ground (arith, m), b, l, r)
IsHandled-later c d other_event ready es h = h
IsHandled-later c d (connect_event pid socket) ready es h = h
IsHandled-later c d (socket_detail ssl protocol) ready es (p, t, m, b, l, r) = (
  p
      ∙ final_protocol-later c.protocol_break (any_event is_detail es) protocol
          c.rpc_connection.protocol (first_protocol es),
  t ∙ final_tls-later ssl (any_event is_ssl es) c.rpc_connection.tls_mode,
  m,
  b,
  l,
  r,
)

-- After any events of a connection, whatever the listeners attach: a connection with a broken
-- protocol is TCP from its first detail on; another one that is TCP gets the protocol of the first
-- detail whose protocol is known, and keeps it for good. It uses TLS once a detail does. It is to be
-- deleted once it was closed, and its addresses stay.
pub handle_all-IsHandled :
    (c : ConnectionInfo) (es : List (Event × (ConnectionInfo → Option ℕ)))
    → IsHandled c es (handle_all c es)
unfolding handle_all
handle_all-IsHandled c [] = (
  sym (final_protocol-none c.protocol_break c.rpc_connection.protocol),
  sym (final_tls-none c.rpc_connection.tls_mode),
  ground arith,
  refl,
  refl,
  refl,
)
handle_all-IsHandled c ((e, ready) ∷ es) =
    IsHandled-later c (handle_all (connection_post_handle ready c e) es) e ready es
      (handle_all-IsHandled (connection_post_handle ready c e) es)
