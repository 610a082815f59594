-- ===== src/Connections/Upkeep/Downgraded.antt =====
-- The downgrade of a protocol in pkg/accesslog/common/connection.go.
use skywalking_rover.Common.{
  ℕ, ◌≡◌, refl, sym, ap, subst, ◌∙◌, true, false, List, Option, none, some, ◌==◌, if◌then◌else◌,
  lookup, put, lookup-put, arith,
}
use skywalking_rover.Connections.Handling.{ConnectionInfo, Connections, connection_key, Event, tcp}
use skywalking_rover.Connections.Handling.Protocol.{
  handle_all, any_event, is_detail, final_protocol, first_protocol, handle_all-IsHandled,
}
use skywalking_rover.Connections.Upkeep.{
  ActiveConnection, break_protocol, skip_upload, skip_all_data_analyze_and_downgrade_protocol,
}

-- The connection is TCP after any events with a detail among them.
abbrev pub Downgrades : Option ConnectionInfo → Type 0
Downgrades none = ⊥
Downgrades (some d) =
    (es : List (Event × (ConnectionInfo → Option ℕ)))
    → any_event is_detail es ≡ true
    → (handle_all d es).rpc_connection.protocol ≡ tcp

broken-Downgrades : (c : ConnectionInfo) → c.protocol_break ≡ true → Downgrades (some c)
broken-Downgrades c b es h =
    (handle_all-IsHandled c es).0
    ∙ ap
        (λ x.
          final_protocol x (any_event is_detail es) c.rpc_connection.protocol (first_protocol es))
        b
    ∙ ap (λ x. final_protocol true x c.rpc_connection.protocol (first_protocol es)) h

skip_upload-lookup :
    (id random : ℕ) (a : ActiveConnection) (m : List (ℕ × ActiveConnection)) (k : ℕ)
    → (a.active_random_id == random) ≡ true
    → lookup k (skip_upload id random false (some a) m)
      ≡ (if id == k then some (record a { skip_data_upload = true }) else lookup k m)
skip_upload-lookup id random a m k e =
    ground (arith, e, lookup-put k id (record a { skip_data_upload = true }) m)

-- A connection of the table that is downgraded is TCP from its next detail on, whatever protocol
-- it had and its details have; the other connections stay. If the kernel's calls work and the
-- active connection is the same one, its data is not uploaded any more, and the others stay.
pub skip_all_data_analyze_and_downgrade_protocol-Downgrades :
    (id random : ℕ) (t : Connections) (m : List (ℕ × ActiveConnection)) (c : ConnectionInfo)
    (a : ActiveConnection)
    → lookup (connection_key id random) t.connections ≡ some c
    → lookup id m ≡ some a
    → (a.active_random_id == random) ≡ true
    → let (u, n) = skip_all_data_analyze_and_downgrade_protocol id random false false (t, m) in
      Downgrades (lookup (connection_key id random) u.connections)
      × ((k : ℕ)
          → (connection_key id random == k) ≡ false
          → lookup k u.connections ≡ lookup k t.connections)
      × ((k : ℕ)
          → lookup k n
            ≡ (if id == k then some (record a { skip_data_upload = true }) else lookup k m))
unfolding skip_all_data_analyze_and_downgrade_protocol
skip_all_data_analyze_and_downgrade_protocol-Downgrades id random t m c a e f same =
    let key = connection_key id random in
    let d = record c { protocol_break = true } in
    let there : lookup key (put key d t.connections) ≡ some d =
      ground (arith, lookup-put key key d t.connections) in
    (
      subst Downgrades (sym (ap (λ o. lookup key (break_protocol key o t).connections) e ∙ there))
          (broken-Downgrades d refl),
      λ k other.
          ap (λ o. lookup k (break_protocol key o t).connections) e
          ∙ ground (arith, lookup-put k key d t.connections, other),
      λ k.
          ap (λ o. lookup k (skip_upload id random false o m)) f
          ∙ skip_upload-lookup id random a m k same,
    )
