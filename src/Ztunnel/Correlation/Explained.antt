-- ===== src/Ztunnel/Correlation/Explained.antt =====
-- What pkg/accesslog/collector/ztunnel/ztunnel.go attaches to a connection.
use skywalking_rover.Common.{
  ℕ, ◌==◌, ◌/◌, ◌^◌, ◌≡◌, refl, sym, subst, ◌⊎◌, inl, inr, Bool, true, false, List, [], Option,
  none, some, All, some_injective,
}
use skywalking_rover.Connections.Tracking.{role_client, SocketPair}
use skywalking_rover.Ztunnel.Correlation.{
  ztunnel_outbound_func, ztunnel_inbound_func, LoadBalanceAddress, CacheKey, ip_mapping_key,
  src_only_key, Collector, is_plausible_src_only_mapping, or_else, Attachment, attachment_of,
  ready_to_flush_connection, Report, mapping_report, connect_report, sample_report,
  access_log_report, admin_report, handle_reports,
}
use skywalking_rover.Ztunnel.Correlation.Entries.{
  Any, Any-map, All-Any, Made, MadeBy, handle_reports-All, reports-MadeBy,
}

-- A report explains an attachment of a connection: a plausible mapping of its source, which is to its
-- destination if that has one; the client side of ztunnel that leads to it; an outbound sample or line
-- of its source, when the cache had no entry of it; or a dumped connection of its source and
-- destination.
abbrev pub Explains : SocketPair → Attachment → Report → Type 0
Explains s a (mapping_report e) =
    (e.original_src_ip ≡ s.src_ip)
    × (e.original_src_port ≡ s.src_port)
    × ((e.original_dest_ip ≡ 0)
        ⊎ ((e.original_dest_ip ≡ s.dest_ip) × (e.original_dest_port ≡ s.dest_port)))
    × (is_plausible_src_only_mapping e ≡ true)
    × (a.real_destination_ip ≡ some e.load_balanced_dest_ip)
    × (a.detected_by ≡ ztunnel_outbound_func)
Explains s a (connect_report ztunnel pid t) =
    (ztunnel ≡ some pid)
    × (t.role ≡ role_client)
    × (t.dest_ip ≡ s.src_ip)
    × (t.dest_port ≡ s.src_port)
    × (t.src_ip ≡ s.dest_ip)
    × (t.src_port ≡ s.dest_port)
    × (a.real_destination_ip ≡ none)
    × (a.detected_by ≡ ztunnel_inbound_func)
Explains s a (sample_report exists outbound src sp dst dp) =
    (outbound ≡ true)
    × (exists ≡ false)
    × (src ≡ s.src_ip)
    × (sp ≡ s.src_port)
    × (i : ℕ) × (dst ≡ some i)
    × (a.real_destination_ip ≡ some i)
    × (a.detected_by ≡ ztunnel_outbound_func)
Explains s a (access_log_report exists src sp pod pp) =
    (exists ≡ false)
    × ((pod / 2 ^ 24 == 127) ≡ false)
    × (src ≡ s.src_ip)
    × (sp ≡ s.src_port)
    × (a.real_destination_ip ≡ some pod)
    × (a.detected_by ≡ ztunnel_outbound_func)
Explains s a (admin_report exists src sp orig op actual ap') =
    (src ≡ s.src_ip)
    × (sp ≡ s.src_port)
    × (orig ≡ s.dest_ip)
    × (op ≡ s.dest_port)
    × (a.real_destination_ip ≡ some actual)
    × (a.detected_by ≡ ztunnel_outbound_func)

pair-Explains :
    (s : SocketPair) (m : LoadBalanceAddress) (r : Report)
    → Made r (ip_mapping_key s.src_ip s.src_port s.dest_ip s.dest_port) m
    → Explains s (record { real_destination_ip = m.ip; detected_by = m.from }) r
pair-Explains s m (mapping_report e) (a, b, c, d, p, i, f) = (a, b, inr (c, d), p, i, f)
pair-Explains s m (connect_report ztunnel pid t) h = h
pair-Explains s m (sample_report exists outbound src sp dst dp) h = absurd h
pair-Explains s m (access_log_report exists src sp pod pp) h = absurd h
pair-Explains s m (admin_report exists src sp orig op actual ap') h = h

source-Explains :
    (s : SocketPair) (m : LoadBalanceAddress) (r : Report)
    → Made r (src_only_key s.src_ip s.src_port) m
    → Explains s (record { real_destination_ip = m.ip; detected_by = m.from }) r
source-Explains s m (mapping_report e) (a, b, c, p, i, f) = (a, b, inl c, p, i, f)
source-Explains s m (connect_report ztunnel pid t) h = absurd h
source-Explains s m (sample_report exists outbound src sp dst dp) h = h
source-Explains s m (access_log_report exists src sp pod pp) h = h
source-Explains s m (admin_report exists src sp orig op actual ap') h = absurd h

attachment-from :
    (o : Option LoadBalanceAddress) (a : Attachment)
    → attachment_of o ≡ some a
    → (m : LoadBalanceAddress) × (o ≡ some m)
      × (record { real_destination_ip = m.ip; detected_by = m.from } ≡ a)
attachment-from none a e = cc
attachment-from (some m) a e = (m, refl, some_injective e)

either :
    (o p : Option LoadBalanceAddress) (m : LoadBalanceAddress)
    → or_else o p ≡ some m
    → (o ≡ some m) ⊎ (p ≡ some m)
either none p m e = inr e
either (some n) p m e = inl e

-- Whatever reports were handled from an empty cache, if the cache answers only what was set at a key:
-- what is attached to a connection that had no attachment is explained by one of the reports. It is
-- the destination of a plausible mapping of the connection's own source, and of its destination if
-- that is known; or of an outbound sample with a destination or of an outbound line of the access log
-- that does not lead to a loopback address, of the connection's own source, when the cache had no
-- entry of it; or of a connection of the dump with its source and destination; or, without a
-- destination, it is the client side of ztunnel that leads to the connection's source.
pub ready_to_flush_connection-Explains :
    (rs : List Report) (z : Collector) (get : CacheKey → Option LoadBalanceAddress)
    (is_empty : Bool) (s : SocketPair) (a : Attachment)
    → z.ip_mappings ≡ []
    → ((k : CacheKey) (m : LoadBalanceAddress)
        → get k ≡ some m
        → Any (λ x. x ≡ (k, m)) (handle_reports rs z).ip_mappings)
    → ready_to_flush_connection get is_empty s none ≡ some a
    → Any (Explains s a) rs
unfolding ready_to_flush_connection
ready_to_flush_connection-Explains rs z get true s a fresh answers e = cc
ready_to_flush_connection-Explains rs z get false s a fresh answers e =
    let made =
      handle_reports-All (MadeBy rs) rs z (reports-MadeBy rs)
        (subst (All (MadeBy rs)) (sym fresh) tt) in
    let pair = ip_mapping_key s.src_ip s.src_port s.dest_ip s.dest_port in
    let source = src_only_key s.src_ip s.src_port in
    let (m, found, same) = attachment-from (or_else (get pair) (get source)) a e in
    elim (either (get pair) (get source) m found) [
      | inl g ↦
          subst (λ b. Any (Explains s b) rs) same
            (Any-map _ _ (pair-Explains s m) rs
              (All-Any (MadeBy rs) (pair, m) _ made (answers pair m g)))
      | inr g ↦
          subst (λ b. Any (Explains s b) rs) same
            (Any-map _ _ (source-Explains s m) rs
              (All-Any (MadeBy rs) (source, m) _ made (answers source m g)))
    ]
