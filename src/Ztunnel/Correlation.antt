-- ===== src/Ztunnel/Correlation.antt =====
-- The correlation of connections with what ztunnel reports, pkg/accesslog/collector/ztunnel/ztunnel.go.
-- An IPv4 address is the number of its 32 bits, and the key of the cache is not a text here. The cache
-- forgets entries after a time: what it answers is an argument, and its calls of Set are kept, the
-- last one first. The mappings of the other sources of that folder are those of the samples of the
-- identity probe, the lines of the access log and the dump of the admin interface, from the place on
-- where the addresses are read; these are in the usual form. The identities of an attachment are
-- left out.
pub mod Entries
pub mod Explained
use skywalking_rover.Common.{
  ℕ, suc, ◌/◌, ◌%◌, ◌^◌, Bool, true, false, ◌&&◌, not, List, [], ◌∷◌, Option, none, some, ◌==◌,
  if◌then◌else◌,
}
use skywalking_rover.Connections.Tracking.{
  ConnectionRole, role_unknown, role_client, role_server, SocketPair,
}

pub data DetectBy : Type 0 where
  ztunnel_outbound_func ztunnel_inbound_func : DetectBy

pub data MappingSource : Type 0 where
  track_outbound connection_result inbound record_internal access_log admin_dump : MappingSource

-- The address is not there for an inbound leg.
pub record LoadBalanceAddress : Type 0 where
  pub ip : Option ℕ
  pub port : ℕ
  pub from : DetectBy
  pub source : MappingSource

pub data CacheKey : Type 0 where
  ip_mapping_key : (local_ip local_port remote_ip remote_port : ℕ) → CacheKey
  src_only_key : (local_ip local_port : ℕ) → CacheKey

pub record MappingEvent : Type 0 where
  pub original_src_ip : ℕ
  pub original_src_port : ℕ
  pub original_dest_ip : ℕ
  pub original_dest_port : ℕ
  pub load_balanced_dest_ip : ℕ
  pub load_balanced_dest_port : ℕ

pub record Collector : Type 0 where
  pub mapping_event_count : ℕ
  pub invalid_mapping_count : ℕ
  pub seen_event_srcs : List CacheKey
  pub ip_mappings : List (CacheKey × LoadBalanceAddress)
  pub ztunnel_connect_event_seen : ℕ
  pub ztunnel_inbound_tagged_seen : ℕ
  pub access_log_parsed_count : ℕ
  pub admin_outbound_mapping_count : ℕ
  -- The calls of RetroResolveBySrc, the last one first.
  pub retro_resolved : List (ℕ × ℕ)

unfoldable pub is_plausible_src_only_mapping : MappingEvent → Bool
is_plausible_src_only_mapping e =
    not (e.original_src_ip == 0)
    && not (e.load_balanced_dest_ip == 0)
    && not (e.original_src_port == 0)
    && not (e.load_balanced_dest_port == 0)
    && not (e.load_balanced_dest_ip / 2 ^ 24 == 127)

unfoldable pub is_plausible_lb_mapping : MappingEvent → Bool
unfolding is_plausible_src_only_mapping
is_plausible_lb_mapping e =
    is_plausible_src_only_mapping e
    && not (e.original_dest_ip == 0)
    && not (e.original_dest_port == 0)

abbrev pub count_invalid : Collector → Collector
count_invalid z = record z { invalid_mapping_count = suc z.invalid_mapping_count }

abbrev pub outbound_address : MappingEvent → MappingSource → LoadBalanceAddress
outbound_address e source = record {
  ip = some e.load_balanced_dest_ip;
  port = e.load_balanced_dest_port;
  from = ztunnel_outbound_func;
  source = source;
}

abbrev pub with_mapping : CacheKey → LoadBalanceAddress → Collector → Collector
with_mapping k a z = record z { ip_mappings = (k, a) ∷ z.ip_mappings }

unfoldable pub map_src_only : MappingEvent → Collector → Collector
unfolding is_plausible_src_only_mapping
map_src_only e z =
    if is_plausible_src_only_mapping e
    then record (with_mapping (src_only_key e.original_src_ip e.original_src_port)
        (outbound_address e connection_result) z) {
          retro_resolved = (e.original_src_ip, e.original_src_port) ∷ z.retro_resolved;
        }
    else count_invalid z

unfoldable pub map_service : MappingEvent → Collector → Collector
unfolding is_plausible_lb_mapping
map_service e z =
    if is_plausible_lb_mapping e
    then with_mapping
        (ip_mapping_key e.original_src_ip e.original_src_port e.original_dest_ip
          e.original_dest_port)
        (outbound_address e track_outbound) z
    else count_invalid z

abbrev pub mark_seen : MappingEvent → Collector → Collector
mark_seen e z =
    if not (e.original_src_ip == 0) && not (e.original_src_port == 0)
    then record z {
      seen_event_srcs = src_only_key e.original_src_ip e.original_src_port ∷ z.seen_event_srcs;
    }
    else z

unfoldable pub handle_mapping_event : MappingEvent → Collector → Collector
unfolding map_src_only map_service
handle_mapping_event e z =
    let seen = mark_seen e (record z { mapping_event_count = suc z.mapping_event_count }) in
    if e.original_dest_ip == 0 then map_src_only e seen else map_service e seen

-- A client side of ztunnel itself is the inbound leg of a workload.
abbrev pub tag_inbound : ConnectionRole → SocketPair → Collector → Collector × Bool
tag_inbound role_client s z = (
  record (with_mapping (ip_mapping_key s.dest_ip s.dest_port s.src_ip s.src_port)
      (record { ip = none; port = 0; from = ztunnel_inbound_func; source = inbound }) z) {
        ztunnel_inbound_tagged_seen = suc z.ztunnel_inbound_tagged_seen;
      },
  false,
)
tag_inbound _ s z = (z, true)

abbrev pub retro_resolve : (src_ip src_port : ℕ) → Collector → Collector
retro_resolve src_ip src_port z = record z {
  retro_resolved = (src_ip, src_port) ∷ z.retro_resolved;
}

-- A mapping of a source that fills a gap: `exists` is the cache's answer at its key.
unfoldable pub fill_gap :
    (exists : Bool) → MappingSource → (src_ip src_port ip port : ℕ) → Collector → Collector
fill_gap exists source src_ip src_port ip port z =
    if exists
    then z
    else with_mapping (src_only_key src_ip src_port)
        (record { ip = some ip; port = port; from = ztunnel_outbound_func; source = source })
        (record z { mapping_event_count = suc z.mapping_event_count })

-- The mapping of a sample of the identity probe, whose destination may be unknown.
abbrev pub apply_sample :
    (exists outbound : Bool)
    → (src_ip src_port : ℕ) → (dst_ip : Option ℕ) → (dst_port : ℕ) → Collector
    → Collector
apply_sample exists false src_ip src_port dst_ip dst_port z = z
apply_sample exists true src_ip src_port none dst_port z = retro_resolve src_ip src_port z
apply_sample exists true src_ip src_port (some ip) dst_port z =
    retro_resolve src_ip src_port (fill_gap exists record_internal src_ip src_port ip dst_port z)

-- An outbound line of the access log.
unfoldable pub handle_outbound_line :
    (exists : Bool) → (src_ip src_port pod_ip pod_port : ℕ) → Collector → Collector
unfolding fill_gap
handle_outbound_line exists src_ip src_port pod_ip pod_port z =
    if pod_ip / 2 ^ 24 == 127
    then z
    else retro_resolve src_ip (src_port % 2 ^ 16) (
        fill_gap exists access_log src_ip src_port pod_ip (pod_port % 2 ^ 16)
          (record z { access_log_parsed_count = suc z.access_log_parsed_count }))

-- An outbound connection of the dump; it is set again each time.
unfoldable pub apply_admin_connection :
    (exists : Bool)
    → (src_ip src_port orig_ip orig_port actual_ip actual_port : ℕ) → Collector
    → Collector
apply_admin_connection exists src_ip src_port orig_ip orig_port actual_ip actual_port z =
    with_mapping (ip_mapping_key src_ip src_port orig_ip orig_port)
      (record {
        ip = some actual_ip;
        port = actual_port % 2 ^ 16;
        from = ztunnel_outbound_func;
        source = admin_dump;
      })
      (record z {
        admin_outbound_mapping_count =
            if exists then z.admin_outbound_mapping_count else suc z.admin_outbound_mapping_count;
      })

-- Whether the event goes on to the manager; `ztunnel` is the pid of the ztunnel that is collected.
unfoldable pub on_connect_event :
    (ztunnel : Option ℕ) → (pid : ℕ) → SocketPair → Collector → Collector × Bool
on_connect_event none pid s z = (z, true)
on_connect_event (some ztunnel) pid s z =
    let seen = record z { ztunnel_connect_event_seen = suc z.ztunnel_connect_event_seen } in
    if ztunnel == pid then tag_inbound s.role s seen else (z, true)

abbrev pub or_else :
    Option LoadBalanceAddress → Option LoadBalanceAddress → Option LoadBalanceAddress
or_else none later = later
or_else (some a) later = some a

-- The real destination of an attachment, and the leg.
pub record Attachment : Type 0 where
  pub real_destination_ip : Option ℕ
  pub detected_by : DetectBy

abbrev pub attachment_of : Option LoadBalanceAddress → Option Attachment
attachment_of none = none
attachment_of (some a) = some (record { real_destination_ip = a.ip; detected_by = a.from })

-- The attachment of a connection after ReadyToFlushConnection.
unfoldable pub ready_to_flush_connection :
    (get : CacheKey → Option LoadBalanceAddress)
    → (is_empty : Bool) → SocketPair
    → Option Attachment
    → Option Attachment
ready_to_flush_connection get is_empty s (some a) = some a
ready_to_flush_connection get true s none = none
ready_to_flush_connection get false s none = attachment_of (
    or_else (get (ip_mapping_key s.src_ip s.src_port s.dest_ip s.dest_port))
      (get (src_only_key s.src_ip s.src_port)))

-- What the collector handles.
pub data Report : Type 0 where
  mapping_report : MappingEvent → Report
  connect_report : (ztunnel : Option ℕ) → (pid : ℕ) → SocketPair → Report
  sample_report :
      (exists outbound : Bool)
      → (src_ip src_port : ℕ) → (dst_ip : Option ℕ) → (dst_port : ℕ) → Report
  access_log_report : (exists : Bool) → (src_ip src_port pod_ip pod_port : ℕ) → Report
  admin_report :
      (exists : Bool) → (src_ip src_port orig_ip orig_port actual_ip actual_port : ℕ) → Report

unfoldable pub handle_report : Report → Collector → Collector
unfolding handle_mapping_event on_connect_event fill_gap handle_outbound_line apply_admin_connection
handle_report (mapping_report e) z = handle_mapping_event e z
handle_report (connect_report ztunnel pid s) z = (on_connect_event ztunnel pid s z).0
handle_report (sample_report exists outbound src_ip src_port dst_ip dst_port) z =
    apply_sample exists outbound src_ip src_port dst_ip dst_port z
handle_report (access_log_report exists src_ip src_port pod_ip pod_port) z =
    handle_outbound_line exists src_ip src_port pod_ip pod_port z
handle_report (admin_report exists src_ip src_port orig_ip orig_port actual_ip actual_port) z =
    apply_admin_connection exists src_ip src_port orig_ip orig_port actual_ip actual_port z

unfoldable pub handle_reports : List Report → Collector → Collector
unfolding handle_report
handle_reports [] z = z
handle_reports (r ∷ rs) z = handle_reports rs (handle_report r z)
