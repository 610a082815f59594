-- ===== src/Examples/Mapped.antt =====
-- Runs of the theorems on the mappings and identities that ztunnel reports: the client 3:4000 of the
-- service 20:80 is led to the pod 9.
use skywalking_rover.Common.{
  ◌≡◌, refl, inl, inr, true, false, ◌&&◌, List, [], ◌∷◌, Option, none, some, ◌==◌, if◌then◌else◌,
  if_some, some_injective, arith,
}
use skywalking_rover.Connections.Tracking.{SocketPair, role_client}
use skywalking_rover.Ztunnel.Correlation.{
  LoadBalanceAddress, CacheKey, ip_mapping_key, src_only_key, MappingEvent, Collector, Report,
  mapping_report, sample_report, access_log_report, admin_report, ztunnel_outbound_func,
  track_outbound, Attachment, is_plausible_lb_mapping, handle_reports, ready_to_flush_connection,
}
use skywalking_rover.Ztunnel.Correlation.Entries.{Any}
use skywalking_rover.Ztunnel.Correlation.Explained.{Explains, ready_to_flush_connection-Explains}
use skywalking_rover.Ztunnel.Spiffe.{parse_spiffe_ns_sa}
use skywalking_rover.Ztunnel.Spiffe.Parsed.{spiffe_identity, parse_spiffe_ns_sa-identity}

abbrev client_pair : SocketPair
client_pair = record {
  role = role_client;
  src_ip = 3;
  src_port = 4000;
  dest_ip = 20;
  dest_port = 80;
  need_conn_track = false;
  conn_track_resolved = false;
}

abbrev some_mapping : MappingEvent
some_mapping = record {
  original_src_ip = 3;
  original_src_port = 4000;
  original_dest_ip = 20;
  original_dest_port = 80;
  load_balanced_dest_ip = 9;
  load_balanced_dest_port = 8080;
}

abbrev garbage : MappingEvent
garbage = record some_mapping { load_balanced_dest_ip = 2_130_706_433 }

abbrev some_reports : List Report
some_reports =
    mapping_report garbage
    ∷ access_log_report false 5 4000 9 8080
    ∷ admin_report false 3 4000 21 80 9 8080
    ∷ sample_report true true 3 4000 (some 9) 8080
    ∷ mapping_report some_mapping
    ∷ []

abbrev empty_collector : Collector
empty_collector = record {
  mapping_event_count = 0;
  invalid_mapping_count = 0;
  seen_event_srcs = [];
  ip_mappings = [];
  ztunnel_connect_event_seen = 0;
  ztunnel_inbound_tagged_seen = 0;
  access_log_parsed_count = 0;
  admin_outbound_mapping_count = 0;
  retro_resolved = [];
}

abbrev pod : LoadBalanceAddress
pod = record { ip = some 9; port = 8080; from = ztunnel_outbound_func; source = track_outbound }

abbrev cached : CacheKey → Option LoadBalanceAddress
cached (ip_mapping_key a b c d) =
    if a == 3 && (b == 4000 && (c == 20 && d == 80)) then some pod else none
cached (src_only_key a b) = none

invalid_test : (handle_reports some_reports empty_collector).invalid_mapping_count ≡ 1
unfolding handle_reports is_plausible_lb_mapping
invalid_test = refl

cached_answers :
    (k : CacheKey) (m : LoadBalanceAddress)
    → cached k ≡ some m
    → Any (λ x. x ≡ (k, m)) (handle_reports some_reports empty_collector).ip_mappings
unfolding handle_reports is_plausible_lb_mapping
cached_answers (src_only_key a b) m e = cc
cached_answers (ip_mapping_key a b c d) m e =
    elim (if_some (a == 3 && (b == 4000 && (c == 20 && d == 80))) (some pod) none m e) [
      | inl (t, same) ↦
          let ea : 3 ≡ a = ground (arith, t) in
          let eb : 4000 ≡ b = ground (arith, t) in
          let ec : 20 ≡ c = ground (arith, t) in
          let ed : 80 ≡ d = ground (arith, t) in inl (cc (ea, eb, ec, ed, some_injective same))
      | inr (t, same) ↦ cc
    ]

abbrev attached : Attachment
attached = record { real_destination_ip = some 9; detected_by = ztunnel_outbound_func }

mapped_example : Any (Explains client_pair attached) some_reports
unfolding ready_to_flush_connection
mapped_example =
    ready_to_flush_connection-Explains some_reports empty_collector cached false client_pair
      attached refl cached_answers refl

identity_example :
    parse_spiffe_ns_sa (spiffe_identity (b'd' ∷ []) (b'n' ∷ b's' ∷ []) (b'a' ∷ []))
    ≡ some (b'n' ∷ b's' ∷ [], b'a' ∷ [])
identity_example =
    parse_spiffe_ns_sa-identity (b'd' ∷ []) (b'n' ∷ b's' ∷ []) (b'a' ∷ []) refl (refl, refl)
      (refl, refl) refl refl refl

-- The account b of the namespace "sa" is taken for "sa".
namespace_sa_test :
    parse_spiffe_ns_sa (spiffe_identity (b'd' ∷ []) (b's' ∷ b'a' ∷ []) (b'b' ∷ []))
    ≡ some (b's' ∷ b'a' ∷ [], b's' ∷ b'a' ∷ [])
unfolding parse_spiffe_ns_sa
namespace_sa_test = refl
