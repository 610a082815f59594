-- ===== src/Ztunnel/Compact.antt =====
-- The compact event of a ConnectionResult: what bpf/accesslog/ambient/ztunnel.c takes out of
-- ztunnel's memory, with the offsets that pushOffsetsConfig hands to it, and decodeCompact of
-- pkg/accesslog/collector/ztunnel/ztunnel_identity_decode.go. `self off n` is what a read of n bytes
-- at an offset from the ConnectionResult gives to the probe, or `none` for a failed one.
pub mod Reads
pub mod Fields
pub mod Agreement
use skywalking_rover.Common.{
  ℕ, zero, suc, ◌+◌, ◌*◌, ◌/◌, ◌%◌, ◌^◌, Bool, true, false, ◌&&◌, ◌||◌, not, List, [], ◌∷◌, Option,
  none, some, ◌==◌, if◌then◌else◌,
}
use skywalking_rover.Ztunnel.Integers.{ℤ, pos, negsuc, ◌+ℤ◌, equal_int, to_int32, little_endian}
use skywalking_rover.Ztunnel.Offsets.{Offsets, offset_absent}
use skywalking_rover.Ztunnel.Strings.{Lru}
use skywalking_rover.Ztunnel.Decode.{
  ProbeSample, byte, dotted, with_identities, decode_identity_from_pointers,
}

pub record OffsetsConfig : Type 0 where
  pub valid : ℤ
  pub src : ℤ
  pub dst : ℤ
  pub reporter : ℤ
  pub security_policy : ℤ
  pub has_direction : ℤ
  pub source_principal : ℤ
  pub destination_principal : ℤ
  pub source_namespace : ℤ
  pub destination_namespace : ℤ
  pub source_cluster : ℤ
  pub destination_cluster : ℤ
  pub identity_namespace : ℤ
  pub identity_service_account : ℤ

abbrev bool_to_int32 : Bool → ℤ
bool_to_int32 true = pos 1
bool_to_int32 false = pos 0

-- The configuration of pushOffsetsConfig.
unfoldable pub offsets_config : Offsets → OffsetsConfig
unfolding to_int32
offsets_config o = record {
  valid = pos 1;
  src = to_int32 o.src;
  dst = to_int32 o.dst;
  reporter = to_int32 o.reporter;
  security_policy = to_int32 o.security_policy;
  has_direction = bool_to_int32 (not (equal_int o.reporter offset_absent));
  source_principal = to_int32 o.source_principal;
  destination_principal = to_int32 o.destination_principal;
  source_namespace = to_int32 o.source_namespace;
  destination_namespace = to_int32 o.destination_namespace;
  source_cluster = to_int32 o.source_cluster;
  destination_cluster = to_int32 o.destination_cluster;
  identity_namespace = to_int32 o.identity_namespace;
  identity_service_account = to_int32 o.identity_service_account;
}

-- The event without its process id and its padding.
pub record CompactEvent : Type 0 where
  pub src_ip : ℕ
  pub dst_ip : ℕ
  pub src_port : ℕ
  pub dst_port : ℕ
  pub reporter : ℕ
  pub security_policy : ℕ
  pub has_direction : ℕ
  pub src_principal_ns_ptr : ℕ
  pub src_principal_sa_ptr : ℕ
  pub dst_principal_ns_ptr : ℕ
  pub dst_principal_sa_ptr : ℕ
  pub src_namespace_ptr : ℕ
  pub dst_namespace_ptr : ℕ
  pub src_cluster_ptr : ℕ
  pub dst_cluster_ptr : ℕ

-- get_socket_addr_ip_in_ztunnel: ip and port stay 0 if the read fails.
unfoldable pub socket_addr : Option (List ℕ) → ℕ × ℕ
socket_addr none = (0, 0)
socket_addr (some b) = (
  byte b 2 * 2 ^ 24 + byte b 3 * 2 ^ 16 + byte b 4 * 2 ^ 8 + byte b 5,
  byte b 7 * 2 ^ 8 + byte b 6,
)

-- read_ztunnel_compact_ptr
unfoldable pub read_compact_ptr : (ℤ → ℕ → Option (List ℕ)) → ℤ → ℕ
unfolding little_endian
read_compact_ptr self (negsuc n) = 0
read_compact_ptr self (pos n) = elim (self (pos n) 8) [ none ↦ 0 | some b ↦ little_endian b ]

unfoldable pub read_flag : (ℤ → ℕ → Option (List ℕ)) → ℤ → ℕ
read_flag self (negsuc n) = 0
read_flag self (pos n) = elim (self (pos n) 1) [ none ↦ 0 | some b ↦ byte b 0 ]

-- The offset of a member of a principal: -1 for an absent one.
unfoldable pub member_offset : (base member : ℤ) → ℤ
unfolding ◌+ℤ◌
member_offset (negsuc n) member = negsuc 0
member_offset (pos n) member = pos n +ℤ member

unfoldable pub is_present : ℤ → ℕ
is_present (negsuc n) = 0
is_present (pos n) = 1

unfoldable pub compact_event : OffsetsConfig → (ℤ → ℕ → Option (List ℕ)) → CompactEvent
unfolding socket_addr read_compact_ptr read_flag member_offset is_present
compact_event cfg self =
    let src = socket_addr (self cfg.src 8) in
    let dst = socket_addr (self cfg.dst 8) in
    record {
      src_ip = src.0;
      dst_ip = dst.0;
      src_port = src.1;
      dst_port = dst.1;
      reporter = read_flag self cfg.reporter;
      security_policy = read_flag self cfg.security_policy;
      has_direction = is_present cfg.reporter;
      src_principal_ns_ptr =
          read_compact_ptr self (member_offset cfg.source_principal cfg.identity_namespace);
      src_principal_sa_ptr =
          read_compact_ptr self (member_offset cfg.source_principal cfg.identity_service_account);
      dst_principal_ns_ptr =
          read_compact_ptr self (member_offset cfg.destination_principal cfg.identity_namespace);
      dst_principal_sa_ptr =
          read_compact_ptr self
            (member_offset cfg.destination_principal cfg.identity_service_account);
      src_namespace_ptr = read_compact_ptr self cfg.source_namespace;
      dst_namespace_ptr = read_compact_ptr self cfg.destination_namespace;
      src_cluster_ptr = read_compact_ptr self cfg.source_cluster;
      dst_cluster_ptr = read_compact_ptr self cfg.destination_cluster;
    }

unfoldable pub format_ztunnel_ipv4 : ℕ → List ℕ
unfolding dotted
format_ztunnel_ipv4 ip =
    dotted (ip / 2 ^ 24) (ip / 2 ^ 16 % 2 ^ 8) (ip / 2 ^ 8 % 2 ^ 8) (ip % 2 ^ 8)

-- The sample of decodeCompact before the identities; `decoder` holds the offsets in use, if any.
unfoldable pub compact_head : Option Offsets → CompactEvent → ProbeSample
unfolding format_ztunnel_ipv4
compact_head decoder e =
    let reads : Bool = elim decoder [
      | none ↦ false
      | some o ↦ not (equal_int o.security_policy offset_absent)
    ] in
    let has_dst = not (e.dst_ip == 0) && not (e.dst_port == 0) in
    record {
      src_ip = format_ztunnel_ipv4 e.src_ip;
      src_port = e.src_port;
      dst_ip = if has_dst then format_ztunnel_ipv4 e.dst_ip else [];
      dst_port = if has_dst then e.dst_port else 0;
      outbound = if not (e.has_direction == 0) then e.reporter == 0 else false;
      direction_known = not (e.has_direction == 0);
      mutual_tls = if reads then e.security_policy == 1 else true;
      source = none;
      destination = none;
    }

unfoldable pub compact_shipped_identity_pointer : CompactEvent → Bool
compact_shipped_identity_pointer e =
    not (e.src_principal_ns_ptr == 0)
    || not (e.src_principal_sa_ptr == 0)
    || not (e.dst_principal_ns_ptr == 0)
    || not (e.dst_principal_sa_ptr == 0)
    || not (e.src_namespace_ptr == 0)
    || not (e.dst_namespace_ptr == 0)
    || not (e.src_cluster_ptr == 0)
    || not (e.dst_cluster_ptr == 0)

module _ {C : Type 0} (lru : Lru C) (mem : ℕ → ℕ → Option (List ℕ)) where
  unfoldable pub decode_compact : Option Offsets → CompactEvent → C → C × Option ProbeSample
  unfolding compact_head decode_identity_from_pointers
  decode_compact decoder e c =
      if (e.src_ip == 0) || (e.src_port == 0)
      then (c, none)
      else let (c1, source) =
          decode_identity_from_pointers lru mem e.src_principal_ns_ptr e.src_principal_sa_ptr
            e.src_namespace_ptr e.src_cluster_ptr c in
        let (c2, destination) =
          decode_identity_from_pointers lru mem e.dst_principal_ns_ptr e.dst_principal_sa_ptr
            e.dst_namespace_ptr e.dst_cluster_ptr c1 in
        (c2, with_identities (compact_head decoder e) source destination)
