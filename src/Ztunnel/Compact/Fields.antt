-- ===== src/Ztunnel/Compact/Fields.antt =====
-- The fields of the compact event of bpf/accesslog/ambient/ztunnel.c against those that Decode of
-- pkg/accesslog/collector/ztunnel/ztunnel_identity_decode.go reads.
use skywalking_rover.Common.{
  ℕ, ◌≤◌, ◌≡◌, ap, ◌∙◌, Bool, true, false, not, List, Option, none, some, arith, ◌==◌,
  if◌then◌else◌, length, All,
}
use skywalking_rover.Ztunnel.Integers.{ℤ, ◌+ℤ◌, equal_int, to_int32}
use skywalking_rover.Ztunnel.Offsets.{Offsets, offset_absent}
use skywalking_rover.Ztunnel.Offsets.Fits.{Placed, Optional, Fits}
use skywalking_rover.Ztunnel.Decode.{ProbeSample, sample_head}
use skywalking_rover.Ztunnel.Compact.{
  CompactEvent, offsets_config, socket_addr, read_compact_ptr, read_flag, member_offset, is_present,
  compact_event, format_ztunnel_ipv4, compact_head,
}
use skywalking_rover.Ztunnel.Compact.Reads.{
  pointer_at, address_at, Copied, IsByte, to_int32-Placed, to_int32-Optional, is_present-Optional,
  usable, usable-ip, usable-port, ip_of, port_of, read_compact_ptr-Optional,
  read_compact_ptr-member, socket_addr-Placed, flag-Optional,
}

-- A sample without identities.
abbrev head : List ℕ → ℕ → List ℕ → ℕ → Bool → Bool → Bool → ProbeSample
head src_ip src_port dst_ip dst_port outbound direction_known mutual_tls = record {
  src_ip = src_ip;
  src_port = src_port;
  dst_ip = dst_ip;
  dst_port = dst_port;
  outbound = outbound;
  direction_known = direction_known;
  mutual_tls = mutual_tls;
  source = none;
  destination = none;
}

head-cong :
    {a a' : List ℕ} {p p' : ℕ} {b b' : List ℕ} {q q' : ℕ} {x x' y y' z z' : Bool}
    → a ≡ a'
    → p ≡ p'
    → b ≡ b'
    → q ≡ q'
    → x ≡ x'
    → y ≡ y'
    → z ≡ z'
    → head a p b q x y z ≡ head a' p' b' q' x' y' z'
head-cong e1 e2 e3 e4 e5 e6 e7 = cc

-- The eight pointers of a connection.
pub record Pointers : Type 0 where
  pub src_ns : ℕ
  pub src_sa : ℕ
  pub src_label : ℕ
  pub src_cluster : ℕ
  pub dst_ns : ℕ
  pub dst_sa : ℕ
  pub dst_label : ℕ
  pub dst_cluster : ℕ

abbrev pub pointers_of : CompactEvent → Pointers
pointers_of e = record {
  src_ns = e.src_principal_ns_ptr;
  src_sa = e.src_principal_sa_ptr;
  src_label = e.src_namespace_ptr;
  src_cluster = e.src_cluster_ptr;
  dst_ns = e.dst_principal_ns_ptr;
  dst_sa = e.dst_principal_sa_ptr;
  dst_label = e.dst_namespace_ptr;
  dst_cluster = e.dst_cluster_ptr;
}

abbrev pub pointers_in : Offsets → List ℕ → Pointers
pointers_in o window = record {
  src_ns = pointer_at window (o.source_principal +ℤ o.identity_namespace);
  src_sa = pointer_at window (o.source_principal +ℤ o.identity_service_account);
  src_label = pointer_at window o.source_namespace;
  src_cluster = pointer_at window o.source_cluster;
  dst_ns = pointer_at window (o.destination_principal +ℤ o.identity_namespace);
  dst_sa = pointer_at window (o.destination_principal +ℤ o.identity_service_account);
  dst_label = pointer_at window o.destination_namespace;
  dst_cluster = pointer_at window o.destination_cluster;
}

module _ (self : ℤ → ℕ → Option (List ℕ)) (window : List ℕ) (o : Offsets) (fits : Fits o)
    (copy : Copied self window) (enough : fits.w ≤ length window) where
  pointer_lem :
      (off : ℤ)
      → Optional fits.w 8 off
      → read_compact_ptr self (to_int32 off) ≡ pointer_at window off
  pointer_lem off p =
      ap (read_compact_ptr self) (to_int32-Optional fits.w 8 off fits.small p)
      ∙ read_compact_ptr-Optional self window fits.w copy enough off p

  member_lem :
      (base member : ℤ)
      → Placed fits.w fits.size base
      → Placed fits.size 8 member
      → read_compact_ptr self (member_offset (to_int32 base) (to_int32 member))
        ≡ pointer_at window (base +ℤ member)
  member_lem base member p q =
      let (n, e, h) = p in
      let (m, f, k) = q in
      let small = fits.small in
      let size_small : fits.size ≤ 2048 = omega arith in
      rw
        (
          to_int32-Placed fits.w fits.size base small p,
          to_int32-Placed fits.size 8 member size_small q,
        )
        (read_compact_ptr-member self window fits.w copy enough fits.size base member p q)

  pub pointers_lem :
      Placed fits.w fits.size o.source_principal
      → pointers_of (compact_event (offsets_config o) self) ≡ pointers_in o window
  unfolding compact_event offsets_config
  pointers_lem p =
      let e1 = member_lem o.source_principal o.identity_namespace p fits.identity_namespace in
      let e2 =
        member_lem o.source_principal o.identity_service_account p fits.identity_service_account in
      let e3 = pointer_lem o.source_namespace fits.source_namespace in
      let e4 = pointer_lem o.source_cluster fits.source_cluster in
      let d = fits.destination_principal in
      let e5 = member_lem o.destination_principal o.identity_namespace d fits.identity_namespace in
      let e6 =
        member_lem o.destination_principal o.identity_service_account d
          fits.identity_service_account in
      let e7 = pointer_lem o.destination_namespace fits.destination_namespace in
      let e8 = pointer_lem o.destination_cluster fits.destination_cluster in cc

  -- The heads of the samples, given the source address.
  pub head_lem :
      (src : List ℕ × ℕ)
      → All IsByte window
      → Placed fits.w 8 o.dst
      → let e = compact_event (offsets_config o) self in
        (format_ztunnel_ipv4 e.src_ip, e.src_port) ≡ src
        → compact_head (some o) e ≡ sample_head o window src (address_at window o.dst)
  unfolding compact_head sample_head compact_event offsets_config
  head_lem src b d s =
      let dst = socket_addr (self (to_int32 o.dst) 8) in
      let same : usable dst ≡ address_at window o.dst =
        ap (λ z. usable (socket_addr (self z 8))) (to_int32-Placed fits.w 8 o.dst fits.small d)
        ∙ socket_addr-Placed self window fits.w copy enough o.dst b d in
      let e1 = usable-ip dst.0 dst.1 in
      let e2 = usable-port dst.0 dst.1 in
      let r = to_int32-Optional fits.w 1 o.reporter fits.small fits.reporter in
      let p = to_int32-Optional fits.w 1 o.security_policy fits.small fits.security_policy in
      let e3 = is_present-Optional fits.w o.reporter fits.reporter in
      let e4 =
        flag-Optional self window fits.w copy enough o.reporter (λ v. v == 0) false fits.reporter in
      let e5 =
        flag-Optional self window fits.w copy enough o.security_policy (λ v. v == 1) true
          fits.security_policy in
      head-cong (ap (λ t. t.0) s) (ap (λ t. t.1) s) (e1 ∙ ap ip_of same) (e2 ∙ ap port_of same)
        (ap (λ z. if not (is_present z == 0) then read_flag self z == 0 else false) r
          ∙ ap (λ t. if t then read_flag self o.reporter == 0 else false) e3
          ∙ e4)
        (ap (λ z. not (is_present z == 0)) r ∙ e3)
        (ap
            (λ z.
              if not (equal_int o.security_policy offset_absent)
              then read_flag self z == 1
              else true)
            p
          ∙ e5)
