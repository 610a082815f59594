-- ===== src/Ztunnel/Compact/Agreement.antt =====
-- The two ways to a sample agree: the compact event of bpf/accesslog/ambient/ztunnel.c with
-- decodeCompact, and Decode on the copied window, both of
-- pkg/accesslog/collector/ztunnel/ztunnel_identity_decode.go.
use skywalking_rover.Common.{
  ℕ, ◌≤◌, ◌≡◌, ◌≢◌, refl, sym, ap, subst, ◌∙◌, inl, inr, true, false, ◌||◌, List, Option, none,
  some, arith, ltb, ◌==◌, length, All, Bool-cases,
}
use skywalking_rover.Ztunnel.Integers.{ℤ, pos, add_int, ltb_int}
use skywalking_rover.Ztunnel.Offsets.{Offsets, offset_absent, validate}
use skywalking_rover.Ztunnel.Offsets.Fits.{Placed, Optional, Fits, AllSmall, validate-Fits}
use skywalking_rover.Ztunnel.Strings.{Lru}
use skywalking_rover.Ztunnel.Decode.{
  ProbeSample, Decoded, panicked, failed, decoded, read_pointer, with_pointers, decode_sock_addr_v4,
  sample_head, with_identities, or_no_identity, decode_identity_from_pointers, decode_identity,
  decode,
}
use skywalking_rover.Ztunnel.Compact.{
  CompactEvent, offsets_config, socket_addr, compact_event, format_ztunnel_ipv4, compact_head,
  decode_compact,
}
use skywalking_rover.Ztunnel.Compact.Reads.{
  address_at, read_pointer-member, read_pointer-Optional, decode_sock_addr_v4-Placed, Copied,
  IsByte, to_int32-Placed, usable, socket_addr-Placed,
}
use skywalking_rover.Ztunnel.Compact.Fields.{
  Pointers, pointers_of, pointers_in, pointers_lem, head_lem,
}

-- The sample of a result of Decode, if there is one.
abbrev pub sample_of : Decoded → Option ProbeSample
sample_of panicked = none
sample_of (failed e) = none
sample_of (decoded s) = some s

sample_of-or_no_identity : (s : Option ProbeSample) → sample_of (or_no_identity s) ≡ s
sample_of-or_no_identity none = refl
sample_of-or_no_identity (some s) = refl

present : (w size : ℕ) (off : ℤ) → off ≢ offset_absent → Optional w size off → Placed w size off
present w size off h (inl e) = absurd (h e)
present w size off h (inr p) = p

enough_lem : (n w : ℕ) (z : ℤ) → z ≡ pos w → ltb_int (pos n) z ≡ false → w ≤ n
enough_lem n w z e l =
    let h : ltb n w ≡ false = subst (λ y. ltb_int (pos n) y ≡ false) e l in ground arith

usable-bad : (ip port : ℕ) → ((ip == 0) || (port == 0)) ≡ true → usable (ip, port) ≡ none
usable-bad ip port h = rw h

usable-good :
    (ip port : ℕ)
    → ((ip == 0) || (port == 0)) ≡ false
    → usable (ip, port) ≡ some (format_ztunnel_ipv4 ip, port)
usable-good ip port h = rw h

module _ {C : Type 0} (lru : Lru C) (mem : ℕ → ℕ → Option (List ℕ)) where
  -- What both do with the head and the pointers.
  abbrev finish : ProbeSample → Pointers → C → C × Option ProbeSample
  finish h p c =
      let (c1, source) =
        decode_identity_from_pointers lru mem p.src_ns p.src_sa p.src_label p.src_cluster c in
      let (c2, destination) =
        decode_identity_from_pointers lru mem p.dst_ns p.dst_sa p.dst_label p.dst_cluster c1 in
      (c2, with_identities h source destination)

  abbrev pub without_error : C × Decoded → C × Option ProbeSample
  without_error r = (r.0, sample_of r.1)

  -- What Decode reads from the window, without a panic.
  record Reading (o : Offsets) (window : List ℕ) : Type 0 where
    src : decode_sock_addr_v4 window o.src ≡ some (address_at window o.src)
    dst : decode_sock_addr_v4 window o.dst ≡ some (address_at window o.dst)
    src_ns :
        read_pointer window (add_int o.source_principal o.identity_namespace)
        ≡ some (pointers_in o window).src_ns
    src_sa :
        read_pointer window (add_int o.source_principal o.identity_service_account)
        ≡ some (pointers_in o window).src_sa
    src_label : read_pointer window o.source_namespace ≡ some (pointers_in o window).src_label
    src_cluster : read_pointer window o.source_cluster ≡ some (pointers_in o window).src_cluster
    dst_ns :
        read_pointer window (add_int o.destination_principal o.identity_namespace)
        ≡ some (pointers_in o window).dst_ns
    dst_sa :
        read_pointer window (add_int o.destination_principal o.identity_service_account)
        ≡ some (pointers_in o window).dst_sa
    dst_label : read_pointer window o.destination_namespace ≡ some (pointers_in o window).dst_label
    dst_cluster :
        read_pointer window o.destination_cluster ≡ some (pointers_in o window).dst_cluster

  fits-Reading :
      (o : Offsets) (window : List ℕ) (self : ℤ → ℕ → Option (List ℕ)) (fits : Fits o)
      → Copied self window
      → fits.w ≤ length window
      → Placed fits.w 8 o.dst
      → Placed fits.w fits.size o.source_principal
      → Reading o window
  fits-Reading o window self fits copy enough d p =
      let small = fits.small in
      let member = read_pointer-member self window fits.w copy enough fits.size in
      let pointer = read_pointer-Optional self window fits.w copy enough in
      let address = decode_sock_addr_v4-Placed self window fits.w copy enough in
      let q = fits.destination_principal in
      let ns = fits.identity_namespace in
      let sa = fits.identity_service_account in
      record {
        src = address o.src small fits.src;
        dst = address o.dst small d;
        src_ns = member o.source_principal o.identity_namespace small p ns;
        src_sa = member o.source_principal o.identity_service_account small p sa;
        src_label = pointer o.source_namespace small fits.source_namespace;
        src_cluster = pointer o.source_cluster small fits.source_cluster;
        dst_ns = member o.destination_principal o.identity_namespace small q ns;
        dst_sa = member o.destination_principal o.identity_service_account small q sa;
        dst_label = pointer o.destination_namespace small fits.destination_namespace;
        dst_cluster = pointer o.destination_cluster small fits.destination_cluster;
      }

  decode_identity-pointers :
      (o : Offsets) (window : List ℕ) (p k l : ℤ) (a b d e : ℕ) (c : C)
      → read_pointer window (add_int p o.identity_namespace) ≡ some a
      → read_pointer window (add_int p o.identity_service_account) ≡ some b
      → read_pointer window l ≡ some d
      → read_pointer window k ≡ some e
      → decode_identity lru mem o window p k l c
        ≡ with_pointers lru mem (some a) (some b) (some d) (some e) c
  unfolding decode_identity
  decode_identity-pointers o window p k l a b d e c ea eb ed ee = rw (ea, eb, ed, ee)

  decode-finish :
      (o : Offsets) (window : List ℕ) (src : List ℕ × ℕ) (c : C)
      → ltb_int (pos (length window)) o.window ≡ false
      → Reading o window
      → address_at window o.src ≡ some src
      → without_error (decode lru mem o window c)
        ≡ finish (sample_head o window src (address_at window o.dst)) (pointers_in o window) c
  unfolding decode
  decode-finish o window src c l r e =
      let f =
        finish (sample_head o window src (address_at window o.dst)) (pointers_in o window) c in
      let ids = λ (x : C).
        decode_identity-pointers o window o.source_principal o.source_cluster o.source_namespace _ _
          _ _ x r.src_ns r.src_sa r.src_label r.src_cluster in
      let ids' = λ (x : C).
        decode_identity-pointers o window o.destination_principal o.destination_cluster
          o.destination_namespace _ _ _ _ x r.dst_ns r.dst_sa r.dst_label r.dst_cluster in
      rw (decode, l, r.src, e, r.dst, ids, ids')
        (ap (λ (x : Option ProbeSample). (f.0, x)) (sample_of-or_no_identity f.1))

  decode-none :
      (o : Offsets) (window : List ℕ) (c : C)
      → ltb_int (pos (length window)) o.window ≡ false
      → Reading o window
      → address_at window o.src ≡ none
      → without_error (decode lru mem o window c) ≡ (c, none)
  unfolding decode
  decode-none o window c l r e = rw (decode, l, r.src, e)

  decode_compact-finish :
      (d : Option Offsets) (e : CompactEvent) (c : C)
      → ((e.src_ip == 0) || (e.src_port == 0)) ≡ false
      → decode_compact lru mem d e c ≡ finish (compact_head d e) (pointers_of e) c
  unfolding decode_compact
  decode_compact-finish d e c good = rw good

  decode_compact-none :
      (d : Option Offsets) (e : CompactEvent) (c : C)
      → ((e.src_ip == 0) || (e.src_port == 0)) ≡ true
      → decode_compact lru mem d e c ≡ (c, none)
  unfolding decode_compact
  decode_compact-none d e c bad = rw bad

  -- For offsets that Validate accepts, all below 2^62 so that its sums do not wrap around, among them
  -- those of the destination address and of the source principal, and a window of bytes that is as long as the offsets ask for: if the probe reads what
  -- the window is a copy of, then decodeCompact of its compact event returns the sample that Decode
  -- returns for the window, or none where Decode returns an error, and leaves the same cache.
  pub decode_compact-decode :
      (self : ℤ → ℕ → Option (List ℕ)) (window : List ℕ) (o : Offsets) (c : C)
      → AllSmall o
      → validate o ≡ none
      → o.dst ≢ offset_absent
      → o.source_principal ≢ offset_absent
      → ltb_int (pos (length window)) o.window ≡ false
      → All IsByte window
      → Copied self window
      → decode_compact lru mem (some o) (compact_event (offsets_config o) self) c
        ≡ without_error (decode lru mem o window c)
  unfolding compact_event offsets_config
  decode_compact-decode self window o c all v d p l b copy =
      let fits = validate-Fits o all v in
      let enough = enough_lem (length window) fits.w o.window fits.window l in
      let e = compact_event (offsets_config o) self in
      let ptrs =
        pointers_lem self window o fits copy enough (present _ _ _ p fits.source_principal) in
      let place = present _ _ _ d fits.dst in
      let r =
        fits-Reading o window self fits copy enough place (present _ _ _ p fits.source_principal) in
      let same : usable (e.src_ip, e.src_port) ≡ address_at window o.src =
        ap (λ z. usable (socket_addr (self z 8)))
          (to_int32-Placed fits.w 8 o.src fits.small fits.src)
        ∙ socket_addr-Placed self window fits.w copy enough o.src b fits.src in
      elim (Bool-cases ((e.src_ip == 0) || (e.src_port == 0))) [
        | inl bad ↦
            decode_compact-none (some o) e c bad
            ∙ sym (decode-none o window c l r (sym same ∙ usable-bad e.src_ip e.src_port bad))
        | inr good ↦
            let src : List ℕ × ℕ = (format_ztunnel_ipv4 e.src_ip, e.src_port) in
            decode_compact-finish (some o) e c good
            ∙ ap (λ h. finish h (pointers_of e) c)
                (head_lem self window o fits copy enough src b place refl)
            ∙ ap (λ q. finish (sample_head o window src (address_at window o.dst)) q c) ptrs
            ∙ sym
                (decode-finish o window src c l r (sym same ∙ usable-good e.src_ip e.src_port good))
      ]
