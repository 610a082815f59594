-- ===== src/Ztunnel/Decode.antt =====
-- pkg/accesslog/collector/ztunnel/ztunnel_identity_decode.go: a sample from the copied window of a
-- ConnectionResult. A window is a list of bytes, a string the list of its bytes. The memory of
-- ztunnel and the cache are parameters, as in Strings. A panic ends the process.
use skywalking_rover.Common.{
  ℕ, ◌+◌, ◌*◌, ◌/◌, ◌%◌, Bool, true, false, ◌&&◌, not, List, [], ◌∷◌, ◌++◌, Option, none, some, ltb,
  ◌==◌, if◌then◌else◌, take, drop, length, get_elem?,
}
use skywalking_rover.Ztunnel.Integers.{ℤ, pos, negsuc, add_int, ltb_int, equal_int, little_endian}
use skywalking_rover.Ztunnel.Offsets.{Offsets, offset_absent}
use skywalking_rover.Ztunnel.Strings.{Lru, decode_arc_str}

pub record WorkloadIdentity : Type 0 where
  pub cluster : List ℕ
  pub namespace : List ℕ
  pub service_account : List ℕ

pub record ProbeSample : Type 0 where
  pub src_ip : List ℕ
  pub src_port : ℕ
  pub dst_ip : List ℕ
  pub dst_port : ℕ
  pub outbound : Bool
  pub direction_known : Bool
  pub mutual_tls : Bool
  pub source : Option WorkloadIdentity
  pub destination : Option WorkloadIdentity

pub data DecodeError : Type 0 where
  short_window unusable_source no_identity : DecodeError

pub data Decoded : Type 0 where
  -- The slice of a window out of its range.
  panicked : Decoded
  failed : DecodeError → Decoded
  decoded : ProbeSample → Decoded

-- b[i]; the index is in range where it is used.
abbrev pub byte : List ℕ → ℕ → ℕ
byte bs i = elim (get_elem? bs i) [ none ↦ 0 | some b ↦ b ]

-- A byte, and four of them, in the formats %d and %d.%d.%d.%d.
abbrev decimal : ℕ → List ℕ
decimal n =
    if ltb n 10
    then (b'0' + n) ∷ []
    else if ltb n 100
    then (b'0' + n / 10) ∷ (b'0' + n % 10) ∷ []
    else (b'0' + n / 100) ∷ (b'0' + n / 10 % 10) ∷ (b'0' + n % 10) ∷ []

unfoldable pub dotted : (a b c d : ℕ) → List ℕ
dotted a b c d =
    decimal a ++ (b'.' ∷ []) ++ decimal b ++ (b'.' ∷ []) ++ decimal c ++ (b'.' ∷ []) ++ decimal d

-- readWindowByte
unfoldable pub read_window_byte : List ℕ → ℤ → Option ℕ
read_window_byte window (negsuc n) = none
read_window_byte window (pos n) = get_elem? window n

-- The eight bytes at an offset that passed the test for the end of the window; `none` is the panic of a
-- slice out of range, as where the sum of the test wrapped around.
unfoldable pub bytes_at : List ℕ → ℕ → Option (List ℕ)
bytes_at window n = if ltb (length window) (n + 8) then none else some (take 8 (drop n window))

abbrev pub map_some : {A B : Type 0} → (A → B) → Option A → Option B
map_some f none = none
map_some f (some a) = some (f a)

-- readPointer; `none` is its panic.
unfoldable pub read_pointer : List ℕ → ℤ → Option ℕ
unfolding little_endian bytes_at add_int
read_pointer window (negsuc n) = some 0
read_pointer window (pos n) =
    if ltb_int (pos (length window)) (add_int (pos n) (pos 8))
    then some 0
    else map_some little_endian (bytes_at window n)

-- The eight bytes of a SocketAddr; `none` if it is no usable IPv4 one.
unfoldable pub address_in : List ℕ → Option (List ℕ × ℕ)
unfolding dotted
address_in b =
    let port = byte b 6 + 256 * byte b 7 in
    if (byte b 2 == 0) && (byte b 3 == 0) && (byte b 4 == 0) && (byte b 5 == 0)
    then none
    else if port == 0
    then none
    else some (dotted (byte b 2) (byte b 3) (byte b 4) (byte b 5), port)

-- decodeSockAddrV4; `none` is its panic.
unfoldable pub decode_sock_addr_v4 : List ℕ → ℤ → Option (Option (List ℕ × ℕ))
unfolding address_in bytes_at add_int
decode_sock_addr_v4 window (negsuc n) = some none
decode_sock_addr_v4 window (pos n) =
    if ltb_int (pos (length window)) (add_int (pos n) (pos 8))
    then some none
    else map_some address_in (bytes_at window n)

abbrev pub or_empty : Option (List ℕ) → List ℕ
or_empty none = []
or_empty (some s) = s

-- Both members of the principal, or nothing of it.
abbrev pub principal : Option (List ℕ) → Option (List ℕ) → WorkloadIdentity
principal (some ns) (some sa) = record { cluster = []; namespace = ns; service_account = sa }
principal _ _ = record { cluster = []; namespace = []; service_account = [] }

abbrev pub is_empty : List ℕ → Bool
is_empty [] = true
is_empty (c ∷ cs) = false

abbrev pub unless_empty : WorkloadIdentity → Option WorkloadIdentity
unless_empty id =
    if is_empty id.namespace && is_empty id.service_account && is_empty id.cluster
    then none
    else some id

-- The sample of Decode before the identities.
unfoldable pub sample_head : Offsets → List ℕ → List ℕ × ℕ → Option (List ℕ × ℕ) → ProbeSample
unfolding read_window_byte
sample_head o window src dst = record {
  src_ip = src.0;
  src_port = src.1;
  dst_ip = elim dst [ none ↦ [] | some d ↦ d.0 ];
  dst_port = elim dst [ none ↦ 0 | some d ↦ d.1 ];
  outbound = elim (read_window_byte window o.reporter) [ none ↦ false | some b ↦ b == 0 ];
  direction_known = not (equal_int o.reporter offset_absent);
  mutual_tls = elim (read_window_byte window o.security_policy) [ none ↦ true | some b ↦ b == 1 ];
  source = none;
  destination = none;
}

-- The identities in their place, unless both are missing.
abbrev pub with_identities :
    ProbeSample → Option WorkloadIdentity → Option WorkloadIdentity → Option ProbeSample
with_identities s none none = none
with_identities s (some i) j = some (record s { source = some i; destination = j })
with_identities s none (some j) = some (record s { source = none; destination = some j })

abbrev pub or_no_identity : Option ProbeSample → Decoded
or_no_identity none = failed no_identity
or_no_identity (some s) = decoded s

-- The sample with what was read, unless that panicked.
abbrev pub finished :
    Offsets
    → List ℕ
    → List ℕ × ℕ
    → Option (Option (List ℕ × ℕ))
    → (source destination : Option (Option WorkloadIdentity)) → Decoded
finished o window src (some dst) (some source) (some destination) =
    or_no_identity (with_identities (sample_head o window src dst) source destination)
finished o window src _ _ _ = panicked

module _ {C : Type 0} (lru : Lru C) (mem : ℕ → ℕ → Option (List ℕ)) where
  -- The namespace, from the label if the principal has none.
  unfoldable pub label_if_empty : WorkloadIdentity → ℕ → C → C × WorkloadIdentity
  unfolding decode_arc_str
  label_if_empty id namespace_label_ptr c =
      if is_empty id.namespace
      then (let (c', v) = decode_arc_str lru mem namespace_label_ptr c in
          (c', record id { namespace = or_empty v }))
      else (c, id)

  unfoldable pub decode_identity_from_pointers :
      (principal_ns_ptr principal_sa_ptr namespace_label_ptr cluster_ptr : ℕ)
      → C
      → C × Option WorkloadIdentity
  unfolding decode_arc_str label_if_empty
  decode_identity_from_pointers principal_ns_ptr principal_sa_ptr namespace_label_ptr cluster_ptr
        c =
      let (c1, ns) = decode_arc_str lru mem principal_ns_ptr c in
      let (c2, sa) = decode_arc_str lru mem principal_sa_ptr c1 in
      let (c3, id) = label_if_empty (principal ns sa) namespace_label_ptr c2 in
      let (c4, v) = decode_arc_str lru mem cluster_ptr c3 in
      (c4, unless_empty (record id { cluster = or_empty v }))

  abbrev pub with_pointers : (p q l k : Option ℕ) → C → C × Option (Option WorkloadIdentity)
  with_pointers (some p) (some q) (some l) (some k) c =
      let (c', id) = decode_identity_from_pointers p q l k c in (c', some id)
  with_pointers _ _ _ _ c = (c, none)

  -- decodeIdentity; `none` is its panic.
  unfoldable pub decode_identity :
      Offsets
      → List ℕ
      → (principal_offset cluster_offset namespace_offset : ℤ) → C
      → C × Option (Option WorkloadIdentity)
  unfolding read_pointer decode_identity_from_pointers add_int
  decode_identity o window principal_offset cluster_offset namespace_offset =
      with_pointers (read_pointer window (add_int principal_offset o.identity_namespace))
        (read_pointer window (add_int principal_offset o.identity_service_account))
        (read_pointer window namespace_offset) (read_pointer window cluster_offset)

  -- Decode, after the source address.
  abbrev pub decode_from : Offsets → List ℕ → Option (Option (List ℕ × ℕ)) → C → C × Decoded
  decode_from o window none c = (c, panicked)
  decode_from o window (some none) c = (c, failed unusable_source)
  decode_from o window (some (some src)) c =
      let (c1, source) =
        decode_identity o window o.source_principal o.source_cluster o.source_namespace c in
      let (c2, destination) =
        decode_identity o window o.destination_principal o.destination_cluster
          o.destination_namespace c1 in
      (c2, finished o window src (decode_sock_addr_v4 window o.dst) source destination)

  -- Decode
  unfoldable pub decode : Offsets → List ℕ → C → C × Decoded
  unfolding decode_sock_addr_v4 sample_head decode_identity
  decode o window c =
      if ltb_int (pos (length window)) o.window
      then (c, failed short_window)
      else decode_from o window (decode_sock_addr_v4 window o.src) c
