-- ===== src/Ztunnel/Compact/Reads.antt =====
-- The reads of the probe of bpf/accesslog/ambient/ztunnel.c against those of Decode of
-- pkg/accesslog/collector/ztunnel/ztunnel_identity_decode.go on the copied window.
use skywalking_rover.Common.{
  ℕ, zero, suc, ◌+◌, ◌*◌, ◌/◌, ◌%◌, ◌^◌, ◌≤◌, ◌<◌, ◌≡◌, refl, sym, subst, inl, inr, Bool, true,
  false, ◌&&◌, ◌||◌, not, List, [], ◌∷◌, Option, none, some, arith, ltb, ◌==◌, if◌then◌else◌,
  length, take, drop, get_elem?, All, Bool-cases,
}
use skywalking_rover.Ztunnel.Integers.{
  ℤ, pos, negsuc, ◌+ℤ◌, add_int, add_int_small, little_endian, equal_int, to_int32,
}
use skywalking_rover.Ztunnel.Offsets.{offset_absent}
use skywalking_rover.Ztunnel.Offsets.Fits.{Placed, Optional}
use skywalking_rover.Ztunnel.Decode.{
  bytes_at, byte, dotted, read_window_byte, read_pointer, address_in, decode_sock_addr_v4,
}
use skywalking_rover.Ztunnel.Compact.{
  socket_addr, read_compact_ptr, read_flag, member_offset, is_present, format_ztunnel_ipv4,
}

-- What a read gives that does not panic.
unfoldable pub pointer_at : List ℕ → ℤ → ℕ
unfolding little_endian
pointer_at window (negsuc n) = 0
pointer_at window (pos n) =
    if ltb (length window) (n + 8) then 0 else little_endian (take 8 (drop n window))

unfoldable pub address_at : List ℕ → ℤ → Option (List ℕ × ℕ)
unfolding address_in
address_at window (negsuc n) = none
address_at window (pos n) =
    if ltb (length window) (n + 8) then none else address_in (take 8 (drop n window))

-- The probe reads from the bytes that are copied.
abbrev pub Copied : (ℤ → ℕ → Option (List ℕ)) → List ℕ → Type 0
Copied self window =
    (i n : ℕ) → i + n ≤ length window → self (pos i) n ≡ some (take n (drop i window))

abbrev pub IsByte : ℕ → Type 0
IsByte b = b < 256

to_int32_small : (n : ℕ) → n < 2 ^ 31 → to_int32 (pos n) ≡ pos n
unfolding to_int32
to_int32_small n h = ground arith

to_int32_absent : to_int32 offset_absent ≡ offset_absent
unfolding to_int32
to_int32_absent = refl

pub to_int32-Placed : (w size : ℕ) (off : ℤ) → w ≤ 2048 → Placed w size off → to_int32 off ≡ off
to_int32-Placed w size off b (n, e, h) =
    subst (λ z. to_int32 z ≡ z) (sym e) (to_int32_small n (omega arith))

pub to_int32-Optional : (w size : ℕ) (off : ℤ) → w ≤ 2048 → Optional w size off → to_int32 off ≡ off
to_int32-Optional w size off b (inl e) = subst (λ z. to_int32 z ≡ z) (sym e) to_int32_absent
to_int32-Optional w size off b (inr p) = to_int32-Placed w size off b p

byte-IsByte : (bs : List ℕ) (i : ℕ) → All IsByte bs → byte bs i < 256
byte-IsByte [] i h = omega arith
byte-IsByte (b ∷ bs) zero h = h.0
byte-IsByte (b ∷ bs) (suc i) h = byte-IsByte bs i h.1

All-take : (n : ℕ) (bs : List ℕ) → All IsByte bs → All IsByte (take n bs)
All-take zero bs h = tt
All-take (suc n) [] h = tt
All-take (suc n) (b ∷ bs) h = (h.0, All-take n bs h.1)

All-drop : (n : ℕ) (bs : List ℕ) → All IsByte bs → All IsByte (drop n bs)
All-drop zero bs h = h
All-drop (suc n) [] h = tt
All-drop (suc n) (b ∷ bs) h = All-drop n bs h.1

get_elem?-byte :
    (bs : List ℕ) (n : ℕ) → n < length bs → get_elem? bs n ≡ some (byte (take 1 (drop n bs)) 0)
get_elem?-byte [] n h = absurd (omega arith)
get_elem?-byte (b ∷ bs) zero h = refl
get_elem?-byte (b ∷ bs) (suc n) h = get_elem?-byte bs n (omega arith)

-- What decodeCompact makes of the numbers that the probe takes out of a SocketAddr.
abbrev pub usable : ℕ × ℕ → Option (List ℕ × ℕ)
usable (ip, port) = if (ip == 0) || (port == 0) then none else some (format_ztunnel_ipv4 ip, port)

-- The octets of a number of four bytes.
format_octets :
    (a b c d : ℕ)
    → a < 256
    → b < 256
    → c < 256
    → d < 256
    → format_ztunnel_ipv4 (a * 2 ^ 24 + b * 2 ^ 16 + c * 2 ^ 8 + d) ≡ dotted a b c d
unfolding format_ztunnel_ipv4
format_octets a b c d ha hb hc hd =
    let ip = a * 2 ^ 24 + b * 2 ^ 16 + c * 2 ^ 8 + d in
    let ea : ip / 2 ^ 24 ≡ a = omega arith in
    let eb : ip / 2 ^ 16 % 2 ^ 8 ≡ b = omega arith in
    let ec : ip / 2 ^ 8 % 2 ^ 8 ≡ c = omega arith in
    let ed : ip % 2 ^ 8 ≡ d = omega arith in rw (ea, eb, ec, ed)

or_tests :
    (s t u : Bool) (x y : Option (List ℕ × ℕ))
    → s ≡ u
    → x ≡ y
    → (if s || t then none else x) ≡ (if u then none else if t then none else y)
or_tests true t u x y e f = rw (sym e)
or_tests false t u x y e f = rw (sym e, f)

usable-bytes :
    (a b c d p q : ℕ)
    → a < 256
    → b < 256
    → c < 256
    → d < 256
    → usable (a * 2 ^ 24 + b * 2 ^ 16 + c * 2 ^ 8 + d, q * 2 ^ 8 + p) ≡ (
        if (a == 0) && (b == 0) && (c == 0) && (d == 0)
        then none
        else if p + 256 * q == 0
        then none
        else some (dotted a b c d, p + 256 * q))
usable-bytes a b c d p q ha hb hc hd =
    let ip = a * 2 ^ 24 + b * 2 ^ 16 + c * 2 ^ 8 + d in
    let tests : (ip == 0) ≡ ((a == 0) && (b == 0) && (c == 0) && (d == 0)) = ground arith in
    let port : q * 2 ^ 8 + p ≡ p + 256 * q = omega arith in
    let value : some (format_ztunnel_ipv4 ip, q * 2 ^ 8 + p) ≡ some (dotted a b c d, p + 256 * q) =
      cc (format_octets a b c d ha hb hc hd) in
    subst
      (λ r. usable (ip, q * 2 ^ 8 + p) ≡ (
        if (a == 0) && (b == 0) && (c == 0) && (d == 0)
        then none
        else if r == 0
        then none
        else some (dotted a b c d, p + 256 * q)))
      port
      (or_tests (ip == 0) (q * 2 ^ 8 + p == 0) ((a == 0) && (b == 0) && (c == 0) && (d == 0))
        (some (format_ztunnel_ipv4 ip, q * 2 ^ 8 + p)) (some (dotted a b c d, p + 256 * q)) tests
        value)

usable-socket_addr : (bs : List ℕ) → All IsByte bs → usable (socket_addr (some bs)) ≡ address_in bs
unfolding socket_addr address_in
usable-socket_addr bs h =
    usable-bytes (byte bs 2) (byte bs 3) (byte bs 4) (byte bs 5) (byte bs 6) (byte bs 7)
      (byte-IsByte bs 2 h) (byte-IsByte bs 3 h) (byte-IsByte bs 4 h) (byte-IsByte bs 5 h)

module _ (self : ℤ → ℕ → Option (List ℕ)) (window : List ℕ) (w : ℕ) (copy : Copied self window)
    (enough : w ≤ length window) where
  read_pointer-at :
      (n : ℕ)
      → w ≤ 2048
      → n + 8 ≤ w
      → read_pointer window (pos n) ≡ some (pointer_at window (pos n))
  unfolding read_pointer pointer_at bytes_at
  read_pointer-at n small h =
      let sum : add_int (pos n) (pos 8) ≡ pos (n + 8) = add_int_small n 8 (omega arith) in
      let fits : ltb (length window) (n + 8) ≡ false = ground arith in rw (sum, fits)

  pub read_pointer-Optional :
      (off : ℤ)
      → w ≤ 2048
      → Optional w 8 off
      → read_pointer window off ≡ some (pointer_at window off)
  unfolding read_pointer pointer_at
  read_pointer-Optional off small (inl e) =
      subst (λ z. read_pointer window z ≡ some (pointer_at window z)) (sym e) refl
  read_pointer-Optional off small (inr (n, e, h)) =
      subst (λ z. read_pointer window z ≡ some (pointer_at window z)) (sym e)
        (read_pointer-at n small h)

  pub read_pointer-member :
      (size : ℕ) (base member : ℤ)
      → w ≤ 2048
      → Placed w size base
      → Placed size 8 member
      → read_pointer window (add_int base member) ≡ some (pointer_at window (base +ℤ member))
  unfolding ◌+ℤ◌
  read_pointer-member size base member small (n, e, h) (m, f, k) =
      let sum : add_int (pos n) (pos m) ≡ pos (n + m) = add_int_small n m (omega arith) in
      rw (e, f, sum) (read_pointer-at (n + m) small (omega arith))

  pub decode_sock_addr_v4-Placed :
      (off : ℤ)
      → w ≤ 2048
      → Placed w 8 off
      → decode_sock_addr_v4 window off ≡ some (address_at window off)
  unfolding decode_sock_addr_v4 address_at bytes_at
  decode_sock_addr_v4-Placed off small (n, e, h) =
      let sum : add_int (pos n) (pos 8) ≡ pos (n + 8) = add_int_small n 8 (omega arith) in
      let fits : ltb (length window) (n + 8) ≡ false = ground arith in rw (e, sum, fits)

  read_compact_ptr-at :
      (n : ℕ) → n + 8 ≤ w → read_compact_ptr self (pos n) ≡ pointer_at window (pos n)
  unfolding read_compact_ptr pointer_at
  read_compact_ptr-at n h =
      let fits : ltb (length window) (n + 8) ≡ false = ground arith in
      rw (read_compact_ptr, pointer_at, copy n 8 (omega arith), fits)

  pub read_compact_ptr-Optional :
      (off : ℤ) → Optional w 8 off → read_compact_ptr self off ≡ pointer_at window off
  unfolding read_compact_ptr pointer_at
  read_compact_ptr-Optional off (inl e) =
      subst (λ z. read_compact_ptr self z ≡ pointer_at window z) (sym e) refl
  read_compact_ptr-Optional off (inr (n, e, h)) =
      subst (λ z. read_compact_ptr self z ≡ pointer_at window z) (sym e) (read_compact_ptr-at n h)

  pub read_compact_ptr-member :
      (size : ℕ) (base member : ℤ)
      → Placed w size base
      → Placed size 8 member
      → read_compact_ptr self (member_offset base member) ≡ pointer_at window (base +ℤ member)
  unfolding member_offset ◌+ℤ◌
  read_compact_ptr-member size base member (n, e, h) (m, f, k) =
      rw (e, f) (read_compact_ptr-at (n + m) (omega arith))

  pub socket_addr-Placed :
      (off : ℤ)
      → All IsByte window
      → Placed w 8 off
      → usable (socket_addr (self off 8)) ≡ address_at window off
  unfolding address_at
  socket_addr-Placed off b (n, e, h) =
      let fits : ltb (length window) (n + 8) ≡ false = ground arith in
      rw (e, copy n 8 (omega arith), fits)
        (usable-socket_addr (take 8 (drop n window))
          (All-take 8 (drop n window) (All-drop n window b)))

  -- A byte that is there or not, in both ways.
  pub flag-Optional :
      (off : ℤ) (test : ℕ → Bool) (default : Bool)
      → Optional w 1 off
      → (if not (equal_int off offset_absent) then test (read_flag self off) else default)
        ≡ elim (read_window_byte window off) [ none ↦ default | some b ↦ test b ]
  unfolding read_flag read_window_byte
  flag-Optional off test default (inl e) = rw e
  flag-Optional off test default (inr (n, e, h)) = rw (
    e,
    read_flag,
    read_window_byte,
    copy n 1 (omega arith),
    get_elem?-byte window n (omega arith),
  )

pub is_present-Optional :
    (w : ℕ) (off : ℤ)
    → Optional w 1 off
    → not (is_present off == 0) ≡ not (equal_int off offset_absent)
unfolding is_present
is_present-Optional w off (inl e) = rw e
is_present-Optional w off (inr (n, e, h)) = rw e

-- The address of a best-effort peer.
abbrev pub ip_of : Option (List ℕ × ℕ) → List ℕ
ip_of none = []
ip_of (some d) = d.0

abbrev pub port_of : Option (List ℕ × ℕ) → ℕ
port_of none = 0
port_of (some d) = d.1

pub usable-ip :
    (ip port : ℕ)
    → (if not (ip == 0) && not (port == 0) then format_ztunnel_ipv4 ip else [])
      ≡ ip_of (usable (ip, port))
usable-ip ip port = elim (Bool-cases (ip == 0)) [
  | inl e ↦ rw e
  | inr e ↦ elim (Bool-cases (port == 0)) [ inl f ↦ rw (e, f) | inr f ↦ rw (e, f) ]
]

pub usable-port :
    (ip port : ℕ)
    → (if not (ip == 0) && not (port == 0) then port else 0) ≡ port_of (usable (ip, port))
usable-port ip port = elim (Bool-cases (ip == 0)) [
  | inl e ↦ rw e
  | inr e ↦ elim (Bool-cases (port == 0)) [ inl f ↦ rw (e, f) | inr f ↦ rw (e, f) ]
]
