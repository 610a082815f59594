-- ===== src/Examples/Identities.antt =====
-- Runs of the theorems on the identities of ztunnel, on a ConnectionResult of 104 bytes.
use skywalking_rover.Common.{
  ℕ, zero, suc, ◌+◌, ◌-◌, ◌%◌, ◌^◌, ◌≤◌, ◌≡◌, refl, sym, ◌⊎◌, inl, inr, Bool, true, false, ◌&&◌,
  List, [], ◌∷◌, ◌++◌, Option, none, some, arith, ltb, leb, ◌==◌, if◌then◌else◌, length, take, drop,
  replicate, All, Bool-cases,
}
use skywalking_rover.Ztunnel.Integers.{ℤ, pos, negsuc}
use skywalking_rover.Ztunnel.Offsets.{Offsets, offset_absent, validate}
use skywalking_rover.Ztunnel.Offsets.Fits.{Fits, AllSmall, validate-Fits}
use skywalking_rover.Ztunnel.Strings.{Lru, decode_arc_str}
use skywalking_rover.Ztunnel.Strings.RoundTrip.{arc_str, HoldsAt, decode_arc_str-arc_str}
use skywalking_rover.Ztunnel.Strings.Cache.{LruLaws, no_cache, IsSound, decode-no_cache}
use skywalking_rover.Ztunnel.Decode.{decode, decode_sock_addr_v4, failed, panicked, short_window}
use skywalking_rover.Ztunnel.Compact.{
  CompactEvent, offsets_config, compact_event, compact_head, decode_compact,
  compact_shipped_identity_pointer,
}
use skywalking_rover.Ztunnel.Compact.Reads.{IsByte}
use skywalking_rover.Ztunnel.Compact.Agreement.{without_error, decode_compact-decode}
use skywalking_rover.Ztunnel.Labels.{find_nearest_label}
use skywalking_rover.Ztunnel.Labels.Nearest.{IsNearest, find_nearest_label-IsNearest}
use skywalking_rover.Ztunnel.Source.{
  IdentitySource, Surroundings, Input, full, compact, new_identity_source, prepare, handle_events,
}
use skywalking_rover.Ztunnel.Source.Downgrade.{handle_events-Fails}
use skywalking_rover.Ztunnel.Source.Invariant.{Inv, prepare-handle_events-Inv}

-- A cache that forgets nothing.
abbrev Entries : Type 0
Entries = List (ℕ × List ℕ)

abbrev lookup : ℕ → Entries → Option (List ℕ)
lookup k [] = none
lookup k ((j, v) ∷ rest) = if j == k then some v else lookup k rest

abbrev entries : Lru Entries
entries = record { get = λ k c. (c, lookup k c); add = λ k v c. (k, v) ∷ c }

abbrev Has : Entries → ℕ → List ℕ → Type 0
Has [] k v = ⊥
Has ((j, u) ∷ rest) k v = ((k ≡ j) × (v ≡ u)) ⊎ Has rest k v

lookup-Has : (k : ℕ) (c : Entries) (v : List ℕ) → lookup k c ≡ some v → Has c k v
lookup-Has k [] v e = cc
lookup-Has k ((j, u) ∷ rest) v e = elim (Bool-cases (j == k)) [
  | inl here ↦ let same : u ≡ v = ground arith in inl (ground arith, sym same)
  | inr there ↦ inr (lookup-Has k rest v (ground arith))
]

entries_laws : LruLaws entries
entries_laws = record {
  Holds = Has;
  get-Holds = lookup-Has;
  Holds-get = λ k c j v h. h;
  Holds-add = λ k u c j v h. h;
}

abbrev offsets : Offsets
offsets = record {
  window = pos 104;
  src = pos 0;
  dst = pos 8;
  hbone_target = offset_absent;
  reporter = pos 96;
  security_policy = pos 97;
  source_principal = pos 16;
  destination_principal = pos 40;
  source_namespace = pos 64;
  destination_namespace = pos 72;
  source_cluster = pos 80;
  destination_cluster = pos 88;
  identity_spiffe_size = pos 24;
  identity_trust_domain = pos 0;
  identity_namespace = pos 8;
  identity_service_account = pos 16;
}

-- From 10.0.0.1:80 to 10.0.0.2:81; the namespace of the destination is at 4096.
abbrev window : List ℕ
window =
    (0 ∷ 0 ∷ 10 ∷ 0 ∷ 0 ∷ 1 ∷ 80 ∷ 0 ∷ [])
    ++ (0 ∷ 0 ∷ 10 ∷ 0 ∷ 0 ∷ 2 ∷ 81 ∷ 0 ∷ [])
    ++ replicate 56 0
    ++ (0 ∷ 16 ∷ 0 ∷ 0 ∷ 0 ∷ 0 ∷ 0 ∷ 0 ∷ [])
    ++ replicate 16 0
    ++ (0 ∷ 1 ∷ 0 ∷ 0 ∷ 0 ∷ 0 ∷ 0 ∷ 0 ∷ [])

abbrev bytes_from : List ℕ → ℕ → ℕ → Option (List ℕ)
bytes_from bs i n = if leb (i + n) (length bs) then some (take n (drop i bs)) else none

bytes_from-take :
    (bs : List ℕ) (i n : ℕ) → i + n ≤ length bs → bytes_from bs i n ≡ some (take n (drop i bs))
bytes_from-take bs i n h = let e : leb (i + n) (length bs) ≡ true = ground arith in rw e

abbrev self : ℤ → ℕ → Option (List ℕ)
self (pos i) n = bytes_from window i n
self (negsuc i) n = none

abbrev name : List ℕ
name = b'n' ∷ b's' ∷ []

abbrev mem : ℕ → ℕ → Option (List ℕ)
mem addr n =
    if leb 4096 addr then bytes_from (arc_str 1 (replicate 8 7) name) (addr - 4096) n else none

mem-HoldsAt : HoldsAt mem 4096 (arc_str 1 (replicate 8 7) name)
unfolding arc_str
mem-HoldsAt i n h =
    let e : (4096 + i) % 2 ^ 64 ≡ 4096 + i = omega arith in
    let back : 4096 + i - 4096 ≡ i = omega arith in
    let up : leb 4096 (4096 + i) ≡ true = ground arith in
    rw (e, up, back) (bytes_from-take (arc_str 1 (replicate 8 7) name) i n h)

abbrev are_bytes : List ℕ → Bool
are_bytes [] = true
are_bytes (b ∷ bs) = ltb b 256 && are_bytes bs

are_bytes-All : (bs : List ℕ) → are_bytes bs ≡ true → All IsByte bs
are_bytes-All [] e = tt
are_bytes-All (b ∷ bs) e = elim (Bool-cases (ltb b 256)) [
  | inl small ↦ (ground arith, are_bytes-All bs (ground (arith, small)))
  | inr big ↦ ground (arith, big)
]

offsets-valid : validate offsets ≡ none
unfolding validate
offsets-valid = refl

offsets-AllSmall : AllSmall offsets
offsets-AllSmall = (
  refl,
  (
    refl,
    (refl, (refl, (refl, (refl, (refl, (refl, (refl, (refl, (refl, (refl, (refl, tt))))))))))),
  ),
)

-- An offset whose sum with the size of the address wraps around is accepted, and Decode panics.
abbrev wrapped : Offsets
wrapped = record offsets { src = pos (2 ^ 63 - 8) }

wrapped-valid_test : validate wrapped ≡ none
unfolding validate
wrapped-valid_test = refl

wrapped-panicked_test : (decode entries mem wrapped window []).1 ≡ panicked
unfolding decode
wrapped-panicked_test = refl

validate-Fits_example : Fits offsets
validate-Fits_example = validate-Fits offsets offsets-AllSmall offsets-valid

decode_compact_example :
    decode_compact entries mem (some offsets) (compact_event (offsets_config offsets) self) []
    ≡ without_error entries mem (decode entries mem offsets window [])
decode_compact_example =
    decode_compact-decode entries mem self window offsets [] offsets-AllSmall offsets-valid
      (λ e. cc) (λ e. cc) refl (are_bytes-All window refl) (bytes_from-take window)

decode_arc_str_example : decode_arc_str entries mem 4096 [] ≡ ((4096, name) ∷ [], some name)
decode_arc_str_example =
    decode_arc_str-arc_str mem 4096 1 (replicate 8 7) name (omega arith) refl (omega arith)
      (omega arith) ((omega arith, omega arith), ((omega arith, omega arith), tt)) (omega arith)
      mem-HoldsAt entries [] (omega arith) refl refl

empty-IsSound : IsSound entries entries_laws mem []
unfolding entries_laws
empty-IsSound k v h = absurd h

no_cache_example :
    ((decode entries mem offsets window []).1 ≡ (decode no_cache mem offsets window tt).1)
    × IsSound entries entries_laws mem (decode entries mem offsets window []).0
no_cache_example = decode-no_cache entries entries_laws mem offsets window [] empty-IsSound

abbrev surroundings : Surroundings Entries
surroundings = record {
  event_pid = pos 7;
  mem = mem;
  mapped = λ ip port. false;
  has_truth = false;
  derive = λ c. (c, none);
}

-- A window that is too short, and a compact event with a pointer and no address.
abbrev short : Input Entries
short = full surroundings []

abbrev no_address : Input Entries
no_address = compact surroundings (record {
  src_ip = 0;
  dst_ip = 0;
  src_port = 0;
  dst_port = 0;
  reporter = 0;
  security_policy = 0;
  has_direction = 0;
  src_principal_ns_ptr = 1;
  src_principal_sa_ptr = 0;
  dst_principal_ns_ptr = 0;
  dst_principal_sa_ptr = 0;
  src_namespace_ptr = 0;
  dst_namespace_ptr = 0;
  src_cluster_ptr = 0;
  dst_cluster_ptr = 0;
})

prepared_example : Inv (
    handle_events entries
      (full surroundings window ∷ short ∷ [])
      (prepare (some offsets) (pos 7) (new_identity_source [] true)).0)
prepared_example =
    prepare-handle_events-Inv entries (some offsets) (pos 7) (full surroundings window ∷ short ∷ [])
      [] true

-- A source with 48 failures in a row, and one that has given up.
abbrev failing : IdentitySource Entries
failing = record {
  strings = [];
  decoder = some offsets;
  calibrator = none;
  mem_readers = [];
  probe_attached = true;
  pid = pos 7;
  has_config_map = true;
  downgraded = false;
  events = 48;
  decoded_events = 0;
  decode_failures = 48;
  consecutive_fails = 48;
  calibration_tries = 0;
  effects = [];
}

abbrev given_up : IdentitySource Entries
given_up = record failing { downgraded = true }

short-fails : (c : Entries) → (decode entries mem offsets [] c).1 ≡ failed short_window
unfolding decode
short-fails c = refl

no_address-shipped :
    (e : CompactEvent) → e.src_principal_ns_ptr ≡ 1 → compact_shipped_identity_pointer e ≡ true
unfolding compact_shipped_identity_pointer
no_address-shipped e h = rw h

no_address-none :
    (e : CompactEvent) (c : Entries)
    → e.src_ip ≡ 0
    → (decode_compact entries mem (some offsets) e c).1 ≡ none
unfolding decode_compact
no_address-none e c h = rw h

fails_example : (handle_events entries (short ∷ no_address ∷ []) failing).downgraded ≡ true
fails_example =
    handle_events-Fails entries offsets (short ∷ no_address ∷ []) failing refl refl (omega arith)
      (
        (λ c. (short_window, short-fails c)),
        ((no_address-shipped _ refl, λ c. no_address-none _ c refl), tt),
      )
      (omega arith)

-- Without an offset of the destination, as after a calibration, the probe reads it one byte before
-- the ConnectionResult, and the compact event gets a destination that the window does not have.
abbrev calibrated : Offsets
calibrated = record offsets { dst = offset_absent }

abbrev self_and_before : ℤ → ℕ → Option (List ℕ)
self_and_before (pos i) n = bytes_from window i n
self_and_before (negsuc zero) n = bytes_from (0 ∷ window) 0 n
self_and_before (negsuc (suc i)) n = none

calibrated-valid : validate calibrated ≡ none
unfolding validate
calibrated-valid = refl

compact-destination_test :
    (compact_head
      (some calibrated)
      (compact_event (offsets_config calibrated) self_and_before)).dst_ip
    ≡ b'0' ∷ b'.' ∷ b'1' ∷ b'0' ∷ b'.' ∷ b'0' ∷ b'.' ∷ b'0' ∷ []
unfolding compact_head compact_event offsets_config
compact-destination_test = refl

window-destination_test : decode_sock_addr_v4 window calibrated.dst ≡ some none
unfolding decode_sock_addr_v4
window-destination_test = refl

-- The strings of a window: the namespace at 8, 48 and 96, the identity at 40.
abbrev labels : List (ℕ × List ℕ)
labels =
    (8, name) ∷ (40, b'd' ∷ []) ∷ (48, name) ∷ (56, b'a' ∷ []) ∷ (88, b'c' ∷ []) ∷ (96, name) ∷ []

nearest_test : find_nearest_label labels 40 name ≡ some 8
unfolding find_nearest_label
nearest_test = refl

label_example : IsNearest 40 name labels (find_nearest_label labels 40 name)
label_example = find_nearest_label-IsNearest 40 name labels
