-- ===== src/Ztunnel/Strings/RoundTrip.antt =====
-- decodeArcStr of pkg/accesslog/collector/ztunnel/ztunnel_identity_decode.go against the layout of
-- an ArcStr, which a comment of that file describes.
use skywalking_rover.Common.{
  ℕ, zero, suc, ◌+◌, ◌*◌, ◌/◌, ◌%◌, ◌^◌, ◌≤◌, ◌<◌, ◌≡◌, refl, ap, subst, ◌∙◌, true, false, List, [],
  ◌∷◌, ◌++◌, Option, none, some, arith, ltb, ◌==◌, length, take, drop, length-append,
  take-length_le, drop-length_le, drop-append_le, All,
}
use native.Mathlib.Omega.{pow_step}
use skywalking_rover.Ztunnel.Integers.{little_endian}
use skywalking_rover.Ztunnel.Strings.{
  Lru, is_plausible, plausible_data, data_behind, read_arc_str, decode_arc_str, after_get,
}

-- The lowest k bytes of a number.
unfoldable pub to_bytes : ℕ → ℕ → List ℕ
to_bytes zero n = []
to_bytes (suc k) n = n % 256 ∷ to_bytes k (n / 256)

length-to_bytes : (k n : ℕ) → length (to_bytes k n) ≡ k
unfolding to_bytes
length-to_bytes zero n = refl
length-to_bytes (suc k) n = ap suc (length-to_bytes k (n / 256))

little_endian-to_bytes : (k n : ℕ) → n < 256 ^ k → little_endian (to_bytes k n) ≡ n
unfolding to_bytes little_endian
little_endian-to_bytes zero n h = omega arith
little_endian-to_bytes (suc k) n h =
    let step : 256 ^ suc k ≡ 256 * 256 ^ k = pow_step 256 k in
    let less : n / 256 < 256 ^ k = omega arith in
    omega (arith, little_endian-to_bytes k (n / 256) less)

-- The bytes of an ArcStr: length and flag, the counter, and the string.
unfoldable pub arc_str : (flag : ℕ) (counter s : List ℕ) → List ℕ
unfolding to_bytes
arc_str flag counter s = to_bytes 8 (2 * length s + flag) ++ counter ++ s

-- The memory holds some bytes from an address on.
abbrev pub HoldsAt : (ℕ → ℕ → Option (List ℕ)) → ℕ → List ℕ → Type 0
HoldsAt mem ptr bs =
    (i n : ℕ) → i + n ≤ length bs → mem ((ptr + i) % 2 ^ 64) n ≡ some (take n (drop i bs))

abbrev pub IsPrintable : ℕ → Type 0
IsPrintable c = (32 ≤ c) × (c ≤ 126)

is_plausible-IsPrintable : (s : List ℕ) → All IsPrintable s → is_plausible s ≡ true
unfolding is_plausible
is_plausible-IsPrintable [] h = refl
is_plausible-IsPrintable (c ∷ cs) h =
    let (l, u) = h.0 in
    let low : ltb c 32 ≡ false = ground arith in
    let up : ltb 126 c ≡ false = ground arith in rw (low, up) (is_plausible-IsPrintable cs h.1)

module _ (mem : ℕ → ℕ → Option (List ℕ)) (ptr flag : ℕ) (counter s : List ℕ) (one : flag ≤ 1)
    (eight : length counter ≡ 8) (some_byte : 0 < length s) (bound : length s ≤ 256)
    (printable : All IsPrintable s) (inside : ptr + 16 + length s ≤ 2 ^ 64)
    (holds : HoldsAt mem ptr (arc_str flag counter s)) where
  length-arc_str : length (arc_str flag counter s) ≡ 16 + length s
  unfolding arc_str
  length-arc_str =
      length-append (to_bytes 8 (2 * length s + flag)) (counter ++ s)
      ∙ omega (arith, length-to_bytes 8 (2 * length s + flag), length-append counter s)

  header-little_endian : little_endian (take 8 (take 16 (arc_str flag counter s))) / 2 ≡ length s
  unfolding arc_str to_bytes
  header-little_endian =
      let e : little_endian (take 8 (take 16 (arc_str flag counter s))) ≡ 2 * length s + flag =
        little_endian-to_bytes 8 (2 * length s + flag) (omega arith) in
      omega arith

  data-arc_str : take (length s) (drop 16 (arc_str flag counter s)) ≡ s
  unfolding arc_str to_bytes
  data-arc_str =
      ap (take (length s)) (
        drop-append_le 8 counter s (omega arith)
        ∙ ap (λ l. l ++ s) (drop-length_le 8 counter (omega arith)))
      ∙ take-length_le (length s) s (omega arith)

  read_arc_str-arc_str : read_arc_str mem ptr ≡ some s
  unfolding read_arc_str data_behind plausible_data
  read_arc_str-arc_str =
      let len = length-arc_str in
      let here : (ptr + 0) % 2 ^ 64 ≡ ptr = omega arith in
      let header : mem ptr 16 ≡ some (take 16 (arc_str flag counter s)) =
        subst (λ p. mem p 16 ≡ some (take 16 (arc_str flag counter s))) here
          (holds 0 16 (omega arith)) in
      let content : mem ((ptr + 16) % 2 ^ 64) (length s) ≡ some s =
        holds 16 (length s) (omega arith) ∙ ap some data-arc_str in
      let positive : (length s == 0) ≡ false = ground arith in
      let short : ltb 256 (length s) ≡ false = ground arith in
      rw (
        header,
        header-little_endian,
        positive,
        short,
        content,
        is_plausible-IsPrintable s printable,
      )

  after_get_lem :
      {C : Type 0} (lru : Lru C) (r : C × Option (List ℕ))
      → r.1 ≡ none
      → after_get lru mem ptr r ≡ (lru.add ptr s r.0, some s)
  after_get_lem lru (c, none) miss = rw read_arc_str-arc_str
  after_get_lem lru (c, some v) miss = cc

  -- If the memory holds an ArcStr at an aligned pointer that is not 0, with a string of 1 to 256
  -- printable bytes, and the cache has nothing for the pointer, then decodeArcStr returns that
  -- string, whatever the flag and the counter are, and adds it to the cache.
  pub decode_arc_str-arc_str :
      {C : Type 0} (lru : Lru C) (c : C)
      → 0 < ptr
      → ptr % 8 ≡ 0
      → (lru.get ptr c).1 ≡ none
      → decode_arc_str lru mem ptr c ≡ (lru.add ptr s (lru.get ptr c).0, some s)
  unfolding decode_arc_str
  decode_arc_str-arc_str lru c nonzero aligned miss =
      let positive : (ptr == 0) ≡ false = ground arith in
      let even : (ptr % 8 == 0) ≡ true = ground arith in
      rw (positive, even) (after_get_lem lru (lru.get ptr c) miss)
