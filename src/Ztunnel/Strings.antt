-- ===== src/Ztunnel/Strings.antt =====
-- The strings of ztunnel's memory, of pkg/accesslog/collector/ztunnel/ztunnel_identity_decode.go. The
-- memory is a parameter `mem`: `mem addr n` is the n bytes at an address, or `none` for an error of
-- ReadAt. The cache is a library's, and an interface.
pub mod RoundTrip
pub mod Cache
use skywalking_rover.Common.{
  ℕ, zero, suc, ◌+◌, ◌/◌, ◌%◌, ◌^◌, Bool, true, false, ◌&&◌, ◌||◌, not, List, [], ◌∷◌, Option, none,
  some, ltb, ◌==◌, if◌then◌else◌, take,
}
use skywalking_rover.Ztunnel.Integers.{little_endian}

-- lru.Cache, with the pointers as keys. Get marks an entry as used, so it changes the cache.
pub record Lru (C : Type 0) : Type 0 where
  pub get : ℕ → C → C × Option (List ℕ)
  pub add : ℕ → List ℕ → C → C

unfoldable pub is_plausible : List ℕ → Bool
is_plausible [] = true
is_plausible (c ∷ cs) = if ltb c 32 || ltb 126 c then false else is_plausible cs

-- The part of decodeArcStr that reads the memory.
unfoldable pub plausible_data : Option (List ℕ) → Option (List ℕ)
unfolding is_plausible
plausible_data none = none
plausible_data (some data') = if is_plausible data' then some data' else none

unfoldable pub data_behind : (ℕ → ℕ → Option (List ℕ)) → ℕ → Option (List ℕ) → Option (List ℕ)
unfolding plausible_data little_endian
data_behind mem ptr none = none
data_behind mem ptr (some header) =
    let len = little_endian (take 8 header) / 2 in
    if len == 0 || ltb 256 len then none else plausible_data (mem ((ptr + 16) % 2 ^ 64) len)

unfoldable pub read_arc_str : (ℕ → ℕ → Option (List ℕ)) → ℕ → Option (List ℕ)
unfolding data_behind
read_arc_str mem ptr = data_behind mem ptr (mem ptr 16)

module _ {C : Type 0} (lru : Lru C) (mem : ℕ → ℕ → Option (List ℕ)) where
  abbrev pub keep : ℕ → C → Option (List ℕ) → C × Option (List ℕ)
  keep ptr c none = (c, none)
  keep ptr c (some s) = (lru.add ptr s c, some s)

  abbrev pub after_get : ℕ → C × Option (List ℕ) → C × Option (List ℕ)
  after_get ptr (c, some v) = (c, some v)
  after_get ptr (c, none) = keep ptr c (read_arc_str mem ptr)

  -- decodeArcStr; `none` is the result false.
  unfoldable pub decode_arc_str : ℕ → C → C × Option (List ℕ)
  unfolding read_arc_str
  decode_arc_str ptr c =
      if ptr == 0
      then (c, some [])
      else if not (ptr % 8 == 0)
      then (c, none)
      else after_get ptr (lru.get ptr c)
