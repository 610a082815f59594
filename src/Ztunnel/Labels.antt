-- ===== src/Ztunnel/Labels.antt =====
-- findNearestLabel and its callers, of pkg/accesslog/collector/ztunnel/ztunnel_offsets.go. The map of
-- the strings that a window holds is a list in the order of their offsets, as sortedOffsets gives it.
pub mod Nearest
use skywalking_rover.Common.{
  ℕ, zero, suc, ◌+◌, ◌-◌, Bool, true, false, ◌&&◌, ◌||◌, not, List, [], ◌∷◌, Option, none, some,
  ltb, leb, ◌==◌, if◌then◌else◌,
}
use skywalking_rover.Ztunnel.Integers.{ℤ, pos}
use skywalking_rover.Ztunnel.Offsets.{offset_absent}

abbrev strings_equal : List ℕ → List ℕ → Bool
strings_equal [] [] = true
strings_equal (x ∷ xs) (y ∷ ys) = x == y && strings_equal xs ys
strings_equal _ _ = false

unfoldable pub distance : (principal off : ℕ) → ℕ
distance principal off = if ltb off principal then principal - off else off - principal

-- What the loop does not pass over: the value outside of the identity.
unfoldable pub is_label : ℕ → List ℕ → ℕ × List ℕ → Bool
is_label principal value e =
    not (leb principal e.0 && ltb e.0 (principal + 24)) && strings_equal e.1 value

-- The better one of an offset and the best one so far, if any.
unfoldable pub closer : ℕ → ℕ → Option ℕ → ℕ
unfolding distance
closer principal off none = off
closer principal off (some best) =
    if ltb (distance principal off) (distance principal best) then off else best

unfoldable pub nearest_from : ℕ → List ℕ → List (ℕ × List ℕ) → Option ℕ → Option ℕ
unfolding is_label closer
nearest_from principal value [] best = best
nearest_from principal value (e ∷ es) best =
    nearest_from principal value es
      (if is_label principal value e then some (closer principal e.0 best) else best)

unfoldable pub find_nearest_label : List (ℕ × List ℕ) → ℕ → List ℕ → Option ℕ
unfolding nearest_from
find_nearest_label strings principal value = nearest_from principal value strings none

-- The results as offsets.
unfoldable pub to_offset : Option ℕ → ℤ
to_offset none = offset_absent
to_offset (some off) = pos off

unfoldable pub find_namespace_label : List (ℕ × List ℕ) → ℕ → List ℕ → ℤ
unfolding find_nearest_label to_offset
find_namespace_label strings principal namespace =
    to_offset (find_nearest_label strings principal namespace)

unfoldable pub find_cluster_label : List (ℕ × List ℕ) → ℕ → List ℕ → ℤ
unfolding find_nearest_label to_offset
find_cluster_label strings principal [] = offset_absent
find_cluster_label strings principal (c ∷ cs) =
    to_offset (find_nearest_label strings principal (c ∷ cs))
