-- ===== src/Common/Maps.antt =====
-- Maps with numbers as keys, as association lists: Go's maps, and the hash maps of the kernel.
use Prim.Native.Nat.{ℕ}
use mathlib.Core.Path.{◌≡◌, refl, ap, sym}
use mathlib.Core.Logic.{inl, inr}
use mathlib.Core.Bool.{Bool, true, false, ◌&&◌, ◌||◌, not}
use mathlib.Core.List.{List, [], ◌∷◌}
use mathlib.Core.Option.{Option, none, some}
use native.Mathlib.Omega.{arith}
use skywalking_rover.Common.Lists.{All, All-map}
use skywalking_rover.Common.Tests.{◌==◌, ==_iff, if◌then◌else◌, Bool-cases, Option-cases}

-- Sets of numbers.
abbrev pub contains : ℕ → List ℕ → Bool
contains k [] = false
contains k (x ∷ xs) = x == k || contains k xs

abbrev pub remove : ℕ → List ℕ → List ℕ
remove k [] = []
remove k (x ∷ xs) = let rest = remove k xs in if x == k then rest else x ∷ rest

pub contains-remove :
    (j k : ℕ) (xs : List ℕ) → contains j (remove k xs) ≡ (contains j xs && not (k == j))
contains-remove j k [] = refl
contains-remove j k (x ∷ xs) = ground (arith, contains-remove j k xs)

module _ {ℓ} {V : Type ℓ} where
  abbrev pub lookup : ℕ → List (ℕ × V) → Option V
  lookup k [] = none
  lookup k ((j, v) ∷ m) = let rest = lookup k m in if j == k then some v else rest

  abbrev pub erase : ℕ → List (ℕ × V) → List (ℕ × V)
  erase k [] = []
  erase k ((j, v) ∷ m) = let rest = erase k m in if j == k then rest else (j, v) ∷ rest

  abbrev pub put : ℕ → V → List (ℕ × V) → List (ℕ × V)
  put k v m = (k, v) ∷ erase k m

  pub lookup-erase :
      (j k : ℕ) (m : List (ℕ × V)) → lookup j (erase k m) ≡ (if k == j then none else lookup j m)
  lookup-erase j k [] = ground arith
  lookup-erase j k ((i, v) ∷ m) = ground (arith, lookup-erase j k m)

  pub lookup-put :
      (j k : ℕ) (v : V) (m : List (ℕ × V))
      → lookup j (put k v m) ≡ (if k == j then some v else lookup j m)
  lookup-put j k v m = ground (arith, lookup-erase j k m)

  abbrev pub has_key : ℕ → List (ℕ × V) → Bool
  has_key k m = elim (lookup k m) [ none ↦ false | some v ↦ true ]

  -- A key stands once, as in a map, so an iteration gives each key with its value.
  abbrev pub IsUnique : List (ℕ × V) → Type ℓ
  IsUnique [] = Unit
  IsUnique ((k, v) ∷ m) = (lookup k m ≡ none) × IsUnique m

  pub erase-IsUnique : (k : ℕ) (m : List (ℕ × V)) → IsUnique m → IsUnique (erase k m)
  erase-IsUnique k [] u = u
  erase-IsUnique k ((j, v) ∷ m) (h, u) = elim (Bool-cases (j == k)) [
    | inl e ↦ rw e (erase-IsUnique k m u)
    | inr e ↦ rw e (ground (arith, lookup-erase j k m, e, h), erase-IsUnique k m u)
  ]

  pub put-IsUnique : (k : ℕ) (v : V) (m : List (ℕ × V)) → IsUnique m → IsUnique (put k v m)
  put-IsUnique k v m u = (ground (arith, lookup-erase k k m), erase-IsUnique k m u)

  pub lookup-later :
      (k : ℕ) (v : V) (m : List (ℕ × V)) (e : ℕ × V)
      → lookup k m ≡ none
      → lookup e.0 m ≡ some e.1
      → lookup e.0 ((k, v) ∷ m) ≡ some e.1
  lookup-later k v m (j, w) h e = elim (Bool-cases (k == j)) [
    | inl same ↦ absurd (cc (ap (λ i. lookup i m) ((==_iff k j).0 same), h, e))
    | inr other ↦ rw other e
  ]

  pub lookup-All : (m : List (ℕ × V)) → IsUnique m → All (λ e. lookup e.0 m ≡ some e.1) m
  lookup-All [] u = u
  lookup-All ((k, v) ∷ m) (h, u) =
      (ground arith, All-map _ _ (λ e. lookup-later k v m e h) m (lookup-All m u))

  pub lookup-same : (j k : ℕ) (m : List (ℕ × V)) → (j == k) ≡ true → lookup k m ≡ lookup j m
  lookup-same j k m e = ap (λ i. lookup i m) (sym ((==_iff j k).0 e))

  pub lookup-absent : (k : ℕ) (m : List (ℕ × V)) → has_key k m ≡ false → lookup k m ≡ none
  lookup-absent k m h = elim (Option-cases (lookup k m)) [
    | inl e ↦ e
    | inr (v, e) ↦ absurd (ground (arith, h, e))
  ]
