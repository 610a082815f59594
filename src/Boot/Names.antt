-- ===== src/Boot/Names.antt =====
-- Names in lists, as pkg/boot/module.go looks them up.
use skywalking_rover.Common.{
  ℕ, suc, ◌≤◌, ◌<◌, ◌≡◌, refl, ap, ◌∙◌, true, false, ◌||◌, List, [], ◌∷◌, ◌++◌, some, arith, ◌==◌,
  ==_iff, if◌then◌else◌, All, All-map, Bool-cases, Option-cases, inl, inr,
}
use skywalking_rover.Boot.{Module, has, names, module_map}

pub has-append : (q : ℕ) (xs ys : List ℕ) → has q (xs ++ ys) ≡ has q xs || has q ys
unfolding has
has-append q [] ys = refl
has-append q (x ∷ xs) ys = ground (arith, has-append q xs ys)

pub names-append : (ms ns : List Module) → names (ms ++ ns) ≡ names ms ++ names ns
names-append [] ns = refl
names-append (m ∷ ms) ns = ap (◌∷◌ m.name) (names-append ms ns)

pub has-snoc :
    (q : ℕ) (ms : List Module) (m : Module)
    → has q (names (ms ++ m ∷ [])) ≡ has q (names ms) || m.name == q
unfolding has
has-snoc q ms m =
    ap (has q) (names-append ms (m ∷ [])) ∙ has-append q (names ms) (m.name ∷ []) ∙ ground arith

-- A module that is found has the name that was asked for, and is one of the list.
pub module_map-name :
    (all : List Module) (q : ℕ) (m : Module)
    → module_map all q ≡ some m
    → (m.name ≡ q) × (has q (names all) ≡ true)
unfolding module_map has
module_map-name [] q m e = cc
module_map-name (x ∷ xs) q m e = elim (Option-cases (module_map xs q)) [
  | inl absent ↦ ground arith
  | inr (y, found) ↦ ground (arith, module_map-name xs q y found)
]

-- Every module comes after the modules that it requires, and `seen` holds the names before.
abbrev pub OrderedFrom : List ℕ → List Module → Type 0
OrderedFrom seen [] = Unit
OrderedFrom seen (m ∷ ms) =
    All (λ q. has q seen ≡ true) m.required_modules
    × (has m.name seen ≡ false)
    × OrderedFrom (m.name ∷ seen) ms

pub OrderedFrom-snoc :
    (seen : List ℕ) (ms : List Module) (m : Module)
    → OrderedFrom seen ms
    → All (λ q. has q seen || has q (names ms) ≡ true) m.required_modules
    → has m.name seen || has m.name (names ms) ≡ false
    → OrderedFrom seen (ms ++ m ∷ [])
unfolding has
OrderedFrom-snoc seen [] m o r f =
    (All-map _ _ (λ q h. ground arith) m.required_modules r, ground arith, tt)
OrderedFrom-snoc seen (x ∷ xs) m o r f = (
  o.0,
  o.1,
  OrderedFrom-snoc (x.name ∷ seen) xs m o.2 (All-map _ _ (λ q h. ground arith) m.required_modules r)
      (ground arith),
)

-- How many modules have a name that was not visited.
unfoldable pub unvisited : List ℕ → List Module → ℕ
unvisited visited [] = 0
unvisited visited (m ∷ ms) =
    if has m.name visited then unvisited visited ms else suc (unvisited visited ms)

pub unvisited_mono :
    (xs ys : List ℕ) (ms : List Module)
    → ((q : ℕ) → has q xs ≡ true → has q ys ≡ true)
    → unvisited ys ms ≤ unvisited xs ms
unfolding unvisited
unvisited_mono xs ys [] h = omega arith
unvisited_mono xs ys (m ∷ ms) h = ground (arith, h m.name, unvisited_mono xs ys ms h)

pub unvisited-visit :
    (visited : List ℕ) (ms : List Module) (q : ℕ)
    → has q visited ≡ false
    → has q (names ms) ≡ true
    → unvisited (q ∷ visited) ms < unvisited visited ms
unfolding unvisited has
unvisited-visit visited [] q h k = cc
unvisited-visit visited (m ∷ ms) q h k = elim (Bool-cases (m.name == q)) [
  | inl here ↦
      let e : m.name ≡ q = (==_iff m.name q).0 here in
      let f : has m.name visited ≡ false = ap (λ z. has z visited) e ∙ h in
      ground (arith, e, f, unvisited_mono visited (q ∷ visited) ms (λ p o. ground arith))
  | inr there ↦ ground (arith, unvisited-visit visited ms q h)
]
