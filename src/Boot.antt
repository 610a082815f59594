-- ===== src/Boot.antt =====
-- pkg/boot/module.go: the order in which the modules of the agent start and stop. A module's name
-- is only compared, so a number stands for it. `logger_name` is logger.ModuleName.
pub mod Names
pub mod Order
pub mod Run
pub mod Laws
use skywalking_rover.Common.{
  ℕ, zero, suc, Bool, true, false, ◌||◌, List, [], ◌∷◌, ◌++◌, map, Option, none, some, ◌==◌,
  if◌then◌else◌, length,
}

pub record Module : Type 0 where
  pub name : ℕ
  pub required_modules : List ℕ
  pub is_active : Bool

-- What the resolution keeps: the maps `visited` and the list `orderedModules`.
pub record Resolution : Type 0 where
  pub visited : List ℕ
  pub ordered_modules : List Module

-- A result, the two errors that are returned, a method call on a nil module, or the fuel of the
-- model running out.
pub data Result {ℓ} (A : Type ℓ) : Type ℓ where
  ok : A → Result A
  missing : (name required : ℕ) → Result A
  cyclic : (name : ℕ) → Result A
  fault out_of_fuel : Result A

infixl 5 ◌>>=◌
abbrev pub ◌>>=◌ {ℓ κ} : {A : Type ℓ} {B : Type κ} → Result A → (A → Result B) → Result B
ok a >>= f = f a
missing n r >>= f = missing n r
cyclic n >>= f = cyclic n
fault >>= f = fault
out_of_fuel >>= f = out_of_fuel

-- visited[name], and the search for a name in orderedModules.
unfoldable pub has : ℕ → List ℕ → Bool
has q [] = false
has q (n ∷ ns) = n == q || has q ns

abbrev pub names : List Module → List ℕ
names = map (λ (m : Module). m.name)

unfoldable pub active_modules : List Module → List Module
active_modules [] = []
active_modules (m ∷ ms) = if m.is_active then m ∷ active_modules ms else active_modules ms

-- moduleMap[name]: of two modules with one name the later one.
unfoldable pub module_map : List Module → ℕ → Option Module
module_map [] q = none
module_map (m ∷ ms) q = elim (module_map ms q) [
  | some found ↦ some found
  | none ↦ if m.name == q then some m else none
]

-- sort.Slice with the test that the left module is the logger, for up to twelve modules, where it
-- is an insertion sort: a logger moves all the way to the front.
unfoldable pub logger_first : ℕ → List Module → List Module → List Module
logger_first logger_name sorted [] = sorted
logger_first logger_name sorted (m ∷ ms) =
    logger_first logger_name (if m.name == logger_name then m ∷ sorted else sorted ++ m ∷ []) ms

unfoldable pub check_required : List Module → ℕ → List ℕ → Result (Unit {0})
check_required all name [] = ok tt
check_required all name (q ∷ qs) = elim (module_map all q) [
  | none ↦ missing name q
  | some m ↦ check_required all name qs
]

unfoldable pub check_modules : List Module → List Module → Result (Unit {0})
unfolding check_required
check_modules all [] = ok tt
check_modules all (m ∷ ms) =
    check_required all m.name m.required_modules >>= λ _. check_modules all ms

-- The loop over the required modules. A name that the map lacks gives a nil module, whose Name
-- panics.
unfoldable pub append_required :
    List Module
    → (Module → Resolution → Result Resolution)
    → List ℕ
    → Resolution
    → Result Resolution
append_required all append [] s = ok s
append_required all append (q ∷ qs) s = elim (module_map all q) [
  | none ↦ fault
  | some m ↦ append m s >>= append_required all append qs
]

unfoldable pub append_to_resolve : ℕ → List Module → Module → Resolution → Result Resolution
unfolding has append_required
append_to_resolve zero all mod' s = out_of_fuel
append_to_resolve (suc fuel) all mod' s =
    if has mod'.name s.visited
    then (if has mod'.name (names s.ordered_modules) then ok s else cyclic mod'.name)
    else (append_required all (append_to_resolve fuel all) mod'.required_modules
          (record s { visited = mod'.name ∷ s.visited })
        >>= λ s'. ok (record s' { ordered_modules = s'.ordered_modules ++ mod' ∷ [] }))

unfoldable pub append_modules : ℕ → List Module → List Module → Resolution → Result Resolution
unfolding append_to_resolve
append_modules fuel all [] s = ok s
append_modules fuel all (m ∷ ms) s = append_to_resolve fuel all m s >>= append_modules fuel all ms

abbrev pub unresolved : Resolution
unresolved = record { visited = []; ordered_modules = [] }

-- ResolveDependency of the starter that NewModuleStarter builds. A chain of calls visits a new
-- module at each call, so as many calls as there are modules are enough.
unfoldable pub resolve_dependency : ℕ → List Module → Result (List Module)
unfolding active_modules logger_first check_modules append_modules
resolve_dependency logger_name all =
    let active = logger_first logger_name [] (active_modules all) in
    check_modules all active >>= λ _.
    append_modules (suc (length all)) all active unresolved >>= λ s. ok s.ordered_modules
