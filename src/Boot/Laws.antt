-- ===== src/Boot/Laws.antt =====
-- The outcome of ResolveDependency of pkg/boot/module.go.
use skywalking_rover.Common.{
  ℕ, suc, ◌<◌, ◌≡◌, refl, ◌∙◌, true, ◌||◌, List, [], ◌∷◌, ◌++◌, Option, none, some, arith, ◌==◌,
  ==_iff, length, All, Bool-cases, inl, inr, subst,
}
use skywalking_rover.Boot.{
  Module, Resolution, Result, ok, missing, cyclic, fault, out_of_fuel, ◌>>=◌, has, names,
  module_map, append_to_resolve, append_modules, active_modules, logger_first, check_required,
  check_modules, resolve_dependency, unresolved,
}
use skywalking_rover.Boot.Names.{has-snoc, OrderedFrom, unvisited, unvisited_mono}
use skywalking_rover.Boot.Order.{
  Inv, Grows-refl, Post, Post-bind, ordered_names, append_to_resolve-Post,
}

has-active_modules :
    (q : ℕ) (ms : List Module) → has q (names (active_modules ms)) ≡ true → has q (names ms) ≡ true
unfolding has active_modules
has-active_modules q [] h = h
has-active_modules q (m ∷ ms) h = ground (arith, has-active_modules q ms)

has-logger_first :
    (q l : ℕ) (sorted ms : List Module)
    → has q (names (logger_first l sorted ms)) ≡ has q (names sorted) || has q (names ms)
unfolding has logger_first
has-logger_first q l sorted [] = ground arith
has-logger_first q l sorted (m ∷ ms) = elim (Bool-cases (m.name == l)) [
  | inl logger ↦ rw (logger, has-logger_first q l (m ∷ sorted) ms) ground arith
  | inr other ↦
      rw (other, has-logger_first q l (sorted ++ m ∷ []) ms, has-snoc q sorted m) ground arith
]

All-named :
    (ns : List ℕ) (ms : List Module)
    → ((q : ℕ) → has q (names ms) ≡ true → has q ns ≡ true)
    → All (λ (m : Module). has m.name ns ≡ true) ms
unfolding has
All-named ns [] h = tt
All-named ns (m ∷ ms) h = (
  h m.name (ground (arith, (==_iff m.name m.name).1 refl)),
  All-named ns ms (λ q k. h q (ground arith)),
)

All-has :
    (ns ms : List ℕ) → All (λ q. has q ns ≡ true) ms → (q : ℕ) → has q ms ≡ true → has q ns ≡ true
unfolding has
All-has ns [] a q h = cc
All-has ns (m ∷ ms) a q h = elim (Bool-cases (m == q)) [
  | inl here ↦ subst (λ z. has z ns ≡ true) ((==_iff m q).0 here) a.0
  | inr there ↦ All-has ns ms a.1 q (ground arith)
]

append_modules-Post :
    (fuel : ℕ) (all ms : List Module) (s : Resolution)
    → All (λ (m : Module). has m.name (names all) ≡ true) ms
    → Inv s
    → unvisited s.visited all < fuel
    → Post (names ms) s (append_modules fuel all ms s)
unfolding append_modules
append_modules-Post fuel all [] s k i b = (i, Grows-refl s, tt)
append_modules-Post fuel all (m ∷ ms) s k i b =
    Post-bind m.name (names ms) s (append_to_resolve fuel all m s) (append_modules fuel all ms)
      (append_to_resolve-Post all fuel m s k.0 i b)
      (λ s' j g.
        append_modules-Post fuel all ms s' k.1 j
          (ground (arith, unvisited_mono s.visited s'.visited all g.visited)))

unvisited-bound : (all : List Module) → unvisited [] all < suc (length all)
unfolding unvisited has
unvisited-bound [] = omega arith
unvisited-bound (m ∷ ms) = ground (arith, unvisited-bound ms)

unresolved-Inv : Inv unresolved
unfolding has
unresolved-Inv = record { ordered = tt; visits = λ q h. h }

-- What a resolution promises: the ordered modules are in order and contain the active ones.
abbrev pub Resolved : List Module → Result (List Module) → Type 0
Resolved all (ok ms) =
    OrderedFrom [] ms × All (λ (m : Module). has m.name (names ms) ≡ true) (active_modules all)
Resolved all (missing n r) = module_map all r ≡ none
Resolved all (cyclic n) = Unit
Resolved all fault = Unit
Resolved all out_of_fuel = ⊥

finish :
    (all active : List Module) (r : Result Resolution)
    → ((q : ℕ) → has q (names (active_modules all)) ≡ true → has q (names active) ≡ true)
    → Post (names active) unresolved r
    → Resolved all (r >>= λ s. ok s.ordered_modules)
finish all active (ok s) h p = (
  p.0.ordered,
  All-named (ordered_names s) (active_modules all)
      (λ q a. All-has (ordered_names s) (names active) p.2 q (h q a)),
)
finish all active (missing n r) h p = absurd p
finish all active (cyclic n) h p = tt
finish all active fault h p = tt
finish all active out_of_fuel h p = p

-- The checks before the resolution find a name that is not declared, or nothing.
abbrev Checked : List Module → Result (Unit {0}) → Type 0
Checked all (ok u) = Unit
Checked all (missing n r) = module_map all r ≡ none
Checked all (cyclic n) = ⊥
Checked all fault = ⊥
Checked all out_of_fuel = ⊥

bind-Checked :
    (all : List Module) (r s : Result (Unit {0}))
    → Checked all r
    → Checked all s
    → Checked all (r >>= λ (u : Unit {0}). s)
bind-Checked all (ok u) s h k = k
bind-Checked all (missing n r) s h k = h
bind-Checked all (cyclic n) s h k = h
bind-Checked all fault s h k = h
bind-Checked all out_of_fuel s h k = h

check_required-Checked :
    (all : List Module) (n : ℕ) (qs : List ℕ) → Checked all (check_required all n qs)
unfolding check_required
check_required-Checked all n [] = tt
check_required-Checked all n (q ∷ qs) = go (module_map all q) refl (check_required-Checked all n qs)
  where
    go :
        (o : Option Module)
        → module_map all q ≡ o
        → Checked all (check_required all n qs)
        → Checked all (elim o [ none ↦ missing n q | some m ↦ check_required all n qs ])
    go none e h = e
    go (some m) e h = h

check_modules-Checked : (all ms : List Module) → Checked all (check_modules all ms)
unfolding check_modules
check_modules-Checked all [] = tt
check_modules-Checked all (m ∷ ms) =
    bind-Checked all (check_required all m.name m.required_modules) (check_modules all ms)
      (check_required-Checked all m.name m.required_modules) (check_modules-Checked all ms)

bind-Resolved :
    (all : List Module) (r : Result (Unit {0})) (s : Result (List Module))
    → Checked all r
    → Resolved all s
    → Resolved all (r >>= λ (u : Unit {0}). s)
bind-Resolved all (ok u) s h k = k
bind-Resolved all (missing n r) s h k = h
bind-Resolved all (cyclic n) s h k = absurd h
bind-Resolved all fault s h k = absurd h
bind-Resolved all out_of_fuel s h k = absurd h

-- The resolution of any list of modules, whatever they require, comes to an end. When it succeeds,
-- every module stands behind all the modules that it requires, no module stands in the order twice,
-- and every active module is in the order. When it reports a requirement that is missing, no module of
-- that name is declared.
pub resolve_dependency-Resolved :
    (logger_name : ℕ) (all : List Module) → Resolved all (resolve_dependency logger_name all)
unfolding resolve_dependency
resolve_dependency-Resolved l all =
    let active = logger_first l [] (active_modules all) in
    let r = append_modules (suc (length all)) all active unresolved in
    bind-Resolved all (check_modules all active) (r >>= λ s. ok s.ordered_modules)
      (check_modules-Checked all active)
      (finish all active r (λ q h. has-logger_first q l [] (active_modules all) ∙ ground (arith, h))
        (append_modules-Post (suc (length all)) all active unresolved
          (All-named (names all) active (λ q h.
            has-active_modules q all
              (ground (arith, has-logger_first q l [] (active_modules all)))))
          unresolved-Inv (unvisited-bound all)))
