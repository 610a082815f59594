-- ===== src/Examples/Modules.antt =====
-- Runs of the theorems on the modules of an agent: the logger 0, the core 1 and its client 2.
use skywalking_rover.Common.{ℕ, ◌≡◌, ◌⊎◌, refl, Bool, true, List, [], ◌∷◌, All, ◌==◌, not}
use skywalking_rover.Boot.{Module, ok, module_map, resolve_dependency}
use skywalking_rover.Boot.Laws.{Resolved, resolve_dependency-Resolved}
use skywalking_rover.Boot.Run.{run, stopped}
use skywalking_rover.Boot.Run.Laws.{FailedRun, completed_calls, run-balanced}

abbrev active_module : ℕ → List ℕ → Module
active_module n required = record { name = n; required_modules = required; is_active = true }

abbrev client : Module
client = active_module 2 (1 ∷ [])

abbrev core : Module
core = active_module 1 (0 ∷ [])

abbrev logger : Module
logger = active_module 0 []

abbrev only_core_fails : ℕ → Bool
only_core_fails n = not (n == 1)

resolve_dependency_test :
    resolve_dependency 0 (client ∷ core ∷ logger ∷ []) ≡ ok (logger ∷ core ∷ client ∷ [])
unfolding resolve_dependency module_map
resolve_dependency_test = refl

resolve_dependency_example :
    Resolved (client ∷ core ∷ logger ∷ []) (resolve_dependency 0 (client ∷ core ∷ logger ∷ []))
resolve_dependency_example = resolve_dependency-Resolved 0 (client ∷ core ∷ logger ∷ [])

run_example :
    (All (λ (n : Module). only_core_fails n.name ≡ true) (logger ∷ core ∷ client ∷ [])
      × (run only_core_fails true (ok (logger ∷ core ∷ client ∷ []))
          ≡ (completed_calls true (logger ∷ core ∷ client ∷ []), stopped)))
    ⊎ FailedRun only_core_fails
        (logger ∷ core ∷ client ∷ [])
        (run only_core_fails true (ok (logger ∷ core ∷ client ∷ [])))
run_example = run-balanced only_core_fails true logger (core ∷ client ∷ [])
