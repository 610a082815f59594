-- ===== src/Boot/Run.antt =====
-- Run of pkg/boot/module.go: the calls that it makes on the modules. What Start of a module returns
-- is a parameter `starts`; the wait for a signal between start and shutdown is left out.
pub mod Laws
use skywalking_rover.Common.{
  ℕ, zero, suc, Bool, true, false, List, [], ◌∷◌, ◌++◌, map, Option, none, some, if◌then◌else◌,
  length, get_elem?,
}
use skywalking_rover.Boot.{Module, Result, ok, missing, cyclic, fault, out_of_fuel}

-- The calls on the modules, by name.
pub data Action : Type 0 where
  start start_failure notify_start_success shutdown : ℕ → Action
  start_up_success_callback : Action

pub data Ending : Type 0 where
  resolve_failure no_active_module stopped : Ending
  start_module_failure : (name : ℕ) → Ending

-- m.startedModules after the loop of the starts, and the module that failed to start.
pub record Started : Type 0 where
  pub actions : List Action
  pub started_modules : List Module
  pub failure : Option ℕ

unfoldable pub start_modules : (ℕ → Bool) → List Module → Started → Started
start_modules starts [] r = r
start_modules starts (m ∷ ms) r =
    if starts m.name
    then start_modules starts ms (record r {
      actions = r.actions ++ start m.name ∷ [];
      started_modules = r.started_modules ++ m ∷ [];
    })
    else record r { actions = r.actions ++ start_failure m.name ∷ []; failure = some m.name }

-- The loop `for i := len - 1; i >= 0; i--`, `k` being i + 1.
unfoldable pub shutdown_from : List Module → ℕ → List Action
shutdown_from ms zero = []
shutdown_from ms (suc i) = elim (get_elem? ms i) [
  | none ↦ []
  | some m ↦ shutdown m.name ∷ shutdown_from ms i
]

unfoldable pub shutdown_modules : List Module → List Action
unfolding shutdown_from
shutdown_modules ms = shutdown_from ms (length ms)

abbrev pub no_starts : Started
no_starts = record { actions = []; started_modules = []; failure = none }

unfoldable pub notify_modules : Bool → List Module → List Action
notify_modules has_callback ms =
    map (λ (m : Module). notify_start_success m.name) ms
    ++ (if has_callback then start_up_success_callback ∷ [] else [])

-- The deferred call of shutdownModules comes last on each path behind it.
unfoldable pub end_run : Bool → Started → List Action × Ending
unfolding shutdown_modules notify_modules
end_run has_callback r = elim r.failure [
  | some name ↦ (r.actions ++ shutdown_modules r.started_modules, start_module_failure name)
  | none ↦ (
    r.actions
        ++ notify_modules has_callback r.started_modules
        ++ shutdown_modules r.started_modules,
    stopped,
  )
]

unfoldable pub run_ordered : (ℕ → Bool) → Bool → List Module → List Action × Ending
unfolding end_run start_modules
run_ordered starts has_callback [] = ([], no_active_module)
run_ordered starts has_callback (m ∷ ms) =
    end_run has_callback (start_modules starts (m ∷ ms) no_starts)

-- Run, from what ResolveDependency returns.
unfoldable pub run : (ℕ → Bool) → Bool → Result (List Module) → List Action × Ending
unfolding run_ordered
run starts has_callback (ok ms) = run_ordered starts has_callback ms
run starts has_callback (missing n r) = ([], resolve_failure)
run starts has_callback (cyclic n) = ([], resolve_failure)
run starts has_callback fault = ([], resolve_failure)
run starts has_callback out_of_fuel = ([], resolve_failure)
