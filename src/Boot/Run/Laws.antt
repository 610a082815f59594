-- ===== src/Boot/Run/Laws.antt =====
-- Run of pkg/boot/module.go shuts down what it started, in the opposite order.
use skywalking_rover.Common.{
  ℕ, zero, suc, ◌≤◌, ◌≡◌, refl, ap, ◌∙◌, Bool, true, false, List, [], ◌∷◌, ◌++◌, map, none, some,
  length, get_elem?, All, append-nil, append_assoc, arith, Bool-cases, Option-cases, inl, inr, ◌⊎◌,
}
use skywalking_rover.Boot.{Module, ok}
use skywalking_rover.Boot.Run.{
  Action, start, start_failure, shutdown, Ending, stopped, start_module_failure, Started,
  start_modules, shutdown_from, shutdown_modules, no_starts, notify_modules, end_run, run_ordered,
  run,
}

-- The calls of Shutdown for `ms`, the last module first.
unfoldable pub shutdowns : List Module → List Action
shutdowns [] = []
shutdowns (m ∷ ms) = shutdowns ms ++ shutdown m.name ∷ []

abbrev pub starts_of : List Module → List Action
starts_of ms = map (λ (m : Module). start m.name) ms

get_elem?-none : (ms : List Module) (k : ℕ) → get_elem? ms k ≡ none → suc k ≤ length ms → ⊥
get_elem?-none [] k e b = absurd (omega arith)
get_elem?-none (m ∷ ms) zero e b = cc
get_elem?-none (m ∷ ms) (suc k) e b = get_elem?-none ms k e (omega arith)

shutdown_from-suc :
    (m : Module) (ms : List Module) (k : ℕ)
    → k ≤ length ms
    → shutdown_from (m ∷ ms) (suc k) ≡ shutdown_from ms k ++ shutdown m.name ∷ []
unfolding shutdown_from
shutdown_from-suc m ms zero b = refl
shutdown_from-suc m ms (suc k) b = elim (Option-cases (get_elem? ms k)) [
  | inl out ↦ absurd (get_elem?-none ms k out b)
  | inr (n, at) ↦
      rw (at, shutdown_from)
        (ap (λ z. shutdown n.name ∷ z) (shutdown_from-suc m ms k (omega arith)))
]

shutdown_modules-shutdowns : (ms : List Module) → shutdown_modules ms ≡ shutdowns ms
unfolding shutdown_modules shutdown_from shutdowns
shutdown_modules-shutdowns [] = refl
shutdown_modules-shutdowns (m ∷ ms) =
    shutdown_from-suc m ms (length ms) (omega arith)
    ∙ ap (λ z. z ++ shutdown m.name ∷ []) (shutdown_modules-shutdowns ms)

-- The started modules and the first one that fails, or all.
record Stopped (starts : ℕ → Bool) (ms : List Module) (r s : Started) : Type 0 where
  before : List Module
  failed : Module
  behind : List Module
  splits : ms ≡ before ++ failed ∷ behind
  start_all : All (λ (m : Module). starts m.name ≡ true) before
  fails : starts failed.name ≡ false
  result : s ≡ record {
    actions = r.actions ++ starts_of before ++ start_failure failed.name ∷ [];
    started_modules = r.started_modules ++ before;
    failure = some failed.name;
  }

record Completed (starts : ℕ → Bool) (ms : List Module) (r s : Started) : Type 0 where
  start_all : All (λ (m : Module). starts m.name ≡ true) ms
  result : s ≡ record {
    actions = r.actions ++ starts_of ms;
    started_modules = r.started_modules ++ ms;
    failure = r.failure;
  }

start_modules-cases :
    (starts : ℕ → Bool) (ms : List Module) (r : Started)
    → Completed starts ms r (start_modules starts ms r)
      ⊎ Stopped starts ms r (start_modules starts ms r)
unfolding start_modules
start_modules-cases starts [] r = inl record { start_all = tt; result = simp append-nil }
start_modules-cases starts (m ∷ ms) r = elim (Bool-cases (starts m.name)) [
  | inl started ↦
      rw started
        (elim (start_modules-cases starts ms (record r {
          actions = r.actions ++ start m.name ∷ [];
          started_modules = r.started_modules ++ m ∷ [];
        })) [
          | inl done ↦ inl record {
            start_all = (started, done.start_all);
            result = done.result ∙ simp append_assoc;
          }
          | inr stop ↦ inr record {
            before = m ∷ stop.before;
            failed = stop.failed;
            behind = stop.behind;
            splits = ap (◌∷◌ m) stop.splits;
            start_all = (started, stop.start_all);
            fails = stop.fails;
            result = stop.result ∙ simp append_assoc;
          }
        ])
  | inr failed ↦ rw failed (
      inr record {
        before = [];
        failed = m;
        behind = ms;
        splits = refl;
        start_all = tt;
        fails = failed;
        result = simp append-nil;
      })
]

-- The calls of a run whose modules all start.
abbrev pub completed_calls : Bool → List Module → List Action
completed_calls has_callback ms = starts_of ms ++ notify_modules has_callback ms ++ shutdowns ms

-- The calls of a run in which `failed` does not start behind `before`.
abbrev pub failed_calls : List Module → Module → List Action
failed_calls before failed = starts_of before ++ start_failure failed.name ∷ shutdowns before

end_run-completed :
    (c : Bool) (ms : List Module)
    → end_run c (record { actions = starts_of ms; started_modules = ms; failure = none })
      ≡ (completed_calls c ms, stopped)
unfolding end_run
end_run-completed c ms = simp (append_assoc, shutdown_modules-shutdowns ms)

end_run-failed :
    (c : Bool) (before : List Module) (failed : Module)
    → end_run c (record {
      actions = starts_of before ++ start_failure failed.name ∷ [];
      started_modules = before;
      failure = some failed.name;
    })
      ≡ (failed_calls before failed, start_module_failure failed.name)
unfolding end_run
end_run-failed c before failed = simp (append_assoc, shutdown_modules-shutdowns before)

pub record FailedRun (starts : ℕ → Bool) (ms : List Module) (r : List Action × Ending)
    : Type 0 where
  before : List Module
  failed : Module
  behind : List Module
  splits : ms ≡ before ++ failed ∷ behind
  start_all : All (λ (m : Module). starts m.name ≡ true) before
  fails : starts failed.name ≡ false
  result : r ≡ (failed_calls before failed, start_module_failure failed.name)

-- A run of modules of which at least one was ordered. If all start, they start in the order of the
-- list, are all told of it, then the callback is called if there is one, and when the run stops
-- they are shut down from the last to the first. If one does not start, the modules behind it are
-- not started, exactly the modules before it are shut down, from the last to the first, and the run
-- ends with the error of that module.
pub run-balanced :
    (starts : ℕ → Bool) (has_callback : Bool) (m : Module) (ms : List Module)
    → (All (λ (n : Module). starts n.name ≡ true) (m ∷ ms)
        × (run starts has_callback (ok (m ∷ ms))
            ≡ (completed_calls has_callback (m ∷ ms), stopped)))
      ⊎ FailedRun starts (m ∷ ms) (run starts has_callback (ok (m ∷ ms)))
unfolding run run_ordered end_run
run-balanced starts c m ms = elim (start_modules-cases starts (m ∷ ms) no_starts) [
  | inl done ↦ inl (done.start_all, ap (end_run c) done.result ∙ end_run-completed c (m ∷ ms))
  | inr stop ↦ inr record {
    before = stop.before;
    failed = stop.failed;
    behind = stop.behind;
    splits = stop.splits;
    start_all = stop.start_all;
    fails = stop.fails;
    result = ap (end_run c) stop.result ∙ end_run-failed c stop.before stop.failed;
  }
]
