-- ===== src/Examples/Detected.antt =====
-- Runs of the theorems on the processes of one finder, 1: an agent with the pid 7.
use skywalking_rover.Common.{
  ℕ, ◌≡◌, refl, true, false, List, [], ◌∷◌, ◌++◌, All, map, Option, none, some, ◌==◌,
}
use skywalking_rover.Processes.{
  DetectedProcess, ProcessContext, ProcessStorage, ProcessEvent, UploadStatus, report_success,
  ignore, processes_of, sync_all_process_in_finder, construct_new_process_context, operate_add,
  operate_delete,
}
use skywalking_rover.Processes.Sync.{
  AllKept, Accounted, IsGone, refs, sync_all_process_in_finder-AllKept,
}
use skywalking_rover.Processes.Notices.{Tells}
use skywalking_rover.Processes.Report.{Operation, add, report, run_operations}
use skywalking_rover.Processes.Report.Invariant.{AllGood, run_operations-AllGood}

abbrev detected : ℕ → DetectedProcess
detected pid = record {
  pid = pid;
  entity = some (record {
    layer = [];
    service_name = b's' ∷ [];
    instance_name = [];
    process_name = b'p' ∷ [];
  });
}

abbrev no_processes : ProcessStorage
no_processes = record {
  processes = [];
  events = [];
  reported_count = 0;
  properties_report_factor = 10;
  next_ref = 0;
}

abbrev agent : ProcessContext
agent = record {
  ref = 0;
  id = b'i' ∷ [];
  sync_status = report_success;
  detect_process = detected 7;
  detect_type = 1;
}

abbrev one_process : ProcessStorage
one_process = record {
  processes = (1, agent ∷ []) ∷ [];
  events = [];
  reported_count = 0;
  properties_report_factor = 10;
  next_ref = 1;
}

-- The agent is gone, and the process 8 is there twice: it gets two objects.
sync_test :
    map
      (λ (c : ProcessContext). c.ref)
      (processes_of 1
        (sync_all_process_in_finder 1
          (some (detected 8) ∷ none ∷ some (detected 8) ∷ [])
          one_process).processes)
    ≡ 1 ∷ 2 ∷ []
unfolding sync_all_process_in_finder construct_new_process_context
sync_test = refl

sync_events_test :
    map {B = ℕ × List ℕ}
      (λ (e : ProcessEvent). (e.event_pid, refs e.event_processes))
      (sync_all_process_in_finder 1
        (some (detected 8) ∷ none ∷ some (detected 8) ∷ [])
        one_process).events
    ≡ (8, 1 ∷ 2 ∷ []) ∷ (7, 0 ∷ []) ∷ []
unfolding sync_all_process_in_finder construct_new_process_context
sync_events_test = refl

abbrev synced : ProcessStorage
synced =
    sync_all_process_in_finder 1 (some (detected 8) ∷ none ∷ some (detected 7) ∷ []) one_process

sync_example :
    (dead : List ProcessContext) × (added : List ProcessContext) × (es : List ProcessEvent)
    × (fs : List ProcessEvent) × (synced.events ≡ es ++ fs)
    × Tells operate_add added es
    × Tells operate_delete dead fs
    × AllKept (agent ∷ []) added (detected 8 ∷ detected 7 ∷ []) (processes_of 1 synced.processes)
    × Accounted (refs (processes_of 1 synced.processes)) dead (agent ∷ [])
    × All (IsGone (agent ∷ []) (detected 8 ∷ detected 7 ∷ [])) dead
sync_example =
    sync_all_process_in_finder-AllKept 1 (some (detected 8) ∷ none ∷ some (detected 7) ∷ [])
      one_process

-- The backend answers with pids, and the id is the pid.
abbrev parse_pid : ℕ → DetectedProcess → ℕ → List ℕ
parse_pid finder p answer = elim (answer == p.pid) [ true ↦ answer ∷ [] | false ↦ [] ]

abbrev operations : List (Operation ℕ)
operations =
    add 1 (some (detected 7) ∷ some (detected 9) ∷ []) ∷ report (some (7 ∷ [])) ∷ report none ∷ []

abbrev statuses : Option ProcessStorage → List UploadStatus
statuses none = []
statuses (some s) = map (λ (c : ProcessContext). c.sync_status) (processes_of 1 s.processes)

report_test :
    statuses (run_operations parse_pid operations no_processes) ≡ report_success ∷ ignore ∷ []
unfolding run_operations
report_test = refl

operations_example :
    (t : ProcessStorage) × (run_operations parse_pid operations no_processes ≡ some t)
    × AllGood t.processes
operations_example =
    run_operations-AllGood parse_pid operations no_processes ((refl, (refl, tt)), (tt, (tt, tt)))
      refl tt
