-- ===== src/Examples/Managed.antt =====
-- Runs of the theorems on the manager of the connections: a process with the pid 7 in the cgroup 5,
-- with the address 9, and its connections.
use skywalking_rover.Common.{
  ℕ, ◌≡◌, ◌↔◌, refl, true, false, List, [], ◌∷◌, some, contains, lookup, has_key,
}
use skywalking_rover.Connections.{
  Process, PodContainer, DetectedBy, kubernetes_process, MonitorFilter, should_include_processes,
}
use skywalking_rover.Connections.Cgroups.{World, cgroup_ids_of}
use skywalking_rover.Connections.Monitor.{
  ConnectionManager, Change, new_process, process_gone, all_processes, process_executing,
  kernel_adds, vanished, run_changes, monitoring, recheck_all_processes, should_monitor_all,
  add_new_process, verdict_approved,
}
use skywalking_rover.Connections.Monitor.Allowlist.{run_changes-allowlist}
use skywalking_rover.Connections.Monitor.Recheck.{recheck_all_processes-consistent}
use skywalking_rover.Connections.Monitor.Changes.{Sound, run_changes-Sound}

abbrev container : PodContainer
container = record {
  namespace = b'd' ∷ [];
  pod_name = b'p' ∷ [];
  container_name = b'c' ∷ [];
  cgroup = 5;
}

abbrev detected_process : ℕ → DetectedBy → Process
detected_process pid d = record {
  pid = pid;
  entity = record {
    layer = [];
    service_name = b'a' ∷ b':' ∷ b':' ∷ b's' ∷ [];
    instance_name = [];
    process_name = [];
  };
  detect_process = d;
  expose_hosts = 9 ∷ [];
}

abbrev pub server : ℕ → Process
server pid = detected_process pid (kubernetes_process container)

-- The cluster b is excluded.
abbrev pub some_filter : MonitorFilter
some_filter = record { self_pid = 1; namespaces = []; clusters = (b'b' ∷ []) ∷ [] }

abbrev pub world : World
world = record {
  seeds_cgroups = true;
  has_not_monitor_map = true;
  cgroup_id_by_container = λ c. some c;
  allow_fails = λ k. false;
  disallow_fails = λ k. false;
  monitor_fails = λ k. false;
  not_monitor_fails = λ k. false;
  reject_fails = λ k. false;
}

abbrev pub empty_manager : ConnectionManager
empty_manager = record {
  monitoring_processes = [];
  local_ip_with_pid = [];
  process_monitor_map = [];
  process_not_monitor_map = [];
  cgroup_allowlist_map = [];
  allowed_cgroups = [];
  process_verdicts = [];
  notices = [];
}

-- Two processes of the cgroup, one of them gone again, and one that was not wanted.
abbrev some_changes : List Change
some_changes =
    new_process world 7 (server 7 ∷ [])
    ∷ kernel_adds 8
    ∷ process_executing world 8 vanished
    ∷ new_process world 6 (server 6 ∷ [])
    ∷ new_process world 1 (server 1 ∷ [])
    ∷ process_gone world 6
    ∷ []

changes_test : (run_changes some_filter some_changes empty_manager).cgroup_allowlist_map ≡ 5 ∷ []
unfolding run_changes should_include_processes
changes_test = refl

allowlist_example :
    let m = (run_changes some_filter some_changes empty_manager).monitoring_processes in
    (contains 5 (run_changes some_filter some_changes empty_manager).cgroup_allowlist_map ≡ true)
    ↔ ((p : ℕ) × (contains 5 (cgroup_ids_of world (monitoring p m)) ≡ true))
unfolding cgroup_ids_of
allowlist_example =
    run_changes-allowlist some_filter world some_changes empty_manager 5 (refl, λ id. (refl, refl))
      (refl, (tt, (tt, (refl, (refl, (refl, tt)))))) ((λ g. (refl, refl)), λ g p. refl)

changes_example : Sound some_filter (
    run_changes some_filter
      (all_processes world ((7, server 7 ∷ []) ∷ []) ∷ some_changes)
      empty_manager)
changes_example =
    run_changes-Sound some_filter (all_processes world ((7, server 7 ∷ []) ∷ []) ∷ some_changes)
      empty_manager (tt, tt, λ host pid e. cc)

recheck_example :
    let t = recheck_all_processes some_filter world ((7, server 7 ∷ []) ∷ []) empty_manager in
    (t.monitoring_processes ≡ should_monitor_all some_filter ((7, server 7 ∷ []) ∷ []) [])
    × (contains 7 t.process_monitor_map ≡ has_key 7 t.monitoring_processes)
recheck_example =
    recheck_all_processes-consistent world (λ pid. (refl, refl)) some_filter
      ((7, server 7 ∷ []) ∷ []) empty_manager 7

-- A recheck that drops the process leaves its cgroup in the allowlist, and its address is gone.
recheck_test :
    let t =
      run_changes some_filter
        (new_process world 7 (server 7 ∷ []) ∷ all_processes world [] ∷ [])
        empty_manager in
    (t.cgroup_allowlist_map ≡ 5 ∷ []) × (t.monitoring_processes ≡ []) × (t.local_ip_with_pid ≡ [])
unfolding run_changes should_include_processes
recheck_test = (refl, refl, refl)

-- A process that the filter holds back has its verdict recorded as if it had passed.
verdict_test :
    lookup 1 (add_new_process some_filter world 1 (server 1 ∷ []) empty_manager).process_verdicts
    ≡ some verdict_approved
unfolding add_new_process should_include_processes
verdict_test = refl
