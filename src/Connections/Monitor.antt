-- ===== src/Connections/Monitor.antt =====
-- The monitored processes of pkg/accesslog/common/connection.go. A pid is the number of its 32 bits.
-- The maps of the kernel are sets. What the kernel and the finders answer during an operation is an
-- argument; the calls of the cache of verdicts and of the listeners are kept, the last one
-- first. Locks and debug logs are left out, and an operation is one step.
pub mod Allowlist
pub mod Recheck
pub mod Locals
pub mod Changes
use skywalking_rover.Common.{
  ℕ, Bool, true, false, ◌&&◌, not, List, [], ◌∷◌, ◌++◌, Option, none, some, if◌then◌else◌, contains,
  remove, lookup, erase, put, has_key,
}
use skywalking_rover.Connections.{Process, MonitorFilter, should_include_processes}
use skywalking_rover.Connections.Cgroups.{
  World, Cgroups, add_key, cgroup_ids_of, allow_cgroups, disallow_cgroups,
}

pub data ProcessVerdict : Type 0 where
  verdict_unknown verdict_monitored verdict_approved verdict_rejected : ProcessVerdict

pub data Notice : Type 0 where
  new_process_monitoring process_removed : ℕ → Notice

pub record ConnectionManager : Type 0 where
  pub monitoring_processes : List (ℕ × List Process)
  pub local_ip_with_pid : List (ℕ × ℕ)
  pub process_monitor_map : List ℕ
  pub process_not_monitor_map : List ℕ
  pub cgroup_allowlist_map : List ℕ
  pub allowed_cgroups : List (ℕ × List ℕ)
  pub process_verdicts : List (ℕ × ProcessVerdict)
  pub notices : List Notice

abbrev pub processes_at : Option (List Process) → List Process
processes_at none = []
processes_at (some ps) = ps

-- monitoringProcesses[pid], which is nil for a pid that is not there.
abbrev pub monitoring : ℕ → List (ℕ × List Process) → List Process
monitoring pid m = processes_at (lookup pid m)

abbrev pub cgroups : ConnectionManager → Cgroups
cgroups s = record { allowed = s.allowed_cgroups; allowlist = s.cgroup_allowlist_map }

abbrev pub put_cgroups : Cgroups → ConnectionManager → ConnectionManager
put_cgroups c s = record s { allowed_cgroups = c.allowed; cgroup_allowlist_map = c.allowlist }

unfoldable pub allow_cgroups_of_processes :
    World → ℕ → List Process → ConnectionManager → ConnectionManager
unfolding allow_cgroups cgroup_ids_of
allow_cgroups_of_processes w pid ps s =
    if w.seeds_cgroups
    then put_cgroups (allow_cgroups w pid (cgroup_ids_of w ps) (cgroups s)) s
    else s

unfoldable pub disallow_cgroups_of_processes :
    World → ℕ → List Process → ConnectionManager → ConnectionManager
unfolding disallow_cgroups cgroup_ids_of
disallow_cgroups_of_processes w pid ps s =
    if w.seeds_cgroups
    then put_cgroups (disallow_cgroups w pid (cgroup_ids_of w ps) (cgroups s)) s
    else s

unfoldable pub update_monitor_status_for_process :
    World → ℕ → Bool → ConnectionManager → ConnectionManager
update_monitor_status_for_process w pid true s =
    if w.monitor_fails pid
    then s
    else record s { process_monitor_map = add_key pid s.process_monitor_map }
update_monitor_status_for_process w pid false s =
    if w.not_monitor_fails pid
    then s
    else record s { process_monitor_map = remove pid s.process_monitor_map }

abbrev pub notify : Notice → ConnectionManager → ConnectionManager
notify n s = record s { notices = n ∷ s.notices }

abbrev pub record_process_verdict : ℕ → ProcessVerdict → ConnectionManager → ConnectionManager
record_process_verdict pid v s = record s { process_verdicts = (pid, v) ∷ s.process_verdicts }

-- A later host of the same address replaces the pid.
abbrev pub put_hosts : ℕ → List ℕ → List (ℕ × ℕ) → List (ℕ × ℕ)
put_hosts pid [] m = m
put_hosts pid (host ∷ hosts) m = put_hosts pid hosts (put host pid m)

abbrev pub hosts_of : List Process → List ℕ
hosts_of [] = []
hosts_of (p ∷ ps) = p.expose_hosts ++ hosts_of ps

unfoldable pub put_all_hosts : List (ℕ × List Process) → List (ℕ × ℕ) → List (ℕ × ℕ)
put_all_hosts [] m = m
put_all_hosts ((pid, ps) ∷ rest) m = put_all_hosts rest (put_hosts pid (hosts_of ps) m)

unfoldable pub rebuild_local_ip_with_pid : ConnectionManager → ConnectionManager
unfolding put_all_hosts
rebuild_local_ip_with_pid s = record s {
  local_ip_with_pid = put_all_hosts s.monitoring_processes [];
}

unfoldable pub remove_process : World → ℕ → ConnectionManager → ConnectionManager
unfolding disallow_cgroups_of_processes update_monitor_status_for_process rebuild_local_ip_with_pid
remove_process w pid s =
    let t = disallow_cgroups_of_processes w pid (monitoring pid s.monitoring_processes) s in
    let u =
      update_monitor_status_for_process w pid false
        (record t { monitoring_processes = erase pid t.monitoring_processes }) in
    notify (process_removed pid)
      (rebuild_local_ip_with_pid (record_process_verdict pid verdict_approved u))

unfoldable pub start_monitoring : World → ℕ → List Process → ConnectionManager → ConnectionManager
unfolding allow_cgroups_of_processes update_monitor_status_for_process
start_monitoring w pid ps s =
    let t =
      update_monitor_status_for_process w pid true
        (record s { monitoring_processes = put pid ps s.monitoring_processes }) in
    let u = allow_cgroups_of_processes w pid ps (record_process_verdict pid verdict_monitored t) in
    notify (new_process_monitoring pid)
      (record u { local_ip_with_pid = put_hosts pid (hosts_of ps) u.local_ip_with_pid })

-- AddNewProcess after the filter.
unfoldable pub add_filtered : World → ℕ → List Process → ConnectionManager → ConnectionManager
unfolding remove_process start_monitoring
add_filtered w pid [] s = remove_process w pid s
add_filtered w pid (p ∷ ps) s =
    if has_key pid s.monitoring_processes then s else start_monitoring w pid (p ∷ ps) s

unfoldable pub add_new_process :
    MonitorFilter → World → ℕ → List Process → ConnectionManager → ConnectionManager
unfolding add_filtered
add_new_process f w pid entities s = add_filtered w pid (should_include_processes f entities) s

-- The first loop of RecheckAllProcesses.
abbrev pub put_monitored : ℕ → List Process → List (ℕ × List Process) → List (ℕ × List Process)
put_monitored pid [] m = m
put_monitored pid (p ∷ ps) m = put pid (p ∷ ps) m

unfoldable pub should_monitor_all :
    MonitorFilter → List (ℕ × List Process) → List (ℕ × List Process) → List (ℕ × List Process)
should_monitor_all f [] m = m
should_monitor_all f ((pid, ps) ∷ rest) m =
    should_monitor_all f rest (put_monitored pid (should_include_processes f ps) m)

abbrev pub drop_one : World → ℕ → Bool → ConnectionManager → ConnectionManager
drop_one w pid true s = s
drop_one w pid false s =
    notify (process_removed pid) (update_monitor_status_for_process w pid false s)

abbrev pub start_one : World → ℕ → Bool → ConnectionManager → ConnectionManager
start_one w pid true s = s
start_one w pid false s =
    notify (new_process_monitoring pid) (update_monitor_status_for_process w pid true s)

-- The processes of the kernel that are not monitored.
unfoldable pub drop_unmonitored : World → List ℕ → ConnectionManager → ConnectionManager
unfolding update_monitor_status_for_process
drop_unmonitored w [] s = s
drop_unmonitored w (pid ∷ pids) s =
    drop_unmonitored w pids (drop_one w pid (has_key pid s.monitoring_processes) s)

-- The monitored processes that the kernel did not have.
unfoldable pub start_missing :
    World → (in_bpf : List ℕ) → List (ℕ × List Process) → ConnectionManager → ConnectionManager
unfolding update_monitor_status_for_process
start_missing w in_bpf [] s = s
start_missing w in_bpf ((pid, ps) ∷ rest) s =
    start_missing w in_bpf rest (start_one w pid (contains pid in_bpf) s)

unfoldable pub recheck_all_processes :
    MonitorFilter → World → List (ℕ × List Process) → ConnectionManager → ConnectionManager
unfolding should_monitor_all drop_unmonitored start_missing rebuild_local_ip_with_pid
recheck_all_processes f w processes s =
    let monitored = should_monitor_all f processes [] in
    let t =
      drop_unmonitored w s.process_monitor_map (record s { monitoring_processes = monitored }) in
    rebuild_local_ip_with_pid (start_missing w s.process_monitor_map monitored t)

unfoldable pub reject_process_in_bpf : World → ℕ → ConnectionManager → ConnectionManager
reject_process_in_bpf w pid s =
    if w.has_not_monitor_map && not (w.reject_fails pid)
    then record s { process_not_monitor_map = add_key pid s.process_not_monitor_map }
    else s

-- What a process that the kernel reports turns out to be: a finder registers it, it is gone, or it is
-- there and not wanted.
pub data Executing : Type 0 where
  registered vanished rejected : Executing

unfoldable pub on_new_process_executing :
    World → ℕ → Executing → ConnectionManager → ConnectionManager
unfolding update_monitor_status_for_process reject_process_in_bpf
on_new_process_executing w pid registered s = s
on_new_process_executing w pid vanished s = update_monitor_status_for_process w pid false s
on_new_process_executing w pid rejected s =
    reject_process_in_bpf w pid (
      record_process_verdict pid verdict_rejected (update_monitor_status_for_process w pid false s))

abbrev pub process_is_monitor : ℕ → ConnectionManager → Bool
process_is_monitor pid s = elim (monitoring pid s.monitoring_processes) [
  | [] ↦ false
  | p ∷ ps ↦ true
]

-- ProcessVerdictOf, with what the cache answers for the pid.
abbrev pub verdict_or_unknown : Option ProcessVerdict → ProcessVerdict
verdict_or_unknown none = verdict_unknown
verdict_or_unknown (some v) = v

unfoldable pub process_verdict_of : ℕ → Option ProcessVerdict → ConnectionManager → ProcessVerdict
process_verdict_of pid cached s =
    if process_is_monitor pid s then verdict_monitored else verdict_or_unknown cached

-- What happens to the monitored processes: the calls of the listener, the reports of the kernel, and
-- a process that the kernel itself adds to its map.
pub data Change : Type 0 where
  new_process : World → ℕ → List Process → Change
  process_gone : World → ℕ → Change
  all_processes : World → List (ℕ × List Process) → Change
  process_executing : World → ℕ → Executing → Change
  kernel_adds : ℕ → Change

unfoldable pub run_change : MonitorFilter → Change → ConnectionManager → ConnectionManager
unfolding add_new_process recheck_all_processes on_new_process_executing remove_process
run_change f (new_process w pid ps) s = add_new_process f w pid ps s
run_change f (process_gone w pid) s = remove_process w pid s
run_change f (all_processes w processes) s = recheck_all_processes f w processes s
run_change f (process_executing w pid e) s = on_new_process_executing w pid e s
run_change f (kernel_adds pid) s = record s {
  process_monitor_map = add_key pid s.process_monitor_map;
}

unfoldable pub run_changes : MonitorFilter → List Change → ConnectionManager → ConnectionManager
unfolding run_change
run_changes f [] s = s
run_changes f (c ∷ cs) s = run_changes f cs (run_change f c s)
