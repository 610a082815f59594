-- ===== src/Connections/Monitor/Changes.antt =====
-- What the changes of pkg/accesslog/common/connection.go leave of the monitored processes and their
-- local addresses.
use skywalking_rover.Common.{
  ℕ, ◌≡◌, sym, subst, ◌∙◌, inl, inr, Bool, true, false, ◌&&◌, not, List, [], ◌∷◌, none, lookup,
  erase, put, has_key, lookup-absent, erase-IsUnique, put-IsUnique, arith, Bool-cases, All,
}
use skywalking_rover.Connections.{Process, MonitorFilter, includes, should_include_processes}
use skywalking_rover.Connections.Cgroups.{World}
use skywalking_rover.Connections.Monitor.{
  ConnectionManager, hosts_of, put_hosts, put_all_hosts, should_monitor_all,
  allow_cgroups_of_processes, disallow_cgroups_of_processes, update_monitor_status_for_process,
  rebuild_local_ip_with_pid, remove_process, start_monitoring, add_filtered, add_new_process,
  reject_process_in_bpf, drop_unmonitored, recheck_all_processes, on_new_process_executing,
  Executing, registered, vanished, rejected, Change, new_process, process_gone, all_processes,
  process_executing, kernel_adds, run_change, run_changes,
}
use skywalking_rover.Connections.Monitor.Recheck.{drop_unmonitored-keeps, start_missing-keeps}
use skywalking_rover.Connections.Monitor.Locals.{
  IsSound, Good, put_hosts-Leads, rebuilt-Leads, put-Leads, erase-All, should_include_processes-All,
  should_monitor_all-Good,
}

abbrev pub Sound : MonitorFilter → ConnectionManager → Type 0
Sound f s = IsSound f s.monitoring_processes s.local_ip_with_pid

update-Sound :
    (f : MonitorFilter) (w : World) (pid : ℕ) (monitor : Bool) (s : ConnectionManager)
    → Sound f s
    → Sound f (update_monitor_status_for_process w pid monitor s)
unfolding update_monitor_status_for_process
update-Sound f w pid true s h = elim (Bool-cases (w.monitor_fails pid)) [
  | inl e ↦ rw e h
  | inr e ↦ rw e h
]
update-Sound f w pid false s h = elim (Bool-cases (w.not_monitor_fails pid)) [
  | inl e ↦ rw e h
  | inr e ↦ rw e h
]

rebuilt-IsSound :
    (f : MonitorFilter) (m : List (ℕ × List Process)) → Good f m → IsSound f m (put_all_hosts m [])
rebuilt-IsSound f m (u, a) = (u, a, rebuilt-Leads m u)

remove_process-Sound :
    (f : MonitorFilter) (w : World) (pid : ℕ) (s : ConnectionManager)
    → Sound f s
    → Sound f (remove_process w pid s)
unfolding remove_process disallow_cgroups_of_processes update_monitor_status_for_process
    rebuild_local_ip_with_pid
remove_process-Sound f w pid s (u, a, l) =
    let m = erase pid s.monitoring_processes in
    let after =
      rebuilt-IsSound f m
        (erase-IsUnique pid s.monitoring_processes u, erase-All f pid s.monitoring_processes a) in
    elim (Bool-cases w.seeds_cgroups) [
      | inl e ↦ elim (Bool-cases (w.not_monitor_fails pid)) [
        | inl g ↦ rw (e, g) after
        | inr g ↦ rw (e, g) after
      ]
      | inr e ↦ elim (Bool-cases (w.not_monitor_fails pid)) [
        | inl g ↦ rw (e, g) after
        | inr g ↦ rw (e, g) after
      ]
    ]

start_monitoring-Sound :
    (f : MonitorFilter) (w : World) (pid : ℕ) (p : Process) (ps : List Process)
    (s : ConnectionManager)
    → lookup pid s.monitoring_processes ≡ none
    → All (λ q. includes f q ≡ true) (p ∷ ps)
    → Sound f s
    → Sound f (start_monitoring w pid (p ∷ ps) s)
unfolding start_monitoring allow_cgroups_of_processes update_monitor_status_for_process
start_monitoring-Sound f w pid p ps s fresh i (u, a, l) =
    let m = s.monitoring_processes in
    let after : IsSound f (put pid (p ∷ ps) m)
        (put_hosts pid (hosts_of (p ∷ ps)) s.local_ip_with_pid) =
      (
        put-IsUnique pid (p ∷ ps) m u,
        (i, erase-All f pid m a),
        put_hosts-Leads pid (p ∷ ps) (put pid (p ∷ ps) m) s.local_ip_with_pid (ground arith)
            (put-Leads pid (p ∷ ps) m s.local_ip_with_pid fresh l),
      ) in
    elim (Bool-cases w.seeds_cgroups) [
      | inl e ↦ elim (Bool-cases (w.monitor_fails pid)) [
        | inl g ↦ rw (e, g) after
        | inr g ↦ rw (e, g) after
      ]
      | inr e ↦ elim (Bool-cases (w.monitor_fails pid)) [
        | inl g ↦ rw (e, g) after
        | inr g ↦ rw (e, g) after
      ]
    ]

add_filtered-Sound :
    (f : MonitorFilter) (w : World) (pid : ℕ) (ps : List Process) (s : ConnectionManager)
    → All (λ q. includes f q ≡ true) ps
    → Sound f s
    → Sound f (add_filtered w pid ps s)
unfolding add_filtered
add_filtered-Sound f w pid [] s i h = remove_process-Sound f w pid s h
add_filtered-Sound f w pid (p ∷ ps) s i h = elim (Bool-cases (has_key pid s.monitoring_processes)) [
  | inl e ↦ rw e h
  | inr e ↦
      rw e (start_monitoring-Sound f w pid p ps s (lookup-absent pid s.monitoring_processes e) i h)
]

recheck-Sound :
    (f : MonitorFilter) (w : World) (processes : List (ℕ × List Process)) (s : ConnectionManager)
    → Sound f (recheck_all_processes f w processes s)
unfolding recheck_all_processes rebuild_local_ip_with_pid
recheck-Sound f w processes s =
    let m = should_monitor_all f processes [] in
    let u = record s { monitoring_processes = m } in
    let kept =
      start_missing-keeps w s.process_monitor_map m (drop_unmonitored w s.process_monitor_map u)
      ∙ drop_unmonitored-keeps w s.process_monitor_map u in
    subst (λ k. IsSound f k (put_all_hosts k [])) (sym kept)
      (rebuilt-IsSound f m (should_monitor_all-Good f processes [] (tt, tt)))

executing-Sound :
    (f : MonitorFilter) (w : World) (pid : ℕ) (e : Executing) (s : ConnectionManager)
    → Sound f s
    → Sound f (on_new_process_executing w pid e s)
unfolding on_new_process_executing reject_process_in_bpf
executing-Sound f w pid registered s h = h
executing-Sound f w pid vanished s h = update-Sound f w pid false s h
executing-Sound f w pid rejected s h =
    elim (Bool-cases (w.has_not_monitor_map && not (w.reject_fails pid))) [
      | inl e ↦ rw e (update-Sound f w pid false s h)
      | inr e ↦ rw e (update-Sound f w pid false s h)
    ]

run_change-Sound :
    (f : MonitorFilter) (c : Change) (s : ConnectionManager)
    → Sound f s
    → Sound f (run_change f c s)
unfolding run_change add_new_process
run_change-Sound f (new_process w pid ps) s h =
    add_filtered-Sound f w pid (should_include_processes f ps) s (should_include_processes-All f ps)
      h
run_change-Sound f (process_gone w pid) s h = remove_process-Sound f w pid s h
run_change-Sound f (all_processes w processes) s h = recheck-Sound f w processes s
run_change-Sound f (process_executing w pid e) s h = executing-Sound f w pid e s h
run_change-Sound f (kernel_adds pid) s h = h

-- Whatever is found, gone, rechecked or reported, and whatever the kernel answers, from a manager
-- where this holds (as of an empty one): a monitored pid stands once and has some processes, which
-- the filter lets through, and each local address leads to a monitored process that has it.
pub run_changes-Sound :
    (f : MonitorFilter) (cs : List Change) (s : ConnectionManager)
    → Sound f s
    → Sound f (run_changes f cs s)
unfolding run_changes
run_changes-Sound f [] s h = h
run_changes-Sound f (c ∷ cs) s h =
    run_changes-Sound f cs (run_change f c s) (run_change-Sound f c s h)
