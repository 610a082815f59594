-- ===== src/Connections/Monitor/Allowlist.antt =====
-- The allowlist of cgroups and the monitored processes of pkg/accesslog/common/connection.go.
use skywalking_rover.Common.{
  ℕ, ◌≡◌, refl, sym, subst, ◌∙◌, ◌↔◌, Bool, true, false, ◌&&◌, not, List, [], ◌∷◌, none, ◌==◌,
  contains, lookup, erase, put, has_key, lookup-put, lookup-absent, lookup-same, lookup-erase,
  arith, Bool-cases, inl, inr, All,
}
use skywalking_rover.Connections.{Process, MonitorFilter, should_include_processes}
use skywalking_rover.Connections.Cgroups.{
  World, Cgroups, cgroup_ids_of, allow_cgroups, disallow_cgroups,
}
use skywalking_rover.Connections.Cgroups.Counted.{
  has_pid, pids_of, nonempty, Paired, allow_cgroups-has_pid, disallow_cgroups-has_pid,
  allow_cgroups-Paired, disallow_cgroups-Paired,
}
use skywalking_rover.Connections.Monitor.{
  ConnectionManager, monitoring, cgroups, allow_cgroups_of_processes, disallow_cgroups_of_processes,
  update_monitor_status_for_process, rebuild_local_ip_with_pid, remove_process, start_monitoring,
  add_filtered, add_new_process, reject_process_in_bpf, on_new_process_executing, Executing,
  registered, vanished, rejected, Change, new_process, process_gone, all_processes,
  process_executing, kernel_adds, run_change, run_changes,
}

-- The kernel's calls on the allowlist work.
abbrev pub IsWorking : World → Type 0
IsWorking w =
    (w.seeds_cgroups ≡ true)
    × ((id : ℕ) → (w.allow_fails id ≡ false) × (w.disallow_fails id ≡ false))

-- The pids of an allowed cgroup are those of the monitored processes in it, and the kernel has the
-- cgroups with a pid.
abbrev pub Exact : World → List (ℕ × List Process) → Cgroups → Type 0
Exact w m c =
    Paired c × ((g p : ℕ) → has_pid g p c.allowed ≡ contains g (cgroup_ids_of w (monitoring p m)))

allow-Exact :
    (w : World) (pid : ℕ) (ps : List Process) (m : List (ℕ × List Process)) (c : Cgroups)
    → IsWorking w
    → lookup pid m ≡ none
    → Exact w m c
    → Exact w (put pid ps m) (allow_cgroups w pid (cgroup_ids_of w ps) c)
unfolding cgroup_ids_of
allow-Exact w pid ps m c (seeds, works) fresh (paired, count) = (
  allow_cgroups-Paired w pid (cgroup_ids_of w ps) c paired,
  λ g p. elim (Bool-cases (pid == p)) [
    | inl same ↦ ground (
      arith,
      allow_cgroups-has_pid w pid g p (cgroup_ids_of w ps) c (λ id. (works id).0),
      count g p,
      lookup-same pid p m same,
      lookup-put p pid ps m,
      same,
      fresh,
    )
    | inr other ↦ ground (
      arith,
      allow_cgroups-has_pid w pid g p (cgroup_ids_of w ps) c (λ id. (works id).0),
      count g p,
      lookup-put p pid ps m,
      other,
    )
  ],
)

disallow-Exact :
    (w : World) (pid : ℕ) (m : List (ℕ × List Process)) (c : Cgroups)
    → IsWorking w
    → Exact w m c
    → Exact w (erase pid m) (disallow_cgroups w pid (cgroup_ids_of w (monitoring pid m)) c)
unfolding cgroup_ids_of
disallow-Exact w pid m c (seeds, works) (paired, count) = (
  disallow_cgroups-Paired w pid (cgroup_ids_of w (monitoring pid m)) c (λ id. (works id).1) paired,
  λ g p. elim (Bool-cases (pid == p)) [
    | inl same ↦ ground (
      arith,
      disallow_cgroups-has_pid w pid g p (cgroup_ids_of w (monitoring pid m)) c,
      count g p,
      lookup-same pid p m same,
      lookup-erase p pid m,
      same,
    )
    | inr other ↦ ground (
      arith,
      disallow_cgroups-has_pid w pid g p (cgroup_ids_of w (monitoring pid m)) c,
      count g p,
      lookup-erase p pid m,
      other,
    )
  ],
)

abbrev pub Tracked : World → ConnectionManager → Type 0
Tracked w s = Exact w s.monitoring_processes (cgroups s)

update-Tracked :
    (v w : World) (pid : ℕ) (monitor : Bool) (s : ConnectionManager)
    → Tracked w s
    → Tracked w (update_monitor_status_for_process v pid monitor s)
unfolding update_monitor_status_for_process
update-Tracked v w pid true s h = elim (Bool-cases (v.monitor_fails pid)) [
  | inl e ↦ rw e h
  | inr e ↦ rw e h
]
update-Tracked v w pid false s h = elim (Bool-cases (v.not_monitor_fails pid)) [
  | inl e ↦ rw e h
  | inr e ↦ rw e h
]

remove_process-Tracked :
    (w : World) (pid : ℕ) (s : ConnectionManager)
    → IsWorking w
    → Tracked w s
    → Tracked w (remove_process w pid s)
unfolding remove_process disallow_cgroups_of_processes rebuild_local_ip_with_pid
remove_process-Tracked w pid s works h = rw works.0 (
    update-Tracked w w pid false _
      (disallow-Exact w pid s.monitoring_processes (cgroups s) works h))

start_monitoring-Tracked :
    (w : World) (pid : ℕ) (ps : List Process) (s : ConnectionManager)
    → IsWorking w
    → lookup pid s.monitoring_processes ≡ none
    → Tracked w s
    → Tracked w (start_monitoring w pid ps s)
unfolding start_monitoring allow_cgroups_of_processes
start_monitoring-Tracked w pid ps s works fresh h =
    let later = allow-Exact w pid ps s.monitoring_processes (cgroups s) works fresh h in
    elim (Bool-cases (w.monitor_fails pid)) [
      | inl e ↦ rw (e, works.0) later
      | inr e ↦ rw (e, works.0) later
    ]

add_filtered-Tracked :
    (w : World) (pid : ℕ) (ps : List Process) (s : ConnectionManager)
    → IsWorking w
    → Tracked w s
    → Tracked w (add_filtered w pid ps s)
unfolding add_filtered
add_filtered-Tracked w pid [] s works h = remove_process-Tracked w pid s works h
add_filtered-Tracked w pid (p ∷ ps) s works h =
    elim (Bool-cases (has_key pid s.monitoring_processes)) [
      | inl e ↦ rw e h
      | inr e ↦ rw e (
          start_monitoring-Tracked w pid (p ∷ ps) s works
            (lookup-absent pid s.monitoring_processes e) h)
    ]

executing-Tracked :
    (v w : World) (pid : ℕ) (e : Executing) (s : ConnectionManager)
    → Tracked w s
    → Tracked w (on_new_process_executing v pid e s)
unfolding on_new_process_executing reject_process_in_bpf
executing-Tracked v w pid registered s h = h
executing-Tracked v w pid vanished s h = update-Tracked v w pid false s h
executing-Tracked v w pid rejected s h =
    elim (Bool-cases (v.has_not_monitor_map && not (v.reject_fails pid))) [
      | inl e ↦ rw e (update-Tracked v w pid false s h)
      | inr e ↦ rw e (update-Tracked v w pid false s h)
    ]

-- A change other than a recheck, where the kernel and the finders answer by `w`.
abbrev pub Answers : World → Change → Type 0
Answers w (new_process v pid ps) = v ≡ w
Answers w (process_gone v pid) = v ≡ w
Answers w (all_processes v processes) = ⊥
Answers w (process_executing v pid e) = Unit
Answers w (kernel_adds pid) = Unit

run_change-Tracked :
    (f : MonitorFilter) (w : World) (c : Change) (s : ConnectionManager)
    → IsWorking w
    → Answers w c
    → Tracked w s
    → Tracked w (run_change f c s)
unfolding run_change add_new_process
run_change-Tracked f w (new_process v pid ps) s works e h =
    subst (λ u. Tracked w (add_filtered u pid (should_include_processes f ps) s)) (sym e)
      (add_filtered-Tracked w pid (should_include_processes f ps) s works h)
run_change-Tracked f w (process_gone v pid) s works e h =
    subst (λ u. Tracked w (remove_process u pid s)) (sym e) (remove_process-Tracked w pid s works h)
run_change-Tracked f w (all_processes v processes) s works e h = absurd e
run_change-Tracked f w (process_executing v pid x) s works e h = executing-Tracked v w pid x s h
run_change-Tracked f w (kernel_adds pid) s works e h = h

run_changes-Tracked :
    (f : MonitorFilter) (w : World) (cs : List Change) (s : ConnectionManager)
    → IsWorking w
    → All (Answers w) cs
    → Tracked w s
    → Tracked w (run_changes f cs s)
unfolding run_changes
run_changes-Tracked f w [] s works a h = h
run_changes-Tracked f w (c ∷ cs) s works (e, a) h =
    run_changes-Tracked f w cs (run_change f c s) works a (run_change-Tracked f w c s works e h)

contains-nonempty : (p : ℕ) (xs : List ℕ) → contains p xs ≡ true → nonempty xs ≡ true
contains-nonempty p [] e = cc
contains-nonempty p (x ∷ xs) e = refl

a_pid : (xs : List ℕ) → nonempty xs ≡ true → (p : ℕ) × (contains p xs ≡ true)
a_pid [] e = cc
a_pid (x ∷ xs) e = (x, ground arith)

-- If the kernel's calls on the allowlist work and a container keeps its cgroup, then after any
-- processes that are found, gone or reported by the kernel, but no recheck, from a manager that is
-- tracked (as an empty one is): the kernel has a cgroup in its allowlist if some monitored process is
-- in it, whatever other processes of the cgroup are gone, and only then.
pub run_changes-allowlist :
    (f : MonitorFilter) (w : World) (cs : List Change) (s : ConnectionManager) (g : ℕ)
    → IsWorking w
    → All (Answers w) cs
    → Tracked w s
    → let m = (run_changes f cs s).monitoring_processes in
      (contains g (run_changes f cs s).cgroup_allowlist_map ≡ true)
      ↔ ((p : ℕ) × (contains g (cgroup_ids_of w (monitoring p m)) ≡ true))
run_changes-allowlist f w cs s g works a h =
    let t = run_changes f cs s in
    let (paired, count) = run_changes-Tracked f w cs s works a h in
    let here : contains g t.cgroup_allowlist_map ≡ nonempty (pids_of (lookup g t.allowed_cgroups)) =
      (paired g).0 ∙ (paired g).1 in
    (
      λ e.
          let (p, i) = a_pid (pids_of (lookup g t.allowed_cgroups)) (sym here ∙ e) in
          (p, sym (count g p) ∙ i),
      λ found.
          here
          ∙ contains-nonempty found.0 (pids_of (lookup g t.allowed_cgroups))
              (count g found.0 ∙ found.1),
    )
