-- ===== src/Connections/Monitor/Recheck.antt =====
-- RecheckAllProcesses of pkg/accesslog/common/connection.go.
use skywalking_rover.Common.{
  ℕ, ◌≡◌, refl, ap, ◌∙◌, Bool, true, false, ◌&&◌, ◌||◌, not, List, [], ◌∷◌, ◌==◌, ==_iff, contains,
  contains-remove, has_key, arith, Bool-cases, inl, inr,
}
use skywalking_rover.Connections.{Process, MonitorFilter}
use skywalking_rover.Connections.Cgroups.{World}
use skywalking_rover.Connections.Cgroups.Counted.{contains-add_key}
use skywalking_rover.Connections.Monitor.{
  ConnectionManager, update_monitor_status_for_process, rebuild_local_ip_with_pid,
  should_monitor_all, drop_one, drop_unmonitored, start_one, start_missing, recheck_all_processes,
}

-- The kernel's calls on the map of monitored processes work.
abbrev pub Updates : World → Type 0
Updates w = (pid : ℕ) → (w.monitor_fails pid ≡ false) × (w.not_monitor_fails pid ≡ false)

same-key : {V : Type 0} (j k : ℕ) (m : List (ℕ × V)) → (j == k) ≡ true → has_key j m ≡ has_key k m
same-key j k m e = ap (λ i. has_key i m) ((==_iff j k).0 e)

same-element : (j k : ℕ) (xs : List ℕ) → (j == k) ≡ true → contains j xs ≡ contains k xs
same-element j k xs e = ap (λ i. contains i xs) ((==_iff j k).0 e)

module _ (w : World) where
  update-keeps :
      (pid : ℕ) (monitor : Bool) (s : ConnectionManager)
      → (update_monitor_status_for_process w pid monitor s).monitoring_processes
        ≡ s.monitoring_processes
  unfolding update_monitor_status_for_process
  update-keeps pid true s = ground (arith, Bool-cases (w.monitor_fails pid))
  update-keeps pid false s = ground (arith, Bool-cases (w.not_monitor_fails pid))

  drop_one-keeps :
      (pid : ℕ) (monitored : Bool) (s : ConnectionManager)
      → (drop_one w pid monitored s).monitoring_processes ≡ s.monitoring_processes
  drop_one-keeps pid true s = refl
  drop_one-keeps pid false s = update-keeps pid false s

  pub drop_unmonitored-keeps :
      (pids : List ℕ) (s : ConnectionManager)
      → (drop_unmonitored w pids s).monitoring_processes ≡ s.monitoring_processes
  unfolding drop_unmonitored
  drop_unmonitored-keeps [] s = refl
  drop_unmonitored-keeps (pid ∷ pids) s =
      drop_unmonitored-keeps pids _ ∙ drop_one-keeps pid (has_key pid s.monitoring_processes) s

  start_one-keeps :
      (pid : ℕ) (there : Bool) (s : ConnectionManager)
      → (start_one w pid there s).monitoring_processes ≡ s.monitoring_processes
  start_one-keeps pid true s = refl
  start_one-keeps pid false s = update-keeps pid true s

  pub start_missing-keeps :
      (in_bpf : List ℕ) (m : List (ℕ × List Process)) (s : ConnectionManager)
      → (start_missing w in_bpf m s).monitoring_processes ≡ s.monitoring_processes
  unfolding start_missing
  start_missing-keeps in_bpf [] s = refl
  start_missing-keeps in_bpf ((pid, ps) ∷ rest) s =
      start_missing-keeps in_bpf rest _ ∙ start_one-keeps pid (contains pid in_bpf) s

module _ (w : World) (works : Updates w) where
  drop_one-map :
      (pid p : ℕ) (monitored : Bool) (s : ConnectionManager)
      → contains p (drop_one w pid monitored s).process_monitor_map
        ≡ (contains p s.process_monitor_map && not (pid == p && not monitored))
  unfolding update_monitor_status_for_process
  drop_one-map pid p true s = ground arith
  drop_one-map pid p false s =
      ground (arith, (works pid).1, contains-remove p pid s.process_monitor_map)

  drop_unmonitored-map :
      (p : ℕ) (pids : List ℕ) (s : ConnectionManager)
      → contains p (drop_unmonitored w pids s).process_monitor_map ≡ (
          contains p s.process_monitor_map
          && not (contains p pids && not (has_key p s.monitoring_processes)))
  unfolding drop_unmonitored
  drop_unmonitored-map p [] s = ground arith
  drop_unmonitored-map p (pid ∷ pids) s =
      let m = s.monitoring_processes in
      let t = drop_one w pid (has_key pid m) s in
      elim (Bool-cases (pid == p)) [
        | inl same ↦ ground (
          arith,
          drop_unmonitored-map p pids t,
          ap (has_key p) (drop_one-keeps w pid (has_key pid m) s),
          drop_one-map pid p (has_key pid m) s,
          same-key pid p m same,
          same,
        )
        | inr other ↦ ground (
          arith,
          drop_unmonitored-map p pids t,
          ap (has_key p) (drop_one-keeps w pid (has_key pid m) s),
          drop_one-map pid p (has_key pid m) s,
          other,
        )
      ]

  start_one-map :
      (pid p : ℕ) (there : Bool) (s : ConnectionManager)
      → contains p (start_one w pid there s).process_monitor_map
        ≡ (contains p s.process_monitor_map || (pid == p && not there))
  unfolding update_monitor_status_for_process
  start_one-map pid p true s = ground arith
  start_one-map pid p false s =
      ground (arith, (works pid).0, contains-add_key p pid s.process_monitor_map)

  start_missing-map :
      (p : ℕ) (in_bpf : List ℕ) (m : List (ℕ × List Process)) (s : ConnectionManager)
      → contains p (start_missing w in_bpf m s).process_monitor_map
        ≡ (contains p s.process_monitor_map || (has_key p m && not (contains p in_bpf)))
  unfolding start_missing
  start_missing-map p in_bpf [] s = ground arith
  start_missing-map p in_bpf ((pid, ps) ∷ rest) s =
      let t = start_one w pid (contains pid in_bpf) s in
      elim (Bool-cases (pid == p)) [
        | inl same ↦ ground (
          arith,
          start_missing-map p in_bpf rest t,
          start_one-map pid p (contains pid in_bpf) s,
          same-element pid p in_bpf same,
          same,
        )
        | inr other ↦ ground (
          arith,
          start_missing-map p in_bpf rest t,
          start_one-map pid p (contains pid in_bpf) s,
          other,
        )
      ]

  -- If the kernel's calls on its map of monitored processes work, then after a recheck the kernel
  -- monitors exactly the processes of the manager, which are those of the finders that the filter
  -- lets through, whatever both had before.
  pub recheck_all_processes-consistent :
      (f : MonitorFilter) (processes : List (ℕ × List Process)) (s : ConnectionManager) (p : ℕ)
      → let t = recheck_all_processes f w processes s in
        (t.monitoring_processes ≡ should_monitor_all f processes [])
        × (contains p t.process_monitor_map ≡ has_key p t.monitoring_processes)
  unfolding recheck_all_processes rebuild_local_ip_with_pid
  recheck_all_processes-consistent f processes s p =
      let m = should_monitor_all f processes [] in
      let u = record s { monitoring_processes = m } in
      let t = drop_unmonitored w s.process_monitor_map u in
      let kept =
        start_missing-keeps w s.process_monitor_map m t
        ∙ drop_unmonitored-keeps w s.process_monitor_map u in
      (
        kept,
        ground (
          arith,
          start_missing-map p s.process_monitor_map m t,
          drop_unmonitored-map p s.process_monitor_map u,
          ap (has_key p) kept,
        ),
      )
