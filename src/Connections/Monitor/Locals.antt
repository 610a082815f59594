-- ===== src/Connections/Monitor/Locals.antt =====
-- The monitored processes and their local addresses in pkg/accesslog/common/connection.go, whatever
-- the kernel answers.
use skywalking_rover.Common.{
  ℕ, ◌≡◌, refl, sym, ap, subst, ◌∙◌, ◌⊎◌, inl, inr, true, List, [], ◌∷◌, none, some, ◌==◌, contains,
  lookup, erase, put, lookup-put, lookup-same, IsUnique, put-IsUnique, lookup-All, arith,
  Bool-cases, All, some_injective,
}
use skywalking_rover.Connections.{Process, MonitorFilter, includes, should_include_processes}
use skywalking_rover.Connections.Monitor.{
  monitoring, processes_at, hosts_of, put_hosts, put_all_hosts, put_monitored, should_monitor_all,
}

-- Each local address leads to a monitored process that has it.
abbrev pub Leads : List (ℕ × List Process) → List (ℕ × ℕ) → Type 0
Leads m ips =
    (host pid : ℕ) → lookup host ips ≡ some pid → contains host (hosts_of (monitoring pid m)) ≡ true

-- A pid has processes, and the filter lets them through.
abbrev pub IsIncluded : MonitorFilter → ℕ × List Process → Type 0
IsIncluded f (pid, []) = ⊥
IsIncluded f (pid, p ∷ ps) = All (λ q. includes f q ≡ true) (p ∷ ps)

abbrev pub IsSound : MonitorFilter → List (ℕ × List Process) → List (ℕ × ℕ) → Type 0
IsSound f m ips = IsUnique m × All (IsIncluded f) m × Leads m ips

put_hosts-lookup :
    (host pid p : ℕ) (hosts : List ℕ) (ips : List (ℕ × ℕ))
    → lookup host (put_hosts pid hosts ips) ≡ some p
    → ((contains host hosts ≡ true) × (pid ≡ p)) ⊎ (lookup host ips ≡ some p)
put_hosts-lookup host pid p [] ips e = inr e
put_hosts-lookup host pid p (h ∷ hosts) ips e =
    elim (put_hosts-lookup host pid p hosts (put h pid ips) e) [
      | inl (i, same) ↦ inl (ground (arith, i), same)
      | inr later ↦ elim (Bool-cases (h == host)) [
        | inl same ↦ inl (
          ground (arith, same),
          some_injective (sym (lookup-put host h pid ips ∙ rw same refl) ∙ later),
        )
        | inr other ↦ inr (sym (lookup-put host h pid ips ∙ rw other refl) ∙ later)
      ]
    ]

pub put_hosts-Leads :
    (pid : ℕ) (ps : List Process) (m : List (ℕ × List Process)) (ips : List (ℕ × ℕ))
    → lookup pid m ≡ some ps
    → Leads m ips
    → Leads m (put_hosts pid (hosts_of ps) ips)
put_hosts-Leads pid ps m ips at h host p e =
    elim (put_hosts-lookup host pid p (hosts_of ps) ips e) [
      | inl (i, same) ↦
          subst (λ k. contains host (hosts_of (monitoring k m)) ≡ true) same
            (ap (λ o. contains host (hosts_of (processes_at o))) at ∙ i)
      | inr before ↦ h host p before
    ]

put_all_hosts-Leads :
    (m rest : List (ℕ × List Process)) (ips : List (ℕ × ℕ))
    → All (λ e. lookup e.0 m ≡ some e.1) rest
    → Leads m ips
    → Leads m (put_all_hosts rest ips)
unfolding put_all_hosts
put_all_hosts-Leads m [] ips all h = h
put_all_hosts-Leads m ((pid, ps) ∷ rest) ips (at, all) h =
    put_all_hosts-Leads m rest (put_hosts pid (hosts_of ps) ips) all
      (put_hosts-Leads pid ps m ips at h)

pub rebuilt-Leads : (m : List (ℕ × List Process)) → IsUnique m → Leads m (put_all_hosts m [])
rebuilt-Leads m u = put_all_hosts-Leads m m [] (lookup-All m u) (λ host pid e. cc)

-- A new process changes no other one.
pub put-Leads :
    (pid : ℕ) (ps : List Process) (m : List (ℕ × List Process)) (ips : List (ℕ × ℕ))
    → lookup pid m ≡ none
    → Leads m ips
    → Leads (put pid ps m) ips
put-Leads pid ps m ips fresh h host p e = elim (Bool-cases (pid == p)) [
  | inl same ↦ absurd (ground (arith, h host p e, lookup-same pid p m same, fresh))
  | inr other ↦ ground (arith, h host p e, lookup-put p pid ps m, other)
]

pub erase-All :
    (f : MonitorFilter) (k : ℕ) (m : List (ℕ × List Process))
    → All (IsIncluded f) m
    → All (IsIncluded f) (erase k m)
erase-All f k [] h = tt
erase-All f k ((j, v) ∷ m) h = elim (Bool-cases (j == k)) [
  | inl e ↦ rw e (erase-All f k m h.1)
  | inr e ↦ rw e (h.0, erase-All f k m h.1)
]

pub should_include_processes-All :
    (f : MonitorFilter) (ps : List Process)
    → All (λ q. includes f q ≡ true) (should_include_processes f ps)
unfolding should_include_processes
should_include_processes-All f [] = tt
should_include_processes-All f (p ∷ ps) = elim (Bool-cases (includes f p)) [
  | inl e ↦ rw e (e, should_include_processes-All f ps)
  | inr e ↦ rw e (should_include_processes-All f ps)
]

-- The processes of a recheck, with their keys once.
abbrev pub Good : MonitorFilter → List (ℕ × List Process) → Type 0
Good f m = IsUnique m × All (IsIncluded f) m

put_monitored-Good :
    (f : MonitorFilter) (pid : ℕ) (ps : List Process) (m : List (ℕ × List Process))
    → All (λ q. includes f q ≡ true) ps
    → Good f m
    → Good f (put_monitored pid ps m)
put_monitored-Good f pid [] m i g = g
put_monitored-Good f pid (p ∷ ps) m i (u, a) =
    (put-IsUnique pid (p ∷ ps) m u, (i, erase-All f pid m a))

pub should_monitor_all-Good :
    (f : MonitorFilter) (processes m : List (ℕ × List Process))
    → Good f m
    → Good f (should_monitor_all f processes m)
unfolding should_monitor_all
should_monitor_all-Good f [] m g = g
should_monitor_all-Good f ((pid, ps) ∷ rest) m g =
    should_monitor_all-Good f rest (put_monitored pid (should_include_processes f ps) m) (
      put_monitored-Good f pid (should_include_processes f ps) m (should_include_processes-All f ps)
        g)
