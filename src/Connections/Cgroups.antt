-- ===== src/Connections/Cgroups.antt =====
-- The allowlist of cgroups of pkg/accesslog/common/connection.go. What the kernel and the finders
-- answer during an operation is an argument, `World`; the allowlist of the kernel is a set.
pub mod Counted
use skywalking_rover.Common.{
  ℕ, Bool, List, [], ◌∷◌, Option, none, some, if◌then◌else◌, remove, lookup, erase, put,
}
use skywalking_rover.Connections.{DetectedBy, kubernetes_process, other_process, Process}

pub record World : Type 0 where
  -- Whether there is an allowlist of cgroups and a seeder for it, and a map of rejected processes.
  pub seeds_cgroups : Bool
  pub has_not_monitor_map : Bool
  pub cgroup_id_by_container : ℕ → Option ℕ
  -- The calls that fail: of a map of the kernel, at a key.
  pub allow_fails : ℕ → Bool
  pub disallow_fails : ℕ → Bool
  pub monitor_fails : ℕ → Bool
  pub not_monitor_fails : ℕ → Bool
  pub reject_fails : ℕ → Bool

abbrev pub add_key : ℕ → List ℕ → List ℕ
add_key k keys = k ∷ remove k keys

abbrev pub with_id : Option ℕ → List ℕ → List ℕ
with_id none ids = ids
with_id (some id) ids = id ∷ ids

abbrev pub cgroup_id_of : World → DetectedBy → Option ℕ
cgroup_id_of w other_process = none
cgroup_id_of w (kubernetes_process container) = w.cgroup_id_by_container container.cgroup

unfoldable pub cgroup_ids_of : World → List Process → List ℕ
cgroup_ids_of w [] = []
cgroup_ids_of w (p ∷ ps) = with_id (cgroup_id_of w p.detect_process) (cgroup_ids_of w ps)

-- The allowed cgroups with their pids, and the allowlist of the kernel.
pub record Cgroups : Type 0 where
  pub allowed : List (ℕ × List ℕ)
  pub allowlist : List ℕ

abbrev pub allow_one : World → ℕ → ℕ → Option (List ℕ) → Cgroups → Cgroups
allow_one w pid id (some pids) c = record c { allowed = put id (add_key pid pids) c.allowed }
allow_one w pid id none c =
    if w.allow_fails id
    then c
    else record { allowed = put id (pid ∷ []) c.allowed; allowlist = add_key id c.allowlist }

-- The loop of allowCgroupsOfProcesses.
unfoldable pub allow_cgroups : World → ℕ → List ℕ → Cgroups → Cgroups
allow_cgroups w pid [] c = c
allow_cgroups w pid (id ∷ ids) c =
    allow_cgroups w pid ids (allow_one w pid id (lookup id c.allowed) c)

abbrev pub without_pid : World → ℕ → List ℕ → Cgroups → Cgroups
without_pid w id (p ∷ pids) c = record c { allowed = put id (p ∷ pids) c.allowed }
without_pid w id [] c = record {
  allowed = erase id c.allowed;
  allowlist = if w.disallow_fails id then c.allowlist else remove id c.allowlist;
}

abbrev pub disallow_one : World → ℕ → ℕ → Option (List ℕ) → Cgroups → Cgroups
disallow_one w pid id none c = c
disallow_one w pid id (some pids) c = without_pid w id (remove pid pids) c

unfoldable pub disallow_cgroups : World → ℕ → List ℕ → Cgroups → Cgroups
disallow_cgroups w pid [] c = c
disallow_cgroups w pid (id ∷ ids) c =
    disallow_cgroups w pid ids (disallow_one w pid id (lookup id c.allowed) c)
