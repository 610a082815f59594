-- ===== src/Connections.antt =====
-- pkg/accesslog/common/connection.go and filter.go: the manager of the monitored processes and of
-- their connections. Here are the processes as the manager reads them, and the filter. A string is
-- the list of its bytes; the address of a host and the name of a container's cgroup are only
-- compared, and are numbers that stand for them.
pub mod Cgroups
pub mod Monitor
pub mod Tracking
pub mod Addresses
pub mod Handling
pub mod Table
pub mod Unresolved
pub mod Upkeep
use skywalking_rover.Common.{
  ℕ, Bool, true, false, ◌&&◌, ◌||◌, not, List, [], ◌∷◌, Option, none, some, ◌==◌, if◌then◌else◌,
}
use skywalking_rover.Processes.{ProcessEntity, bytes_equal}

pub record PodContainer : Type 0 where
  pub namespace : List ℕ
  pub pod_name : List ℕ
  pub container_name : List ℕ
  pub cgroup : ℕ

-- The process of the finder of Kubernetes, or of another one.
pub data DetectedBy : Type 0 where
  kubernetes_process : PodContainer → DetectedBy
  other_process : DetectedBy

pub record Process : Type 0 where
  pub pid : ℕ
  pub entity : ProcessEntity
  pub detect_process : DetectedBy
  pub expose_hosts : List ℕ

pub record MonitorFilter : Type 0 where
  pub self_pid : ℕ
  pub namespaces : List (List ℕ)
  pub clusters : List (List ℕ)

-- A key of a map of Booleans.
abbrev pub has_string : List ℕ → List (List ℕ) → Bool
has_string s [] = false
has_string s (t ∷ ts) = bytes_equal s t || has_string s ts

abbrev pub with_byte : ℕ → Option (List ℕ) → Option (List ℕ)
with_byte c none = none
with_byte c (some before) = some (c ∷ before)

-- What strings.Cut finds before "::".
unfoldable pub cluster_of : List ℕ → Option (List ℕ)
cluster_of [] = none
cluster_of (a ∷ []) = none
cluster_of (a ∷ b ∷ rest) =
    let later = with_byte a (cluster_of (b ∷ rest)) in
    if a == b':' && b == b':' then some [] else later

abbrev pub cluster_excluded : MonitorFilter → Option (List ℕ) → Bool
cluster_excluded f none = false
cluster_excluded f (some cluster) = has_string cluster f.clusters

abbrev pub includes_detected : MonitorFilter → List ℕ → DetectedBy → Bool
includes_detected f service other_process = false
includes_detected f service (kubernetes_process container) =
    not (has_string container.namespace f.namespaces)
    && not (cluster_excluded f (cluster_of service))

-- The body of the loop: the process is not the agent, is of Kubernetes, and not excluded.
unfoldable pub includes : MonitorFilter → Process → Bool
unfolding cluster_of
includes f p =
    not (p.pid == f.self_pid) && includes_detected f p.entity.service_name p.detect_process

unfoldable pub should_include_processes : MonitorFilter → List Process → List Process
unfolding includes
should_include_processes f [] = []
should_include_processes f (p ∷ ps) =
    let rest = should_include_processes f ps in if includes f p then p ∷ rest else rest
