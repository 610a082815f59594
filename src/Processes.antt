-- ===== src/Processes.antt =====
-- pkg/process/finders/storage.go: the processes that the finders detect, and their report to the
-- backend. A string is the list of its bytes. The objects that a pointer names have a number of
-- their own, `ref`, since a sync compares pointers; a copy of an object is changed like it, as every
-- change depends on its fields alone. Channels, locks and the calls of listeners are left out.

pub mod Notices
pub mod Sync
pub mod Report
use skywalking_rover.Common.{
  ℕ, zero, suc, ◌+◌, ◌%◌, Bool, true, false, ◌&&◌, ◌||◌, not, List, [], ◌∷◌, ◌++◌, map, Option,
  none, some, ◌==◌, if◌then◌else◌,
}

abbrev pub bytes_equal : List ℕ → List ℕ → Bool
bytes_equal [] [] = true
bytes_equal (x ∷ xs) (y ∷ ys) = x == y && bytes_equal xs ys
bytes_equal _ _ = false

pub record ProcessEntity : Type 0 where
  pub layer : List ℕ
  pub service_name : List ℕ
  pub instance_name : List ℕ
  pub process_name : List ℕ

-- SameWith; `none` is a nil entity.
unfoldable pub same_with : Option ProcessEntity → Option ProcessEntity → Bool
same_with (some e) (some other) =
    bytes_equal e.layer other.layer
    && bytes_equal e.service_name other.service_name
    && bytes_equal e.instance_name other.instance_name
    && bytes_equal e.process_name other.process_name
same_with _ _ = false

-- What the storage asks a detected process for.
pub record DetectedProcess : Type 0 where
  pub pid : ℕ
  pub entity : Option ProcessEntity

pub data UploadStatus : Type 0 where
  not_report report_success ignore : UploadStatus

pub record ProcessContext : Type 0 where
  pub ref : ℕ
  pub id : List ℕ
  pub sync_status : UploadStatus
  pub detect_process : DetectedProcess
  pub detect_type : ℕ

pub data ProcessOperate : Type 0 where
  operate_add operate_delete : ProcessOperate

pub record ProcessEvent : Type 0 where
  pub operate : ProcessOperate
  pub event_pid : ℕ
  pub event_processes : List ProcessContext

-- The map from the types of the finders to their processes, the events that were sent, the number
-- of the next object.
pub record ProcessStorage : Type 0 where
  pub processes : List (ℕ × List ProcessContext)
  pub events : List ProcessEvent
  pub reported_count : ℕ
  pub properties_report_factor : ℕ
  pub next_ref : ℕ

abbrev pub processes_of : ℕ → List (ℕ × List ProcessContext) → List ProcessContext
processes_of finder [] = []
processes_of finder ((f, cs) ∷ rest) = if f == finder then cs else processes_of finder rest

abbrev pub store :
    ℕ → List ProcessContext → List (ℕ × List ProcessContext) → List (ℕ × List ProcessContext)
store finder cs [] = (finder, cs) ∷ []
store finder cs ((f, old) ∷ rest) =
    let later = store finder cs rest in if f == finder then (f, cs) ∷ rest else (f, old) ∷ later

-- processEventBuilder: the processes by their pid, and the events of Send. A map of Go is sent in
-- any order, here in the one of the first processes.
unfoldable pub add_process :
    ProcessContext → List (ℕ × List ProcessContext) → List (ℕ × List ProcessContext)
add_process c [] = (c.detect_process.pid, c ∷ []) ∷ []
add_process c ((pid, cs) ∷ rest) =
    let later = add_process c rest in
    if pid == c.detect_process.pid then (pid, cs ++ c ∷ []) ∷ rest else (pid, cs) ∷ later

unfoldable pub add_all :
    List ProcessContext → List (ℕ × List ProcessContext) → List (ℕ × List ProcessContext)
unfolding add_process
add_all [] built = built
add_all (c ∷ cs) built = add_all cs (add_process c built)

unfoldable pub send : ProcessOperate → List ProcessContext → ProcessStorage → ProcessStorage
unfolding add_all
send operate cs s = record s {
  events =
      s.events
      ++ map
          (λ (b : ℕ × List ProcessContext). record {
            operate = operate;
            event_pid = b.0;
            event_processes = b.1;
          })
          (add_all cs []);
}

unfoldable pub construct_new_process_context : (ref finder : ℕ) → DetectedProcess → ProcessContext
construct_new_process_context ref finder p = record {
  ref = ref;
  id = [];
  sync_status = not_report;
  detect_process = p;
  detect_type = finder;
}

-- The first known process with the pid and the entity of a detected one.
unfoldable pub find_same : DetectedProcess → List ProcessContext → Option ProcessContext
unfolding same_with
find_same p [] = none
find_same p (c ∷ cs) =
    if c.detect_process.pid == p.pid && same_with c.detect_process.entity p.entity
    then some c
    else find_same p cs

-- The loop of AddNewProcessInFinder.
pub record Adding : Type 0 where
  pub contexts : List ProcessContext
  pub added : List ProcessContext
  pub next_ref : ℕ

unfoldable pub add_one : ℕ → DetectedProcess → Option ProcessContext → Adding → Adding
unfolding construct_new_process_context
add_one finder p (some c) a = a
add_one finder p none a =
    let new = construct_new_process_context a.next_ref finder p in
    record {
      contexts = a.contexts ++ new ∷ [];
      added = a.added ++ new ∷ [];
      next_ref = suc a.next_ref;
    }

unfoldable pub add_loop : ℕ → List (Option DetectedProcess) → Adding → Adding
unfolding find_same add_one
add_loop finder [] a = a
add_loop finder (none ∷ ps) a = add_loop finder ps a
add_loop finder (some p ∷ ps) a = add_loop finder ps (add_one finder p (find_same p a.contexts) a)

unfoldable pub add_new_process_in_finder :
    ℕ → List (Option DetectedProcess) → ProcessStorage → ProcessStorage
unfolding add_loop send
add_new_process_in_finder finder ps s =
    let a =
      add_loop finder ps (record {
        contexts = processes_of finder s.processes;
        added = [];
        next_ref = s.next_ref;
      }) in
    send operate_add a.added
      (record s { processes = store finder a.contexts s.processes; next_ref = a.next_ref })

-- The loop of SyncAllProcessInFinder over the processes that were detected.
pub record Syncing : Type 0 where
  pub new_processes : List ProcessContext
  pub added : List ProcessContext
  pub has_founded : List ℕ
  pub next_ref : ℕ

-- One detected process, given the loop over the others with and without a new object before it.
abbrev pub sync_one :
    ℕ → DetectedProcess → ℕ → Option ProcessContext → (founded new : Syncing) → Syncing
sync_one finder p next (some c) founded new = record founded {
  new_processes = c ∷ founded.new_processes;
  has_founded = c.ref ∷ founded.has_founded;
}
sync_one finder p next none founded new = record new {
  new_processes = construct_new_process_context next finder p ∷ new.new_processes;
  added = construct_new_process_context next finder p ∷ new.added;
}

unfoldable pub sync_loop : ℕ → List ProcessContext → List (Option DetectedProcess) → ℕ → Syncing
unfolding find_same construct_new_process_context
sync_loop finder existing [] next = record {
  new_processes = [];
  added = [];
  has_founded = [];
  next_ref = next;
}
sync_loop finder existing (none ∷ ps) next = sync_loop finder existing ps next
sync_loop finder existing (some p ∷ ps) next =
    sync_one finder p next (find_same p existing) (sync_loop finder existing ps next)
      (sync_loop finder existing ps (suc next))

abbrev pub has_ref : ℕ → List ℕ → Bool
has_ref ref [] = false
has_ref ref (r ∷ rs) = r == ref || has_ref ref rs

-- The objects that were not found, each once, as the keys of a map.
unfoldable pub dead_processes : (seen : List ℕ) → List ProcessContext → List ProcessContext
dead_processes seen [] = []
dead_processes seen (c ∷ cs) =
    let rest = dead_processes seen cs in
    let first = dead_processes (c.ref ∷ seen) cs in if has_ref c.ref seen then rest else c ∷ first

unfoldable pub sync_all_process_in_finder :
    ℕ → List (Option DetectedProcess) → ProcessStorage → ProcessStorage
unfolding sync_loop send dead_processes
sync_all_process_in_finder finder ps s =
    let existing = processes_of finder s.processes in
    let r = sync_loop finder existing ps s.next_ref in
    send operate_delete (dead_processes r.has_founded existing)
      (record (send operate_add r.added s) {
        processes = store finder r.new_processes s.processes;
        next_ref = r.next_ref;
      })
