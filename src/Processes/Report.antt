-- ===== src/Processes/Report.antt =====
-- reportAllProcesses of pkg/process/finders/storage.go. The answers of the backend are arguments, and
-- so is ParseProcessID of the finders, which gets the type of the finder; the empty string says that
-- an answer is not about the process. The counter of the reports does not overflow here.
pub mod Invariant
use skywalking_rover.Common.{
  ℕ, zero, suc, ◌%◌, Bool, true, false, ◌&&◌, ◌||◌, List, [], ◌∷◌, ◌++◌, map, Option, none, some,
  ◌==◌, if◌then◌else◌,
}
use skywalking_rover.Processes.{
  UploadStatus, not_report, report_success, ignore, DetectedProcess, ProcessContext, ProcessStorage,
  operate_add, send, bytes_equal, add_new_process_in_finder, sync_all_process_in_finder,
}

abbrev pub is_empty : List ℕ → Bool
is_empty [] = true
is_empty (c ∷ cs) = false

abbrev pub is_reported : UploadStatus → Bool
is_reported report_success = true
is_reported _ = false

-- In the list of processesReport; `force` says that the properties are to be reported again.
abbrev pub waits : (force : Bool) → UploadStatus → Bool
waits force not_report = true
waits force report_success = force
waits force ignore = false

-- The contexts of all finders with a status, in their order.
unfoldable pub filter_status : (UploadStatus → Bool) → List ProcessContext → List ProcessContext
filter_status test [] = []
filter_status test (c ∷ cs) =
    if test c.sync_status then c ∷ filter_status test cs else filter_status test cs

unfoldable pub with_status :
    (UploadStatus → Bool) → List (ℕ × List ProcessContext) → List ProcessContext
unfolding filter_status
with_status test [] = []
with_status test ((f, cs) ∷ rest) = filter_status test cs ++ with_status test rest

abbrev pub is_there : {A : Type 0} → Option A → Bool
is_there none = false
is_there (some a) = true

abbrev pub uploaded : List ℕ → ProcessContext → ProcessContext
uploaded id c = record c { id = id; sync_status = report_success }

-- updateProcessToUploadSuccess and updateProcessToUploadIgnored. The log of a new id reads the entity;
-- `none` is the panic of a nil one.
unfoldable pub update_process : Option (List ℕ) → ProcessContext → Option ProcessContext
update_process (some id) c =
    if bytes_equal c.id id || is_there c.detect_process.entity then some (uploaded id c) else none
update_process none c = some (record c { sync_status = ignore })

-- The loop of processesKeepAlive, which reads the entity of each process that was reported.
unfoldable pub keep_alive : ProcessContext → Option ProcessContext
keep_alive c =
    if is_reported c.sync_status
    then if is_there c.detect_process.entity
      then some (if is_empty c.id then record c { sync_status = not_report } else c)
      else none
    else some c

abbrev pub both : {A B : Type 0} → Option A → Option (List B) → (A → B) → Option (List B)
both (some a) (some bs) f = some (f a ∷ bs)
both _ _ f = none

-- Each of a list, if none panics.
abbrev pub each :
    (ProcessContext → Option ProcessContext) → List ProcessContext → Option (List ProcessContext)
each f [] = some []
each f (c ∷ cs) = both (f c) (each f cs) (λ d. d)

-- What changes the processes.
pub data Operation (R : Type 0) : Type 0 where
  add sync : (finder : ℕ) → List (Option DetectedProcess) → Operation R
  report : Option (List R) → Operation R

abbrev pub and_then :
    Option ProcessStorage → (ProcessStorage → Option ProcessStorage) → Option ProcessStorage
and_then none next = none
and_then (some s) next = next s

module _ {R : Type 0} (parse_process_id : ℕ → DetectedProcess → R → List ℕ) where
  -- The first id that is not empty.
  unfoldable pub first_id : ProcessContext → List R → Option (List ℕ)
  first_id c [] = none
  first_id c (r ∷ rs) =
      let id = parse_process_id c.detect_type c.detect_process r in
      if is_empty id then first_id c rs else some id

  -- The processes that the backend knows, as the event gets them.
  unfoldable pub reported : List R → List ProcessContext → List ProcessContext
  unfolding first_id
  reported rs [] = []
  reported rs (c ∷ cs) = elim (first_id c rs) [
    | none ↦ reported rs cs
    | some id ↦ uploaded id c ∷ reported rs cs
  ]

  -- What a report does to one process; a reply `none` is an error of the backend.
  unfoldable pub report_process :
      (force : Bool) → Option (List R) → ProcessContext → Option ProcessContext
  unfolding first_id update_process keep_alive
  report_process force none c = if waits force c.sync_status then some c else keep_alive c
  report_process force (some rs) c =
      if waits force c.sync_status then update_process (first_id c rs) c else keep_alive c

  unfoldable pub report_finders :
      (force : Bool)
      → Option (List R)
      → List (ℕ × List ProcessContext)
      → Option (List (ℕ × List ProcessContext))
  unfolding report_process
  report_finders force reply [] = some []
  report_finders force reply ((f, cs) ∷ rest) =
      both (each (report_process force reply) cs) (report_finders force reply rest) (λ ds. (f, ds))

  -- The event of processesReport.
  unfoldable pub send_reported :
      Option (List R) → List ProcessContext → ProcessStorage → ProcessStorage
  unfolding reported send
  send_reported none waiting s = s
  send_reported (some rs) waiting s = send operate_add (reported rs waiting) s

  abbrev pub with_processes :
      Option (List R)
      → List ProcessContext
      → ProcessStorage
      → Option (List (ℕ × List ProcessContext))
      → Option ProcessStorage
  with_processes reply waiting s none = none
  with_processes reply waiting s (some m) =
      some (send_reported reply waiting (record s { processes = m }))

  unfoldable pub report_with :
      (force : Bool) → Option (List R) → ProcessStorage → Option ProcessStorage
  unfolding send_reported with_status report_finders
  report_with force reply s =
      let waiting =
        with_status (waits false) s.processes
        ++ (if force then with_status is_reported s.processes else []) in
      with_processes reply waiting s (report_finders force reply s.processes)

  -- reportAllProcesses; `none` is a panic, here of a remainder by zero.
  unfoldable pub report_list :
      List (ℕ × List ProcessContext) → Option (List R) → ProcessStorage → Option ProcessStorage
  unfolding report_with
  report_list [] reply s = some s
  report_list (p ∷ ps) reply s =
      let count = suc s.reported_count in
      if s.properties_report_factor == 0
      then none
      else report_with (count % s.properties_report_factor == 0) reply
          (record s { reported_count = count })

  unfoldable pub report_all_processes : Option (List R) → ProcessStorage → Option ProcessStorage
  unfolding report_list
  report_all_processes reply s = report_list s.processes reply s

  unfoldable pub run_operation : Operation R → ProcessStorage → Option ProcessStorage
  unfolding report_all_processes add_new_process_in_finder sync_all_process_in_finder
  run_operation (add finder ps) s = some (add_new_process_in_finder finder ps s)
  run_operation (sync finder ps) s = some (sync_all_process_in_finder finder ps s)
  run_operation (report reply) s = report_all_processes reply s

  unfoldable pub run_operations : List (Operation R) → ProcessStorage → Option ProcessStorage
  unfolding run_operation
  run_operations [] s = some s
  run_operations (o ∷ os) s = and_then (run_operation o s) (λ t. run_operations os t)
