-- ===== src/Examples/Logs.antt =====
-- Runs of the theorems on the access logs of two connections, 7 and 8; a log is a number.
use skywalking_rover.Common.{
  take, ◌+◌, ◌++◌, ◌%◌, if◌then◌else◌, ℕ, ◌≡◌, refl, Bool, true, false, List, [], ◌∷◌, map, some,
  none, arith, length, ◌==◌,
}
use skywalking_rover.AccessLog.Queue.{
  Event, append_kernel, append_protocol, tick, goroutine, receive_kernel, put_back_kernel,
  report_drops, steps, started,
}
use skywalking_rover.AccessLog.Queue.Laws.{
  accounted_kernels, accounted_protocols, total, kernel_of, protocol_of, WithinBounds,
  steps-accounted,
}
use skywalking_rover.AccessLog.Batch.{BatchLogs, Entry}
use skywalking_rover.AccessLog.Resolution.{
  resolution_grace_for, Call, should_defer_for_resolution, deadline_after,
}
use skywalking_rover.AccessLog.Resolution.Laws.{should_defer_for_resolution-bounded}
use skywalking_rover.AccessLog.Runner.{Answers, build_kernel_logs}
use skywalking_rover.AccessLog.Runner.Laws.{kernels_of, logs_for, delayed, build_kernel_logs_lem}
use skywalking_rover.AccessLog.Sender.{Message, Sender, send_logs, handle_logs}
use skywalking_rover.AccessLog.Sender.Messages.{body, bodies, nodes, only_first, named, speaking}
use skywalking_rover.AccessLog.Sender.Laws.{HandledAll, send_logs-messages, handle_logs-HandledAll}

abbrev busy : List (Event ℕ ℕ)
busy =
    append_kernel 1
    ∷ append_kernel 2
    ∷ goroutine
    ∷ receive_kernel
    ∷ append_protocol 3
    ∷ append_kernel 4
    ∷ append_kernel 5
    ∷ append_kernel 6
    ∷ report_drops
    ∷ put_back_kernel 1
    ∷ receive_kernel
    ∷ put_back_kernel 1
    ∷ tick
    ∷ []

queue_example :
    (accounted_kernels (steps (started 1) busy)
      ≡ total kernel_of busy + (steps (started 1) busy).kernels_back)
    × (accounted_protocols (steps (started 1) busy)
        ≡ total protocol_of busy + (steps (started 1) busy).protocols_back)
    × WithinBounds 1 (steps (started 1) busy).queue
queue_example = steps-accounted 1 busy

abbrev entry : ℕ → Entry ℕ ℕ
entry c = record {
  connection = c;
  logs = record { kernels = 1 ∷ []; protocols = record { kernels = 2 ∷ []; protocol = 3 } ∷ [] };
}

abbrev batch : BatchLogs ℕ ℕ
batch = entry 7 ∷ entry 8 ∷ []

abbrev never : List (Message ℕ ℕ) → Message ℕ ℕ → Bool
never ms m = false

send_logs_example :
    (send_logs never true batch ≡ ([], true))
    × ((send_logs never false batch).1 ≡ false)
    × (map body (send_logs never false batch).0 ≡ bodies batch)
    × (nodes (send_logs never false batch).0 ≡ only_first true (bodies batch))
    × (named (send_logs never false batch).0 ≡ speaking batch)
send_logs_example = send_logs-messages never (λ ms m. refl) batch

abbrev is_small : BatchLogs ℕ ℕ → Bool
is_small b = length b == 1

abbrev waiting : Sender ℕ ℕ
waiting = record { logs = batch ∷ (entry 7 ∷ []) ∷ batch ∷ []; notified = false }

handle_logs_example : HandledAll is_small waiting (handle_logs is_small 4 waiting)
handle_logs_example = handle_logs-HandledAll is_small waiting

-- Events are numbers: even ones have a connection, that of 6 is deferred, and that of 3 is old.
abbrev answers : Answers ℕ ℕ
answers = record {
  process_is_monitor = λ e. true;
  pid_exists = λ e. none;
  find = λ e. if e % 2 == 0 then some 7 else none;
  is_expired = λ e. e == 3;
  should_defer_for_resolution = λ e. e == 6;
  build_kernel_log_from_event = λ e. some e;
}

runner_example :
    (kernels_of 7 (build_kernel_logs answers 3 (2 ∷ 3 ∷ 5 ∷ 6 ∷ 8 ∷ []) (9 ∷ []) batch).0
      ≡ kernels_of 7 batch ++ logs_for answers 7 (2 ∷ 3 ∷ 5 ∷ 6 ∷ 8 ∷ []))
    × ((build_kernel_logs answers 3 (2 ∷ 3 ∷ 5 ∷ 6 ∷ 8 ∷ []) (9 ∷ []) batch).1
        ≡ 9 ∷ take 2 (delayed answers (2 ∷ 3 ∷ 5 ∷ 6 ∷ 8 ∷ [])))
runner_example = build_kernel_logs_lem answers 7 3 (2 ∷ 3 ∷ 5 ∷ 6 ∷ 8 ∷ []) (9 ∷ []) batch

abbrev pending_at : ℕ → Call
pending_at t = record { now = t; is_resolution_pending = true }

first-IsDeferred :
    (should_defer_for_resolution (resolution_grace_for 5_000_000_000) none (pending_at 1)).1 ≡ true
unfolding should_defer_for_resolution resolution_grace_for
first-IsDeferred = refl

defer_example :
    (should_defer_for_resolution
      (resolution_grace_for 5_000_000_000)
      (deadline_after
        (resolution_grace_for 5_000_000_000)
        none
        (pending_at 1 ∷ pending_at 5_000_000_001 ∷ []))
      (pending_at 20_000_000_001)).1
    ≡ false
defer_example =
    should_defer_for_resolution-bounded 5_000_000_000 (pending_at 1) (pending_at 5_000_000_001 ∷ [])
      (pending_at 20_000_000_001) first-IsDeferred (omega arith)
