-- ===== src/AccessLog/Queue.antt =====
-- pkg/accesslog/common/queue.go: the queue between the collectors and the consumer of the logs.
-- A channel is the list of what it holds, from its oldest entry. What a consumer receives from the
-- channels while it holds the lock, or puts back into them, is an event of its own, as are the ticks of the two timers, so
-- a sequence of events is one interleaving of the goroutines.
pub mod Laws
use skywalking_rover.Common.{
  ℕ, zero, suc, ◌+◌, ◌*◌, Bool, true, false, ◌&&◌, ◌||◌, not, List, [], ◌∷◌, ◌++◌, ltb, leb,
  if◌then◌else◌, length,
}

module _ (K P : Type 0) where
  -- `is_consuming` is the state of `consumeLock`, and `waiting` counts the goroutines that
  -- consumeIfNeed started and that did not try the lock yet.
  pub record Queue : Type 0 where
    pub kernel_logs : List K
    pub protocol_logs : List P
    pub max_flush_count : ℕ
    pub drop_kernel_log_count : ℕ
    pub drop_protocol_log_count : ℕ
    pub is_consuming : Bool
    pub waiting : ℕ

  pub data Event : Type 0 where
    append_kernel : K → Event
    append_protocol : P → Event
    put_back_kernel : K → Event
    put_back_protocol : P → Event
    tick goroutine receive_kernel receive_protocol end_consume report_drops : Event

module _ {K P : Type 0} where
  unfoldable pub new_queue : ℕ → Queue K P
  new_queue max_flush_count = record {
    kernel_logs = [];
    protocol_logs = [];
    max_flush_count = max_flush_count;
    drop_kernel_log_count = 0;
    drop_protocol_log_count = 0;
    is_consuming = false;
    waiting = 0;
  }

  unfoldable pub consume_if_need : Queue K P → Queue K P
  consume_if_need q =
      if leb q.max_flush_count (length q.kernel_logs + length q.protocol_logs)
      then record q { waiting = suc q.waiting }
      else q

  unfoldable pub append_kernel_log : K → Queue K P → Queue K P
  unfolding consume_if_need
  append_kernel_log log q =
      if ltb (length q.kernel_logs) (q.max_flush_count * 3)
      then consume_if_need (record q { kernel_logs = q.kernel_logs ++ log ∷ [] })
      else record q { drop_kernel_log_count = suc q.drop_kernel_log_count }

  unfoldable pub append_protocol_log : P → Queue K P → Queue K P
  unfolding consume_if_need
  append_protocol_log log q =
      if ltb (length q.protocol_logs) (q.max_flush_count * 3)
      then consume_if_need (record q { protocol_logs = q.protocol_logs ++ log ∷ [] })
      else record q { drop_protocol_log_count = suc q.drop_protocol_log_count }

  -- TryLock: a second consumer leaves at once.
  unfoldable pub consume : Queue K P → Queue K P
  consume q = if q.is_consuming then q else record q { is_consuming = true }

  unfoldable pub run_goroutine : ℕ → Queue K P → Queue K P
  unfolding consume
  run_goroutine zero q = q
  run_goroutine (suc n) q = consume (record q { waiting = n })

  -- What the consumer receives, if there is something.
  unfoldable pub receive_kernel_log : List K → Queue K P → Queue K P × List K
  receive_kernel_log [] q = (q, [])
  receive_kernel_log (k ∷ ks) q =
      if q.is_consuming then (record q { kernel_logs = ks }, k ∷ []) else (q, [])

  unfoldable pub receive_protocol_log : List P → Queue K P → Queue K P × List P
  receive_protocol_log [] q = (q, [])
  receive_protocol_log (p ∷ ps) q =
      if q.is_consuming then (record q { protocol_logs = ps }, p ∷ []) else (q, [])

  -- A delayed log that the consumer of pkg/accesslog/runner.go puts back: sent on the channel if it has
  -- room, by a consumer that holds the lock.
  unfoldable pub put_back_kernel_log : K → Queue K P → Queue K P × ℕ
  put_back_kernel_log log q =
      if q.is_consuming && ltb (length q.kernel_logs) (q.max_flush_count * 3)
      then (record q { kernel_logs = q.kernel_logs ++ log ∷ [] }, 1)
      else (q, 0)

  unfoldable pub put_back_protocol_log : P → Queue K P → Queue K P × ℕ
  put_back_protocol_log log q =
      if q.is_consuming && ltb (length q.protocol_logs) (q.max_flush_count * 3)
      then (record q { protocol_logs = q.protocol_logs ++ log ∷ [] }, 1)
      else (q, 0)

  -- The timer of the report: both counts are swapped if one is positive.
  unfoldable pub report : Queue K P → Queue K P × ℕ × ℕ
  report q =
      if ltb 0 q.drop_kernel_log_count || ltb 0 q.drop_protocol_log_count
      then (
        record q { drop_kernel_log_count = 0; drop_protocol_log_count = 0 },
        q.drop_kernel_log_count,
        q.drop_protocol_log_count,
      )
      else (q, 0, 0)

-- What has left the queue so far, what was reported, and how many logs came back to it.
pub record Trace (K P : Type 0) : Type 0 where
  pub queue : Queue K P
  pub kernels_out : List K
  pub protocols_out : List P
  pub reported_kernels : ℕ
  pub reported_protocols : ℕ
  pub kernels_back : ℕ
  pub protocols_back : ℕ

module _ {K P : Type 0} where
  abbrev at_queue : Trace K P → Queue K P → Trace K P
  at_queue t q = record t { queue = q }

  unfoldable pub step : Trace K P → Event K P → Trace K P
  unfolding append_kernel_log append_protocol_log consume run_goroutine receive_kernel_log
      receive_protocol_log put_back_kernel_log put_back_protocol_log report
  step t (append_kernel k) = at_queue t (append_kernel_log k t.queue)
  step t (append_protocol p) = at_queue t (append_protocol_log p t.queue)
  step t tick = at_queue t (consume t.queue)
  step t goroutine = at_queue t (run_goroutine t.queue.waiting t.queue)
  step t receive_kernel =
      let r = receive_kernel_log t.queue.kernel_logs t.queue in
      record t { queue = r.0; kernels_out = t.kernels_out ++ r.1 }
  step t receive_protocol =
      let r = receive_protocol_log t.queue.protocol_logs t.queue in
      record t { queue = r.0; protocols_out = t.protocols_out ++ r.1 }
  step t (put_back_kernel k) =
      let r = put_back_kernel_log k t.queue in
      record t { queue = r.0; kernels_back = t.kernels_back + r.1 }
  step t (put_back_protocol p) =
      let r = put_back_protocol_log p t.queue in
      record t { queue = r.0; protocols_back = t.protocols_back + r.1 }
  step t end_consume = at_queue t (record t.queue { is_consuming = false })
  step t report_drops =
      let r = report t.queue in
      record t {
        queue = r.0;
        reported_kernels = t.reported_kernels + r.1;
        reported_protocols = t.reported_protocols + r.2;
      }

  unfoldable pub steps : Trace K P → List (Event K P) → Trace K P
  unfolding step
  steps t [] = t
  steps t (e ∷ es) = steps (step t e) es

  abbrev pub started : ℕ → Trace K P
  unfolding new_queue
  started max_flush_count = record {
    queue = new_queue max_flush_count;
    kernels_out = [];
    protocols_out = [];
    reported_kernels = 0;
    reported_protocols = 0;
    kernels_back = 0;
    protocols_back = 0;
  }
