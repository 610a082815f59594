-- ===== src/AccessLog/Queue/Laws.antt =====
-- No log leaves the queue of pkg/accesslog/common/queue.go unaccounted for.
use skywalking_rover.Common.{
  ℕ, zero, suc, ◌+◌, ◌*◌, ◌≤◌, ◌≡◌, refl, ap, List, [], ◌∷◌, ◌++◌, arith, length, append-nil,
  length-append,
}
use skywalking_rover.AccessLog.Queue.{
  Queue, Event, append_kernel, append_protocol, put_back_kernel, put_back_protocol, tick, goroutine,
  receive_kernel, receive_protocol, end_consume, report_drops, Trace, step, steps, started,
  new_queue, consume_if_need, consume, append_kernel_log, append_protocol_log, run_goroutine,
  receive_kernel_log, receive_protocol_log, put_back_kernel_log, put_back_protocol_log, report,
}

module _ {K P : Type 0} where
  -- What the collectors append by an event.
  abbrev pub kernel_of : Event K P → ℕ
  kernel_of (append_kernel k) = 1
  kernel_of (append_protocol p) = 0
  kernel_of (put_back_kernel k) = 0
  kernel_of (put_back_protocol p) = 0
  kernel_of tick = 0
  kernel_of goroutine = 0
  kernel_of receive_kernel = 0
  kernel_of receive_protocol = 0
  kernel_of end_consume = 0
  kernel_of report_drops = 0

  abbrev pub protocol_of : Event K P → ℕ
  protocol_of (append_kernel k) = 0
  protocol_of (append_protocol p) = 1
  protocol_of (put_back_kernel k) = 0
  protocol_of (put_back_protocol p) = 0
  protocol_of tick = 0
  protocol_of goroutine = 0
  protocol_of receive_kernel = 0
  protocol_of receive_protocol = 0
  protocol_of end_consume = 0
  protocol_of report_drops = 0

  abbrev pub total : (Event K P → ℕ) → List (Event K P) → ℕ
  total f [] = 0
  total f (e ∷ es) = f e + total f es

  -- The logs that have left the queue, are in it, or were counted as dropped.
  abbrev pub accounted_kernels : Trace K P → ℕ
  accounted_kernels t =
      length t.kernels_out
      + length t.queue.kernel_logs
      + t.queue.drop_kernel_log_count
      + t.reported_kernels

  abbrev pub accounted_protocols : Trace K P → ℕ
  accounted_protocols t =
      length t.protocols_out
      + length t.queue.protocol_logs
      + t.queue.drop_protocol_log_count
      + t.reported_protocols

  abbrev pub WithinBounds : ℕ → Queue K P → Type 0
  WithinBounds m q =
      (q.max_flush_count ≡ m) × (length q.kernel_logs ≤ m * 3) × (length q.protocol_logs ≤ m * 3)

  -- A step accounts for what is appended or put back by it.
  abbrev Accounted : ℕ → ℕ → Trace K P → Trace K P → Type 0
  Accounted k p t t' =
      (accounted_kernels t' + t.kernels_back ≡ accounted_kernels t + k + t'.kernels_back)
      × (accounted_protocols t' + t.protocols_back ≡ accounted_protocols t + p + t'.protocols_back)

  append_kernel_log_lem : (t : Trace K P) (k : K) → Accounted 1 0 t (step t (append_kernel k))
  unfolding step append_kernel_log consume_if_need
  append_kernel_log_lem t k = ground (arith, length-append t.queue.kernel_logs (k ∷ []))

  append_protocol_log_lem : (t : Trace K P) (p : P) → Accounted 0 1 t (step t (append_protocol p))
  unfolding step append_protocol_log consume_if_need
  append_protocol_log_lem t p = ground (arith, length-append t.queue.protocol_logs (p ∷ []))

  put_back_kernel_log_lem : (t : Trace K P) (k : K) → Accounted 0 0 t (step t (put_back_kernel k))
  unfolding step put_back_kernel_log
  put_back_kernel_log_lem t k = ground (arith, length-append t.queue.kernel_logs (k ∷ []))

  put_back_protocol_log_lem :
      (t : Trace K P) (p : P) → Accounted 0 0 t (step t (put_back_protocol p))
  unfolding step put_back_protocol_log
  put_back_protocol_log_lem t p = ground (arith, length-append t.queue.protocol_logs (p ∷ []))

  receive_kernel_log_lem :
      (t : Trace K P) (ks : List K)
      → length (t.kernels_out ++ (receive_kernel_log ks t.queue).1)
          + length (receive_kernel_log ks (record t.queue { kernel_logs = ks })).0.kernel_logs
        ≡ length t.kernels_out + length ks
  unfolding receive_kernel_log
  receive_kernel_log_lem t [] = ground (arith, append-nil t.kernels_out)
  receive_kernel_log_lem t (k ∷ ks) =
      ground (arith, length-append t.kernels_out (k ∷ []), append-nil t.kernels_out)

  receive_protocol_log_lem :
      (t : Trace K P) (ps : List P)
      → length (t.protocols_out ++ (receive_protocol_log ps t.queue).1)
          + length (receive_protocol_log ps (record t.queue { protocol_logs = ps })).0.protocol_logs
        ≡ length t.protocols_out + length ps
  unfolding receive_protocol_log
  receive_protocol_log_lem t [] = ground (arith, append-nil t.protocols_out)
  receive_protocol_log_lem t (p ∷ ps) =
      ground (arith, length-append t.protocols_out (p ∷ []), append-nil t.protocols_out)

  receive_kernel_log-same :
      (q : Queue K P) (ks : List K)
      → ((receive_kernel_log ks q).0.protocol_logs ≡ q.protocol_logs)
        × ((receive_kernel_log ks q).0.drop_kernel_log_count ≡ q.drop_kernel_log_count)
        × ((receive_kernel_log ks q).0.drop_protocol_log_count ≡ q.drop_protocol_log_count)
        × ((receive_kernel_log ks q).0.max_flush_count ≡ q.max_flush_count)
  unfolding receive_kernel_log
  receive_kernel_log-same q [] = (refl, refl, refl, refl)
  receive_kernel_log-same q (k ∷ ks) = ground arith

  receive_protocol_log-same :
      (q : Queue K P) (ps : List P)
      → ((receive_protocol_log ps q).0.kernel_logs ≡ q.kernel_logs)
        × ((receive_protocol_log ps q).0.drop_kernel_log_count ≡ q.drop_kernel_log_count)
        × ((receive_protocol_log ps q).0.drop_protocol_log_count ≡ q.drop_protocol_log_count)
        × ((receive_protocol_log ps q).0.max_flush_count ≡ q.max_flush_count)
  unfolding receive_protocol_log
  receive_protocol_log-same q [] = (refl, refl, refl, refl)
  receive_protocol_log-same q (k ∷ ks) = ground arith

  run_goroutine-Accounted :
      (t : Trace K P) (n : ℕ) → Accounted 0 0 t (record t { queue = run_goroutine n t.queue })
  unfolding run_goroutine consume
  run_goroutine-Accounted t zero = omega arith
  run_goroutine-Accounted t (suc n) = ground arith

  step-Accounted :
      (t : Trace K P) (e : Event K P) → Accounted (kernel_of e) (protocol_of e) t (step t e)
  unfolding step consume report
  step-Accounted t (append_kernel k) = append_kernel_log_lem t k
  step-Accounted t (append_protocol p) = append_protocol_log_lem t p
  step-Accounted t (put_back_kernel k) = put_back_kernel_log_lem t k
  step-Accounted t (put_back_protocol p) = put_back_protocol_log_lem t p
  step-Accounted t tick = ground arith
  step-Accounted t goroutine = run_goroutine-Accounted t t.queue.waiting
  step-Accounted t receive_kernel = omega (
    arith,
    ap length (receive_kernel_log-same t.queue t.queue.kernel_logs).0,
    receive_kernel_log_lem t t.queue.kernel_logs,
    receive_kernel_log-same t.queue t.queue.kernel_logs,
  )
  step-Accounted t receive_protocol = omega (
    arith,
    ap length (receive_protocol_log-same t.queue t.queue.protocol_logs).0,
    receive_protocol_log_lem t t.queue.protocol_logs,
    receive_protocol_log-same t.queue t.queue.protocol_logs,
  )
  step-Accounted t end_consume = omega arith
  step-Accounted t report_drops = ground arith

  run_goroutine-WithinBounds :
      (m : ℕ) (q : Queue K P) (n : ℕ) → WithinBounds m q → WithinBounds m (run_goroutine n q)
  unfolding run_goroutine consume
  run_goroutine-WithinBounds m q zero w = w
  run_goroutine-WithinBounds m q (suc n) w = ground arith

  receive_kernel_log-bound :
      (q : Queue K P) (ks : List K)
      → length (receive_kernel_log ks (record q { kernel_logs = ks })).0.kernel_logs ≤ length ks
  unfolding receive_kernel_log
  receive_kernel_log-bound q [] = omega arith
  receive_kernel_log-bound q (k ∷ ks) = ground arith

  receive_protocol_log-bound :
      (q : Queue K P) (ps : List P)
      → length (receive_protocol_log ps (record q { protocol_logs = ps })).0.protocol_logs
        ≤ length ps
  unfolding receive_protocol_log
  receive_protocol_log-bound q [] = omega arith
  receive_protocol_log-bound q (p ∷ ps) = ground arith

  step-WithinBounds :
      (m : ℕ) (t : Trace K P) (e : Event K P)
      → WithinBounds m t.queue
      → WithinBounds m (step t e).queue
  unfolding step append_kernel_log append_protocol_log consume_if_need consume put_back_kernel_log
      put_back_protocol_log report
  step-WithinBounds m t (append_kernel k) w =
      ground (arith, length-append t.queue.kernel_logs (k ∷ []))
  step-WithinBounds m t (append_protocol p) w =
      ground (arith, length-append t.queue.protocol_logs (p ∷ []))
  step-WithinBounds m t (put_back_kernel k) w =
      ground (arith, length-append t.queue.kernel_logs (k ∷ []))
  step-WithinBounds m t (put_back_protocol p) w =
      ground (arith, length-append t.queue.protocol_logs (p ∷ []))
  step-WithinBounds m t tick w = ground arith
  step-WithinBounds m t goroutine w = run_goroutine-WithinBounds m t.queue t.queue.waiting w
  step-WithinBounds m t receive_kernel w = ground (
    arith,
    receive_kernel_log-bound t.queue t.queue.kernel_logs,
    receive_kernel_log-same t.queue t.queue.kernel_logs,
  )
  step-WithinBounds m t receive_protocol w = ground (
    arith,
    receive_protocol_log-bound t.queue t.queue.protocol_logs,
    receive_protocol_log-same t.queue t.queue.protocol_logs,
  )
  step-WithinBounds m t end_consume w = w
  step-WithinBounds m t report_drops w = ground arith

  steps-Accounted :
      (m : ℕ) (t : Trace K P) (es : List (Event K P))
      → WithinBounds m t.queue
      → Accounted (total kernel_of es) (total protocol_of es) t (steps t es)
        × WithinBounds m (steps t es).queue
  unfolding steps
  steps-Accounted m t [] w = (omega arith, w)
  steps-Accounted m t (e ∷ es) w =
      let later = steps-Accounted m (step t e) es (step-WithinBounds m t e w) in
      (omega (arith, step-Accounted t e, later.0), later.1)

  -- Whatever the collectors, the consumers and the timers do in whatever order: the logs that were
  -- received by a consumer, are in their channel, or were counted as dropped, in a count that is still
  -- kept or was reported, are as many as those that a collector appended and that a consumer put
  -- back into a channel with room; and no channel holds more than three times the count of a flush.
  pub steps-accounted :
      (max_flush_count : ℕ) (es : List (Event K P))
      → (accounted_kernels (steps (started max_flush_count) es)
          ≡ total kernel_of es + (steps (started max_flush_count) es).kernels_back)
        × (accounted_protocols (steps (started max_flush_count) es)
            ≡ total protocol_of es + (steps (started max_flush_count) es).protocols_back)
        × WithinBounds max_flush_count (steps (started max_flush_count) es).queue
  unfolding new_queue
  steps-accounted m es =
      let all = steps-Accounted m (started m) es (refl, omega arith, omega arith) in
      (omega (arith, all.0), omega (arith, all.0), all.1)
