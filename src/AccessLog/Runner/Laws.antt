-- ===== src/AccessLog/Runner/Laws.antt =====
-- What the consumer of pkg/accesslog/runner.go does with each log.
use skywalking_rover.Common.{
  ℕ, zero, suc, ◌-◌, ◌≡◌, refl, sym, ap, ◌∙◌, Bool, false, List, [], ◌∷◌, ◌++◌, append-nil,
  append_assoc, Option, none, some, ◌==◌, ltb, if◌then◌else◌, length, length-append, take, arith,
  Bool-cases, Option-cases, inl, inr, not, ◌&&◌, ◌||◌,
}
use skywalking_rover.AccessLog.Batch.{
  BatchLogs, at_connection, append_kernel_log, new_connection_logs,
}
use skywalking_rover.AccessLog.Runner.{
  Answers, put_back, should_report_process_log, find_connection, build_kernel_log, kernel_round,
  kernel_rounds, build_kernel_logs,
}

take_nil : {L : Type 0} (n : ℕ) → take {A = L} n [] ≡ []
take_nil zero = refl
take_nil (suc n) = refl

put_back-take :
    {L : Type 0} (capacity : ℕ) (channel delays : List L)
    → put_back capacity channel delays ≡ channel ++ take (capacity - length channel) delays
unfolding put_back
put_back-take capacity channel [] =
    sym (append-nil channel) ∙ ap (λ l. channel ++ l) (sym (take_nil (capacity - length channel)))
put_back-take capacity channel (d ∷ ds) = elim (Bool-cases (ltb (length channel) capacity)) [
  | inl room ↦
      let k = capacity - length channel - 1 in
      let e : capacity - length channel ≡ suc k = ground arith in
      let f : capacity - length (channel ++ d ∷ []) ≡ k =
        omega (arith, length-append channel (d ∷ [])) in
      rw (room, e)
        (put_back-take capacity (channel ++ d ∷ []) ds
          ∙ append_assoc channel (d ∷ []) (take (capacity - length (channel ++ d ∷ [])) ds)
          ∙ ap (λ n. channel ++ d ∷ take n ds) f)
  | inr full ↦
      let e : capacity - length channel ≡ 0 = ground arith in
      rw (full, e) (sym (append-nil channel))
]

-- The kernel logs of a connection in a batch.
abbrev pub kernels_of : {K P : Type 0} → ℕ → BatchLogs K P → List K
kernels_of c [] = []
kernels_of c (e ∷ es) = if e.connection == c then e.logs.kernels else kernels_of c es

abbrev as_list : {A : Type 0} → Option A → List A
as_list none = []
as_list (some a) = a ∷ []

module _ {E KL : Type 0} (ask : Answers E KL) where
  -- A log is reported if its process is monitored, or is known to have ended.
  abbrev pub is_reported : E → Bool
  is_reported e =
      ask.process_is_monitor e
      || elim (ask.pid_exists e) [ none ↦ false | some exists ↦ not exists ]

  -- A reported log waits for its connection while it is young, and for the address of it.
  abbrev pub is_delayed : E → Bool
  is_delayed e = is_reported e && elim (ask.find e) [
    | none ↦ not (ask.is_expired e)
    | some c ↦ ask.should_defer_for_resolution e
  ]

  abbrev pub delayed : List E → List E
  delayed [] = []
  delayed (e ∷ es) = (if is_delayed e then e ∷ [] else []) ++ delayed es

  -- The kernel log of an event that belongs to the connection and is not delayed.
  abbrev pub log_for : ℕ → E → Option KL
  log_for c e = elim (ask.find e) [
    | none ↦ none
    | some d ↦
        if is_reported e && not (ask.should_defer_for_resolution e) && (d == c)
        then ask.build_kernel_log_from_event e
        else none
  ]

  abbrev pub logs_for : ℕ → List E → List KL
  logs_for c [] = []
  logs_for c (e ∷ es) = as_list (log_for c e) ++ logs_for c es

kernels_of-append :
    {K P : Type 0} (c d : ℕ) (log : K) (b : BatchLogs K P)
    → kernels_of c (append_kernel_log d log b) ≡ kernels_of c b ++ (if d == c then log ∷ [] else [])
unfolding append_kernel_log at_connection new_connection_logs
kernels_of-append c d log [] = refl
kernels_of-append c d log (e ∷ es) =
    ground
      (arith, append-nil e.logs.kernels, append-nil (kernels_of c es), kernels_of-append c d log es)

module _ {E KL P : Type 0} (ask : Answers E KL) where
  kernel_round_lem :
      (c : ℕ) (e : E) (b : BatchLogs KL P) (ds : List E)
      → (kernels_of c (kernel_round ask e (build_kernel_log ask e) (b, ds)).0
          ≡ kernels_of c b ++ as_list (log_for ask c e))
        × ((kernel_round ask e (build_kernel_log ask e) (b, ds)).1
            ≡ ds ++ (if is_delayed ask e then e ∷ [] else []))
  unfolding kernel_round build_kernel_log find_connection should_report_process_log
  kernel_round_lem c e b ds = elim (Option-cases (ask.find e)) [
    | inl lost ↦ ground (arith, append-nil (kernels_of c b), append-nil ds)
    | inr (d, found) ↦ elim (Option-cases (ask.build_kernel_log_from_event e)) [
      | inl empty ↦ ground (arith, append-nil (kernels_of c b), append-nil ds)
      | inr (l, made) ↦
          ground (arith, append-nil (kernels_of c b), append-nil ds, kernels_of-append c d l b)
    ]
  ]

  kernel_rounds_lem :
      (c : ℕ) (es : List E) (b : BatchLogs KL P) (ds : List E)
      → (kernels_of c (kernel_rounds ask es (b, ds)).0 ≡ kernels_of c b ++ logs_for ask c es)
        × ((kernel_rounds ask es (b, ds)).1 ≡ ds ++ delayed ask es)
  unfolding kernel_rounds
  kernel_rounds_lem c [] b ds = (sym (append-nil (kernels_of c b)), sym (append-nil ds))
  kernel_rounds_lem c (e ∷ es) b ds =
      let s = kernel_round ask e (build_kernel_log ask e) (b, ds) in
      let one = kernel_round_lem c e b ds in
      let later = kernel_rounds_lem c es s.0 s.1 in
      (
        later.0
            ∙ ap (λ l. l ++ logs_for ask c es) one.0
            ∙ append_assoc (kernels_of c b) (as_list (log_for ask c e)) (logs_for ask c es),
        later.1 ∙ ap (λ l. l ++ delayed ask es) one.1 ∙ append_assoc ds _ (delayed ask es),
      )

  -- buildKernelLogs adds to the kernel logs of each connection exactly the logs that are built from
  -- the received events of that connection that are reported and not deferred, in the order in which they were received. An event is
  -- put back into the channel, in order and as long as there is room, exactly if it is reported, and
  -- either has no connection yet and is not expired, or is deferred for its address.
  pub build_kernel_logs_lem :
      (c capacity : ℕ) (received arrived : List E) (batch : BatchLogs KL P)
      → (kernels_of c (build_kernel_logs ask capacity received arrived batch).0
          ≡ kernels_of c batch ++ logs_for ask c received)
        × ((build_kernel_logs ask capacity received arrived batch).1
            ≡ arrived ++ take (capacity - length arrived) (delayed ask received))
  unfolding build_kernel_logs
  build_kernel_logs_lem c capacity received arrived batch =
      let rounds = kernel_rounds_lem c received batch [] in
      (
        rounds.0,
        ap (put_back capacity arrived) rounds.1
            ∙ put_back-take capacity arrived (delayed ask received),
      )
