-- ===== src/AccessLog/Runner.antt =====
-- pkg/accesslog/runner.go: the consumer of the queue, that turns the logs of the collectors into
-- the batch of one flush. What it asks for each log of the connection manager, the process tool,
-- the clock and the forwarder is a record of parameters: a log is asked for once in a pass, so an
-- answer that depends on the time is a function of the log.
pub mod Laws
use skywalking_rover.Common.{
  ℕ, zero, suc, Bool, true, false, List, [], ◌∷◌, ◌++◌, Option, none, some, ltb, if◌then◌else◌,
  length, not,
}
use skywalking_rover.AccessLog.Batch.{BatchLogs, append_kernel_log, append_protocol_log}

-- The answers for an event `E`, from which a kernel log `KL` is built.
pub record Answers (E KL : Type 0) : Type 0 where
  pub process_is_monitor : E → Bool
  pub pid_exists : E → Option Bool
  pub find : E → Option ℕ
  pub is_expired : E → Bool
  pub should_defer_for_resolution : E → Bool
  pub build_kernel_log_from_event : E → Option KL

-- A connection, a log, and whether the log is delayed.
pub record Built (L : Type 0) : Type 0 where
  pub connection : Option ℕ
  pub log : Option L
  pub delay : Bool

pub record ProtocolEvent (E P : Type 0) : Type 0 where
  pub relate_kernel_logs : List E
  pub protocol_log : Option P

abbrev pub nothing : {L : Type 0} → Bool → Built L
nothing delay = record { connection = none; log = none; delay = delay }

-- The loop that puts the delayed logs back into a channel with `capacity` places: it returns at the
-- first one that finds no place.
unfoldable pub put_back : {L : Type 0} → ℕ → List L → List L → List L
put_back capacity channel [] = channel
put_back capacity channel (d ∷ ds) =
    let rest = put_back capacity (channel ++ d ∷ []) ds in
    if ltb (length channel) capacity then rest else channel

module _ {E KL : Type 0} (ask : Answers E KL) where
  unfoldable pub should_report_process_log : E → Bool
  should_report_process_log e =
      if ask.process_is_monitor e
      then true
      else elim (ask.pid_exists e) [ none ↦ false | some exists ↦ not exists ]

  -- buildKernelLog; buildProtocolLog begins in the same way, with the first kernel log.
  unfoldable pub find_connection : E → Built E
  unfolding should_report_process_log
  find_connection e =
      if should_report_process_log e
      then elim (ask.find e) [
        | none ↦ if ask.is_expired e then nothing false else nothing true
        | some c ↦
            if ask.should_defer_for_resolution e
            then nothing true
            else record { connection = some c; log = some e; delay = false }
      ]
      else nothing false

  unfoldable pub build_kernel_log : E → Built KL
  unfolding find_connection
  build_kernel_log e =
      let found = find_connection e in
      elim found.connection [
        | none ↦ nothing found.delay
        | some c ↦ record {
          connection = some c;
          log = ask.build_kernel_log_from_event e;
          delay = false;
        }
      ]

  unfoldable pub build_all : List E → List KL
  build_all [] = []
  build_all (e ∷ es) = elim (ask.build_kernel_log_from_event e) [
    | none ↦ build_all es
    | some l ↦ l ∷ build_all es
  ]

module _ {E KL P : Type 0} (ask : Answers E KL) where
  -- The kernel logs and the protocol log of a connection.
  unfoldable pub build_protocol_log : ProtocolEvent E P → Built (List KL × Option P)
  unfolding find_connection build_all
  build_protocol_log p = elim p.relate_kernel_logs [
    | [] ↦ nothing false
    | e ∷ es ↦
        let found = find_connection ask e in
        elim found.connection [
          | none ↦ nothing found.delay
          | some c ↦ record {
            connection = some c;
            log = some (build_all ask (e ∷ es), p.protocol_log);
            delay = false;
          }
        ]
  ]

  -- The rounds over the logs that are received: the batch, and the logs that are delayed.
  unfoldable pub kernel_round : E → Built KL → BatchLogs KL P × List E → BatchLogs KL P × List E
  kernel_round e built (batch, delays) = elim built.connection [
    | none ↦ (batch, if built.delay then delays ++ e ∷ [] else delays)
    | some c ↦ elim built.log [
      | none ↦ (batch, if built.delay then delays ++ e ∷ [] else delays)
      | some log ↦ (append_kernel_log c log batch, delays)
    ]
  ]

  unfoldable pub kernel_rounds : List E → BatchLogs KL P × List E → BatchLogs KL P × List E
  unfolding kernel_round build_kernel_log
  kernel_rounds [] s = s
  kernel_rounds (e ∷ es) s = kernel_rounds es (kernel_round e (build_kernel_log ask e) s)

  -- buildKernelLogs: `received` is what the channel gives until it is empty, and `arrived` what the
  -- collectors have put into it again when the delayed logs are put back.
  unfoldable pub build_kernel_logs :
      ℕ → (received arrived : List E) → BatchLogs KL P → BatchLogs KL P × List E
  unfolding kernel_rounds put_back
  build_kernel_logs capacity received arrived batch =
      let s = kernel_rounds received (batch, []) in (s.0, put_back capacity arrived s.1)

  abbrev pub append_built :
      Option (List KL × Option P) → Option ℕ → Option (BatchLogs KL P → BatchLogs KL P)
  append_built none c = none
  append_built (some (ks, none)) c = none
  append_built (some ([], some p)) c = none
  append_built (some (k ∷ ks, some p)) none = none
  append_built (some (k ∷ ks, some p)) (some c) = some (append_protocol_log c (k ∷ ks) p)

  unfoldable pub protocol_round :
      ProtocolEvent E P
      → Built (List KL × Option P)
      → BatchLogs KL P × List (ProtocolEvent E P)
      → BatchLogs KL P × List (ProtocolEvent E P)
  protocol_round p built (batch, delays) = elim (append_built built.log built.connection) [
    | none ↦ (batch, if built.delay then delays ++ p ∷ [] else delays)
    | some append ↦ (append batch, delays)
  ]

  unfoldable pub protocol_rounds :
      List (ProtocolEvent E P)
      → BatchLogs KL P × List (ProtocolEvent E P)
      → BatchLogs KL P × List (ProtocolEvent E P)
  unfolding protocol_round build_protocol_log
  protocol_rounds [] s = s
  protocol_rounds (p ∷ ps) s = protocol_rounds ps (protocol_round p (build_protocol_log p) s)

  unfoldable pub build_protocol_logs :
      ℕ
      → (received arrived : List (ProtocolEvent E P)) → BatchLogs KL P
      → BatchLogs KL P × List (ProtocolEvent E P)
  unfolding protocol_rounds put_back
  build_protocol_logs capacity received arrived batch =
      let s = protocol_rounds received (batch, []) in (s.0, put_back capacity arrived s.1)
