-- ===== src/AccessLog/Sender.antt =====
-- pkg/accesslog/sender/sender.go: the batches that wait for the backend, and the messages of one
-- batch. Whether Collect opens a stream is an argument. What the stream's Send returns is a parameter `fails`, of the messages sent before and the
-- one that is sent; the node's description and a connection's are only present or not.
pub mod Messages
pub mod Laws
use skywalking_rover.Common.{
  ℕ, zero, suc, Bool, true, false, ◌&&◌, List, [], ◌∷◌, ◌++◌, Option, none, some, if◌then◌else◌,
  length,
}
use skywalking_rover.AccessLog.Batch.{
  BatchLogs, Entry, ConnectionLogs, ConnectionProtocolLog, split_batch_logs,
}

-- EBPFAccessLogMessage
pub record Message (K P : Type 0) : Type 0 where
  pub node : Bool
  pub connection : Option ℕ
  pub kernel_logs : List K
  pub protocol_log : Option P

-- `notified` is the one place of the channel `notify`.
pub record Sender (K P : Type 0) : Type 0 where
  pub logs : List (BatchLogs K P)
  pub notified : Bool

module _ {K P : Type 0} where
  unfoldable pub add_batch : ℕ → BatchLogs K P → Sender K P → Sender K P
  unfolding split_batch_logs
  add_batch max batch g = record { logs = g.logs ++ split_batch_logs max batch; notified = true }

  unfoldable pub pop_logs : Sender K P → Sender K P × Option (BatchLogs K P)
  pop_logs g = elim g.logs [ [] ↦ (g, none) | b ∷ bs ↦ (record g { logs = bs }, some b) ]

  unfoldable pub build_access_log_message : Bool → Bool → ℕ → List K → Option P → Message K P
  build_access_log_message first_log first_connection conn kernel_logs protocol_log = record {
    node = first_log;
    connection = if first_connection then some conn else none;
    kernel_logs = kernel_logs;
    protocol_log = protocol_log;
  }

  -- The test that passes over a connection without logs.
  unfoldable pub is_silent : List K → List (ConnectionProtocolLog K P) → Bool
  is_silent [] [] = true
  is_silent [] (p ∷ ps) = false
  is_silent (k ∷ ks) ps = false

-- The loop of sendLogs: what was sent, the two flags, and `sendError`.
pub record Sending (K P : Type 0) : Type 0 where
  pub sent : List (Message K P)
  pub first_log : Bool
  pub first_connection : Bool
  pub send_error : Bool

module _ {K P : Type 0} (fails : List (Message K P) → Message K P → Bool) where
  -- sendLogToTheStream with a message that is built there, and the flags after it.
  unfoldable pub send_message : ℕ → List K → Option P → Sending K P → Sending K P
  unfolding build_access_log_message
  send_message conn kernels protocol s =
      let m = build_access_log_message s.first_log s.first_connection conn kernels protocol in
      record {
        sent = s.sent ++ m ∷ [];
        first_log = false;
        first_connection = false;
        send_error = fails s.sent m;
      }

  unfoldable pub send_protocols : ℕ → List (ConnectionProtocolLog K P) → Sending K P → Sending K P
  unfolding send_message
  send_protocols conn [] s = s
  send_protocols conn (p ∷ ps) s =
      send_protocols conn ps (send_message conn p.kernels (some p.protocol) s)

  unfoldable pub send_kernels : ℕ → List K → Sending K P → Sending K P
  unfolding send_message
  send_kernels conn [] s = s
  send_kernels conn (k ∷ ks) s = send_message conn (k ∷ ks) none s

  unfoldable pub send_connection : Entry K P → Sending K P → Sending K P
  unfolding send_protocols send_kernels
  send_connection e s =
      send_protocols e.connection e.logs.protocols (send_kernels e.connection e.logs.kernels s)

  -- The rounds over the connections; an error ends them.
  unfoldable pub send_connections : BatchLogs K P → Sending K P → Sending K P
  unfolding send_connection is_silent
  send_connections [] s = s
  send_connections (e ∷ es) s =
      let s' = send_connection e s in
      if is_silent e.logs.kernels e.logs.protocols
      then send_connections es s
      else if s'.send_error
      then s'
      else send_connections es (record s' { first_connection = true })

  -- sendLogs: the messages, and whether it returns an error. Without a stream it sends nothing.
  unfoldable pub send_logs : (collect_fails : Bool) → BatchLogs K P → List (Message K P) × Bool
  unfolding send_connections
  send_logs true batch = ([], true)
  send_logs false batch =
      let s =
        send_connections batch
          (record { sent = []; first_log = true; first_connection = true; send_error = false }) in
      (s.sent, s.send_error)

-- What handleLogs did when it returns: the batches that sendLogs sent, the one that it failed to
-- send, and the sender.
pub record Handled (K P : Type 0) : Type 0 where
  pub sent : List (BatchLogs K P)
  pub lost : List (BatchLogs K P)
  pub sender : Sender K P

module _ {K P : Type 0} (fails : BatchLogs K P → Bool) where
  abbrev pub count_sent : BatchLogs K P → Option (Handled K P) → Option (Handled K P)
  count_sent b none = none
  count_sent b (some h) = some (record h { sent = b ∷ h.sent })

  -- The loop of handleLogs on fuel, over what sendLogs returns for a batch.
  unfoldable pub handle_logs : ℕ → Sender K P → Option (Handled K P)
  unfolding pop_logs
  handle_logs zero g = none
  handle_logs (suc fuel) g =
      let (g', popped) = pop_logs g in
      let rest = handle_logs fuel g' in
      elim popped [
        | none ↦ some (record { sent = []; lost = []; sender = g' })
        | some b ↦
            if fails b
            then some (record { sent = []; lost = b ∷ []; sender = g' })
            else count_sent b rest
      ]
