-- ===== src/AccessLog/Batch.antt =====
-- pkg/accesslog/sender/logs.go: the logs of one flush, by connection. A connection is a pointer,
-- that is only compared. A map is the list of its entries in the order in which it is ranged over;
-- Go leaves that order open, so a theorem about the list holds for each order.
pub mod Laws
use skywalking_rover.Common.{
  ℕ, zero, suc, ◌+◌, ◌/◌, ◌%◌, Bool, true, false, List, [], ◌∷◌, ◌++◌, Option, none, some, ◌==◌,
  if◌then◌else◌, length, replicate,
}

pub record ConnectionProtocolLog (K P : Type 0) : Type 0 where
  pub kernels : List K
  pub protocol : P

pub record ConnectionLogs (K P : Type 0) : Type 0 where
  pub kernels : List K
  pub protocols : List (ConnectionProtocolLog K P)

-- An entry of the map `logs`.
pub record Entry (K P : Type 0) : Type 0 where
  pub connection : ℕ
  pub logs : ConnectionLogs K P

abbrev pub BatchLogs : Type 0 → Type 0 → Type 0
BatchLogs K P = List (Entry K P)

module _ {K P : Type 0} where
  unfoldable pub new_connection_logs : ConnectionLogs K P
  new_connection_logs = record { kernels = []; protocols = [] }

  -- The logs of a connection are found or created, and then changed in place.
  unfoldable pub at_connection :
      ℕ → (ConnectionLogs K P → ConnectionLogs K P) → BatchLogs K P → BatchLogs K P
  unfolding new_connection_logs
  at_connection c f [] = record { connection = c; logs = f new_connection_logs } ∷ []
  at_connection c f (e ∷ es) =
      if e.connection == c then record e { logs = f e.logs } ∷ es else e ∷ at_connection c f es

  unfoldable pub append_kernel_log : ℕ → K → BatchLogs K P → BatchLogs K P
  unfolding at_connection
  append_kernel_log c log =
      at_connection c (λ logs. record logs { kernels = logs.kernels ++ log ∷ [] })

  unfoldable pub append_protocol_log : ℕ → List K → P → BatchLogs K P → BatchLogs K P
  unfolding at_connection
  append_protocol_log c kernels protocol = at_connection c (λ logs. record logs {
    protocols = logs.protocols ++ record { kernels = kernels; protocol = protocol } ∷ [];
  })

  -- A round of the loop of splitBatchLogs: `result` holds the batches so far, the current one last
  -- and taken apart as `current`.
  unfoldable pub split_rounds :
      ℕ → List (BatchLogs K P) → BatchLogs K P → ℕ → BatchLogs K P → List (BatchLogs K P)
  split_rounds max result current count [] = result ++ current ∷ []
  split_rounds max result current count (e ∷ es) =
      if count % max == 0
      then split_rounds max (result ++ current ∷ []) (e ∷ []) 1 es
      else split_rounds max result (current ++ e ∷ []) (suc count) es

  -- splitBatchLogs; the first round makes the first batch.
  unfoldable pub split_batch_logs : ℕ → BatchLogs K P → List (BatchLogs K P)
  unfolding split_rounds
  split_batch_logs max [] = []
  split_batch_logs max (e ∷ es) = split_rounds max [] (e ∷ []) 1 es
