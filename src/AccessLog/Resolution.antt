-- ===== src/AccessLog/Resolution.antt =====
-- pkg/accesslog/common/connection.go: how long the logs of a connection are held back while the
-- real address of its remote side is looked for. Times and durations are nanoseconds. A duration
-- that is negative in the source stops at 0 here, and the source sets the grace to 0 then.
pub mod Laws
use skywalking_rover.Common.{
  ℕ, zero, suc, ◌+◌, ◌-◌, Bool, true, false, List, [], ◌∷◌, Option, none, some, ltb, ◌==◌,
  if◌then◌else◌,
}

abbrev pub connection_delete_delay_time : ℕ
connection_delete_delay_time = 25_000_000_000

abbrev pub resolution_defer_margin : ℕ
resolution_defer_margin = 15_000_000_000

unfoldable pub resolution_grace_for : ℕ → ℕ
resolution_grace_for flush_period =
    let grace = flush_period + resolution_defer_margin in
    let max_grace = connection_delete_delay_time - flush_period in
    if ltb max_grace grace then max_grace else grace

-- One call of ShouldDeferForResolution: when it is made, and whether a listener says that the
-- connection is pending.
pub record Call : Type 0 where
  pub now : ℕ
  pub is_resolution_pending : Bool

-- The connection's ResolutionDeadline after the call, and the answer.
unfoldable pub defer_until : ℕ → Option ℕ → Call → Option ℕ × Bool
defer_until grace none c = (some (c.now + grace), true)
defer_until grace (some deadline) c = (some deadline, ltb c.now deadline)

unfoldable pub should_defer_for_resolution : ℕ → Option ℕ → Call → Option ℕ × Bool
unfolding defer_until
should_defer_for_resolution grace deadline c =
    if grace == 0
    then (deadline, false)
    else if c.is_resolution_pending
    then defer_until grace deadline c
    else (deadline, false)

-- The deadline after a sequence of calls.
unfoldable pub deadline_after : ℕ → Option ℕ → List Call → Option ℕ
unfolding should_defer_for_resolution
deadline_after grace deadline [] = deadline
deadline_after grace deadline (c ∷ cs) =
    deadline_after grace (should_defer_for_resolution grace deadline c).0 cs
