-- ===== src/AccessLog/Resolution/Laws.antt =====
-- Logs are held back for a bounded time, in pkg/accesslog/common/connection.go.
use skywalking_rover.Common.{
  ℕ, ◌+◌, ◌-◌, ◌≤◌, ◌≡◌, refl, ap, ◌∙◌, ◌⊎◌, true, false, List, [], ◌∷◌, none, some, arith,
}
use skywalking_rover.AccessLog.Resolution.{
  connection_delete_delay_time, resolution_grace_for, Call, defer_until,
  should_defer_for_resolution, deadline_after,
}

-- The grace is 0, or the flush that follows it comes no later than the removal of a connection that
-- was closed when the grace began.
pub resolution_grace_for-headroom :
    (flush_period : ℕ)
    → (resolution_grace_for flush_period ≡ 0)
      ⊎ (resolution_grace_for flush_period + flush_period ≤ connection_delete_delay_time)
unfolding resolution_grace_for
resolution_grace_for-headroom f = ground arith

grace_bound : (f : ℕ) → resolution_grace_for f ≤ connection_delete_delay_time - f
unfolding resolution_grace_for
grace_bound f = ground arith

deadline_after-some :
    (grace deadline : ℕ) (cs : List Call) → deadline_after grace (some deadline) cs ≡ some deadline
unfolding deadline_after should_defer_for_resolution defer_until
deadline_after-some grace deadline [] = refl
deadline_after-some grace deadline (c ∷ cs) = ground (arith, deadline_after-some grace deadline cs)

later_call :
    (grace t : ℕ) (c : Call)
    → t + grace ≤ c.now
    → (should_defer_for_resolution grace (some (t + grace)) c).1 ≡ false
unfolding should_defer_for_resolution defer_until
later_call grace t c h = ground arith

first_call :
    (grace : ℕ) (c : Call)
    → (should_defer_for_resolution grace none c).1 ≡ true
    → (should_defer_for_resolution grace none c).0 ≡ some (c.now + grace)
unfolding should_defer_for_resolution defer_until
first_call grace c h = ground arith

-- When a call on a connection without a deadline holds its logs back, then however many calls
-- follow, whatever the listeners say, a call does not hold them back any more that is made at least
-- the delay of a removal, less one flush period, after the first one.
pub should_defer_for_resolution-bounded :
    (flush_period : ℕ) (first : Call) (calls : List Call) (last : Call)
    → (should_defer_for_resolution (resolution_grace_for flush_period) none first).1 ≡ true
    → first.now + (connection_delete_delay_time - flush_period) ≤ last.now
    → (should_defer_for_resolution
        (resolution_grace_for flush_period)
        (deadline_after (resolution_grace_for flush_period) none (first ∷ calls))
        last).1
      ≡ false
unfolding deadline_after
should_defer_for_resolution-bounded f first calls last h late =
    let g = resolution_grace_for f in
    let kept : deadline_after g (should_defer_for_resolution g none first).0 calls
        ≡ some (first.now + g) =
      ap (λ d. deadline_after g d calls) (first_call g first h)
      ∙ deadline_after-some g (first.now + g) calls in
    ap (λ d. (should_defer_for_resolution g d last).1) kept
    ∙ later_call g first.now last (omega (arith, grace_bound f))
