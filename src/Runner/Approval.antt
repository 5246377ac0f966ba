-- ===== src/Runner/Approval.antt =====
-- apps/runner/src/executor/approval-gate.ts. The loop has no bound in the source; here it has the
-- rounds that it is given, and the result `waiting` when they are used up.
use dev_ops_deployment_tool.Common.{ℕ, zero, suc, String, true, false, ◌∷◌}
use dev_ops_deployment_tool.Runner.Effects.{
  warn, polled, slept, Poll, approve, reject, undecided, unreachable, World, return, waiting,
  Action, emit, log, ◌>>◌,
}

pub data ApprovalOutcome : Type 0 where
  approved rejected cancelled : ApprovalOutcome

-- One poll, and what follows it.
unfoldable pub after_poll : (task : String) → Poll → Action ApprovalOutcome → Action ApprovalOutcome
after_poll task approve next tr = (return approved, tr)
after_poll task reject next tr = (return rejected, tr)
after_poll task undecided next tr = (emit slept >> next) tr
after_poll task unreachable next tr = (log warn task >> emit slept >> next) tr

-- `waitForApproval`
unfoldable pub wait_for_approval : ℕ → World → (task : String) → Action ApprovalOutcome
unfolding after_poll
wait_for_approval zero w task tr = (waiting, tr)
wait_for_approval (suc rounds) w task tr = elim (w.aborted tr) [
  | true ↦ (return cancelled, tr)
  | false ↦ after_poll task (w.poll tr) (wait_for_approval rounds w task) (polled ∷ tr)
]
