-- ===== src/Status/Task.antt =====
-- The states of a task run (enums.ts and constants.ts) and its checks (state-machine.ts, lines 61 to 80).
use dev_ops_deployment_tool.Common.{Bool, true, false, List, [], ◌∷◌, includes_of, if◌then◌else◌}
use dev_ops_deployment_tool.Status.Result.{Result, ok, invalid_transition}

pub data TaskRunStatus : Type 0 where
  pending running success failed cancelled skipped awaiting_approval : TaskRunStatus

pub TaskRunStatus-discrete : Discrete TaskRunStatus
TaskRunStatus-discrete = hlevel

-- `a === b`
abbrev pub same : TaskRunStatus → TaskRunStatus → Bool
same pending pending = true
same running running = true
same success success = true
same failed failed = true
same cancelled cancelled = true
same skipped skipped = true
same awaiting_approval awaiting_approval = true
same _ _ = false

-- `VALID_TASK_RUN_TRANSITIONS`
unfoldable pub transitions : TaskRunStatus → List TaskRunStatus
transitions pending = running ∷ awaiting_approval ∷ cancelled ∷ skipped ∷ []
transitions running = success ∷ failed ∷ cancelled ∷ []
transitions awaiting_approval = running ∷ failed ∷ cancelled ∷ []
transitions success = []
transitions failed = []
transitions cancelled = []
transitions skipped = []

unfoldable pub terminal_states : List TaskRunStatus
terminal_states = success ∷ failed ∷ cancelled ∷ skipped ∷ []

unfoldable pub validate_task_transition : TaskRunStatus → TaskRunStatus → Bool
unfolding transitions includes_of
validate_task_transition from to = includes_of same (transitions from) to

-- Returns, or throws an `InvalidTransitionError`.
unfoldable pub assert_task_transition :
    TaskRunStatus → TaskRunStatus → Result TaskRunStatus (Unit {0})
unfolding validate_task_transition
assert_task_transition from to =
    if validate_task_transition from to then ok tt else invalid_transition from to

unfoldable pub is_task_terminal : TaskRunStatus → Bool
unfolding terminal_states includes_of
is_task_terminal status = includes_of same terminal_states status
