-- ===== src/Status/Step.antt =====
-- The states of a step run (enums.ts and constants.ts) and its checks (state-machine.ts, lines 84 to 103).
use dev_ops_deployment_tool.Common.{Bool, true, false, List, [], ◌∷◌, includes_of, if◌then◌else◌}
use dev_ops_deployment_tool.Status.Result.{Result, ok, invalid_transition}

pub data StepRunStatus : Type 0 where
  pending running success failed cancelled skipped : StepRunStatus

pub StepRunStatus-discrete : Discrete StepRunStatus
StepRunStatus-discrete = hlevel

-- `a === b`
abbrev pub same : StepRunStatus → StepRunStatus → Bool
same pending pending = true
same running running = true
same success success = true
same failed failed = true
same cancelled cancelled = true
same skipped skipped = true
same _ _ = false

-- `VALID_STEP_RUN_TRANSITIONS`
unfoldable pub transitions : StepRunStatus → List StepRunStatus
transitions pending = running ∷ cancelled ∷ skipped ∷ []
transitions running = success ∷ failed ∷ cancelled ∷ []
transitions success = []
transitions failed = []
transitions cancelled = []
transitions skipped = []

unfoldable pub terminal_states : List StepRunStatus
terminal_states = success ∷ failed ∷ cancelled ∷ skipped ∷ []

unfoldable pub validate_step_transition : StepRunStatus → StepRunStatus → Bool
unfolding transitions includes_of
validate_step_transition from to = includes_of same (transitions from) to

-- Returns, or throws an `InvalidTransitionError`.
unfoldable pub assert_step_transition :
    StepRunStatus → StepRunStatus → Result StepRunStatus (Unit {0})
unfolding validate_step_transition
assert_step_transition from to =
    if validate_step_transition from to then ok tt else invalid_transition from to

unfoldable pub is_step_terminal : StepRunStatus → Bool
unfolding terminal_states includes_of
is_step_terminal status = includes_of same terminal_states status
