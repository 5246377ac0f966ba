-- ===== src/Status/Pipeline.antt =====
-- The states of a pipeline run (enums.ts and constants.ts) and its checks (state-machine.ts, lines 38 to 57).
use dev_ops_deployment_tool.Common.{Bool, true, false, List, [], ◌∷◌, includes_of, if◌then◌else◌}
use dev_ops_deployment_tool.Status.Result.{Result, ok, invalid_transition}

pub data PipelineRunStatus : Type 0 where
  created queued running success failed cancelled timed_out : PipelineRunStatus

pub PipelineRunStatus-discrete : Discrete PipelineRunStatus
PipelineRunStatus-discrete = hlevel

-- `a === b`
abbrev pub same : PipelineRunStatus → PipelineRunStatus → Bool
same created created = true
same queued queued = true
same running running = true
same success success = true
same failed failed = true
same cancelled cancelled = true
same timed_out timed_out = true
same _ _ = false

-- `VALID_PIPELINE_RUN_TRANSITIONS`
unfoldable pub transitions : PipelineRunStatus → List PipelineRunStatus
transitions created = queued ∷ []
transitions queued = running ∷ cancelled ∷ []
transitions running = success ∷ failed ∷ cancelled ∷ timed_out ∷ []
transitions success = []
transitions failed = []
transitions cancelled = []
transitions timed_out = []

unfoldable pub terminal_states : List PipelineRunStatus
terminal_states = success ∷ failed ∷ cancelled ∷ timed_out ∷ []

unfoldable pub validate_pipeline_transition : PipelineRunStatus → PipelineRunStatus → Bool
unfolding transitions includes_of
validate_pipeline_transition from to = includes_of same (transitions from) to

-- Returns, or throws an `InvalidTransitionError`.
unfoldable pub assert_pipeline_transition :
    PipelineRunStatus → PipelineRunStatus → Result PipelineRunStatus (Unit {0})
unfolding validate_pipeline_transition
assert_pipeline_transition from to =
    if validate_pipeline_transition from to then ok tt else invalid_transition from to

unfoldable pub is_pipeline_terminal : PipelineRunStatus → Bool
unfolding terminal_states includes_of
is_pipeline_terminal status = includes_of same terminal_states status
