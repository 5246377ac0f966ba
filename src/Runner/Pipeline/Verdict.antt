-- ===== src/Runner/Pipeline/Verdict.antt =====
-- What `executePipeline` (pipeline-executor.ts, lines 40 to 129) reports of a run.
use dev_ops_deployment_tool.Common.{
  ℕ, ◌≡◌, length, ◌≢◌, ◌⊎◌, inl, inr, ◌<◌, ◌||◌, refl, String, Bool, true, false, List, [], ◌∷◌,
  some, count, Distinct, Bool-cases, dec_lt, arith,
}
use dev_ops_deployment_tool.Status.Pipeline.{PipelineRunStatus}
use dev_ops_deployment_tool.Dag.Graph.{names}
use dev_ops_deployment_tool.Dag.Resolve.{DagResult, resolved, resolve_dag}
use dev_ops_deployment_tool.Runner.Effects.{
  info, Report, pipeline_report, reported, logged, Trace, Result, return,
}
use dev_ops_deployment_tool.Runner.Task.{success}
use dev_ops_deployment_tool.Runner.Groups.{
  TaskMap, dag_input, Settlement, ran, Outcomes, outcome_of, stops, any_stops, execute_groups,
}
use dev_ops_deployment_tool.Runner.Groups.Group.{not_stopped}
use dev_ops_deployment_tool.Runner.Groups.Returns.{
  AllDecide, HasDistinctSteps, IsComplete, IsConfined, execute_groups-IsGated,
}
use dev_ops_deployment_tool.Runner.Pipeline.{
  RunWorld, keys, has_failed, complete_run, run_plan, execute_pipeline,
}

outcome_of-keys :
    (os : Outcomes) (x : String) (o : Settlement) → outcome_of os x ≡ some o → 0 < count x (keys os)
unfolding outcome_of keys
outcome_of-keys [] x o e = absurd (cc)
outcome_of-keys ((n, p) ∷ os) x o e = ground (arith, outcome_of-keys os x o)

any_stops_some :
    (os : Outcomes) (ds : List String)
    → any_stops os ds ≡ true
    → (d : String) × (stops (outcome_of os d) ≡ true)
unfolding any_stops
any_stops_some os [] e = absurd (cc)
any_stops_some os (d ∷ ds) e = elim (Bool-cases (stops (outcome_of os d))) [
  | inl now ↦ (d, now)
  | inr later ↦ any_stops_some os ds (ground (arith, e, later))
]

-- Every listed task has succeeded.
abbrev pub HaveSucceeded : List String → Outcomes → Type 0
HaveSucceeded ns os = (x : String) → 0 < count x ns → outcome_of os x ≡ some (ran success)

-- Some listed task has not.
abbrev pub HasFailure : List String → Outcomes → Type 0
HasFailure ns os = (x : String) × (0 < count x ns) × (outcome_of os x ≢ some (ran success))

-- The report behind the trace `before`.
abbrev pub Verdict : List String → Bool → Outcomes → (before after : Trace) → Type 0
Verdict ns cancelled os before after =
    ((cancelled ≡ true) × (after ≡ before))
    ⊎ ((HaveSucceeded ns os
          × (after ≡ reported (pipeline_report PipelineRunStatus.success) ∷ before))
        ⊎ (HasFailure ns os
            × (after ≡ reported (pipeline_report PipelineRunStatus.failed) ∷ before)))

succeeded :
    (ns : List String) (os : Outcomes)
    → ((x : String) → 0 < count x ns → (o : Settlement) × (outcome_of os x ≡ some o))
    → has_failed os ≡ false
    → HaveSucceeded ns os
unfolding has_failed
succeeded ns os complete e x m =
    let (o, k) = complete x m in
    elim (not_stopped os (keys os) x e (outcome_of-keys os x o k)) [
      | inl n ↦ absurd (cc (n, k))
      | inr n ↦ n
    ]

failed_somewhere :
    (ns : List String) (os : Outcomes) → IsConfined ns os → has_failed os ≡ true → HasFailure ns os
unfolding has_failed
failed_somewhere ns os confined e =
    let (x, s) = any_stops_some os (keys os) e in
    elim (dec_lt 0 (count x ns)) [
      | yes m ↦ (x, m, λ k. absurd (ground (arith, s, k)))
      | no m ↦ absurd (ground (arith, s, confined x (omega arith)))
    ]

-- The control plane takes every report, and the workspace and the run context can be set up.
pub record IsReachable (w : RunWorld) : Type 0 where
  pub accepted : (tr : Trace) (r : Report) → w.accepts tr r ≡ true
  pub ready : (tr : Trace) → w.workspace tr ≡ true

module _ (w : RunWorld) (up : IsReachable w) (ns : List String) where
  complete_run-Verdict :
      (c : Bool) (os : Outcomes) (before : Trace)
      → IsComplete ns c os
      → IsConfined ns os
      → ((complete_run w (c, os) before).0 ≡ return tt)
        × Verdict ns (c || w.cancelled_late before) os before (complete_run w (c, os) before).1
  unfolding complete_run
  complete_run-Verdict c os before complete confined =
      elim (Bool-cases (c || w.cancelled_late before)) [
        | inl stop ↦ rw stop (refl, inl (refl, refl))
        | inr go ↦ elim (Bool-cases (has_failed os)) [
          | inl f ↦
              rw (go, f, up.accepted before (pipeline_report PipelineRunStatus.failed))
                (refl, inr (inr (failed_somewhere ns os confined f, refl)))
          | inr f ↦
              rw (go, f, up.accepted before (pipeline_report PipelineRunStatus.success))
                (refl, inr (inl (succeeded ns os (known c os go complete) f, refl)))
        ]
      ]
    where
      known :
          (c : Bool) (os : Outcomes)
          → c || w.cancelled_late before ≡ false
          → IsComplete ns c os
          → (x : String) → 0 < count x ns
          → (o : Settlement) × (outcome_of os x ≡ some o)
      known c os go (inl stop) = absurd (ground (arith, go, stop))
      known c os go (inr all) = all

-- The walk over the groups, behind the first log line.
abbrev pub groups_run :
    RunWorld → ℕ → TaskMap → DagResult → Trace → Result (Bool × Outcomes) × Trace
groups_run w rounds tasks r start =
    execute_groups w.schedule rounds tasks r.groups (logged info "run" ∷ start)

-- If the control plane takes every report, the run can be set up, the plan is one that `resolveDAG`
-- returns, step names are distinct, and gates are decided after at most `n` polls when each may take
-- more than `n` rounds: `executePipeline` and its walk over the groups return. A run that is
-- cancelled is not reported; otherwise the last report says success, and every task has succeeded, or
-- it says failed, and some task has not.
pub execute_pipeline-Verdict :
    (w : RunWorld) (n rounds : ℕ) (tasks : TaskMap) (r : DagResult) (start : Trace)
    → IsReachable w
    → Distinct (names (dag_input tasks))
    → resolve_dag (dag_input tasks) ≡ some (resolved r)
    → HasDistinctSteps tasks
    → AllDecide n w.schedule
    → n < rounds
    → 0 < length tasks
    → (c : Bool) × (os : Outcomes) × ((groups_run w rounds tasks r start).0 ≡ return (c, os))
      × ((execute_pipeline w rounds tasks start).0 ≡ return tt)
      × Verdict
          (names (dag_input tasks))
          (c || w.cancelled_late (groups_run w rounds tasks r start).1)
          os
          (groups_run w rounds tasks r start).1
          (execute_pipeline w rounds tasks start).1
unfolding execute_pipeline run_plan
execute_pipeline-Verdict w n rounds [] r start up known plan once d h some_task =
    absurd (omega arith)
execute_pipeline-Verdict w n rounds (task ∷ tasks) r start up known plan once d h some_task =
    let begun = logged info "run" ∷ start in
    let (c, os, e, gated, complete, confined) =
      execute_groups-IsGated w.schedule n rounds (task ∷ tasks) r begun known plan once d h in
    let before = (execute_groups w.schedule rounds (task ∷ tasks) r.groups begun).1 in
    let (done, verdict) =
      complete_run-Verdict w up (names (dag_input (task ∷ tasks))) c os before complete confined in
    (
      c,
      os,
      e,
      rw (plan, execute_pipeline, up.ready begun, e, done) refl,
      rw (plan, execute_pipeline, up.ready begun, e, done) verdict,
    )
