-- ===== src/Control/Claim/Expansion.antt =====
-- What the expansion of a claimed run writes.
use dev_ops_deployment_tool.Common.{
  ℕ, suc, ◌+◌, ◌≡◌, refl, sym, ap, ◌∙◌, inl, inr, Bool, true, false, List, [], ◌∷◌, ◌++◌, String,
  All, length,
}
use mathlib.Core.List.{append-nil}
use dev_ops_deployment_tool.Status.Task
use dev_ops_deployment_tool.Status.Step
use dev_ops_deployment_tool.Control.Tables.{In}
use dev_ops_deployment_tool.Control.Database.{
  Run, TaskRun, StepRun, VersionStep, VersionTask, Db, Response, reply, error, pure, write,
  occupy_runner, insert_tasks, insert_approvals, insert_steps,
}
use dev_ops_deployment_tool.Control.Rules.{Post, bind-rule}
use dev_ops_deployment_tool.Control.Auth.{Env}
use dev_ops_deployment_tool.Control.StatusRoute.Changes.{Frame, Passes}
use dev_ops_deployment_tool.Control.Claim.{
  Claimed, claimed_reply, expand, insert_into, append_tasks, append_steps, append_approvals,
  config_of_run, occupy,
}
use dev_ops_deployment_tool.Control.Claim.Inserts.{
  task_rows, step_rows, rows_of_task, steps_of, config_named, approval_rows,
}

-- A new task run of this run, and a new step run of one of these task runs.
abbrev pub IsNewTask : ℕ → TaskRun → Type 0
IsNewTask run_id t = (t.pipeline_run_id ≡ run_id) × (t.status ≡ Task.pending)

abbrev pub IsNewStep : List TaskRun → StepRun → Type 0
IsNewStep tasks s =
    (s.status ≡ Step.pending) × ((t : TaskRun) × In t tasks × (s.task_run_id ≡ t.id))

All-append : {A : Type 0} (P : A → Type 0) (xs ys : List A) → All P xs → All P ys → All P (xs ++ ys)
All-append P [] ys p q = q
All-append P (x ∷ xs) ys p q = (p.0, All-append P xs ys p.1 q)

All-map :
    {A : Type 0} (P Q : A → Type 0) → ((a : A) → P a → Q a) → (xs : List A) → All P xs → All Q xs
All-map P Q h [] p = tt
All-map P Q h (x ∷ xs) p = (h x p.0, All-map P Q h xs p.1)

task_rows-New :
    (new_id : ℕ → ℕ) (run_id index : ℕ) (tasks : List (String × VersionTask))
    → All (IsNewTask run_id) (task_rows new_id run_id index tasks)
unfolding task_rows
task_rows-New new_id run_id index [] = tt
task_rows-New new_id run_id index (t ∷ tasks) =
    ((refl, refl), task_rows-New new_id run_id (suc index) tasks)

rows_of_task-New :
    (new_id : ℕ → ℕ) (serial index : ℕ) (steps : List VersionStep) (t : TaskRun)
    (tasks : List TaskRun)
    → In t tasks
    → All (IsNewStep tasks) (rows_of_task new_id serial t.id index steps)
unfolding rows_of_task
rows_of_task-New new_id serial index [] t tasks m = tt
rows_of_task-New new_id serial index (step ∷ steps) t tasks m =
    ((refl, (t, m, refl)), rows_of_task-New new_id (suc serial) (suc index) steps t tasks m)

step_rows-New :
    (new_id : ℕ → ℕ) (serial : ℕ) (config : List (String × VersionTask)) (tasks : List TaskRun)
    → All (IsNewStep tasks) (step_rows new_id serial config tasks)
unfolding step_rows
step_rows-New new_id serial config [] = tt
step_rows-New new_id serial config (t ∷ ts) =
    let steps = steps_of (config_named config t.task_name) in
    All-append (IsNewStep (t ∷ ts)) (rows_of_task new_id serial t.id 0 steps)
      (step_rows new_id (serial + length steps) config ts)
      (rows_of_task-New new_id serial 0 steps t (t ∷ ts) (inl refl))
      (All-map (IsNewStep ts) (IsNewStep (t ∷ ts)) (λ s (p, (u, m, e)). (p, (u, inr m, e)))
        (step_rows new_id (serial + length steps) config ts)
        (step_rows-New new_id (serial + length steps) config ts))

-- The tables after the expansion of a claimed run.
abbrev pub Expanded : ℕ → Db → Db → Type 0
Expanded run_id db db' =
    (tasks : List TaskRun) × (steps : List StepRun) × (db'.runs ≡ db.runs)
    × (db'.tasks ≡ db.tasks ++ tasks)
    × (db'.steps ≡ db.steps ++ steps)
    × All (IsNewTask run_id) tasks
    × All (IsNewStep tasks) steps

write-Passes :
    (fails : Bool) (change : Db → Db) (db : Db)
    → Frame db (change db)
    → Post (Passes db) (write fails change db)
write-Passes true change db h = (refl, refl, refl)
write-Passes false change db h = h

-- The rows that are returned are the rows that were added.
abbrev AddedTasks : (List TaskRun → Type 0) → Db → Response (List TaskRun) → Db → Type 0
AddedTasks P db (reply rows) db' =
    P rows × (db'.runs ≡ db.runs) × (db'.tasks ≡ db.tasks ++ rows) × (db'.steps ≡ db.steps)
AddedTasks P db (error code) db' = ⊥

abbrev AddedSteps : (List StepRun → Type 0) → Db → Response (List StepRun) → Db → Type 0
AddedSteps P db (reply rows) db' =
    P rows × (db'.runs ≡ db.runs) × (db'.tasks ≡ db.tasks) × (db'.steps ≡ db.steps ++ rows)
AddedSteps P db (error code) db' = ⊥

insert_into-AddedTasks :
    (fails : Bool) (P : List TaskRun → Type 0) (rows : List TaskRun) (db : Db)
    → P []
    → P rows
    → Post (AddedTasks P db) (insert_into fails append_tasks rows db)
insert_into-AddedTasks true P rows db p q = (p, refl, sym (append-nil db.tasks), refl)
insert_into-AddedTasks false P rows db p q = (q, refl, refl, refl)

insert_into-AddedSteps :
    (fails : Bool) (P : List StepRun → Type 0) (rows : List StepRun) (db : Db)
    → P []
    → P rows
    → Post (AddedSteps P db) (insert_into fails append_steps rows db)
insert_into-AddedSteps true P rows db p q = (p, refl, refl, sym (append-nil db.steps))
insert_into-AddedSteps false P rows db p q = (q, refl, refl, refl)

-- An expansion always replies.
abbrev pub Expands : ℕ → Db → Response Claimed → Db → Type 0
Expands run_id db (reply c) db' = Expanded run_id db db'
Expands run_id db (error code) db' = ⊥

pub expand-Expands :
    (env : Env) (run_id runner_id : ℕ) (run : Run) (db : Db)
    → Post (Expands run_id db) (expand env run_id runner_id run db)
unfolding expand occupy
expand-Expands env run_id runner_id run db =
    let P = Expands run_id db in
    bind-rule P (Passes db) (write (env.fails occupy_runner) (occupy run_id runner_id)) _ db
      (write-Passes (env.fails occupy_runner) (occupy run_id runner_id) db (refl, refl, refl))
      (λ _ d₁ (r₁, t₁, s₁).
        let config = config_of_run run d₁ in
        let wanted = task_rows env.new_task_id run_id 0 config in
        bind-rule P (AddedTasks (All (IsNewTask run_id)) d₁)
          (insert_into (env.fails insert_tasks) append_tasks wanted) _ d₁
          (insert_into-AddedTasks (env.fails insert_tasks) (All (IsNewTask run_id)) wanted d₁ tt
            (task_rows-New env.new_task_id run_id 0 config))
          (λ tasks d₂ (new₂, r₂, t₂, s₂).
            bind-rule P (Passes d₂)
              (write (env.fails insert_approvals) (append_approvals (approval_rows config tasks))) _
              d₂
              (write-Passes (env.fails insert_approvals)
                (append_approvals (approval_rows config tasks)) d₂ (refl, refl, refl))
              (λ _ d₃ (r₃, t₃, s₃).
                let steps = step_rows env.new_step_id 0 config tasks in
                bind-rule P (AddedSteps (All (IsNewStep tasks)) d₃)
                  (insert_into (env.fails insert_steps) append_steps steps)
                  (λ rows. pure (claimed_reply run config tasks rows)) d₃
                  (insert_into-AddedSteps (env.fails insert_steps) (All (IsNewStep tasks)) steps d₃
                    tt (step_rows-New env.new_step_id 0 config tasks))
                  (λ rows d₄ (new₄, r₄, t₄, s₄). (
                    tasks,
                    rows,
                    r₄ ∙ r₃ ∙ r₂ ∙ r₁,
                    t₄ ∙ t₃ ∙ t₂ ∙ ap (λ (ts : List TaskRun). ts ++ tasks) t₁,
                    s₄ ∙ ap (λ (ss : List StepRun). ss ++ rows) (s₃ ∙ s₂ ∙ s₁),
                    new₂,
                    new₄,
                  ))
                  (λ _ _ q. absurd q))
              (λ _ _ q. absurd q))
          (λ _ _ q. absurd q))
      (λ _ _ q. absurd q)
