-- ===== src/Runner/Groups/Group.antt =====
-- What one group leaves in the map of outcomes (`executeGroups` of pipeline-executor.ts, lines 224 to
-- 242).
use dev_ops_deployment_tool.Common.{
  ℕ, ◌≡◌, ◌∙◌, ◌⊎◌, inl, inr, ◌<◌, refl, String, true, false, not, List, [], ◌∷◌, none, some,
  eq_iff, eq_refl, if◌then◌else◌, count, includes, includes-count, not_includes-count, Bool-cases,
  arith,
}
use dev_ops_deployment_tool.Dag.Graph.{dependencies}
use dev_ops_deployment_tool.Dag.Validate.{keep}
use dev_ops_deployment_tool.Dag.Kahn.{count-keep}
use dev_ops_deployment_tool.Runner.Effects.{Trace, Result, return, thrown, waiting, and_then}
use dev_ops_deployment_tool.Runner.Task.{TaskOutcome, success, execute_task}
use dev_ops_deployment_tool.Runner.Groups.{
  TaskMap, config_of, dag_input, ran, skipped, Outcomes, outcome_of, any_stops, blocked, skip_task,
  skip_all, both, set_all, Schedule, run_parallel, execute_group,
}

-- `resolveDAG` reads the same dependencies as `blocked`.
pub dependencies-dag_input :
    (tasks : TaskMap) (x : String)
    → dependencies (dag_input tasks) x ≡ (config_of tasks x).depends_on
unfolding dependencies dag_input config_of
dependencies-dag_input [] x = refl
dependencies-dag_input ((n, c) ∷ tasks) x = ground (arith, dependencies-dag_input tasks x)

outcome_of-skip_all :
    (tasks : TaskMap) (ns : List String) (outcomes : Outcomes) (tr : Trace) (x : String)
    → outcome_of (skip_all tasks ns outcomes tr).0 x
      ≡ (if includes ns x then some skipped else outcome_of outcomes x)
unfolding skip_all outcome_of includes
outcome_of-skip_all tasks [] outcomes tr x = refl
outcome_of-skip_all tasks (n ∷ ns) outcomes tr x = ground (
  arith,
  outcome_of-skip_all tasks ns ((n, skipped) ∷ outcomes) (skip_task n (config_of tasks n) tr) x,
)

any_stops_cong :
    (os os' : Outcomes) (ds : List String)
    → ((d : String) → 0 < count d ds → outcome_of os' d ≡ outcome_of os d)
    → any_stops os' ds ≡ any_stops os ds
unfolding any_stops
any_stops_cong os os' [] h = refl
any_stops_cong os os' (d ∷ ds) h =
    ground (arith, eq_refl d, h d, any_stops_cong os os' ds (λ e m. h e (omega arith)))

-- Where nothing stops a task, each dependency that has an outcome has succeeded.
pub not_stopped :
    (os : Outcomes) (ds : List String) (d : String)
    → any_stops os ds ≡ false
    → 0 < count d ds
    → (outcome_of os d ≡ none) ⊎ (outcome_of os d ≡ some (ran success))
unfolding any_stops
not_stopped os [] d h m = absurd (omega arith)
not_stopped os (e ∷ ds) d h m = ground (arith, eq_iff e d, not_stopped os ds d)

-- The results of a group's tasks: an outcome for each of them, and for no other.
pub record Covers (ns : List String) (rs : Outcomes) : Type 0 where
  pub inside :
      (x : String)
      → 0 < count x ns
      → (outcomes : Outcomes)
      → (o : TaskOutcome) × (outcome_of (set_all rs outcomes) x ≡ some (ran o))
  pub outside :
      (x : String)
      → count x ns ≡ 0
      → (outcomes : Outcomes) → outcome_of (set_all rs outcomes) x ≡ outcome_of outcomes x

both-return :
    (name : String) (r : Result TaskOutcome) (rs : Result Outcomes) (all : Outcomes)
    → both name r rs ≡ return all
    → (o : TaskOutcome) × (os : Outcomes) × (rs ≡ return os) × (all ≡ (name, ran o) ∷ os)
both-return name (return o) (return os) all e = (o, os, refl, ground (arith, e))
both-return name (return o) thrown all e = absurd (cc)
both-return name (return o) waiting all e = absurd (cc)
both-return name thrown rs all e = absurd (cc)
both-return name waiting (return os) all e = absurd (cc)
both-return name waiting thrown all e = absurd (cc)
both-return name waiting waiting all e = absurd (cc)

Covers-nil : Covers [] []
unfolding set_all
Covers-nil = record { inside = λ x m. absurd (omega arith); outside = λ x m os. refl }

Covers-cons :
    (name : String) (o : TaskOutcome) (ns : List String) (rs : Outcomes)
    → Covers ns rs
    → Covers (name ∷ ns) ((name, ran o) ∷ rs)
unfolding set_all outcome_of
Covers-cons name o ns rs c = record {
  inside = λ x m os. elim (Bool-cases (includes ns x)) [
    | inl i ↦ c.inside x (includes-count ns x i) ((name, ran o) ∷ os)
    | inr i ↦ (
      o,
      ground (
        arith,
        not_includes-count ns x i,
        c.outside x (not_includes-count ns x i) ((name, ran o) ∷ os),
      ),
    )
  ];
  outside = λ x m os. ground (arith, c.outside x (omega arith) ((name, ran o) ∷ os));
}

set-return :
    (r : Result Outcomes) (os os' : Outcomes) (start : Trace)
    → (and_then r (λ rs tr. (return (set_all rs os), tr)) start).0 ≡ return os'
    → (rs : Outcomes) × (r ≡ return rs) × (set_all rs os ≡ os')
set-return (return rs) os os' start e = (rs, refl, cc)
set-return thrown os os' start e = absurd (cc)
set-return waiting os os' start e = absurd (cc)

module _ (s : Schedule) (rounds : ℕ) (tasks : TaskMap) where
  run_parallel-Covers :
      (start : Trace) (ns : List String) (rs : Outcomes)
      → (run_parallel s rounds tasks start ns).0 ≡ return rs
      → Covers ns rs
  unfolding run_parallel
  run_parallel-Covers start [] rs e = let same : [] ≡ rs = cc in rw (← same) Covers-nil
  run_parallel-Covers start (n ∷ ns) rs e =
      let (o, os, ran_os, all) =
        both-return n (execute_task (s.world start n) rounds n (config_of tasks n) []).0
          (run_parallel s rounds tasks start ns).0 rs e in
      rw all (Covers-cons n o ns os (run_parallel-Covers start ns os ran_os))

  -- A group leaves the other tasks alone, skips those of its tasks that something stops, and runs the
  -- others.
  pub record GroupEnd (group : List String) (os os' : Outcomes) : Type 0 where
    pub kept : (x : String) → count x group ≡ 0 → outcome_of os' x ≡ outcome_of os x
    pub skips :
        (x : String)
        → 0 < count x group
        → blocked tasks os x ≡ true
        → outcome_of os' x ≡ some skipped
    pub runs :
        (x : String)
        → 0 < count x group
        → blocked tasks os x ≡ false
        → (o : TaskOutcome) × (outcome_of os' x ≡ some (ran o))

  -- No task of the group depends on another one of it.
  abbrev pub IsIndependent : List String → Type 0
  IsIndependent group =
      (x : String)
      → 0 < count x group
      → (d : String) → 0 < count d (config_of tasks x).depends_on
      → count d group ≡ 0

  module _ (group : List String) (os : Outcomes) (apart : IsIndependent group) where
    abbrev skips_of : List String
    skips_of = keep (blocked tasks os) group

    count-skips_of : (x : String) → count x group ≡ 0 → includes skips_of x ≡ false
    unfolding keep
    count-skips_of x m = elim (Bool-cases (includes skips_of x)) [
      | inl i ↦
          absurd
            (ground (arith, includes-count skips_of x i, count-keep (blocked tasks os) x group))
      | inr i ↦ i
    ]

    -- Skipping tasks of the group stops no other task of it.
    blocked_again :
        (start : Trace) (x : String)
        → 0 < count x group
        → blocked tasks (skip_all tasks skips_of os start).0 x ≡ blocked tasks os x
    unfolding blocked
    blocked_again start x m =
        any_stops_cong os (skip_all tasks skips_of os start).0 (config_of tasks x).depends_on
          (λ d k.
            outcome_of-skip_all tasks skips_of os start d
            ∙ (rw (count-skips_of d (apart x m d k)) refl))

    includes-skips_of :
        (x : String) → 0 < count x group → blocked tasks os x ≡ true → includes skips_of x ≡ true
    includes-skips_of x m b = elim (Bool-cases (includes skips_of x)) [
      | inl i ↦ i
      | inr i ↦
          absurd
            (ground (arith, not_includes-count skips_of x i, count-keep (blocked tasks os) x group))
    ]

    module _ (start : Trace) (rs : Outcomes) where
      abbrev skipped_os : Outcomes
      skipped_os = (skip_all tasks skips_of os start).0

      abbrev runnable : List String
      runnable = keep (λ x. not (blocked tasks skipped_os x)) group

      runnable_lem :
          (x : String)
          → 0 < count x group
          → count x runnable ≡ (if blocked tasks os x then 0 else count x group)
      runnable_lem x m = ground (
        arith,
        count-keep (λ y. not (blocked tasks skipped_os y)) x group,
        blocked_again start x m,
      )

      set_all-GroupEnd : Covers runnable rs → GroupEnd group os (set_all rs skipped_os)
      set_all-GroupEnd c = record {
        kept = λ x m.
            c.outside x (ground (arith, count-keep (λ y. not (blocked tasks skipped_os y)) x group))
              skipped_os
            ∙ outcome_of-skip_all tasks skips_of os start x
            ∙ (rw (count-skips_of x m) refl);
        skips = λ x m b.
            c.outside x (ground (arith, runnable_lem x m)) skipped_os
            ∙ outcome_of-skip_all tasks skips_of os start x
            ∙ (rw (includes-skips_of x m b) refl);
        runs = λ x m b. c.inside x (ground (arith, runnable_lem x m)) skipped_os;
      }

    pub execute_group-GroupEnd :
        (start : Trace) (os' : Outcomes)
        → (execute_group s rounds tasks group os start).0 ≡ return os'
        → GroupEnd group os os'
    unfolding execute_group
    execute_group-GroupEnd start os' e =
        let (os1, tr1) = skip_all tasks skips_of os start in
        let ns = keep (λ x. not (blocked tasks os1 x)) group in
        let (rs, run, same) = set-return (run_parallel s rounds tasks tr1 ns).0 os1 os' _ e in
        rw (← same) (set_all-GroupEnd start rs (run_parallel-Covers tr1 ns rs run))
