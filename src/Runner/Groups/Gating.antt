-- ===== src/Runner/Groups/Gating.antt =====
-- Which tasks `executeGroups` (pipeline-executor.ts, lines 208 to 249) runs, skips and leaves out.
use dev_ops_deployment_tool.Common.{
  ℕ, ◌≡◌, ◌∙◌, inl, inr, ◌<◌, refl, String, Bool, true, false, List, [], ◌∷◌, ◌++◌, none, some, sym,
  dec_lt, count, count-append, Distinct, Bool-cases, Option-cases, arith,
}
use mathlib.Core.List.{append_assoc}
use dev_ops_deployment_tool.Dag.Order.{IsLayered, concat}
use dev_ops_deployment_tool.Runner.Effects.{Trace, Result, return, thrown, waiting, and_then}
use dev_ops_deployment_tool.Runner.Task.{TaskOutcome, success}
use dev_ops_deployment_tool.Runner.Groups.{
  TaskMap, config_of, dag_input, Settlement, ran, skipped, Outcomes, outcome_of, any_stops, blocked,
  Schedule, execute_group, walk_groups,
}
use dev_ops_deployment_tool.Runner.Groups.Group.{
  dependencies-dag_input, not_stopped, GroupEnd, execute_group-GroupEnd,
}

any_stops_mono :
    (os os' : Outcomes) (ds : List String)
    → ((d : String) (o : Settlement) → outcome_of os d ≡ some o → outcome_of os' d ≡ some o)
    → any_stops os ds ≡ true
    → any_stops os' ds ≡ true
unfolding any_stops
any_stops_mono os os' [] h e = e
any_stops_mono os os' (d ∷ ds) h e = elim (Option-cases (outcome_of os d)) [
  | inl n ↦ ground (arith, n, any_stops_mono os os' ds h)
  | inr (o, n) ↦ ground (arith, n, h d o n, any_stops_mono os os' ds h)
]

module _ (tasks : TaskMap) where
  -- Every task that ran has all of its dependencies succeeded, and every task that was skipped has a
  -- dependency that did not succeed.
  pub record IsGated (os : Outcomes) : Type 0 where
    pub ran_after :
        (x : String) (o : TaskOutcome)
        → outcome_of os x ≡ some (ran o)
        → (d : String) → 0 < count d (config_of tasks x).depends_on
        → outcome_of os d ≡ some (ran success)
    pub skipped_behind :
        (x : String)
        → outcome_of os x ≡ some skipped
        → any_stops os (config_of tasks x).depends_on ≡ true

  -- The tasks with an outcome are those of `seen`.
  pub record IsAt (seen : List String) (os : Outcomes) : Type 0 where
    pub known : (x : String) → 0 < count x seen → (o : Settlement) × (outcome_of os x ≡ some o)
    pub unknown : (x : String) → count x seen ≡ 0 → outcome_of os x ≡ none
    pub gated : IsGated os

  module _ (s : Schedule) (rounds : ℕ) (seen group : List String) (os os' : Outcomes)
      (at : IsAt seen os) (e : GroupEnd s rounds tasks group os os')
      (fresh : (x : String) → 0 < count x seen → count x group ≡ 0)
      (settled : (x : String)
        → 0 < count x group
        → (d : String) → 0 < count d (config_of tasks x).depends_on
        → 0 < count d seen) where
    same_seen : (d : String) → 0 < count d seen → outcome_of os' d ≡ outcome_of os d
    same_seen d m = e.kept d (fresh d m)

    settled_known :
        (x : String) → 0 < count x group → (o : Settlement) × (outcome_of os' x ≡ some o)
    settled_known x m = elim (Bool-cases (blocked tasks os x)) [
      | inl b ↦ (skipped, e.skips x m b)
      | inr b ↦ let (o, r) = e.runs x m b in (ran o, r)
    ]

    stays : (d : String) (o : Settlement) → outcome_of os d ≡ some o → outcome_of os' d ≡ some o
    stays d o r = elim (dec_lt 0 (count d seen)) [
      | yes m ↦ same_seen d m ∙ r
      | no m ↦ absurd (cc (at.unknown d (omega arith), r))
    ]

    ran_after_group :
        (x : String) (o : TaskOutcome)
        → outcome_of os' x ≡ some (ran o)
        → (d : String) → 0 < count d (config_of tasks x).depends_on
        → outcome_of os' d ≡ some (ran success)
    unfolding blocked
    ran_after_group x o r d m = elim (dec_lt 0 (count x group)) [
      | yes here ↦ elim (Bool-cases (blocked tasks os x)) [
        | inl b ↦ absurd (ground (arith, e.skips x here b, r))
        | inr b ↦
            let (o', k) = at.known d (settled x here d m) in
            stays d (ran success) (elim (not_stopped os (config_of tasks x).depends_on d b m) [
              | inl n ↦ absurd (cc (n, k))
              | inr n ↦ n
            ])
      ]
      | no away ↦
          stays d (ran success) (at.gated.ran_after x o (sym (e.kept x (omega arith)) ∙ r) d m)
    ]

    skipped_behind_group :
        (x : String)
        → outcome_of os' x ≡ some skipped
        → any_stops os' (config_of tasks x).depends_on ≡ true
    unfolding blocked
    skipped_behind_group x r =
        any_stops_mono os os' (config_of tasks x).depends_on stays
          (elim (dec_lt 0 (count x group)) [
            | yes here ↦ elim (Bool-cases (blocked tasks os x)) [
              | inl b ↦ b
              | inr b ↦ let (o, k) = e.runs x here b in absurd (ground (arith, k, r))
            ]
            | no away ↦ at.gated.skipped_behind x (sym (e.kept x (omega arith)) ∙ r)
          ])

    group-IsAt : IsAt (seen ++ group) os'
    group-IsAt = record {
      known = λ x m. elim (dec_lt 0 (count x group)) [
        | yes here ↦ settled_known x here
        | no away ↦
            let (o, r) = at.known x (omega (arith, count-append x seen group)) in (o, stays x o r)
      ];
      unknown = λ x m.
          e.kept x (omega (arith, count-append x seen group))
          ∙ at.unknown x (omega (arith, count-append x seen group));
      gated = record { ran_after = ran_after_group; skipped_behind = skipped_behind_group };
    }

  -- What the loop leaves: every task of the groups has an outcome unless a check has stopped it.
  abbrev pub WalkEnd : List String → Result (Bool × Outcomes) → Type 0
  WalkEnd all (return (stopped, os)) =
      IsGated os
      × ((x : String)
          → 0 < count x all
          → stopped ≡ false
          → (o : Settlement) × (outcome_of os x ≡ some o))
      × ((x : String) → count x all ≡ 0 → outcome_of os x ≡ none)
  WalkEnd all thrown = Unit
  WalkEnd all waiting = Unit

  module _ (s : Schedule) (rounds : ℕ) where
    after_group :
        (r : Result Outcomes) (gs : List (List String)) (seen all : List String) (start : Trace)
        → ((os : Outcomes) → r ≡ return os → IsAt seen os)
        → ((os : Outcomes) → IsAt seen os → WalkEnd all (walk_groups s rounds tasks gs os start).0)
        → WalkEnd all (and_then r (walk_groups s rounds tasks gs) start).0
    after_group (return os) gs seen all start at next = next os (at os refl)
    after_group thrown gs seen all start at next = tt
    after_group waiting gs seen all start at next = tt

    stopped-WalkEnd :
        (seen rest : List String) (os : Outcomes)
        → IsAt seen os
        → WalkEnd (seen ++ rest) (return (true, os))
    stopped-WalkEnd seen rest os at = (
      at.gated,
      λ x m go. absurd (cc),
      λ x m. at.unknown x (omega (arith, count-append x seen rest)),
    )

    -- The group of a plan is independent of itself and of what has run.
    group_step :
        (g : List String) (gs : List (List String)) (seen : List String) (os os' : Outcomes)
        → IsLayered (dag_input tasks) seen (g ∷ gs)
        → Distinct (seen ++ (g ++ concat gs))
        → IsAt seen os
        → (start : Trace) → (execute_group s rounds tasks g os start).0 ≡ return os'
        → IsAt (seen ++ g) os'
    group_step g gs seen os os' l d at start e =
        let fresh : (x : String) → 0 < count x seen → count x g ≡ 0 = λ x m.
          omega (arith, d x, count-append x seen (g ++ concat gs), count-append x g (concat gs)) in
        let settled : (x : String)
            → 0 < count x g
            → (y : String) → 0 < count y (config_of tasks x).depends_on
            → 0 < count y seen =
          λ x m y k. l.0 x m y (rw (dependencies-dag_input tasks x) k) in
        group-IsAt s rounds seen g os os' at
          (execute_group-GroupEnd s rounds tasks g os (λ x m y k. fresh y (settled x m y k)) start
            os' e)
          fresh settled

    walk_groups-WalkEnd :
        (groups : List (List String)) (seen : List String) (os : Outcomes) (start : Trace)
        → IsLayered (dag_input tasks) seen groups
        → Distinct (seen ++ concat groups)
        → IsAt seen os
        → WalkEnd (seen ++ concat groups) (walk_groups s rounds tasks groups os start).0
    unfolding walk_groups
    walk_groups-WalkEnd [] seen os start l d at = (
      at.gated,
      λ x m go. at.known x (ground (arith, count-append x seen [])),
      λ x m. at.unknown x (ground (arith, count-append x seen [])),
    )
    walk_groups-WalkEnd (g ∷ gs) seen os start l d at = elim (Bool-cases (s.check start)) [
      | inl stop ↦ rw (stop, WalkEnd) (stopped-WalkEnd seen (g ++ concat gs) os at)
      | inr go ↦
          rw (go, WalkEnd)
            (after_group (execute_group s rounds tasks g os start).0 gs (seen ++ g)
              (seen ++ (g ++ concat gs)) (execute_group s rounds tasks g os start).1
              (λ os' e. group_step g gs seen os os' l d at start e)
              (λ os' at'. rw (← append_assoc) (
                walk_groups-WalkEnd gs (seen ++ g) os' (execute_group s rounds tasks g os start).1
                  l.1 (rw append_assoc d) at')))
    ]

-- The outcomes of a walk over a plan from the start.
pub plan-WalkEnd :
    (tasks : TaskMap) (s : Schedule) (rounds : ℕ) (groups : List (List String)) (start : Trace)
    → IsLayered (dag_input tasks) [] groups
    → Distinct (concat groups)
    → WalkEnd tasks (concat groups) (walk_groups s rounds tasks groups [] start).0
unfolding outcome_of
plan-WalkEnd tasks s rounds groups start l d =
    walk_groups-WalkEnd tasks s rounds groups [] [] start l d (record {
      known = λ x m. absurd (omega arith);
      unknown = λ x m. refl;
      gated = record {
        ran_after = λ x o r. absurd (ground (arith, r));
        skipped_behind = λ x r. absurd (ground (arith, r));
      };
    })
