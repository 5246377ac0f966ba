-- ===== src/Rolling/Deployed.antt =====
-- What a deployment onto running instances leaves behind.
use dev_ops_deployment_tool.Common.{
  ℕ, ◌≡◌, ◌<◌, refl, sym, inl, inr, String, Bool, true, Option, none, some, List, [], ◌∷◌, str_eq,
  if◌then◌else◌, Bool-cases, arith,
}
use mathlib.Core.Path.{subst}
use dev_ops_deployment_tool.Healing.PreviousImage.{
  ContainerInspection, resolve_previous_image, with_previous_image_label,
}
use dev_ops_deployment_tool.Rolling.Calls.{
  Docker, Host, Instance, inspect_running, inspection_of, seen_up, count_call, and_then,
}
use dev_ops_deployment_tool.Rolling.Plan.{
  Deploy, DeployResult, succeeded, instance_count, max_unavailable, plan_of, ordinals_from,
  rolling_max_instances,
}
use dev_ops_deployment_tool.Rolling.Steps.{new_instance}
use dev_ops_deployment_tool.Rolling.{found, discover, caught_deploy, deploy_onto, roll, deploy}
use dev_ops_deployment_tool.Rolling.Rollout.{Then, Then-rule}
use dev_ops_deployment_tool.Rolling.Success.{roll_succeeds}

-- An instance that runs.
abbrev IsRunning : Docker → ContainerInspection → Type 0
IsRunning d c =
    (i : ℕ) × (old : Instance) × (d.instances i ≡ some old)
    × (old.is_up ≡ true)
    × (old.inspection ≡ c)

abbrev FirstRuns : Docker → List ContainerInspection → Docker → Type 0
FirstRuns d [] d' = d'.instances ≡ d.instances
FirstRuns d (c ∷ cs) d' = (d'.instances ≡ d.instances) × IsRunning d c

abbrev IsFound : Docker → Option ContainerInspection → Type 0
IsFound d none = Unit
IsFound d (some c) = IsRunning d c

found-FirstRuns :
    (d d' : Docker) (o : Option ContainerInspection) (more : List ContainerInspection)
    → IsFound d o
    → FirstRuns d more d'
    → FirstRuns d (found o more) d'
found-FirstRuns d d' none more f r = r
found-FirstRuns d d' (some c) [] f r = (r, f)
found-FirstRuns d d' (some c) (c' ∷ cs) f r = (r.0, f)

seen-IsFound :
    (d : Docker) (i : ℕ) (sees : Bool) (o : Option Instance)
    → d.instances i ≡ o
    → IsFound d (if seen_up sees o then inspection_of o else none)
seen-IsFound d i sees none e = tt
seen-IsFound d i sees (some old) e = elim (Bool-cases (old.is_up)) [
  | inl up ↦ elim (Bool-cases sees) [
    | inl s ↦ rw (up, s) (i, old, e, up, refl)
    | inr s ↦ rw (up, s) tt
  ]
  | inr down ↦ rw down tt
]

discover-FirstRuns : (h : Host) (is : List ℕ) (d : Docker) → Then (FirstRuns d) (discover h is d)
unfolding discover inspect_running
discover-FirstRuns h [] d = refl
discover-FirstRuns h (i ∷ is) d =
    let o =
      if seen_up (h.sees d.calls) (d.instances i) then inspection_of (d.instances i) else none in
    Then-rule (FirstRuns (count_call d)) (FirstRuns d) (discover h is)
      (λ more d'. (some (found o more), d')) (count_call d) (discover-FirstRuns h is (count_call d))
      (λ more d' r.
        found-FirstRuns d d' o more (seen-IsFound d i (h.sees d.calls) (d.instances i) refl) r)

-- The label with the previous image of an instance that replaces `old`: the image of `old`, or the same
-- label of `old` if the image stays the same.
abbrev pub previous_label :
    (old : ContainerInspection) (image : String) (otherwise : Option String) → Option String
previous_label old image otherwise =
    if str_eq old.image ""
    then otherwise
    else if str_eq old.image image
    then (elim (old.labels "deployx.previousImage") [
      | none ↦ otherwise
      | some label ↦ if str_eq label "" then otherwise else some label
    ])
    else some old.image

new_instance-labels :
    (h : Host) (ctx : Deploy) (outgoing : ContainerInspection) (j : ℕ) (key : String)
    → (new_instance h ctx (plan_of ctx outgoing).previous_image j).inspection.labels key ≡ (
        if str_eq key "deployx.previousImage"
        then previous_label outgoing ctx.image_tag (ctx.labels j key)
        else ctx.labels j key)
unfolding plan_of resolve_previous_image with_previous_image_label
new_instance-labels h ctx outgoing j key = ground arith

caught_lem :
    (p : Option DeployResult × Docker) (d' : Docker)
    → caught_deploy (λ d. p) d' ≡ (some succeeded, d')
    → p ≡ (some succeeded, d')
caught_lem (none, d) d' e = absurd (ground arith)
caught_lem (some r, d) d' e = e

-- A deployment for which running instances are found, whatever Docker and nginx answer: if it reports
-- success, and `max_unavailable` and the number of instances are positive, then every instance of the
-- configured number is up and runs the image of the deployment. Its labels are those configured, but
-- the one with the previous image, which is the image of a running instance that was found, or that
-- instance's own such label if it ran the same image.
pub deploy_succeeds :
    (h : Host) (ctx : Deploy) (outgoing : ContainerInspection) (more : List ContainerInspection)
    (d d₁ d' : Docker) (j : ℕ) (key : String)
    → 0 < max_unavailable ctx
    → discover h (ordinals_from 0 rolling_max_instances) d ≡ (some (outgoing ∷ more), d₁)
    → deploy h ctx d ≡ (some succeeded, d')
    → j < instance_count ctx
    → (i : ℕ) × (old new : Instance) × (d.instances i ≡ some old)
      × (old.is_up ≡ true)
      × (d'.instances j ≡ some new)
      × (new.is_up ≡ true)
      × (new.inspection.image ≡ ctx.image_tag)
      × (new.inspection.labels key ≡ (
          if str_eq key "deployx.previousImage"
          then previous_label old.inspection ctx.image_tag (ctx.labels j key)
          else ctx.labels j key))
unfolding deploy
deploy_succeeds h ctx outgoing more d d₁ d' j key pos seen won lt =
    let all = ordinals_from 0 rolling_max_instances in
    let (_, (i, old, at_i, up, same)) : FirstRuns d (outgoing ∷ more) d₁ =
      subst (Then (FirstRuns d)) seen (discover-FirstRuns h all d) in
    let onto : caught_deploy (λ x. roll h ctx outgoing d₁) d' ≡ (some succeeded, d') =
      subst
        (λ (r : Option (List ContainerInspection) × Docker).
          and_then r.0 (deploy_onto h ctx) r.1 ≡ (some succeeded, d'))
        seen won in
    let rolled = caught_lem (roll h ctx outgoing d₁) d' onto in
    (
      i,
      old,
      new_instance h ctx (plan_of ctx outgoing).previous_image j,
      at_i,
      up,
      roll_succeeds h ctx outgoing d₁ d' j pos rolled lt,
      refl,
      refl,
      subst
          (λ (c : ContainerInspection).
            (new_instance h ctx (plan_of ctx outgoing).previous_image j).inspection.labels key ≡ (
              if str_eq key "deployx.previousImage"
              then previous_label c ctx.image_tag (ctx.labels j key)
              else ctx.labels j key))
          (sym same) (new_instance-labels h ctx outgoing j key),
    )
