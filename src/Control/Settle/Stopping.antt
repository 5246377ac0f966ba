-- ===== src/Control/Settle/Stopping.antt =====
-- The draining deployments that are stopped when a new one is active.
use dev_ops_deployment_tool.Common.{
  ℕ, ◌≡◌, ◌≢◌, sym, ◌∙◌, ap, ◌⊎◌, inl, inr, Bool, true, false, Option, none, List, [], ◌∷◌, String,
  Bool-cases, arith,
}
use mathlib.Core.Path.{subst}
use dev_ops_deployment_tool.Status.Deployment.{DeploymentStatus, active, draining}
use dev_ops_deployment_tool.Control.Tables.{In, update}
use dev_ops_deployment_tool.Control.Settle.{
  DeploymentRow, SettleCall, stop_previous, is_previous, stop_row, stop_answer,
  settle_previous_deployments,
}

-- Where a row of an updated table comes from.
update-In :
    {A : Type 0} (test : A → Bool) (change : A → A) (xs : List A) (y : A)
    → In y (update test change xs)
    → (x : A) × (((test x ≡ true) × (y ≡ change x)) ⊎ ((test x ≡ false) × (y ≡ x)))
unfolding update
update-In test change [] y m = absurd m
update-In test change (x ∷ xs) y (inl e) = elim (Bool-cases (test x)) [
  | inl t ↦ (x, inl (t, rw t at e))
  | inr f ↦ (x, inr (f, rw f at e))
]
update-In test change (x ∷ xs) y (inr m) = update-In test change xs y m

module _ (project_id current : ℕ) where
  not_previous :
      (d : DeploymentRow)
      → is_previous project_id current d ≡ false
      → d.project_id ≡ project_id
      → d.id ≢ current
      → d.status ≢ draining
  unfolding is_previous
  not_previous d f p n e = ground arith

  stopped-ne : (now : ℕ) (d x : DeploymentRow) → d ≡ stop_row now x → d.status ≢ draining
  stopped-ne now d x e f =
      let clash : DeploymentStatus.stopped ≡ draining =
        sym (ap (λ (r : DeploymentRow). r.status) e) ∙ f in
      ground arith

-- If the new deployment is active, and the call of the database does not fail: no other deployment of
-- the project is left draining.
pub settle_stops :
    (error_of : SettleCall → Option String) (now project_id current : ℕ) (rows : List DeploymentRow)
    (d : DeploymentRow)
    → error_of stop_previous ≡ none
    → In d (settle_previous_deployments error_of now project_id current active rows).1
    → d.project_id ≡ project_id
    → d.id ≢ current
    → d.status ≢ draining
settle_stops error_of now project_id current rows d written m p n =
    let m' : In d (update (is_previous project_id current) (stop_row now) rows) =
      subst (λ (o : Option String). In d (stop_answer error_of now project_id current o rows).1)
        written m in
    let (x, from) = update-In (is_previous project_id current) (stop_row now) rows d m' in
    elim from [
      | inl (t, e) ↦ stopped-ne project_id current now d x e
      | inr (f, e) ↦
          not_previous project_id current d (ap (is_previous project_id current) e ∙ f) p n
    ]
