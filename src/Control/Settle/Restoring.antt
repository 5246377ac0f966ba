-- ===== src/Control/Settle/Restoring.antt =====
-- Which deployment is put back when a new one fails.
use dev_ops_deployment_tool.Common.{
  ℕ, ◌≤◌, ◌≡◌, refl, sym, ◌∙◌, ap, inl, inr, Bool, true, Option, none, some, List, [], ◌∷◌, String,
  ◌==◌, ==_iff,
}
use mathlib.Core.Path.{subst}
use dev_ops_deployment_tool.Status.Deployment.{failed}
use dev_ops_deployment_tool.Control.Tables.{In, select-In, In-select, select, update}
use dev_ops_deployment_tool.Control.Settle.{
  DeploymentRow, SettleResult, SettleCall, find_previous, restore_previous, nothing, is_previous,
  restore_row, find_answer, restore_found, restore_answer, settle_previous_deployments,
}
use dev_ops_deployment_tool.Control.Settle.Outcome.{newest-In, newest-le}

In-update :
    {A : Type 0} (test : A → Bool) (change : A → A) (x : A) (xs : List A)
    → In x xs
    → test x ≡ true
    → In (change x) (update test change xs)
unfolding update
In-update test change x [] m t = absurd m
In-update test change x (y ∷ ys) (inl e) t = inl (rw (← e) (rw t refl))
In-update test change x (y ∷ ys) (inr m) t = inr (In-update test change x ys m t)

-- A new deployment has failed, and no call of the database fails. If any deployment of the project but
-- the new one is draining, then one that is draining and at least as new is put back to active, and
-- its id is the one reported.
pub settle_restores :
    (error_of : SettleCall → Option String) (now project_id current : ℕ) (rows : List DeploymentRow)
    (d : DeploymentRow)
    → error_of find_previous ≡ none
    → error_of restore_previous ≡ none
    → In d rows
    → is_previous project_id current d ≡ true
    → (p : DeploymentRow) × In p rows
      × (is_previous project_id current p ≡ true)
      × (d.created_at ≤ p.created_at)
      × In
          (restore_row now p)
          (settle_previous_deployments error_of now project_id current failed rows).1
      × ((settle_previous_deployments error_of now project_id current failed rows).0
          ≡ record nothing { restored = some p.id })
settle_restores error_of now project_id current rows d found written m t =
    let test = is_previous project_id current in
    let (p, e, le) = newest-le (select test rows) d (In-select test d rows m t) in
    let (i, u) = select-In test p rows (newest-In (select test rows) p e) in
    let settled : settle_previous_deployments error_of now project_id current failed rows
        ≡ restore_answer error_of now project_id current none p rows =
      ap (λ o. find_answer error_of now project_id current o rows) found
      ∙ ap (λ o. restore_found error_of now project_id current o rows) e
      ∙ ap (λ o. restore_answer error_of now project_id current o p rows) written in
    (
      p,
      i,
      u,
      le,
      subst (λ (r : SettleResult × List DeploymentRow). In (restore_row now p) r.1) (sym settled)
          (In-update (λ (x : DeploymentRow). x.id == p.id) (restore_row now) p rows i
            ((==_iff p.id p.id).1 refl)),
      ap (λ (r : SettleResult × List DeploymentRow). r.0) settled,
    )
