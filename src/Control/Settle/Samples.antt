-- ===== src/Control/Settle/Samples.antt =====
-- A project with a draining deployment and a new one.
use dev_ops_deployment_tool.Common.{
  ◌≤◌, ◌≡◌, ◌≢◌, refl, ap, sym, ◌∙◌, inl, inr, true, Option, none, some, List, [], ◌∷◌, arith,
  String,
}
use dev_ops_deployment_tool.Status.Deployment.{
  DeploymentStatus, active, failed, draining, deploying,
}
use dev_ops_deployment_tool.Control.Tables.{In, Each, Unique, update}
use dev_ops_deployment_tool.Control.Settle.{
  DeploymentRow, SettleCall, nothing, is_previous, restore_row, settle_previous_deployments,
}
use dev_ops_deployment_tool.Control.Settle.Outcome.{Settles, settle_previous_deployments-Settles}
use dev_ops_deployment_tool.Control.Settle.Restoring.{settle_restores}
use dev_ops_deployment_tool.Control.Settle.Stopping.{settle_stops}

abbrev old : DeploymentRow
old = record {
  id = 1;
  project_id = 7;
  status = draining;
  public_url = some "https://a";
  public_url_expires_at = none;
  created_at = 100;
  updated_at = 200;
}

abbrev new : DeploymentRow
new = record old { id = 2; status = deploying; created_at = 200 }

abbrev rows : List DeploymentRow
rows = old ∷ new ∷ []

abbrev no_errors : SettleCall → Option String
no_errors call = none

rows-Unique : Unique (λ (d : DeploymentRow). d.id) rows
rows-Unique = (
  λ y m e. elim m [
    | inl same_row ↦
        let clash : 2 ≡ 1 = sym (ap (λ (d : DeploymentRow). d.id) same_row) ∙ e in omega arith
    | inr no_row ↦ no_row
  ],
  (λ y m. absurd m, tt),
)

old-is_previous : is_previous 7 2 old ≡ true
unfolding is_previous
old-is_previous = refl

settle_previous_deployments-Settles_example :
    Each (Settles 300 7 2 active) rows (settle_previous_deployments no_errors 300 7 2 active rows).1
settle_previous_deployments-Settles_example =
    settle_previous_deployments-Settles no_errors 300 7 2 active rows rows-Unique

settle_restores_example :
    (p : DeploymentRow) × In p rows
    × (is_previous 7 2 p ≡ true)
    × (100 ≤ p.created_at)
    × In (restore_row 300 p) (settle_previous_deployments no_errors 300 7 2 failed rows).1
    × ((settle_previous_deployments no_errors 300 7 2 failed rows).0
        ≡ record nothing { restored = some p.id })
settle_restores_example =
    settle_restores no_errors 300 7 2 rows old refl refl (inl refl) old-is_previous

abbrev stopped_old : DeploymentRow
stopped_old = record old { status = DeploymentStatus.stopped; public_url = none; updated_at = 300 }

settle_stops_example : stopped_old.status ≢ draining
unfolding is_previous update
settle_stops_example =
    settle_stops no_errors 300 7 2 rows stopped_old refl (inl refl) refl (λ e. omega arith)
