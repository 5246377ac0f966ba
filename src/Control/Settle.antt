-- ===== src/Control/Settle.antt =====
-- `settlePreviousDeployments` of apps/web/src/lib/settle-previous-deployments.ts.
--
-- Where two deployments were created at the same time, the database may give either of them; here it
-- gives the first one of the table.
pub mod Outcome
pub mod Restoring
pub mod Stopping
pub mod Samples
use dev_ops_deployment_tool.Common.{
  ℕ, zero, Bool, true, false, ◌&&◌, not, if◌then◌else◌, Option, none, some, List, [], ◌∷◌, String,
  ◌==◌, ltb, length,
}
use dev_ops_deployment_tool.Status.Deployment.{
  DeploymentStatus, pending, deploying, active, draining, stopped, rolled_back, failed, same,
}
use dev_ops_deployment_tool.Control.Tables.{select, update}

-- The columns that the queries use.
pub record DeploymentRow : Type 0 where
  pub id : ℕ
  pub project_id : ℕ
  pub status : DeploymentStatus
  pub public_url : Option String
  pub public_url_expires_at : Option ℕ
  pub created_at : ℕ
  pub updated_at : ℕ

pub record SettleResult : Type 0 where
  pub stopped : ℕ
  pub restored : Option ℕ
  pub error : Option String

abbrev pub nothing : SettleResult
nothing = record { stopped = 0; restored = none; error = none }

-- The calls of the database.
pub data SettleCall : Type 0 where
  stop_previous find_previous restore_previous : SettleCall

-- `later` if it was created later.
abbrev pub newer : DeploymentRow → Option DeploymentRow → DeploymentRow
newer d none = d
newer d (some later) = if ltb d.created_at later.created_at then later else d

-- `order` by the time of creation, descending, with `limit` 1.
abbrev pub newest : List DeploymentRow → Option DeploymentRow
newest [] = none
newest (d ∷ ds) = some (newer d (newest ds))

module _ (project_id current : ℕ) where
  unfoldable pub is_previous : DeploymentRow → Bool
  is_previous d = d.project_id == project_id && same d.status draining && not (d.id == current)

abbrev pub stop_row : ℕ → DeploymentRow → DeploymentRow
stop_row now d = record d {
  status = DeploymentStatus.stopped;
  public_url = none;
  public_url_expires_at = none;
  updated_at = now;
}

abbrev pub restore_row : ℕ → DeploymentRow → DeploymentRow
restore_row now d = record d { status = active; updated_at = now }

-- `error_of` is the error of a call, if any; `now` is the time.
module _ (error_of : SettleCall → Option String) (now project_id current : ℕ) where
  abbrev pub stop_answer : Option String → List DeploymentRow → SettleResult × List DeploymentRow
  stop_answer (some message) rows = (record nothing { error = some message }, rows)
  stop_answer none rows = (
    record nothing { stopped = length (select (is_previous project_id current) rows) },
    update (is_previous project_id current) (stop_row now) rows,
  )

  abbrev pub restore_answer :
      Option String → DeploymentRow → List DeploymentRow → SettleResult × List DeploymentRow
  restore_answer (some message) previous rows = (record nothing { error = some message }, rows)
  restore_answer none previous rows = (
    record nothing { restored = some previous.id },
    update (λ d. d.id == previous.id) (restore_row now) rows,
  )

  abbrev pub restore_found :
      Option DeploymentRow → List DeploymentRow → SettleResult × List DeploymentRow
  restore_found none rows = (nothing, rows)
  restore_found (some previous) rows = restore_answer (error_of restore_previous) previous rows

  abbrev pub find_answer : Option String → List DeploymentRow → SettleResult × List DeploymentRow
  find_answer (some message) rows = (record nothing { error = some message }, rows)
  find_answer none rows = restore_found (newest (select (is_previous project_id current) rows)) rows

  abbrev pub settle_previous_deployments :
      DeploymentStatus → List DeploymentRow → SettleResult × List DeploymentRow
  settle_previous_deployments active rows = stop_answer (error_of stop_previous) rows
  settle_previous_deployments failed rows = find_answer (error_of find_previous) rows
  settle_previous_deployments rolled_back rows = find_answer (error_of find_previous) rows
  settle_previous_deployments pending rows = (nothing, rows)
  settle_previous_deployments deploying rows = (nothing, rows)
  settle_previous_deployments draining rows = (nothing, rows)
  settle_previous_deployments DeploymentStatus.stopped rows = (nothing, rows)
