-- ===== src/Control/Settle/Outcome.antt =====
-- What the settling of the previous deployments does to their rows.
use dev_ops_deployment_tool.Common.{
  ℕ, ◌≤◌, ◌≡◌, ◌≢◌, refl, sym, ◌∙◌, ◌⊎◌, inl, inr, true, Option, none, some, List, [], ◌∷◌, String,
  ◌==◌, ltb, ==_iff, arith, Bool-cases, ap, includes_of,
}
use mathlib.Core.Path.{subst}
use dev_ops_deployment_tool.Status.Deployment.{
  DeploymentStatus, pending, deploying, active, draining, rolled_back, failed, same,
  validate_deployment_transition, transitions,
}
use dev_ops_deployment_tool.Control.Tables.{
  In, Each, Each-refl, Each-update, select-In, Unique, Unique-eq, select,
}
use dev_ops_deployment_tool.Control.Settle.{
  DeploymentRow, SettleCall, stop_previous, find_previous, restore_previous, newest, newer,
  is_previous, stop_row, restore_row, restore_answer, restore_found, find_answer, stop_answer,
  settle_previous_deployments,
}

newer-In : (d : DeploymentRow) (o : Option DeploymentRow) → (d ≡ newer d o) ⊎ (o ≡ some (newer d o))
newer-In d none = inl refl
newer-In d (some q) = elim (Bool-cases (ltb d.created_at q.created_at)) [
  | inl e ↦ inr (rw e refl)
  | inr e ↦ inl (rw e refl)
]

newer-first : (d : DeploymentRow) (o : Option DeploymentRow) → d.created_at ≤ (newer d o).created_at
newer-first d none = omega arith
newer-first d (some q) = ground arith

newer-later : (d q : DeploymentRow) → q.created_at ≤ (newer d (some q)).created_at
newer-later d q = ground arith

pub newest-In : (ds : List DeploymentRow) (p : DeploymentRow) → newest ds ≡ some p → In p ds
newest-In [] p e = cc
newest-In (d ∷ ds) p e =
    let same_row : newer d (newest ds) ≡ p = cc in
    elim (newer-In d (newest ds)) [
      | inl first ↦ inl (sym same_row ∙ sym first)
      | inr later ↦ inr (newest-In ds p (later ∙ e))
    ]

pub newest-le :
    (ds : List DeploymentRow) (d : DeploymentRow)
    → In d ds
    → (p : DeploymentRow) × (newest ds ≡ some p) × (d.created_at ≤ p.created_at)
newest-le [] d m = absurd m
newest-le (x ∷ ds) d (inl m) = (newer x (newest ds), refl, rw m (newer-first x (newest ds)))
newest-le (x ∷ ds) d (inr m) =
    let (p, e, le) = newest-le ds d m in
    (newer x (some p), rw e refl, omega (le, newer-later x p, arith))

same_draining : (s : DeploymentStatus) → same s draining ≡ true → s ≡ draining
same_draining draining e = refl
same_draining pending e = cc
same_draining deploying e = cc
same_draining active e = cc
same_draining DeploymentStatus.stopped e = cc
same_draining rolled_back e = cc
same_draining failed e = cc

module _ (now project_id current : ℕ) where
  -- What a settled row becomes under the status of the new deployment.
  abbrev pub Becomes : DeploymentStatus → DeploymentRow → DeploymentRow → Type 0
  Becomes active d d' = d' ≡ record d {
    status = DeploymentStatus.stopped;
    public_url = none;
    public_url_expires_at = none;
    updated_at = now;
  }
  Becomes failed d d' = d' ≡ record d { status = active; updated_at = now }
  Becomes rolled_back d d' = d' ≡ record d { status = active; updated_at = now }
  Becomes pending d d' = ⊥
  Becomes deploying d d' = ⊥
  Becomes draining d d' = ⊥
  Becomes DeploymentStatus.stopped d d' = ⊥

  -- The row is as it was, or it is another draining one of the project and makes a legal step.
  abbrev pub Settles : DeploymentStatus → DeploymentRow → DeploymentRow → Type 0
  Settles new_status d d' =
      (d' ≡ d)
      ⊎ ((d.project_id ≡ project_id)
          × (d.status ≡ draining)
          × (d.id ≢ current)
          × (validate_deployment_transition d.status d'.status ≡ true)
          × Becomes new_status d d')

  previous-project :
      (d : DeploymentRow) → is_previous project_id current d ≡ true → d.project_id ≡ project_id
  unfolding is_previous
  previous-project d h = ground arith

  previous-ne_current :
      (d : DeploymentRow) → is_previous project_id current d ≡ true → d.id ≢ current
  unfolding is_previous
  previous-ne_current d h = ground arith

  previous-draining :
      (d : DeploymentRow) → is_previous project_id current d ≡ true → d.status ≡ draining
  unfolding is_previous
  previous-draining d h = ground (arith, same_draining d.status)

  legal_from :
      (d : DeploymentRow) (to : DeploymentStatus)
      → is_previous project_id current d ≡ true
      → validate_deployment_transition draining to ≡ true
      → validate_deployment_transition d.status to ≡ true
  legal_from d to h legal =
      ap (λ (s : DeploymentStatus). validate_deployment_transition s to) (previous-draining d h)
      ∙ legal

  module _ (error_of : SettleCall → Option String) where
    stop_answer-Settles :
        (error : Option String) (rows : List DeploymentRow)
        → Each (Settles active) rows (stop_answer error_of now project_id current error rows).1
    unfolding validate_deployment_transition includes_of transitions
    stop_answer-Settles (some message) rows = Each-refl (Settles active) (λ d. inl refl) rows
    stop_answer-Settles none rows =
        Each-update (Settles active) (is_previous project_id current) (stop_row now) (λ d. inl refl)
          rows
          (λ d m t. inr (
            previous-project d t,
            previous-draining d t,
            previous-ne_current d t,
            legal_from d DeploymentStatus.stopped t refl,
            refl,
          ))

    module _ (new_status : DeploymentStatus)
        (restores : (d : DeploymentRow) → Becomes new_status d (restore_row now d))
        (rows : List DeploymentRow) (unique : Unique (λ (d : DeploymentRow). d.id) rows) where
      kept : Each (Settles new_status) rows rows
      kept = Each-refl (Settles new_status) (λ d. inl refl) rows

      restore_answer-Settles :
          (error : Option String) (p : DeploymentRow)
          → In p rows
          → is_previous project_id current p ≡ true
          → Each
              (Settles new_status)
              rows
              (restore_answer error_of now project_id current error p rows).1
      unfolding validate_deployment_transition includes_of transitions
      restore_answer-Settles (some message) p i t = kept
      restore_answer-Settles none p i t =
          Each-update (Settles new_status) (λ d. d.id == p.id) (restore_row now) (λ d. inl refl)
            rows
            (λ d m e.
              let same_row =
                Unique-eq (λ (x : DeploymentRow). x.id) rows unique d p m i
                  ((==_iff d.id p.id).0 e) in
              let t' = subst (λ x. is_previous project_id current x ≡ true) (sym same_row) t in
              inr (
                previous-project d t',
                previous-draining d t',
                previous-ne_current d t',
                legal_from d active t' refl,
                restores d,
              ))

      restore_found-Settles :
          (found : Option DeploymentRow)
          → newest (select (is_previous project_id current) rows) ≡ found
          → Each
              (Settles new_status)
              rows
              (restore_found error_of now project_id current found rows).1
      restore_found-Settles none e = kept
      restore_found-Settles (some p) e =
          let (i, t) =
            select-In (is_previous project_id current) p rows
              (newest-In (select (is_previous project_id current) rows) p e) in
          restore_answer-Settles (error_of restore_previous) p i t

      find_answer-Settles :
          (error : Option String)
          → Each
              (Settles new_status)
              rows
              (find_answer error_of now project_id current error rows).1
      find_answer-Settles (some message) = kept
      find_answer-Settles none = restore_found-Settles _ refl

-- With distinct ids of deployments, whatever calls of the database fail and whatever the new status:
-- every deployment is left as it was, or it is another draining one of the project and takes a step
-- that the state machine of deployments allows: to `stopped`, without its URL, if the new status is
-- `active`, and back to `active`, with its URL, if the new status is `failed` or `rolled_back`.
pub settle_previous_deployments-Settles :
    (error_of : SettleCall → Option String) (now project_id current : ℕ)
    (new_status : DeploymentStatus) (rows : List DeploymentRow)
    → Unique (λ (d : DeploymentRow). d.id) rows
    → Each
        (Settles now project_id current new_status)
        rows
        (settle_previous_deployments error_of now project_id current new_status rows).1
settle_previous_deployments-Settles error_of now project_id current active rows unique =
    stop_answer-Settles now project_id current error_of (error_of stop_previous) rows
settle_previous_deployments-Settles error_of now project_id current failed rows unique =
    find_answer-Settles now project_id current error_of failed (λ d. refl) rows unique
      (error_of find_previous)
settle_previous_deployments-Settles error_of now project_id current rolled_back rows unique =
    find_answer-Settles now project_id current error_of rolled_back (λ d. refl) rows unique
      (error_of find_previous)
settle_previous_deployments-Settles error_of now project_id current pending rows unique =
    Each-refl _ (λ d. inl refl) rows
settle_previous_deployments-Settles error_of now project_id current deploying rows unique =
    Each-refl _ (λ d. inl refl) rows
settle_previous_deployments-Settles error_of now project_id current draining rows unique =
    Each-refl _ (λ d. inl refl) rows
settle_previous_deployments-Settles error_of now project_id current DeploymentStatus.stopped rows
      unique =
    Each-refl _ (λ d. inl refl) rows
